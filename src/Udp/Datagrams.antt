-- ===== src/Udp/Datagrams.antt =====
-- What a network that takes all it is given gets from the UDP output.
use dvbt_rx.Base.{
  ℕ, zero, suc, ◌*◌, ◌≤◌, ◌<◌, ◌≡◌, arith, refl, sym, ap, ◌∙◌, List, [], ◌∷◌, ◌++◌, append-nil,
  append_assoc,
}
use dvbt_rx.Base.{
  length, length-drop, take, drop, take-append-drop, All, Option, some, if◌then◌else◌, ==_iff,
}
use dvbt_rx.Udp.{chunk_size, write_from, write}

abbrev pub keep_sent : List (List ℕ) → List ℕ → List (List ℕ) × Option ℕ
keep_sent sent datagram = (sent ++ (datagram ∷ []), some (length datagram))

unfoldable pub joined : List (List ℕ) → List ℕ
joined [] = []
joined (d ∷ ds) = d ++ joined ds

-- Not empty, and at most seven packets of 188 bytes.
abbrev pub IsDatagram : List ℕ → Type 0
IsDatagram d = (0 < length d) × (length d ≤ 7 * 188)

length-take_le : (n : ℕ) (xs : List ℕ) → n ≤ length xs → length (take n xs) ≡ n
length-take_le zero xs le = refl
length-take_le (suc n) [] le = absurd (omega arith)
length-take_le (suc n) (x ∷ xs) le = omega (arith, length-take_le n xs (omega arith))

chunk_size-le : (n : ℕ) → 0 < n → (0 < chunk_size n) × (chunk_size n ≤ n) × (chunk_size n ≤ 7 * 188)
unfolding chunk_size
chunk_size-le n more = ground arith

-- The datagrams sent, in their order.
Sent : List (List ℕ) → List ℕ → List (List ℕ) → Type 0
Sent before bytes after =
    (ds : List (List ℕ)) × (after ≡ before ++ ds) × (joined ds ≡ bytes) × All IsDatagram ds

write_from-Sent :
    (fuel : ℕ) (sent : List (List ℕ)) (bytes : List ℕ)
    → length bytes ≤ fuel
    → Sent sent bytes (write_from keep_sent fuel sent bytes)
unfolding write_from Sent joined
write_from-Sent zero sent [] le = ([], sym (append-nil sent), refl, tt)
write_from-Sent zero sent (b ∷ bytes) le = absurd (omega arith)
write_from-Sent (suc fuel) sent [] le = ([], sym (append-nil sent), refl, tt)
write_from-Sent (suc fuel) sent (b ∷ bytes) le =
    let (ds, after, whole, fit) =
      write_from-Sent fuel (sent ++ (datagram ∷ [])) (drop (length datagram) (b ∷ bytes))
        (shorter bounds) in
    (
      datagram ∷ ds,
      ap
            (λ t.
              if t
              then write_from keep_sent fuel (sent ++ (datagram ∷ []))
                  (drop (length datagram) (b ∷ bytes))
              else sent ++ (datagram ∷ []))
            ((==_iff _ _).1 size)
          ∙ after
          ∙ append_assoc sent (datagram ∷ []) ds,
      ap (λ t. datagram ++ t) whole
          ∙ ap (λ n. datagram ++ drop n (b ∷ bytes)) size
          ∙ take-append-drop chunk (b ∷ bytes),
      (fits bounds, fit),
    )
  where
    chunk : ℕ
    chunk = chunk_size (length (b ∷ bytes))

    datagram : List ℕ
    datagram = take chunk (b ∷ bytes)

    bounds : (0 < chunk) × (chunk ≤ length (b ∷ bytes)) × (chunk ≤ 7 * 188)
    bounds = chunk_size-le (length (b ∷ bytes)) (omega arith)

    size : length datagram ≡ chunk
    size = length-take_le chunk (b ∷ bytes) bounds.1

    shorter :
        (0 < chunk) × (chunk ≤ length (b ∷ bytes)) × (chunk ≤ 7 * 188)
        → length (drop (length datagram) (b ∷ bytes)) ≤ fuel
    shorter (more, most, fits) =
        omega (arith, size, length-drop (length datagram) (b ∷ bytes), le, more)

    fits : (0 < chunk) × (chunk ≤ length (b ∷ bytes)) × (chunk ≤ 7 * 188) → IsDatagram datagram
    fits (more, most, small) = (omega (arith, size, more), omega (arith, size, small))

-- On a network that takes each datagram whole, rbdvbt_udp_ts_output_write sends all its bytes, in
-- their order, in datagrams that are not empty and have at most 7 * 188 bytes.
pub write-IsDatagram :
    (sent : List (List ℕ)) (bytes : List ℕ)
    → (ds : List (List ℕ)) × (write keep_sent sent bytes ≡ sent ++ ds)
      × (joined ds ≡ bytes)
      × All IsDatagram ds
unfolding write Sent
write-IsDatagram sent bytes = write_from-Sent (length bytes) sent bytes (omega arith)
