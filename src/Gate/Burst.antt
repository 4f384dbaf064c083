-- ===== src/Gate/Burst.antt =====
-- The bursts of seven packets.
use dvbt_rx.Base.{
  ℕ, ◌<◌, ◌≡◌, refl, sym, ap, ◌∙◌, arith, List, [], ◌∷◌, ◌++◌, some, length, length-append,
  append_assoc, append-nil, ◌==◌, Returns, Option, if-Returns, >>=-Returns, some-Returns,
}
use dvbt_rx.Gate.{Gate, flush, write_packet, write_packets}

-- A sink that keeps every packet.
unfoldable pub keep : List (List ℕ) → List (List ℕ) → Option (List (List ℕ))
keep out burst = some (out ++ burst)

-- All that has been given to the gate: what is out, then what waits.
unfoldable pub given : Gate × List (List ℕ) → List (List ℕ)
given (gate, out) = out ++ gate.write_buf

-- The packets given have grown by `ps`, fewer than seven wait, and nothing else of the gate has changed.
unfoldable pub Wrote : Gate → List (List ℕ) → List (List ℕ) → Gate × List (List ℕ) → Type 0
Wrote gate out ps r =
    (given r ≡ given (gate, out) ++ ps)
    × (length r.0.write_buf < 7)
    × (r.0 ≡ record gate { write_buf = r.0.write_buf })

write_packet-Wrote :
    (gate : Gate) (out : List (List ℕ)) (p : List ℕ)
    → length gate.write_buf < 7
    → Returns (write_packet keep gate out p) (Wrote gate out (p ∷ []))
unfolding write_packet flush keep given Wrote
write_packet-Wrote gate out p lt =
    if-Returns _ (length (gate.write_buf ++ (p ∷ [])) == 7)
      (λ full.
        if-Returns _ (length (gate.write_buf ++ (p ∷ [])) == 0) (λ empty. absurd (ground arith))
          (λ h. some-Returns _ _ (burst_eq, omega arith, refl)))
      (λ h. some-Returns _ _ (
        sym (append_assoc out gate.write_buf (p ∷ [])),
        ground (arith, length-append gate.write_buf (p ∷ [])),
        refl,
      ))
  where
    burst_eq : (out ++ (gate.write_buf ++ (p ∷ []))) ++ [] ≡ (out ++ gate.write_buf) ++ (p ∷ [])
    burst_eq = append-nil _ ∙ sym (append_assoc out gate.write_buf (p ∷ []))

-- Packets that are written one after the other to a sink that takes all it is given come out in
-- their order in bursts or still wait, under seven of them, and nothing else of the gate changes.
pub write_packets-Wrote :
    (ps : List (List ℕ)) (gate : Gate) (out : List (List ℕ))
    → length gate.write_buf < 7
    → Returns (write_packets keep gate out ps) (Wrote gate out ps)
unfolding write_packets Wrote
write_packets-Wrote [] gate out lt = some-Returns _ _ (sym (append-nil _), lt, refl)
write_packets-Wrote (p ∷ ps) gate out lt =
    >>=-Returns _ (Wrote gate out (p ∷ [])) (write_packet-Wrote gate out p lt)
      (λ r (grown, short, same).
        let (r', e, (grown', short', same')) = write_packets-Wrote ps r.0 r.1 short in
        (
          r',
          e,
          (
            grown' ∙ ap (λ l. l ++ ps) grown ∙ append_assoc (given (gate, out)) (p ∷ []) ps,
            short',
            same' ∙ ap {A = Gate} {B = Gate} (λ g. record g { write_buf = r'.0.write_buf }) same,
          ),
        ))
