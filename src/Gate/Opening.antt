-- ===== src/Gate/Opening.antt =====
-- A closed gate: nothing comes out before it opens, and then a PAT comes first.
use dvbt_rx.Base.{
  ℕ, ◌/◌, ◌%◌, ◌^◌, ◌<◌, ◌≡◌, refl, ap, ◌∙◌, arith, List, ◌∷◌, ◌++◌, length, ◌&&◌, not, ◌==◌, Bool,
  true, false, inl, inr, Returns, get_or, ◌⊎◌, if-Returns, some-Returns,
}
use dvbt_rx.Validator.{Validator}
use dvbt_rx.Gate.{Gate, NalFlags, packet_pid, note_video, note_packet, may_open, try_write}
use dvbt_rx.Gate.Burst.{keep, given, Wrote, write_packets-Wrote}

-- Fewer than seven packets wait, and the PAT that is kept is one.
unfoldable pub IsValid : Gate → Type 0
IsValid gate = (length gate.write_buf < 7) × (gate.have_pat ≡ true → packet_pid gate.pat ≡ 0)

note_packet-IsValid :
    (gate : Gate) (v : Validator) (packet : List ℕ) (nal : NalFlags) (good : Bool)
    → IsValid gate
    → IsValid (note_packet gate v packet nal good)
      × (note_packet gate v packet nal good).write_buf ≡ gate.write_buf
      × (note_packet gate v packet nal good).stdout_enabled ≡ gate.stdout_enabled
unfolding IsValid note_packet note_video
note_packet-IsValid gate v packet nal good valid = ground arith

-- What a call on a closed gate comes to.
pub Outcome : Gate → List (List ℕ) → Gate × List (List ℕ) → Type 0
Outcome gate out r =
    IsValid r.0
    × (((r.0.stdout_enabled ≡ false) × (given r ≡ given (gate, out)))
        ⊎ ((r.0.stdout_enabled ≡ true)
            × (pat : List ℕ) × (rest : List (List ℕ)) × (packet_pid pat ≡ 0)
            × (given r ≡ given (gate, out) ++ (pat ∷ rest))))

may_open-have_pat :
    (gate : Gate) (v : Validator) (nal : NalFlags) (pilot_lock_ok : Bool)
    → may_open gate v nal pilot_lock_ok ≡ true
    → gate.have_pat ≡ true
unfolding may_open
may_open-have_pat gate v nal pilot_lock_ok h = ground arith

closed-Outcome :
    (gate gate' : Gate) (out : List (List ℕ))
    → IsValid gate'
    → gate'.write_buf ≡ gate.write_buf
    → gate'.stdout_enabled ≡ false
    → Outcome gate out (gate', out)
unfolding Outcome given
closed-Outcome gate gate' out valid same closed = (valid, inl (closed, ap (λ b. out ++ b) same))

opened-Outcome :
    (gate gate' : Gate) (out rest : List (List ℕ)) (r : Gate × List (List ℕ))
    → IsValid gate'
    → gate'.have_pat ≡ true
    → gate'.write_buf ≡ gate.write_buf
    → gate'.stdout_enabled ≡ true
    → Wrote gate' out (gate'.pat ∷ rest) r
    → Outcome gate out r
unfolding Outcome given IsValid Wrote
opened-Outcome gate gate' out rest r valid have_pat same opened (grown, short, kept) = (
  (short, λ h. ap (λ g. packet_pid g.pat) kept ∙ valid.1 have_pat),
  inr (
    ap (λ g. g.stdout_enabled) kept ∙ opened,
    gate'.pat,
    rest,
    valid.1 have_pat,
    grown ∙ ap (λ b. (out ++ b) ++ (gate'.pat ∷ rest)) same,
  ),
)

-- A call on a valid closed gate whose sink takes all it is given returns a valid gate. Either the
-- gate is still closed and no packet has been given out, or it is open, and what has been given out
-- since begins with a PAT.
pub try_write-Outcome :
    (gate : Gate) (v : Validator) (out : List (List ℕ)) (packet : List ℕ) (nal : NalFlags)
    (pilot_lock_ok : Bool)
    → IsValid gate
    → gate.stdout_enabled ≡ false
    → Returns (try_write keep gate v out packet nal pilot_lock_ok) (Outcome gate out)
unfolding try_write IsValid
try_write-Outcome gate v out packet nal pilot_lock_ok valid closed =
    let good = get_or packet 0 0 == 0x47 && get_or packet 1 0 / 2 ^ 7 % 2 == 0 in
    let noted = note_packet gate v packet nal good in
    let (valid', same, closed') = note_packet-IsValid gate v packet nal good valid in
    let opened = record noted { stdout_enabled = true; waiting_for_video_start = false } in
    let still = closed-Outcome gate noted out valid' same (closed' ∙ closed) in
    if-Returns (Outcome gate out) (not good) (λ h. some-Returns _ _ still)
      (λ h.
        if-Returns _ gate.stdout_enabled (λ h. absurd (ground arith))
          (λ h.
            if-Returns _ (may_open noted v nal pilot_lock_ok)
              (λ h.
                let (r, e, w) = write_packets-Wrote _ opened out valid'.0 in
                (
                  r,
                  e,
                  opened-Outcome gate opened out _ r valid'
                      (may_open-have_pat noted v nal pilot_lock_ok h) same refl w,
                ))
              (λ h. some-Returns _ _ still)))
