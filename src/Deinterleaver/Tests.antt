-- ===== src/Deinterleaver/Tests.antt =====
-- The deinterleaver on short streams, and its theorems there.
use dvbt_rx.Base.{
  ℕ, ◌-◌, ◌≤◌, ◌<◌, ◌≡◌, refl, arith, List, [], ◌∷◌, some, none, length, get_or, replicate,
  length-replicate, get_or-replicate, ◌+◌,
}
use dvbt_rx.Deinterleaver.{deinterleave_phase, run, init, init_len, init_rows, step}
use dvbt_rx.Deinterleaver.State.{delayed}
use dvbt_rx.Deinterleaver.Delay.{stream_from, deinterleave_phase-delayed}
use dvbt_rx.Deinterleaver.Forney.{deinterleave_phase-IsInterleaved}

abbrev short : List ℕ
short = 1 ∷ 2 ∷ 3 ∷ 4 ∷ 5 ∷ 6 ∷ 7 ∷ 8 ∷ 9 ∷ 10 ∷ 11 ∷ 12 ∷ 13 ∷ 14 ∷ []

-- Only the last branch has no delay.
short_out :
    deinterleave_phase short 1 ≡ some (0 ∷ 0 ∷ 0 ∷ 0 ∷ 0 ∷ 0 ∷ 0 ∷ 0 ∷ 0 ∷ 0 ∷ 0 ∷ 13 ∷ 0 ∷ [])
unfolding deinterleave_phase run step init init_len init_rows
short_out = refl

phase_out_of_range : deinterleave_phase short 12 ≡ none
unfolding deinterleave_phase
phase_out_of_range = refl

deinterleave_phase-delayed_example :
    (out : List ℕ) × (deinterleave_phase short 1 ≡ some out)
    × (length out ≡ length short - 1)
    × ((i : ℕ) → i < length out → get_or out i 0 ≡ delayed (stream_from short 1) i)
deinterleave_phase-delayed_example = deinterleave_phase-delayed short 1 (omega arith) (omega arith)

deinterleave_phase-IsInterleaved_example :
    (out : List ℕ) × (deinterleave_phase (replicate 2500 0) 3 ≡ some out)
    × (length out ≡ length (replicate {A = ℕ} 2500 0) - 3)
    × ((i : ℕ) → 2244 ≤ i → i < length out → get_or out i 0 ≡ 0)
deinterleave_phase-IsInterleaved_example =
    deinterleave_phase-IsInterleaved (λ i. 0) (replicate 2500 0) 3 (omega arith)
      (rw (length-replicate {A = ℕ} 2500 0) (omega arith))
      (λ i p q. get_or-replicate 2500 (3 + i) 0)
