-- ===== src/Deinterleaver/Forney.antt =====
-- The deinterleaver against the interleaver of the transmitter, which delays branch `j` of twelve
-- by `17 * j` bytes of that branch.
use dvbt_rx.Base.{ℕ, ◌-◌, ◌*◌, ◌%◌, ◌≤◌, ◌<◌, ◌≡◌, ◌∙◌, ap, arith, List, length, get_or}
use dvbt_rx.Deinterleaver.State.{branch_len, delayed}
use dvbt_rx.Base.{some}
use dvbt_rx.Deinterleaver.{deinterleave_phase}
use dvbt_rx.Deinterleaver.Delay.{stream_from, deinterleave_phase-delayed}

-- `inner` is, from `phase` on, what the interleaver makes of the bytes `sent`.
abbrev pub IsInterleaved : (ℕ → ℕ) → List ℕ → ℕ → Type 0
IsInterleaved sent inner phase =
    (i : ℕ)
    → i < length inner - phase
    → 204 * (i % 12) ≤ i
    → stream_from inner phase i ≡ sent (i - 204 * (i % 12))

-- After 2244 bytes the delays of both sides make up the same for every branch.
delayed-IsInterleaved :
    (sent : ℕ → ℕ) (inner : List ℕ) (phase i : ℕ)
    → IsInterleaved sent inner phase
    → 2244 ≤ i
    → i < length inner - phase
    → delayed (stream_from inner phase) i ≡ sent (i - 2244)
delayed-IsInterleaved sent inner phase i v h k =
    ground (arith)
    ∙ v (i - 12 * branch_len (i % 12)) (omega arith) (omega arith)
    ∙ ap sent (omega arith)

-- The deinterleaver takes what the interleaver made, started at a byte of branch 0, back to the
-- bytes sent, 2244 bytes later.
pub deinterleave_phase-IsInterleaved :
    (sent : ℕ → ℕ) (inner : List ℕ) (phase : ℕ)
    → phase < 12
    → phase < length inner
    → IsInterleaved sent inner phase
    → (out : List ℕ) × (deinterleave_phase inner phase ≡ some out)
      × (length out ≡ length inner - phase)
      × ((i : ℕ) → 2244 ≤ i → i < length out → get_or out i 0 ≡ sent (i - 2244))
deinterleave_phase-IsInterleaved sent inner phase h k v =
    let (out, made, len, at_out) = deinterleave_phase-delayed inner phase h k in
    (
      out,
      made,
      len,
      λ i p q. at_out i q ∙ delayed-IsInterleaved sent inner phase i v p (omega arith),
    )
