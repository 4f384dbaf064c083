-- ===== src/Deinterleaver/Delay.antt =====
-- Each branch of the deinterleaver delays its bytes by 17 bytes of that branch for each branch that
-- follows it.
use native.Mathlib.Nat.{mod-eq_of_lt}
use native.Mathlib.Decide.{ℕ_discrete}
use dvbt_rx.Base.{ℕ, zero, suc, ◌+◌, ◌-◌, ◌*◌, ◌%◌, ◌<◌, ◌≡◌, ◌∙◌, refl, sym, ap, arith}
use dvbt_rx.Base.{List, [], ◌∷◌, some, get_or-drop}
use dvbt_rx.Base.{length, get_or, drop}
use dvbt_rx.Base.{length-drop, Bool-cases, inl, inr, leb, ◌||◌}
use mathlib.Core.Option.{some-injective, none-ne-some}
use dvbt_rx.Deinterleaver.{Deinterleaver, init, step, run, deinterleave_phase}
use dvbt_rx.Deinterleaver.State.{
  branch_len, delayed, past, row_at, pos_at, IsBranch, IsState, init-IsState,
}
use dvbt_rx.Deinterleaver.Step.{step_through, step_stored, through-IsState, stored-IsState}

-- One byte: what comes out, and the state after it.
step_lem :
    (s : ℕ → ℕ) (n : ℕ) (d : Deinterleaver) (x : ℕ)
    → x ≡ s n
    → IsState s n d
    → ((step d (n % 12) x).0 ≡ delayed s n) × IsState s (n + 1) (step d (n % 12) x).1
step_lem s n d x e v = elim (ℕ_discrete (branch_len (n % 12)) 0) [
  | yes none_held ↦
      rw (step_through d (n % 12) x ((v.branches (n % 12) (omega arith)).len_at ∙ none_held))
        (ground (arith, ap s (at_once none_held)), through-IsState s n d none_held v)
  | no held ↦
      rw (step_stored d (n % 12) x (λ q. held (sym (v.branches (n % 12) (omega arith)).len_at ∙ q)))
        (
          oldest (omega arith) (v.branches (n % 12) (omega arith)),
          stored-IsState s n d x e (omega arith) v,
        )
]
  where
    at_once : branch_len (n % 12) ≡ 0 → n - 12 * branch_len (n % 12) ≡ n
    at_once z = omega arith

    oldest :
        0 < branch_len (n % 12)
        → IsBranch s n d (n % 12)
        → get_or (row_at d (n % 12)) (pos_at d (n % 12)) 0 ≡ delayed s n
    oldest hl b =
        ap (λ i. get_or (row_at d (n % 12)) i 0)
          (sym (ap (λ i. i % branch_len (n % 12)) (omega arith) ∙ mod-eq_of_lt (b.pos_in hl)))
        ∙ b.holds 0 hl
        ∙ ap (λ t. past s (branch_len (n % 12)) t) (omega arith)

run-delayed :
    (s : ℕ → ℕ) (n : ℕ) (d : Deinterleaver) (xs : List ℕ)
    → IsState s n d
    → ((i : ℕ) → i < length xs → get_or xs i 0 ≡ s (n + i))
    → (i : ℕ) → i < length xs
    → get_or (run n d xs) i 0 ≡ delayed s (n + i)
unfolding run
run-delayed s n d [] v h i p = absurd (omega arith)
run-delayed s n d (x ∷ xs) v h zero p =
    (step_lem s n d x (h 0 p ∙ ap s (omega arith)) v).0 ∙ ap (λ t. delayed s t) (omega arith)
run-delayed s n d (x ∷ xs) v h (suc i) p =
    run-delayed s (n + 1) (step d (n % 12) x).1 xs
      (step_lem s n d x (h 0 (omega arith) ∙ ap s (omega arith)) v).1
      (λ i' p'. h (suc i') (omega arith) ∙ ap s (omega arith)) i (omega arith)
    ∙ ap (λ t. delayed s t) (omega arith)

pub length-run : (n : ℕ) (d : Deinterleaver) (xs : List ℕ) → length (run n d xs) ≡ length xs
unfolding run
length-run n d [] = refl
length-run n d (x ∷ xs) = ap suc (length-run (n + 1) (step d (n % 12) x).1 xs)

-- The bytes from `phase` on, as a stream that is 0 after its end.
abbrev pub stream_from : List ℕ → ℕ → ℕ → ℕ
stream_from inner phase i = get_or inner (phase + i) 0

-- `outer_deinterleave_phase` succeeds exactly on a phase below 12 with a byte left after it; it
-- then gives one byte for each byte from the phase on, and each comes out delayed by 12 * 17 bytes
-- for each branch after its own, with 0 before the first.
pub deinterleave_phase-delayed :
    (inner : List ℕ) (phase : ℕ)
    → phase < 12
    → phase < length inner
    → (out : List ℕ) × (deinterleave_phase inner phase ≡ some out)
      × (length out ≡ length inner - phase)
      × ((i : ℕ) → i < length out → get_or out i 0 ≡ delayed (stream_from inner phase) i)
unfolding deinterleave_phase
deinterleave_phase-delayed inner phase h k = (
  run 0 init (drop phase inner),
  ground arith,
  length-run 0 init (drop phase inner) ∙ length-drop phase inner,
  λ i p.
      run-delayed (stream_from inner phase) 0 init (drop phase inner)
        (init-IsState (stream_from inner phase))
        (λ i' p'. get_or-drop phase inner i' 0 ∙ ap (stream_from inner phase) (omega arith)) i
        (rw (← length-run 0 init (drop phase inner)) p)
      ∙ ap (λ t. delayed (stream_from inner phase) t) (omega arith),
)

pub deinterleave_phase-run :
    (inner : List ℕ) (phase : ℕ) (out : List ℕ)
    → deinterleave_phase inner phase ≡ some out
    → run 0 init (drop phase inner) ≡ out
unfolding deinterleave_phase
deinterleave_phase-run inner phase out e =
    elim (Bool-cases (leb 12 phase || leb (length inner) phase)) [
      | inl no_byte ↦ absurd (none-ne-some out (rw no_byte at e))
      | inr left ↦ some-injective _ _ (rw left at e)
    ]
