-- ===== src/LiveViterbi/Trace.antt =====
-- The loop of the live decoder over the survivors, against the traceback of the job's decoder.
use dvbt_rx.Base.{
  ℕ, zero, suc, ◌+◌, ◌-◌, ◌*◌, ◌/◌, ◌%◌, ◌^◌, ◌<◌, ◌≤◌, ◌≡◌, refl, sym, ap, ◌∙◌, arith, true, false,
  leb, List, [], ◌∷◌, ◌++◌, length, get_or, drop, drop-drop, inl, inr, Bool-cases,
}
use dvbt_rx.Viterbi.{Metric, prev_state, traceback}
use dvbt_rx.LiveViterbi.{Stream, survivor_row_get, row_of, trace, traceback_bits}

module _ {C : Type 0} (m : Metric C) where
  -- The ring has the states before those of `rows`, from `k` steps back on, for `n` steps.
  pub record Holds (s : Stream C) (k n : ℕ) (rows : List (List ℕ)) : Type 0 where
    pub before :
        (i state : ℕ)
        → i < n
        → state < 64
        → prev_state state (survivor_row_get (row_of s (s.steps - 1 - (k + i))) state)
          ≡ get_or (get_or rows i []) state 0

  tail-Holds :
      (s : Stream C) (k n : ℕ) (row : List ℕ) (rows : List (List ℕ))
      → Holds s k (suc n) (row ∷ rows)
      → Holds s (k + 1) n rows
  tail-Holds s k n row rows h = record {
    before = λ i state lt below.
        ap (λ j. prev_state state (survivor_row_get (row_of s (s.steps - 1 - j)) state)) (shift i)
        ∙ h.before (suc i) state (omega arith) below;
  }
    where
      shift : (i : ℕ) → k + 1 + i ≡ k + suc i
      shift i = omega arith

  drop-traceback :
      (rows : List (List ℕ)) (state : ℕ) (bits : List ℕ)
      → drop (length rows) (traceback m rows state bits) ≡ bits
  unfolding traceback
  drop-traceback [] state bits = refl
  drop-traceback (row ∷ rows) state bits =
      ap (λ n. drop n (traceback m rows (get_or row state 0) (state / 2 ^ 5 % 2 ∷ bits))) one_more
      ∙ sym (drop-drop (length rows) 1 _)
      ∙ ap (drop 1) (drop-traceback rows (get_or row state 0) (state / 2 ^ 5 % 2 ∷ bits))
    where
      one_more : suc (length rows) ≡ length rows + 1
      one_more = omega arith

  -- The bits that are kept go before those that are there.
  trace-append :
      (s : Stream C) (n k state : ℕ) (xs ys : List ℕ)
      → trace s n k state (xs ++ ys) ≡ trace s n k state xs ++ ys
  unfolding trace
  trace-append s zero k state xs ys = refl
  trace-append s (suc n) k state xs ys = elim (Bool-cases (leb (traceback_bits s.fec - 1) k)) [
    | inl kept ↦ rw (kept, trace) (trace-append s n (k + 1) _ (_ ∷ xs) ys)
    | inr passed ↦ rw (passed, trace) (trace-append s n (k + 1) _ xs ys)
  ]

  -- The state before, in the ring and in the rows.
  before_eq :
      (s : Stream C) (k n state : ℕ) (row : List ℕ) (rows : List (List ℕ))
      → state < 64
      → Holds s k (suc n) (row ∷ rows)
      → (state * 2 + survivor_row_get (row_of s (s.steps - 1 - k)) state) % 64 ≡ get_or row state 0
  unfolding prev_state
  before_eq s k n state row rows lt h =
      ap (λ j. (state * 2 + survivor_row_get (row_of s (s.steps - 1 - j)) state) % 64) (omega arith)
      ∙ h.before 0 state (omega arith) lt

  before-lt :
      (s : Stream C) (k n state : ℕ) (row : List ℕ) (rows : List (List ℕ))
      → state < 64
      → Holds s k (suc n) (row ∷ rows)
      → get_or row state 0 < 64
  before-lt s k n state row rows lt h = omega (arith, before_eq s k n state row rows lt h)

  drop-suc : (a n : ℕ) (xs : List ℕ) → drop (suc a - suc n) xs ≡ drop (a - n) xs
  drop-suc a n xs = ap (λ k. drop k xs) (omega arith)

  -- Rounds that keep their bit give the bits of the traceback before the position of `state`.
  trace_keeps :
      (s : Stream C) (n k state : ℕ) (bits : List ℕ) (rows : List (List ℕ))
      → traceback_bits s.fec - 1 ≤ k
      → state < 64
      → n < length rows
      → Holds s k n rows
      → drop (length rows - suc n) (traceback m rows state bits)
        ≡ trace s n k state (state / 2 ^ 5 % 2 ∷ bits)
  unfolding traceback trace
  trace_keeps s n k state bits [] late lt some_row h = absurd (omega arith)
  trace_keeps s zero k state bits (row ∷ rows) late lt some_row h =
      ap (λ n. drop n (traceback m (row ∷ rows) state bits)) (omega arith)
      ∙ drop-traceback rows (get_or row state 0) (state / 2 ^ 5 % 2 ∷ bits)
  trace_keeps s (suc n) k state bits (row ∷ rows) late lt some_row h =
      drop-suc (length rows) (suc n) (traceback m (row ∷ rows) state bits)
      ∙ rw (before_eq s k n state row rows lt h, kept, trace)
          (trace_keeps s n (k + 1) (get_or row state 0) (state / 2 ^ 5 % 2 ∷ bits) rows
            (omega arith) (before-lt s k n state row rows lt h) (omega arith)
            (tail-Holds s k n row rows h))
    where
      kept : leb (traceback_bits s.fec - 1) k ≡ true
      kept = ground arith

  passed_round :
      (s : Stream C) (n k state : ℕ) (row : List ℕ) (rows : List (List ℕ))
      → k < traceback_bits s.fec - 1
      → state < 64
      → Holds s k (suc n) (row ∷ rows)
      → trace s (suc n) k state [] ≡ trace s n (k + 1) (get_or row state 0) []
  unfolding trace
  passed_round s n k state row rows early lt h =
      rw (before_eq s k n state row rows lt h, passed, trace) refl
    where
      passed : leb (traceback_bits s.fec - 1) k ≡ false
      passed = ground arith

  -- The eight bits of the loop are eight bits of the traceback.
  pub trace-traceback :
      (s : Stream C) (j n k state : ℕ) (bits : List ℕ) (rows : List (List ℕ))
      → n ≡ j + 8
      → k + j ≡ traceback_bits s.fec - 1
      → state < 64
      → n < length rows
      → Holds s k n rows
      → (later : List ℕ) × (drop (length rows - suc n) (traceback m rows state bits)
          ≡ trace s n k state [] ++ later)
  unfolding traceback
  trace-traceback s zero n k state bits rows n_eq k_eq lt some_row h = (
    state / 2 ^ 5 % 2 ∷ bits,
    trace_keeps s n k state bits rows (omega arith) lt some_row h
        ∙ trace-append s n k state [] (state / 2 ^ 5 % 2 ∷ bits),
  )
  trace-traceback s (suc j) zero k state bits rows n_eq k_eq lt some_row h = absurd (omega arith)
  trace-traceback s (suc j) (suc n) k state bits [] n_eq k_eq lt some_row h = absurd (omega arith)
  trace-traceback s (suc j) (suc n) k state bits (row ∷ rows) n_eq k_eq lt some_row h =
      let (later, e) =
        trace-traceback s j n (k + 1) (get_or row state 0) (state / 2 ^ 5 % 2 ∷ bits) rows
          (omega arith) (omega arith) (before-lt s k n state row rows lt h) (omega arith)
          (tail-Holds s k n row rows h) in
      (
        later,
        drop-suc (length rows) (suc n) (traceback m (row ∷ rows) state bits)
            ∙ e
            ∙ ap (λ l. l ++ later) (sym (passed_round s n k state row rows (omega arith) lt h)),
      )

module _ {C : Type 0} where
  length-trace_keeps :
      (s : Stream C) (n k state : ℕ) (bits : List ℕ)
      → traceback_bits s.fec - 1 ≤ k
      → length (trace s n k state bits) ≡ n + length bits
  unfolding trace
  length-trace_keeps s zero k state bits late = omega arith
  length-trace_keeps s (suc n) k state bits late =
      rw (kept, trace) (length-trace_keeps s n (k + 1) _ (_ ∷ bits) (omega arith) ∙ omega arith)
    where
      kept : leb (traceback_bits s.fec - 1) k ≡ true
      kept = ground arith

  pub length-trace :
      (s : Stream C) (j n k state : ℕ)
      → n ≡ j + 8
      → k + j ≡ traceback_bits s.fec - 1
      → length (trace s n k state []) ≡ 8
  unfolding trace
  length-trace s zero n k state n_eq k_eq =
      length-trace_keeps s n k state [] (omega arith) ∙ omega arith
  length-trace s (suc j) zero k state n_eq k_eq = absurd (omega arith)
  length-trace s (suc j) (suc n) k state n_eq k_eq =
      rw (passed, trace) (length-trace s j n (k + 1) _ (omega arith) (omega arith))
    where
      passed : leb (traceback_bits s.fec - 1) k ≡ false
      passed = ground arith
