-- ===== src/LiveViterbi/Tracking.antt =====
-- The state of the live decoder after some pairs: its metrics are those of the job's decoder
-- relative to the best, and its ring holds the last survivors.
use dvbt_rx.Base.{
  ℕ, zero, suc, ◌+◌, ◌-◌, ◌%◌, ◌<◌, ◌≤◌, ◌≡◌, refl, sym, ap, ◌∙◌, arith, true, List, [], ◌∷◌, ◌++◌,
  length, get_or, get_or-set_self, get_or-set_ne, none, subst, set, inl, inr, Bool-cases, ◌==◌,
  ==_iff, not-==_ne,
}
use native.Mathlib.Nat.{mod-lt}
use dvbt_rx.Puncture.{Fec, Pair, pair_costs}
use dvbt_rx.Viterbi.{
  Metric, prev_state, select, new_metrics, survivors, forward, start_metrics, relative,
}
use dvbt_rx.Viterbi.Metrics.{IsOrdered, get_or-survivors}
use dvbt_rx.Viterbi.Optimal.{length-forward}
use dvbt_rx.LiveViterbi.{Stream, survivor_row_get, row_of, chosen_row, choose, traceback_bits}
use dvbt_rx.LiveViterbi.Rows.{IsRow, chosen_row-IsRow, survivor_row_get-chosen_row, slot-ne}
use dvbt_rx.LiveViterbi.Relative.{IsExact, AreAbove, choose-relative}
use dvbt_rx.LiveViterbi.Trace.{Holds}

module _ {C : Type 0} (m : Metric C) where
  -- The job's decoder after the pairs `done`.
  abbrev pub metrics_after : List (Pair C) → List C
  metrics_after done = (forward m done (start_metrics m none) []).0

  abbrev pub rows_after : List (Pair C) → List (List ℕ)
  rows_after done = (forward m done (start_metrics m none) []).1

  pub forward-snoc :
      (done : List (Pair C)) (p : Pair C) (metrics : List C) (rows : List (List ℕ))
      → forward m (done ++ (p ∷ [])) metrics rows ≡ (
        new_metrics m p (forward m done metrics rows).0 64 0,
        survivors m p (forward m done metrics rows).0 64 0 ∷ (forward m done metrics rows).1,
      )
  unfolding forward
  forward-snoc [] p metrics rows = refl
  forward-snoc (q ∷ done) p metrics rows = forward-snoc done p _ _

  length-rows :
      (done : List (Pair C)) (metrics : List C) (rows : List (List ℕ))
      → length (forward m done metrics rows).1 ≡ length done + length rows
  unfolding forward
  length-rows [] metrics rows = omega arith
  length-rows (p ∷ done) metrics rows = length-rows done _ (_ ∷ rows) ∙ omega arith

  pub length-rows_after : (done : List (Pair C)) → length (rows_after done) ≡ length done
  length-rows_after done = length-rows done (start_metrics m none) [] ∙ omega arith

  pub length-metrics_after : (done : List (Pair C)) → length (metrics_after done) ≡ 64
  length-metrics_after done = length-forward m done (start_metrics m none) [] start
    where
      start : length (start_metrics m none) ≡ 64
      start = unfold start_metrics in refl

  pub record Tracks (fec : Fec) (s : Stream C) (done : List (Pair C)) (best : C) : Type 0 where
    pub is_valid : s.valid ≡ true
    pub fec_eq : s.fec ≡ fec
    pub cap_eq : s.history_len ≡ traceback_bits fec + 8
    pub slots : length s.history ≡ s.history_len
    pub are_rows : (i : ℕ) → i < s.history_len → IsRow (get_or s.history i [])
    pub steps_eq : s.steps ≡ length done
    pub metrics_eq : s.old_metrics ≡ relative m (metrics_after done) best
    pub above : AreAbove m best (metrics_after done)
    pub held : (n : ℕ) → n ≤ s.steps → n ≤ s.history_len → Holds m s 0 n (rows_after done)
    pub no_bits : s.out_bits ≡ 0
    pub no_byte : s.out_byte ≡ 0

  module _ (o : IsOrdered m) (x : IsExact m) (fec : Fec) (s : Stream C) (done : List (Pair C))
      (p : Pair C) (best : C) (t : Tracks fec s done best) where
    slot-lt : (n : ℕ) → n % s.history_len < s.history_len
    slot-lt n = mod-lt n (omega (arith, t.cap_eq))

    abbrev pub cost : List C
    cost = pair_costs m.add m.zero_metric p

    abbrev pub new_row : List ℕ
    new_row = chosen_row m cost s.old_metrics 64 0 (row_of s s.steps)

    -- The state after the step on `p`.
    abbrev pub next : List C → Stream C
    next metrics = record s {
      old_metrics = metrics;
      history = set s.history (s.steps % s.history_len) new_row;
      steps = s.steps + 1;
    }

    new_row-IsRow : IsRow new_row
    new_row-IsRow =
        chosen_row-IsRow m cost s.old_metrics 64 0 (row_of s s.steps) (omega arith) old_row
      where
        old_row : IsRow (row_of s s.steps)
        old_row = unfold row_of in t.are_rows (s.steps % s.history_len) (slot-lt s.steps)

    pub next-are_rows :
        (i : ℕ)
        → i < s.history_len
        → IsRow (get_or (set s.history (s.steps % s.history_len) new_row) i [])
    next-are_rows i lt = elim (Bool-cases (s.steps % s.history_len == i)) [
      | inl same ↦
          subst (λ i. IsRow (get_or (set s.history (s.steps % s.history_len) new_row) i []))
            ((==_iff (s.steps % s.history_len) i).0 same)
            (subst IsRow
              (sym (
                get_or-set_self s.history (s.steps % s.history_len) new_row []
                  (omega (arith, slot-lt s.steps, t.slots))))
              new_row-IsRow)
      | inr other ↦
          subst IsRow
            (sym (
              get_or-set_ne s.history (s.steps % s.history_len) i new_row []
                (not-==_ne (s.steps % s.history_len) i other)))
            (t.are_rows i lt)
    ]

    -- The new row has the predecessors that the job's decoder keeps.
    new_row_before :
        (state : ℕ)
        → state < 64
        → prev_state state (survivor_row_get new_row state)
          ≡ get_or (survivors m p (metrics_after done) 64 0) state 0
    new_row_before state lt =
        ap (prev_state state) (
          survivor_row_get-chosen_row m cost s.old_metrics 64 0 state (row_of s s.steps)
            (omega arith) (omega arith) (omega arith)
            (unfold row_of in t.are_rows (s.steps % s.history_len) (slot-lt s.steps)))
        ∙ ap (λ l. prev_state state (choose m cost l state).1) t.metrics_eq
        ∙ (choose-relative m o x p (metrics_after done) best state (length-metrics_after done)
            t.above).1
        ∙ sym (
            get_or-survivors m p (metrics_after done) 64 0 state lt
            ∙ ap (λ k. (select m p (metrics_after done) k).1) zero_plus)
      where
        zero_plus : 0 + state ≡ state
        zero_plus = omega arith

    pub next-held :
        (metrics : List C) (n : ℕ)
        → n ≤ s.steps + 1
        → n ≤ s.history_len
        → Holds m (next metrics) 0 n (survivors m p (metrics_after done) 64 0 ∷ rows_after done)
    unfolding row_of
    next-held metrics n le_steps le_cap = record { before = before }
      where
        before :
            (i state : ℕ)
            → i < n
            → state < 64
            → prev_state state
                (survivor_row_get (row_of (next metrics) (s.steps + 1 - 1 - (0 + i))) state)
              ≡ get_or
                  (get_or (survivors m p (metrics_after done) 64 0 ∷ rows_after done) i [])
                  state
                  0
        before zero state lt below =
            ap (λ r. prev_state state (survivor_row_get r state))
              (ap
                  (λ k.
                    get_or (set s.history (s.steps % s.history_len) new_row) (k % s.history_len) [])
                  now
                ∙ get_or-set_self s.history (s.steps % s.history_len) new_row []
                    (omega (arith, slot-lt s.steps, t.slots)))
            ∙ new_row_before state below
          where
            now : s.steps + 1 - 1 - (0 + 0) ≡ s.steps
            now = omega arith
        before (suc i) state lt below =
            ap (λ r. prev_state state (survivor_row_get r state))
              (ap
                  (λ k.
                    get_or (set s.history (s.steps % s.history_len) new_row) (k % s.history_len) [])
                  then_at
                ∙ get_or-set_ne s.history (s.steps % s.history_len)
                    ((s.steps - suc i) % s.history_len) new_row []
                    (λ e.
                      slot-ne s.history_len s.steps i (omega arith) (omega arith) (omega arith)
                        (sym e))
                ∙ ap (λ k. get_or s.history (k % s.history_len) []) old_at)
            ∙ (t.held n_old (omega arith) (omega arith)).before i state (omega arith) below
          where
            n_old : ℕ
            n_old = suc i

            then_at : s.steps + 1 - 1 - (0 + suc i) ≡ s.steps - suc i
            then_at = omega arith

            old_at : s.steps - suc i ≡ s.steps - 1 - (0 + i)
            old_at = omega arith
