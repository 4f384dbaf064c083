-- ===== src/DecodeQueue/Drops.antt =====
-- What is left of the queue of jobs when its oldest symbols are dropped.
use dvbt_rx.Base.{
  ℕ, zero, suc, ◌+◌, ◌-◌, ◌*◌, ◌<◌, ◌≡◌, refl, sym, ap, ◌∙◌, arith, min, false, ◌||◌, ltb, ◌==◌,
  ==_iff, List, [], ◌∷◌, ◌++◌, length, length-drop, drop, drop-append, drop-drop, drop-nil,
  drop_append_left, All, inl, inr, Bool-cases, subst,
}
use dvbt_rx.DecodeQueue.{
  Job, DecodeQueue, data_cells, drop_first, drop_from, drop_symbol, drop_symbols, shutdown,
}
use dvbt_rx.DecodeQueue.Reach.{symbols_of}

module _ {S : Type 0} where
  -- A job of whole symbols.
  pub record IsWhole (job : Job S) : Type 0 where
    pub some_symbol : 0 < job.symbol_count
    pub cells_counted : length job.symbols ≡ job.symbol_count * 1512

  -- The cells of the jobs, oldest first.
  abbrev pub cells_of : List (Job S) → List S
  cells_of [] = []
  cells_of (job ∷ jobs) = job.symbols ++ cells_of jobs

  -- The counters are those of the jobs, which are of whole symbols.
  pub record IsCounted (q : DecodeQueue S) : Type 0 where
    pub jobs_counted : q.job_count ≡ length q.jobs
    pub symbols_counted : q.queued_symbols ≡ symbols_of q.jobs
    pub are_whole : All IsWhole q.jobs

  -- `n` symbols have gone from the front.
  pub record IsWithout (n : ℕ) (q q' : DecodeQueue S) : Type 0 where
    pub counted : IsCounted q'
    pub left : q'.queued_symbols ≡ q.queued_symbols - n
    pub cells : cells_of q'.jobs ≡ drop (1512 * n) (cells_of q.jobs)
    pub same_processing : q'.processing_symbols ≡ q.processing_symbols
    pub same_epoch : q'.epoch ≡ q.epoch

  drop_from-IsWithout :
      (job : Job S) (jobs : List (Job S)) (q : DecodeQueue S)
      → q.jobs ≡ job ∷ jobs
      → IsCounted q
      → ((drop_from (job ∷ jobs) q).0 ≡ 1) × IsWithout 1 q (drop_from (job ∷ jobs) q).1
  unfolding drop_from drop_first
  drop_from-IsWithout job jobs q e c = elim (Bool-cases (job.symbol_count == 1)) [
    | inl one ↦
        let single = (==_iff job.symbol_count 1).0 one in
        rw (has_symbol, one)
          (
            refl,
            record {
              counted = record {
                jobs_counted = omega (arith, c.jobs_counted, ap length e);
                symbols_counted = omega (arith, counted, single);
                are_whole = whole.1;
              };
              left = refl;
              cells =
                  sym (
                    drop-append 1512 job.symbols (cells_of jobs)
                      (omega (arith, whole.0.cells_counted, single)))
                  ∙ ap (λ l. drop 1512 (cells_of l)) (sym e);
              same_processing = refl;
              same_epoch = refl;
            },
          )
    | inr many ↦
        let more : 1 < job.symbol_count = ground (arith, whole.0.some_symbol) in
        rw (has_symbol, many)
          (
            refl,
            record {
              counted = record {
                jobs_counted = c.jobs_counted ∙ ap length e;
                symbols_counted = omega (arith, counted, more);
                are_whole = (first_left more, whole.1);
              };
              left = refl;
              cells =
                  sym (
                    drop_append_left 1512 job.symbols (cells_of jobs)
                      (omega (arith, whole.0.cells_counted, more)))
                  ∙ ap (λ l. drop 1512 (cells_of l)) (sym e);
              same_processing = refl;
              same_epoch = refl;
            },
          )
  ]
    where
      whole : IsWhole job × All IsWhole jobs
      whole = subst (All IsWhole) e c.are_whole

      counted : q.queued_symbols ≡ job.symbol_count + symbols_of jobs
      counted = c.symbols_counted ∙ ap symbols_of e

      has_symbol : (job.symbol_count == 0 || ltb (length job.symbols) data_cells) ≡ false
      has_symbol = ground (arith, whole.0.some_symbol, whole.0.cells_counted)

      first_left : 1 < job.symbol_count → IsWhole (drop_first job)
      first_left more = record {
        some_symbol = omega (arith, more);
        cells_counted = omega (arith, length-drop 1512 job.symbols, whole.0.cells_counted, more);
      }

  no_more : (n : ℕ) (q : DecodeQueue S) → q.jobs ≡ [] → IsCounted q → IsWithout n q q
  no_more n q e c = record {
    counted = c;
    left = omega (arith, c.symbols_counted, ap symbols_of e);
    cells =
        ap cells_of e ∙ sym (drop-nil (1512 * n)) ∙ ap (λ l. drop (1512 * n) (cells_of l)) (sym e);
    same_processing = refl;
    same_epoch = refl;
  }

  one_more :
      (n : ℕ) (q q₁ q₂ : DecodeQueue S)
      → IsWithout 1 q q₁
      → IsWithout n q₁ q₂
      → IsWithout (suc n) q q₂
  one_more n q q₁ q₂ a b = record {
    counted = b.counted;
    left = omega (arith, a.left, b.left);
    cells =
        b.cells
        ∙ ap (drop (1512 * n)) a.cells
        ∙ drop-drop (1512 * 1) (1512 * n) (cells_of q.jobs)
        ∙ ap (λ k. drop k (cells_of q.jobs)) (omega arith);
    same_processing = b.same_processing ∙ a.same_processing;
    same_epoch = b.same_epoch ∙ a.same_epoch;
  }

  -- On a queue whose counters are those of its jobs, which are of whole symbols,
  -- live_decode_drop_symbols_locked drops the oldest symbols, as many as it is told or all that are
  -- there, and reports how many; the cells of the others stay in their order and the counters are
  -- those of the jobs again.
  pub drop_symbols-IsWithout :
      (n : ℕ) (q : DecodeQueue S)
      → IsCounted q
      → ((drop_symbols n q).0 ≡ min n q.queued_symbols) × IsWithout n q (drop_symbols n q).1
  unfolding drop_symbols
  drop_symbols-IsWithout zero q c = (
    omega arith,
    record {
      counted = c;
      left = omega arith;
      cells = refl;
      same_processing = refl;
      same_epoch = refl;
    },
  )
  drop_symbols-IsWithout (suc n) q c = at q.jobs refl (drop_symbols-IsWithout n (drop_symbol q).1)
    where
      at :
          (jobs : List (Job S))
          → q.jobs ≡ jobs
          → (IsCounted (drop_symbol q).1
              → ((drop_symbols n (drop_symbol q).1).0 ≡ min n (drop_symbol q).1.queued_symbols)
                × IsWithout n (drop_symbol q).1 (drop_symbols n (drop_symbol q).1).1)
          → ((drop_symbols (suc n) q).0 ≡ min (suc n) q.queued_symbols)
            × IsWithout (suc n) q (drop_symbols (suc n) q).1
      at [] e later =
          let stays : drop_symbol q ≡ (0, q) =
            unfold drop_symbol drop_from in ap (λ l. drop_from l q) e in
          rw (ap (λ r. r.0) stays, drop_symbols)
            (omega (arith, c.symbols_counted, ap symbols_of e), no_more (suc n) q e c)
      at (job ∷ jobs) e later =
          let stays : drop_symbol q ≡ drop_from (job ∷ jobs) q =
            unfold drop_symbol in ap (λ l. drop_from l q) e in
          let first : ((drop_symbol q).0 ≡ 1) × IsWithout 1 q (drop_symbol q).1 =
            subst (λ (r : ℕ × DecodeQueue S). (r.0 ≡ 1) × IsWithout 1 q r.1) (sym stays)
              (drop_from-IsWithout job jobs q e c) in
          let (count_eq, rest) = later first.1.counted in
          let whole : IsWhole job × All IsWhole jobs = subst (All IsWhole) e c.are_whole in
          rw (first.0, drop_symbols)
            (
              omega (
                arith,
                count_eq,
                first.1.left,
                c.symbols_counted,
                ap symbols_of e,
                whole.0.some_symbol,
              ),
              one_more n q (drop_symbol q).1 (drop_symbols n (drop_symbol q).1).1 first.1 rest,
            )

  none_left : (jobs : List (Job S)) → All IsWhole jobs → symbols_of jobs ≡ 0 → jobs ≡ []
  none_left [] whole e = refl
  none_left (job ∷ jobs) (first, whole) e = absurd (omega (arith, first.some_symbol))

  pub shutdown_lem : (q : DecodeQueue S) → IsCounted q → (shutdown q).jobs ≡ []
  unfolding shutdown
  shutdown_lem q c =
      let (_, rest) = drop_symbols-IsWithout q.queued_symbols q c in
      none_left (drop_symbols q.queued_symbols q).1.jobs rest.counted.are_whole
        (omega (arith, rest.counted.symbols_counted, rest.left))
