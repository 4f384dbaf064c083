-- ===== src/LiveViterbi/Agree.antt =====
-- The live decoder over whole jobs decides each byte as the decoder of a job does.
use dvbt_rx.Base.{
  ℕ, ◌+◌, ◌-◌, ◌*◌, ◌/◌, ◌%◌, ◌<◌, ◌≤◌, ◌≡◌, refl, sym, ap, ap₂, ◌∙◌, arith, true, false, ◌==◌,
  List, [], ◌∷◌, ◌++◌, length, length-append, take, take-append, append_assoc, append-nil, map,
  tabulate, tabulate-snoc, some, subst, inl, inr, Bool-cases,
}
use dvbt_rx.Puncture.{Fec, Pair, pair_costs}
use dvbt_rx.Viterbi.{Metric, best_from, relative}
use dvbt_rx.Viterbi.Metrics.{IsOrdered}
use dvbt_rx.LiveViterbi.{Stream, run, chosen_metrics, traceback_bits, keep_row, advance}
use dvbt_rx.LiveViterbi.Relative.{IsExact}
use dvbt_rx.LiveViterbi.Tracking.{Tracks, metrics_after}
use dvbt_rx.LiveViterbi.Steps.{
  is_due, best_after, byte_after, AreFinite, chosen_eq, best_eq, best-le, below_inf,
  advance-not_due, advance-due, stepped, stepped-Tracks, cleared-Tracks,
}

-- The bytes that have left after `n` pairs.
abbrev pub byte_count : Fec → ℕ → ℕ
byte_count fec n = (n - traceback_bits fec) / 8

byte_count_same :
    (fec : Fec) (n : ℕ) → is_due fec (n + 1) ≡ false → byte_count fec (n + 1) ≡ byte_count fec n
byte_count_same fec n early = elim (Bool-cases ((n + 1 - traceback_bits fec) % 8 == 0)) [
  | inl whole ↦ ground arith
  | inr part ↦ ground arith
]

byte_count_next :
    (fec : Fec) (n : ℕ)
    → is_due fec (n + 1) ≡ true
    → (byte_count fec (n + 1) ≡ byte_count fec n + 1)
      × (n + 1 ≡ 8 * byte_count fec n + (traceback_bits fec + 8))
byte_count_next fec n due = ground arith

module _ {C : Type 0} (m : Metric C) where
  -- Byte `i` as the job's decoder decides it from the pairs up to the traceback's depth behind it.
  pub decided : Fec → List (Pair C) → ℕ → ℕ
  decided fec pairs i = byte_after m fec (take (8 * i + (traceback_bits fec + 8)) pairs)

  pub record IsFinite (pairs : List (Pair C)) : Type 0 where
    pub each : (done rest : List (Pair C)) → done ++ rest ≡ pairs → AreFinite m done

  -- The stream after the pairs `done`, whose best metric is `best`.
  pub record IsAfter (fec : Fec) (s : Stream C) (done : List (Pair C)) (best : C) : Type 0 where
    pub tracks : Tracks m fec s done best
    pub is_best : 0 < length done → best ≡ (best_after m done).0

  module _ (o : IsOrdered m) (x : IsExact m) (fec : Fec) (pairs : List (Pair C))
      (finite : IsFinite pairs) (first : ℕ) (best0 : C) where
    -- What has left so far.
    abbrev sent : ℕ → List ℕ
    sent n = tabulate (decided fec pairs) (byte_count fec n - first) first

    -- A step of `run` on the pair `p`.
    abbrev step_of : Stream C → List ℕ → Pair C → Stream C × List ℕ
    step_of s out p =
        advance m (chosen_metrics m (pair_costs m.add m.zero_metric p) s.old_metrics 64 0)
          (best_from m (chosen_metrics m (pair_costs m.add m.zero_metric p) s.old_metrics 64 0) 0
            (m.inf, 0))
          (keep_row m (pair_costs m.add m.zero_metric p) s, out)

    module _ (s : Stream C) (done : List (Pair C)) (p : Pair C) (rest : List (Pair C)) (best : C)
        (whole : (done ++ (p ∷ [])) ++ rest ≡ pairs) (t : Tracks m fec s done best) where
      all_finite : AreFinite m (done ++ (p ∷ []))
      all_finite = finite.each (done ++ (p ∷ [])) rest whole

      step_eq :
          (out : List ℕ)
          → step_of s out p
            ≡ advance m
                (relative m (metrics_after m (done ++ (p ∷ []))) best)
                (
                  m.subtract (best_after m (done ++ (p ∷ []))).0 best,
                  (best_after m (done ++ (p ∷ []))).1,
                )
                (keep_row m (pair_costs m.add m.zero_metric p) s, out)
      step_eq out =
          ap
            (λ l.
              advance m l (best_from m l 0 (m.inf, 0))
                (keep_row m (pair_costs m.add m.zero_metric p) s, out))
            (chosen_eq m o x fec s done p best t)
          ∙ ap
              (λ b.
                advance m (relative m (metrics_after m (done ++ (p ∷ []))) best) b
                  (keep_row m (pair_costs m.add m.zero_metric p) s, out))
              (best_eq m o x fec s done p best t all_finite)

      prefix_eq : (n : ℕ) → n ≡ length done + 1 → take n pairs ≡ done ++ (p ∷ [])
      prefix_eq n e =
          ap (take n) (sym whole)
          ∙ take-append n (done ++ (p ∷ [])) rest (omega (arith, length-append done (p ∷ [])))

      sent_next :
          first ≤ byte_count fec (length done)
          → is_due fec (length done + 1) ≡ true
          → sent (length done) ++ (byte_after m fec (done ++ (p ∷ [])) ∷ [])
            ≡ sent (length done + 1)
      unfolding decided
      sent_next from due =
          let (count_eq, length_eq) = byte_count_next fec (length done) due in
          ap (λ b. sent (length done) ++ (b ∷ []))
            (ap (byte_after m fec) (sym (prefix_eq _ (sym length_eq)))
              ∙ ap (decided fec pairs) (omega arith))
          ∙ tabulate-snoc (decided fec pairs) (byte_count fec (length done) - first) first
          ∙ ap (λ k. tabulate (decided fec pairs) k first) (omega (arith, count_eq))

      step_sends :
          first ≤ byte_count fec (length done)
          → (s' : Stream C) × (step_of s (sent (length done)) p ≡ (s', sent (length done + 1)))
            × Tracks m fec s' (done ++ (p ∷ [])) (best_after m (done ++ (p ∷ []))).0
      step_sends from = elim (Bool-cases (is_due fec (length done + 1))) [
        | inl due ↦ (
          record (stepped m o x fec s done p best t all_finite) { out_byte = 0; out_bits = 0 },
          step_eq (sent (length done))
              ∙ advance-due m o x fec s done p best t all_finite (sent (length done))
                  (ap (λ n. is_due fec (n + 1)) t.steps_eq ∙ due)
              ∙ ap
                  (λ l. (
                    record (stepped m o x fec s done p best t all_finite) {
                      out_byte = 0;
                      out_bits = 0;
                    },
                    l,
                  ))
                  (sent_next from due),
          cleared-Tracks m o x fec s done p best t all_finite,
        )
        | inr early ↦ (
          stepped m o x fec s done p best t all_finite,
          step_eq (sent (length done))
              ∙ advance-not_due m o x fec s done p best t all_finite (sent (length done))
                  (ap (λ n. is_due fec (n + 1)) t.steps_eq ∙ early)
              ∙ ap
                  (λ k. (
                    stepped m o x fec s done p best t all_finite,
                    tabulate (decided fec pairs) (k - first) first,
                  ))
                  (sym (byte_count_same fec (length done) early)),
          stepped-Tracks m o x fec s done p best t all_finite,
        )
      ]

    total_next :
        (best b : C)
        → m.le best0 best ≡ true
        → m.le best b ≡ true
        → m.add (m.subtract best best0) (m.subtract b best) ≡ m.subtract b best0
    total_next best b le0 le =
        x.subtract_add best (m.subtract b best) best0 le0
        ∙ ap (λ c. m.subtract c best0) (x.add_subtract b best le)

    pub run_sends :
        (rest done : List (Pair C)) (s : Stream C) (best : C)
        → done ++ rest ≡ pairs
        → first ≤ byte_count fec (length done)
        → m.le best0 best ≡ true
        → IsAfter fec s done best
        → (s' : Stream C) × (b : C) × (run m
              (map (pair_costs m.add m.zero_metric) rest)
              (s, sent (length done))
              (m.subtract best best0)
            ≡ (s', some (sent (length pairs), m.subtract b best0)))
          × IsAfter fec s' pairs b
    unfolding run
    run_sends [] done s best whole from le0 a = (
      s,
      best,
      ap (λ l. (s, some (sent (length l), m.subtract best best0))) (sym (append-nil done) ∙ whole),
      subst (λ l. IsAfter fec s l best) (sym (append-nil done) ∙ whole) a,
    )
    run_sends (p ∷ rest) done s best whole from le0 a =
        let (s₁, e₁, t₁) = step_sends s done p rest best whole₁ a.tracks from in
        let (s₂, b, e₂, a₂) =
          run_sends rest all s₁ (best_after m all).0 whole₁ (omega (arith, len, from_next))
            (o.le_trans best0 best _ le0 best_le) (record { tracks = t₁; is_best = λ _. refl }) in
        (
          s₂,
          b,
          rw (ap (m.le m.inf) best_first ∙ below_inf m o x fec s done p best a.tracks fin) (
              ap₂ (λ r c. run m (map (pair_costs m.add m.zero_metric) rest) r c)
                (e₁ ∙ ap (λ n. (s₁, sent n)) (sym len))
                (ap (m.add (m.subtract best best0)) best_first
                  ∙ total_next best (best_after m all).0 le0 best_le)
              ∙ e₂),
          a₂,
        )
      where
        all : List (Pair C)
        all = done ++ (p ∷ [])

        whole₁ : all ++ rest ≡ pairs
        whole₁ = append_assoc done (p ∷ []) rest ∙ whole

        len : length all ≡ length done + 1
        len = length-append done (p ∷ []) ∙ omega arith

        from_next : first ≤ byte_count fec (length done + 1)
        from_next = omega (arith, from)

        fin : AreFinite m all
        fin = finite.each all rest whole₁

        best_le : m.le best (best_after m all).0 ≡ true
        best_le = best-le m o x fec s done p best a.tracks fin

        best_first :
            (best_from m
              (chosen_metrics m (pair_costs m.add m.zero_metric p) s.old_metrics 64 0)
              0
              (m.inf, 0)).0
            ≡ m.subtract (best_after m all).0 best
        best_first =
            ap (λ l. (best_from m l 0 (m.inf, 0)).0) (chosen_eq m o x fec s done p best a.tracks)
            ∙ ap (λ r. r.0) (best_eq m o x fec s done p best a.tracks fin)
