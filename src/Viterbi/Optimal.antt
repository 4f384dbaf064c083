-- ===== src/Viterbi/Optimal.antt =====
-- The bits that the decoder gives out are those of a path of the lowest metric.
use dvbt_rx.Base.{
  ℕ, zero, suc, ◌+◌, ◌<◌, ◌≡◌, refl, sym, ap, ◌∙◌, arith, true, false, List, [], ◌∷◌, length,
  get_or, All, subst, inl, inr, Bool-cases, ◌⊎◌, Option,
}
use dvbt_rx.Puncture.{Pair}
use dvbt_rx.Viterbi.{
  Metric, new_metrics, survivors, forward, traceback, best_from, start_metrics, decode_pairs,
}
use dvbt_rx.Viterbi.Metrics.{IsOrdered, IsBit, walk, le_refl}
use dvbt_rx.Viterbi.Bound.{IsBelow, forward-le}
use dvbt_rx.Viterbi.Survivor.{Survives, forward-Survives, start-Survives}

module _ {C : Type 0} (m : Metric C) where
  pub length-new_metrics :
      (p : Pair C) (metrics : List C) (n s : ℕ) → length (new_metrics m p metrics n s) ≡ n
  unfolding new_metrics
  length-new_metrics p metrics zero s = refl
  length-new_metrics p metrics (suc n) s = ap suc (length-new_metrics p metrics n (s + 1))

  pub length-forward :
      (ps : List (Pair C)) (metrics : List C) (rows : List (List ℕ))
      → length metrics ≡ 64
      → length (forward m ps metrics rows).0 ≡ 64
  unfolding forward
  length-forward [] metrics rows len = len
  length-forward (p ∷ ps) metrics rows len =
      length-forward ps (new_metrics m p metrics 64 0) (survivors m p metrics 64 0 ∷ rows)
        (length-new_metrics p metrics 64 0)

  -- The result of the search is what it started with or an entry with its index.
  pub best_from-entry :
      (cs : List C) (i : ℕ) (best : C × ℕ) (d : C)
      → (best_from m cs i best ≡ best)
        ⊎ ((j : ℕ) × (j < length cs) × (best_from m cs i best ≡ (get_or cs j d, i + j)))
  unfolding best_from
  best_from-entry [] i best d = inl refl
  best_from-entry (c ∷ cs) i best d = elim (Bool-cases (m.lt c best.0)) [
    | inl better ↦ rw better (elim (best_from-entry cs (i + 1) (c, i) d) [
      | inl same ↦ inr (0, omega arith, same ∙ ap (λ k. (c, k)) (omega arith))
      | inr (j, lt, e) ↦ inr (suc j, omega arith, e ∙ ap (λ k. (get_or cs j d, k)) (omega arith))
    ])
    | inr worse ↦ rw worse (elim (best_from-entry cs (i + 1) best d) [
      | inl same ↦ inl same
      | inr (j, lt, e) ↦ inr (suc j, omega arith, e ∙ ap (λ k. (get_or cs j d, k)) (omega arith))
    ])
  ]

  module _ (o : IsOrdered m) where
    le_of_not-lt : (a b : C) → m.lt a b ≡ false → m.le b a ≡ true
    le_of_not-lt a b h = ground (arith, o.lt_le a b)

    le_of_lt : (a b : C) → m.lt a b ≡ true → m.le a b ≡ true
    le_of_lt a b h = o.le_total b a (ground (arith, o.lt_le a b))

    each_of_cons :
        (cs : List C) (c d low : C)
        → m.le low c ≡ true
        → ((j : ℕ) → j < length cs → m.le low (get_or cs j d) ≡ true)
        → (j : ℕ) → j < length (c ∷ cs)
        → m.le low (get_or (c ∷ cs) j d) ≡ true
    each_of_cons cs c d low first later zero lt = first
    each_of_cons cs c d low first later (suc j) lt = later j (omega arith)

    -- It is no more than any entry, nor than what it started with.
    pub best_from-le :
        (cs : List C) (i : ℕ) (best : C × ℕ) (d : C)
        → (m.le (best_from m cs i best).0 best.0 ≡ true)
          × ((j : ℕ) → j < length cs → m.le (best_from m cs i best).0 (get_or cs j d) ≡ true)
    unfolding best_from
    best_from-le [] i best d = (le_refl m o best.0, λ j lt. absurd (omega arith))
    best_from-le (c ∷ cs) i best d = elim (Bool-cases (m.lt c best.0)) [
      | inl better ↦
          let (below, entries) = best_from-le cs (i + 1) (c, i) d in
          rw (better, best_from)
            (o.le_trans _ _ _ below (le_of_lt c best.0 better), each_of_cons cs c d _ below entries)
      | inr worse ↦
          let (below, entries) = best_from-le cs (i + 1) best d in
          rw (worse, best_from)
            (
              below,
              each_of_cons cs c d _ (o.le_trans _ _ _ below (le_of_not-lt c best.0 worse)) entries,
            )
    ]

  -- A path of the encoder over the pairs: its first state and its bits.
  unfoldable pub IsPath : List (Pair C) → ℕ → List ℕ → Type 0
  IsPath ps s bs = (s < 64) × (length bs ≡ length ps) × All IsBit bs

  abbrev pub metric_of : List C → List (Pair C) → ℕ → List ℕ → C
  metric_of start ps s bs = (walk m (get_or start s m.zero_metric) s ps bs).0

  -- The bits are those of a path with that metric, and no path has a lower one.
  pub IsOptimal : List C → List (Pair C) → List ℕ × C → Type 0
  IsOptimal start ps r =
      ((s : ℕ) × IsPath ps s r.0 × (metric_of start ps s r.0 ≡ r.1))
      × ((s : ℕ) (bs : List ℕ) → IsPath ps s bs → m.le r.1 (metric_of start ps s bs) ≡ true)

  traced_survivor :
      (start : List C) (ps : List (Pair C)) (metrics : List C) (rows : List (List ℕ)) (j : ℕ)
      → Survives m start ps metrics rows j
      → (s : ℕ) × IsPath ps s (traceback m rows j [])
        × (metric_of start ps s (traceback m rows j []) ≡ get_or metrics j m.zero_metric)
  unfolding Survives IsPath
  traced_survivor start ps metrics rows j (len, bits, s, lt, path) =
      (s, (lt, len, bits), ap (λ r. r.0) path)

  not_both : IsOrdered m → (x y : C) → m.lt x y ≡ true → m.le y x ≡ true → ⊥
  not_both o x y below above = ground (arith, o.lt_le x y)

  -- On a metric whose order is total and kept by sums, from 64 start metrics, when every path stays
  -- below the value that the search starts with, dvbt_viterbi_decode_pairs gives out a path of the
  -- encoder over all pairs with the metric that it reports, and no path has a lower metric.
  pub decode_pairs-IsOptimal :
      (pairs : List (Pair C)) (initial : Option (List C))
      → IsOrdered m
      → length (start_metrics m initial) ≡ 64
      → ((s : ℕ) (bs : List ℕ)
          → IsPath pairs s bs
          → m.lt (metric_of (start_metrics m initial) pairs s bs) m.inf ≡ true)
      → IsOptimal (start_metrics m initial) pairs (decode_pairs m pairs initial)
  unfolding decode_pairs IsOptimal IsPath IsBelow
  decode_pairs-IsOptimal pairs initial o len finite = elim found [
    | inl none_found ↦ absurd (below_inf none_found)
    | inr (j, lt, e) ↦ (traced j (omega (arith, lt, len_metrics)) e, optimal)
  ]
    where
      start : List C
      start = start_metrics m initial

      metrics : List C
      metrics = (forward m pairs start []).0

      rows : List (List ℕ)
      rows = (forward m pairs start []).1

      len_metrics : length metrics ≡ 64
      len_metrics = length-forward pairs start [] len

      best : C × ℕ
      best = best_from m metrics 0 (m.inf, 0)

      found :
          (best ≡ (m.inf, 0))
          ⊎ ((j : ℕ) × (j < length metrics) × (best ≡ (get_or metrics j m.zero_metric, 0 + j)))
      found = best_from-entry metrics 0 (m.inf, 0) m.zero_metric

      survive : (j : ℕ) → j < 64 → Survives m start pairs metrics rows j
      survive j lt =
          forward-Survives m start pairs [] start [] (λ s below. start-Survives m start s below) j
            lt

      optimal :
          (s : ℕ) (bs : List ℕ)
          → IsPath pairs s bs
          → m.le best.0 (metric_of start pairs s bs) ≡ true
      optimal s bs path =
          let (end_lt, below) =
            forward-le m o pairs start [] (get_or start s m.zero_metric) s bs path.0 path.1 path.2
              (le_refl m o (get_or start s m.zero_metric)) in
          o.le_trans _ _ _
            ((best_from-le o metrics 0 (m.inf, 0) m.zero_metric).1 _
              (omega (arith, end_lt, len_metrics)))
            below

      traced :
          (j : ℕ)
          → j < 64
          → best ≡ (get_or metrics j m.zero_metric, 0 + j)
          → (s : ℕ) × IsPath pairs s (traceback m rows best.1 [])
            × (metric_of start pairs s (traceback m rows best.1 []) ≡ best.0)
      traced j lt e =
          let (s, path, metric) = traced_survivor start pairs metrics rows j (survive j lt) in
          let zero_plus : 0 + j ≡ j = omega arith in
          subst
            (λ k.
              (s : ℕ) × IsPath pairs s (traceback m rows k [])
              × (metric_of start pairs s (traceback m rows k []) ≡ best.0))
            (sym (ap (λ r. r.1) e ∙ zero_plus)) (s, path, metric ∙ sym (ap (λ r. r.0) e))

      below_inf : best ≡ (m.inf, 0) → ⊥
      below_inf none_found =
          let (s, path, metric) =
            traced_survivor start pairs metrics rows 0 (survive 0 (omega arith)) in
          let low =
            (best_from-le o metrics 0 (m.inf, 0) m.zero_metric).1 0 (omega (arith, len_metrics)) in
          let high = finite s (traceback m rows 0 []) path in
          not_both o (get_or metrics 0 m.zero_metric) m.inf
            (subst (λ x. m.lt x m.inf ≡ true) metric high)
            (subst (λ r. m.le r.0 (get_or metrics 0 m.zero_metric) ≡ true) none_found low)
