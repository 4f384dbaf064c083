-- ===== src/LiveViterbi/Relative.antt =====
-- The metrics of the live decoder are those of the job's decoder relative to the best of them.
use dvbt_rx.Base.{
  ℕ, zero, suc, ◌+◌, ◌/◌, ◌<◌, ◌≡◌, refl, sym, ap, ap₂, ◌∙◌, arith, true, false, not, List, [], ◌∷◌,
  length, get_or, Option, none, some, inl, inr, Bool-cases, subst,
}
use dvbt_rx.Puncture.{Pair, cost_of, add_if, add_pair, pair_costs}
use dvbt_rx.Viterbi.{
  Metric, conv_parity, prev_state, expected, select, new_metrics, best_from, relative,
}
use dvbt_rx.Viterbi.Metrics.{IsOrdered, branch, select-branch, get_or-new_metrics}
use dvbt_rx.Viterbi.Optimal.{length-new_metrics, best_from-le, best_from-entry}
use dvbt_rx.LiveViterbi.{choose, chosen_metrics}

-- What exact sums of costs that are not negative satisfy.
pub record IsExact {C : Type 0} (m : Metric C) : Type 0 where
  pub le_add : (a b : C) → m.le a (m.add a b) ≡ true
  pub zero_add : (a : C) → m.add m.zero_metric a ≡ a
  pub add_zero : (a : C) → m.add a m.zero_metric ≡ a
  pub add_assoc : (a b c : C) → m.add (m.add a b) c ≡ m.add a (m.add b c)
  pub subtract_zero : (a : C) → m.subtract a m.zero_metric ≡ a
  pub subtract_self : (a : C) → m.subtract a a ≡ m.zero_metric
  pub subtract_le : (a c : C) → m.le (m.subtract a c) a ≡ true
  pub add_subtract : (a c : C) → m.le c a ≡ true → m.add c (m.subtract a c) ≡ a
  pub subtract_add :
      (a b c : C) → m.le c a ≡ true → m.add (m.subtract a c) b ≡ m.subtract (m.add a b) c
  pub le_subtract :
      (a b c : C)
      → m.le c a ≡ true
      → m.le c b ≡ true
      → m.le (m.subtract a c) (m.subtract b c) ≡ m.le a b
  pub subtract_subtract :
      (a b c : C)
      → m.le c b ≡ true
      → m.le b a ≡ true
      → m.subtract (m.subtract a c) (m.subtract b c) ≡ m.subtract a b

module _ {C : Type 0} (m : Metric C) where
  -- No entry is below `c`.
  pub record AreAbove (c : C) (cs : List C) : Type 0 where
    pub each : (j : ℕ) → j < length cs → m.le c (get_or cs j m.zero_metric) ≡ true

  tail-AreAbove : (c x : C) (cs : List C) → AreAbove c (x ∷ cs) → AreAbove c cs
  tail-AreAbove c x cs a = record { each = λ j h. a.each (suc j) (omega arith) }

  pub get_or-relative :
      (cs : List C) (c : C) (j : ℕ)
      → j < length cs
      → get_or (relative m cs c) j m.zero_metric ≡ m.subtract (get_or cs j m.zero_metric) c
  unfolding relative
  get_or-relative [] c j h = absurd (omega arith)
  get_or-relative (x ∷ cs) c zero h = refl
  get_or-relative (x ∷ cs) c (suc j) h = get_or-relative cs c j (omega arith)

  pub length-relative : (cs : List C) (c : C) → length (relative m cs c) ≡ length cs
  unfolding relative
  length-relative [] c = refl
  length-relative (x ∷ cs) c = ap suc (length-relative cs c)

  pub expected-lt : (s pred : ℕ) → expected s pred < 4
  unfolding expected conv_parity
  expected-lt s pred = omega arith

  prev_state-lt : (s pred : ℕ) → prev_state s pred < 64
  unfolding prev_state
  prev_state-lt s pred = omega arith

  module _ (o : IsOrdered m) (x : IsExact m) where
    add_if-zero :
        (c : C) (a b : Option C)
        → m.add c (add_if m.add (add_if m.add m.zero_metric a) b)
          ≡ add_if m.add (add_if m.add c a) b
    unfolding add_if
    add_if-zero c none none = x.add_zero c
    add_if-zero c none (some b) = ap (m.add c) (x.zero_add b)
    add_if-zero c (some a) none = ap (m.add c) (x.zero_add a)
    add_if-zero c (some a) (some b) =
        ap (λ y. m.add c (m.add y b)) (x.zero_add a) ∙ sym (x.add_assoc c a b)

    -- The table of a pair's costs holds what the job's decoder adds.
    add_pair-zero :
        (c : C) (p : Pair C) (e : ℕ)
        → m.add c (add_pair m.add m.zero_metric p e) ≡ add_pair m.add c p e
    unfolding add_pair
    add_pair-zero c p e = add_if-zero c (cost_of p.x e) (cost_of p.y (e / 2))

    pub add-pair_costs :
        (c : C) (p : Pair C) (e : ℕ)
        → e < 4
        → m.add c (get_or (pair_costs m.add m.zero_metric p) e m.zero_metric) ≡ add_pair m.add c p e
    unfolding pair_costs
    add-pair_costs c p zero h = add_pair-zero c p 0
    add-pair_costs c p (suc zero) h = add_pair-zero c p 1
    add-pair_costs c p (suc (suc zero)) h = add_pair-zero c p 2
    add-pair_costs c p (suc (suc (suc zero))) h = add_pair-zero c p 3
    add-pair_costs c p (suc (suc (suc (suc e)))) h = absurd (omega arith)

    pub le_branch :
        (p : Pair C) (metrics : List C) (c : C) (s pred : ℕ)
        → length metrics ≡ 64
        → AreAbove c metrics
        → m.le c (branch m p metrics s pred) ≡ true
    le_branch p metrics c s pred len above =
        subst (λ y. m.le c y ≡ true) (add_pair-zero _ p (expected s pred))
          (o.le_trans _ _ _ (above.each (prev_state s pred) (omega (arith, prev_state-lt s pred)))
            (x.le_add _ _))

    branch-relative :
        (p : Pair C) (metrics : List C) (c : C) (s pred : ℕ)
        → length metrics ≡ 64
        → AreAbove c metrics
        → m.add
            (get_or (relative m metrics c) (prev_state s pred) m.zero_metric)
            (get_or (pair_costs m.add m.zero_metric p) (expected s pred) m.zero_metric)
          ≡ m.subtract (branch m p metrics s pred) c
    branch-relative p metrics c s pred len above =
        add-pair_costs _ p (expected s pred) (expected-lt s pred)
        ∙ sym (add_pair-zero _ p (expected s pred))
        ∙ ap (λ y. m.add y (add_pair m.add m.zero_metric p (expected s pred)))
            (get_or-relative metrics c (prev_state s pred) (omega (arith, prev_state-lt s pred)))
        ∙ x.subtract_add _ _ c
            (above.each (prev_state s pred) (omega (arith, prev_state-lt s pred)))
        ∙ ap (λ y. m.subtract y c) (add_pair-zero _ p (expected s pred))

    -- The step into a state: the same predecessor, and the metric less `c`.
    pub choose-relative :
        (p : Pair C) (metrics : List C) (c : C) (s : ℕ)
        → length metrics ≡ 64
        → AreAbove c metrics
        → ((choose m (pair_costs m.add m.zero_metric p) (relative m metrics c) s).0
            ≡ m.subtract (select m p metrics s).0 c)
          × (prev_state s (choose m (pair_costs m.add m.zero_metric p) (relative m metrics c) s).1
              ≡ (select m p metrics s).1)
    unfolding choose select
    choose-relative p metrics c s len above =
        rw
          (
            branch-relative p metrics c s 0 len above,
            branch-relative p metrics c s 1 len above,
            o.lt_le (m.subtract (branch m p metrics s 1) c) (m.subtract (branch m p metrics s 0) c),
            x.le_subtract (branch m p metrics s 0) (branch m p metrics s 1) c
                (le_branch p metrics c s 0 len above) (le_branch p metrics c s 1 len above),
          )
          (elim (Bool-cases (m.le (branch m p metrics s 0) (branch m p metrics s 1))) [
            | inl first ↦ rw first (refl, refl)
            | inr second ↦ rw second (refl, refl)
          ])

    pub chosen_metrics-relative :
        (p : Pair C) (metrics : List C) (c : C) (n s : ℕ)
        → length metrics ≡ 64
        → AreAbove c metrics
        → chosen_metrics m (pair_costs m.add m.zero_metric p) (relative m metrics c) n s
          ≡ relative m (new_metrics m p metrics n s) c
    unfolding chosen_metrics new_metrics relative
    chosen_metrics-relative p metrics c zero s len above = refl
    chosen_metrics-relative p metrics c (suc n) s len above =
        ap₂ (λ y l. y ∷ l) (choose-relative p metrics c s len above).0
          (chosen_metrics-relative p metrics c n (s + 1) len above)

    pub new_metrics-AreAbove :
        (p : Pair C) (metrics : List C) (c : C)
        → length metrics ≡ 64
        → AreAbove c metrics
        → AreAbove c (new_metrics m p metrics 64 0)
    new_metrics-AreAbove p metrics c len above = record {
      each = λ j h.
          let lt : j < 64 = omega (arith, length-new_metrics m p metrics 64 0) in
          let (pred, _, _, e) = select-branch m p metrics (0 + j) in
          subst (λ y. m.le c y ≡ true)
            (sym (get_or-new_metrics m p metrics 64 0 j m.zero_metric lt ∙ e))
            (le_branch p metrics c (0 + j) pred len above);
    }

    best_from-relative :
        (cs : List C) (c a : C) (i s : ℕ)
        → AreAbove c cs
        → m.le c a ≡ true
        → best_from m (relative m cs c) i (m.subtract a c, s)
          ≡ (m.subtract (best_from m cs i (a, s)).0 c, (best_from m cs i (a, s)).1)
    unfolding best_from relative
    best_from-relative [] c a i s above le = refl
    best_from-relative (y ∷ cs) c a i s above le = elim (Bool-cases (m.lt y a)) [
      | inl better ↦
          rw (better, same ∙ better, best_from)
            (best_from-relative cs c y (i + 1) i (tail-AreAbove c y cs above)
              (above.each 0 (omega arith)))
      | inr worse ↦
          rw (worse, same ∙ worse, best_from)
            (best_from-relative cs c a (i + 1) s (tail-AreAbove c y cs above) le)
    ]
      where
        same : m.lt (m.subtract y c) (m.subtract a c) ≡ m.lt y a
        same =
            o.lt_le (m.subtract y c) (m.subtract a c)
            ∙ ap not (x.le_subtract a y c le (above.each 0 (omega arith)))
            ∙ sym (o.lt_le y a)

    pub relative-relative :
        (cs : List C) (b c : C)
        → m.le c b ≡ true
        → AreAbove b cs
        → relative m (relative m cs c) (m.subtract b c) ≡ relative m cs b
    unfolding relative
    relative-relative [] b c le above = refl
    relative-relative (y ∷ cs) b c le above =
        ap₂ (λ z l. z ∷ l) (x.subtract_subtract y b c le (above.each 0 (omega arith)))
          (relative-relative cs b c le (tail-AreAbove b y cs above))

    below_inf : (y c : C) → m.lt y m.inf ≡ true → m.le m.inf (m.subtract y c) ≡ false
    below_inf y c lt = elim (Bool-cases (m.le m.inf (m.subtract y c))) [
      | inl over ↦
          ground
            (arith, o.lt_le y m.inf, o.le_trans m.inf (m.subtract y c) y over (x.subtract_le y c))
      | inr under ↦ under
    ]

    -- The search of the best metric over a list that is not empty.
    best_from_first :
        (y c : C) (cs : List C)
        → m.lt y m.inf ≡ true
        → best_from m (relative m (y ∷ cs) c) 0 (m.inf, 0)
          ≡ best_from m (relative m cs c) 1 (m.subtract y c, 0)
    unfolding best_from relative
    best_from_first y c cs lt =
        rw (o.lt_le (m.subtract y c) m.inf ∙ ap not (below_inf y c lt), best_from) refl

    best_from-first :
        (y : C) (cs : List C)
        → m.lt y m.inf ≡ true
        → best_from m cs 1 (y, 0) ≡ best_from m (y ∷ cs) 0 (m.inf, 0)
    unfolding best_from
    best_from-first y cs lt = rw (lt, best_from) refl

    -- The best is an entry.
    best_found :
        (y : C) (cs : List C)
        → m.lt y m.inf ≡ true
        → (j : ℕ) × (j < length (y ∷ cs))
          × (best_from m (y ∷ cs) 0 (m.inf, 0) ≡ (get_or (y ∷ cs) j m.zero_metric, j))
    best_found y cs lt = elim (best_from-entry m (y ∷ cs) 0 (m.inf, 0) m.zero_metric) [
      | inl missed ↦ absurd (
          ground (
            arith,
            o.lt_le y m.inf,
            subst (λ r. m.le r.0 y ≡ true) missed
                ((best_from-le m o (y ∷ cs) 0 (m.inf, 0) m.zero_metric).1 0 (omega arith)),
          ))
      | inr (j, below, e) ↦
          let zero_plus : 0 + j ≡ j = omega arith in
          (j, below, e ∙ ap (λ k. (get_or (y ∷ cs) j m.zero_metric, k)) zero_plus)
    ]

    pub best_relative :
        (cs : List C) (c : C)
        → 0 < length cs
        → AreAbove c cs
        → ((j : ℕ) → j < length cs → m.lt (get_or cs j m.zero_metric) m.inf ≡ true)
        → (best_from m (relative m cs c) 0 (m.inf, 0)
            ≡ (m.subtract (best_from m cs 0 (m.inf, 0)).0 c, (best_from m cs 0 (m.inf, 0)).1))
          × AreAbove (best_from m cs 0 (m.inf, 0)).0 cs
          × (m.le c (best_from m cs 0 (m.inf, 0)).0 ≡ true)
          × (m.le m.inf (m.subtract (best_from m cs 0 (m.inf, 0)).0 c) ≡ false)
          × ((best_from m cs 0 (m.inf, 0)).1 < length cs)
    best_relative [] c some_entry above finite = absurd (omega arith)
    best_relative (y ∷ cs) c some_entry above finite =
        let (j, below, e) = best_found y cs (finite 0 some_entry) in
        (
          best_from_first y c cs (finite 0 some_entry)
              ∙ best_from-relative cs c y 1 0 (tail-AreAbove c y cs above) (above.each 0 some_entry)
              ∙ ap (λ r. (m.subtract r.0 c, r.1)) (best_from-first y cs (finite 0 some_entry)),
          record { each = (best_from-le m o (y ∷ cs) 0 (m.inf, 0) m.zero_metric).1 },
          subst (λ r. m.le c r.0 ≡ true) (sym e) (above.each j below),
          subst (λ r. m.le m.inf (m.subtract r.0 c) ≡ false) (sym e)
              (below_inf (get_or (y ∷ cs) j m.zero_metric) c (finite j below)),
          subst (λ r. r.1 < length (y ∷ cs)) (sym e) below,
        )
