-- ===== src/Viterbi/Metrics.antt =====
-- The laws of a metric, the path of an encoder through the pairs, and one step of the decoder.
use dvbt_rx.Base.{
  ℕ, zero, suc, ◌+◌, ◌*◌, ◌/◌, ◌<◌, ◌≡◌, refl, ap, ◌∙◌, arith, true, false, not, List, ◌∷◌, Option,
  none, some, get_or, inl, inr, Bool-cases,
}
use dvbt_rx.Puncture.{Pair, cost_of, add_if, add_pair}
use dvbt_rx.Viterbi.{Metric, conv_parity, prev_state, expected, select, new_metrics, survivors}

-- What the sum and the tests of a `double` satisfy where no operand is a NaN: rounding keeps order.
pub record IsOrdered {C : Type 0} (m : Metric C) : Type 0 where
  pub le_trans : (a b c : C) → m.le a b ≡ true → m.le b c ≡ true → m.le a c ≡ true
  pub le_total : (a b : C) → m.le a b ≡ false → m.le b a ≡ true
  pub lt_le : (a b : C) → m.lt a b ≡ not (m.le b a)
  pub add_mono : (a b c : C) → m.le a b ≡ true → m.le (m.add a c) (m.add b c) ≡ true

abbrev pub IsBit : ℕ → Type 0
IsBit b = b < 2

module _ {C : Type 0} (m : Metric C) where
  -- The encoder in the state `s`, with the metric `c` so far, sends the bits `bs`.
  unfoldable pub walk : C → ℕ → List (Pair C) → List ℕ → C × ℕ
  walk c s (p ∷ ps) (b ∷ bs) =
      walk (add_pair m.add c p (conv_parity (b * 64 + s))) ((b * 64 + s) / 2) ps bs
  walk c s _ _ = (c, s)

  pub get_or-new_metrics :
      (p : Pair C) (metrics : List C) (n s j : ℕ) (d : C)
      → j < n
      → get_or (new_metrics m p metrics n s) j d ≡ (select m p metrics (s + j)).0
  unfolding new_metrics
  get_or-new_metrics p metrics zero s j d lt = absurd (omega arith)
  get_or-new_metrics p metrics (suc n) s zero d lt =
      ap (λ k. (select m p metrics k).0) (omega arith)
  get_or-new_metrics p metrics (suc n) s (suc j) d lt =
      get_or-new_metrics p metrics n (s + 1) j d (omega arith)
      ∙ ap (λ k. (select m p metrics k).0) (omega arith)

  pub get_or-survivors :
      (p : Pair C) (metrics : List C) (n s j : ℕ)
      → j < n
      → get_or (survivors m p metrics n s) j 0 ≡ (select m p metrics (s + j)).1
  unfolding survivors
  get_or-survivors p metrics zero s j lt = absurd (omega arith)
  get_or-survivors p metrics (suc n) s zero lt = ap (λ k. (select m p metrics k).1) (omega arith)
  get_or-survivors p metrics (suc n) s (suc j) lt =
      get_or-survivors p metrics n (s + 1) j (omega arith)
      ∙ ap (λ k. (select m p metrics k).1) (omega arith)

  -- The branch into a state from one of its two predecessors.
  abbrev pub branch : Pair C → List C → ℕ → ℕ → C
  branch p metrics next_state pred =
      add_pair m.add (get_or metrics (prev_state next_state pred) m.zero_metric) p
        (expected next_state pred)

  -- The state before is one of the two, and the metric is that of its branch.
  pub select-branch :
      (p : Pair C) (metrics : List C) (next_state : ℕ)
      → (pred : ℕ) × (pred < 2)
        × ((select m p metrics next_state).1 ≡ prev_state next_state pred)
        × ((select m p metrics next_state).0 ≡ branch p metrics next_state pred)
  unfolding select
  select-branch p metrics next_state =
      elim (Bool-cases (m.le (branch p metrics next_state 0) (branch p metrics next_state 1))) [
        | inl first ↦ rw first (0, omega arith, refl, refl)
        | inr second ↦ rw second (1, omega arith, refl, refl)
      ]

  module _ (o : IsOrdered m) where
    pub le_refl : (a : C) → m.le a a ≡ true
    le_refl a = elim (Bool-cases (m.le a a)) [ inl le ↦ le | inr above ↦ o.le_total a a above ]

    -- The metric is no more than that of either branch.
    pub select-le :
        (p : Pair C) (metrics : List C) (next_state pred : ℕ)
        → pred < 2
        → m.le (select m p metrics next_state).0 (branch p metrics next_state pred) ≡ true
    unfolding select
    select-le p metrics next_state zero lt =
        elim (Bool-cases (m.le (branch p metrics next_state 0) (branch p metrics next_state 1))) [
          | inl first ↦ rw first (le_refl _)
          | inr second ↦ rw second (o.le_total _ _ second)
        ]
    select-le p metrics next_state (suc zero) lt =
        elim (Bool-cases (m.le (branch p metrics next_state 0) (branch p metrics next_state 1))) [
          | inl first ↦ rw first first
          | inr second ↦ rw second (le_refl _)
        ]
    select-le p metrics next_state (suc (suc pred)) lt = absurd (omega arith)

    add_if_mono :
        (a b : C) (d : Option C)
        → m.le a b ≡ true
        → m.le (add_if m.add a d) (add_if m.add b d) ≡ true
    unfolding add_if
    add_if_mono a b none h = h
    add_if_mono a b (some d) h = o.add_mono a b d h

    pub add_pair_mono :
        (a b : C) (p : Pair C) (e : ℕ)
        → m.le a b ≡ true
        → m.le (add_pair m.add a p e) (add_pair m.add b p e) ≡ true
    unfolding add_pair
    add_pair_mono a b p e h =
        add_if_mono _ _ (cost_of p.y (e / 2)) (add_if_mono a b (cost_of p.x e) h)
