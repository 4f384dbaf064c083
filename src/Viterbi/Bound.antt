-- ===== src/Viterbi/Bound.antt =====
-- No path through the pairs has a lower metric than the decoder finds for its last state.
use dvbt_rx.Base.{
  ℕ, ◌+◌, ◌*◌, ◌/◌, ◌%◌, ◌<◌, ◌≡◌, refl, sym, ap, ◌∙◌, arith, true, List, [], ◌∷◌, length, get_or,
  All, subst,
}
use dvbt_rx.Puncture.{Pair, add_pair}
use dvbt_rx.Viterbi.{
  Metric, conv_parity, prev_state, expected, select, new_metrics, survivors, forward,
}
use dvbt_rx.Viterbi.Metrics.{
  IsOrdered, IsBit, walk, get_or-new_metrics, branch, select-le, add_pair_mono,
}

module _ {C : Type 0} (m : Metric C) (o : IsOrdered m) where
  -- The branch of a register is one of those into the state that it leaves.
  branch_of :
      (p : Pair C) (metrics : List C) (b s : ℕ)
      → b < 2
      → s < 64
      → branch m p metrics ((b * 64 + s) / 2) ((b * 64 + s) % 2)
        ≡ add_pair m.add (get_or metrics s m.zero_metric) p (conv_parity (b * 64 + s))
  unfolding prev_state expected
  branch_of p metrics b s bit state = rw (register, from) refl
    where
      register : (b * 64 + s) / 2 * 2 + (b * 64 + s) % 2 ≡ b * 64 + s
      register = omega arith

      from : (b * 64 + s) % 64 ≡ s
      from = omega arith

  step-le :
      (p : Pair C) (metrics : List C) (c : C) (b s : ℕ)
      → b < 2
      → s < 64
      → m.le (get_or metrics s m.zero_metric) c ≡ true
      → m.le
          (get_or (new_metrics m p metrics 64 0) ((b * 64 + s) / 2) m.zero_metric)
          (add_pair m.add c p (conv_parity (b * 64 + s)))
        ≡ true
  step-le p metrics c b s bit state h =
      o.le_trans _ _ _
        (subst
          (λ x.
            m.le x (add_pair m.add (get_or metrics s m.zero_metric) p (conv_parity (b * 64 + s)))
            ≡ true)
          (sym new_eq)
          (subst (λ x. m.le (select m p metrics ((b * 64 + s) / 2)).0 x ≡ true)
            (branch_of p metrics b s bit state)
            (select-le m o p metrics ((b * 64 + s) / 2) ((b * 64 + s) % 2) (omega arith))))
        (add_pair_mono m o _ c p (conv_parity (b * 64 + s)) h)
    where
      new_eq :
          get_or (new_metrics m p metrics 64 0) ((b * 64 + s) / 2) m.zero_metric
          ≡ (select m p metrics ((b * 64 + s) / 2)).0
      new_eq =
          get_or-new_metrics m p metrics 64 0 ((b * 64 + s) / 2) m.zero_metric (omega arith)
          ∙ ap (λ k. (select m p metrics k).0) (omega arith)

  -- The path ends in one of the 64 states, and the final metric there is no more than its own.
  unfoldable pub IsBelow : List C → C × ℕ → Type 0
  IsBelow metrics r = (r.1 < 64) × (m.le (get_or metrics r.1 m.zero_metric) r.0 ≡ true)

  pub forward-le :
      (ps : List (Pair C)) (metrics : List C) (rows : List (List ℕ)) (c : C) (s : ℕ) (bs : List ℕ)
      → s < 64
      → length bs ≡ length ps
      → All IsBit bs
      → m.le (get_or metrics s m.zero_metric) c ≡ true
      → IsBelow (forward m ps metrics rows).0 (walk m c s ps bs)
  unfolding forward walk IsBelow
  forward-le [] metrics rows c s [] state len bits h = (state, h)
  forward-le [] metrics rows c s (b ∷ bs) state len bits h = absurd (omega arith)
  forward-le (p ∷ ps) metrics rows c s [] state len bits h = absurd (omega arith)
  forward-le (p ∷ ps) metrics rows c s (b ∷ bs) state len (bit, bits) h =
      forward-le ps (new_metrics m p metrics 64 0) (survivors m p metrics 64 0 ∷ rows)
        (add_pair m.add c p (conv_parity (b * 64 + s))) ((b * 64 + s) / 2) bs (omega arith)
        (omega arith) bits (step-le p metrics c b s bit state h)
