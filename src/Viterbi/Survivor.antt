-- ===== src/Viterbi/Survivor.antt =====
-- The bits traced back from a state are those of a path that ends there with the state's metric.
use dvbt_rx.Base.{
  ℕ, ◌+◌, ◌*◌, ◌/◌, ◌%◌, ◌^◌, ◌<◌, ◌≡◌, refl, sym, ap, ap₂, ◌∙◌, arith, List, [], ◌∷◌, ◌++◌, length,
  length-append, append_assoc, append-nil, get_or, All, subst,
}
use dvbt_rx.Puncture.{Pair, add_pair}
use dvbt_rx.Viterbi.{
  Metric, conv_parity, prev_state, expected, select, new_metrics, survivors, forward, traceback,
}
use dvbt_rx.Viterbi.Metrics.{
  IsBit, walk, get_or-new_metrics, get_or-survivors, select-branch, branch,
}

module _ {C : Type 0} (m : Metric C) where
  walk-append :
      (done : List (Pair C)) (p : Pair C) (bs : List ℕ) (b s : ℕ) (c : C)
      → length bs ≡ length done
      → walk m c s (done ++ (p ∷ [])) (bs ++ (b ∷ []))
        ≡ walk m (walk m c s done bs).0 (walk m c s done bs).1 (p ∷ []) (b ∷ [])
  unfolding walk
  walk-append [] p [] b s c len = refl
  walk-append [] p (x ∷ bs) b s c len = absurd (omega arith)
  walk-append (q ∷ done) p [] b s c len = absurd (omega arith)
  walk-append (q ∷ done) p (x ∷ bs) b s c len =
      walk-append done p bs b ((x * 64 + s) / 2) (add_pair m.add c q (conv_parity (x * 64 + s)))
        (omega arith)

  pub traceback-append :
      (rows : List (List ℕ)) (state : ℕ) (bits : List ℕ)
      → traceback m rows state bits ≡ traceback m rows state [] ++ bits
  unfolding traceback
  traceback-append [] state bits = refl
  traceback-append (row ∷ rows) state bits =
      traceback-append rows (get_or row state 0) (state / 2 ^ 5 % 2 ∷ bits)
      ∙ sym (
          ap (λ l. l ++ bits) (traceback-append rows (get_or row state 0) (state / 2 ^ 5 % 2 ∷ []))
          ∙ append_assoc (traceback m rows (get_or row state 0) []) (state / 2 ^ 5 % 2 ∷ []) bits)

  All-append : (bs : List ℕ) (b : ℕ) → All IsBit bs → b < 2 → All IsBit (bs ++ (b ∷ []))
  All-append [] b bits bit = (bit, tt)
  All-append (x ∷ bs) b (small, bits) bit = (small, All-append bs b bits bit)

  -- The bits traced back from a state lead an encoder there over the pairs, from some state of the
  -- start, with the metric of the state.
  unfoldable pub Survives : List C → List (Pair C) → List C → List (List ℕ) → ℕ → Type 0
  Survives start done metrics rows s =
      (length (traceback m rows s []) ≡ length done)
      × All IsBit (traceback m rows s [])
      × (s0 : ℕ) × (s0 < 64)
      × (walk m (get_or start s0 m.zero_metric) s0 done (traceback m rows s [])
          ≡ (get_or metrics s m.zero_metric, s))

  -- The last branch of the path into `s`.
  last_branch :
      (p : Pair C) (metrics : List C) (s pred : ℕ)
      → s < 64
      → pred < 2
      → (select m p metrics s).0 ≡ branch m p metrics s pred
      → walk m
          (get_or metrics (prev_state s pred) m.zero_metric)
          (prev_state s pred)
          (p ∷ [])
          (s / 2 ^ 5 % 2 ∷ [])
        ≡ (get_or (new_metrics m p metrics 64 0) s m.zero_metric, s)
  unfolding walk prev_state expected
  last_branch p metrics s pred lt small metric_eq =
      ap₂ {A = C} {B = ℕ} {C = C × ℕ} (λ c k. (c, k))
        (ap
            (λ r.
              add_pair m.add (get_or metrics ((s * 2 + pred) % 64) m.zero_metric) p (conv_parity r))
            register
          ∙ sym metric_eq
          ∙ sym new_eq)
        state_eq
    where
      register : s / 2 ^ 5 % 2 * 64 + (s * 2 + pred) % 64 ≡ s * 2 + pred
      register = omega arith

      state_eq : (s / 2 ^ 5 % 2 * 64 + (s * 2 + pred) % 64) / 2 ≡ s
      state_eq = omega arith

      new_eq : get_or (new_metrics m p metrics 64 0) s m.zero_metric ≡ (select m p metrics s).0
      new_eq =
          get_or-new_metrics m p metrics 64 0 s m.zero_metric lt
          ∙ ap (λ k. (select m p metrics k).0) (omega arith)

  trace_eq :
      (p : Pair C) (metrics : List C) (rows : List (List ℕ)) (s pred : ℕ)
      → s < 64
      → (select m p metrics s).1 ≡ prev_state s pred
      → traceback m (survivors m p metrics 64 0 ∷ rows) s []
        ≡ traceback m rows (prev_state s pred) [] ++ (s / 2 ^ 5 % 2 ∷ [])
  unfolding traceback
  trace_eq p metrics rows s pred lt prev_eq =
      ap (λ k. traceback m rows k (s / 2 ^ 5 % 2 ∷ []))
        (get_or-survivors m p metrics 64 0 s lt
          ∙ ap (λ k. (select m p metrics k).1) zero_plus
          ∙ prev_eq)
      ∙ traceback-append rows (prev_state s pred) (s / 2 ^ 5 % 2 ∷ [])
    where
      zero_plus : 0 + s ≡ s
      zero_plus = omega arith

  prev_state-lt : (s pred : ℕ) → prev_state s pred < 64
  unfolding prev_state
  prev_state-lt s pred = omega arith

  step-Survives :
      (start : List C) (done : List (Pair C)) (p : Pair C) (metrics : List C) (rows : List (List ℕ))
      → ((s : ℕ) → s < 64 → Survives start done metrics rows s)
      → (s : ℕ) → s < 64
      → Survives start
          (done ++ (p ∷ []))
          (new_metrics m p metrics 64 0)
          (survivors m p metrics 64 0 ∷ rows)
          s
  unfolding Survives
  step-Survives start done p metrics rows survive s lt =
      let (pred, small, prev_eq, metric_eq) = select-branch m p metrics s in
      let prev = prev_state s pred in
      let (len, bits, s0, lt0, path) = survive prev (prev_state-lt s pred) in
      let trace = traceback m rows prev [] in
      let bit = s / 2 ^ 5 % 2 in
      subst
        (λ bs.
          (length bs ≡ length (done ++ (p ∷ [])))
          × All IsBit bs
          × (s0 : ℕ) × (s0 < 64)
          × (walk m (get_or start s0 m.zero_metric) s0 (done ++ (p ∷ [])) bs
              ≡ (get_or (new_metrics m p metrics 64 0) s m.zero_metric, s)))
        (sym (trace_eq p metrics rows s pred lt prev_eq))
        (
          omega (arith, len, length-append trace (bit ∷ []), length-append done (p ∷ [])),
          All-append trace bit bits (omega arith),
          s0,
          lt0,
          walk-append done p trace bit s0 (get_or start s0 m.zero_metric) len
              ∙ ap (λ r. walk m r.0 r.1 (p ∷ []) (bit ∷ [])) path
              ∙ last_branch p metrics s pred lt small metric_eq,
        )

  pub forward-Survives :
      (start : List C) (ps done : List (Pair C)) (metrics : List C) (rows : List (List ℕ))
      → ((s : ℕ) → s < 64 → Survives start done metrics rows s)
      → (s : ℕ) → s < 64
      → Survives start (done ++ ps) (forward m ps metrics rows).0 (forward m ps metrics rows).1 s
  unfolding forward
  forward-Survives start [] done metrics rows survive s lt =
      subst (λ l. Survives start l metrics rows s) (sym (append-nil done)) (survive s lt)
  forward-Survives start (p ∷ ps) done metrics rows survive s lt =
      subst
        (λ l.
          Survives start l (forward m (p ∷ ps) metrics rows).0 (forward m (p ∷ ps) metrics rows).1
            s)
        (append_assoc done (p ∷ []) ps)
        (forward-Survives start ps (done ++ (p ∷ [])) (new_metrics m p metrics 64 0)
          (survivors m p metrics 64 0 ∷ rows) (step-Survives start done p metrics rows survive) s
          lt)

  pub start-Survives : (start : List C) (s : ℕ) → s < 64 → Survives start [] start [] s
  unfolding Survives traceback walk
  start-Survives start s lt = (refl, tt, s, lt, refl)
