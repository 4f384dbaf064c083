-- ===== src/Inner/Writes.antt =====
-- Loops that write an array place by place until it is a given one.
use dvbt_rx.Base.{
  ℕ, ◌+◌, ◌<◌, ◌≡◌, ◌≢◌, refl, sym, ap, subst, ◌∙◌, arith, List, length, get_or, set, length-set,
  get_or-set_self, get_or-set_ne, get_or_ext, for_from, for_from_invariant, inl, inr, Bool-cases,
  tabulate, length-tabulate, get_or-tabulate_zero, ==_iff, not-==_ne, ◌==◌,
}

module _ {A : Type 0} (z : A) where
  -- After a write of its own value every place agrees that agreed before, and the place written.
  set_agrees :
      (target out : List A) (i j : ℕ) (v : A)
      → i < length out
      → v ≡ get_or target i z
      → (i ≢ j → get_or out j z ≡ get_or target j z)
      → get_or (set out i v) j z ≡ get_or target j z
  set_agrees target out i j v lt e h = elim (Bool-cases (i == j)) [
    | inl same ↦
        let ij = (==_iff i j).0 same in
        ap (λ k. get_or (set out i v) k z) (sym ij)
        ∙ get_or-set_self out i v z lt
        ∙ e
        ∙ ap (λ k. get_or target k z) ij
    | inr other ↦ let ne = not-==_ne i j other in get_or-set_ne out i j v z ne ∙ h ne
  ]

  -- The places written by the rounds before `i` agree; round `q` writes at `at q`.
  Agrees : ℕ → (ℕ → ℕ) → List A → ℕ → List A → Type 0
  Agrees size at target i out =
      (length out ≡ size) × ((q : ℕ) → q < i → get_or out (at q) z ≡ get_or target (at q) z)

  keeps_Agrees :
      (size : ℕ) (at : ℕ → ℕ) (target out : List A) (i : ℕ) (v : A)
      → at i < size
      → v ≡ get_or target (at i) z
      → Agrees size at target i out
      → Agrees size at target (i + 1) (set out (at i) v)
  unfolding Agrees
  keeps_Agrees size at target out i v lt e (len, agree) = (
    length-set out (at i) v ∙ len,
    λ q below.
        set_agrees target out (at i) (at q) v (omega (arith, len)) e
          (λ ne. agree q (earlier q below (λ same. ne (ap at (sym same))))),
  )
    where
      earlier : (q : ℕ) → q < i + 1 → q ≢ i → q < i
      earlier q below ne = omega arith

  -- A loop of as many rounds as the array has places, whose round `i` writes at `at i` what the
  -- target has there, makes the target, when every place is written.
  pub for_from-writes :
      (size : ℕ) (at : ℕ → ℕ) (step : ℕ → List A → List A) (target start : List A)
      → length target ≡ size
      → length start ≡ size
      → ((i : ℕ) (out : List A)
          → i < size
          → (at i < size) × (step i out ≡ set out (at i) (get_or target (at i) z)))
      → ((j : ℕ) → j < size → (q : ℕ) × (q < size) × (at q ≡ j))
      → for_from step size 0 start ≡ target
  unfolding Agrees
  for_from-writes size at step target start len len' writes onto =
      let (length_out, agree) = ends in
      get_or_ext z (for_from step size 0 start) target (length_out ∙ sym len) (λ j below.
        let (q, lt, e) = onto j (omega (arith, length_out)) in
        ap (λ k. get_or (for_from step size 0 start) k z) (sym e)
        ∙ agree q lt
        ∙ ap (λ k. get_or target k z) e)
    where
      ends : Agrees size at target size (for_from step size 0 start)
      ends =
          for_from_invariant step (Agrees size at target) size size 0 start (omega arith)
            (λ i out lt agrees.
              let (in_range, e) = writes i out lt in
              subst (Agrees size at target (i + 1)) (sym e)
                (keeps_Agrees size at target out i (get_or target (at i) z) in_range refl agrees))
            (len', λ q below. absurd (omega arith))

  pub for_from-tabulate :
      (size : ℕ) (at : ℕ → ℕ) (step : ℕ → List A → List A) (f : ℕ → A) (start : List A)
      → length start ≡ size
      → ((i : ℕ) (out : List A)
          → i < size
          → (at i < size) × (step i out ≡ set out (at i) (f (at i))))
      → ((j : ℕ) → j < size → (q : ℕ) × (q < size) × (at q ≡ j))
      → for_from step size 0 start ≡ tabulate f size 0
  for_from-tabulate size at step f start len writes onto =
      for_from-writes size at step (tabulate f size 0) start (length-tabulate f size 0) len
        (λ i out lt.
          let (lt', e) = writes i out lt in
          (lt', e ∙ ap (λ v. set out (at i) v) (sym (get_or-tabulate_zero f size (at i) z lt'))))
        onto
