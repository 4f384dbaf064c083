-- ===== src/Acquire/Phases.antt =====
-- The loops of the scan do not lower the score, and reach every phase.
use dvbt_rx.Base.{
  ℕ, ◌+◌, ◌≤◌, ◌<◌, ◌≡◌, ◌≢◌, sym, arith, List, some, ◌==◌, inl, inr, Bool-cases, Option-cases,
  subst, for_from, for_from_invariant, ==_iff, not-==_ne,
}
use dvbt_rx.Deinterleaver.{deinterleave_phase}
use dvbt_rx.Acquire.{
  Policy, Candidate, no_candidate, score_candidate, better, scan_block_phases, scan_rs_phases,
  scan_deint_phase, scan_best,
}

-- Loops whose rounds do not lower the score.
Grows : (ℕ → Candidate → Candidate) → Type 0
Grows step = (i : ℕ) (c : Candidate) → c.score ≤ (step i c).score

for_from-Grows :
    (step : ℕ → Candidate → Candidate) (n : ℕ) (c : Candidate)
    → Grows step
    → c.score ≤ (for_from step n 0 c).score
unfolding Grows
for_from-Grows step n c grows =
    for_from_invariant step (λ _ b. c.score ≤ b.score) n n 0 c (omega arith)
      (λ i b lt h. omega (arith, h, grows i b)) (omega arith)

-- What each round brings about, and no later round undoes, holds of every index at the end.
for_from_covers :
    (step : ℕ → Candidate → Candidate) (Q : ℕ → Candidate → Type 0) (n : ℕ) (c : Candidate)
    → ((i : ℕ) (b : Candidate) → i < n → Q i (step i b))
    → ((i j : ℕ) (b : Candidate) → j < n → Q j b → Q j (step i b))
    → (j : ℕ) → j < n
    → Q j (for_from step n 0 c)
for_from_covers step Q n c makes keeps =
    for_from_invariant step (λ i b. (j : ℕ) → j < i → Q j b) n n 0 c (omega arith)
      (λ i b lt h j below. elim (Bool-cases (j == i)) [
        | inl same ↦ subst (λ k. Q k (step i b)) (sym ((==_iff j i).0 same)) (makes i b lt)
        | inr other ↦
            keeps i j b (omega (arith, below, lt)) (h j (earlier i j below (not-==_ne j i other)))
      ])
      (λ j below. absurd (omega arith))
  where
    earlier : (i j : ℕ) → j < i + 1 → j ≢ i → j < i
    earlier i j below ne = omega arith

pub better-score :
    (c best : Candidate) → (c.score ≤ (better c best).score) × (best.score ≤ (better c best).score)
unfolding better
better-score c best = ground arith

module _ (policy : Policy) (inner : List ℕ) where
  module _ (deint : List ℕ) (d : ℕ) where
    block_phases-Grows :
        (r : ℕ) (c : Candidate) → c.score ≤ (scan_block_phases policy deint d r c).score
    unfolding scan_block_phases Grows
    block_phases-Grows r c =
        for_from-Grows _ 8 c (λ b best. (better-score (score_candidate policy deint d r b) best).1)

    block_phases-covers :
        (r : ℕ) (c : Candidate) (b : ℕ)
        → b < 8
        → (score_candidate policy deint d r b).score ≤ (scan_block_phases policy deint d r c).score
    unfolding scan_block_phases
    block_phases-covers r c =
        for_from_covers _ (λ b best. (score_candidate policy deint d r b).score ≤ best.score) 8 c
          (λ b best lt. (better-score (score_candidate policy deint d r b) best).0)
          (λ i b best lt h.
            omega (arith, h, (better-score (score_candidate policy deint d r i) best).1))

    rs_phases-Grows : (c : Candidate) → c.score ≤ (scan_rs_phases policy deint d c).score
    unfolding scan_rs_phases Grows
    rs_phases-Grows c = for_from-Grows _ 204 c block_phases-Grows

    rs_phases-covers :
        (c : Candidate) (r : ℕ)
        → r < 204
        → (b : ℕ) → b < 8
        → (score_candidate policy deint d r b).score ≤ (scan_rs_phases policy deint d c).score
    unfolding scan_rs_phases
    rs_phases-covers c =
        for_from_covers _
          (λ r best. (b : ℕ) → b < 8 → (score_candidate policy deint d r b).score ≤ best.score) 204
          c (λ r best lt. block_phases-covers r best)
          (λ i r best lt h b lt'. omega (arith, h b lt', block_phases-Grows i best))

  deint_phase-Grows : (d : ℕ) (c : Candidate) → c.score ≤ (scan_deint_phase policy inner d c).score
  unfolding scan_deint_phase
  deint_phase-Grows d c = elim (Option-cases (deinterleave_phase inner d)) [
    | inl no_bytes ↦ rw (no_bytes, scan_deint_phase) (omega arith)
    | inr (deint, e) ↦ rw (e, scan_deint_phase) (rs_phases-Grows deint d c)
  ]

  -- No phase scores higher.
  unfoldable pub IsHighest : Candidate → Type 0
  IsHighest best =
      (d : ℕ) (deint : List ℕ)
      → d < 12
      → deinterleave_phase inner d ≡ some deint
      → (r : ℕ) → r < 204
      → (b : ℕ) → b < 8
      → (score_candidate policy deint d r b).score ≤ best.score

  pub scan_best-IsHighest : IsHighest (scan_best policy inner)
  unfolding scan_best IsHighest scan_deint_phase
  scan_best-IsHighest d deint lt e r lt_r b lt_b =
      for_from_covers (scan_deint_phase policy inner)
        (λ d best.
          (deint : List ℕ)
          → deinterleave_phase inner d ≡ some deint
          → (r : ℕ) → r < 204
          → (b : ℕ) → b < 8
          → (score_candidate policy deint d r b).score ≤ best.score)
        12 no_candidate
        (λ d best lt deint e. rw (e, scan_deint_phase) (rs_phases-covers deint d best))
        (λ i d best lt h deint e r lt_r b lt_b.
          omega (arith, h deint e r lt_r b lt_b, deint_phase-Grows i best))
        d lt deint e r lt_r b lt_b
