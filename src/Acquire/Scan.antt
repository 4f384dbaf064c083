-- ===== src/Acquire/Scan.antt =====
-- The scan returns a candidate of the highest score among all phases.
use dvbt_rx.Base.{
  ℕ, ◌+◌, ◌*◌, ◌≤◌, ◌≡◌, ◌≢◌, refl, sym, ap, ◌∙◌, arith, Bool, true, false, List, Option, none,
  some, if◌then◌else◌, ltb, ◌==◌, inl, inr, ◌⊎◌, Bool-cases, leb, length, Option-cases,
  for_from_invariant, ==_iff, not-==_ne,
}
use dvbt_rx.Deinterleaver.{deinterleave_phase}
use dvbt_rx.Acquire.{
  Policy, Candidate, no_candidate, unscored, score_block, score_blocks, max_blocks, score_candidate,
  better, scan_block_phases, scan_rs_phases, scan_deint_phase, scan_best, scan_alignment,
}
use dvbt_rx.Acquire.Phases.{IsHighest, scan_best-IsHighest}

module _ (policy : Policy) (inner : List ℕ) where
  -- The counts of a candidate: clean blocks are in step, blocks in step are blocks.
  IsCounted : Candidate → Type 0
  IsCounted c = (c.rs_ok ≤ c.sync_ok) × (c.sync_ok ≤ c.blocks)

  score_block-IsCounted :
      (deint : List ℕ) (offset phase b : ℕ) (c : Candidate)
      → IsCounted c
      → IsCounted (score_block policy deint offset phase b c)
  unfolding score_block IsCounted
  score_block-IsCounted deint offset phase b c counted = ground arith

  score_blocks-IsCounted :
      (deint : List ℕ) (offset phase : ℕ) (c : Candidate)
      → IsCounted c
      → IsCounted (score_blocks policy deint offset phase c)
  unfolding score_blocks
  score_blocks-IsCounted deint offset phase c counted =
      for_from_invariant (score_block policy deint offset phase) (λ _. IsCounted)
        (max_blocks policy (length deint) offset) (max_blocks policy (length deint) offset) 0 c
        (omega arith) (λ b c lt counted. score_block-IsCounted deint offset phase b c counted)
        counted

  scoreless :
      (early : Bool) (c scored : Candidate)
      → c.score ≡ 0
      → IsCounted scored
      → (if early then c else record scored { score = scored.rs_ok * 1000 + scored.sync_ok }).blocks
        ≡ 0
      → (if early then c else record scored { score = scored.rs_ok * 1000 + scored.sync_ok }).score
        ≡ 0
  unfolding IsCounted
  scoreless true c scored start counted e = start
  scoreless false c scored start counted e = omega (arith, counted.0, counted.1)

  -- A candidate without blocks scores nothing.
  score_candidate-blocks :
      (deint : List ℕ) (d r b : ℕ)
      → (score_candidate policy deint d r b).blocks ≡ 0
      → (score_candidate policy deint d r b).score ≡ 0
  unfolding score_candidate IsCounted unscored
  score_candidate-blocks deint d r b none_seen =
      scoreless (leb (length deint) (2244 + r)) (unscored d r b)
        (score_blocks policy deint (2244 + r) b (unscored d r b)) refl
        (score_blocks-IsCounted deint (2244 + r) b (unscored d r b) (omega arith, omega arith))
        none_seen

  -- It is the score of some phase.
  pub IsScored : Candidate → Type 0
  IsScored best =
      (d : ℕ) × (deint : List ℕ) × (r : ℕ) × (b : ℕ) × (deinterleave_phase inner d ≡ some deint)
      × (best ≡ score_candidate policy deint d r b)

  Attained : Candidate → Type 0
  Attained best = (best ≡ no_candidate) ⊎ IsScored best

  better-Attained : (c best : Candidate) → IsScored c → Attained best → Attained (better c best)
  unfolding better Attained
  better-Attained c best scored attained = elim (Bool-cases (ltb best.score c.score)) [
    | inl higher ↦ rw higher (inr scored)
    | inr lower ↦ rw lower attained
  ]

  rs_phases-Attained :
      (deint : List ℕ) (d : ℕ) (c : Candidate)
      → deinterleave_phase inner d ≡ some deint
      → Attained c
      → Attained (scan_rs_phases policy deint d c)
  unfolding scan_rs_phases scan_block_phases IsScored
  rs_phases-Attained deint d c e attained =
      for_from_invariant (scan_block_phases policy deint d) (λ _. Attained) 204 204 0 c
        (omega arith)
        (λ r c lt attained.
          for_from_invariant _ (λ _. Attained) 8 8 0 c (omega arith)
            (λ b best lt attained.
              better-Attained (score_candidate policy deint d r b) best (d, deint, r, b, e, refl)
                attained)
            attained)
        attained

  deint_phase-Attained :
      (d : ℕ) (c : Candidate) → Attained c → Attained (scan_deint_phase policy inner d c)
  unfolding scan_deint_phase
  deint_phase-Attained d c attained = elim (Option-cases (deinterleave_phase inner d)) [
    | inl no_bytes ↦ rw (no_bytes, scan_deint_phase) attained
    | inr (deint, e) ↦ rw (e, scan_deint_phase) (rs_phases-Attained deint d c e attained)
  ]

  scan_best-Attained : Attained (scan_best policy inner)
  unfolding scan_best Attained
  scan_best-Attained =
      for_from_invariant (scan_deint_phase policy inner) (λ _. Attained) 12 12 0 no_candidate
        (omega arith) (λ d best lt attained. deint_phase-Attained d best attained) (inl refl)

  -- The best candidate, or none.
  pub IsScanned : Option Candidate → Type 0
  IsScanned (some best) = IsScored best × IsHighest policy inner best
  IsScanned none = IsHighest policy inner no_candidate

  unscored-IsHighest :
      (best : Candidate)
      → IsHighest policy inner best
      → best.score ≡ 0
      → IsHighest policy inner no_candidate
  unfolding IsHighest
  unscored-IsHighest best highest e d deint lt e' r lt_r b lt_b =
      omega (arith, e, highest d deint lt e' r lt_r b lt_b)

  scan_best-blocks : (scan_best policy inner).blocks ≡ 0 → (scan_best policy inner).score ≡ 0
  unfolding Attained IsScored
  scan_best-blocks empty = elim scan_best-Attained [
    | inl nothing ↦ ap (λ c. c.score) nothing
    | inr (d, deint, r, b, e, same) ↦
        ap (λ c. c.score) same
        ∙ score_candidate-blocks deint d r b (sym (ap (λ c. c.blocks) same) ∙ empty)
  ]

  scan_best-IsScored : (scan_best policy inner).blocks ≢ 0 → IsScored (scan_best policy inner)
  unfolding Attained
  scan_best-IsScored filled = elim scan_best-Attained [
    | inl nothing ↦ absurd (filled (ap (λ c. c.blocks) nothing))
    | inr scored ↦ scored
  ]

  -- A candidate that scan_outer_alignment_with_policy returns is that of some phase, and no phase
  -- scores higher; when it returns none, no phase scores at all.
  pub scan_alignment-IsScanned : IsScanned (scan_alignment policy inner)
  unfolding scan_alignment IsScanned
  scan_alignment-IsScanned = elim (Bool-cases ((scan_best policy inner).blocks == 0)) [
    | inl empty ↦ rw empty (
        unscored-IsHighest (scan_best policy inner) (scan_best-IsHighest policy inner)
          (scan_best-blocks ((==_iff _ 0).0 empty)))
    | inr found ↦
        rw found (scan_best-IsScored (not-==_ne _ 0 found), (scan_best-IsHighest policy inner))
  ]
