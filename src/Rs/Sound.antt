-- ===== src/Rs/Sound.antt =====
-- What `rs_correct_204` promises when it reports a number of corrected bytes.
use dvbt_rx.Base.{ℕ, zero, suc, ◌+◌, ◌≤◌, ◌≡◌, inl, inr, refl, arith, ◌∙◌}
use dvbt_rx.Base.{true, List, [], ◌∷◌, ◌++◌, some}
use dvbt_rx.Base.{if◌then◌else◌, ◌==◌, get_or, set, length, length-set, length-append}
use dvbt_rx.Base.{bit_xor, Option-cases}
use dvbt_rx.Rs.{
  syndromes_204, block_is_clean_204, find_positions, magnitude, apply_errors, omega_poly,
  correct_at, correct_by, correct_204, berlekamp_massey,
}

-- The number of indices at which two blocks differ.
abbrev pub distance : List ℕ → List ℕ → ℕ
distance [] ys = 0
distance (x ∷ xs) [] = suc (distance xs [])
distance (x ∷ xs) (y ∷ ys) = (if x == y then 0 else 1) + distance xs ys

pub distance_self : (xs : List ℕ) → distance xs xs ≡ 0
distance_self [] = refl
distance_self (x ∷ xs) = ground (arith, distance_self xs)

distance-set : (xs ys : List ℕ) (k v : ℕ) → distance xs (set ys k v) ≤ distance xs ys + 1
distance-set [] ys k v = omega arith
distance-set (x ∷ xs) [] k v = omega arith
distance-set (x ∷ xs) (y ∷ ys) zero v = ground arith
distance-set (x ∷ xs) (y ∷ ys) (suc k) v = omega (arith, distance-set xs ys k v)

-- What the search for positions has found: as many as it counts, and at most 8.
find_positions-count :
    (locator : List ℕ) (degree n k : ℕ) (found : List ℕ) (count : ℕ) (ps : List ℕ) (c : ℕ)
    → length found ≡ count
    → count ≤ 8
    → find_positions locator degree n k found count ≡ some (ps, c)
    → (length ps ≡ c) × (c ≤ 8)
unfolding find_positions
find_positions-count locator degree zero k found count ps c e h r = ground arith
find_positions-count locator degree (suc n) k found count ps c e h r = ground (
  arith,
  find_positions-count locator degree n (k + 1) found count ps c e h,
  find_positions-count locator degree n (k + 1) (found ++ (k ∷ [])) (count + 1) ps c,
  length-append found (k ∷ []),
)

-- Each position changes at most one byte.
apply_errors-distance :
    (locator w : List ℕ) (degree : ℕ) (ks xs block : List ℕ)
    → (distance xs (apply_errors locator w degree ks block).1 ≤ distance xs block + length ks)
      × (length (apply_errors locator w degree ks block).1 ≡ length block)
unfolding apply_errors
apply_errors-distance locator w degree [] xs block = (omega arith, refl)
apply_errors-distance locator w degree (k ∷ ks) xs block =
    elim (Option-cases (magnitude locator w degree k)) [
      | inl e ↦ rw (e, apply_errors) (omega arith, refl)
      | inr (m, e) ↦
          rw (e, apply_errors)
            (
              omega (
                arith,
                (apply_errors-distance locator w degree ks xs (after m)).0,
                distance-set xs block k (bit_xor (get_or block k 0) m),
              ),
              (apply_errors-distance locator w degree ks xs (after m)).1
                  ∙ length-set block k (bit_xor (get_or block k 0) m),
            )
    ]
  where
    after : ℕ → List ℕ
    after m = set block k (bit_xor (get_or block k 0) m)

-- What a reported number of corrections promises of the block that is left.
pub record IsCorrected (block : List ℕ) (n : ℕ) (out : List ℕ) : Type 0 where
  pub clean : block_is_clean_204 out ≡ true
  pub few : n ≤ 8
  pub near : distance block out ≤ n
  pub same_length : length out ≡ length block

correct_at-IsCorrected :
    (syn locator : List ℕ) (degree : ℕ) (ps : List ℕ) (count : ℕ) (block : List ℕ) {n : ℕ}
    {out : List ℕ}
    → length ps ≡ count
    → count ≤ 8
    → correct_at syn locator degree ps count block ≡ (some n, out)
    → IsCorrected block n out
unfolding correct_at block_is_clean_204
correct_at-IsCorrected syn locator degree ps count block e h r = ground (
  arith,
  apply_errors-distance locator (omega_poly syn locator degree) degree ps block block,
  distance_self block,
)

correct_by-IsCorrected :
    (syn locator : List ℕ) (degree : ℕ) (block : List ℕ) {n : ℕ} {out : List ℕ}
    → correct_by syn locator degree block ≡ (some n, out)
    → IsCorrected block n out
unfolding correct_by
correct_by-IsCorrected syn locator degree block {n} {out} r =
    elim (Option-cases (find_positions locator degree 204 0 [] 0)) [
      | inl e ↦ ground arith
      | inr ((ps, c), e) ↦ ground (
        arith,
        find_positions-count locator degree 204 0 [] 0 ps c,
        correct_at-IsCorrected syn locator degree ps c block {n = n} {out = out},
      )
    ]

unchanged-IsCorrected :
    (block : List ℕ) → block_is_clean_204 block ≡ true → IsCorrected block 0 block
unchanged-IsCorrected block h = record {
  clean = h;
  few = omega arith;
  near = omega (arith, distance_self block);
  same_length = refl;
}

-- A count of corrections is reported only when the block that is left has all syndromes 0; it is
-- at most 8, and the block differs from the one received in at most so many bytes.
pub correct_204-IsCorrected :
    (block : List ℕ) {n : ℕ} {out : List ℕ}
    → correct_204 block ≡ (some n, out)
    → IsCorrected block n out
unfolding correct_204 block_is_clean_204
correct_204-IsCorrected block {n} {out} r =
    elim (Option-cases (berlekamp_massey (syndromes_204 block))) [
      | inl e ↦ ground (arith, unchanged-IsCorrected block)
      | inr ((locator, degree), e) ↦ ground (
        arith,
        unchanged-IsCorrected block,
        correct_by-IsCorrected (syndromes_204 block) locator degree block {n = n} {out = out},
      )
    ]
