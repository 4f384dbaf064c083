-- ===== src/Rs/Unique.antt =====
-- Two code words of RS(204,188) differ in more than sixteen bytes, so that a block with at most
-- eight wrong bytes is corrected to the code word that was sent, or not at all.
use dvbt_rx.Base.{
  ℕ, zero, suc, ◌+◌, ◌≤◌, ◌<◌, ◌≡◌, ◌≢◌, ◌∙◌, sym, ap, ap₂, refl, arith, List, [], ◌∷◌,
}
use dvbt_rx.Base.{length, All, true, if◌then◌else◌, ◌==◌, ==_iff, Bool-cases, inl, inr}
use dvbt_rx.Base.{bit_xor, bit_xor-lt-byte, zero-bit_xor, bit_xor_self, eq_of_bit_xor}
use dvbt_rx.Gf.{mul_fast}
use dvbt_rx.Gf.Field.{mul_comm, mul-bit_xor, zero-mul}
use dvbt_rx.Rs.{syndrome, syndromes_204, block_is_clean_204}
use dvbt_rx.Rs.Sound.{distance}
use dvbt_rx.Rs.Vandermonde.{
  pow_fast, pow_fast-lt, Term, power_sum, AreBytes, AreZero, Distinct, power_sum_zero,
  bit_xor_exchange,
}
use dvbt_rx.Rs.Words.{
  IsBlock, terms, terms-AreBytes, terms-Distinct, syndrome-power_sum, has_syndrome-false,
}

-- The bytes of the difference of two blocks.
difference : List ℕ → List ℕ → List ℕ
difference [] ys = []
difference (x ∷ xs) [] = []
difference (x ∷ xs) (y ∷ ys) = bit_xor x y ∷ difference xs ys

length-difference : (xs ys : List ℕ) → length xs ≡ length ys → length (difference xs ys) ≡ length xs
unfolding difference
length-difference [] ys e = refl
length-difference (x ∷ xs) [] e = absurd (omega arith)
length-difference (x ∷ xs) (y ∷ ys) e = omega (arith, length-difference xs ys (omega arith))

difference-IsBlock : (xs ys : List ℕ) → IsBlock xs → IsBlock ys → IsBlock (difference xs ys)
unfolding difference
difference-IsBlock [] ys hx hy = tt
difference-IsBlock (x ∷ xs) [] hx hy = tt
difference-IsBlock (x ∷ xs) (y ∷ ys) (bx, hx) (by, hy) =
    (bit_xor-lt-byte x y bx by, difference-IsBlock xs ys hx hy)

-- The power sums are those of the two blocks together.
power_sum-difference :
    (j : ℕ) (xs ys : List ℕ)
    → length xs ≡ length ys
    → IsBlock xs
    → IsBlock ys
    → power_sum j (terms (difference xs ys))
      ≡ bit_xor (power_sum j (terms xs)) (power_sum j (terms ys))
unfolding difference terms power_sum
power_sum-difference j [] [] e hx hy = refl
power_sum-difference j [] (y ∷ ys) e hx hy = absurd (omega arith)
power_sum-difference j (x ∷ xs) [] e hx hy = absurd (omega arith)
power_sum-difference j (x ∷ xs) (y ∷ ys) e (bx, hx) (by, hy) =
    ap₂ bit_xor
      (mul_comm (bit_xor x y) _
        ∙ mul-bit_xor _ x y (pow_fast-lt _ j (pow_fast-lt 2 _ (omega arith))) bx by
        ∙ ap₂ bit_xor
            (mul_comm _ x
              ∙ ap (λ n. mul_fast x (pow_fast (pow_fast 2 n) j)) (length-difference xs ys same))
            (mul_comm _ y
              ∙ ap (λ n. mul_fast y (pow_fast (pow_fast 2 n) j))
                  (length-difference xs ys same ∙ same)))
      (power_sum-difference j xs ys same hx hy)
    ∙ bit_xor_exchange _ _ _ _
  where
    same : length xs ≡ length ys
    same = omega arith

-- The terms whose coefficient is not 0.
nonzero : List Term → List Term
nonzero [] = []
nonzero ((zero, x) ∷ ts) = nonzero ts
nonzero ((suc c, x) ∷ ts) = (suc c, x) ∷ nonzero ts

nonzero-All :
    (x : ℕ) (ts : List Term) → All (λ (d, y). y ≢ x) ts → All (λ (d, y). y ≢ x) (nonzero ts)
unfolding nonzero
nonzero-All x [] h = tt
nonzero-All x ((zero, y) ∷ ts) (ne, h) = nonzero-All x ts h
nonzero-All x ((suc c, y) ∷ ts) (ne, h) = (ne, nonzero-All x ts h)

nonzero-Distinct : (ts : List Term) → Distinct ts → Distinct (nonzero ts)
unfolding nonzero
nonzero-Distinct [] h = tt
nonzero-Distinct ((zero, x) ∷ ts) (ne, h) = nonzero-Distinct ts h
nonzero-Distinct ((suc c, x) ∷ ts) (ne, h) = (nonzero-All x ts ne, nonzero-Distinct ts h)

nonzero-AreBytes : (ts : List Term) → AreBytes ts → AreBytes (nonzero ts)
unfolding nonzero
nonzero-AreBytes [] h = tt
nonzero-AreBytes ((zero, x) ∷ ts) (b, h) = nonzero-AreBytes ts h
nonzero-AreBytes ((suc c, x) ∷ ts) (b, h) = (b, nonzero-AreBytes ts h)

power_sum-nonzero : (j : ℕ) (ts : List Term) → power_sum j (nonzero ts) ≡ power_sum j ts
unfolding nonzero power_sum
power_sum-nonzero j [] = refl
power_sum-nonzero j ((zero, x) ∷ ts) =
    power_sum-nonzero j ts
    ∙ sym (ap (λ t. bit_xor t (power_sum j ts)) (zero-mul _) ∙ zero-bit_xor _)
power_sum-nonzero j ((suc c, x) ∷ ts) = ap (bit_xor _) (power_sum-nonzero j ts)

length-nonzero_step :
    (c x : ℕ) (ts : List Term)
    → length (nonzero ((c, x) ∷ ts)) ≤ (if c == 0 then 0 else 1) + length (nonzero ts)
unfolding nonzero
length-nonzero_step zero x ts = ground arith
length-nonzero_step (suc c) x ts = ground arith

same_byte : (x y : ℕ) → (if bit_xor x y == 0 then 0 else 1) ≤ (if x == y then 0 else 1)
same_byte x y = elim (Bool-cases (x == y)) [
  | inl same ↦ rw same (ground (arith, ap (bit_xor x) (sym ((==_iff x y).0 same)), bit_xor_self x))
  | inr other ↦ rw other (ground arith)
]

-- There are no more of them than indices at which the blocks differ.
length-nonzero-le : (xs ys : List ℕ) → length (nonzero (terms (difference xs ys))) ≤ distance xs ys
unfolding nonzero terms difference
length-nonzero-le [] ys = omega arith
length-nonzero-le (x ∷ xs) [] = omega arith
length-nonzero-le (x ∷ xs) (y ∷ ys) = omega (
  arith,
  length-nonzero-le xs ys,
  length-nonzero_step (bit_xor x y) _ (terms (difference xs ys)),
  same_byte x y,
)

nonzero-AreZero : (ts : List Term) → AreZero (nonzero ts) → AreZero ts
unfolding nonzero
nonzero-AreZero [] h = tt
nonzero-AreZero ((zero, x) ∷ ts) h = (refl, nonzero-AreZero ts h)
nonzero-AreZero ((suc c, x) ∷ ts) (z, h) = absurd (omega (arith, z))

eq_of_difference :
    (xs ys : List ℕ) → length xs ≡ length ys → AreZero (terms (difference xs ys)) → xs ≡ ys
unfolding terms difference
eq_of_difference [] [] e h = refl
eq_of_difference [] (y ∷ ys) e h = absurd (omega arith)
eq_of_difference (x ∷ xs) [] e h = absurd (omega arith)
eq_of_difference (x ∷ xs) (y ∷ ys) e (z, h) =
    ap₂ (λ b bs. b ∷ bs) (eq_of_bit_xor x y z) (eq_of_difference xs ys (omega arith) h)

clean-power_sum :
    (bs : List ℕ) (j : ℕ)
    → IsBlock bs
    → block_is_clean_204 bs ≡ true
    → j < 16
    → power_sum j (terms bs) ≡ 0
unfolding block_is_clean_204 syndromes_204
clean-power_sum bs j h clean lt =
    sym (syndrome-power_sum bs j h (omega arith))
    ∙ ap (syndrome bs) from_zero
    ∙ has_syndrome-false bs 16 0 j (ground arith) lt
  where
    from_zero : j ≡ 0 + j
    from_zero = omega arith

-- Two blocks without a syndrome that differ in at most sixteen bytes are one.
pub clean_eq :
    (xs ys : List ℕ)
    → IsBlock xs
    → IsBlock ys
    → length xs ≡ length ys
    → length xs ≤ 255
    → block_is_clean_204 xs ≡ true
    → block_is_clean_204 ys ≡ true
    → distance xs ys ≤ 16
    → xs ≡ ys
clean_eq xs ys hx hy same small clean_x clean_y near = eq_of_difference xs ys same (
    nonzero-AreZero ts (
      power_sum_zero (length (nonzero ts)) (nonzero ts) refl
        (nonzero-AreBytes ts (terms-AreBytes d (difference-IsBlock xs ys hx hy)))
        (nonzero-Distinct ts
          (terms-Distinct d (omega (arith, length-difference xs ys same, small))))
        (λ j lt.
          power_sum-nonzero j ts
          ∙ power_sum-difference j xs ys same hx hy
          ∙ ap₂ bit_xor (clean-power_sum xs j hx clean_x (below j lt))
              (clean-power_sum ys j hy clean_y (below j lt)))))
  where
    d : List ℕ
    d = difference xs ys

    ts : List Term
    ts = terms d

    below : (j : ℕ) → j < length (nonzero ts) → j < 16
    below j lt = omega (arith, length-nonzero-le xs ys)
