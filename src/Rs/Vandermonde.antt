-- ===== src/Rs/Vandermonde.antt =====
-- A sum of at most n terms with n successive power sums 0 has only coefficients 0.
use dvbt_rx.Base.{ℕ, zero, suc, ◌<◌, ◌≡◌, ◌≢◌, ◌∙◌, sym, ap, ap₂, refl, arith, List, [], ◌∷◌}
use dvbt_rx.Base.{length, All}
use dvbt_rx.Base.{
  bit_xor, bit_xor-lt-byte, bit_xor_assoc, bit_xor_comm, bit_xor_self, bit_xor-zero, zero-bit_xor,
  eq_of_bit_xor,
}
use dvbt_rx.Gf.{mul_fast}
use dvbt_rx.Gf.Field.{
  mul_comm, mul_assoc, mul-lt, mul-bit_xor, mul-zero, zero-mul, one-mul, mul_positive,
}

unfoldable pub pow_fast : ℕ → ℕ → ℕ
pow_fast x zero = 1
pow_fast x (suc n) = mul_fast x (pow_fast x n)

pub pow_fast-lt : (x n : ℕ) → x < 256 → pow_fast x n < 256
unfolding pow_fast
pow_fast-lt x zero h = omega arith
pow_fast-lt x (suc n) h = mul-lt x (pow_fast x n) h (pow_fast-lt x n h)

-- A coefficient and the value whose powers it is multiplied by.
abbrev pub Term : Type 0
Term = ℕ × ℕ

unfoldable pub power_sum : ℕ → List Term → ℕ
power_sum j [] = 0
power_sum j ((c, x) ∷ ts) = bit_xor (mul_fast c (pow_fast x j)) (power_sum j ts)

abbrev pub AreBytes : List Term → Type 0
AreBytes = All (λ (c, x). (c < 256) × (x < 256))

abbrev pub Distinct : List Term → Type 0
Distinct [] = Unit
Distinct ((c, x) ∷ ts) = All (λ (d, y). y ≢ x) ts × Distinct ts

abbrev pub AreZero : List Term → Type 0
AreZero = All (λ (c, x). c ≡ 0)

pub power_sum-lt : (j : ℕ) (ts : List Term) → AreBytes ts → power_sum j ts < 256
unfolding power_sum
power_sum-lt j [] h = omega arith
power_sum-lt j ((c, x) ∷ ts) ((hc, hx), h) =
    bit_xor-lt-byte _ _ (mul-lt c (pow_fast x j) hc (pow_fast-lt x j hx)) (power_sum-lt j ts h)

power_sum-AreZero : (j : ℕ) (ts : List Term) → AreZero ts → power_sum j ts ≡ 0
unfolding power_sum
power_sum-AreZero j [] h = refl
power_sum-AreZero j ((c, x) ∷ ts) (z, h) =
    ap₂ bit_xor (ap (λ c. mul_fast c (pow_fast x j)) z ∙ zero-mul _) (power_sum-AreZero j ts h)

-- Each coefficient times the difference of its value to `x`.
scale : ℕ → List Term → List Term
scale x [] = []
scale x ((c, y) ∷ ts) = (mul_fast c (bit_xor y x), y) ∷ scale x ts

length-scale : (x : ℕ) (ts : List Term) → length (scale x ts) ≡ length ts
unfolding scale
length-scale x [] = refl
length-scale x ((c, y) ∷ ts) = omega (arith, length-scale x ts)

scale-AreBytes : (x : ℕ) (ts : List Term) → x < 256 → AreBytes ts → AreBytes (scale x ts)
unfolding scale
scale-AreBytes x [] hx h = tt
scale-AreBytes x ((c, y) ∷ ts) hx ((hc, hy), h) =
    ((mul-lt c (bit_xor y x) hc (bit_xor-lt-byte y x hy hx), hy), scale-AreBytes x ts hx h)

scale-All :
    (x z : ℕ) (ts : List Term) → All (λ (d, y). y ≢ z) ts → All (λ (d, y). y ≢ z) (scale x ts)
unfolding scale
scale-All x z [] h = tt
scale-All x z ((c, y) ∷ ts) (ne, h) = (ne, scale-All x z ts h)

scale-Distinct : (x : ℕ) (ts : List Term) → Distinct ts → Distinct (scale x ts)
unfolding scale
scale-Distinct x [] h = tt
scale-Distinct x ((c, y) ∷ ts) (ne, h) = (scale-All x y ts ne, scale-Distinct x ts h)

-- Multiplication has no divisors of 0.
zero_of_mul : (c d : ℕ) → c < 256 → d < 256 → d ≢ 0 → mul_fast c d ≡ 0 → c ≡ 0
zero_of_mul zero d hc hd ne e = refl
zero_of_mul (suc c) zero hc hd ne e = absurd (ne refl)
zero_of_mul (suc c) (suc d) hc hd ne e =
    absurd (omega (arith, e, mul_positive (suc c) (suc d) hc hd (omega arith) (omega arith)))

scale-AreZero :
    (x : ℕ) (ts : List Term)
    → x < 256
    → AreBytes ts
    → All (λ (d, y). y ≢ x) ts
    → AreZero (scale x ts)
    → AreZero ts
unfolding scale
scale-AreZero x [] hx h ne z = tt
scale-AreZero x ((c, y) ∷ ts) hx ((hc, hy), h) (ne, nes) (z, zs) = (
  zero_of_mul c (bit_xor y x) hc (bit_xor-lt-byte y x hy hx) (λ e. ne (eq_of_bit_xor y x e)) z,
  scale-AreZero x ts hx h nes zs,
)

pub bit_xor_exchange :
    (a b c d : ℕ) → bit_xor (bit_xor a b) (bit_xor c d) ≡ bit_xor (bit_xor a c) (bit_xor b d)
bit_xor_exchange a b c d =
    bit_xor_assoc a b (bit_xor c d)
    ∙ ap (bit_xor a)
        (sym (bit_xor_assoc b c d) ∙ ap (λ t. bit_xor t d) (bit_xor_comm b c) ∙ bit_xor_assoc c b d)
    ∙ sym (bit_xor_assoc a c (bit_xor b d))

-- One term of the difference of two successive sums.
term_difference :
    (c x y p : ℕ)
    → c < 256
    → x < 256
    → y < 256
    → p < 256
    → bit_xor (mul_fast c (mul_fast y p)) (mul_fast x (mul_fast c p))
      ≡ mul_fast (mul_fast c (bit_xor y x)) p
term_difference c x y p hc hx hy hp =
    ap₂ bit_xor (sym (mul_assoc c y p hc hy hp) ∙ mul_comm _ p)
      (sym (mul_assoc x c p hx hc hp) ∙ ap (λ t. mul_fast t p) (mul_comm x c) ∙ mul_comm _ p)
    ∙ sym (mul-bit_xor p (mul_fast c y) (mul_fast c x) hp (mul-lt c y hc hy) (mul-lt c x hc hx))
    ∙ ap (mul_fast p) (sym (mul-bit_xor c y x hc hy hx))
    ∙ mul_comm p _

power_sum-scale :
    (j x : ℕ) (ts : List Term)
    → x < 256
    → AreBytes ts
    → power_sum j (scale x ts) ≡ bit_xor (power_sum (suc j) ts) (mul_fast x (power_sum j ts))
unfolding power_sum scale pow_fast
power_sum-scale j x [] hx h = sym (ap (bit_xor 0) (mul-zero x))
power_sum-scale j x ((c, y) ∷ ts) hx ((hc, hy), h) =
    ap₂ bit_xor (sym (term_difference c x y p hc hx hy hp)) (power_sum-scale j x ts hx h)
    ∙ bit_xor_exchange _ _ _ _
    ∙ ap (bit_xor (power_sum (suc j) ((c, y) ∷ ts))) (
        sym (
          mul-bit_xor x (mul_fast c p) (power_sum j ts) hx (mul-lt c p hc hp)
            (power_sum-lt j ts h)))
  where
    p : ℕ
    p = pow_fast y j

    hp : p < 256
    hp = pow_fast-lt y j hy

-- Without the term of `x`, the scaled sum is 0 where two successive sums are.
scaled_zero :
    (j c x : ℕ) (ts : List Term)
    → c < 256
    → x < 256
    → AreBytes ts
    → power_sum j ((c, x) ∷ ts) ≡ 0
    → power_sum (suc j) ((c, x) ∷ ts) ≡ 0
    → power_sum j (scale x ts) ≡ 0
unfolding power_sum scale
scaled_zero j c x ts hc hx h now next =
    sym (zero-bit_xor _)
    ∙ ap (λ t. bit_xor t (power_sum j (scale x ts)))
        (sym (zero-mul _)
          ∙ ap (λ t. mul_fast t (pow_fast x j))
              (sym (mul-zero c) ∙ ap (mul_fast c) (sym (bit_xor_self x))))
    ∙ power_sum-scale j x ((c, x) ∷ ts) hx ((hc, hx), h)
    ∙ ap₂ bit_xor next (ap (mul_fast x) now ∙ mul-zero x)

head_coefficient : (c x : ℕ) (ts : List Term) → c < 256 → AreZero ts → power_sum 0 ((c, x) ∷ ts) ≡ c
unfolding power_sum pow_fast
head_coefficient c x ts hc zs =
    ap₂ bit_xor (mul_comm c 1 ∙ one-mul c hc) (power_sum-AreZero 0 ts zs) ∙ bit_xor-zero c

-- `n` distinct values whose first `n` power sums are 0 have only coefficients 0.
pub power_sum_zero :
    (n : ℕ) (ts : List Term)
    → length ts ≡ n
    → AreBytes ts
    → Distinct ts
    → ((j : ℕ) → j < n → power_sum j ts ≡ 0)
    → AreZero ts
power_sum_zero n [] e h ne zeros = tt
power_sum_zero zero (t ∷ ts) e h ne zeros = absurd (omega arith)
power_sum_zero (suc n) ((c, x) ∷ ts) e ((hc, hx), h) (ne, distinct) zeros =
    let rest = scale-AreZero x ts hx h ne (
      power_sum_zero n (scale x ts) (omega (arith, e, length-scale x ts)) (scale-AreBytes x ts hx h)
        (scale-Distinct x ts distinct)
        (λ j lt.
          scaled_zero j c x ts hc hx h (zeros j (omega arith)) (zeros (suc j) (omega arith)))) in
    (sym (head_coefficient c x ts hc rest) ∙ zeros 0 (omega arith), rest)
