-- ===== src/Gf/Field.antt =====
-- `gf_mul_fast`, `gf_div` and `gf_inv` with `^` for addition form a field on the bytes.
use dvbt_rx.Base.{
  ℕ, zero, suc, ◌+◌, ◌-◌, ◌*◌, ◌%◌, ◌≤◌, ◌<◌, ◌≡◌, ◌∙◌, sym, ap, ap₂, refl, arith, ltb,
}
use dvbt_rx.Base.{◌/◌, ◌^◌, ◌==◌, if◌then◌else◌, all_below, all_below_eq, all_below_lt, leb}
use dvbt_rx.Base.{bit_xor, bit_xor-lt-byte}
use native.Mathlib.Nat.{mod-add-mod, add-mod-mod, pow-suc, pow-le-pow_right}
use dvbt_rx.Gf.{gf_exp, gf_log, mul_fast, div, inv, double}
use dvbt_rx.Gf.Lookup.{exp-lt_any, log-exp, exp-log, exp-lt, exp_pos, log-lt, exp-mod, exp-suc}
use dvbt_rx.Gf.Lookup.{double-lt, double-bit_xor}

pub mul_pos : (a b : ℕ) → 0 < a → 0 < b → mul_fast a b ≡ gf_exp (gf_log a + gf_log b)
unfolding mul_fast
mul_pos a b h k = ground arith

pub zero-mul : (b : ℕ) → mul_fast 0 b ≡ 0
unfolding mul_fast
zero-mul b = refl

pub mul-zero : (a : ℕ) → mul_fast a 0 ≡ 0
unfolding mul_fast
mul-zero a = ground arith

pub mul_comm : (a b : ℕ) → mul_fast a b ≡ mul_fast b a
unfolding mul_fast
mul_comm a b = ground (arith, ap gf_exp (sum_comm (gf_log a) (gf_log b)))
  where
    sum_comm : (m n : ℕ) → m + n ≡ n + m
    sum_comm m n = omega arith

pub mul-lt : (a b : ℕ) → a < 256 → b < 256 → mul_fast a b < 256
unfolding mul_fast
mul-lt a b h k = ground (arith, exp-lt (gf_log a + gf_log b), log-lt a, log-lt b)

pub mul-lt_any : (a b : ℕ) → mul_fast a b < 256
unfolding mul_fast
mul-lt_any a b = ground (arith, exp-lt_any (gf_log a + gf_log b))

pub mul_positive : (a b : ℕ) → a < 256 → b < 256 → 0 < a → 0 < b → 0 < mul_fast a b
mul_positive a b h k p q =
    ground (arith, mul_pos a b, exp_pos (gf_log a + gf_log b), log-lt a, log-lt b)

-- A product of powers of 2 adds the exponents modulo 255.
log-mul :
    (a b : ℕ)
    → a < 256
    → b < 256
    → 0 < a
    → 0 < b
    → gf_log (mul_fast a b) ≡ (gf_log a + gf_log b) % 255
log-mul a b h k p q =
    ap gf_log (
      mul_pos a b p q ∙ sym (exp-mod (gf_log a + gf_log b) (omega (arith, log-lt a h, log-lt b k))))
    ∙ log-exp _ (omega arith)

mul_assoc_pos :
    (a b c : ℕ)
    → a < 256
    → b < 256
    → c < 256
    → 0 < a
    → 0 < b
    → 0 < c
    → mul_fast (mul_fast a b) c ≡ mul_fast a (mul_fast b c)
mul_assoc_pos a b c ha hb hc pa pb pc =
    mul_pos (mul_fast a b) c (mul_positive a b ha hb pa pb) pc
    ∙ ap gf_exp (ap (λ t. t + gf_log c) (log-mul a b ha hb pa pb))
    ∙ sym (exp-mod _ (omega (arith, log-lt c hc)))
    ∙ ap gf_exp (
        mod-add-mod (gf_log a + gf_log b) 255 (gf_log c)
        ∙ ap (λ t. t % 255) regroup
        ∙ sym (add-mod-mod (gf_log a) (gf_log b + gf_log c) 255))
    ∙ exp-mod _ (omega (arith, log-lt a ha))
    ∙ ap (λ t. gf_exp (gf_log a + t)) (sym (log-mul b c hb hc pb pc))
    ∙ sym (mul_pos a (mul_fast b c) pa (mul_positive b c hb hc pb pc))
  where
    regroup : gf_log a + gf_log b + gf_log c ≡ gf_log a + (gf_log b + gf_log c)
    regroup = omega arith

-- Multiplication of bytes is associative.
pub mul_assoc :
    (a b c : ℕ)
    → a < 256
    → b < 256
    → c < 256
    → mul_fast (mul_fast a b) c ≡ mul_fast a (mul_fast b c)
mul_assoc zero b c ha hb hc = ap (λ t. mul_fast t c) (zero-mul b) ∙ zero-mul c ∙ sym (zero-mul _)
mul_assoc (suc a) zero c ha hb hc =
    ap (λ t. mul_fast t c) (mul-zero (suc a))
    ∙ zero-mul c
    ∙ sym (ap (λ t. mul_fast (suc a) t) (zero-mul c) ∙ mul-zero (suc a))
mul_assoc (suc a) (suc b) zero ha hb hc =
    mul-zero _ ∙ sym (ap (λ t. mul_fast (suc a) t) (mul-zero (suc b)) ∙ mul-zero (suc a))
mul_assoc (suc a) (suc b) (suc c) ha hb hc =
    mul_assoc_pos (suc a) (suc b) (suc c) ha hb hc (omega arith) (omega arith) (omega arith)

pub one-mul : (a : ℕ) → a < 256 → mul_fast 1 a ≡ a
one-mul a h =
    all_below_eq 256 (λ i. mul_fast 1 i) (λ i. i) a
      (unfold all_below mul_fast gf_exp gf_log in refl) h

-- Multiplication by the next power of 2 doubles the product.
mul-exp-suc :
    (i b : ℕ) → i < 254 → b < 256 → mul_fast (gf_exp (suc i)) b ≡ double (mul_fast (gf_exp i) b)
mul-exp-suc i zero hi hb =
    mul-zero (gf_exp (suc i)) ∙ sym (ap double (mul-zero (gf_exp i)) ∙ unfold double in refl)
mul-exp-suc i (suc b) hi hb =
    mul_pos (gf_exp (suc i)) (suc b) (exp_pos (suc i) (omega arith)) (omega arith)
    ∙ ap (λ t. gf_exp (t + gf_log (suc b))) (log-exp (suc i) (omega arith))
    ∙ ap gf_exp shift
    ∙ exp-suc (i + gf_log (suc b)) (omega (arith, log-lt (suc b) hb))
    ∙ ap double (
        ap (λ t. gf_exp (t + gf_log (suc b))) (sym (log-exp i (omega arith)))
        ∙ sym (mul_pos (gf_exp i) (suc b) (exp_pos i (omega arith)) (omega arith)))
  where
    shift : suc i + gf_log (suc b) ≡ suc (i + gf_log (suc b))
    shift = omega arith

pub exp_zero : gf_exp 0 ≡ 1
unfolding gf_exp
exp_zero = refl

exp_one : gf_exp 1 ≡ 2
unfolding gf_exp
exp_one = refl

mul-exp-bit_xor :
    (i b c : ℕ)
    → i < 255
    → b < 256
    → c < 256
    → mul_fast (gf_exp i) (bit_xor b c) ≡ bit_xor (mul_fast (gf_exp i) b) (mul_fast (gf_exp i) c)
mul-exp-bit_xor zero b c hi hb hc = rw exp_zero (
    one-mul (bit_xor b c) (bit_xor-lt-byte b c hb hc)
    ∙ sym (ap₂ bit_xor (one-mul b hb) (one-mul c hc)))
mul-exp-bit_xor (suc i) b c hi hb hc =
    mul-exp-suc i (bit_xor b c) (omega arith) (bit_xor-lt-byte b c hb hc)
    ∙ ap double (mul-exp-bit_xor i b c (omega arith) hb hc)
    ∙ double-bit_xor _ _ (mul-lt (gf_exp i) b (exp-lt i (omega arith)) hb)
        (mul-lt (gf_exp i) c (exp-lt i (omega arith)) hc)
    ∙ sym (ap₂ bit_xor (mul-exp-suc i b (omega arith) hb) (mul-exp-suc i c (omega arith) hc))

-- Multiplication of bytes distributes over `^`.
pub mul-bit_xor :
    (a b c : ℕ)
    → a < 256
    → b < 256
    → c < 256
    → mul_fast a (bit_xor b c) ≡ bit_xor (mul_fast a b) (mul_fast a c)
mul-bit_xor zero b c ha hb hc = zero-mul _ ∙ sym (ap₂ bit_xor (zero-mul b) (zero-mul c))
mul-bit_xor (suc a) b c ha hb hc =
    rw (sym (exp-log (suc a) ha (omega arith)))
      (mul-exp-bit_xor (gf_log (suc a)) b c (log-lt (suc a) ha) hb hc)

-- `gf_inv` gives the inverse of each byte but 0.
pub mul-inv : (a : ℕ) → a < 256 → 0 < a → mul_fast a (inv a) ≡ 1
mul-inv zero h p = absurd (omega arith)
mul-inv (suc a) h p =
    all_below_eq 255 (λ i. mul_fast (suc i) (inv (suc i))) (λ i. 1) a
      (unfold all_below mul_fast inv gf_exp gf_log in refl) (omega arith)

pub inv-lt : (a : ℕ) → a < 256 → inv a < 256
inv-lt a h = all_below_lt 256 inv (λ i. 256) a (unfold all_below inv gf_exp gf_log in refl) h

abbrev quotient_log : ℕ → ℕ → ℕ
quotient_log m n = if leb n m then m - n else m + 255 - n

div_pos : (a b : ℕ) → 0 < a → 0 < b → div a b ≡ gf_exp (quotient_log (gf_log a) (gf_log b))
unfolding div
div_pos a b h k = ground arith

inv_pos : (a : ℕ) → 0 < a → inv a ≡ gf_exp ((255 - gf_log a) % 255)
unfolding inv
inv_pos a h = ground arith

quotient_log_mod : (m n : ℕ) → m < 255 → n < 255 → quotient_log m n ≡ (m + (255 - n) % 255) % 255
quotient_log_mod m n h k = ground arith

-- `gf_div` multiplies by the inverse.
pub div-eq-mul-inv : (a b : ℕ) → a < 256 → b < 256 → 0 < b → div a b ≡ mul_fast a (inv b)
div-eq-mul-inv zero b h k p = unfold div in sym (zero-mul (inv b))
div-eq-mul-inv (suc a) zero h k p = absurd (omega arith)
div-eq-mul-inv (suc a) (suc b) h k p =
    ground (arith, div_pos (suc a) (suc b), exps, log-lt (suc a) h, log-lt (suc b) k)
    ∙ exp-mod _ (omega (arith, log-lt (suc a) h))
    ∙ ap (λ t. gf_exp (gf_log (suc a) + t)) (sym (log-exp _ (omega arith)))
    ∙ ap (λ t. gf_exp (gf_log (suc a) + gf_log t)) (sym (inv_pos (suc b) p))
    ∙ sym (
        mul_pos (suc a) (inv (suc b)) (omega arith)
          (rw (inv_pos (suc b) p) (exp_pos _ (omega arith))))
  where
    exps :
        gf_exp (quotient_log (gf_log (suc a)) (gf_log (suc b)))
        ≡ gf_exp ((gf_log (suc a) + (255 - gf_log (suc b)) % 255) % 255)
    exps = ap gf_exp (quotient_log_mod _ _ (log-lt (suc a) h) (log-lt (suc b) k))

-- A polynomial of degree below 8 times x, modulo x^8 + x^4 + x^3 + x^2 + 1: when the degree becomes
-- 8, that polynomial, whose digits are 0x11d, is taken off.
pub times_x : ℕ → ℕ
times_x a = if ltb (a * 2) 0x100 then a * 2 else bit_xor (a * 2) 0x11d

-- The product by its definition: for each digit of `b` the shifted `a`, reduced as it grows.
-- `n` is the number of digits of `b`.
pub poly_product : ℕ → ℕ → ℕ → ℕ
poly_product zero a b = 0
poly_product (suc n) a b =
    bit_xor (if b % 2 == 0 then 0 else a) (poly_product n (times_x a) (b / 2))

double-eq-times_x : (a : ℕ) → a < 256 → double a ≡ times_x a
double-eq-times_x a h =
    all_below_eq 256 double times_x a (unfold all_below double times_x in refl) h

digits_split : (b : ℕ) → b / 2 < 128 → bit_xor (b % 2) (double (b / 2)) ≡ b
digits_split b h =
    all_below_eq 256 (λ i. bit_xor (i % 2) (double (i / 2))) (λ i. i) b
      (unfold all_below double in refl) (omega arith)

mul_digit : (a b : ℕ) → a < 256 → mul_fast a (b % 2) ≡ (if b % 2 == 0 then 0 else a)
mul_digit a b h = ground (arith, mul-zero a, mul_comm a 1, one-mul a h)

pub two-mul : (b : ℕ) → b < 256 → mul_fast 2 b ≡ double b
two-mul b h =
    ap (λ t. mul_fast t b) (sym exp_one)
    ∙ mul-exp-suc 0 b (omega arith) h
    ∙ ap (λ t. double (mul_fast t b)) exp_zero
    ∙ ap double (one-mul b h)

mul-double : (a b : ℕ) → a < 256 → b < 128 → mul_fast a (double b) ≡ mul_fast (double a) b
mul-double a b h k =
    ap (λ t. mul_fast a t) (sym (two-mul b (omega arith)))
    ∙ sym (mul_assoc a 2 b h (omega arith) (omega arith))
    ∙ ap (λ t. mul_fast t b) (mul_comm a 2 ∙ two-mul a h)

mul-eq-poly_product_width :
    (n a b : ℕ) → n ≤ 8 → a < 256 → b < 2 ^ n → mul_fast a b ≡ poly_product n a b
mul-eq-poly_product_width zero a b hn ha hb =
    ap (λ t. mul_fast a t) zero_digits ∙ mul-zero a ∙ unfold poly_product in refl
  where
    zero_digits : b ≡ 0
    zero_digits = omega arith
mul-eq-poly_product_width (suc n) a b hn ha hb =
    ap (λ t. mul_fast a t) (sym (digits_split b half_small))
    ∙ mul-bit_xor a (b % 2) (double (b / 2)) ha (omega arith)
        (double-lt (b / 2) (omega (arith, half_small)))
    ∙ ap₂ bit_xor (mul_digit a b ha) (
        mul-double a (b / 2) ha half_small
        ∙ mul-eq-poly_product_width n (double a) (b / 2) (omega arith) (double-lt a ha)
            (omega (arith, pow-suc 2 n))
        ∙ ap (λ t. poly_product n t (b / 2)) (double-eq-times_x a ha))
    ∙ unfold poly_product in refl
  where
    half_small : b / 2 < 128
    half_small = omega (arith, pow-le-pow_right {n = 2} (omega arith) {i = suc n} {j = 8} hn)

-- `gf_mul_fast` is the product of two polynomials over the field of two elements, taken modulo
-- x^8 + x^4 + x^3 + x^2 + 1.
pub mul-eq-poly_product : (a b : ℕ) → a < 256 → b < 256 → mul_fast a b ≡ poly_product 8 a b
mul-eq-poly_product a b h k = mul-eq-poly_product_width 8 a b (omega arith) h k

-- Dividing by a byte other than 0 is undone by multiplying with it.
pub mul-div : (a b : ℕ) → a < 256 → b < 256 → 0 < b → mul_fast (div a b) b ≡ a
mul-div a b h k p =
    ap (λ t. mul_fast t b) (div-eq-mul-inv a b h k p)
    ∙ mul_assoc a (inv b) b h (inv-lt b k) k
    ∙ ap (λ t. mul_fast a t) (mul_comm (inv b) b ∙ mul-inv b k p)
    ∙ mul_comm a 1
    ∙ one-mul a h
