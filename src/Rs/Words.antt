-- ===== src/Rs/Words.antt =====
-- The syndromes of a block are the power sums of its bytes.
use dvbt_rx.Base.{
  ℕ, zero, suc, ◌+◌, ◌%◌, ◌≤◌, ◌<◌, ◌≡◌, ◌≢◌, ◌∙◌, sym, ap, ap₂, refl, arith, List, [], ◌∷◌,
}
use dvbt_rx.Base.{length, All, Bool, true, false, if◌then◌else◌, ◌==◌}
use dvbt_rx.Base.{bit_xor, bit_xor-lt-byte, bit_xor_assoc, zero-bit_xor, bit_xor-zero}
use dvbt_rx.Gf.{mul_fast, gf_exp, gf_log, pow_alpha}
use dvbt_rx.Gf.Lookup.{log-exp, exp-suc, exp-lt}
use dvbt_rx.Gf.Field.{
  mul_comm, mul_assoc, mul-lt, mul-bit_xor, zero-mul, one-mul, two-mul, exp_zero,
}
use dvbt_rx.Rs.{horner, syndrome, syndromes_from, has_syndrome}
use dvbt_rx.Rs.Vandermonde.{pow_fast, pow_fast-lt, Term, power_sum, AreBytes, Distinct}

abbrev pub IsBlock : List ℕ → Type 0
IsBlock = All (λ b. b < 256)

pow_fast-one : (n : ℕ) → pow_fast 1 n ≡ 1
unfolding pow_fast
pow_fast-one zero = refl
pow_fast-one (suc n) = one-mul (pow_fast 1 n) (pow_fast-lt 1 n (omega arith)) ∙ pow_fast-one n

pow_fast-mul :
    (a b n : ℕ)
    → a < 256
    → b < 256
    → pow_fast (mul_fast a b) n ≡ mul_fast (pow_fast a n) (pow_fast b n)
unfolding pow_fast
pow_fast-mul a b zero ha hb = sym (one-mul 1 (omega arith))
pow_fast-mul a b (suc n) ha hb =
    ap (mul_fast (mul_fast a b)) (pow_fast-mul a b n ha hb)
    ∙ mul_exchange a b (pow_fast a n) (pow_fast b n) ha hb (pow_fast-lt a n ha) (pow_fast-lt b n hb)
  where
    mul_exchange :
        (a b c d : ℕ)
        → a < 256
        → b < 256
        → c < 256
        → d < 256
        → mul_fast (mul_fast a b) (mul_fast c d) ≡ mul_fast (mul_fast a c) (mul_fast b d)
    mul_exchange a b c d ha hb hc hd =
        mul_assoc a b (mul_fast c d) ha hb (mul-lt c d hc hd)
        ∙ ap (mul_fast a) (
            sym (mul_assoc b c d hb hc hd)
            ∙ ap (λ t. mul_fast t d) (mul_comm b c)
            ∙ mul_assoc c b d hc hb hd)
        ∙ sym (mul_assoc a c (mul_fast b d) ha hc (mul-lt b d hb hd))

-- Two exponents one after the other can be exchanged.
pow_fast_exchange : (a m n : ℕ) → a < 256 → pow_fast (pow_fast a m) n ≡ pow_fast (pow_fast a n) m
unfolding pow_fast
pow_fast_exchange a zero n ha = pow_fast-one n
pow_fast_exchange a (suc m) n ha =
    pow_fast-mul a (pow_fast a m) n ha (pow_fast-lt a m ha)
    ∙ ap (mul_fast (pow_fast a n)) (pow_fast_exchange a m n ha)

-- The powers of 2 are those of the table, and all different below 255.
pub pow_fast-two : (n : ℕ) → n < 255 → pow_fast 2 n ≡ gf_exp n
unfolding pow_fast
pow_fast-two zero h = sym exp_zero
pow_fast-two (suc n) h =
    ap (mul_fast 2) (pow_fast-two n (omega arith))
    ∙ two-mul (gf_exp n) (exp-lt n (omega arith))
    ∙ sym (exp-suc n (omega arith))

pow_fast-two_ne : (m n : ℕ) → m < n → n < 255 → pow_fast 2 m ≢ pow_fast 2 n
pow_fast-two_ne m n lt h e = omega (
  arith,
  log-exp m (omega arith),
  log-exp n h,
  ap gf_log (sym (pow_fast-two m (omega arith)) ∙ e ∙ pow_fast-two n h),
)

-- Each byte with the power of 2 of its distance from the end.
unfoldable pub terms : List ℕ → List Term
terms [] = []
terms (b ∷ bs) = (b, pow_fast 2 (length bs)) ∷ terms bs

pub terms-AreBytes : (bs : List ℕ) → IsBlock bs → AreBytes (terms bs)
unfolding terms
terms-AreBytes [] h = tt
terms-AreBytes (b ∷ bs) (hb, h) =
    ((hb, pow_fast-lt 2 (length bs) (omega arith)), terms-AreBytes bs h)

terms-All :
    (bs : List ℕ) (n : ℕ) → length bs ≤ n → n < 255 → All (λ (d, y). y ≢ pow_fast 2 n) (terms bs)
unfolding terms
terms-All [] n le h = tt
terms-All (b ∷ bs) n le h =
    (pow_fast-two_ne (length bs) n (omega arith) h, terms-All bs n (omega arith) h)

pub terms-Distinct : (bs : List ℕ) → length bs ≤ 255 → Distinct (terms bs)
unfolding terms
terms-Distinct [] h = tt
terms-Distinct (b ∷ bs) h =
    (terms-All bs (length bs) (omega arith) (omega arith), terms-Distinct bs (omega arith))

-- Horner's rule sums the bytes times the powers of the point.
horner-power_sum :
    (r y : ℕ) (bs : List ℕ)
    → y < 256
    → IsBlock bs
    → horner (pow_fast 2 r) y bs
      ≡ bit_xor (mul_fast y (pow_fast (pow_fast 2 r) (length bs))) (power_sum r (terms bs))
unfolding horner power_sum terms pow_fast
horner-power_sum r y [] hy h = sym (bit_xor-zero _ ∙ mul_comm y 1 ∙ one-mul y hy)
horner-power_sum r y (b ∷ bs) hy (hb, h) =
    horner-power_sum r (bit_xor (mul_fast y x) b) bs (bit_xor-lt-byte _ b (mul-lt y x hy hx) hb) h
    ∙ ap (λ t. bit_xor t (power_sum r (terms bs)))
        (mul_comm _ p
          ∙ mul-bit_xor p (mul_fast y x) b hp (mul-lt y x hy hx) hb
          ∙ ap₂ bit_xor (mul_comm p _ ∙ mul_assoc y x p hy hx hp)
              (mul_comm p b ∙ ap (mul_fast b) (pow_fast_exchange 2 r (length bs) (omega arith))))
    ∙ bit_xor_assoc _ _ _
  where
    x : ℕ
    x = pow_fast 2 r

    hx : x < 256
    hx = pow_fast-lt 2 r (omega arith)

    p : ℕ
    p = pow_fast x (length bs)

    hp : p < 256
    hp = pow_fast-lt x (length bs) hx

pow_alpha-pow_fast : (r : ℕ) → r < 255 → pow_alpha r ≡ pow_fast 2 r
unfolding pow_alpha
pow_alpha-pow_fast r h = ap gf_exp small ∙ sym (pow_fast-two r h)
  where
    small : r % 255 ≡ r
    small = omega arith

pub syndrome-power_sum :
    (bs : List ℕ) (r : ℕ) → IsBlock bs → r < 255 → syndrome bs r ≡ power_sum r (terms bs)
unfolding syndrome
syndrome-power_sum bs r h lt =
    ap (λ x. horner x 0 bs) (pow_alpha-pow_fast r lt)
    ∙ horner-power_sum r 0 bs (omega arith) h
    ∙ ap (λ t. bit_xor t (power_sum r (terms bs))) (zero-mul _)
    ∙ zero-bit_xor _

clean_step : (s : ℕ) (b : Bool) → (if s == 0 then b else true) ≡ false → (s ≡ 0) × (b ≡ false)
clean_step s b e = ground arith

-- Without a syndrome each of the sums is 0.
pub has_syndrome-false :
    (bs : List ℕ) (n r j : ℕ)
    → has_syndrome (syndromes_from bs n r) ≡ false
    → j < n
    → syndrome bs (r + j) ≡ 0
unfolding has_syndrome syndromes_from
has_syndrome-false bs zero r j none lt = absurd (omega arith)
has_syndrome-false bs (suc n) r zero none lt =
    ap (syndrome bs) at_r ∙ (clean_step (syndrome bs r) _ none).0
  where
    at_r : r + 0 ≡ r
    at_r = omega arith
has_syndrome-false bs (suc n) r (suc j) none lt =
    ap (syndrome bs) shift
    ∙ has_syndrome-false bs n (r + 1) j (clean_step (syndrome bs r) _ none).1 (omega arith)
  where
    shift : r + suc j ≡ r + 1 + j
    shift = omega arith
