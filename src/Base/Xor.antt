-- ===== src/Base/Xor.antt =====
-- The laws of `^` on words of any width, and checks of a small range by evaluation.
use Prim.Native.Nat.{
  ℕ, zero, suc, ◌+◌, ◌*◌, ◌/◌, ◌%◌, ◌^◌, ◌≤◌, ◌<◌, bit_xor, digits, differ, bit_xor-bitwise,
}
use mathlib.Core.Path.{◌≡◌, refl, sym, ap, ap₂, ◌∙◌}
use mathlib.Core.Bool.{Bool, true, false}
use native.Mathlib.Omega.{arith}
use dvbt_rx.Base.Tests.{if◌then◌else◌, Bool-cases, ltb, ltb→lt}
use mathlib.Core.Logic.{inl, inr}
use native.Mathlib.Nat.{pow-suc}

unfoldable pub all_below : ℕ → (ℕ → Bool) → Bool
all_below zero test = true
all_below (suc i) test = if test i then all_below i test else false

-- What holds of every number below a bound by evaluation holds of each.
pub all_below_sound :
    (bound : ℕ) (test : ℕ → Bool) (x : ℕ) → all_below bound test ≡ true → x < bound → test x ≡ true
unfolding all_below
all_below_sound zero test x e below = absurd (omega arith)
all_below_sound (suc i) test x e below = ground (arith, all_below_sound i test x)

-- The parity of every digit's sum, as the native operation is defined.
abbrev parity_digits : ℕ → ℕ → ℕ → ℕ
parity_digits = digits (λ y. y) differ

-- A round past the number itself changes nothing.
parity_digits-suc :
    (b a rounds : ℕ) → a ≤ rounds → parity_digits (suc rounds) a b ≡ parity_digits rounds a b
parity_digits-suc b zero zero le = refl
parity_digits-suc b zero (suc rounds) le = refl
parity_digits-suc b (suc a) zero le = absurd (omega arith)
parity_digits-suc b (suc a) (suc rounds) le =
    ap (λ t. t * 2 + differ (suc a % 2) (b % 2))
      (parity_digits-suc (b / 2) (suc a / 2) rounds (omega arith))

parity_digits_enough :
    (b a rounds : ℕ) → a ≤ rounds → parity_digits rounds a b ≡ parity_digits a a b
parity_digits_enough b zero zero le = refl
parity_digits_enough b zero (suc rounds) le = refl
parity_digits_enough b (suc a) zero le = absurd (omega arith)
parity_digits_enough b (suc a) (suc rounds) le = elim (Bool-cases (ltb rounds (suc a))) [
  | inl last ↦ ap (λ r. parity_digits (suc r) (suc a) b) (omega (arith, ltb→lt rounds (suc a) last))
  | inr more ↦
      parity_digits-suc b (suc a) rounds (ground arith)
      ∙ parity_digits_enough b (suc a) rounds (ground arith)
]

pub zero-bit_xor : (b : ℕ) → bit_xor 0 b ≡ b
zero-bit_xor b = bit_xor-bitwise 0 b

differ_bits : (x y : ℕ) → x < 2 → y < 2 → differ x y ≡ (x + y) % 2
differ_bits zero y p q = omega arith
differ_bits (suc x) zero p q = omega arith
differ_bits (suc zero) (suc zero) p q = refl
differ_bits (suc zero) (suc (suc y)) p q = absurd (omega arith)
differ_bits (suc (suc x)) (suc y) p q = absurd (omega arith)

differ_sum : (a b : ℕ) → differ (a % 2) (b % 2) ≡ (a + b) % 2
differ_sum a b = omega (arith, differ_bits (a % 2) (b % 2) (omega arith) (omega arith))

-- The lowest digit of the result is the parity of the sum.
pub bit_xor_step : (a b : ℕ) → bit_xor a b ≡ bit_xor (a / 2) (b / 2) * 2 + (a + b) % 2
bit_xor_step zero b = omega (arith, zero-bit_xor b, zero-bit_xor (b / 2))
bit_xor_step (suc a) b = omega (
  arith,
  bit_xor-bitwise (suc a) b,
  bit_xor-bitwise (suc a / 2) (b / 2),
  differ_sum (suc a) b,
  half_rounds,
)
  where
    half_rounds :
        parity_digits a (suc a / 2) (b / 2) ≡ parity_digits (suc a / 2) (suc a / 2) (b / 2)
    half_rounds = parity_digits_enough (b / 2) (suc a / 2) a (omega arith)

comm_fuel : (n a b : ℕ) → a ≤ n → b ≤ n → bit_xor a b ≡ bit_xor b a
comm_fuel zero zero zero p q = refl
comm_fuel zero (suc a) b p q = absurd (omega arith)
comm_fuel zero zero (suc b) p q = absurd (omega arith)
comm_fuel (suc n) a b p q = omega (
  arith,
  bit_xor_step a b,
  bit_xor_step b a,
  comm_fuel n (a / 2) (b / 2) (omega arith) (omega arith),
)

pub bit_xor_comm : (a b : ℕ) → bit_xor a b ≡ bit_xor b a
bit_xor_comm a b = comm_fuel (a + b) a b (omega arith) (omega arith)

pub bit_xor-zero : (a : ℕ) → bit_xor a 0 ≡ a
bit_xor-zero a = bit_xor_comm a 0 ∙ zero-bit_xor a

self_fuel : (n a : ℕ) → a ≤ n → bit_xor a a ≡ 0
self_fuel zero zero p = refl
self_fuel zero (suc a) p = absurd (omega arith)
self_fuel (suc n) a p = omega (arith, bit_xor_step a a, self_fuel n (a / 2) (omega arith))

pub bit_xor_self : (a : ℕ) → bit_xor a a ≡ 0
bit_xor_self a = self_fuel a a (omega arith)

assoc_fuel :
    (n a b c : ℕ) → a ≤ n → b ≤ n → c ≤ n → bit_xor (bit_xor a b) c ≡ bit_xor a (bit_xor b c)
assoc_fuel zero zero zero zero p q r = refl
assoc_fuel zero (suc a) b c p q r = absurd (omega arith)
assoc_fuel zero zero (suc b) c p q r = absurd (omega arith)
assoc_fuel zero zero zero (suc c) p q r = absurd (omega arith)
assoc_fuel (suc n) a b c p q r =
    bit_xor_step (bit_xor a b) c
    ∙ ap₂ (λ x y. x * 2 + y)
        (ap (λ x. bit_xor x (c / 2)) (xor_half a b)
          ∙ assoc_fuel n (a / 2) (b / 2) (c / 2) (omega arith) (omega arith) (omega arith)
          ∙ ap (λ x. bit_xor (a / 2) x) (sym (xor_half b c)))
        (omega (arith, bit_xor_step a b, bit_xor_step b c))
    ∙ sym (bit_xor_step a (bit_xor b c))
  where
    xor_half : (a b : ℕ) → bit_xor a b / 2 ≡ bit_xor (a / 2) (b / 2)
    xor_half a b = omega (arith, bit_xor_step a b)

pub bit_xor_assoc : (a b c : ℕ) → bit_xor (bit_xor a b) c ≡ bit_xor a (bit_xor b c)
bit_xor_assoc a b c = assoc_fuel (a + b + c) a b c (omega arith) (omega arith) (omega arith)

-- Applying the same word twice gives the first back.
pub bit_xor_cancel : (a b : ℕ) → bit_xor (bit_xor a b) b ≡ a
bit_xor_cancel a b = bit_xor_assoc a b b ∙ ap (λ x. bit_xor a x) (bit_xor_self b) ∙ bit_xor-zero a

pub bit_xor-lt-pow : (k a b : ℕ) → a < 2 ^ k → b < 2 ^ k → bit_xor a b < 2 ^ k
bit_xor-lt-pow zero zero zero p q = omega arith
bit_xor-lt-pow zero (suc a) b p q = absurd (omega arith)
bit_xor-lt-pow zero zero (suc b) p q = absurd (omega arith)
bit_xor-lt-pow (suc k) a b p q = omega (
  arith,
  bit_xor_step a b,
  pow-suc 2 k,
  bit_xor-lt-pow k (a / 2) (b / 2) (omega (arith, pow-suc 2 k)) (omega (arith, pow-suc 2 k)),
)

pub bit_xor-lt-byte : (a b : ℕ) → a < 256 → b < 256 → bit_xor a b < 256
bit_xor-lt-byte a b p q = bit_xor-lt-pow 8 a b p q

pub eq_of_bit_xor : (a b : ℕ) → bit_xor a b ≡ 0 → a ≡ b
eq_of_bit_xor a b h = sym (bit_xor_cancel a b) ∙ ap (λ x. bit_xor x b) h ∙ zero-bit_xor b
