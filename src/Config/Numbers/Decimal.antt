-- ===== src/Config/Numbers/Decimal.antt =====
-- The decimal digits of a number are read as that number.
use dvbt_rx.Base.{
  ℕ, zero, suc, ◌+◌, ◌-◌, ◌*◌, ◌/◌, ◌%◌, ◌^◌, ◌<◌, ◌≡◌, ◌∙◌, refl, sym, ap, arith, Bool, true,
  false, not, ◌||◌,
}
use dvbt_rx.Base.{[], ◌∷◌, some, none, if◌then◌else◌, ltb, ltb→lt, leb, Bool-cases, inl, inr}
use native.Mathlib.Nat.{pow-suc}
use dvbt_rx.Config.{Text}
use dvbt_rx.Config.Numbers.{
  digits_from, take_sign, skip_spaces, at_end, is_digit, is_space, parse_u64, parse_u32,
}

-- The digits of `n` before `rest`, with at most `fuel` of them.
decimal_before : ℕ → ℕ → Text → Text
decimal_before zero n rest = rest
decimal_before (suc fuel) n rest =
    let more = decimal_before fuel (n / 10) ((b'0' + n % 10) ∷ rest) in
    if ltb n 10 then (b'0' + n) ∷ rest else more

pub decimal : ℕ → Text
decimal n = decimal_before 20 n []

digits_from-digit :
    (value d : ℕ) (seen : Bool) (rest : Text)
    → d < 10
    → digits_from value seen ((b'0' + d) ∷ rest) ≡ digits_from (value * 10 + d) true rest
unfolding digits_from is_digit
digits_from-digit value d seen rest h = ground (arith, ap (λ t. digits_from t true rest) same)
  where
    same : value * 10 + (b'0' + d - b'0') ≡ value * 10 + d
    same = omega arith

-- A number of more than one digit.
split_digit : (n : ℕ) → n / 10 * 10 + n % 10 ≡ n
split_digit n = omega arith

digits_from-decimal_before :
    (fuel n : ℕ) (seen : Bool) (rest : Text)
    → n < 10 ^ suc fuel
    → digits_from 0 seen (decimal_before (suc fuel) n rest) ≡ digits_from n true rest
unfolding decimal_before
digits_from-decimal_before zero n seen rest h =
    rw one_digit (digits_from-digit 0 n seen rest h ∙ ap (λ t. digits_from t true rest) zero_times)
  where
    one_digit : ltb n 10 ≡ true
    one_digit = ground (arith, h)

    zero_times : 0 * 10 + n ≡ n
    zero_times = omega arith
digits_from-decimal_before (suc fuel) n seen rest h = elim (Bool-cases (ltb n 10)) [
  | inl last ↦ rw last (
      digits_from-digit 0 n seen rest (ltb→lt n 10 last)
      ∙ ap (λ t. digits_from t true rest) zero_times)
  | inr more ↦ rw more (
      digits_from-decimal_before fuel (n / 10) seen ((b'0' + n % 10) ∷ rest) smaller
      ∙ digits_from-digit (n / 10) (n % 10) true rest (omega arith)
      ∙ ap (λ t. digits_from t true rest) (split_digit n))
]
  where
    zero_times : 0 * 10 + n ≡ n
    zero_times = omega arith

    smaller : n / 10 < 10 ^ suc fuel
    smaller = omega (arith, pow-suc 10 (suc fuel), h)

digit_is_digit : (d : ℕ) → d < 10 → is_digit (b'0' + d) ≡ true
unfolding is_digit
digit_is_digit d h = ground arith

abbrev BeginsWithDigit : Text → Type 0
BeginsWithDigit text = (c : ℕ) × (cs : Text) × (text ≡ c ∷ cs) × (is_digit c ≡ true)

decimal_before-BeginsWithDigit :
    (fuel n d : ℕ) (rest : Text)
    → is_digit d ≡ true
    → BeginsWithDigit (decimal_before fuel n (d ∷ rest))
unfolding decimal_before
decimal_before-BeginsWithDigit zero n d rest h = (d, rest, refl, h)
decimal_before-BeginsWithDigit (suc fuel) n d rest h = elim (Bool-cases (ltb n 10)) [
  | inl last ↦ rw last (b'0' + n, d ∷ rest, refl, digit_is_digit n (ltb→lt n 10 last))
  | inr more ↦ rw more (
      decimal_before-BeginsWithDigit fuel (n / 10) (b'0' + n % 10) (d ∷ rest)
        (digit_is_digit (n % 10) (omega arith)))
]

decimal-BeginsWithDigit : (n : ℕ) → BeginsWithDigit (decimal n)
unfolding decimal decimal_before
decimal-BeginsWithDigit n = elim (Bool-cases (ltb n 10)) [
  | inl last ↦ rw last (b'0' + n, [], refl, digit_is_digit n (ltb→lt n 10 last))
  | inr more ↦ rw more (
      decimal_before-BeginsWithDigit 19 (n / 10) (b'0' + n % 10) []
        (digit_is_digit (n % 10) (omega arith)))
]

-- Neither white space nor a sign stands before a digit.
no_space : (c : ℕ) (cs : Text) → is_digit c ≡ true → skip_spaces (c ∷ cs) ≡ c ∷ cs
unfolding skip_spaces is_digit is_space
no_space c cs digit = ground arith

no_sign : (c : ℕ) (cs : Text) → is_digit c ≡ true → take_sign (c ∷ cs) ≡ (false, c ∷ cs)
unfolding take_sign is_digit
no_sign c cs digit = ground arith

-- The value of the digits that are read, whatever the steps before.
converted :
    (spaces : Text) (sign : Bool × Text) (read : ℕ × Bool × Text) (text : Text) {value : ℕ}
    → spaces ≡ text
    → sign ≡ (false, text)
    → read ≡ (value, true, [])
    → value < 2 ^ 64
    → (if leb (2 ^ 64) read.0 || not read.1 || not (at_end read.2)
        then none
        else some (if sign.0 then (2 ^ 64 - read.0) % 2 ^ 64 else read.0))
      ≡ some value
unfolding at_end
converted spaces sign read text e₁ e₂ e₃ h = ground arith

parse_u64-digits :
    (c : ℕ) (cs : Text) {value : ℕ}
    → is_digit c ≡ true
    → digits_from 0 false (c ∷ cs) ≡ (value, true, [])
    → value < 2 ^ 64
    → parse_u64 (c ∷ cs) ≡ some value
unfolding parse_u64
parse_u64-digits c cs digit e h =
    converted (skip_spaces text) (take_sign (skip_spaces text))
      (digits_from 0 false (take_sign (skip_spaces text)).1) text (no_space c cs digit) sign
      (ap (λ s. digits_from 0 false s.1) sign ∙ e) h
  where
    text : Text
    text = c ∷ cs

    sign : take_sign (skip_spaces text) ≡ (false, text)
    sign = ap take_sign (no_space c cs digit) ∙ no_sign c cs digit

read_all : (n : ℕ) → n < 2 ^ 64 → digits_from 0 false (decimal n) ≡ (n, true, [])
unfolding decimal digits_from
read_all n h = digits_from-decimal_before 19 n false [] (omega (arith, h))

parse_u64-decimal : (n : ℕ) → n < 2 ^ 64 → parse_u64 (decimal n) ≡ some n
parse_u64-decimal n h =
    let (c, cs, begins, digit) = decimal-BeginsWithDigit n in
    ap parse_u64 begins
    ∙ parse_u64-digits c cs digit (ap (digits_from 0 false) (sym begins) ∙ read_all n h) h

-- parse_u64 reads the decimal digits of each number of 64 bits as that number, and parse_u32 those of
-- each number of 32 bits, while it refuses those of a larger one.
pub parse_u32-decimal :
    (n : ℕ)
    → n < 2 ^ 64
    → (parse_u64 (decimal n) ≡ some n)
      × (parse_u32 (decimal n) ≡ (if leb (2 ^ 32) n then none else some n))
unfolding parse_u32
parse_u32-decimal n h = (parse_u64-decimal n h, rw (parse_u64-decimal n h) refl)
