-- ===== src/Config/Numbers.antt =====
-- `parse_u32` and `parse_u64` of src/config.c. `strtoul` and `strtoull` are those of the C standard
-- at base 10: white space, a sign, digits; a value of more than 64 bits sets `errno`, and a `-`
-- negates modulo 2^64. An `unsigned long` has 64 bits. `none` is the -1.
pub mod Decimal
mod Tests
use dvbt_rx.Base.{ℕ, ◌+◌, ◌-◌, ◌*◌, ◌%◌, ◌^◌, Bool, true, false, not, ◌||◌, ◌&&◌, List, [], ◌∷◌}
use dvbt_rx.Base.{
  ◌<◌, ◌≡◌, arith, inl, inr, Option-cases, Option, none, some, ◌>>=◌, if◌then◌else◌, ◌==◌, leb,
}
use mathlib.Core.Option.{none-ne-some}
use dvbt_rx.Config.{Text}

pub is_space : ℕ → Bool
is_space c = c == 32 || (leb 9 c && leb c 13)

pub is_digit : ℕ → Bool
is_digit c = leb b'0' c && leb c b'9'

pub skip_spaces : Text → Text
skip_spaces [] = []
skip_spaces (c ∷ cs) = if is_space c then skip_spaces cs else c ∷ cs

-- Whether there is a `-`, and what follows the sign.
pub take_sign : Text → Bool × Text
take_sign [] = (false, [])
take_sign (c ∷ cs) =
    if c == b'-' then (true, cs) else if c == b'+' then (false, cs) else (false, c ∷ cs)

-- The value so far, whether there has been a digit, and the end.
pub digits_from : ℕ → Bool → Text → ℕ × Bool × Text
digits_from value seen [] = (value, seen, [])
digits_from value seen (c ∷ cs) =
    let rest = digits_from (value * 10 + (c - b'0')) true cs in
    if is_digit c then rest else (value, seen, c ∷ cs)

pub at_end : Text → Bool
at_end [] = true
at_end (c ∷ cs) = false

unfoldable pub parse_u64 : Text → Option ℕ
unfolding digits_from take_sign skip_spaces at_end is_digit is_space
parse_u64 text =
    let (negative, unsigned) = take_sign (skip_spaces text) in
    let (value, seen, end) = digits_from 0 false unsigned in
    if leb (2 ^ 64) value || not seen || not (at_end end)
    then none
    else some (if negative then (2 ^ 64 - value) % 2 ^ 64 else value)

unfoldable pub parse_u32 : Text → Option ℕ
parse_u32 text = parse_u64 text >>= λ value. if leb (2 ^ 32) value then none else some value

pub parse_u64-lt : (text : Text) {n : ℕ} → parse_u64 text ≡ some n → n < 2 ^ 64
unfolding parse_u64
parse_u64-lt text {n} e =
    bounded (take_sign (skip_spaces text)).0 (digits_from 0 false (take_sign (skip_spaces text)).1)
      e
  where
    bounded :
        (negative : Bool) (digits : ℕ × Bool × Text)
        → (if leb (2 ^ 64) digits.0 || not digits.1 || not (at_end digits.2)
            then none
            else some (if negative then (2 ^ 64 - digits.0) % 2 ^ 64 else digits.0))
          ≡ some n
        → n < 2 ^ 64
    bounded negative (value, seen, end) e = ground arith

pub parse_u32-lt : (text : Text) {n : ℕ} → parse_u32 text ≡ some n → n < 2 ^ 32
unfolding parse_u32
parse_u32-lt text {n} e = elim (Option-cases (parse_u64 text)) [
  | inl none_read ↦ absurd (none-ne-some n (rw none_read at e))
  | inr (value, is_read) ↦ ground arith
]
