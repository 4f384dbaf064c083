-- ===== src/Gf/Lookup.antt =====
-- What the two tables hold, checked entry by entry: they are inverse to each other on the powers
-- of 2, and `gf_exp` goes round after 255.
use dvbt_rx.Base.{ℕ, zero, suc, ◌%◌, ◌<◌, ◌≡◌, ◌==◌, true, refl, arith}
use dvbt_rx.Base.{all_below, all_below_sound, all_below_eq, all_below_lt, bit_xor}
use dvbt_rx.Base.{Bool-cases, inl, inr, ltb, ltb→lt, get_or-out, length}
use dvbt_rx.Gf.{gf_exp, gf_log, double, tables}

pub log-exp : (i : ℕ) → i < 255 → gf_log (gf_exp i) ≡ i
log-exp i h =
    all_below_eq 255 (λ i. gf_log (gf_exp i)) (λ i. i) i (unfold all_below gf_exp gf_log in refl) h

pub exp-log : (a : ℕ) → a < 256 → 0 < a → gf_exp (gf_log a) ≡ a
exp-log zero h p = absurd (omega arith)
exp-log (suc a) h p =
    all_below_eq 255 (λ i. gf_exp (gf_log (suc i))) (λ i. suc i) a
      (unfold all_below gf_exp gf_log in refl) (omega arith)

pub exp-lt : (i : ℕ) → i < 512 → gf_exp i < 256
exp-lt i h = all_below_lt 512 gf_exp (λ i. 256) i (unfold all_below gf_exp in refl) h

pub exp_pos : (i : ℕ) → i < 512 → 0 < gf_exp i
exp_pos i h = all_below_lt 512 (λ i. 0) gf_exp i (unfold all_below gf_exp in refl) h

pub log-lt : (a : ℕ) → a < 256 → gf_log a < 255
log-lt a h = all_below_lt 256 gf_log (λ i. 255) a (unfold all_below gf_log in refl) h

pub exp-mod : (i : ℕ) → i < 512 → gf_exp (i % 255) ≡ gf_exp i
exp-mod i h = all_below_eq 512 (λ i. gf_exp (i % 255)) gf_exp i (unfold all_below gf_exp in refl) h

pub exp-suc : (i : ℕ) → i < 511 → gf_exp (suc i) ≡ double (gf_exp i)
exp-suc i h =
    all_below_eq 511 (λ i. gf_exp (suc i)) (λ i. double (gf_exp i)) i
      (unfold all_below gf_exp double in refl) h

pub double-lt : (a : ℕ) → a < 256 → double a < 256
double-lt a h = all_below_lt 256 double (λ i. 256) a (unfold all_below double in refl) h

row_linear :
    (a : ℕ)
    → a < 256
    → all_below 256 (λ j. double (bit_xor a j) == bit_xor (double a) (double j)) ≡ true
row_linear a h =
    all_below_sound 256
      (λ a. all_below 256 (λ j. double (bit_xor a j) == bit_xor (double a) (double j))) a
      (unfold all_below double in refl) h

-- Doubling is linear over `^`.
pub double-bit_xor :
    (a b : ℕ) → a < 256 → b < 256 → double (bit_xor a b) ≡ bit_xor (double a) (double b)
double-bit_xor a b h k =
    all_below_eq 256 (λ j. double (bit_xor a j)) (λ j. bit_xor (double a) (double j)) b
      (row_linear a h) k

-- A read past the table gives 0.
pub exp-lt_any : (i : ℕ) → gf_exp i < 256
unfolding gf_exp tables
exp-lt_any i = elim (Bool-cases (ltb i 512)) [
  | inl within ↦ exp-lt i (ltb→lt i 512 within)
  | inr past ↦ omega (arith, get_or-out tables.exp i 0 (ground (arith, exp_size)))
]
  where
    exp_size : length tables.exp ≡ 512
    exp_size = refl
