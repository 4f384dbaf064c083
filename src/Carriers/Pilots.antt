-- ===== src/Carriers/Pilots.antt =====
-- The pilots that the probe of src/probe_constellation.c looks for, by carriers counted from the
-- middle of the symbol: `is_scattered_pilot_logical`, `is_continual_pilot_2k_abs`,
-- `is_continual_pilot_logical`, `dvbt_prbs_w_for_abs_carrier`,
-- `dvbt_prbs_w_for_abs_carrier_shifted` and `dvbt_pilot_ref_sign_logical_shifted`.
-- An `int` is an integer that does not overflow. The table of the pilot sequence is filled once, so it
-- is a constant.
pub mod Agree
use dvbt_rx.Base.{
  ℕ, zero, suc, ◌+◌, ◌-◌, ◌*◌, ◌/◌, ◌%◌, ◌^◌, bit_and, bit_or, bit_xor, Bool, true, false, not,
  if◌then◌else◌, ltb, ◌==◌, List, [], ◌∷◌, get_or,
}
use dvbt_rx.Carriers.{list_contains}

infixl 6 ◌+ℤ◌
-- `negsuc n` is -1 - n.
pub data ℤ : Type 0 where
  pos : ℕ → ℤ
  negsuc : ℕ → ℤ

abbrev pub difference : ℕ → ℕ → ℤ
difference a b = if ltb a b then ℤ.negsuc (b - a - 1) else ℤ.pos (a - b)

abbrev pub ◌+ℤ◌ : ℤ → ℤ → ℤ
ℤ.pos a +ℤ ℤ.pos b = ℤ.pos (a + b)
ℤ.pos a +ℤ ℤ.negsuc b = difference a (b + 1)
ℤ.negsuc a +ℤ ℤ.pos b = difference b (a + 1)
ℤ.negsuc a +ℤ ℤ.negsuc b = ℤ.negsuc (a + b + 1)

-- `%` of C, which has the sign of the left side.
abbrev pub remainder : ℤ → ℕ → ℤ
remainder (ℤ.pos a) b = ℤ.pos (a % b)
remainder (ℤ.negsuc a) b = difference 0 ((a + 1) % b)

-- The carrier `k` of the symbol, counted from the middle.
abbrev pub logical : ℕ → ℤ
logical k = difference k 852

-- `rel`, less the phase, is a multiple of 12.
is_at_phase : ℤ → Bool
is_at_phase (ℤ.pos rel) = rel % 12 == 0
is_at_phase (ℤ.negsuc _) = false

scattered_from : ℤ → ℕ → Bool
scattered_from (ℤ.negsuc _) phase = false
scattered_from (ℤ.pos rel) phase =
    if ltb 1704 rel then false else is_at_phase (difference rel phase)

pub is_scattered_pilot_logical : ℤ → ℕ → Bool
unfolding scattered_from is_at_phase
is_scattered_pilot_logical logical_carrier symbol_mod4 =
    scattered_from (logical_carrier +ℤ ℤ.pos 852) (3 * symbol_mod4)

abbrev pub pilots : List ℕ
pilots =
    0 ∷ 48 ∷ 54 ∷ 87 ∷ 141 ∷ 156 ∷ 192 ∷ 201 ∷ 255 ∷ 279 ∷ 282 ∷ 333 ∷ 432 ∷ 450 ∷ 483 ∷ 525 ∷ 531
    ∷ 618 ∷ 636 ∷ 714 ∷ 759 ∷ 765 ∷ 780 ∷ 804 ∷ 873 ∷ 888 ∷ 918 ∷ 939 ∷ 942 ∷ 969 ∷ 984 ∷ 1050
    ∷ 1101 ∷ 1107 ∷ 1110 ∷ 1137 ∷ 1140 ∷ 1146 ∷ 1206 ∷ 1269 ∷ 1323 ∷ 1377 ∷ 1491 ∷ 1683 ∷ 1704 ∷ []

pub is_continual_pilot_2k_abs : ℤ → Bool
is_continual_pilot_2k_abs (ℤ.pos abs_k) = list_contains pilots abs_k
is_continual_pilot_2k_abs (ℤ.negsuc _) = false

pub is_continual_pilot_logical : ℤ → Bool
is_continual_pilot_logical logical_carrier =
    is_continual_pilot_2k_abs (logical_carrier +ℤ ℤ.pos 852)

-- The loop that fills the table, with `n` rounds left.
sequence_from : ℕ → ℕ → List ℕ
sequence_from zero reg = []
sequence_from (suc n) reg =
    let new_bit = bit_and (bit_xor reg (reg / 4)) 1 in
    bit_and reg 1 ∷ sequence_from n (bit_or (reg / 2) (new_bit * 2 ^ 10) % 2 ^ 16)

pub sequence : List ℕ
unfolding sequence_from
sequence = sequence_from 2047 0x7ff

pub prbs_w : ℤ → ℕ
prbs_w (ℤ.negsuc _) = 0
prbs_w (ℤ.pos abs_k) = get_or sequence (abs_k % 2047) 0

wrapped_index : ℤ → ℤ
wrapped_index (ℤ.pos idx) = ℤ.pos idx
wrapped_index (ℤ.negsuc n) = ℤ.negsuc n +ℤ ℤ.pos 2047

pub prbs_w_shifted : ℤ → ℤ → ℕ
unfolding wrapped_index
prbs_w_shifted abs_k shift = prbs_w (wrapped_index (remainder (abs_k +ℤ shift) 2047))

-- `true` is the sign -1.
pub ref_sign : ℤ → ℤ → Bool
ref_sign logical_carrier shift = not (prbs_w_shifted (logical_carrier +ℤ ℤ.pos 852) shift == 0)
