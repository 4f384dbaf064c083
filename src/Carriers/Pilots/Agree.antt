-- ===== src/Carriers/Pilots/Agree.antt =====
-- The pilots that the probe of src/probe_constellation.c looks for are those of src/dvbt_2k_model.c.
use dvbt_rx.Base.{
  ℕ, ◌+◌, ◌-◌, ◌*◌, ◌%◌, ◌<◌, ◌≡◌, refl, sym, ap, ◌∙◌, arith, Bool, true, false, ◌||◌, not,
  if◌then◌else◌, ltb, ◌==◌, get_or, length, take, drop, take-append-drop, get_or-append_left, some,
  all_below, all_below_sound, Bool-cases, inl, inr,
}
use dvbt_rx.Carriers.{
  Role, carrier_role, is_scattered_pilot, is_continual_pilot, is_tps_carrier, list_contains, prbs,
  prbs_from, prbs_bit, pilot_sign,
}
use dvbt_rx.Carriers.Roles.{role-mod}
use dvbt_rx.Carriers.Pilots.{
  ℤ, ◌+ℤ◌, logical, scattered_from, is_at_phase, is_scattered_pilot_logical,
  is_continual_pilot_2k_abs, is_continual_pilot_logical, sequence_from, sequence, prbs_w,
  wrapped_index, prbs_w_shifted, ref_sign,
}

abbrev pub is_pilot : Role → Bool
is_pilot Role.continual_pilot = true
is_pilot Role.scattered_pilot = true
is_pilot _ = false

-- A carrier counted from the middle and from the first is the same.
logical_lem : (k : ℕ) → logical k +ℤ ℤ.pos 852 ≡ ℤ.pos k
logical_lem k = elim (Bool-cases (ltb k 852)) [
  | inl low ↦ rw low (rw (high low) (ap ℤ.pos (ground arith)))
  | inr high ↦ rw high (ap ℤ.pos (ground arith))
]
  where
    high : ltb k 852 ≡ true → ltb 852 (852 - k - 1 + 1) ≡ false
    high low = ground arith

first_bits : take 1705 sequence ≡ prbs
unfolding sequence sequence_from prbs prbs_from
first_bits = refl

-- Whether two Booleans are the same.
abbrev same : Bool → Bool → Bool
same a b = if a then b else not b

same_sound : (a b : Bool) → same a b ≡ true → a ≡ b
same_sound true true e = refl
same_sound false false e = refl
same_sound true false e = sym e
same_sound false true e = e

abbrev agrees : ℕ → ℕ → Bool
agrees m k =
    same (scattered_from (ℤ.pos k) (3 * m) || is_continual_pilot_2k_abs (ℤ.pos k))
      (is_pilot (carrier_role m k))

all_agree : all_below 4 (λ m. all_below 1705 (agrees m)) ≡ true
unfolding all_below scattered_from is_at_phase is_continual_pilot_2k_abs carrier_role is_tps_carrier
    is_scattered_pilot is_continual_pilot list_contains
all_agree = refl

same_pilots :
    (m k : ℕ)
    → m < 4
    → k < 1705
    → (scattered_from (ℤ.pos k) (3 * m) || is_continual_pilot_2k_abs (ℤ.pos k))
      ≡ is_pilot (carrier_role m k)
same_pilots m k h h' = same_sound _ _ (
    all_below_sound 1705 (agrees m) k
      (all_below_sound 4 (λ m. all_below 1705 (agrees m)) m all_agree h) h')

length-prbs : length prbs ≡ 1705
unfolding prbs prbs_from
length-prbs = refl

same_bit : (k : ℕ) → k < 1705 → prbs_w_shifted (ℤ.pos k) (ℤ.pos 0) ≡ get_or prbs k 0
unfolding prbs_w_shifted wrapped_index prbs_w
same_bit k h =
    ap (λ i. get_or sequence i 0) (omega arith)
    ∙ sym (ap (λ l. get_or l k 0) (take-append-drop 1705 sequence))
    ∙ get_or-append_left (take 1705 sequence) (drop 1705 sequence) k 0
        (omega (arith, ap length first_bits, length-prbs))
    ∙ ap (λ l. get_or l k 0) first_bits

pilot_sign_lem : (k : ℕ) → k < 1705 → pilot_sign k ≡ some (not (get_or prbs k 0 == 0))
unfolding pilot_sign prbs_bit
pilot_sign_lem k h = ground arith

-- On each of the 1705 carriers of a symbol is_scattered_pilot_logical or
-- is_continual_pilot_logical finds a pilot just when the role of that carrier is scattered or
-- continual pilot, and dvbt_pilot_ref_sign_logical_shifted without a shift has the sign of
-- rbdvbt_dvbt_2k_pilot_sign.
pub pilots_agree :
    (n k : ℕ)
    → k < 1705
    → ((is_scattered_pilot_logical (logical k) (n % 4) || is_continual_pilot_logical (logical k))
        ≡ is_pilot (carrier_role n k))
      × (some (ref_sign (logical k) (ℤ.pos 0)) ≡ pilot_sign k)
unfolding is_scattered_pilot_logical is_continual_pilot_logical ref_sign
pilots_agree n k h = rw (logical_lem k) (
  same_pilots (n % 4) k (omega arith) h ∙ ap is_pilot (role-mod n k),
  ap (λ b. some (not (b == 0))) (same_bit k h) ∙ sym (pilot_sign_lem k h),
)
