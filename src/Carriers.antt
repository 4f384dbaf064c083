-- ===== src/Carriers.antt =====
-- src/dvbt_2k_model.c: the roles of the 1705 active carriers of a 2K symbol, the data carriers,
-- the pilot sequence, and the symbol interleaver and deinterleaver.
-- The tables are filled once by `rbdvbt_dvbt_2k_model_init`, so they are constants. `none` is the
-- -1 of an index out of range, and the pointers to write to are not NULL.
pub mod Roles
pub mod Permutation
pub mod Pilots
mod Tests
use dvbt_rx.Base.{ℕ, zero, suc, ◌+◌, ◌-◌, ◌*◌, ◌/◌, ◌%◌, ◌^◌, bit_and, bit_or, bit_xor}
use dvbt_rx.Base.{Bool, true, false, ◌||◌, ◌&&◌, not, List, [], ◌∷◌, ◌++◌, Option, none, some}
use dvbt_rx.Base.{if◌then◌else◌, ◌==◌, ltb, leb, get_or, set, replicate}

abbrev pub fft_size : ℕ
fft_size = 2048

abbrev pub active_carriers : ℕ
active_carriers = 1705

abbrev pub data_cells : ℕ
data_cells = 1512

abbrev pub fft_start_bin : ℕ
fft_start_bin = 172

-- `rbdvbt_dvbt_carrier_role_t`.
pub data Role : Type 0 where
  unused carrier_data continual_pilot scattered_pilot tps : Role

abbrev pub continual_pilots : List ℕ
continual_pilots =
    0 ∷ 48 ∷ 54 ∷ 87 ∷ 141 ∷ 156 ∷ 192 ∷ 201 ∷ 255 ∷ 279 ∷ 282 ∷ 333 ∷ 432 ∷ 450 ∷ 483 ∷ 525 ∷ 531
    ∷ 618 ∷ 636 ∷ 714 ∷ 759 ∷ 765 ∷ 780 ∷ 804 ∷ 873 ∷ 888 ∷ 918 ∷ 939 ∷ 942 ∷ 969 ∷ 984 ∷ 1050
    ∷ 1101 ∷ 1107 ∷ 1110 ∷ 1137 ∷ 1140 ∷ 1146 ∷ 1206 ∷ 1269 ∷ 1323 ∷ 1377 ∷ 1491 ∷ 1683 ∷ 1704 ∷ []

abbrev pub tps_carriers : List ℕ
tps_carriers =
    34 ∷ 50 ∷ 209 ∷ 346 ∷ 413 ∷ 569 ∷ 595 ∷ 688 ∷ 790 ∷ 901 ∷ 1073 ∷ 1219 ∷ 1262 ∷ 1286 ∷ 1469
    ∷ 1594 ∷ 1687 ∷ []

pub list_contains : List ℕ → ℕ → Bool
list_contains [] needle = false
list_contains (v ∷ vs) needle = if v == needle then true else list_contains vs needle

pub is_continual_pilot : ℕ → Bool
unfolding list_contains
is_continual_pilot k = list_contains continual_pilots k

pub is_tps_carrier : ℕ → Bool
unfolding list_contains
is_tps_carrier k = list_contains tps_carriers k

pub is_scattered_pilot : ℕ → ℕ → Bool
is_scattered_pilot symbol_index k =
    let phase = symbol_index % 4 * 3 in
    if leb (active_carriers - 1) k || ltb k phase then false else (k - phase) % 12 == 0

-- One of the ten lines of `permutate_bits_2k`.
abbrev moved_bit : ℕ → ℕ → ℕ → ℕ → ℕ
moved_bit word mask bit out = bit_or out (if bit_and word mask == 0 then 0 else 2 ^ bit)

pub permutate_bits : ℕ → ℕ
permutate_bits word = moved_bit word 0x200 0 (
    moved_bit word 0x100 7 (
      moved_bit word 0x080 5 (
        moved_bit word 0x040 1 (
          moved_bit word 0x020 8 (
            moved_bit word 0x010 2 (
              moved_bit word 0x008 6
                (moved_bit word 0x004 9 (moved_bit word 0x002 3 (moved_bit word 0x001 4 0)))))))))

-- `build_prbs`, with `n` carriers left.
pub prbs_from : ℕ → ℕ → List ℕ
prbs_from zero s = []
prbs_from (suc n) s =
    bit_and s 1
    ∷ prbs_from n
        (bit_or s (if bit_xor (bit_and s 1) (bit_and (s / 4) 1) == 0 then 0 else 0x800) / 2)

pub prbs : List ℕ
unfolding prbs_from
prbs = prbs_from active_carriers 0x7ff

-- One step of the shift register of `build_symbol_interleaver`.
pub next_register : ℕ → ℕ
next_register sr =
    let b9 = if bit_xor (bit_and sr 1) (bit_and (sr / 8) 1) == 0 then 0 else 0x200 in
    bit_or (sr / 2) b9

-- `tmp[i..]` before the permutation.
registers_from : ℕ → ℕ → List ℕ
registers_from zero sr = []
registers_from (suc n) sr = next_register sr ∷ registers_from n (next_register sr)

-- `tmp[i..]` after it.
permuted_from : ℕ → List ℕ → List ℕ
permuted_from i [] = []
permuted_from i (r ∷ rs) = (i % 2 * 2 ^ 10 + permutate_bits r) ∷ permuted_from (i + 1) rs

pub addresses : List ℕ
unfolding registers_from permuted_from next_register permutate_bits
addresses = permuted_from 0 (0 ∷ 0 ∷ 1 ∷ registers_from (fft_size - 3) 1)

pub record Interleaver : Type 0 where
  pub forward : List ℕ
  pub backward : List ℕ

-- The last loop of `build_symbol_interleaver`.
place : List ℕ → ℕ → Interleaver → Interleaver
place [] q t = t
place (a ∷ more) q t =
    let rest = place more q t in
    let taken =
      place more (q + 1) (record { forward = set t.forward q a; backward = set t.backward a q }) in
    if ltb q data_cells then (if ltb a data_cells then taken else rest) else t

pub interleaver : Interleaver
unfolding place addresses
interleaver =
    place addresses 0
      (record { forward = replicate data_cells 0; backward = replicate data_cells 0 })

pub carrier_role : ℕ → ℕ → Role
carrier_role symbol_index k =
    if leb active_carriers k
    then Role.unused
    else if is_tps_carrier k
    then Role.tps
    else if is_scattered_pilot symbol_index k
    then Role.scattered_pilot
    else if is_continual_pilot k
    then Role.continual_pilot
    else Role.carrier_data

pub is_data : Role → Bool
is_data Role.carrier_data = true
is_data _ = false

-- The loop of `build_data_carriers` over the carriers, with `n` left from `k` on. What the C code
-- would find past the 1512th it does not store.
data_carriers_from : ℕ → ℕ → ℕ → ℕ → List ℕ
data_carriers_from symbol_mod zero k index = []
data_carriers_from symbol_mod (suc n) k index =
    let found = k ∷ data_carriers_from symbol_mod n (k + 1) (index + 1) in
    let past = data_carriers_from symbol_mod n (k + 1) (index + 1) in
    let other = data_carriers_from symbol_mod n (k + 1) index in
    if is_data (carrier_role symbol_mod k)
    then (if ltb index data_cells then found else past)
    else other

pub data_carriers : ℕ → List ℕ
unfolding data_carriers_from
data_carriers symbol_mod = data_carriers_from symbol_mod active_carriers 0 0

pub logical_to_fft_bin : ℕ → ℕ
logical_to_fft_bin k = if leb active_carriers k then fft_size else fft_start_bin + k

pub prbs_bit : ℕ → Option ℕ
prbs_bit k = if leb active_carriers k then none else some (get_or prbs k 0)

-- `none` is the 0 of a carrier out of range; `true` is the sign -1.
pub pilot_sign : ℕ → Option Bool
pilot_sign k = elim (prbs_bit k) [ none ↦ none | some b ↦ some (not (b == 0)) ]

pub data_carrier : ℕ → ℕ → Option ℕ
data_carrier symbol_index index =
    if leb data_cells index then none else some (get_or (data_carriers (symbol_index % 4)) index 0)

unfoldable pub symbol_interleaver : ℕ → Option ℕ
symbol_interleaver i = if leb data_cells i then none else some (get_or interleaver.forward i 0)

pub symbol_deinterleaver : ℕ → Option ℕ
symbol_deinterleaver i = if leb data_cells i then none else some (get_or interleaver.backward i 0)
