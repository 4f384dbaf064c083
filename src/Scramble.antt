-- ===== src/Scramble.antt =====
-- The energy dispersal of src/dvbt_outer.c: `build_scrambler_table`, `sync_matches` and
-- `descramble_packet`.
pub mod Descramble
mod Tests
use dvbt_rx.Base.{ℕ, zero, suc, ◌+◌, ◌-◌, ◌*◌, ◌/◌, ◌%◌, bit_and, bit_or, bit_xor}
use dvbt_rx.Base.{Bool, List, [], ◌∷◌, if◌then◌else◌, ◌==◌, get_or}

abbrev pub rs_data_len : ℕ
rs_data_len = 188

abbrev pub scramble_seq_len : ℕ
scramble_seq_len = 1503

-- The register and the byte that is being put together.
pub record Register : Type 0 where
  pub reg : ℕ
  pub b : ℕ

-- One bit of the inner loop.
pub shift_bit : Register → Register
shift_bit r =
    let out = bit_xor (bit_and r.reg 1) (bit_and (r.reg / 2) 1) in
    record {
      reg = if out == 0 then r.reg / 2 else bit_or (r.reg / 2) 0x4000;
      b = bit_or (r.b * 2) (bit_and out 1) % 256;
    }

pub shift_bits : ℕ → Register → Register
shift_bits zero r = r
shift_bits (suc n) r = shift_bits n (shift_bit r)

pub table_from : ℕ → ℕ → List ℕ
table_from zero reg = []
table_from (suc n) reg =
    let r = shift_bits 8 (record { reg = reg; b = 0 }) in r.b ∷ table_from n r.reg

pub scrambler_table : List ℕ
scrambler_table = table_from scramble_seq_len 0x4a80

pub sync_matches : ℕ → ℕ → Bool
sync_matches sync block_phase = sync == (if block_phase == 0 then 0xb8 else 0x47)

-- The loop at `i`, with `n` bytes left.
pub descramble_from : List ℕ → ℕ → List ℕ → ℕ → ℕ → List ℕ
descramble_from rs_data block_phase scramble zero i = []
descramble_from rs_data block_phase scramble (suc n) i =
    bit_xor (get_or rs_data i 0) (get_or scramble (block_phase * rs_data_len + i - 1) 0)
    ∷ descramble_from rs_data block_phase scramble n (i + 1)

-- The 188 bytes of `ts`.
pub descramble_packet : List ℕ → ℕ → List ℕ → List ℕ
descramble_packet rs_data block_phase scramble =
    0x47 ∷ descramble_from rs_data block_phase scramble (rs_data_len - 1) 1
