-- ===== src/Acquire/Tests.antt =====
-- A symbol rate without a policy of its own, and a tracked alignment.
use dvbt_rx.Base.{◌+◌, ◌%◌, ◌≡◌, refl, arith, [], ◌∷◌, some, true, false, replicate}
use dvbt_rx.Acquire.{
  Alignment, policy_default, symbol_rate_hz, starts_with, contains, scan_alignment, note_result,
}
use dvbt_rx.Acquire.Scan.{IsScanned, scan_alignment-IsScanned}
use dvbt_rx.Acquire.Tracking.{IsValid, note_result-IsValid}

-- `125k`, which the configuration accepts, is none of the rates that are looked for.
rate_125k : symbol_rate_hz (some (b'1' ∷ b'2' ∷ b'5' ∷ b'k' ∷ [])) ≡ 0
unfolding symbol_rate_hz contains starts_with
rate_125k = refl

rate_250k : symbol_rate_hz (some (b'2' ∷ b'5' ∷ b'0' ∷ b'k' ∷ [])) ≡ 250000
unfolding symbol_rate_hz contains starts_with
rate_250k = refl

scan_alignment-IsScanned_example :
    IsScanned policy_default
      (replicate 4000 0x47)
      (scan_alignment policy_default (replicate 4000 0x47))
scan_alignment-IsScanned_example = scan_alignment-IsScanned policy_default (replicate 4000 0x47)

abbrev locked : Alignment
locked = record {
  valid = true;
  deint_phase = 3;
  rs_phase = 200;
  block_phase = 6;
  stream_byte_offset = 0;
  consumed_deint_bytes = 1000;
  lock_jobs = 1;
  fail_jobs = 0;
}

note_result-IsValid_example :
    let next = note_result locked false 10000 49 in
    IsValid next
    × ((next.consumed_deint_bytes + next.rs_phase) % 204 ≡ 1200 % 204)
    × (next.block_phase ≡ (6 + 49) % 8)
unfolding IsValid
note_result-IsValid_example = note_result-IsValid locked 10000 49 (omega arith, omega arith) refl
