-- ===== src/OuterStream/Tests.antt =====
-- A stream of one block and its delay, and the theorem there.
use dvbt_rx.Base.{ℕ, ◌+◌, ◌<◌, ◌≡◌, refl, arith, true, List, some, length, get_or, drop, replicate}
use dvbt_rx.Base.{length-replicate}
use dvbt_rx.OuterStream.{OuterStream, pop_rs}
use dvbt_rx.OuterStream.Refine.{pop_rs-deinterleave_phase}
use dvbt_rx.Deinterleaver.{deinterleave_phase}

abbrev full : OuterStream
full = record {
  valid = true;
  buffer = record { bytes = replicate 2448 5; cap = 8772 };
  block_phase = 2;
  stream_byte_offset = 0;
}

pop_rs-deinterleave_phase_example :
    (out : List ℕ) × (block : List ℕ) × (s' : OuterStream) × (deinterleave_phase
        (replicate 2448 5)
        0
      ≡ some out)
    × (pop_rs full ≡ some (block, s'))
    × (length block ≡ 204)
    × ((k : ℕ) → k < 204 → get_or block k 0 ≡ get_or out (2244 + k) 0)
    × (s'.buffer.bytes ≡ drop 204 (replicate 2448 5))
pop_rs-deinterleave_phase_example =
    pop_rs-deinterleave_phase full refl (rw (length-replicate {A = ℕ} 2448 5) (omega arith))
