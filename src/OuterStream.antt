-- ===== src/OuterStream.antt =====
-- The second form of the outer deinterleaver in src/dvbt_outer.c, which reads each byte of a block
-- straight from a buffered stream: `live_outer_stream_append_rs_packet` and
-- `live_outer_stream_pop_rs`. The fields that only the log reads are left out.
pub mod Refine
mod Tests
use dvbt_rx.Base.{ℕ, zero, suc, ◌+◌, ◌-◌, ◌*◌, ◌%◌, ◌||◌, Bool, true, false, not, List, [], ◌∷◌}
use dvbt_rx.Base.{Option, none, some, if◌then◌else◌, ltb, get_or, length}
use dvbt_rx.Buffer
use dvbt_rx.Buffer.{Buffer}
use dvbt_rx.Rs.{rs_block_len}
use dvbt_rx.Deinterleaver.{outer_i, outer_m, outer_transient}

-- `live_outer_stream_state_t`.
pub record OuterStream : Type 0 where
  pub valid : Bool
  pub buffer : Buffer
  pub block_phase : ℕ
  pub stream_byte_offset : ℕ

-- The delay of byte `i` of a block, in units of twelve bytes.
pub delay : ℕ → ℕ
delay i =
    (outer_m * (outer_i - 1) + outer_m * outer_i - outer_m * i % (outer_m * outer_i))
    % (outer_m * outer_i)

-- The loop over the bytes of a block at `i`, with `n` rounds left.
pub gather : List ℕ → ℕ → ℕ → List ℕ
gather bytes zero i = []
gather bytes (suc n) i =
    get_or bytes (outer_transient + i - delay i * outer_i) 0 ∷ gather bytes n (i + 1)

-- `none` is the 0 of a stream that is not valid or too short.
pub pop_rs : OuterStream → Option (List ℕ × OuterStream)
pop_rs s =
    if not s.valid || ltb (length s.buffer.bytes) (outer_transient + rs_block_len)
    then none
    else some (
      gather s.buffer.bytes rs_block_len 0,
      record s {
        buffer = Buffer.consume s.buffer rs_block_len;
        stream_byte_offset = s.stream_byte_offset + rs_block_len;
      },
    )

-- The `-1` of a failed append leaves the stream valid with its phase set.
pub append_rs_packet : (ℕ → Bool) → OuterStream → List ℕ → ℕ → Bool × OuterStream
append_rs_packet grants s packet phase8 =
    let s' = record s {
      valid = true;
      block_phase = if s.valid then s.block_phase else phase8 % 8;
    } in
    elim (Buffer.append grants (outer_transient + rs_block_len * 32) s.buffer packet) [
      | none ↦ (false, s')
      | some b ↦ (true, record s' { buffer = b })
    ]
