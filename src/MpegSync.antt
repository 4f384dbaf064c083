-- ===== src/MpegSync.antt =====
-- The search for the packet cadence in src/dvbt_outer.c: `live_mpeg_sync_reset`,
-- `live_mpeg_sync_search` and `live_mpeg_sync_pop_packet`. The log is left out.
pub mod Scanned
pub mod Search
pub mod Cadence
mod Tests
use dvbt_rx.Base.{
  ℕ, zero, suc, ◌+◌, ◌-◌, ◌*◌, ◌/◌, ◌%◌, ◌^◌, Bool, true, false, not, ◌&&◌, List, [],
}
use dvbt_rx.Base.{Option, none, some, if◌then◌else◌, ◌==◌, ltb, leb, get_or, length, take}
use dvbt_rx.Buffer
use dvbt_rx.Buffer.{Buffer}
use dvbt_rx.Rs.{rs_block_len}

-- `live_mpeg_sync_state_t`.
pub record MpegSync : Type 0 where
  pub buffer : Buffer
  pub synchronized : Bool
  pub phase8 : ℕ
  pub fail_packets : ℕ
  pub stream_byte_offset : ℕ

-- `live_mpeg_sync_reset`: the allocation is kept.
pub reset : MpegSync → MpegSync
reset s = record {
  buffer = record { bytes = []; cap = s.buffer.cap };
  synchronized = false;
  phase8 = 0;
  fail_packets = 0;
  stream_byte_offset = 0;
}

abbrev pub scan_packets : ℕ
scan_packets = 8

abbrev pub want_syncs : ℕ
want_syncs = 6

-- The counters of the search at one offset.
pub record Scan : Type 0 where
  pub sync47 : ℕ
  pub syncb8 : ℕ
  pub phase8 : ℕ
  pub have_phase : Bool

-- One byte of the loop.
pub scan_byte : ℕ → ℕ → Scan → Scan
scan_byte b j c =
    if b == 0x47
    then record c { sync47 = c.sync47 + 1 }
    else if b == 0xb8
    then record c { syncb8 = c.syncb8 + 1; phase8 = (8 - j % 8) % 8; have_phase = true }
    else c

-- The loop at `j`, with `n` packets left.
pub scan_from : List ℕ → ℕ → ℕ → ℕ → Scan → Scan
scan_from bytes offset zero j c = c
scan_from bytes offset (suc n) j c =
    scan_from bytes offset n (j + 1) (scan_byte (get_or bytes (offset + j * rs_block_len) 0) j c)

pub scan : List ℕ → ℕ → Scan
scan bytes offset =
    scan_from bytes offset scan_packets 0
      (record { sync47 = 0; syncb8 = 0; phase8 = 0; have_phase = false })

pub is_locked : Scan → Bool
is_locked c = c.have_phase && leb want_syncs c.sync47 && c.syncb8 == 1

-- The first offset from `offset` on, of `n`, with a lock, and its phase.
pub find_offset : List ℕ → ℕ → ℕ → Option (ℕ × ℕ)
find_offset bytes zero offset = none
find_offset bytes (suc n) offset =
    let later = find_offset bytes n (offset + 1) in
    if is_locked (scan bytes offset) then some (offset, (scan bytes offset).phase8) else later

-- Bytes that leave the front of the buffer.
pub skip : MpegSync → ℕ → MpegSync
skip s n = record s {
  buffer = Buffer.consume s.buffer n;
  stream_byte_offset = s.stream_byte_offset + n;
}

-- The `while` loop. Each round without a lock takes 204 bytes.
pub search_from : ℕ → MpegSync → Bool × MpegSync
search_from zero s = (false, s)
search_from (suc fuel) s =
    let rest = search_from fuel (skip s rs_block_len) in
    if leb (rs_block_len * scan_packets) (length s.buffer.bytes)
    then elim (find_offset s.buffer.bytes rs_block_len 0) [
      | none ↦ rest
      | some (offset, phase8) ↦
          (true, record (skip s offset) { synchronized = true; phase8 = phase8; fail_packets = 0 })
    ]
    else (false, s)

pub search : MpegSync → Bool × MpegSync
search s = search_from (length s.buffer.bytes / rs_block_len + 1) s

-- The part of `live_mpeg_sync_pop_packet` behind the search: a byte other than the expected one is
-- counted, and the packet is taken all the same.
pub pop_synchronized : MpegSync → Option (List ℕ) × MpegSync
pop_synchronized s =
    let expected = if s.phase8 == 0 then 0xb8 else 0x47 in
    let fails = if ltb s.fail_packets (2 ^ 32 - 1) then s.fail_packets + 1 else s.fail_packets in
    if ltb (length s.buffer.bytes) rs_block_len then (none, s) else (
      some (take rs_block_len s.buffer.bytes),
      record (skip s rs_block_len) {
        phase8 = (s.phase8 + 1) % 8;
        fail_packets = if get_or s.buffer.bytes 0 0 == expected then 0 else fails;
      },
    )

pub pop_packet : MpegSync → Option (List ℕ) × MpegSync
pop_packet s =
    let (found, s') = search s in
    if s.synchronized then pop_synchronized s else if found then pop_synchronized s' else (none, s')
