-- ===== src/Nal.antt =====
-- The NAL units in a packet of video in src/dvbt_outer.c: `ts_packet_payload_start`,
-- `video_payload_nal_flags` and `ts_packet_video_nal_flags`.
-- A read past the end is `none`. The bytes at a position are all read before they are compared,
-- and the length of an adaptation field before it is known whether there is one. The set of flags is the record of Gate.antt.
pub mod Units
mod Tests
use dvbt_rx.Base.{
  ℕ, zero, suc, ◌+◌, ◌-◌, ◌*◌, ◌/◌, ◌%◌, ◌^◌, Bool, true, false, not, ◌&&◌, ◌||◌, List, drop,
}
use dvbt_rx.Base.{if◌then◌else◌, ◌==◌, ltb, leb, Option, none, some, ◌>>=◌, read}
use dvbt_rx.Gate.{NalFlags, packet_pid}
use dvbt_rx.Validator.{no_pid}

abbrev pub data_len : ℕ
data_len = 188

-- `none` inside is the 0 for a packet without payload.
pub payload_start : List ℕ → Option (Option ℕ)
payload_start packet = do
  b ← read packet 3
  adaptation_length ← read packet 4
  let afc = b / 2 ^ 4 % 2 ^ 2
  let pos = if afc == 3 then 5 + adaptation_length else 4
  some (if afc == 0 || afc == 2 || leb data_len pos then none else some pos)

abbrev pub no_flags : NalFlags
no_flags = record { idr = false; sps = false; pps = false; vps = false }

-- The flag of the first byte of a NAL unit.
pub flags_of : ℕ → ℕ → NalFlags
flags_of stream_type header =
    let hevc = header / 2 % 2 ^ 6 in
    let avc = header % 2 ^ 5 in
    if stream_type == 0x24
    then record no_flags {
      idr = hevc == 19 || hevc == 20 || hevc == 21;
      vps = hevc == 32;
      sps = hevc == 33;
      pps = hevc == 34;
    }
    else record no_flags { idr = avc == 5; sps = avc == 7; pps = avc == 8 }

pub add_flags : NalFlags → NalFlags → NalFlags
add_flags f g = record {
  idr = f.idr || g.idr;
  sps = f.sps || g.sps;
  pps = f.pps || g.pps;
  vps = f.vps || g.vps;
}

-- The byte behind a start code at `i`, or 0.
pub unit_start : List ℕ → ℕ → ℕ → Option ℕ
unit_start payload len i = do
  a ← read payload i
  b ← read payload (i + 1)
  c ← read payload (i + 2)
  d ← read payload (i + 3)
  some (
      if a == 0 && b == 0 && c == 1
      then i + 3
      else if ltb (i + 5) len && a == 0 && b == 0 && c == 0 && d == 1
      then i + 4
      else 0)

pub note_unit : List ℕ → ℕ → ℕ → ℕ → NalFlags → Option NalFlags
note_unit payload len stream_type start flags =
    if stream_type == 0x24 && not (ltb (start + 1) len)
    then some flags
    else do header ← read payload start; some (add_flags (flags_of stream_type header) flags)

-- The loop on `i`. It ends within the rounds of the fuel, or the result is `none`.
pub nal_loop : ℕ → List ℕ → ℕ → ℕ → ℕ → NalFlags → Option NalFlags
nal_loop zero payload len stream_type i flags = none
nal_loop (suc fuel) payload len stream_type i flags =
    if not (ltb (i + 4) len) then some flags else do
      start ← unit_start payload len i
      let found = not (start == 0) && ltb start len
      flags' ← if found then note_unit payload len stream_type start flags else some flags
      nal_loop fuel payload len stream_type (if found then start + 1 else i + 1) flags'

pub payload_nal_flags : List ℕ → ℕ → ℕ → Option NalFlags
payload_nal_flags payload len stream_type = nal_loop (len + 1) payload len stream_type 0 no_flags

-- The bytes of a PES header at the start of a payload of at least nine bytes.
pub pes_skip : List ℕ → ℕ → Option ℕ
pes_skip payload len = if ltb len 9 then some 0 else do
  a ← read payload 0
  b ← read payload 1
  c ← read payload 2
  header_len ← read payload 8
  some (if a == 0 && b == 0 && c == 1 && ltb (9 + header_len) len then 9 + header_len else 0)

pub flags_from : List ℕ → ℕ → Option ℕ → Option NalFlags
flags_from packet stream_type none = some no_flags
flags_from packet stream_type (some start) = do
  let payload = drop start packet
  skip ← pes_skip payload (data_len - start)
  payload_nal_flags (drop skip payload) (data_len - start - skip) stream_type

pub packet_nal_flags : List ℕ → ℕ → ℕ → Option NalFlags
packet_nal_flags packet video_pid stream_type =
    if video_pid == no_pid || not (packet_pid packet == video_pid)
    then some no_flags
    else (payload_start packet >>= flags_from packet stream_type)
