-- ===== src/Validator.antt =====
-- The check of the transport stream in src/dvbt_outer.c: `ts_validator_init`,
-- `ts_validator_observe` and what it calls.
-- `none` is a read or a write outside the packet, the tables of the continuity counters or the names,
-- or a loop
-- that is not over after as many rounds as its section has bytes. A mask of ones is a remainder,
-- and an `|` of bits that do not meet is a sum.
pub mod Safe
pub mod Observe
pub mod Pat
mod Tests
use dvbt_rx.Base.{ℕ, zero, suc, ◌+◌, ◌-◌, ◌*◌, ◌/◌, ◌%◌, ◌^◌, ◌||◌, ◌&&◌, not, Bool, List, []}
use dvbt_rx.Base.{
  ◌∷◌, ◌>>=◌, Option, none, some, if◌then◌else◌, ◌==◌, ltb, leb, read, set, drop, replicate, length,
}
use dvbt_rx.Scramble.{rs_data_len}

abbrev pub no_pid : ℕ
no_pid = 0x1fff

-- The size of the arrays `service_name` and `service_provider`.
abbrev pub name_size : ℕ
name_size = 64

-- `ts_validator_t`.
pub record Validator : Type 0 where
  pub packets : ℕ
  pub sync_bad : ℕ
  pub transport_errors : ℕ
  pub pat_packets : ℕ
  pub pmt_packets : ℕ
  pub sdt_packets : ℕ
  pub pmt_pid : ℕ
  pub service_id : ℕ
  pub program_id : ℕ
  pub service_name : List ℕ
  pub service_provider : List ℕ
  pub pcr_pid : ℕ
  pub video_pid : ℕ
  pub audio_pid : ℕ
  pub video_stream_type : ℕ
  pub audio_stream_type : ℕ
  pub cc_seen : List ℕ
  pub cc_value : List ℕ
  pub cc_errors : ℕ

unfoldable pub init : Validator
init = record {
  packets = 0;
  sync_bad = 0;
  transport_errors = 0;
  pat_packets = 0;
  pmt_packets = 0;
  sdt_packets = 0;
  pmt_pid = no_pid;
  service_id = 0;
  program_id = 0;
  service_name = replicate name_size 0;
  service_provider = replicate name_size 0;
  pcr_pid = no_pid;
  video_pid = no_pid;
  audio_pid = no_pid;
  video_stream_type = 0;
  audio_stream_type = 0;
  cc_seen = replicate 8192 0;
  cc_value = replicate 8192 0;
  cc_errors = 0;
}

-- `++` on a `uint32_t`.
abbrev pub count32 : ℕ → ℕ
count32 n = (n + 1) % 2 ^ 32

pub read16 : List ℕ → ℕ → Option ℕ
read16 p i = do high ← read p i; low ← read p (i + 1); some (high * 2 ^ 8 + low)

-- The loop at `pos`.
pub pat_loop : ℕ → Validator → List ℕ → ℕ → ℕ → Option Validator
pat_loop zero v section end pos = none
pat_loop (suc fuel) v section end pos = if not (leb (pos + 4) end) then some v else do
  program_number ← read16 section pos
  pid ← read16 section (pos + 2)
  if program_number == 0
      then pat_loop fuel v section end (pos + 4)
      else some (record v {
        service_id = program_number;
        program_id = program_number;
        pmt_pid = pid % 2 ^ 13;
      })

pub parse_pat : Validator → List ℕ → ℕ → Option Validator
parse_pat v section len = if ltb len 8 then some v else do
  table_id ← read section 0
  if not (table_id == 0x00) then some v else do
    field ← read16 section 1
    let section_length = field % 2 ^ 12
    if ltb len (section_length + 3) || ltb section_length 9
        then some v
        else pat_loop len v section (3 + section_length - 4) 8

-- A write into an array, which `none` is outside of it.
pub write_at : List ℕ → ℕ → ℕ → Option (List ℕ)
write_at out i c = if ltb i (length out) then some (set out i c) else none

-- The loop of `copy_dvb_text` with `n` bytes left, at index `i` of `out`; `src` is where the text
-- stands in the section.
pub copy_text : List ℕ → List ℕ → ℕ → ℕ → ℕ → Option (List ℕ)
copy_text out section src i zero = some out
copy_text out section src i (suc n) = do
  c ← read section (src + i)
  out' ← write_at out i (if leb 32 c && leb c 126 then c else 0x3f)
  copy_text out' section src (i + 1) n

pub copy_dvb_text : List ℕ → ℕ → List ℕ → ℕ → ℕ → Option (List ℕ)
copy_dvb_text out out_len section src src_len = if out_len == 0 then some out else do
  let n = if ltb src_len (out_len - 1) then src_len else out_len - 1
  out' ← copy_text out section src 0 n
  write_at out' n 0

-- One elementary stream of a PMT.
pub note_stream : Validator → ℕ → ℕ → Validator
note_stream v stream_type elementary_pid =
    if (stream_type == 0x1b || stream_type == 0x24) && v.video_pid == no_pid
    then record v { video_pid = elementary_pid; video_stream_type = stream_type }
    else if stream_type == 0x0f && v.audio_pid == no_pid
    then record v { audio_pid = elementary_pid; audio_stream_type = stream_type }
    else v

pub pmt_loop : ℕ → Validator → List ℕ → ℕ → ℕ → Option Validator
pmt_loop zero v section end pos = none
pmt_loop (suc fuel) v section end pos = if not (leb (pos + 5) end) then some v else do
  stream_type ← read section pos
  pid ← read16 section (pos + 1)
  info ← read16 section (pos + 3)
  pmt_loop fuel (note_stream v stream_type (pid % 2 ^ 13)) section end (pos + (5 + info % 2 ^ 12))

pub parse_pmt : Validator → List ℕ → ℕ → Option Validator
parse_pmt v section len = if ltb len 12 then some v else do
  table_id ← read section 0
  if not (table_id == 0x02) then some v else do
    field ← read16 section 1
    let section_length = field % 2 ^ 12
    if ltb len (section_length + 3) || ltb section_length 13 then some v else do
      pcr ← read16 section 8
      info ← read16 section 10
      pmt_loop len (record v { pcr_pid = pcr % 2 ^ 13 }) section (3 + section_length - 4)
          (12 + info % 2 ^ 12)

-- The body of a service descriptor of `desc_len` bytes at `desc`.
pub note_service : Validator → ℕ → List ℕ → ℕ → ℕ → Option Validator
note_service v service_id section desc desc_len = do
  provider_len ← read section (desc + 1)
  if not (ltb (2 + provider_len) desc_len) then some v else do
    name_len ← read section (desc + (2 + provider_len))
    if not (leb (2 + provider_len) desc_len && leb (2 + provider_len + 1 + name_len) desc_len)
        then some v
        else do
          provider ← copy_dvb_text v.service_provider name_size section (desc + 2) provider_len
          name ←
              copy_dvb_text v.service_name name_size section (desc + (2 + provider_len + 1))
                name_len
          some (record v {
            service_provider = provider;
            service_name = name;
            service_id = if v.service_id == 0 then service_id else v.service_id;
            program_id = if v.service_id == 0 then service_id else v.program_id;
          })

pub note_descriptor : Validator → ℕ → List ℕ → ℕ → ℕ → ℕ → Option Validator
note_descriptor v service_id section tag desc desc_len =
    if tag == 0x48 && leb 3 desc_len && (v.service_id == 0 || v.service_id == service_id)
    then note_service v service_id section desc desc_len
    else some v

-- The loop over the descriptors of a service.
pub desc_loop : ℕ → Validator → ℕ → List ℕ → ℕ → ℕ → Option Validator
desc_loop zero v service_id section desc_end desc_pos = none
desc_loop (suc fuel) v service_id section desc_end desc_pos =
    if not (leb (desc_pos + 2) desc_end) then some v else do
      tag ← read section desc_pos
      desc_len ← read section (desc_pos + 1)
      if ltb desc_end (desc_pos + 2 + desc_len) then some v else do
        v' ← note_descriptor v service_id section tag (desc_pos + 2) desc_len
        desc_loop fuel v' service_id section desc_end (desc_pos + (2 + desc_len))

-- The loop over the services.
pub sdt_loop : ℕ → Validator → List ℕ → ℕ → ℕ → Option Validator
sdt_loop zero v section end pos = none
sdt_loop (suc fuel) v section end pos = if not (leb (pos + 5) end) then some v else do
  service_id ← read16 section pos
  field ← read16 section (pos + 3)
  let desc_end = pos + 5 + field % 2 ^ 12
  if ltb end desc_end then some v else do
    v' ← desc_loop end v service_id section desc_end (pos + 5)
    sdt_loop fuel v' section end desc_end

pub parse_sdt : Validator → List ℕ → ℕ → Option Validator
parse_sdt v section len = if ltb len 14 then some v else do
  table_id ← read section 0
  if not (table_id == 0x42) then some v else do
    field ← read16 section 1
    let section_length = field % 2 ^ 12
    if ltb len (section_length + 3) || ltb section_length 12
        then some v
        else sdt_loop len v section (3 + section_length - 4) 11

-- The section of `len` bytes, by the identifier of its packet.
pub parse_section : Validator → ℕ → List ℕ → ℕ → Option Validator
parse_section v pid section len =
    if pid == 0x0000
    then parse_pat (record v { pat_packets = count32 v.pat_packets }) section len
    else if pid == v.pmt_pid
    then parse_pmt (record v { pmt_packets = count32 v.pmt_packets }) section len
    else if pid == 0x0011
    then parse_sdt (record v { sdt_packets = count32 v.sdt_packets }) section len
    else some v

pub parse_psi : Validator → List ℕ → ℕ → ℕ → Bool → Option Validator
parse_psi v packet pid payload_start payload_unit_start =
    if not payload_unit_start || leb rs_data_len payload_start then some v else do
      pointer ← read packet payload_start
      let pos = payload_start + (pointer + 1)
      if ltb rs_data_len (pos + 3) then some v else do
        field ← read16 packet (pos + 1)
        let section_len = field % 2 ^ 12 + 3
        if ltb rs_data_len (pos + section_len)
            then some v
            else parse_section v pid (drop pos packet) section_len

-- The continuity counter of one identifier. A write outside a table is `none` too.
pub note_continuity : Validator → ℕ → ℕ → Bool → Option Validator
note_continuity v pid cc has_payload = if pid == no_pid then some v else do
  seen ← read v.cc_seen pid
  last ← read v.cc_value pid
  let v' = record v { cc_seen = set v.cc_seen pid 1; cc_value = set v.cc_value pid cc }
  some (
      if seen == 0 || not has_payload || cc == (last + 1) % 2 ^ 4
      then v'
      else record v' { cc_errors = count32 v.cc_errors })

-- From the adaptation field on.
pub observe_payload : Validator → List ℕ → ℕ → ℕ → Bool → Option Validator
observe_payload v packet pid afc payload_unit_start =
    let parse_from = λ (start : ℕ).
      if (afc == 1 || afc == 3) && ltb start rs_data_len
      then parse_psi v packet pid start payload_unit_start
      else some v in
    if not (afc == 2 || afc == 3) then parse_from 4 else do
      adaptation_length ← read packet 4
      if ltb rs_data_len (5 + adaptation_length) then some v else parse_from (5 + adaptation_length)

pub observe : Validator → List ℕ → Option Validator
observe v packet = do
  sync ← read packet 0
  let counted = record v { packets = count32 v.packets }
  if not (sync == 0x47) then some (record counted { sync_bad = count32 v.sync_bad }) else do
    b1 ← read packet 1
    b2 ← read packet 2
    b3 ← read packet 3
    let errors = if b1 / 2 ^ 7 % 2 == 0 then v.transport_errors else count32 v.transport_errors
    let pid = b1 % 2 ^ 5 * 2 ^ 8 + b2
    let afc = b3 / 2 ^ 4 % 2 ^ 2
    v' ←
        note_continuity (record counted { transport_errors = errors }) pid (b3 % 2 ^ 4)
          (afc == 1 || afc == 3)
    observe_payload v' packet pid afc (not (b1 / 2 ^ 6 % 2 == 0))
