-- ===== src/Gate.antt =====
-- The gate before the output in src/dvbt_outer.c: `ts_output_gate_init`, `ts_output_gate_relock`,
-- `ts_output_gate_flush`, `ts_output_gate_write_packet`, `ts_output_gate_note_video` and
-- `ts_output_gate_try_write`.
-- A buffer of packets is the list of them, so `write_buf_packets` and `video_config_count` are its
-- length. The NAL flags of a packet are an argument: the set of those found in it. The sink is a
-- parameter: `send` is `ts_output_sink_write`, on a burst of packets, with `none` for its -1.
pub mod Burst
pub mod Opening
mod Tests
use dvbt_rx.Base.{ℕ, ◌+◌, ◌-◌, ◌*◌, ◌/◌, ◌%◌, ◌^◌, Bool, true, false, not, ◌&&◌, ◌||◌, List, []}
use dvbt_rx.Base.{
  ◌∷◌, ◌++◌, if◌then◌else◌, ◌==◌, ltb, leb, get_or, length, drop, Option, none, some, ◌>>=◌,
}
use dvbt_rx.Validator.{Validator, no_pid}

abbrev pub write_burst_packets : ℕ
write_burst_packets = 7

abbrev pub gate_config_packets : ℕ
gate_config_packets = 16

-- `VIDEO_NAL_IDR` to `VIDEO_NAL_VPS`.
pub record NalFlags : Type 0 where
  pub idr : Bool
  pub sps : Bool
  pub pps : Bool
  pub vps : Bool

-- `ts_output_gate_t`.
pub record Gate : Type 0 where
  pub stdout_enabled : Bool
  pub waiting_for_video_start : Bool
  pub pat : List ℕ
  pub pmt : List ℕ
  pub video_config : List (List ℕ)
  pub write_buf : List (List ℕ)
  pub have_pat : Bool
  pub have_pmt : Bool
  pub have_video_vps : Bool
  pub have_video_sps : Bool
  pub have_video_pps : Bool

pub init : Bool → Gate
init wait_video_start = record {
  stdout_enabled = false;
  waiting_for_video_start = wait_video_start;
  pat = [];
  pmt = [];
  video_config = [];
  write_buf = [];
  have_pat = false;
  have_pmt = false;
  have_video_vps = false;
  have_video_sps = false;
  have_video_pps = false;
}

unfoldable pub relock : Gate → Bool → Gate
relock gate wait_video_start = record gate {
  stdout_enabled = false;
  waiting_for_video_start = wait_video_start;
  have_pat = false;
  have_pmt = false;
  have_video_vps = false;
  have_video_sps = false;
  have_video_pps = false;
  video_config = [];
}

pub packet_pid : List ℕ → ℕ
packet_pid packet = get_or packet 1 0 % 2 ^ 5 * 2 ^ 8 + get_or packet 2 0

pub note_video : Gate → List ℕ → NalFlags → Gate
note_video gate packet nal =
    let kept =
      if leb gate_config_packets (length gate.video_config)
      then drop 1 gate.video_config
      else gate.video_config in
    record gate {
      have_video_vps = nal.vps || gate.have_video_vps;
      have_video_sps = nal.sps || gate.have_video_sps;
      have_video_pps = nal.pps || gate.have_video_pps;
      video_config =
          if not nal.idr && (nal.vps || nal.sps || nal.pps)
          then kept ++ (packet ∷ [])
          else gate.video_config;
    }

pub any_flag : NalFlags → Bool
any_flag nal = nal.idr || nal.sps || nal.pps || nal.vps

-- Whether the gate may open now.
pub may_open : Gate → Validator → NalFlags → Bool → Bool
may_open gate v nal pilot_lock_ok =
    pilot_lock_ok
    && gate.have_pat
    && gate.have_pmt
    && not (v.pat_packets == 0)
    && not (v.pmt_packets == 0)
    && not (v.video_pid == no_pid)
    && (not gate.waiting_for_video_start
        || not (
            (v.video_stream_type == 0x24 && not gate.have_video_vps)
            || not gate.have_video_sps
            || not gate.have_video_pps
            || not nal.idr)
        || not (ltb v.packets 32))

-- What the packet itself changes: the stored tables, then the video flags.
pub note_packet : Gate → Validator → List ℕ → NalFlags → Bool → Gate
note_packet gate v packet nal good =
    let pid = packet_pid packet in
    let gate' =
      if pid == 0x0000
      then record gate { pat = packet; have_pat = true }
      else if pid == v.pmt_pid && not (v.pmt_pid == no_pid)
      then record gate { pmt = packet; have_pmt = true }
      else gate in
    if good && gate.waiting_for_video_start && any_flag nal
    then note_video gate' packet nal
    else gate'

pub is_psi : Validator → List ℕ → Bool
is_psi v packet =
    packet_pid packet == 0x0000 || (packet_pid packet == v.pmt_pid && not (v.pmt_pid == no_pid))

module _ {S : Type 0} (send : S → List (List ℕ) → Option S) where
  -- A failure leaves the packets in the buffer.
  pub flush : Gate → S → Option (Gate × S)
  flush gate sink =
      if length gate.write_buf == 0 then some (gate, sink) else elim (send sink gate.write_buf) [
        | none ↦ none
        | some sink' ↦ some (record gate { write_buf = [] }, sink')
      ]

  pub write_packet : Gate → S → List ℕ → Option (Gate × S)
  write_packet gate sink packet =
      let gate' = record gate { write_buf = gate.write_buf ++ (packet ∷ []) } in
      if length gate'.write_buf == write_burst_packets then flush gate' sink else some (gate', sink)

  -- The packets one after the other; the number written is their number.
  pub write_packets : Gate → S → List (List ℕ) → Option (Gate × S)
  write_packets gate sink [] = some (gate, sink)
  write_packets gate sink (p ∷ ps) = do
    (gate', sink') ← write_packet gate sink p
    write_packets gate' sink' ps

  pub try_write : Gate → Validator → S → List ℕ → NalFlags → Bool → Option (Gate × S)
  try_write gate v sink packet nal pilot_lock_ok =
      let good = get_or packet 0 0 == 0x47 && get_or packet 1 0 / 2 ^ 7 % 2 == 0 in
      let gate' = note_packet gate v packet nal good in
      let opened = record gate' { stdout_enabled = true; waiting_for_video_start = false } in
      let own = if is_psi v packet then [] else packet ∷ [] in
      if not good
      then some (gate', sink)
      else if gate.stdout_enabled
      then write_packets gate' sink own
      else if may_open gate' v nal pilot_lock_ok
      then write_packets opened sink (gate'.pat ∷ gate'.pmt ∷ (gate'.video_config ++ own))
      else some (gate', sink)
