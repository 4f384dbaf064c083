-- ===== src/Session.antt =====
-- The counters of a transport stream session in src/dvbt_outer.c: `live_ts_session_start`,
-- `counter_delta_u32` and `live_ts_session_note`.
-- A counter of the session is the pair of its 64-bit total and the reading last seen.
pub mod Totals
mod Tests
use dvbt_rx.Base.{ℕ, ◌+◌, ◌-◌, ◌%◌, ◌^◌, Bool, true, false, if◌then◌else◌, ◌==◌, ltb, List, [], ◌∷◌}
use dvbt_rx.Validator.{Validator}

pub record Counter : Type 0 where
  pub total : ℕ
  pub last : ℕ

-- The delta, and the new `*last`; a reading below the last one counts from 0.
pub counter_delta : ℕ → ℕ → ℕ × ℕ
counter_delta current last = (current - (if ltb current last then 0 else last), current)

pub note : Counter → ℕ → Counter
note c current =
    let (delta, last') = counter_delta current c.last in
    record { total = (c.total + delta) % 2 ^ 64; last = last' }

abbrev pub new_counter : Counter
new_counter = record { total = 0; last = 0 }

-- `live_ts_session_t`.
pub record Session : Type 0 where
  pub valid : Bool
  pub session_id : ℕ
  pub restarts : ℕ
  pub started_unix : ℕ
  pub packets : Counter
  pub written_packets : Counter
  pub sync_bad : Counter
  pub transport_errors : Counter
  pub cc_errors : Counter
  pub pat_packets : Counter
  pub pmt_packets : Counter
  pub sdt_packets : Counter
  pub rs_bad : Counter
  pub rs_ok : Counter
  pub rs_corrected : Counter
  pub rs_corrected_bytes : Counter
  pub rs_uncorrectable : Counter

pub start : Session → ℕ → Session
start s now =
    let next_id = if s.valid then (s.session_id + 1) % 2 ^ 32 else 1 in
    record {
      valid = true;
      session_id = if next_id == 0 then 1 else next_id;
      restarts = if s.valid then (s.restarts + 1) % 2 ^ 32 else 0;
      started_unix = now;
      packets = new_counter;
      written_packets = new_counter;
      sync_bad = new_counter;
      transport_errors = new_counter;
      cc_errors = new_counter;
      pat_packets = new_counter;
      pmt_packets = new_counter;
      sdt_packets = new_counter;
      rs_bad = new_counter;
      rs_ok = new_counter;
      rs_corrected = new_counter;
      rs_corrected_bytes = new_counter;
      rs_uncorrectable = new_counter;
    }

-- The counts of one job beside those of the validator.
pub record Counts : Type 0 where
  pub rs_bad : ℕ
  pub rs_ok : ℕ
  pub rs_corrected : ℕ
  pub rs_corrected_bytes : ℕ
  pub rs_uncorrectable : ℕ
  pub written_packets : ℕ

pub session_note : Session → Validator → Counts → ℕ → Session
session_note s v counts now =
    let s' = if s.valid then s else start s now in
    record s' {
      packets = note s'.packets v.packets;
      written_packets = note s'.written_packets counts.written_packets;
      sync_bad = note s'.sync_bad v.sync_bad;
      transport_errors = note s'.transport_errors v.transport_errors;
      cc_errors = note s'.cc_errors v.cc_errors;
      pat_packets = note s'.pat_packets v.pat_packets;
      pmt_packets = note s'.pmt_packets v.pmt_packets;
      sdt_packets = note s'.sdt_packets v.sdt_packets;
      rs_bad = note s'.rs_bad counts.rs_bad;
      rs_ok = note s'.rs_ok counts.rs_ok;
      rs_corrected = note s'.rs_corrected counts.rs_corrected;
      rs_corrected_bytes = note s'.rs_corrected_bytes counts.rs_corrected_bytes;
      rs_uncorrectable = note s'.rs_uncorrectable counts.rs_uncorrectable;
    }
