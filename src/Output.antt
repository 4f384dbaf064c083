-- ===== src/Output.antt =====
-- The consumer of packets in src/dvbt_outer.c, `block4_consume_fifo3_packet`: the validator, the
-- gate and the lock state that is reported.
-- `none` outside is a read out of range, `none` inside the -1 for a sink that fails. The flags of the
-- packet are computed before the packet is looked at, not within the gate.
pub mod Locks
mod Tests
use dvbt_rx.Base.{ℕ, ◌+◌, ◌-◌, ◌*◌, ◌/◌, ◌%◌, ◌^◌, Bool, true, false, not, ◌&&◌, ◌||◌, List}
use dvbt_rx.Base.{if◌then◌else◌, ◌==◌, ltb, get_or, Option, none, some, ◌>>=◌}
use dvbt_rx.Validator.{Validator, observe, no_pid}
use dvbt_rx.Gate.{Gate, relock, try_write}
use dvbt_rx.Nal.{packet_nal_flags}

-- `rx_lock_state_t`.
pub data Lock : Type 0 where
  search : Lock
  locking : Lock
  locked : Lock
  degraded : Lock
  relocking : Lock

pub is_degraded : Lock → Bool
is_degraded search = false
is_degraded locking = false
is_degraded locked = false
is_degraded degraded = true
is_degraded relocking = false

pub record Output (S : Type 0) : Type 0 where
  pub gate : Gate
  pub validator : Validator
  pub lock : Lock
  pub sink : S

pub is_damaged : List ℕ → Bool
is_damaged packet = not (get_or packet 0 0 == 0x47) || not (get_or packet 1 0 / 2 ^ 7 % 2 == 0)

-- The lock state of an error.
pub error_lock : Gate → Lock
error_lock gate = if gate.stdout_enabled then degraded else locking

-- The lock state before a packet is written.
pub lock_before : Gate → Validator → Lock
lock_before gate v =
    if gate.stdout_enabled
    then locked
    else if ltb 0 v.pat_packets && ltb 0 v.pmt_packets && not (v.video_pid == no_pid)
    then (if gate.waiting_for_video_start then locking else locked)
    else locking

-- The lock state once a packet is written.
pub lock_after : Gate → Lock → Lock
lock_after gate lock = if gate.stdout_enabled && not (is_degraded lock) then locked else lock

-- A packet with a damaged header.
pub hold : {S : Type 0} → Output S → Bool → Bool → Output S
hold o live_mode wait_video_start = record o {
  lock = error_lock o.gate;
  gate =
      if not live_mode || not o.gate.stdout_enabled then relock o.gate wait_video_start else o.gate;
}

module _ {S : Type 0} (send : S → List (List ℕ) → Option S) where
  pub consume : Output S → List ℕ → Bool → Bool → Bool → Option (Option (Output S))
  consume o packet live_mode pilot_lock_ok wait_video_start = do
    v ← observe o.validator packet
    nal ← packet_nal_flags packet v.video_pid v.video_stream_type
    let observed = record o { validator = v }
    let counted = record observed {
      lock = if v.cc_errors == o.validator.cc_errors then o.lock else error_lock o.gate;
    }
    let before = record counted { lock = lock_before o.gate v }
    some (
        if is_damaged packet then some (hold observed live_mode wait_video_start) else do
          (gate', sink') ← try_write send o.gate v o.sink packet nal pilot_lock_ok
          some (record before { gate = gate'; lock = lock_after gate' before.lock; sink = sink' }))
