-- ===== src/Outer.antt =====
-- The live outer receiver in src/dvbt_outer.c: `live_grdvbt_outer_push_deint_byte`,
-- `live_grdvbt_outer_process_bytes` and `live_grdvbt_outer_process`.
-- `rs_block` is the list of the bytes collected, so `rs_count` is its length. What lies behind the
-- decoder is a parameter: `consume` is the push of a packet into the third queue and the drain of
-- that queue into the gate, with `none` for -1, and `note_bad` is the lock state of a block that was
-- not corrected. An error ends the job, and what the state is then is left out. Allocation succeeds.
pub mod Blocks
pub mod Reception
mod Tests
use dvbt_rx.Base.{
  ℕ, zero, suc, ◌+◌, ◌%◌, Bool, true, false, List, [], ◌∷◌, ◌++◌, take, drop, length,
}
use dvbt_rx.Base.{if◌then◌else◌, ltb, Option, none, some, ◌>>=◌}
use dvbt_rx.Rs.{rs_block_len, correct_204}
use dvbt_rx.Scramble.{descramble_packet}
use dvbt_rx.Deinterleaver.{Deinterleaver, outer_i, outer_transient}
use dvbt_rx.Deinterleaver
use dvbt_rx.Acquire.{Policy, Candidate, scan_alignment, is_acquirable}

-- `live_grdvbt_outer_state_t`.
pub record Live : Type 0 where
  pub valid : Bool
  pub deinterleaver : Deinterleaver
  pub pending : List ℕ
  pub branch : ℕ
  pub block_phase : ℕ
  pub rs_block : List ℕ
  pub input_bytes : ℕ
  pub deint_bytes : ℕ
  pub rs_blocks : ℕ
  pub lock_jobs : ℕ
  pub fail_jobs : ℕ
  pub hard_fail_jobs : ℕ
  pub productive_fail_jobs : ℕ
  pub low_pilot_jobs : ℕ
  pub probation_lock : Bool

-- The counts of a job.
pub record Tally : Type 0 where
  pub rs_bad : ℕ
  pub rs_ok : ℕ
  pub rs_corrected : ℕ
  pub rs_corrected_bytes : ℕ
  pub rs_uncorrectable : ℕ
  pub processed_blocks : ℕ

pub record Receiver (S : Type 0) : Type 0 where
  pub live : Live
  pub tally : Tally
  pub out : S

-- The state at the start of a reception with the alignment `best`.
pub acquired : List ℕ → Candidate → Bool → Live
acquired pending best probation = record {
  valid = true;
  deinterleaver = Deinterleaver.init;
  pending = pending;
  branch = 0;
  block_phase = best.block_phase;
  rs_block = [];
  input_bytes = 0;
  deint_bytes = 0;
  rs_blocks = 0;
  lock_jobs = 1;
  fail_jobs = 0;
  hard_fail_jobs = 0;
  productive_fail_jobs = 0;
  low_pilot_jobs = 0;
  probation_lock = probation;
}

-- The byte out of the deinterleaver, and the receiver with the byte in.
pub deinterleave : {S : Type 0} → Receiver S → ℕ → ℕ × Receiver S
deinterleave r byte =
    let (deint_byte, deinterleaver') = Deinterleaver.step r.live.deinterleaver r.live.branch byte in
    (
      deint_byte,
      record r {
        live = record r.live {
          deinterleaver = deinterleaver';
          input_bytes = r.live.input_bytes + 1;
          branch = (r.live.branch + 1) % outer_i;
          deint_bytes = r.live.deint_bytes + 1;
        };
      },
    )

module _ {S : Type 0} (consume : S → ℕ → List ℕ → Option S) (note_bad : S → S)
    (scramble : List ℕ) where
  -- A whole block at a block phase: the counts and what lies behind.
  pub note_block : ℕ → List ℕ → Tally × S → Option (Tally × S)
  note_block phase block (tally, out) =
      let tally' = record tally { processed_blocks = tally.processed_blocks + 1 } in
      let (result, corrected) = correct_204 block in
      elim result [
        | none ↦ some (
          record tally' {
            rs_bad = tally.rs_bad + 1;
            rs_uncorrectable = tally.rs_uncorrectable + 1;
          },
          note_bad out,
        )
        | some n ↦ do
          out' ← consume out n (descramble_packet corrected phase scramble)
          some (
            record tally' {
              rs_ok = tally.rs_ok + 1;
              rs_corrected = if ltb 0 n then tally.rs_corrected + 1 else tally.rs_corrected;
              rs_corrected_bytes = tally.rs_corrected_bytes + n;
            },
            out',
          )
      ]

  pub push_deint_byte : Receiver S → ℕ → Option (Receiver S)
  push_deint_byte r byte =
      let block = r.live.rs_block ++ (byte ∷ []) in
      if ltb (length block) rs_block_len
      then some (record r { live = record r.live { rs_block = block } })
      else do
        (tally', out') ← note_block r.live.block_phase block (r.tally, r.out)
        some (record {
          live = record r.live {
            rs_block = [];
            rs_blocks = r.live.rs_blocks + 1;
            block_phase = (r.live.block_phase + 1) % 8;
          };
          tally = tally';
          out = out';
        })

  -- The first number is `drop_deint`.
  pub process_bytes : ℕ → Receiver S → List ℕ → Option (Receiver S)
  process_bytes drop_deint r [] = some r
  process_bytes (suc drop_deint) r (byte ∷ bytes) =
      process_bytes drop_deint (deinterleave r byte).1 bytes
  process_bytes zero r (byte ∷ bytes) =
      let (deint_byte, r') = deinterleave r byte in
      push_deint_byte r' deint_byte >>= λ r''. process_bytes zero r'' bytes

  -- The part of `live_grdvbt_outer_process` behind the search.
  pub process_acquired : Receiver S → List ℕ → Candidate → Bool → Option (Receiver S)
  process_acquired r pending best probation = do
    r' ←
        process_bytes (outer_transient + best.rs_phase)
          (record r { live = acquired pending best probation }) (drop best.deint_phase pending)
    some (record r' { live = record r'.live { pending = [] } })

  pub acquire : Policy → Receiver S → List ℕ → Candidate → Option (Receiver S)
  acquire policy r pending best =
      let (lock, probation) = is_acquirable best policy in
      if lock
      then process_acquired r pending best probation
      else some (record r { live = record r.live { pending = pending } })

  pub process : Policy → Receiver S → List ℕ → Option (Receiver S)
  process policy r inner =
      let pending = r.live.pending ++ inner in
      let waiting = record r { live = record r.live { pending = pending } } in
      if r.live.valid
      then process_bytes zero r inner
      else if ltb (length pending) policy.min_pending_bytes
      then some waiting
      else elim (scan_alignment policy pending) [
        | none ↦ some waiting
        | some best ↦ acquire policy r pending best
      ]
