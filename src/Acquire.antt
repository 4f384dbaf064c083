-- ===== src/Acquire.antt =====
-- The search for the alignment of the outer code in src/dvbt_outer.c: the policy of the scan,
-- `score_candidate_with_policy`, `scan_outer_alignment_with_policy`,
-- `outer_candidate_is_acquirable`, and the alignment that is kept from job to job.
-- A text is a list of codes. `pending_bytes` is the product of doubles in
-- `outer_scan_policy_for_status`, on a symbol rate and a time in hundredths of a second. `free` and
-- the log are left out, and the pointers are not NULL.
mod Phases
pub mod Scan
pub mod Tracking
mod Tests
use dvbt_rx.Base.{ℕ, zero, suc, ◌+◌, ◌-◌, ◌*◌, ◌/◌, ◌%◌, ◌^◌, ◌||◌, ◌&&◌, not, Bool, true, false}
use dvbt_rx.Base.{List, [], ◌∷◌, Option, none, some, if◌then◌else◌, ◌==◌, ltb, leb, get_or, length}
use dvbt_rx.Base.{take, drop, for_from}
use dvbt_rx.Rs.{rs_block_len, block_is_clean_204}
use dvbt_rx.Scramble.{sync_matches}
use dvbt_rx.Deinterleaver.{outer_i, outer_transient, deinterleave_phase}

-- `outer_scan_policy_t`.
pub record Policy : Type 0 where
  pub sync_scan_blocks : ℕ
  pub rs_probe_blocks : ℕ
  pub min_pending_bytes : ℕ
  pub min_rs_ok : ℕ
  pub min_sync_ok : ℕ
  pub min_sync_only_ok : ℕ
  pub soft_fail_limit : ℕ
  pub hard_fail_limit : ℕ
  pub low_pilot_reset_limit : ℕ

abbrev pub policy_default : Policy
policy_default = record {
  sync_scan_blocks = 256;
  rs_probe_blocks = 16;
  min_pending_bytes = 0;
  min_rs_ok = 1;
  min_sync_ok = 0;
  min_sync_only_ok = 96;
  soft_fail_limit = 4;
  hard_fail_limit = 2;
  low_pilot_reset_limit = 3;
}

pub starts_with : List ℕ → List ℕ → Bool
starts_with [] text = true
starts_with (c ∷ cs) [] = false
starts_with (c ∷ cs) (t ∷ ts) = c == t && starts_with cs ts

-- `strstr(text, needle) != NULL`.
pub contains : List ℕ → List ℕ → Bool
contains needle [] = starts_with needle []
contains needle (t ∷ ts) = starts_with needle (t ∷ ts) || contains needle ts

-- `none` is a status or a symbol rate that is NULL.
pub symbol_rate_hz : Option (List ℕ) → ℕ
symbol_rate_hz none = 0
symbol_rate_hz (some text) =
    if contains (b'3' ∷ b'5' ∷ []) text
    then 35000
    else if contains (b'4' ∷ b'0' ∷ []) text
    then 40000
    else if contains (b'1' ∷ b'5' ∷ b'0' ∷ []) text
    then 150000
    else if contains (b'2' ∷ b'5' ∷ b'0' ∷ []) text
    then 250000
    else if contains (b'3' ∷ b'3' ∷ b'3' ∷ []) text
    then 333000
    else if contains (b'5' ∷ b'0' ∷ b'0' ∷ []) text
    then 500000
    else 0

pub policy_for_status : (ℕ → ℕ → ℕ) → Option (List ℕ) → Policy
policy_for_status pending_bytes symbol_rate =
    let sr_hz = symbol_rate_hz symbol_rate in
    let at_least = λ (n : ℕ). if ltb n (rs_block_len * 32) then rs_block_len * 32 else n in
    let slow : Policy = record {
      sync_scan_blocks = 192;
      rs_probe_blocks = 48;
      min_pending_bytes = at_least (pending_bytes sr_hz 150);
      min_rs_ok = 2;
      min_sync_ok = 24;
      min_sync_only_ok = 96;
      soft_fail_limit = 6;
      hard_fail_limit = 3;
      low_pilot_reset_limit = 4;
    } in
    let middle : Policy = record {
      sync_scan_blocks = 224;
      rs_probe_blocks = 64;
      min_pending_bytes = at_least (pending_bytes sr_hz 110);
      min_rs_ok = 2;
      min_sync_ok = 32;
      min_sync_only_ok = 96;
      soft_fail_limit = 5;
      hard_fail_limit = 3;
      low_pilot_reset_limit = 3;
    } in
    let fast : Policy = record {
      sync_scan_blocks = 256;
      rs_probe_blocks = 64;
      min_pending_bytes = at_least (pending_bytes sr_hz 60);
      min_rs_ok = 2;
      min_sync_ok = 32;
      min_sync_only_ok = 128;
      soft_fail_limit = 4;
      hard_fail_limit = 2;
      low_pilot_reset_limit = 3;
    } in
    if sr_hz == 0
    then policy_default
    else if leb sr_hz 150000
    then slow
    else if leb sr_hz 250000
    then middle
    else fast

-- `outer_candidate_t`.
pub record Candidate : Type 0 where
  pub deint_phase : ℕ
  pub rs_phase : ℕ
  pub block_phase : ℕ
  pub score : ℕ
  pub rs_ok : ℕ
  pub sync_ok : ℕ
  pub blocks : ℕ

abbrev pub no_candidate : Candidate
no_candidate = record {
  deint_phase = 0;
  rs_phase = 0;
  block_phase = 0;
  score = 0;
  rs_ok = 0;
  sync_ok = 0;
  blocks = 0;
}

-- One block, number `b`, of the loop in `score_candidate_with_policy`.
pub score_block : Policy → List ℕ → ℕ → ℕ → ℕ → Candidate → Candidate
score_block policy deint offset block_phase b c =
    let block = take rs_block_len (drop (offset + b * rs_block_len) deint) in
    let matches = sync_matches (get_or block 0 0) ((block_phase + b) % 8) in
    let probed = ltb b policy.rs_probe_blocks && matches && block_is_clean_204 block in
    record c {
      blocks = c.blocks + 1;
      sync_ok = if matches then c.sync_ok + 1 else c.sync_ok;
      rs_ok = if probed then c.rs_ok + 1 else c.rs_ok;
    }

pub max_blocks : Policy → ℕ → ℕ → ℕ
max_blocks policy deint_count offset =
    let whole_blocks = (deint_count - offset) / rs_block_len in
    if ltb policy.sync_scan_blocks whole_blocks then policy.sync_scan_blocks else whole_blocks

-- The candidate before its blocks are looked at.
pub unscored : ℕ → ℕ → ℕ → Candidate
unscored deint_phase rs_phase block_phase = record no_candidate {
  deint_phase = deint_phase;
  rs_phase = rs_phase;
  block_phase = block_phase;
}

-- The loop over the blocks.
pub score_blocks : Policy → List ℕ → ℕ → ℕ → Candidate → Candidate
score_blocks policy deint offset block_phase =
    for_from (score_block policy deint offset block_phase) (max_blocks policy (length deint) offset)
      0

pub score_candidate : Policy → List ℕ → ℕ → ℕ → ℕ → Candidate
score_candidate policy deint deint_phase rs_phase block_phase =
    let offset = outer_transient + rs_phase in
    let c = unscored deint_phase rs_phase block_phase in
    let scored = score_blocks policy deint offset block_phase c in
    if leb (length deint) offset
    then c
    else record scored { score = scored.rs_ok * 1000 + scored.sync_ok }

-- `if (c.score > best->score) *best = c`.
pub better : Candidate → Candidate → Candidate
better c best = if ltb best.score c.score then c else best

-- The three loops, the innermost first.
pub scan_block_phases : Policy → List ℕ → ℕ → ℕ → Candidate → Candidate
scan_block_phases policy deint deint_phase rs_phase =
    for_from
      (λ block_phase best.
        better (score_candidate policy deint deint_phase rs_phase block_phase) best)
      8 0

pub scan_rs_phases : Policy → List ℕ → ℕ → Candidate → Candidate
scan_rs_phases policy deint deint_phase =
    for_from (scan_block_phases policy deint deint_phase) rs_block_len 0

pub scan_deint_phase : Policy → List ℕ → ℕ → Candidate → Candidate
scan_deint_phase policy inner deint_phase best = elim (deinterleave_phase inner deint_phase) [
  | none ↦ best
  | some deint ↦ scan_rs_phases policy deint deint_phase best
]

pub scan_best : Policy → List ℕ → Candidate
scan_best policy inner = for_from (scan_deint_phase policy inner) outer_i 0 no_candidate

-- `none` is the -1.
pub scan_alignment : Policy → List ℕ → Option Candidate
scan_alignment policy inner =
    let best = scan_best policy inner in if best.blocks == 0 then none else some best

-- Whether to lock, and whether on probation.
pub is_acquirable : Candidate → Policy → Bool × Bool
is_acquirable best policy =
    if leb policy.min_rs_ok best.rs_ok && leb policy.min_sync_ok best.sync_ok
    then (true, false)
    else if leb policy.min_sync_only_ok best.sync_ok
    then (true, true)
    else (false, false)

-- `live_outer_alignment_state_t`.
pub record Alignment : Type 0 where
  pub valid : Bool
  pub deint_phase : ℕ
  pub rs_phase : ℕ
  pub block_phase : ℕ
  pub stream_byte_offset : ℕ
  pub consumed_deint_bytes : ℕ
  pub lock_jobs : ℕ
  pub fail_jobs : ℕ

pub alignment_candidate : Alignment → List ℕ → Candidate
alignment_candidate a deint =
    if a.valid
    then score_candidate policy_default deint a.deint_phase a.rs_phase a.block_phase
    else no_candidate

pub alignment_store : Alignment → Candidate → Alignment
alignment_store a best = if best.rs_ok == 0 then a else record {
  valid = true;
  deint_phase = best.deint_phase;
  rs_phase = best.rs_phase;
  block_phase = best.block_phase;
  stream_byte_offset = 0;
  consumed_deint_bytes = 0;
  lock_jobs = a.lock_jobs + 1;
  fail_jobs = 0;
}

-- `errors` is the sum of the three error counts of the validator, `packets` its packets.
pub is_bad_job : ℕ → ℕ → ℕ → ℕ → ℕ → Bool
is_bad_job rs_ok rs_uncorrectable written packets errors =
    (written == 0 || rs_ok == 0)
    || leb rs_ok rs_uncorrectable
    || (ltb 0 packets && ltb (packets / 4) errors)

pub note_result : Alignment → Bool → ℕ → ℕ → Alignment
note_result a bad deint_count processed_blocks =
    if not a.valid
    then a
    else if bad
    then record a { fail_jobs = a.fail_jobs + 1; valid = false }
    else record a {
      fail_jobs = 0;
      lock_jobs = a.lock_jobs + 1;
      stream_byte_offset = a.stream_byte_offset + deint_count;
      consumed_deint_bytes = a.consumed_deint_bytes + deint_count;
      rs_phase = (a.rs_phase + rs_block_len - deint_count % rs_block_len) % rs_block_len;
      block_phase = (a.block_phase + processed_blocks) % 8;
    }
