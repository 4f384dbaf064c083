-- ===== src/LiveViterbi.antt =====
-- The Viterbi decoder of the live path in src/probe_constellation.c: `live_viterbi_stream_state_t`,
-- `survivor_row_set`, `survivor_row_get`, `live_viterbi_stream_supported`, `..._reset`,
-- `..._prepare`, `..._emit_bit` and `..._decode_bytes`.
-- The costs of the pairs and the metrics are values of a type `C` with the operations of a `float`
-- that the code uses (Viterbi.antt). The last survivors stand in a ring of rows of eight bytes. The
-- two arrays of metrics that the code swaps are the list `old_metrics`: the other is overwritten
-- before it is read. `realloc` is taken to succeed; `fresh` is what a new row holds. The times and
-- the messages are left out.
pub mod Rows
pub mod Relative
pub mod Trace
pub mod Emit
pub mod Tracking
pub mod Steps
pub mod Agree
pub mod Jobs
mod Tests
use dvbt_rx.Base.{
  ℕ, zero, suc, ◌+◌, ◌-◌, ◌*◌, ◌/◌, ◌%◌, ◌^◌, bit_and, bit_or, Bool, true, false, ◌&&◌, ◌||◌, not,
  List, [], ◌∷◌, ◌++◌, map, if◌then◌else◌, ◌==◌, ltb, leb, get_or, set, take, length, replicate,
  Option, none, some,
}
use dvbt_rx.Puncture.{Fec, Dibit, Pair, traceback_bytes, pair_costs, pair_count, depuncture}
use dvbt_rx.Viterbi.{Metric, state_count, prev_state, expected, best_from, relative}

-- A bit of a row of eight bytes for each of the 64 states.
pub survivor_row_set : List ℕ → ℕ → ℕ → List ℕ
survivor_row_set row state pred =
    let mask = 2 ^ (state % 8) % 256 in
    let old = get_or row (state / 8) 0 in
    if pred == 0
    then set row (state / 8) (bit_and old (255 - mask))
    else set row (state / 8) (bit_or old mask)

pub survivor_row_get : List ℕ → ℕ → ℕ
survivor_row_get row state = bit_and (get_or row (state / 8) 0 / 2 ^ (state % 8)) 1

pub supported : Fec → Bool
supported Fec.fec_1_2 = true
supported Fec.fec_2_3 = true
supported _ = false

fec_code : Fec → ℕ
fec_code Fec.auto = 0
fec_code Fec.fec_1_2 = 1
fec_code Fec.fec_2_3 = 2
fec_code Fec.fec_3_4 = 3
fec_code Fec.fec_5_6 = 4
fec_code Fec.fec_7_8 = 5

pub same_fec : Fec → Fec → Bool
unfolding fec_code
same_fec a b = fec_code a == fec_code b

abbrev pub traceback_bits : Fec → ℕ
traceback_bits fec = traceback_bytes fec * 8

-- `live_viterbi_stream_state_t`, less the buffers of one call.
pub record Stream (C : Type 0) : Type 0 where
  pub valid : Bool
  pub fec : Fec
  pub old_metrics : List C
  pub history : List (List ℕ)
  pub history_len : ℕ
  pub steps : ℕ
  pub out_byte : ℕ
  pub out_bits : ℕ

pub reset : {C : Type 0} → Stream C → Stream C
reset s = record s { valid = false; fec = Fec.auto; steps = 0; out_byte = 0; out_bits = 0 }

-- `n` rows after `realloc`.
pub resized : ℕ → List ℕ → List (List ℕ) → List (List ℕ)
resized n fresh history = take n (history ++ replicate n fresh)

pub prepare : {C : Type 0} → C → List ℕ → Fec → Stream C → Stream C
prepare zero_metric fresh fec s =
    let history_len = traceback_bits fec + 8 in
    record {
      valid = true;
      fec = fec;
      old_metrics = replicate state_count zero_metric;
      history =
          (if s.history_len == history_len then s.history else resized history_len fresh s.history);
      history_len = history_len;
      steps = 0;
      out_byte = 0;
      out_bits = 0;
    }

-- The bit goes into `out_byte`, which goes out when it is full.
pub emit_bit : {C : Type 0} → ℕ → Stream C × List ℕ → Stream C × List ℕ
emit_bit bit (s, out) =
    let byte = (s.out_byte * 2 + bit % 2) % 256 in
    let bits = s.out_bits + 1 in
    if ltb bits 8
    then (record s { out_byte = byte; out_bits = bits }, out)
    else (record s { out_byte = 0; out_bits = 0 }, out ++ (byte ∷ []))

pub emit_bits : {C : Type 0} → List ℕ → Stream C × List ℕ → Stream C × List ℕ
emit_bits [] r = r
emit_bits (bit ∷ bits) r = emit_bits bits (emit_bit bit r)

-- The row of the ring for a step.
pub row_of : {C : Type 0} → Stream C → ℕ → List ℕ
row_of s step = get_or s.history (step % s.history_len) []

-- `n` rounds of the loop over `k`. The bits come out the last one first, as they are emitted.
pub trace : {C : Type 0} → Stream C → ℕ → ℕ → ℕ → List ℕ → List ℕ
trace s zero k state emit_bits = emit_bits
trace s (suc n) k state emit_bits =
    let pred = survivor_row_get (row_of s (s.steps - 1 - k)) state in
    let before = (state * 2 + pred) % 64 in
    trace s n (k + 1) before
      (if leb (traceback_bits s.fec - 1) k then before / 2 ^ 5 % 2 ∷ emit_bits else emit_bits)

module _ {C : Type 0} (m : Metric C) where
  -- The body of the loop over `next_state`: the metric, and which predecessor it comes from.
  pub choose : List C → List C → ℕ → C × ℕ
  choose cost metrics next_state =
      let metric0 =
        m.add (get_or metrics (prev_state next_state 0) m.zero_metric)
          (get_or cost (expected next_state 0) m.zero_metric) in
      let metric1 =
        m.add (get_or metrics (prev_state next_state 1) m.zero_metric)
          (get_or cost (expected next_state 1) m.zero_metric) in
      if m.lt metric1 metric0 then (metric1, 1) else (metric0, 0)

  pub chosen_metrics : List C → List C → ℕ → ℕ → List C
  chosen_metrics cost metrics zero next_state = []
  chosen_metrics cost metrics (suc n) next_state =
      (choose cost metrics next_state).0 ∷ chosen_metrics cost metrics n (next_state + 1)

  -- `history_row` after the loop.
  pub chosen_row : List C → List C → ℕ → ℕ → List ℕ → List ℕ
  chosen_row cost metrics zero next_state row = row
  chosen_row cost metrics (suc n) next_state row =
      chosen_row cost metrics n (next_state + 1)
        (survivor_row_set row next_state (choose cost metrics next_state).1)

  -- The row of the step is written into the ring.
  pub keep_row : List C → Stream C → Stream C
  keep_row cost s = record s {
    history =
        set s.history (s.steps % s.history_len)
          (chosen_row cost s.old_metrics state_count 0 (row_of s s.steps));
  }

  -- The rest of a step whose best metric is `step_best`, at the state `best_state`: the metrics
  -- relative to the best, and the bits of one byte when it is due.
  pub advance : List C → C × ℕ → Stream C × List ℕ → Stream C × List ℕ
  advance new_metrics (step_best, best_state) (s, out) =
      let s' = record s { old_metrics = relative m new_metrics step_best; steps = s.steps + 1 } in
      if leb (traceback_bits s.fec + 8) s'.steps && (s'.steps - traceback_bits s.fec) % 8 == 0
      then emit_bits (trace s' (traceback_bits s.fec + 7) 0 best_state []) (s', out)
      else (s', out)

  -- The loop over the pairs: the bytes and the sum of the best metrics, or none after a reset.
  pub run : List (List C) → Stream C × List ℕ → C → Stream C × Option (List ℕ × C)
  run [] (s, out) best_metric = (s, some (out, best_metric))
  run (cost ∷ costs) (s, out) best_metric =
      let new_metrics = chosen_metrics cost s.old_metrics state_count 0 in
      let best = best_from m new_metrics 0 (m.inf, 0) in
      let kept = keep_row cost s in
      let later = run costs (advance new_metrics best (kept, out)) (m.add best_metric best.0) in
      if m.le m.inf best.0 then (reset kept, none) else later

  pub cost_table : Fec → List (Dibit C) → List (List C)
  cost_table fec dibits = map (pair_costs m.add m.zero_metric) (depuncture fec dibits)

  pub started : List ℕ → Fec → Bool → Stream C → Stream C
  started fresh fec continuous s =
      if not continuous || not s.valid || not (same_fec s.fec fec)
      then prepare m.zero_metric fresh fec s
      else s

  -- The stream after the call, with the bytes and the metric if it returns 0.
  pub decode_bytes :
      List ℕ → Fec → List (Dibit C) → Bool → Stream C → Stream C × Option (List ℕ × C)
  decode_bytes fresh fec dibits continuous s =
      let s' = started fresh fec continuous s in
      if pair_count fec (length dibits) == 0
      then (s', none)
      else run (cost_table fec dibits) (s', []) m.zero_metric
