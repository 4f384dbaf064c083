-- ===== src/Viterbi.antt =====
-- The Viterbi decoder of a whole job in src/probe_constellation.c: `dvbt_conv_parity_for_state`,
-- `viterbi_init_tables`, `dvbt_viterbi_decode_pairs` and `decode_viterbi_bytes`.
-- A metric is a value of a type `C` with the operations of a `double` that the code uses. The
-- survivors are kept as one list of 64 states per pair, the last pair first. `malloc` is taken to
-- succeed.
pub mod Metrics
pub mod Bound
pub mod Survivor
pub mod Optimal
mod Tests
use dvbt_rx.Base.{
  ℕ, zero, suc, ◌+◌, ◌-◌, ◌*◌, ◌/◌, ◌%◌, ◌^◌, Bool, true, false, List, [], ◌∷◌, ◌++◌,
}
use dvbt_rx.Base.{
  if◌then◌else◌, ◌==◌, ltb, leb, get_or, length, take, drop, replicate, Option, none, some,
}
use dvbt_rx.Puncture.{Fec, Dibit, Pair, add_pair, depuncture}

abbrev pub state_count : ℕ
state_count = 64

abbrev pub bit_of : ℕ → ℕ → ℕ
bit_of word k = word / 2 ^ k % 2

-- The two bits of the encoder with the register `reg`, Y above X.
unfoldable pub conv_parity : ℕ → ℕ
conv_parity reg =
    (bit_of reg 0 + bit_of reg 1 + bit_of reg 3 + bit_of reg 4 + bit_of reg 6) % 2 * 2
    + (bit_of reg 0 + bit_of reg 3 + bit_of reg 4 + bit_of reg 5 + bit_of reg 6) % 2

-- `viterbi_prev_state_table` and `viterbi_expected_table`.
unfoldable pub prev_state : ℕ → ℕ → ℕ
prev_state next_state pred = (next_state * 2 + pred) % 64

unfoldable pub expected : ℕ → ℕ → ℕ
expected next_state pred = conv_parity (next_state * 2 + pred)

-- The operations on a metric, and the value above all of them that the search starts with.
pub record Metric (C : Type 0) : Type 0 where
  pub add : C → C → C
  pub subtract : C → C → C
  pub le : C → C → Bool
  pub lt : C → C → Bool
  pub zero_metric : C
  pub inf : C

module _ {C : Type 0} (m : Metric C) where
  -- The body of the loop over `next_state`: the metric, and the state before.
  unfoldable pub select : Pair C → List C → ℕ → C × ℕ
  select p metrics next_state =
      let prev0 = prev_state next_state 0 in
      let prev1 = prev_state next_state 1 in
      let metric0 = add_pair m.add (get_or metrics prev0 m.zero_metric) p (expected next_state 0) in
      let metric1 = add_pair m.add (get_or metrics prev1 m.zero_metric) p (expected next_state 1) in
      if m.le metric0 metric1 then (metric0, prev0) else (metric1, prev1)

  unfoldable pub new_metrics : Pair C → List C → ℕ → ℕ → List C
  new_metrics p metrics zero next_state = []
  new_metrics p metrics (suc n) next_state =
      (select p metrics next_state).0 ∷ new_metrics p metrics n (next_state + 1)

  unfoldable pub survivors : Pair C → List C → ℕ → ℕ → List ℕ
  survivors p metrics zero next_state = []
  survivors p metrics (suc n) next_state =
      (select p metrics next_state).1 ∷ survivors p metrics n (next_state + 1)

  -- The loop over the pairs.
  unfoldable pub forward : List (Pair C) → List C → List (List ℕ) → List C × List (List ℕ)
  forward [] metrics rows = (metrics, rows)
  forward (p ∷ ps) metrics rows =
      forward ps (new_metrics p metrics state_count 0) (survivors p metrics state_count 0 ∷ rows)

  -- The loop over the final metrics at the state `s`.
  unfoldable pub best_from : List C → ℕ → C × ℕ → C × ℕ
  best_from [] s best = best
  best_from (c ∷ cs) s best = best_from cs (s + 1) (if m.lt c best.0 then (c, s) else best)

  -- The last loop, from the last pair on; `bits` are those already out.
  unfoldable pub traceback : List (List ℕ) → ℕ → List ℕ → List ℕ
  traceback [] state bits = bits
  traceback (row ∷ rows) state bits = traceback rows (get_or row state 0) (state / 2 ^ 5 % 2 ∷ bits)

  unfoldable pub start_metrics : Option (List C) → List C
  start_metrics none = replicate state_count m.zero_metric
  start_metrics (some metrics) = take state_count metrics

  -- The bits and the best metric.
  unfoldable pub decode_pairs : List (Pair C) → Option (List C) → List ℕ × C
  decode_pairs pairs initial_metrics =
      let (metrics, rows) = forward pairs (start_metrics initial_metrics) [] in
      let (best_metric, best_state) = best_from metrics 0 (m.inf, 0) in
      (traceback rows best_state [], best_metric)

  unfoldable pub relative : List C → C → List C
  relative [] best = []
  relative (c ∷ cs) best = m.subtract c best ∷ relative cs best

  -- `final_metrics`, which has 128 places.
  pub final_metrics : List (Pair C) → Option (List C) → List C
  final_metrics pairs initial_metrics =
      relative (forward pairs (start_metrics initial_metrics) []).0
        (decode_pairs pairs initial_metrics).1
      ++ replicate 64 m.inf

  -- Eight bits, the first the highest.
  unfoldable pub pack_byte : List ℕ → ℕ → ℕ → ℕ
  pack_byte bits zero b = b
  pack_byte [] (suc n) b = b
  pack_byte (x ∷ bits) (suc n) b = pack_byte bits n ((b * 2 + x % 2) % 256)

  pub pack_bytes : ℕ → List ℕ → List ℕ
  pack_bytes zero bits = []
  pack_bytes (suc n) bits = pack_byte bits 8 0 ∷ pack_bytes n (drop 8 bits)

  pub decode_bytes : Fec → List (Dibit C) → Option (List C) → Option (List ℕ × C)
  decode_bytes fec dibits initial_metrics =
      let pairs = depuncture fec dibits in
      let (bits, best_metric) = decode_pairs pairs initial_metrics in
      if length pairs == 0 then none else some (pack_bytes (length bits / 8) bits, best_metric)
