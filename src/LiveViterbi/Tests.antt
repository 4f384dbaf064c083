-- ===== src/LiveViterbi/Tests.antt =====
-- Natural numbers as an exact metric, and a job of 48 dibits that all stand for the bits 00.
use dvbt_rx.Base.{
  ℕ, zero, suc, ◌+◌, ◌-◌, ◌<◌, ◌≡◌, refl, sym, ◌∙◌, arith, false, true, Bool, ◌&&◌, List, [], ◌∷◌,
  ◌++◌, length, replicate, get_or, get_or-replicate, all_below, all_below_sound, ltb, leb, none,
  some, tabulate, subst,
}
use dvbt_rx.Puncture
use dvbt_rx.Puncture.{Fec, Dibit, Pair, depuncture}
use dvbt_rx.Viterbi
use dvbt_rx.Viterbi.{Metric}
use dvbt_rx.Viterbi.Metrics.{IsOrdered}
use dvbt_rx.LiveViterbi
use dvbt_rx.LiveViterbi.{Stream, decode_bytes}
use dvbt_rx.LiveViterbi.Rows.{IsRow}
use dvbt_rx.LiveViterbi.Relative.{IsExact}
use dvbt_rx.LiveViterbi.Tracking.{metrics_after}
use dvbt_rx.LiveViterbi.Steps.{best_after}
use dvbt_rx.LiveViterbi.Agree.{byte_count, decided, IsFinite, IsAfter}
use dvbt_rx.LiveViterbi.Jobs.{IsWell, decode_bytes-decided}

abbrev numbers : Metric ℕ
numbers = record {
  add = λ a b. a + b;
  subtract = λ a b. a - b;
  le = leb;
  lt = ltb;
  zero_metric = 0;
  inf = 1000;
}

numbers-IsOrdered : IsOrdered numbers
numbers-IsOrdered = record {
  le_trans = λ a b c h k. ground arith;
  le_total = λ a b h. ground arith;
  lt_le = λ a b. ground arith;
  add_mono = λ a b c h. ground arith;
}

numbers-IsExact : IsExact numbers
numbers-IsExact = record {
  le_add = λ a b. ground arith;
  zero_add = λ a. omega arith;
  add_zero = λ a. omega arith;
  add_assoc = λ a b c. omega arith;
  subtract_zero = λ a. omega arith;
  subtract_self = λ a. omega arith;
  subtract_le = λ a c. ground arith;
  add_subtract = λ a c h. ground arith;
  subtract_add = λ a b c h. ground arith;
  le_subtract = λ a b c h k. ground arith;
  subtract_subtract = λ a b c h k. ground arith;
}

-- A dibit whose bits are received as 0 with certainty 5.
abbrev dibit : Dibit ℕ
dibit = record {
  dibit = 0;
  x_cost = record { zero_cost = 0; one_cost = 5 };
  y_cost = record { zero_cost = 0; one_cost = 5 };
}

abbrev pair : Pair ℕ
pair = Puncture.both (Puncture.x_of dibit) (Puncture.y_of dibit)

abbrev dibits : List (Dibit ℕ)
dibits = replicate 48 dibit

dibits_pairs : depuncture Fec.fec_1_2 dibits ≡ replicate 48 pair
unfolding depuncture Puncture.depuncture_into Puncture.pair_count Puncture.groups_from
    Puncture.group Puncture.group_in Puncture.group_out Puncture.both Puncture.x_of Puncture.y_of
dibits_pairs = refl

-- All metrics after up to `n` more pairs are low.
all_low : List ℕ → Bool
all_low metrics = all_below 64 (λ j. ltb (get_or metrics j 0) 1000)

low_from : ℕ → List ℕ → Bool
low_from zero metrics = all_low metrics
low_from (suc n) metrics =
    all_low metrics && low_from n (Viterbi.new_metrics numbers pair metrics 64 0)

low_at :
    (n k : ℕ) (metrics : List ℕ) (rows : List (List ℕ))
    → low_from n metrics ≡ true
    → k < suc n
    → all_low (Viterbi.forward numbers (replicate k pair) metrics rows).0 ≡ true
unfolding low_from Viterbi.forward
low_at zero zero metrics rows low lt = low
low_at (suc n) zero metrics rows low lt = ground arith
low_at zero (suc k) metrics rows low lt = absurd (omega arith)
low_at (suc n) (suc k) metrics rows low lt = low_at n k _ (_ ∷ rows) (ground arith) (omega arith)

low : low_from 48 (Viterbi.start_metrics numbers none) ≡ true
unfolding low_from all_low Viterbi.new_metrics Viterbi.select Viterbi.start_metrics all_below
    Viterbi.prev_state Viterbi.expected Viterbi.conv_parity Puncture.add_pair Puncture.add_if
    Puncture.cost_of Puncture.both Puncture.x_of Puncture.y_of
low = refl

prefix_eq :
    (done rest : List (Pair ℕ)) (n : ℕ)
    → done ++ rest ≡ replicate n pair
    → (done ≡ replicate (length done) pair) × (length done < suc n)
prefix_eq [] rest n e = (refl, omega arith)
prefix_eq (p ∷ done) rest zero e = absurd (cc)
prefix_eq (p ∷ done) rest (suc n) e =
    let (same, lt) = prefix_eq done rest n (cc) in let head : p ≡ pair = cc in (cc, omega arith)

pairs-IsFinite : IsFinite numbers ([] ++ depuncture Fec.fec_1_2 dibits)
unfolding all_low
pairs-IsFinite = record {
  each = λ done rest e j lt.
      let (same, le) = prefix_eq done rest 48 (e ∙ dibits_pairs) in
      subst (λ l. ltb (get_or (metrics_after numbers l) j 0) 1000 ≡ true) (sym same)
        (all_below_sound 64
          (λ j. ltb (get_or (metrics_after numbers (replicate (length done) pair)) j 0) 1000) j
          (low_at 48 (length done) (Viterbi.start_metrics numbers none) [] low le) lt);
}

abbrev no_row : List ℕ
no_row = replicate 8 0

abbrev stream : Stream ℕ
stream = record {
  valid = false;
  fec = Fec.auto;
  old_metrics = [];
  history = [];
  history_len = 0;
  steps = 0;
  out_byte = 0;
  out_bits = 0;
}

no_row-IsRow : IsRow no_row
no_row-IsRow = record {
  eight = refl;
  bytes = λ i lt. rw (get_or-replicate {A = ℕ} 8 i 0) (omega arith);
}

stream-IsWell : IsWell numbers stream
stream-IsWell = record { slots = refl; are_rows = λ i lt. absurd (omega arith) }

some_pair : 0 < Puncture.pair_count Fec.fec_1_2 (length dibits)
unfolding Puncture.pair_count Puncture.group_in Puncture.group_out
some_pair = omega arith

decode_bytes-decided_example :
    (s' : Stream ℕ) × (decode_bytes numbers no_row Fec.fec_1_2 dibits false stream ≡ (
      s',
      some (
        tabulate
            (decided numbers Fec.fec_1_2 ([] ++ depuncture Fec.fec_1_2 dibits))
            (byte_count Fec.fec_1_2 (length ([] ++ depuncture Fec.fec_1_2 dibits))
              - byte_count Fec.fec_1_2 (length {A = Pair ℕ} []))
            (byte_count Fec.fec_1_2 (length {A = Pair ℕ} [])),
        (best_after numbers ([] ++ depuncture Fec.fec_1_2 dibits)).0 - 0,
      ),
    ))
    × IsAfter numbers Fec.fec_1_2 s'
        ([] ++ depuncture Fec.fec_1_2 dibits)
        (best_after numbers ([] ++ depuncture Fec.fec_1_2 dibits)).0
decode_bytes-decided_example =
    decode_bytes-decided numbers numbers-IsOrdered numbers-IsExact no_row Fec.fec_1_2 dibits false
      stream [] 0 no_row-IsRow (stream-IsWell, refl, refl) some_pair pairs-IsFinite

-- The job above gives out one byte, of metric 0.
one_byte : (decode_bytes numbers no_row Fec.fec_1_2 dibits false stream).1 ≡ some (0 ∷ [], 0)
unfolding decode_bytes LiveViterbi.started LiveViterbi.prepare LiveViterbi.resized LiveViterbi.run
    LiveViterbi.cost_table LiveViterbi.chosen_metrics LiveViterbi.choose LiveViterbi.keep_row
    LiveViterbi.chosen_row LiveViterbi.row_of LiveViterbi.survivor_row_set LiveViterbi.advance
    LiveViterbi.survivor_row_get LiveViterbi.trace LiveViterbi.emit_bits LiveViterbi.emit_bit
    LiveViterbi.same_fec Viterbi.best_from Viterbi.relative Viterbi.prev_state Viterbi.expected
    Viterbi.conv_parity Puncture.pair_costs Puncture.add_pair Puncture.add_if Puncture.cost_of
    Puncture.both Puncture.x_of Puncture.y_of depuncture Puncture.depuncture_into
    Puncture.pair_count Puncture.groups_from Puncture.group Puncture.group_in Puncture.group_out
    Puncture.traceback_bytes
one_byte = refl
