-- ===== src/LiveViterbi/Steps.antt =====
-- One step of the live decoder on a pair, with the byte that leaves it when one is due.
use dvbt_rx.Base.{
  ℕ, ◌+◌, ◌-◌, ◌%◌, ◌<◌, ◌≤◌, ◌≡◌, refl, sym, ap, ◌∙◌, arith, Bool, true, false, ◌&&◌, leb, ◌==◌,
  List, [], ◌∷◌, ◌++◌, length, length-append, length-set, drop, get_or, none, subst,
}
use dvbt_rx.Puncture.{Fec, Pair, pair_costs, traceback_bytes}
use dvbt_rx.Viterbi.{Metric, new_metrics, best_from, relative, decode_pairs, traceback, pack_byte}
use dvbt_rx.Viterbi.Metrics.{IsOrdered}
use dvbt_rx.LiveViterbi.{Stream, keep_row, advance, trace, traceback_bits, chosen_metrics, row_of}
use dvbt_rx.LiveViterbi.Relative.{
  IsExact, AreAbove, chosen_metrics-relative, new_metrics-AreAbove, best_relative,
  relative-relative,
}
use dvbt_rx.LiveViterbi.Trace.{Holds, trace-traceback, length-trace}
use dvbt_rx.LiveViterbi.Emit.{emit_bits-pack_byte, pack_byte-append}
use dvbt_rx.LiveViterbi.Tracking.{
  Tracks, metrics_after, rows_after, forward-snoc, length-metrics_after, length-rows_after, next,
  next-held, next-are_rows,
}

pub traceback_bits-pos : (fec : Fec) → 0 < traceback_bits fec
unfolding traceback_bytes
traceback_bits-pos Fec.auto = omega arith
traceback_bits-pos Fec.fec_1_2 = omega arith
traceback_bits-pos Fec.fec_2_3 = omega arith
traceback_bits-pos Fec.fec_3_4 = omega arith
traceback_bits-pos Fec.fec_5_6 = omega arith
traceback_bits-pos Fec.fec_7_8 = omega arith

-- A byte leaves after `n` pairs.
abbrev pub is_due : Fec → ℕ → Bool
is_due fec n = leb (traceback_bits fec + 8) n && ((n - traceback_bits fec) % 8 == 0)

module _ {C : Type 0} (m : Metric C) where
  abbrev pub best_after : List (Pair C) → C × ℕ
  best_after done = best_from m (metrics_after m done) 0 (m.inf, 0)

  -- What the job's decoder decides for the last byte that is old enough.
  abbrev pub byte_after : Fec → List (Pair C) → ℕ
  byte_after fec done =
      pack_byte m (drop (length done - (traceback_bits fec + 8)) (decode_pairs m done none).0) 8 0

  abbrev pub AreFinite : List (Pair C) → Type 0
  AreFinite done =
      (j : ℕ) → j < 64 → m.lt (get_or (metrics_after m done) j m.zero_metric) m.inf ≡ true

  module _ (o : IsOrdered m) (x : IsExact m) (fec : Fec) (s : Stream C) (done : List (Pair C))
      (p : Pair C) (best : C) (t : Tracks m fec s done best) where
    abbrev pub all : List (Pair C)
    all = done ++ (p ∷ [])

    metrics_eq : metrics_after m all ≡ new_metrics m p (metrics_after m done) 64 0
    metrics_eq = ap (λ r. r.0) (forward-snoc m done p _ [])

    pub chosen_eq :
        chosen_metrics m (pair_costs m.add m.zero_metric p) s.old_metrics 64 0
        ≡ relative m (metrics_after m all) best
    chosen_eq =
        ap (λ l. chosen_metrics m (pair_costs m.add m.zero_metric p) l 64 0) t.metrics_eq
        ∙ chosen_metrics-relative m o x p (metrics_after m done) best 64 0
            (length-metrics_after m done) t.above
        ∙ ap (λ l. relative m l best) (sym metrics_eq)

    all-AreAbove : AreAbove m best (metrics_after m all)
    all-AreAbove = subst (AreAbove m best) (sym metrics_eq) (
        new_metrics-AreAbove m o x p (metrics_after m done) best (length-metrics_after m done)
          t.above)

    module _ (finite : AreFinite all) where
      abbrev pub stepped : Stream C
      stepped =
          next m o x fec s done p best t (
            relative m (relative m (metrics_after m all) best) (m.subtract (best_after all).0 best))

      facts :
          (best_from m (relative m (metrics_after m all) best) 0 (m.inf, 0)
            ≡ (m.subtract (best_after all).0 best, (best_after all).1))
          × AreAbove m (best_after all).0 (metrics_after m all)
          × (m.le best (best_after all).0 ≡ true)
          × (m.le m.inf (m.subtract (best_after all).0 best) ≡ false)
          × ((best_after all).1 < length (metrics_after m all))
      facts =
          best_relative m o x (metrics_after m all) best (omega (arith, length-metrics_after m all))
            all-AreAbove (λ j lt. finite j (omega (arith, length-metrics_after m all)))

      pub best_eq :
          best_from m (relative m (metrics_after m all) best) 0 (m.inf, 0)
          ≡ (m.subtract (best_after all).0 best, (best_after all).1)
      best_eq = facts.0

      pub best-le : m.le best (best_after all).0 ≡ true
      best-le = facts.2

      pub below_inf : m.le m.inf (m.subtract (best_after all).0 best) ≡ false
      below_inf = facts.3

      stepped-held :
          (n : ℕ) → n ≤ s.steps + 1 → n ≤ s.history_len → Holds m stepped 0 n (rows_after m all)
      stepped-held n le_steps le_cap =
          subst (Holds m stepped 0 n) (sym (ap (λ r. r.1) (forward-snoc m done p _ [])))
            (next-held m o x fec s done p best t _ n le_steps le_cap)

      pub stepped-Tracks : Tracks m fec stepped all (best_after all).0
      stepped-Tracks = record {
        is_valid = t.is_valid;
        fec_eq = t.fec_eq;
        cap_eq = t.cap_eq;
        slots = length-set s.history (s.steps % s.history_len) _ ∙ t.slots;
        are_rows = next-are_rows m o x fec s done p best t;
        steps_eq = omega (arith, t.steps_eq, length-append done (p ∷ []));
        metrics_eq =
            relative-relative m o x (metrics_after m all) (best_after all).0 best best-le facts.1;
        above = facts.1;
        held = stepped-held;
        no_bits = t.no_bits;
        no_byte = t.no_byte;
      }

      pub cleared-Tracks :
          Tracks m fec (record stepped { out_byte = 0; out_bits = 0 }) all (best_after all).0
      unfolding row_of
      cleared-Tracks = record {
        is_valid = t.is_valid;
        fec_eq = t.fec_eq;
        cap_eq = t.cap_eq;
        slots = stepped-Tracks.slots;
        are_rows = stepped-Tracks.are_rows;
        steps_eq = stepped-Tracks.steps_eq;
        metrics_eq = stepped-Tracks.metrics_eq;
        above = facts.1;
        held = λ n le_steps le_cap. record { before = (stepped-held n le_steps le_cap).before };
        no_bits = refl;
        no_byte = refl;
      }

      due_eq : is_due s.fec (s.steps + 1) ≡ is_due fec (s.steps + 1)
      due_eq = ap (λ f. is_due f (s.steps + 1)) t.fec_eq

      -- The rest of the step, without a byte and with one.
      pub advance-not_due :
          (out : List ℕ)
          → is_due fec (s.steps + 1) ≡ false
          → advance m
              (relative m (metrics_after m all) best)
              (m.subtract (best_after all).0 best, (best_after all).1)
              (keep_row m (pair_costs m.add m.zero_metric p) s, out)
            ≡ (stepped, out)
      unfolding advance keep_row
      advance-not_due out early = rw (due_eq ∙ early) refl

      bits : List ℕ
      bits = trace stepped (traceback_bits s.fec + 7) 0 (best_after all).1 []

      fec-pos : 0 < traceback_bits s.fec
      fec-pos = traceback_bits-pos s.fec

      length-bits : length bits ≡ 8
      unfolding bits
      length-bits =
          length-trace stepped (traceback_bits s.fec - 1) (traceback_bits s.fec + 7) 0
            (best_after all).1 (omega (arith, fec-pos)) (omega arith)

      bits_eq : is_due fec (s.steps + 1) ≡ true → pack_byte m bits 8 0 ≡ byte_after fec all
      unfolding bits decode_pairs
      bits_eq due =
          let (later, e) =
            trace-traceback m stepped (traceback_bits s.fec - 1) (traceback_bits s.fec + 7) 0
              (best_after all).1 [] (rows_after m all) (omega (arith, fec-pos)) (omega arith)
              (omega (arith, facts.4, length-metrics_after m all)) enough
              (stepped-held (traceback_bits s.fec + 7) (omega (arith, old_enough))
                (omega (arith, t.cap_eq, same_bits))) in
          sym (
            ap
              (λ n. pack_byte m (drop n (traceback m (rows_after m all) (best_after all).1 [])) 8 0)
              (omega (arith, same_bits, length-rows_after m all))
            ∙ ap (λ l. pack_byte m l 8 0) e
            ∙ pack_byte-append m 8 0 bits later length-bits)
        where
          same_bits : traceback_bits s.fec ≡ traceback_bits fec
          same_bits = ap traceback_bits t.fec_eq

          old_enough : traceback_bits s.fec + 8 ≤ s.steps + 1
          old_enough = ground (arith, due_eq)

          enough : traceback_bits s.fec + 7 < length (rows_after m all)
          enough =
              omega (
                arith,
                old_enough,
                length-rows_after m all,
                t.steps_eq,
                length-append done (p ∷ []),
              )

      pub advance-due :
          (out : List ℕ)
          → is_due fec (s.steps + 1) ≡ true
          → advance m
              (relative m (metrics_after m all) best)
              (m.subtract (best_after all).0 best, (best_after all).1)
              (keep_row m (pair_costs m.add m.zero_metric p) s, out)
            ≡ (record stepped { out_byte = 0; out_bits = 0 }, out ++ (byte_after fec all ∷ []))
      unfolding advance keep_row bits
      advance-due out due = rw (due_eq ∙ due) (
          emit_bits-pack_byte m 7 bits stepped out length-bits (omega (arith, t.no_bits))
          ∙ ap (λ b. (record stepped { out_byte = 0; out_bits = 0 }, out ++ (b ∷ [])))
              (ap (λ z. pack_byte m bits 8 z) t.no_byte ∙ bits_eq due))
