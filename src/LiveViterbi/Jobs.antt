-- ===== src/LiveViterbi/Jobs.antt =====
-- Calls of the live decoder, the first from a new start and the later ones continuous.
use dvbt_rx.Base.{
  ℕ, zero, suc, ◌+◌, ◌-◌, ◌<◌, ◌≡◌, refl, sym, ap, ap₂, ◌∙◌, arith, Bool, true, false, not, ◌||◌,
  if◌then◌else◌, ◌==◌, ==_iff, List, [], ◌∷◌, ◌++◌, length, length-append, length-take,
  length-replicate, take, replicate, get_or, get_or-replicate, tabulate, some, none, subst, inl,
  inr, Bool-cases,
}
use dvbt_rx.Puncture.{Fec, Dibit, Pair, pair_count, depuncture}
use dvbt_rx.Puncture.RoundTrip.{length-depuncture}
use dvbt_rx.Viterbi.{Metric, relative, start_metrics, forward}
use dvbt_rx.Viterbi.Metrics.{IsOrdered, le_refl}
use dvbt_rx.LiveViterbi.{
  Stream, prepare, resized, started, same_fec, cost_table, run, decode_bytes, traceback_bits,
}
use dvbt_rx.LiveViterbi.Rows.{IsRow}
use dvbt_rx.LiveViterbi.Relative.{IsExact, AreAbove}
use dvbt_rx.LiveViterbi.Steps.{best_after}
use dvbt_rx.LiveViterbi.Agree.{byte_count, decided, IsFinite, IsAfter, run_sends}

-- Rows after `realloc` are old rows or new ones.
padded-IsRow :
    (n k : ℕ) (fresh : List ℕ) (rows : List (List ℕ)) (i : ℕ)
    → IsRow fresh
    → ((j : ℕ) → j < length rows → IsRow (get_or rows j []))
    → i < n
    → i < k
    → IsRow (get_or (take n (rows ++ replicate k fresh)) i [])
padded-IsRow zero k fresh rows i new old lt lt_k = absurd (omega arith)
padded-IsRow (suc n) zero fresh rows i new old lt lt_k = absurd (omega arith)
padded-IsRow (suc n) (suc k) fresh [] zero new old lt lt_k = new
padded-IsRow (suc n) (suc k) fresh [] (suc i) new old lt lt_k =
    padded-IsRow n k fresh [] i new old (omega arith) (omega arith)
padded-IsRow (suc n) (suc k) fresh (row ∷ rows) zero new old lt lt_k = old 0 (omega arith)
padded-IsRow (suc n) (suc k) fresh (row ∷ rows) (suc i) new old lt lt_k =
    padded-IsRow n (suc k) fresh rows i new (λ j h. old (suc j) (omega arith)) (omega arith)
      (omega arith)

same_fec_refl : (fec : Fec) → same_fec fec fec ≡ true
unfolding same_fec
same_fec_refl fec = ground arith

module _ {C : Type 0} (m : Metric C) where
  -- The ring is there, if only of no rows.
  pub record IsWell (s : Stream C) : Type 0 where
    pub slots : length s.history ≡ s.history_len
    pub are_rows : (i : ℕ) → i < s.history_len → IsRow (get_or s.history i [])

  -- What a call finds: a stream after the pairs `done`, or one that it prepares anew.
  abbrev pub Starts : Fec → Bool → Stream C → List (Pair C) → C → Type 0
  Starts fec true s done best = IsAfter m fec s done best
  Starts fec false s done best = IsWell s × (done ≡ []) × (best ≡ m.zero_metric)

  module _ (o : IsOrdered m) (x : IsExact m) where
    relative-replicate :
        (n : ℕ) → relative m (replicate n m.zero_metric) m.zero_metric ≡ replicate n m.zero_metric
    unfolding relative
    relative-replicate zero = refl
    relative-replicate (suc n) =
        ap (λ c. c ∷ relative m (replicate n m.zero_metric) m.zero_metric)
          (x.subtract_zero m.zero_metric)
        ∙ ap (λ l. m.zero_metric ∷ l) (relative-replicate n)

    start_above : AreAbove m m.zero_metric (start_metrics m none)
    unfolding start_metrics
    start_above = record {
      each = λ j lt. rw (get_or-replicate 64 j m.zero_metric) (le_refl m o m.zero_metric);
    }

    -- The ring of `prepare`.
    new_ring : (fresh : List ℕ) (cap : ℕ) (s : Stream C) → List (List ℕ)
    new_ring fresh cap s = if s.history_len == cap then s.history else resized cap fresh s.history

    new_ring-IsWell :
        (fresh : List ℕ) (cap : ℕ) (s : Stream C)
        → IsRow fresh
        → IsWell s
        → (length (new_ring fresh cap s) ≡ cap)
          × ((i : ℕ) → i < cap → IsRow (get_or (new_ring fresh cap s) i []))
    unfolding new_ring resized
    new_ring-IsWell fresh cap s new well = elim (Bool-cases (s.history_len == cap)) [
      | inl same ↦
          let e = (==_iff s.history_len cap).0 same in
          rw same (well.slots ∙ e, λ i lt. well.are_rows i (omega arith))
      | inr other ↦ rw other (
        omega (
          arith,
          length-take cap (s.history ++ replicate cap fresh),
          length-append s.history (replicate cap fresh),
          length-replicate cap fresh,
        ),
        λ i lt.
            padded-IsRow cap cap fresh s.history i new
              (λ j h. well.are_rows j (omega (arith, well.slots))) lt lt,
      )
    ]

    prepare-IsAfter :
        (fresh : List ℕ) (fec : Fec) (s : Stream C)
        → IsRow fresh
        → IsWell s
        → IsAfter m fec (prepare m.zero_metric fresh fec s) [] m.zero_metric
    unfolding prepare new_ring
    prepare-IsAfter fresh fec s new well = record {
      tracks = record {
        is_valid = refl;
        fec_eq = refl;
        cap_eq = refl;
        slots = (new_ring-IsWell fresh (traceback_bits fec + 8) s new well).0;
        are_rows = (new_ring-IsWell fresh (traceback_bits fec + 8) s new well).1;
        steps_eq = refl;
        metrics_eq = unfold forward start_metrics in sym (relative-replicate 64);
        above = unfold forward in start_above;
        held = λ n le_steps le_cap. record { before = λ i state lt below. absurd (omega arith) };
        no_bits = refl;
        no_byte = refl;
      };
      is_best = λ h. absurd (omega arith);
    }

    started-IsAfter :
        (fresh : List ℕ) (fec : Fec) (continuous : Bool) (s : Stream C) (done : List (Pair C))
        (best : C)
        → IsRow fresh
        → Starts fec continuous s done best
        → IsAfter m fec (started m fresh fec continuous s) done best
    unfolding started
    started-IsAfter fresh fec true s done best new a = rw going a
      where
        going : (not s.valid || not (same_fec s.fec fec)) ≡ false
        going =
            rw (a.tracks.is_valid, ap (λ f. same_fec f fec) a.tracks.fec_eq ∙ same_fec_refl fec)
              refl
    started-IsAfter fresh fec false s done best new (well, none_done, no_best) =
        subst (λ b. IsAfter m fec (prepare m.zero_metric fresh fec s) done b) (sym no_best)
          (subst (λ l. IsAfter m fec (prepare m.zero_metric fresh fec s) l m.zero_metric)
            (sym none_done) (prepare-IsAfter fresh fec s new well))

    -- On a metric with exact sums of costs that are not negative, while no metric of the job's
    -- decoder reaches the value that the search starts with, a call of
    -- live_viterbi_stream_decode_bytes on dibits with a pair among them succeeds: after the pairs of
    -- the calls before, continuous with it, each byte it gives out is the byte that
    -- dvbt_viterbi_decode_pairs decides from all pairs so far up to the depth of the traceback
    -- behind it, the bytes go on where those calls stopped, and the metric is the increase of the
    -- best metric of dvbt_viterbi_decode_pairs.
    pub decode_bytes-decided :
        (fresh : List ℕ) (fec : Fec) (dibits : List (Dibit C)) (continuous : Bool) (s : Stream C)
        (done : List (Pair C)) (best : C)
        → IsRow fresh
        → Starts fec continuous s done best
        → 0 < pair_count fec (length dibits)
        → IsFinite m (done ++ depuncture fec dibits)
        → (s' : Stream C) × (decode_bytes m fresh fec dibits continuous s ≡ (
          s',
          some (
            tabulate
                (decided m fec (done ++ depuncture fec dibits))
                (byte_count fec (length (done ++ depuncture fec dibits))
                  - byte_count fec (length done))
                (byte_count fec (length done)),
            m.subtract (best_after m (done ++ depuncture fec dibits)).0 best,
          ),
        ))
          × IsAfter m fec s'
              (done ++ depuncture fec dibits)
              (best_after m (done ++ depuncture fec dibits)).0
    unfolding decode_bytes cost_table tabulate
    decode_bytes-decided fresh fec dibits continuous s done best new starts some_pair finite =
        let (s', b, e, a) =
          run_sends m o x fec all finite (byte_count fec (length done)) best (depuncture fec dibits)
            done (started m fresh fec continuous s) best refl (omega arith) (le_refl m o best)
            (started-IsAfter fresh fec continuous s done best new starts) in
        let b_eq = a.is_best not_empty in
        (
          s',
          rw has_pairs (
              start_eq
              ∙ e
              ∙ ap
                  (λ b. (
                    s',
                    some (
                      tabulate (decided m fec all)
                          (byte_count fec (length all) - byte_count fec (length done))
                          (byte_count fec (length done)),
                      m.subtract b best,
                    ),
                  ))
                  b_eq),
          subst (IsAfter m fec s' all) b_eq a,
        )
      where
        all : List (Pair C)
        all = done ++ depuncture fec dibits

        not_empty : 0 < length all
        not_empty = omega (
          arith,
          length-append done (depuncture fec dibits),
          length-depuncture fec dibits some_pair,
        )

        has_pairs : (pair_count fec (length dibits) == 0) ≡ false
        has_pairs = ground arith

        no_bytes : byte_count fec (length done) - byte_count fec (length done) ≡ 0
        no_bytes = omega arith

        start_eq :
            run m (cost_table m fec dibits) (started m fresh fec continuous s, []) m.zero_metric
            ≡ run m
                (cost_table m fec dibits)
                (
                  started m fresh fec continuous s,
                  tabulate
                      (decided m fec all)
                      (byte_count fec (length done) - byte_count fec (length done))
                      (byte_count fec (length done)),
                )
                (m.subtract best best)
        start_eq =
            ap₂ (λ l c. run m (cost_table m fec dibits) (started m fresh fec continuous s, l) c)
              (ap (λ k. tabulate (decided m fec all) k (byte_count fec (length done)))
                (sym no_bytes))
              (sym (x.subtract_self best))
