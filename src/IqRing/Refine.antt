-- ===== src/IqRing/Refine.antt =====
-- The ring of IQ samples against the window of the newest samples.
use native.Mathlib.Nat.{mod-lt}
use dvbt_rx.Base.{
  ℕ, zero, suc, ◌+◌, ◌-◌, ◌%◌, ◌≤◌, ◌≡◌, refl, sym, ap, ap₂, ◌∙◌, arith, Bool, true, false, not,
  ◌&&◌, if◌then◌else◌, ltb, ◌==◌, List, [], ◌∷◌, length, take, drop, get_or, none, some, inl, inr,
  Bool-cases, ring_from, length-ring_from, ring_from_pos, not-==_ne, ==_iff, take-nil,
}
use dvbt_rx.IqRing.{IqRing, u64, push, take_samples, read}
use dvbt_rx.IqRing.Window
use dvbt_rx.IqRing.Window.{Window, Call, brings, wants, ends, Reply}
use dvbt_rx.IqRing.Push.{IsValid, contents, push-Holds}

module _ {A : Type 0} (d : A) where
  abbrev pub window : IqRing A → Window A
  window r = record { waiting = contents d r; lost = r.overrun_samples; ended = r.eof }

  -- A ring from which `n` samples have been taken.
  record Taken (n : ℕ) (r r' : IqRing A) : Type 0 where
    valid : IsValid r'
    rest : contents d r' ≡ drop n (contents d r)
    cap_eq : r'.cap ≡ r.cap
    lost_eq : r'.overrun_samples ≡ r.overrun_samples
    eof_eq : r'.eof ≡ r.eof

  take_samples-Taken :
      (n : ℕ) (r : IqRing A)
      → IsValid r
      → ((take_samples d n r).0 ≡ take n (contents d r)) × Taken n r (take_samples d n r).1
  unfolding take_samples
  take_samples-Taken zero r v =
      (refl, record { valid = v; rest = refl; cap_eq = refl; lost_eq = refl; eof_eq = refl })
  take_samples-Taken (suc n) r v = elim (Bool-cases (r.count == 0)) [
    | inl none_left ↦
        let empty : contents d r ≡ [] =
          ap (ring_from d r.cap r.items r.head) ((==_iff r.count 0).0 none_left) in
        rw none_left (
          sym (ap (take (suc n)) empty),
          record {
            valid = v;
            rest = empty ∙ sym (ap (drop (suc n)) empty);
            cap_eq = refl;
            lost_eq = refl;
            eof_eq = refl;
          },
        )
    | inr some_left ↦
        let first = ring_from_pos d r.cap r.items r.head r.count (not-==_ne r.count 0 some_left) in
        let (out_eq, t) =
          take_samples-Taken n (record r { head = (r.head + 1) % r.cap; count = r.count - 1 })
            (record {
              some_room = v.some_room;
              storage = v.storage;
              head_in = mod-lt (r.head + 1) v.some_room;
              count_in = omega (arith, v.count_in);
              lost_in = v.lost_in;
            }) in
        rw (some_left, take_samples)
          (
            ap (λ l. get_or r.items r.head d ∷ l) out_eq ∙ sym (ap (take (suc n)) first),
            record {
              valid = t.valid;
              rest = t.rest ∙ sym (ap (drop (suc n)) first);
              cap_eq = t.cap_eq;
              lost_eq = t.lost_eq;
              eof_eq = t.eof_eq;
            },
          )
  ]

  take_over : (n : ℕ) (xs : List A) → length xs ≤ n → take n xs ≡ take (length xs) xs
  take_over n [] le = take-nil n
  take_over zero (x ∷ xs) le = absurd (omega arith)
  take_over (suc n) (x ∷ xs) le = ap (λ l. x ∷ l) (take_over n xs (omega arith))

  drop_over : (n : ℕ) (xs : List A) → length xs ≤ n → drop n xs ≡ drop (length xs) xs
  drop_over zero [] le = refl
  drop_over (suc n) [] le = refl
  drop_over zero (x ∷ xs) le = absurd (omega arith)
  drop_over (suc n) (x ∷ xs) le = drop_over n xs (omega arith)

  module _ (want lost_before : ℕ) (r : IqRing A) (v : IsValid r) where
    -- What a read that takes `n` samples comes to, on the ring and on the window.
    abbrev taken : ℕ → Reply A × IqRing A
    taken n = (
      some (
        (take_samples d n r).0,
        ((take_samples d n r).1.overrun_samples + u64 - lost_before) % u64,
      ),
      (take_samples d n r).1,
    )

    abbrev wanted : Reply A × Window A
    wanted = (
      some (take want (contents d r), (r.overrun_samples + u64 - lost_before) % u64),
      record { waiting = drop want (contents d r); lost = r.overrun_samples; ended = r.eof },
    )

    taken_refines :
        (n : ℕ)
        → take n (contents d r) ≡ take want (contents d r)
        → drop n (contents d r) ≡ drop want (contents d r)
        → (((taken n).0, window (taken n).1) ≡ wanted)
          × IsValid (taken n).1
          × ((taken n).1.cap ≡ r.cap)
    taken_refines n same_taken same_left =
        let (out_eq, t) = take_samples-Taken n r v in
        (
          ap₂ {A = List A} {B = Window A} {C = Reply A × Window A}
              (λ out w. (some (out, (w.lost + u64 - lost_before) % u64), w)) (out_eq ∙ same_taken)
              (cc (t.rest ∙ same_left, t.lost_eq, t.eof_eq)),
          t.valid,
          t.cap_eq,
        )

    read_cases :
        (few ended : Bool)
        → few ≡ ltb r.count want
        → let n = if few && ended then r.count else want in
          let result = if few && not ended then (none, r) else taken n in
          ((result.0, window result.1) ≡ (if few && not ended then (none, window r) else wanted))
          × IsValid result.1
          × (result.1.cap ≡ r.cap)
    read_cases true true few =
        let short : length (contents d r) ≤ want =
          ground (arith, length-ring_from d r.cap r.items r.head r.count) in
        let len = length-ring_from d r.cap r.items r.head r.count in
        taken_refines r.count
          (ap (λ k. take k (contents d r)) (sym len) ∙ sym (take_over want (contents d r) short))
          (ap (λ k. drop k (contents d r)) (sym len) ∙ sym (drop_over want (contents d r) short))
    read_cases true false few = (refl, v, refl)
    read_cases false ended few = taken_refines want refl refl

    pub read_refines :
        let (reply, r') = read d want lost_before r in
        ((reply, window r') ≡ Window.read want lost_before (window r))
        × IsValid r'
        × (r'.cap ≡ r.cap)
    unfolding read Window.read
    read_refines =
        rw (length-ring_from d r.cap r.items r.head r.count)
          (read_cases (ltb r.count want) r.eof refl)

  unfoldable pub step : Call A → IqRing A → Reply A × IqRing A
  step (brings samples) r = (none, push samples r)
  step (wants want lost_before) r = read d want lost_before r
  step ends r = (none, record r { eof = true })

  unfoldable pub run : List (Call A) → IqRing A → List (Reply A)
  unfolding step
  run [] r = []
  run (c ∷ cs) r = let (reply, r') = step c r in reply ∷ run cs r'

  step_refines :
      (c : Call A) (r : IqRing A)
      → IsValid r
      → let (reply, r') = step c r in
        ((reply, window r') ≡ Window.step r.cap c (window r)) × IsValid r' × (r'.cap ≡ r.cap)
  unfolding step Window.step Window.push
  step_refines (brings samples) r v =
      let h = push-Holds d samples r v in
      (ap (λ w. (none, w)) (cc (h.contents_eq, h.lost_eq, h.eof_eq)), h.valid, h.cap_eq)
  step_refines (wants want lost_before) r v = read_refines want lost_before r v
  step_refines ends r v = (
    refl,
    record {
      some_room = v.some_room;
      storage = v.storage;
      head_in = v.head_in;
      count_in = v.count_in;
      lost_in = v.lost_in;
    },
    refl,
  )

  -- No sequence of pushes, reads and the end of the input tells a valid ring of IQ samples from the
  -- window of the newest samples, as many as the ring has slots: a read sleeps while too few are
  -- there and the input has not ended, and otherwise gives the oldest of them, in their order, with
  -- the number of samples lost since it began.
  pub run-Window :
      (cs : List (Call A)) (r : IqRing A) → IsValid r → run cs r ≡ Window.run r.cap cs (window r)
  unfolding run Window.run
  run-Window [] r v = refl
  run-Window (c ∷ cs) r v =
      let (same, valid, cap_eq) = step_refines c r v in
      ap₂ ◌∷◌ (ap (λ p. p.0) same) (
        run-Window cs (step c r).1 valid
        ∙ ap₂ (λ n w. Window.run n cs w) cap_eq (ap (λ p. p.1) same))
