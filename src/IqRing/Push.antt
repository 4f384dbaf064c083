-- ===== src/IqRing/Push.antt =====
-- What `live_iq_ring_push` leaves in the ring.
use native.Mathlib.Nat.{mod-lt}
use native.Mathlib.Numerals.{add-one}
use dvbt_rx.Base.{
  drop_append_left, drop_append_right, drop_all, ℕ, zero, suc, ◌+◌, ◌-◌, ◌%◌, ◌<◌, ◌≤◌, ◌≡◌, refl,
  sym, ap, ◌∙◌, arith, true, false, ltb, ltb→lt, not-ltb→le, subst, ◌==◌, ◌||◌, List, [], ◌∷◌, ◌++◌,
  append-nil, append_assoc, length, length-append, length-drop, length-set, set, length-replicate,
  drop, inl, inr, Bool-cases, ring_from, length-ring_from, ring_from-set, ring_from-drop,
}
use dvbt_rx.IqRing.{
  IqRing, u64, capacity_for, start, trim, make_room, write, note_fill, push_round, push_loop, push,
}

pub record IsValid {A : Type 0} (r : IqRing A) : Type 0 where
  pub some_room : 0 < r.cap
  pub storage : length r.items ≡ r.cap
  pub head_in : r.head < r.cap
  pub count_in : r.count ≤ r.cap
  pub lost_in : r.overrun_samples < u64

module _ {A : Type 0} (d : A) where
  -- The samples in the ring, oldest first.
  abbrev pub contents : IqRing A → List A
  contents r = ring_from d r.cap r.items r.head r.count

  -- A ring with these samples that has lost so many, as it was but for its fill.
  pub record Holds (r : IqRing A) (samples : List A) (lost : ℕ) (r' : IqRing A) : Type 0 where
    pub valid : IsValid r'
    pub contents_eq : contents r' ≡ samples
    pub lost_eq : r'.overrun_samples ≡ lost
    pub cap_eq : r'.cap ≡ r.cap
    pub eof_eq : r'.eof ≡ r.eof
    pub started_eq : r'.started ≡ r.started

  write-Holds :
      (samples : List A) (r : IqRing A)
      → IsValid r
      → r.count + length samples ≤ r.cap
      → Holds r (contents r ++ samples) r.overrun_samples (write samples r)
  unfolding write
  write-Holds [] r v le = record {
    valid = v;
    contents_eq = sym (append-nil (contents r));
    lost_eq = refl;
    cap_eq = refl;
    eof_eq = refl;
    started_eq = refl;
  }
  write-Holds (x ∷ samples) r v le =
      let h = write-Holds samples r₁ valid₁ (omega arith) in
      record {
        valid = h.valid;
        contents_eq =
            h.contents_eq
            ∙ ap (λ l. l ++ samples) one_more
            ∙ append_assoc (contents r) (x ∷ []) samples;
        lost_eq = h.lost_eq;
        cap_eq = h.cap_eq;
        eof_eq = h.eof_eq;
        started_eq = h.started_eq;
      }
    where
      r₁ : IqRing A
      r₁ = record r { items = set r.items ((r.head + r.count) % r.cap) x; count = r.count + 1 }

      valid₁ : IsValid r₁
      valid₁ = record {
        some_room = v.some_room;
        storage = length-set r.items ((r.head + r.count) % r.cap) x ∙ v.storage;
        head_in = v.head_in;
        count_in = omega arith;
        lost_in = v.lost_in;
      }

      one_more : contents r₁ ≡ contents r ++ (x ∷ [])
      one_more =
          ap (λ k. ring_from d r.cap (set r.items ((r.head + r.count) % r.cap) x) r.head k)
            (add-one r.count)
          ∙ ring_from-set d r.cap r.count r.items r.head ((r.head + r.count) % r.cap) x v.storage
              v.head_in (omega arith) refl

  make_room-Holds :
      (n : ℕ) (r : IqRing A)
      → IsValid r
      → n ≤ r.cap
      → Holds r
          (drop (r.count + n - r.cap) (contents r))
          ((r.overrun_samples + (r.count + n - r.cap)) % u64)
          (make_room n r)
  unfolding make_room
  make_room-Holds n r v le = elim (Bool-cases (ltb (r.cap - r.count) n)) [
    | inl full ↦ rw full (record {
      valid = record {
        some_room = v.some_room;
        storage = v.storage;
        head_in = mod-lt (r.head + (n - (r.cap - r.count))) v.some_room;
        count_in = omega (arith, v.count_in);
        lost_in = omega arith;
      };
      contents_eq =
          ring_from-drop d r.cap (n - (r.cap - r.count)) r.items r.head r.count v.head_in
            (omega (arith, v.count_in))
          ∙ ap (λ k. drop k (contents r)) (dropped full);
      lost_eq = ap (λ k. (r.overrun_samples + k) % u64) (dropped full);
      cap_eq = refl;
      eof_eq = refl;
      started_eq = refl;
    })
    | inr free ↦ rw free (record {
      valid = v;
      contents_eq = ap (λ k. drop k (contents r)) (kept free);
      lost_eq = omega (arith, v.lost_in, kept free);
      cap_eq = refl;
      eof_eq = refl;
      started_eq = refl;
    })
  ]
    where
      dropped : ltb (r.cap - r.count) n ≡ true → n - (r.cap - r.count) ≡ r.count + n - r.cap
      dropped full = ground (arith, v.count_in)

      kept : ltb (r.cap - r.count) n ≡ false → 0 ≡ r.count + n - r.cap
      kept free = ground (arith, v.count_in)

  note_fill-Holds :
      (r r' : IqRing A) (samples : List A) (lost : ℕ)
      → Holds r samples lost r'
      → Holds r samples lost (note_fill r')
  unfolding note_fill
  note_fill-Holds r r' samples lost h = elim (Bool-cases (ltb r'.max_count r'.count)) [
    | inl more ↦ rw more (record {
      valid = record {
        some_room = h.valid.some_room;
        storage = h.valid.storage;
        head_in = h.valid.head_in;
        count_in = h.valid.count_in;
        lost_in = h.valid.lost_in;
      };
      contents_eq = h.contents_eq;
      lost_eq = h.lost_eq;
      cap_eq = h.cap_eq;
      eof_eq = h.eof_eq;
      started_eq = h.started_eq;
    })
    | inr less ↦ rw less h
  ]

  Holds-trans :
      (r r₁ r₂ : IqRing A) (xs ys : List A) (m n : ℕ)
      → Holds r xs m r₁
      → Holds r₁ ys n r₂
      → Holds r ys n r₂
  Holds-trans r r₁ r₂ xs ys m n h k = record {
    valid = k.valid;
    contents_eq = k.contents_eq;
    lost_eq = k.lost_eq;
    cap_eq = k.cap_eq ∙ h.cap_eq;
    eof_eq = k.eof_eq ∙ h.eof_eq;
    started_eq = k.started_eq ∙ h.started_eq;
  }

  length-contents : (r : IqRing A) → length (contents r) ≡ r.count
  length-contents r = length-ring_from d r.cap r.items r.head r.count

  put-Holds :
      (samples : List A) (r : IqRing A)
      → IsValid r
      → length samples ≤ r.cap
      → Holds r
          (drop (r.count + length samples - r.cap) (contents r) ++ samples)
          ((r.overrun_samples + (r.count + length samples - r.cap)) % u64)
          (note_fill (write samples (make_room (length samples) r)))
  put-Holds samples r v le = note_fill-Holds r (write samples r₁) _ _ (
      Holds-trans r r₁ (write samples r₁) _ _ _ _ room (
        subst
          (λ l.
            Holds r₁ (l ++ samples) ((r.overrun_samples + (r.count + length samples - r.cap)) % u64)
              (write samples r₁))
          room.contents_eq
          (subst (λ n. Holds r₁ (contents r₁ ++ samples) n (write samples r₁)) room.lost_eq
            (write-Holds samples r₁ room.valid fits))))
    where
      r₁ : IqRing A
      r₁ = make_room (length samples) r

      room :
          Holds r
            (drop (r.count + length samples - r.cap) (contents r))
            ((r.overrun_samples + (r.count + length samples - r.cap)) % u64)
            r₁
      room = make_room-Holds (length samples) r v le

      fits : r₁.count + length samples ≤ r₁.cap
      fits = omega (
        arith,
        length-contents r₁,
        ap length room.contents_eq,
        length-drop (r.count + length samples - r.cap) (contents r),
        length-contents r,
        room.cap_eq,
        v.count_in,
      )

  -- What is lost of the samples in the ring and the new ones after them.
  abbrev pub excess : IqRing A → List A → ℕ
  excess r samples = length (contents r ++ samples) - r.cap

  push_round-Holds :
      (samples : List A) (r : IqRing A)
      → IsValid r
      → ((push_round samples r).0 ≡ [])
        × Holds r
            (drop (excess r samples) (contents r ++ samples))
            ((r.overrun_samples + excess r samples) % u64)
            (push_round samples r).1
  unfolding push_round trim
  push_round-Holds samples r v = elim (Bool-cases (ltb r.cap (length samples))) [
    | inl over ↦
        let le = ltb→lt r.cap (length samples) over in
        let cut : ℕ = length samples - r.cap in
        let r₁ : IqRing A = record r { overrun_samples = (r.overrun_samples + cut) % u64 } in
        let len : length (drop cut samples) ≡ r.cap = omega (arith, length-drop cut samples) in
        let h =
          put-Holds (drop cut samples) r₁
            (record {
              some_room = v.some_room;
              storage = v.storage;
              head_in = v.head_in;
              count_in = v.count_in;
              lost_in = omega arith;
            })
            (omega (arith, len)) in
        rw over (
          drop_all (drop cut samples),
          record {
            valid = h.valid;
            contents_eq =
                h.contents_eq
                ∙ ap (λ l. l ++ drop cut samples)
                    (ap (λ k. drop k (contents r)) (omega (arith, len, length-contents r))
                      ∙ drop_all (contents r))
                ∙ sym (drop_append_right cut (contents r) samples)
                ∙ ap (λ k. drop k (contents r ++ samples))
                    (omega (arith, length-append (contents r) samples));
            lost_eq =
                h.lost_eq
                ∙ omega (arith, len, length-append (contents r) samples, length-contents r);
            cap_eq = h.cap_eq;
            eof_eq = h.eof_eq;
            started_eq = h.started_eq;
          },
        )
    | inr fits ↦
        let le = not-ltb→le r.cap (length samples) fits in
        let h = put-Holds samples r v le in
        let same : r.count + length samples - r.cap ≡ excess r samples =
          omega (arith, length-append (contents r) samples, length-contents r) in
        rw fits (
          drop_all samples,
          record {
            valid = h.valid;
            contents_eq =
                h.contents_eq
                ∙ ap (λ k. drop k (contents r) ++ samples) same
                ∙ sym (
                    drop_append_left (excess r samples) (contents r) samples
                      (omega (arith, same, length-contents r)));
            lost_eq = h.lost_eq ∙ ap (λ k. (r.overrun_samples + k) % u64) same;
            cap_eq = h.cap_eq;
            eof_eq = h.eof_eq;
            started_eq = h.started_eq;
          },
        )
  ]

  push_loop-nil : (n : ℕ) (r : IqRing A) → push_loop n [] r ≡ r
  unfolding push_loop
  push_loop-nil zero r = refl
  push_loop-nil (suc n) r = refl

  -- The ring keeps the newest samples, as many as it holds, and counts the others as lost.
  pub push-Holds :
      (samples : List A) (r : IqRing A)
      → IsValid r
      → Holds r
          (drop (excess r samples) (contents r ++ samples))
          ((r.overrun_samples + excess r samples) % u64)
          (push samples r)
  unfolding push push_loop
  push-Holds [] r v = rw not_empty (record {
    valid = v;
    contents_eq = sym (append-nil (contents r)) ∙ ap (λ k. drop k (contents r ++ [])) none_lost;
    lost_eq = omega (arith, none_lost, v.lost_in);
    cap_eq = refl;
    eof_eq = refl;
    started_eq = refl;
  })
    where
      not_empty : (length r.items == 0 || r.cap == 0) ≡ false
      not_empty = ground (arith, v.storage, v.some_room)

      none_lost : 0 ≡ excess r []
      none_lost = omega (arith, v.count_in, length-append (contents r) [], length-contents r)
  push-Holds (x ∷ samples) r v =
      let (all_taken, h) = push_round-Holds (x ∷ samples) r v in
      rw (not_empty, some_left, push_loop)
        (subst
          (Holds r (drop (excess r (x ∷ samples)) (contents r ++ (x ∷ samples)))
            ((r.overrun_samples + excess r (x ∷ samples)) % u64))
          (sym (
            ap (λ l. push_loop (length samples) l (push_round (x ∷ samples) r).1) all_taken
            ∙ push_loop-nil (length samples) (push_round (x ∷ samples) r).1))
          h)
    where
      not_empty : (length r.items == 0 || r.cap == 0) ≡ false
      not_empty = ground (arith, v.storage, v.some_room)

      some_left : (length (x ∷ samples) == 0) ≡ false
      some_left = ground arith

-- A ring that is started holds at least a chunk and 4096 samples.
capacity_for_lem :
    (chunk_samples : ℕ)
    → (chunk_samples + 4096 ≤ capacity_for chunk_samples) × (16384 ≤ capacity_for chunk_samples)
unfolding capacity_for
capacity_for_lem chunk_samples = ground arith

start-IsValid :
    {A : Type 0} (zero_item : A) (chunk_samples : ℕ) (r : IqRing A)
    → r.started ≡ false
    → IsValid (start zero_item chunk_samples true true r).1
unfolding start
start-IsValid zero_item chunk_samples r fresh = rw fresh (record {
  some_room = omega (arith, capacity_for_lem chunk_samples);
  storage = length-replicate (capacity_for chunk_samples) zero_item;
  head_in = omega (arith, capacity_for_lem chunk_samples);
  count_in = omega arith;
  lost_in = omega arith;
})
