-- ===== src/Outer/Blocks.antt =====
-- The bytes that are processed go through the deinterleaver and are decoded in consecutive blocks,
-- however they are cut into jobs.
use dvbt_rx.Base.{take-append, drop-append}
use dvbt_rx.Base.{
  ℕ, zero, suc, ◌+◌, ◌-◌, ◌*◌, ◌/◌, ◌%◌, ◌≤◌, ◌<◌, ◌≡◌, arith, refl, sym, ap, ◌∙◌, true, false, inl,
  inr, List, [], ◌∷◌, ◌++◌, take, drop, length, length-append, ltb, Option, none, some, ◌>>=◌,
}
use dvbt_rx.Base.{Bool-cases, append_assoc, ltb→lt}
use dvbt_rx.Deinterleaver.{run, step}
use dvbt_rx.Outer.{Tally, Receiver, note_block, push_deint_byte, deinterleave, process_bytes}

>>=-assoc :
    {A B C : Type 0} (m : Option A) (f : A → Option B) (g : B → Option C)
    → (m >>= f >>= g) ≡ (m >>= λ a. (f a >>= g))
>>=-assoc none f g = refl
>>=-assoc (some a) f g = refl

>>=-ext :
    {A B : Type 0} (m : Option A) (f g : A → Option B)
    → ((a : A) → f a ≡ g a)
    → (m >>= f) ≡ (m >>= g)
>>=-ext none f g same = refl
>>=-ext (some a) f g same = same a

-- Two more steps behind a result, when together they do what a third does.
>>=-chain :
    {A B C D : Type 0} (m : Option A) (h : A → B) (f : B → Option C) (g : C → Option D)
    (q : A → Option D)
    → ((a : A) → (f (h a) >>= g) ≡ q a)
    → (m >>= (λ a. some (h a)) >>= f >>= g) ≡ (m >>= q)
>>=-chain none h f g q same = refl
>>=-chain (some a) h f g q same = same a

length-snoc : {A : Type 0} (xs : List A) (x : A) → length (xs ++ (x ∷ [])) ≡ length xs + 1
length-snoc xs x = length-append xs (x ∷ [])

-- The bytes of all jobs.
abbrev pub concat : List (List ℕ) → List ℕ
concat [] = []
concat (job ∷ jobs) = job ++ concat jobs

-- The counts and what lies behind.
abbrev pub view : {S : Type 0} → Receiver S → Tally × S
view r = (r.tally, r.out)

module _ {S : Type 0} (consume : S → ℕ → List ℕ → Option S) (note_bad : S → S)
    (scramble : List ℕ) where
  -- Bytes that come in two jobs are processed like those that come in one.
  process_bytes-append :
      (r : Receiver S) (xs ys : List ℕ)
      → process_bytes consume note_bad scramble 0 r (xs ++ ys) ≡ (
          process_bytes consume note_bad scramble 0 r xs >>= λ r'.
          process_bytes consume note_bad scramble 0 r' ys)
  unfolding process_bytes
  process_bytes-append r [] ys = refl
  process_bytes-append r (x ∷ xs) ys =
      let r' = (deinterleave r x).1 in
      let pushed = push_deint_byte consume note_bad scramble r' (deinterleave r x).0 in
      >>=-ext pushed _ _ (λ r''. process_bytes-append r'' xs ys) ∙ sym (>>=-assoc pushed _ _)

  -- `n` consecutive blocks of 204 bytes, the first at a block phase.
  pub blocks : ℕ → ℕ → Tally × S → List ℕ → Option (Tally × S)
  blocks zero phase t bytes = some t
  blocks (suc n) phase t bytes =
      note_block consume note_bad scramble phase (take 204 bytes) t >>= λ t'.
      blocks n ((phase + 1) % 8) t' (drop 204 bytes)

  -- The receiver behind a block.
  next_block : Receiver S → Tally × S → Receiver S
  next_block r (tally, out) = record {
    live = record r.live {
      rs_block = [];
      rs_blocks = r.live.rs_blocks + 1;
      block_phase = (r.live.block_phase + 1) % 8;
    };
    tally = tally;
    out = out;
  }

  push-short :
      (r : Receiver S) (byte : ℕ)
      → ltb (length (r.live.rs_block ++ (byte ∷ []))) 204 ≡ true
      → push_deint_byte consume note_bad scramble r byte
        ≡ some (record r { live = record r.live { rs_block = r.live.rs_block ++ (byte ∷ []) } })
  unfolding push_deint_byte
  push-short r byte short = rw (short) refl

  push-full :
      (r : Receiver S) (byte : ℕ)
      → ltb (length (r.live.rs_block ++ (byte ∷ []))) 204 ≡ false
      → push_deint_byte consume note_bad scramble r byte ≡ (
          note_block consume note_bad scramble r.live.block_phase
            (r.live.rs_block ++ (byte ∷ []))
            (view r)
          >>= λ t. some (next_block r t))
  unfolding push_deint_byte next_block
  push-full r byte full = rw (full) refl

  blocks-append :
      (n phase : ℕ) (t : Tally × S) (block rest : List ℕ)
      → length block ≡ 204
      → blocks (suc n) phase t (block ++ rest) ≡ (
          note_block consume note_bad scramble phase block t >>= λ t'.
          blocks n ((phase + 1) % 8) t' rest)
  unfolding blocks
  blocks-append n phase t block rest size =
      rw (take-append 204 block rest size, drop-append 204 block rest size) refl

  -- The bytes collected, then those that the deinterleaver is to give out.
  unfoldable pub to_come : ℕ → Receiver S → List ℕ → List ℕ
  to_come k r xs = r.live.rs_block ++ run k r.live.deinterleaver xs

  to_come-deinterleave :
      (k : ℕ) (r : Receiver S) (x : ℕ) (xs : List ℕ)
      → r.live.branch ≡ k % 12
      → let (byte, r') = deinterleave r x in
        (r.live.rs_block ++ (byte ∷ [])) ++ run (k + 1) r'.live.deinterleaver xs
        ≡ to_come k r (x ∷ xs)
  unfolding to_come deinterleave run
  to_come-deinterleave k r x xs at =
      append_assoc r.live.rs_block _ _
      ∙ ap
          (λ j.
            r.live.rs_block
            ++ ((step r.live.deinterleaver j x).0
                ∷ run (k + 1) (step r.live.deinterleaver j x).1 xs))
          at

  -- The run over the bytes, seen from outside.
  unfoldable pub seen : Receiver S → List ℕ → Option (Tally × S)
  seen r xs = process_bytes consume note_bad scramble 0 r xs >>= λ r'. some (view r')

  pub process_bytes-blocks :
      (xs : List ℕ) (n k : ℕ) (r : Receiver S)
      → length r.live.rs_block < 204
      → 204 * n ≤ length r.live.rs_block + length xs
      → length r.live.rs_block + length xs < 204 * n + 204
      → r.live.branch ≡ k % 12
      → seen r xs ≡ blocks n r.live.block_phase (view r) (to_come k r xs)
  unfolding seen process_bytes deinterleave to_come blocks next_block
  process_bytes-blocks [] zero k r short low high at = refl
  process_bytes-blocks [] (suc n) k r short low high at = absurd (omega arith)
  process_bytes-blocks (x ∷ xs) n k r short low high at =
      elim (Bool-cases (ltb (length (r.live.rs_block ++ (byte ∷ []))) 204)) [
        | inl more ↦
            ap
              (λ m. m >>= (λ r''. process_bytes consume note_bad scramble 0 r'' xs) >>= λ r''.
                some (view r''))
              (push-short r' byte more)
            ∙ process_bytes-blocks xs n (k + 1)
                (record r' { live = record r'.live { rs_block = r.live.rs_block ++ (byte ∷ []) } })
                (omega (arith, grown, (ltb→lt _ _ more))) (omega (arith, grown, low))
                (omega (arith, grown, high)) next_branch
            ∙ ap (blocks n r.live.block_phase (view r)) (to_come-deinterleave k r x xs at)
        | inr full ↦
            let size = full_size full in
            ap
              (λ m. m >>= (λ r''. process_bytes consume note_bad scramble 0 r'' xs) >>= λ r''.
                some (view r''))
              (push-full r' byte full)
            ∙ >>=-chain (note_block consume note_bad scramble r.live.block_phase block (view r)) _ _
                _ _
                (λ t.
                  process_bytes-blocks xs (n - 1) (k + 1) (next_block r' t) (omega arith)
                    (omega (arith, grown, low, size)) (omega (arith, grown, high, size))
                    next_branch)
            ∙ sym (blocks-append (n - 1) r.live.block_phase (view r) block _ size)
            ∙ ap
                (λ m.
                  blocks m r.live.block_phase (view r)
                    (block ++ run (k + 1) r'.live.deinterleaver xs))
                (suc_pred size)
            ∙ ap (blocks n r.live.block_phase (view r)) (to_come-deinterleave k r x xs at)
      ]
    where
      byte : ℕ
      byte = (deinterleave r x).0

      r' : Receiver S
      r' = (deinterleave r x).1

      block : List ℕ
      block = r.live.rs_block ++ (byte ∷ [])

      grown : length block ≡ length r.live.rs_block + 1
      grown = length-snoc r.live.rs_block byte

      full_size : ltb (length block) 204 ≡ false → length block ≡ 204
      full_size full = ground (arith, grown)

      suc_pred : length block ≡ 204 → suc (n - 1) ≡ n
      suc_pred size = omega (arith, grown)

      next_branch : (r.live.branch + 1) % 12 ≡ (k + 1) % 12
      next_branch = omega arith

  -- The jobs of `live_grdvbt_outer_process_bytes` one after the other, in a reception that goes on.
  abbrev pub process_jobs : Receiver S → List (List ℕ) → Option (Receiver S)
  process_jobs r [] = some r
  process_jobs r (job ∷ jobs) =
      process_bytes consume note_bad scramble 0 r job >>= λ r'. process_jobs r' jobs

  process_jobs-concat :
      (jobs : List (List ℕ)) (r : Receiver S)
      → process_jobs r jobs ≡ process_bytes consume note_bad scramble 0 r (concat jobs)
  unfolding process_bytes
  process_jobs-concat [] r = refl
  process_jobs-concat (job ∷ jobs) r =
      >>=-ext (process_bytes consume note_bad scramble 0 r job) _ _
        (λ r'. process_jobs-concat jobs r')
      ∙ sym (process_bytes-append r job (concat jobs))

  -- In a reception that goes on, however the bytes of the inner receiver are cut into jobs,
  -- live_grdvbt_outer_process_bytes decodes the whole blocks of 204 bytes of the bytes collected
  -- before and then of those that outer_deinterleaver_step gives for the bytes of the jobs, one step
  -- a byte from the next branch on; the first block is at the block phase of the receiver, each later
  -- one at the next modulo 8, and the counts and the output are those of these blocks.
  pub process_jobs-blocks :
      (r : Receiver S) (jobs : List (List ℕ))
      → length r.live.rs_block < 204
      → r.live.branch < 12
      → (process_jobs r jobs >>= λ r'. some (view r'))
        ≡ blocks
            ((length r.live.rs_block + length (concat jobs)) / 204)
            r.live.block_phase
            (view r)
            (r.live.rs_block ++ run r.live.branch r.live.deinterleaver (concat jobs))
  unfolding seen to_come
  process_jobs-blocks r jobs short branch_in =
      ap (λ m. m >>= λ r'. some (view r')) (process_jobs-concat jobs r)
      ∙ process_bytes-blocks (concat jobs) ((length r.live.rs_block + length (concat jobs)) / 204)
          r.live.branch r short (omega arith) (omega arith) (omega arith)
