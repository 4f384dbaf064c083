-- ===== src/OuterStream/Refine.antt =====
-- The blocks that `live_outer_stream_pop_rs` reads from the buffer are those that the row-by-row
-- deinterleaver makes of the same bytes.
use dvbt_rx.Base.{ℕ, zero, suc, ◌+◌, ◌-◌, ◌*◌, ◌%◌, ◌≤◌, ◌<◌, ◌≡◌, ◌∙◌, refl, sym, ap, arith}
use dvbt_rx.Base.{true, false, List, some, length, get_or, drop, ltb}
use dvbt_rx.Base.{le→not-ltb}
use dvbt_rx.Buffer.{consume}
use dvbt_rx.OuterStream.{OuterStream, delay, gather, pop_rs}
use dvbt_rx.Deinterleaver.{deinterleave_phase}
use dvbt_rx.Deinterleaver.State.{branch_len, delayed}
use dvbt_rx.Deinterleaver.Delay.{stream_from, deinterleave_phase-delayed}

delay-branch_len : (i : ℕ) → delay i ≡ branch_len (i % 12)
unfolding delay
delay-branch_len i = omega arith

-- Past the first 2244 bytes the source of every byte lies in the buffer.
gather_reads-lt : (i : ℕ) → (delay i * 12 ≤ 2244 + i) × (2244 + i - delay i * 12 ≤ 2244 + i)
gather_reads-lt i = omega (arith, delay-branch_len i)

gather-delayed :
    (bytes : List ℕ) (n i : ℕ)
    → (k : ℕ) → k < n
    → get_or (gather bytes n i) k 0 ≡ delayed (stream_from bytes 0) (2244 + (i + k))
unfolding gather
gather-delayed bytes zero i k h = absurd (omega arith)
gather-delayed bytes (suc n) i zero h =
    ap (λ t. get_or bytes t 0) (index (delay-branch_len i)) ∙ ground arith
  where
    index :
        delay i ≡ branch_len (i % 12)
        → 2244 + i - delay i * 12 ≡ 0 + (2244 + (i + 0) - 12 * branch_len ((2244 + (i + 0)) % 12))
    index e = omega arith
gather-delayed bytes (suc n) i (suc k) h =
    gather-delayed bytes n (i + 1) k (omega arith)
    ∙ ap (λ t. delayed (stream_from bytes 0) (2244 + t)) (omega arith)

length-gather : (bytes : List ℕ) (n i : ℕ) → length (gather bytes n i) ≡ n
unfolding gather
length-gather bytes zero i = refl
length-gather bytes (suc n) i = ap suc (length-gather bytes n (i + 1))

pop_rs-ready :
    (s : OuterStream)
    → s.valid ≡ true
    → ltb (length s.buffer.bytes) 2448 ≡ false
    → pop_rs s
      ≡ some (
        gather s.buffer.bytes 204 0,
        record s { buffer = consume s.buffer 204; stream_byte_offset = s.stream_byte_offset + 204 },
      )
unfolding pop_rs
pop_rs-ready s v h = rw (v, h) refl

-- A valid stream with 2448 bytes gives a block of 204: the bytes from index 2244 on of what the
-- deinterleaver makes of the whole buffer at phase 0. The buffer then loses its first 204 bytes.
pub pop_rs-deinterleave_phase :
    (s : OuterStream)
    → s.valid ≡ true
    → 2448 ≤ length s.buffer.bytes
    → (out : List ℕ) × (block : List ℕ) × (s' : OuterStream) × (deinterleave_phase s.buffer.bytes 0
        ≡ some out)
      × (pop_rs s ≡ some (block, s'))
      × (length block ≡ 204)
      × ((k : ℕ) → k < 204 → get_or block k 0 ≡ get_or out (2244 + k) 0)
      × (s'.buffer.bytes ≡ drop 204 s.buffer.bytes)
unfolding consume
pop_rs-deinterleave_phase s v h =
    let (out, made, len, at_out) =
      deinterleave_phase-delayed s.buffer.bytes 0 (omega arith) (omega arith) in
    (
      out,
      gather s.buffer.bytes 204 0,
      record s { buffer = consume s.buffer 204; stream_byte_offset = s.stream_byte_offset + 204 },
      made,
      pop_rs-ready s v (le→not-ltb (length s.buffer.bytes) 2448 h),
      length-gather s.buffer.bytes 204 0,
      λ k p.
          gather-delayed s.buffer.bytes 204 0 k p
          ∙ ap (λ t. delayed (stream_from s.buffer.bytes 0) t) (omega arith)
          ∙ sym (at_out (2244 + k) (omega arith)),
      refl,
    )
