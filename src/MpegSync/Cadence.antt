-- ===== src/MpegSync/Cadence.antt =====
-- A synchronized stream is cut into packets of 204 bytes, and its phase counts them modulo 8.
use dvbt_rx.Base.{ℕ, zero, suc, ◌+◌, ◌*◌, ◌%◌, ◌≤◌, ◌<◌, ◌≡◌, ◌∙◌, refl, ap, arith}
use dvbt_rx.Base.{
  true, List, [], ◌++◌, append_assoc, Option, none, some, length, get_or, take, drop,
}
use dvbt_rx.Base.{
  length-take, length-append, ◌-◌, ◌^◌, length-drop, take-append-drop, le→not-ltb, if◌then◌else◌,
  ◌==◌, ltb,
}
use dvbt_rx.Buffer
use dvbt_rx.MpegSync.{MpegSync, skip, pop_synchronized, pop_packet}

-- `n` calls of `live_mpeg_sync_pop_packet`, and the bytes of the packets that they give.
pub pop_bytes : ℕ → MpegSync → List ℕ × MpegSync
pop_bytes zero s = ([], s)
pop_bytes (suc n) s =
    let (got, s') = pop_packet s in
    let (more, t) = pop_bytes n s' in
    elim got [ none ↦ ([], s') | some packet ↦ (packet ++ more, t) ]

pop_bytes-suc :
    (n : ℕ) (s s' : MpegSync) (packet : List ℕ)
    → pop_packet s ≡ (some packet, s')
    → pop_bytes (suc n) s ≡ (packet ++ (pop_bytes n s').0, (pop_bytes n s').1)
unfolding pop_bytes
pop_bytes-suc n s s' packet e =
    ap
      (λ (p : Option (List ℕ) × MpegSync).
        let r : List ℕ × MpegSync = elim p.0 [
          | none ↦ ([], p.1)
          | some q ↦ (q ++ (pop_bytes n p.1).0, (pop_bytes n p.1).1)
        ] in
        r)
      e

-- One call on a synchronized stream that has a packet.
pop_lem :
    (s : MpegSync)
    → s.synchronized ≡ true
    → 204 ≤ length s.buffer.bytes
    → (s' : MpegSync) × (pop_packet s ≡ (some (take 204 s.buffer.bytes), s'))
      × (s'.synchronized ≡ true)
      × (s'.phase8 ≡ (s.phase8 + 1) % 8)
      × (s'.buffer.bytes ≡ drop 204 s.buffer.bytes)
      × (s'.stream_byte_offset ≡ s.stream_byte_offset + 204)
unfolding pop_packet pop_synchronized skip Buffer.consume
pop_lem s h k = rw (le→not-ltb _ _ k) (
  record (skip s 204) {
    phase8 = (s.phase8 + 1) % 8;
    fail_packets =
        if get_or s.buffer.bytes 0 0 == (if s.phase8 == 0 then 0xb8 else 0x47)
        then 0
        else (if ltb s.fail_packets (2 ^ 32 - 1) then s.fail_packets + 1 else s.fail_packets);
  },
  rw h refl,
  h,
  refl,
  refl,
  refl,
)

-- As many calls as the buffer has packets take them in order: what they give and what is left
-- make up the buffer, and both counters go on by the number of the calls.
pub pop_bytes_lem :
    (n : ℕ) (s : MpegSync)
    → s.synchronized ≡ true
    → s.phase8 < 8
    → n * 204 ≤ length s.buffer.bytes
    → let (out, t) = pop_bytes n s in
      (out ++ t.buffer.bytes ≡ s.buffer.bytes)
      × (length out ≡ n * 204)
      × (t.synchronized ≡ true)
      × (t.phase8 ≡ (s.phase8 + n) % 8)
      × (t.stream_byte_offset ≡ s.stream_byte_offset + n * 204)
pop_bytes_lem zero s h p k = unfold pop_bytes in (refl, omega arith, h, omega arith, omega arith)
pop_bytes_lem (suc n) s h p k =
    let (s', popped, synced, phase, rest, counted) = pop_lem s h (omega arith) in
    let (all, len, end_synced, end_phase, end_counted) =
      pop_bytes_lem n s' synced (omega arith)
        (rw rest (omega (arith, length-drop 204 s.buffer.bytes))) in
    rw (pop_bytes-suc n s s' (take 204 s.buffer.bytes) popped) (
      append_assoc (take 204 s.buffer.bytes) (pop_bytes n s').0 (pop_bytes n s').1.buffer.bytes
          ∙ ap (λ t. take 204 s.buffer.bytes ++ t) (all ∙ rest)
          ∙ take-append-drop 204 s.buffer.bytes,
      omega (
        arith,
        len,
        length-append (take 204 s.buffer.bytes) (pop_bytes n s').0,
        length-take 204 s.buffer.bytes,
      ),
      end_synced,
      omega (arith, end_phase, phase),
      omega (arith, end_counted, counted),
    )
