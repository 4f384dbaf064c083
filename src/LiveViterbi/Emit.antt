-- ===== src/LiveViterbi/Emit.antt =====
-- The bits that leave the live decoder: eight of them make a byte.
use dvbt_rx.Base.{
  ℕ, zero, suc, ◌+◌, ◌*◌, ◌%◌, ◌≡◌, refl, arith, List, [], ◌∷◌, ◌++◌, length, true, false, ltb,
}
use dvbt_rx.Viterbi.{Metric, pack_byte}
use dvbt_rx.LiveViterbi.{Stream, emit_bit, emit_bits}

module _ {C : Type 0} (m : Metric C) where
  -- Only eight bits are packed.
  pub pack_byte-append :
      (n b : ℕ) (bits later : List ℕ)
      → length bits ≡ n
      → pack_byte m (bits ++ later) n b ≡ pack_byte m bits n b
  unfolding pack_byte
  pack_byte-append zero b bits later len = refl
  pack_byte-append (suc n) b [] later len = absurd (omega arith)
  pack_byte-append (suc n) b (x ∷ bits) later len =
      pack_byte-append n ((b * 2 + x % 2) % 256) bits later (omega arith)

  pub emit_bits-pack_byte :
      (n : ℕ) (bits : List ℕ) (s : Stream C) (out : List ℕ)
      → length bits ≡ suc n
      → s.out_bits + suc n ≡ 8
      → emit_bits bits (s, out) ≡ (
        record s { out_byte = 0; out_bits = 0 },
        out ++ (pack_byte m bits (suc n) s.out_byte ∷ []),
      )
  unfolding emit_bits emit_bit pack_byte
  emit_bits-pack_byte n [] s out len left = absurd (omega arith)
  emit_bits-pack_byte zero (x ∷ []) s out len left = rw full refl
    where
      full : ltb (s.out_bits + 1) 8 ≡ false
      full = ground arith
  emit_bits-pack_byte zero (x ∷ y ∷ bits) s out len left = absurd (omega arith)
  emit_bits-pack_byte (suc n) (x ∷ bits) s out len left =
      rw (room, emit_bits)
        (emit_bits-pack_byte n bits
          (record s { out_byte = (s.out_byte * 2 + x % 2) % 256; out_bits = s.out_bits + 1 }) out
          (omega arith) (omega arith))
    where
      room : ltb (s.out_bits + 1) 8 ≡ true
      room = ground arith
