-- ===== src/Scramble/Tests.antt =====
-- The start of the scrambler's sequence, and the theorems about packets at single inputs.
use dvbt_rx.Base.{ℕ, ◌++◌, arith, true, ◌≡◌, refl, List, [], ◌∷◌, get_or, replicate}
use dvbt_rx.Scramble.{
  scrambler_table, table_from, shift_bits, shift_bit, descramble_packet, sync_matches,
}
use dvbt_rx.Scramble.Descramble.{packet_at, disperse, descramble_packet-disperse}

-- The sequence of EN 300 744 starts with 00000011 11110110.
first_bytes : table_from 4 0x4a80 ≡ 0x03 ∷ 0xf6 ∷ 0x08 ∷ 0x34 ∷ []
unfolding table_from shift_bits shift_bit
first_bytes = refl

-- Eight packets of ones, and parity bytes of 5.
abbrev ones : List ℕ
ones = packet ++ packet ++ packet ++ packet ++ packet ++ packet ++ packet ++ packet
  where
    packet : List ℕ
    packet = 0x47 ∷ replicate 187 1

descramble_packet-disperse_example :
    let block = packet_at 3 (disperse ones) ++ replicate 16 5 in
    (sync_matches (get_or block 0 0) 3 ≡ true)
    × (descramble_packet block 3 scrambler_table ≡ packet_at 3 ones)
descramble_packet-disperse_example =
    descramble_packet-disperse ones (replicate 16 5) 3 (omega arith) refl refl
