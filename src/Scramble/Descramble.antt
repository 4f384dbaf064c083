-- ===== src/Scramble/Descramble.antt =====
-- Descrambling reads the table in range and undoes the energy dispersal of the transmitter.
use dvbt_rx.Base.{
  ℕ, zero, suc, ◌+◌, ◌-◌, ◌*◌, ◌%◌, ◌≤◌, ◌<◌, ◌≡◌, ◌∙◌, refl, sym, ap, ap₂, arith, true, List, [],
  ◌∷◌, ◌++◌, if◌then◌else◌, ◌==◌, length, length-take, length-drop, get_or, get_or-drop,
  get_or-append_left, get_or_ext, take, drop, take-append-drop, tabulate, length-tabulate,
  get_or-tabulate, bit_xor, bit_xor_cancel,
}
use dvbt_rx.Scramble.{
  descramble_from, descramble_packet, scrambler_table, table_from, shift_bits, shift_bit,
  sync_matches,
}

length-table_from : (n reg : ℕ) → length (table_from n reg) ≡ n
unfolding table_from
length-table_from zero reg = refl
length-table_from (suc n) reg =
    ap suc (length-table_from n (shift_bits 8 (record { reg = reg; b = 0 })).reg)

-- For each of the eight phases every index into the table that a packet uses lies in the table.
pub scramble_index-lt :
    (block_phase i : ℕ)
    → block_phase < 8
    → 1 ≤ i
    → i < 188
    → block_phase * 188 + i - 1 < length scrambler_table
unfolding scrambler_table
scramble_index-lt block_phase i h p q = omega (arith, length-table_from 1503 0x4a80)

length-descramble_from :
    (rs_data : List ℕ) (phase : ℕ) (scramble : List ℕ) (n i : ℕ)
    → length (descramble_from rs_data phase scramble n i) ≡ n
unfolding descramble_from
length-descramble_from rs_data phase scramble zero i = refl
length-descramble_from rs_data phase scramble (suc n) i =
    ap suc (length-descramble_from rs_data phase scramble n (i + 1))

descramble_from-at :
    (rs_data : List ℕ) (phase : ℕ) (scramble : List ℕ) (n i k : ℕ)
    → k < n
    → get_or (descramble_from rs_data phase scramble n i) k 0
      ≡ bit_xor (get_or rs_data (i + k) 0) (get_or scramble (phase * 188 + (i + k) - 1) 0)
unfolding descramble_from
descramble_from-at rs_data phase scramble zero i k h = absurd (omega arith)
descramble_from-at rs_data phase scramble (suc n) i zero h =
    ap (λ t. bit_xor (get_or rs_data t 0) (get_or scramble (phase * 188 + t - 1) 0)) (omega arith)
descramble_from-at rs_data phase scramble (suc n) i (suc k) h =
    descramble_from-at rs_data phase scramble n (i + 1) k (omega arith)
    ∙ ap (λ t. bit_xor (get_or rs_data t 0) (get_or scramble (phase * 188 + t - 1) 0)) (omega arith)

descramble-at :
    (rs_data : List ℕ) (phase : ℕ) (scramble : List ℕ) (k : ℕ)
    → suc k < 188
    → get_or (descramble_packet rs_data phase scramble) (suc k) 0
      ≡ bit_xor (get_or rs_data (suc k) 0) (get_or scramble (phase * 188 + suc k - 1) 0)
unfolding descramble_packet
descramble-at rs_data phase scramble k h =
    descramble_from-at rs_data phase scramble 187 1 k (omega arith)
    ∙ ap (λ t. bit_xor (get_or rs_data t 0) (get_or scramble (phase * 188 + t - 1) 0)) (omega arith)

-- The pseudo-random sequence of EN 300 744: fifteen stages, of which the last two, combined, are the
-- next bit and go into the first.
abbrev pub next_bit : List ℕ → ℕ
next_bit stages = bit_xor (get_or stages 13 0) (get_or stages 14 0)

-- `n` bits, the first of which is the highest.
pub bits_of : ℕ → ℕ → List ℕ → ℕ × List ℕ
bits_of zero value stages = (value, stages)
bits_of (suc n) value stages =
    bits_of n (value * 2 + next_bit stages) (next_bit stages ∷ take 14 stages)

pub sequence_bytes : ℕ → List ℕ → List ℕ
sequence_bytes zero stages = []
sequence_bytes (suc n) stages =
    let (byte, stages') = bits_of 8 0 stages in byte ∷ sequence_bytes n stages'

-- The sequence of a group of eight packets, from the stages that it begins with.
pub dispersal_sequence : List ℕ
dispersal_sequence =
    sequence_bytes 1503 (1 ∷ 0 ∷ 0 ∷ 1 ∷ 0 ∷ 1 ∷ 0 ∷ 1 ∷ 0 ∷ 0 ∷ 0 ∷ 0 ∷ 0 ∷ 0 ∷ 0 ∷ [])

-- What the transmitter makes of byte `i` of a group: the first sync byte is inverted, the others
-- are left alone while the sequence goes on, and each other byte is combined with the sequence,
-- which starts behind the first sync byte.
pub dispersed : List ℕ → ℕ → ℕ
dispersed group i =
    if i == 0
    then 0xb8
    else if i % 188 == 0
    then get_or group i 0
    else bit_xor (get_or group i 0) (get_or dispersal_sequence (i - 1) 0)

pub disperse : List ℕ → List ℕ
disperse group = tabulate (dispersed group) 1504 0

same_table : scrambler_table ≡ dispersal_sequence
unfolding scrambler_table table_from shift_bits shift_bit dispersal_sequence sequence_bytes bits_of
same_table = refl

-- The packet at a phase.
abbrev pub packet_at : ℕ → List ℕ → List ℕ
packet_at phase group = take 188 (drop (phase * 188) group)

length-packet_at :
    (phase : ℕ) (group : List ℕ)
    → phase < 8
    → length group ≡ 1504
    → length (packet_at phase group) ≡ 188
length-packet_at phase group h whole =
    length-take 188 (drop (phase * 188) group) ∙ omega (arith, length-drop (phase * 188) group)

get_or-packet_at :
    (phase i : ℕ) (group : List ℕ)
    → phase < 8
    → i < 188
    → length group ≡ 1504
    → get_or (packet_at phase group) i 0 ≡ get_or group (phase * 188 + i) 0
get_or-packet_at phase i group h p whole =
    sym (
      get_or-append_left (packet_at phase group) (drop 188 (drop (phase * 188) group)) i 0
        (omega (arith, length-packet_at phase group h whole)))
    ∙ ap (λ l. get_or l i 0) (take-append-drop 188 (drop (phase * 188) group))
    ∙ get_or-drop (phase * 188) group i 0

-- A byte of a block of the dispersed group, the bytes of parity behind it.
block-at :
    (group parity : List ℕ) (phase i : ℕ)
    → phase < 8
    → i < 188
    → get_or (packet_at phase (disperse group) ++ parity) i 0 ≡ dispersed group (phase * 188 + i)
unfolding disperse
block-at group parity phase i h p =
    let whole = length-tabulate (dispersed group) 1504 0 in
    get_or-append_left (packet_at phase (disperse group)) parity i 0
      (omega (arith, length-packet_at phase (disperse group) h whole))
    ∙ get_or-packet_at phase i (disperse group) h p whole
    ∙ get_or-tabulate (dispersed group) 1504 0 (phase * 188 + i) 0 (omega arith)
    ∙ ap (dispersed group) (omega arith)

dispersed_data :
    (group : List ℕ) (phase k : ℕ)
    → suc k < 188
    → dispersed group (phase * 188 + suc k)
      ≡ bit_xor
          (get_or group (phase * 188 + suc k) 0)
          (get_or dispersal_sequence (phase * 188 + suc k - 1) 0)
unfolding dispersed
dispersed_data group phase k h = ground arith

sync_matches_lem :
    (group : List ℕ) (phase b : ℕ)
    → phase < 8
    → get_or group (phase * 188) 0 ≡ 0x47
    → b ≡ dispersed group (phase * 188)
    → sync_matches b phase ≡ true
unfolding sync_matches dispersed
sync_matches_lem group phase b h sync e = ground arith

length-descramble_packet :
    (rs_data : List ℕ) (phase : ℕ) (scramble : List ℕ)
    → length (descramble_packet rs_data phase scramble) ≡ 188
unfolding descramble_packet
length-descramble_packet rs_data phase scramble =
    ap suc (length-descramble_from rs_data phase scramble 187 1)

descramble_packet-sync :
    (rs_data : List ℕ) (phase : ℕ) (scramble : List ℕ)
    → get_or (descramble_packet rs_data phase scramble) 0 0 ≡ 0x47
unfolding descramble_packet
descramble_packet-sync rs_data phase scramble = refl

-- Of a group of eight packets that the transmitter of EN 300 744 has dispersed, followed by any
-- bytes of parity, each block has the sync byte that sync_matches expects at its phase, and
-- descramble_packet with the table of build_scrambler_table gives the packet back as it was, when
-- that begins with 0x47.
pub descramble_packet-disperse :
    (group parity : List ℕ) (phase : ℕ)
    → phase < 8
    → length group ≡ 1504
    → get_or group (phase * 188) 0 ≡ 0x47
    → let block = packet_at phase (disperse group) ++ parity in
      (sync_matches (get_or block 0 0) phase ≡ true)
      × (descramble_packet block phase scrambler_table ≡ packet_at phase group)
descramble_packet-disperse group parity phase h whole sync = (
  sync_matches_lem group phase _ h sync
      (block-at group parity phase 0 h (omega arith) ∙ ap (dispersed group) (omega arith)),
  get_or_ext 0 _ _ (size ∙ sym (length-packet_at phase group h whole)) same,
)
  where
    block : List ℕ
    block = packet_at phase (disperse group) ++ parity

    size : length (descramble_packet block phase scrambler_table) ≡ 188
    size = length-descramble_packet block phase scrambler_table

    same :
        (i : ℕ)
        → i < length (descramble_packet block phase scrambler_table)
        → get_or (descramble_packet block phase scrambler_table) i 0
          ≡ get_or (packet_at phase group) i 0
    same zero p =
        descramble_packet-sync block phase scrambler_table
        ∙ sym (
            get_or-packet_at phase 0 group h (omega arith) whole
            ∙ ap (λ t. get_or group t 0) (omega arith)
            ∙ sync)
    same (suc k) p =
        let inside : suc k < 188 = omega (arith, size) in
        let index = phase * 188 + suc k in
        descramble-at block phase scrambler_table k inside
        ∙ ap₂ bit_xor
            (block-at group parity phase (suc k) h inside ∙ dispersed_data group phase k inside)
            (ap (λ l. get_or l (index - 1) 0) same_table)
        ∙ bit_xor_cancel (get_or group index 0) (get_or dispersal_sequence (index - 1) 0)
        ∙ sym (get_or-packet_at phase (suc k) group h inside whole)
