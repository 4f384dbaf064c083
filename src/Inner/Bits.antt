-- ===== src/Inner/Bits.antt =====
-- The bit deinterleaver: which bits of a block of 126 cells make a dibit.
use dvbt_rx.Base.{
  ℕ, ◌+◌, ◌*◌, ◌/◌, ◌%◌, ◌<◌, ◌≡◌, refl, sym, ap, ap₂, ◌∙◌, arith, List, length, get_or, set,
  tabulate, length-tabulate, get_or-tabulate_zero, get_or_ext, for_from,
}
use dvbt_rx.Inner.{zeros, bi0_round, bi1_round, dibits_round, bit_deinterleave_block}
use dvbt_rx.Inner.Writes.{for_from-tabulate}

-- The cell with the second bit of dibit `w`, and the dibit of the second bit of cell `w`.
unfoldable pub across : ℕ → ℕ
across w = (w + 63) % 126

pub across-lt : (w : ℕ) → across w < 126
unfolding across
across-lt w = omega arith

pub across_twice : (w : ℕ) → w < 126 → across (across w) ≡ w
unfolding across
across_twice w lt = omega arith

pub across_onto : (j : ℕ) → j < 126 → (q : ℕ) × (q < 126) × (across q ≡ j)
across_onto j lt = (across j, across-lt j, across_twice j lt)

length-zeros : length zeros ≡ 126
unfolding zeros
length-zeros = refl

-- Dibit `w` of a block.
unfoldable pub dibit_at : List ℕ → ℕ → ℕ
dibit_at symbols w = get_or symbols (across w) 0 % 2 * 2 + get_or symbols w 0 % 4 / 2

bi0-tabulate :
    (symbols : List ℕ)
    → for_from (bi0_round symbols) 126 0 zeros ≡ tabulate (λ w. get_or symbols w 0 % 4 / 2) 126 0
unfolding bi0_round
bi0-tabulate symbols =
    for_from-tabulate 0 126 (λ w. w) (bi0_round symbols) _ zeros length-zeros
      (λ i out lt. (lt, refl)) (λ j lt. (j, lt, refl))

bi1-tabulate :
    (symbols : List ℕ)
    → for_from (bi1_round symbols) 126 0 zeros
      ≡ tabulate (λ w. get_or symbols (across w) 0 % 2) 126 0
unfolding bi1_round across
bi1-tabulate symbols =
    for_from-tabulate 0 126 across (bi1_round symbols) (λ w. get_or symbols (across w) 0 % 2) zeros
      length-zeros
      (λ i out lt. (
        across-lt i,
        ap (λ k. set out ((i + 63) % 126) (get_or symbols k 0 % 2)) (sym (across_twice i lt)),
      ))
      across_onto

pub block-tabulate :
    (symbols : List ℕ) → bit_deinterleave_block symbols ≡ tabulate (dibit_at symbols) 126 0
unfolding bit_deinterleave_block dibits_round dibit_at
block-tabulate symbols =
    for_from-tabulate 0 126 (λ w. w) _ (dibit_at symbols) zeros length-zeros
      (λ i out lt. (
        lt,
        ap₂ (λ a b. set out i (a * 2 + b))
            (ap (λ l. get_or l i 0) (bi1-tabulate symbols) ∙ get_or-tabulate_zero _ 126 i 0 lt)
            (ap (λ l. get_or l i 0) (bi0-tabulate symbols) ∙ get_or-tabulate_zero _ 126 i 0 lt),
      ))
      (λ j lt. (j, lt, refl))

-- What the transmitter makes of 126 dibits: the first bit of a cell is that of its dibit, the
-- second that of the dibit 63 places on.
unfoldable pub IsInterleaved : List ℕ → List ℕ → Type 0
IsInterleaved dibits symbols =
    (length dibits ≡ 126)
    × ((w : ℕ)
        → w < 126
        → (get_or dibits w 0 < 4)
          × (get_or symbols w 0 ≡ get_or dibits w 0 % 2 * 2 + get_or dibits (across w) 0 / 2))

-- The bit deinterleaver gives back the 126 dibits that the transmitter has interleaved.
pub bit_deinterleave_block-IsInterleaved :
    (dibits symbols : List ℕ)
    → IsInterleaved dibits symbols
    → bit_deinterleave_block symbols ≡ dibits
unfolding IsInterleaved dibit_at
bit_deinterleave_block-IsInterleaved dibits symbols (len, cells) =
    block-tabulate symbols
    ∙ get_or_ext 0 (tabulate (dibit_at symbols) 126 0) dibits
        (length-tabulate (dibit_at symbols) 126 0 ∙ sym len)
        (λ w below.
          get_or-tabulate_zero (dibit_at symbols) 126 w 0 (in_block w below)
          ∙ dibit_eq w (in_block w below))
  where
    in_block : (w : ℕ) → w < length (tabulate (dibit_at symbols) 126 0) → w < 126
    in_block w below = omega (arith, length-tabulate (dibit_at symbols) 126 0)

    dibit_eq : (w : ℕ) → w < 126 → dibit_at symbols w ≡ get_or dibits w 0
    dibit_eq w lt =
        let (small, cell) = cells w lt in
        let (small', cell') = cells (across w) (across-lt w) in
        let back = ap (λ k. get_or dibits k 0) (across_twice w lt) in
        omega (arith, small, cell, small', cell', back)
