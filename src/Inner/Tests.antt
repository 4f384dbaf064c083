-- ===== src/Inner/Tests.antt =====
-- Symbols and blocks with known contents. A float is a number here, negative from 8 on.
use dvbt_rx.Base.{
  ℕ, ◌+◌, ◌-◌, ◌*◌, ◌/◌, ◌%◌, ◌<◌, ◌≡◌, refl, arith, Bool, List, some, get_or, tabulate,
  length-tabulate, get_or-tabulate_zero, leb, ◌∙◌, sym, all_below, all_below_eq,
}
use dvbt_rx.Carriers.{interleaver, symbol_interleaver}
use dvbt_rx.Carriers.Permutation.{deinterleaver-interleaver}
use dvbt_rx.Puncture.{Costs, Dibit}
use dvbt_rx.Inner.{
  Complex, symbol_deinterleave, bit_deinterleave_block, hard_decisions, soft_bit_deinterleave_block,
  origin,
}
use dvbt_rx.Inner.Symbols.{IsInterleaved as SymbolIsInterleaved, symbol_deinterleave-IsInterleaved}
use dvbt_rx.Inner.Bits.{
  across, IsInterleaved as BitIsInterleaved, bit_deinterleave_block-IsInterleaved,
}
use dvbt_rx.Inner.Soft.{soft_dibit, soft_bit_deinterleave_block-soft_dibit}

abbrev counted : List ℕ
counted = tabulate (λ i. i) 1512 0

-- In an odd symbol the transmitter sends in place `q` the cell at the address of `q`.
forward_at :
    (q h : ℕ)
    → q < 1512
    → symbol_interleaver q ≡ some h
    → (get_or interleaver.forward q 0 ≡ h) × (h < 1512)
unfolding symbol_interleaver
forward_at q h lt e = ground (arith, deinterleaver-interleaver q lt)

counted-IsInterleaved : SymbolIsInterleaved 0 1 counted interleaver.forward
unfolding SymbolIsInterleaved
counted-IsInterleaved = (
  length-tabulate (λ i. i) 1512 0,
  λ q h lt e. (
    λ even. absurd (omega arith),
    λ odd.
        (forward_at q h lt e).0
        ∙ sym (get_or-tabulate_zero (λ i. i) 1512 h 0 (forward_at q h lt e).1),
  ),
)

symbol_deinterleave-IsInterleaved_example : symbol_deinterleave 0 1 interleaver.forward ≡ counted
symbol_deinterleave-IsInterleaved_example =
    symbol_deinterleave-IsInterleaved 0 1 counted interleaver.forward counted-IsInterleaved

abbrev dibits : List ℕ
dibits = tabulate (λ w. w % 4) 126 0

abbrev interleaved : List ℕ
interleaved = tabulate (λ w. w % 4 % 2 * 2 + (w + 63) % 126 % 4 / 2) 126 0

dibits-IsInterleaved : BitIsInterleaved dibits interleaved
unfolding BitIsInterleaved across tabulate all_below
dibits-IsInterleaved = (
  refl,
  λ w lt. (
    omega (arith, get_or-tabulate_zero (λ k. k % 4) 126 w 0 lt),
    all_below_eq 126 (λ k. get_or interleaved k 0)
        (λ k. get_or dibits k 0 % 2 * 2 + get_or dibits (across k) 0 / 2) w refl lt,
  ),
)

bit_deinterleave_block-IsInterleaved_example : bit_deinterleave_block interleaved ≡ dibits
bit_deinterleave_block-IsInterleaved_example =
    bit_deinterleave_block-IsInterleaved dibits interleaved dibits-IsInterleaved

abbrev is_negative : ℕ → Bool
is_negative v = leb 8 v

abbrev costs_of : ℕ → Costs ℕ
costs_of v = record { zero_cost = v; one_cost = 15 - v }

abbrev cell : ℕ → Complex ℕ
cell w = record { re = w % 16; im = w / 8 }

abbrev cells : List (Complex ℕ)
cells = tabulate cell 126 0

abbrev nothing : Dibit ℕ
nothing = record { dibit = 0; x_cost = costs_of 0; y_cost = costs_of 0 }

soft_bit_deinterleave_block-soft_dibit_example :
    get_or
      (soft_bit_deinterleave_block 0 costs_of
        (costs_of 0)
        cells
        (bit_deinterleave_block (hard_decisions is_negative cells)))
      70
      nothing
    ≡ soft_dibit 0 is_negative costs_of
        (get_or cells 70 (origin 0))
        (get_or cells (across 70) (origin 0))
soft_bit_deinterleave_block-soft_dibit_example =
    soft_bit_deinterleave_block-soft_dibit 0 is_negative costs_of (costs_of 0) cells 70 nothing
      (length-tabulate cell 126 0) (omega arith)
