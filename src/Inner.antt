-- ===== src/Inner.antt =====
-- The inner deinterleaving of QPSK cells in src/probe_constellation.c: the symbol deinterleaver,
-- the bit deinterleaver on hard and on soft bits, and `dvbt_qpsk_inner_deinterleave_symbols`.
-- A float is a value of a type `F`; whether it is negative and what its bit costs are parameters
-- (`z.re < 0.0f` and `qpsk_axis_bit_costs`). Arrays on the stack start with zeros.
mod Writes
pub mod Symbols
pub mod Bits
pub mod Soft
mod Tests
use dvbt_rx.Base.{
  ℕ, zero, suc, ◌+◌, ◌-◌, ◌*◌, ◌/◌, ◌%◌, ◌^◌, Bool, true, false, List, [], ◌∷◌, ◌++◌,
}
use dvbt_rx.Base.{if◌then◌else◌, ◌==◌, ltb, leb, get_or, set, length, take, drop, replicate, Option}
use dvbt_rx.Base.{none, some, for_from}
use dvbt_rx.Carriers.{data_cells, symbol_interleaver}
use dvbt_rx.Puncture.{Costs, Dibit}

-- `complexf_t`.
pub record Complex (F : Type 0) : Type 0 where
  pub re : F
  pub im : F

module _ {A : Type 0} (z : A) where
  -- One round of the loop for an even symbol, and for an odd one.
  pub even_round : List A → ℕ → List A → List A
  even_round rx i out = elim (symbol_interleaver i) [
    | none ↦ out
    | some h ↦ if ltb h data_cells then set out i (get_or rx h z) else out
  ]

  pub odd_round : List A → ℕ → List A → List A
  odd_round rx i out = elim (symbol_interleaver i) [
    | none ↦ out
    | some h ↦ if ltb h data_cells then set out h (get_or rx i z) else out
  ]

  pub symbol_deinterleave : ℕ → List A → List A
  symbol_deinterleave symbol_index rx =
      for_from (if symbol_index % 2 == 0 then even_round rx else odd_round rx) data_cells 0
        (replicate data_cells z)

abbrev pub block_cells : ℕ
block_cells = 126

-- The first loop of `dvbt_qpsk_bit_deinterleave_block`: the writes of `bi0` and of `bi1`.
pub bi0_round : List ℕ → ℕ → List ℕ → List ℕ
bi0_round symbols w bi0 = set bi0 w (get_or symbols w 0 % 4 / 2)

pub bi1_round : List ℕ → ℕ → List ℕ → List ℕ
bi1_round symbols w bi1 = set bi1 ((w + 63) % block_cells) (get_or symbols w 0 % 2)

-- The second loop.
pub dibits_round : List ℕ → List ℕ → ℕ → List ℕ → List ℕ
dibits_round bi0 bi1 w out = set out w (get_or bi1 w 0 * 2 + get_or bi0 w 0)

pub zeros : List ℕ
zeros = replicate block_cells 0

pub bit_deinterleave_block : List ℕ → List ℕ
bit_deinterleave_block symbols =
    let bi0 = for_from (bi0_round symbols) block_cells 0 zeros in
    let bi1 = for_from (bi1_round symbols) block_cells 0 zeros in
    for_from (dibits_round bi0 bi1) block_cells 0 zeros

module _ {F : Type 0} (negative : F → Bool) where
  pub hard_decision : Complex F → ℕ
  hard_decision c = (if negative c.re then 2 else 0) + (if negative c.im then 1 else 0)

  pub hard_decisions : List (Complex F) → List ℕ
  hard_decisions [] = []
  hard_decisions (c ∷ cs) = hard_decision c ∷ hard_decisions cs

abbrev pub origin : {F : Type 0} → F → Complex F
origin zero_float = record { re = zero_float; im = zero_float }

module _ {F C : Type 0} (zero_float : F) (axis_bit_costs : F → Costs C) where
  pub x_round : List (Complex F) → ℕ → List (Costs C) → List (Costs C)
  x_round symbols w costs = set costs w (axis_bit_costs (get_or symbols w (origin zero_float)).re)

  pub y_round : List (Complex F) → ℕ → List (Costs C) → List (Costs C)
  y_round symbols w costs =
      set costs ((w + 63) % block_cells) (axis_bit_costs (get_or symbols w (origin zero_float)).im)

  -- The last loop, with `n` dibits left; `none_costs` is what `memset` leaves.
  pub soft_from : Costs C → List ℕ → List (Costs C) → List (Costs C) → ℕ → ℕ → List (Dibit C)
  soft_from none_costs dibits x_costs y_costs zero w = []
  soft_from none_costs dibits x_costs y_costs (suc n) w =
      record {
        dibit = get_or dibits w 0 % 4;
        x_cost = get_or x_costs w none_costs;
        y_cost = get_or y_costs w none_costs;
      }
      ∷ soft_from none_costs dibits x_costs y_costs n (w + 1)

  pub soft_bit_deinterleave_block : Costs C → List (Complex F) → List ℕ → List (Dibit C)
  soft_bit_deinterleave_block none_costs symbols dibits =
      let x_costs = for_from (x_round symbols) block_cells 0 (replicate block_cells none_costs) in
      let y_costs = for_from (y_round symbols) block_cells 0 (replicate block_cells none_costs) in
      soft_from none_costs dibits x_costs y_costs block_cells 0

module _ {F C : Type 0} (zero_float : F) (negative : F → Bool) (axis_bit_costs : F → Costs C) where
  -- The blocks of one symbol, with `n` left.
  pub blocks_from : Costs C → ℕ → List (Complex F) → List (Dibit C)
  blocks_from none_costs zero cells = []
  blocks_from none_costs (suc n) cells =
      let block = take block_cells cells in
      soft_bit_deinterleave_block zero_float axis_bit_costs none_costs block
        (bit_deinterleave_block (hard_decisions negative block))
      ++ blocks_from none_costs n (drop block_cells cells)

  -- The symbols, with `n` left; the index of a symbol is a `uint32_t`.
  pub symbols_from : Costs C → ℕ → ℕ → List (Complex F) → List (Dibit C)
  symbols_from none_costs zero index raw = []
  symbols_from none_costs (suc n) index raw =
      blocks_from none_costs (data_cells / block_cells)
        (symbol_deinterleave (origin zero_float) index raw)
      ++ symbols_from none_costs n ((index + 1) % 2 ^ 32) (drop data_cells raw)

  -- `none` is the -1 for an array of dibits that is too small.
  pub inner_deinterleave_into : Costs C → List (Complex F) → ℕ → ℕ → Option (List (Dibit C))
  inner_deinterleave_into none_costs raw model_symbol_start dibit_cap =
      let full_symbols = length raw / data_cells in
      if full_symbols * data_cells == 0
      then some []
      else if ltb dibit_cap (full_symbols * data_cells)
      then none
      else some (symbols_from none_costs full_symbols model_symbol_start raw)

  pub inner_deinterleave : Costs C → List (Complex F) → ℕ → Option (List (Dibit C))
  inner_deinterleave none_costs raw model_symbol_start =
      inner_deinterleave_into none_costs raw model_symbol_start
        (length raw / data_cells * data_cells)
