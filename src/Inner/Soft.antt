-- ===== src/Inner/Soft.antt =====
-- The soft dibits of a block: which parts of which cells make them.
use dvbt_rx.Base.{
  ℕ, zero, suc, ◌+◌, ◌*◌, ◌/◌, ◌%◌, ◌<◌, ◌≡◌, refl, sym, ap, ap₂, ◌∙◌, arith, Bool, List, [], ◌∷◌,
  length, get_or, set, replicate, length-replicate, tabulate, get_or-tabulate_zero, for_from,
  if◌then◌else◌,
}
use dvbt_rx.Puncture.{Costs, Dibit}
use dvbt_rx.Inner.{
  Complex, bit_deinterleave_block, hard_decision, hard_decisions, x_round, y_round, soft_from,
  soft_bit_deinterleave_block, origin,
}
use dvbt_rx.Inner.Writes.{for_from-tabulate}
use dvbt_rx.Inner.Bits.{across, across-lt, across_twice, across_onto, dibit_at, block-tabulate}

module _ {F C : Type 0} (zero_float : F) (axis_bit_costs : F → Costs C) where
  x-tabulate :
      (none_costs : Costs C) (symbols : List (Complex F))
      → for_from (x_round zero_float axis_bit_costs symbols) 126 0 (replicate 126 none_costs)
        ≡ tabulate (λ w. axis_bit_costs (get_or symbols w (origin zero_float)).re) 126 0
  unfolding x_round
  x-tabulate none_costs symbols =
      for_from-tabulate none_costs 126 (λ w. w) _ _ _ (length-replicate 126 none_costs)
        (λ i out lt. (lt, refl)) (λ j lt. (j, lt, refl))

  y-tabulate :
      (none_costs : Costs C) (symbols : List (Complex F))
      → for_from (y_round zero_float axis_bit_costs symbols) 126 0 (replicate 126 none_costs)
        ≡ tabulate (λ w. axis_bit_costs (get_or symbols (across w) (origin zero_float)).im) 126 0
  unfolding y_round across
  y-tabulate none_costs symbols =
      for_from-tabulate none_costs 126 across (y_round zero_float axis_bit_costs symbols)
        (λ w. axis_bit_costs (get_or symbols (across w) (origin zero_float)).im) _
        (length-replicate 126 none_costs)
        (λ i out lt. (
          across-lt i,
          ap
              (λ k.
                set out ((i + 63) % 126) (axis_bit_costs (get_or symbols k (origin zero_float)).im))
              (sym (across_twice i lt)),
        ))
        across_onto

  get_or-soft_from :
      (none_costs : Costs C) (dibits : List ℕ) (xs ys : List (Costs C)) (n w j : ℕ) (d : Dibit C)
      → j < n
      → get_or (soft_from zero_float axis_bit_costs none_costs dibits xs ys n w) j d ≡ record {
        dibit = get_or dibits (w + j) 0 % 4;
        x_cost = get_or xs (w + j) none_costs;
        y_cost = get_or ys (w + j) none_costs;
      }
  unfolding soft_from
  get_or-soft_from none_costs dibits xs ys zero w j d lt = absurd (omega arith)
  get_or-soft_from none_costs dibits xs ys (suc n) w zero d lt =
      ap {A = ℕ} {B = Dibit C}
        (λ k. record {
          dibit = get_or dibits k 0 % 4;
          x_cost = get_or xs k none_costs;
          y_cost = get_or ys k none_costs;
        })
        (omega arith)
  get_or-soft_from none_costs dibits xs ys (suc n) w (suc j) d lt =
      get_or-soft_from none_costs dibits xs ys n (w + 1) j d (omega arith)
      ∙ ap {A = ℕ} {B = Dibit C}
          (λ k. record {
            dibit = get_or dibits k 0 % 4;
            x_cost = get_or xs k none_costs;
            y_cost = get_or ys k none_costs;
          })
          (omega arith)

  x_costs : Costs C → List (Complex F) → List (Costs C)
  x_costs none_costs symbols =
      for_from (x_round zero_float axis_bit_costs symbols) 126 0 (replicate 126 none_costs)

  y_costs : Costs C → List (Complex F) → List (Costs C)
  y_costs none_costs symbols =
      for_from (y_round zero_float axis_bit_costs symbols) 126 0 (replicate 126 none_costs)

  soft_block_at :
      (none_costs : Costs C) (symbols : List (Complex F)) (dibits : List ℕ) (w : ℕ) (d : Dibit C)
      → w < 126
      → get_or (soft_bit_deinterleave_block zero_float axis_bit_costs none_costs symbols dibits) w d
        ≡ record {
          dibit = get_or dibits w 0 % 4;
          x_cost = axis_bit_costs (get_or symbols w (origin zero_float)).re;
          y_cost = axis_bit_costs (get_or symbols (across w) (origin zero_float)).im;
        }
  unfolding soft_bit_deinterleave_block x_costs y_costs
  soft_block_at none_costs symbols dibits w d lt =
      get_or-soft_from none_costs dibits _ _ 126 0 w d lt
      ∙ ap {A = ℕ} {B = Dibit C}
          (λ k. record {
            dibit = get_or dibits k 0 % 4;
            x_cost = get_or (x_costs none_costs symbols) k none_costs;
            y_cost = get_or (y_costs none_costs symbols) k none_costs;
          })
          zero_plus
      ∙ ap₂ {A = Costs C} {B = Costs C} {C = Dibit C}
          (λ x y. record { dibit = get_or dibits w 0 % 4; x_cost = x; y_cost = y })
          (ap (λ l. get_or l w none_costs) (x-tabulate none_costs symbols)
            ∙ get_or-tabulate_zero _ 126 w none_costs lt)
          (ap (λ l. get_or l w none_costs) (y-tabulate none_costs symbols)
            ∙ get_or-tabulate_zero _ 126 w none_costs lt)
    where
      zero_plus : 0 + w ≡ w
      zero_plus = omega arith

module _ {F C : Type 0} (zero_float : F) (negative : F → Bool) (axis_bit_costs : F → Costs C) where
  get_or-hard_decisions :
      (cells : List (Complex F)) (w : ℕ)
      → w < length cells
      → get_or (hard_decisions negative cells) w 0
        ≡ hard_decision negative (get_or cells w (origin zero_float))
  unfolding hard_decisions
  get_or-hard_decisions [] w lt = absurd (omega arith)
  get_or-hard_decisions (c ∷ cells) zero lt = refl
  get_or-hard_decisions (c ∷ cells) (suc w) lt = get_or-hard_decisions cells w (omega arith)

  hard_dibit :
      (a b : Complex F) (x y : ℕ)
      → x ≡ hard_decision negative a
      → y ≡ hard_decision negative b
      → (y % 2 * 2 + x % 4 / 2) % 4
        ≡ (if negative b.im then 1 else 0) * 2 + (if negative a.re then 1 else 0)
  unfolding hard_decision
  hard_dibit a b x y e e' = ground arith

  -- The soft dibit of the real part of one cell and the imaginary part of another.
  pub soft_dibit : Complex F → Complex F → Dibit C
  soft_dibit a b = record {
    dibit = (if negative b.im then 1 else 0) * 2 + (if negative a.re then 1 else 0);
    x_cost = axis_bit_costs a.re;
    y_cost = axis_bit_costs b.im;
  }

  -- In a block of 126 cells soft dibit `w` is made of the real part of cell `w` and of the imaginary
  -- part of the cell 63 places on: its two hard bits are their signs, its costs are theirs.
  pub soft_bit_deinterleave_block-soft_dibit :
      (none_costs : Costs C) (cells : List (Complex F)) (w : ℕ) (d : Dibit C)
      → length cells ≡ 126
      → w < 126
      → get_or
          (soft_bit_deinterleave_block zero_float axis_bit_costs none_costs cells
            (bit_deinterleave_block (hard_decisions negative cells)))
          w
          d
        ≡ soft_dibit
            (get_or cells w (origin zero_float))
            (get_or cells (across w) (origin zero_float))
  unfolding soft_dibit dibit_at
  soft_bit_deinterleave_block-soft_dibit none_costs cells w d len lt =
      soft_block_at zero_float axis_bit_costs none_costs cells _ w d lt
      ∙ ap {A = ℕ} {B = Dibit C}
          (λ k. record {
            dibit = k;
            x_cost = axis_bit_costs (get_or cells w (origin zero_float)).re;
            y_cost = axis_bit_costs (get_or cells (across w) (origin zero_float)).im;
          })
          (ap (λ l. get_or l w 0 % 4) (block-tabulate (hard_decisions negative cells))
            ∙ ap (λ k. k % 4) (get_or-tabulate_zero _ 126 w 0 lt)
            ∙ hard_dibit (get_or cells w (origin zero_float))
                (get_or cells (across w) (origin zero_float))
                (get_or (hard_decisions negative cells) w 0)
                (get_or (hard_decisions negative cells) (across w) 0)
                (get_or-hard_decisions cells w (omega (arith, len)))
                (get_or-hard_decisions cells (across w) (omega (arith, len, across-lt w))))
