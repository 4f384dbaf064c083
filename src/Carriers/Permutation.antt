-- ===== src/Carriers/Permutation.antt =====
-- The symbol interleaver and deinterleaver are inverse permutations of the 1512 data cells.
use dvbt_rx.Base.{Bool, List, [], ◌∷◌, ◌&&◌, zero, suc, ◌+◌, length}
use dvbt_rx.Base.{ℕ, ◌<◌, ◌≡◌, ◌==◌, ltb, true, refl, arith, some, get_or}
use dvbt_rx.Carriers.{interleaver, symbol_interleaver, symbol_deinterleaver}

-- Each entry of `xs` lies below `n`, and `ys` takes it back to its index, counted from `q`.
undoes : ℕ → List ℕ → List ℕ → ℕ → Bool
undoes n ys [] q = true
undoes n ys (x ∷ xs) q = ltb x n && get_or ys x 0 == q && undoes n ys xs (q + 1)

undoes_sound :
    (n : ℕ) (ys xs : List ℕ) (q i : ℕ)
    → undoes n ys xs q ≡ true
    → i < length xs
    → (get_or xs i 0 < n) × (get_or ys (get_or xs i 0) 0 ≡ q + i)
unfolding undoes
undoes_sound n ys [] q i h p = absurd (omega arith)
undoes_sound n ys (x ∷ xs) q zero h p = ground arith
undoes_sound n ys (x ∷ xs) q (suc i) h p = ground (arith, undoes_sound n ys xs (q + 1) i)

tables_undo :
    undoes 1512 interleaver.backward interleaver.forward 0
      && undoes 1512 interleaver.forward interleaver.backward 0
      && length interleaver.forward == 1512
      && length interleaver.backward == 1512
    ≡ true
unfolding undoes interleaver
tables_undo = refl

forward_lem :
    (i : ℕ)
    → i < 1512
    → (get_or interleaver.forward i 0 < 1512)
      × (get_or interleaver.backward (get_or interleaver.forward i 0) 0 ≡ i)
forward_lem i h =
    ground (arith, tables_undo, undoes_sound 1512 interleaver.backward interleaver.forward 0 i)

backward_lem :
    (i : ℕ)
    → i < 1512
    → (get_or interleaver.backward i 0 < 1512)
      × (get_or interleaver.forward (get_or interleaver.backward i 0) 0 ≡ i)
backward_lem i h =
    ground (arith, tables_undo, undoes_sound 1512 interleaver.forward interleaver.backward 0 i)

-- On each of the 1512 cells the interleaver gives a cell, and the deinterleaver takes that back.
pub deinterleaver-interleaver :
    (i : ℕ)
    → i < 1512
    → (j : ℕ) × (symbol_interleaver i ≡ some j) × (j < 1512) × (symbol_deinterleaver j ≡ some i)
unfolding symbol_interleaver symbol_deinterleaver
deinterleaver-interleaver i h = (
  get_or interleaver.forward i 0,
  ground arith,
  (forward_lem i h).0,
  ground (arith, forward_lem i h),
)

-- On each of the 1512 cells the deinterleaver gives a cell, and the interleaver takes that back.
pub interleaver-deinterleaver :
    (i : ℕ)
    → i < 1512
    → (j : ℕ) × (symbol_deinterleaver i ≡ some j) × (j < 1512) × (symbol_interleaver j ≡ some i)
unfolding symbol_interleaver symbol_deinterleaver
interleaver-deinterleaver i h = (
  get_or interleaver.backward i 0,
  ground arith,
  (backward_lem i h).0,
  ground (arith, backward_lem i h),
)

-- On each of the 1512 data cells the symbol interleaver gives a data cell that the symbol
-- deinterleaver takes back, and the symbol deinterleaver one that the symbol interleaver takes back.
pub interleavers_undo :
    (i : ℕ)
    → i < 1512
    → ((j : ℕ) × (symbol_interleaver i ≡ some j) × (j < 1512) × (symbol_deinterleaver j ≡ some i))
      × ((j : ℕ) × (symbol_deinterleaver i ≡ some j) × (j < 1512) × (symbol_interleaver j ≡ some i))
interleavers_undo i h = (deinterleaver-interleaver i h, interleaver-deinterleaver i h)
