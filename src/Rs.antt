-- ===== src/Rs.antt =====
-- The Reed-Solomon decoder RS(204,188) of src/dvbt_outer.c: `rs_syndromes_204`,
-- `rs_has_syndrome`, `rs_block_is_clean_204`, `rs_berlekamp_massey` and `rs_correct_204`.
-- A block is the list of its 204 bytes. What a C loop runs over an index, a recursion runs over
-- the rounds left, with the index beside it.
pub mod Sound
pub mod Vandermonde
pub mod Words
pub mod Unique
pub mod Correction
mod Tests
use dvbt_rx.Base.{ℕ, zero, suc, ◌+◌, ◌-◌, ◌*◌, ◌/◌, bit_xor}
use dvbt_rx.Base.{Bool, true, false, not, ◌||◌, ◌&&◌, List, [], ◌∷◌, ◌++◌, Option, none, some}
use dvbt_rx.Base.{if◌then◌else◌, ◌==◌, ltb, leb, get_or, set, replicate}
use dvbt_rx.Gf.{mul_fast, div, inv, pow_alpha, pow_elem}

abbrev pub rs_parity_len : ℕ
rs_parity_len = 16

abbrev pub rs_block_len : ℕ
rs_block_len = 204

-- `gf_poly_eval`: from the highest coefficient down; `n` is the number of coefficients left.
pub poly_eval_from : List ℕ → ℕ → ℕ → ℕ → ℕ
poly_eval_from poly zero x y = y
poly_eval_from poly (suc n) x y = poly_eval_from poly n x (bit_xor (mul_fast y x) (get_or poly n 0))

pub poly_eval : List ℕ → ℕ → ℕ → ℕ
poly_eval poly degree x = poly_eval_from poly (degree + 1) x 0

-- The inner loop of `rs_syndromes_204`.
pub horner : ℕ → ℕ → List ℕ → ℕ
horner x y [] = y
horner x y (b ∷ bs) = horner x (bit_xor (mul_fast y x) b) bs

pub syndrome : List ℕ → ℕ → ℕ
syndrome block r = horner (pow_alpha r) 0 block

pub syndromes_from : List ℕ → ℕ → ℕ → List ℕ
syndromes_from block zero r = []
syndromes_from block (suc n) r = syndrome block r ∷ syndromes_from block n (r + 1)

pub syndromes_204 : List ℕ → List ℕ
syndromes_204 block = syndromes_from block rs_parity_len 0

pub has_syndrome : List ℕ → Bool
has_syndrome [] = false
has_syndrome (s ∷ ss) = if s == 0 then has_syndrome ss else true

pub block_is_clean_204 : List ℕ → Bool
block_is_clean_204 block = not (has_syndrome (syndromes_204 block))

-- The variables of `rs_berlekamp_massey`.
pub record Massey : Type 0 where
  pub c : List ℕ
  pub b : List ℕ
  pub l : ℕ
  pub m : ℕ
  pub bb : ℕ

-- The loop `i = 1 .. l` at `i`, with `n` rounds left.
pub discrepancy : List ℕ → List ℕ → ℕ → ℕ → ℕ → ℕ → ℕ
discrepancy syn c at zero i d = d
discrepancy syn c at (suc n) i d =
    discrepancy syn c at n (i + 1) (bit_xor d (mul_fast (get_or c i 0) (get_or syn (at - i) 0)))

-- The loop `i = 0; i + m <= RS_PARITY_LEN` at `i`, with `n` rounds left.
pub add_shifted : ℕ → List ℕ → ℕ → ℕ → ℕ → List ℕ → List ℕ
add_shifted coef b m zero i c = c
add_shifted coef b m (suc n) i c = add_shifted coef b m n (i + 1) (
    if get_or b i 0 == 0
    then c
    else set c (i + m) (bit_xor (get_or c (i + m) 0) (mul_fast coef (get_or b i 0))))

-- One round of the main loop, at a discrepancy other than 0.
pub massey_update : ℕ → ℕ → Massey → Massey
massey_update n d s =
    let c' = add_shifted (div d s.bb) s.b s.m (rs_parity_len + 1 - s.m) 0 s.c in
    if leb (2 * s.l) n
    then record { c = c'; b = s.c; l = n + 1 - s.l; m = 1; bb = d }
    else record s { c = c'; m = s.m + 1 }

pub massey_round : List ℕ → ℕ → Massey → Massey
massey_round syn n s =
    let d = discrepancy syn s.c n s.l 1 (get_or syn n 0) in
    if d == 0 then record s { m = s.m + 1 } else massey_update n d s

pub massey_loop : List ℕ → ℕ → ℕ → Massey → Massey
massey_loop syn zero n s = s
massey_loop syn (suc k) n s = massey_loop syn k (n + 1) (massey_round syn n s)

abbrev pub massey_start : Massey
massey_start = record {
  c = 1 ∷ replicate rs_parity_len 0;
  b = 1 ∷ replicate rs_parity_len 0;
  l = 0;
  m = 1;
  bb = 1;
}

-- The locator and its degree; `none` is the -1.
pub berlekamp_massey : List ℕ → Option (List ℕ × ℕ)
berlekamp_massey syn =
    let s = massey_loop syn rs_parity_len 0 massey_start in
    if ltb (rs_parity_len / 2) s.l then none else some (s.c, s.l)

-- `gf_pow_alpha(203 - k)`.
pub locator_at : ℕ → ℕ
locator_at k = pow_alpha (203 - k)

-- The search for the roots at `k`, with `n` rounds left; `none` is the -1.
pub find_positions : List ℕ → ℕ → ℕ → ℕ → List ℕ → ℕ → Option (List ℕ × ℕ)
find_positions locator degree zero k found count = some (found, count)
find_positions locator degree (suc n) k found count =
    let miss = find_positions locator degree n (k + 1) found count in
    let hit = find_positions locator degree n (k + 1) (found ++ (k ∷ [])) (count + 1) in
    if poly_eval locator degree (inv (locator_at k)) == 0
    then (if leb (rs_parity_len / 2) count then none else hit)
    else miss

-- `omega[i + j] ^= ...` for `j = 0 .. degree`.
pub omega_row : List ℕ → ℕ → ℕ → ℕ → ℕ → List ℕ → List ℕ
omega_row locator si i zero j w = w
omega_row locator si i (suc n) j w = omega_row locator si i n (j + 1) (
    if ltb (i + j) rs_parity_len && not (get_or locator j 0 == 0)
    then set w (i + j) (bit_xor (get_or w (i + j) 0) (mul_fast si (get_or locator j 0)))
    else w)

pub omega_from : List ℕ → List ℕ → ℕ → ℕ → ℕ → List ℕ → List ℕ
omega_from syn locator degree zero i w = w
omega_from syn locator degree (suc n) i w =
    omega_from syn locator degree n (i + 1)
      (if get_or syn i 0 == 0 then w else omega_row locator (get_or syn i 0) i (degree + 1) 0 w)

pub omega_poly : List ℕ → List ℕ → ℕ → List ℕ
omega_poly syn locator degree =
    omega_from syn locator degree rs_parity_len 0 (replicate rs_parity_len 0)

-- The loop `i = 1; i <= degree; i += 2`, with `n` rounds left.
pub denominator_from : List ℕ → ℕ → ℕ → ℕ → ℕ → ℕ
denominator_from locator inv_x zero i y = y
denominator_from locator inv_x (suc n) i y =
    denominator_from locator inv_x n (i + 2)
      (bit_xor y (mul_fast (get_or locator i 0) (pow_elem inv_x (i - 1))))

-- The size of the error at position `k`; `none` is the -1.
pub magnitude : List ℕ → List ℕ → ℕ → ℕ → Option ℕ
magnitude locator w degree k =
    let x = locator_at k in
    let numerator = poly_eval w (rs_parity_len - 1) (inv x) in
    let denominator = denominator_from locator (inv x) ((degree + 1) / 2) 1 0 in
    if denominator == 0 then none else some (mul_fast x (div numerator denominator))

-- The loop over the positions; the block keeps what was changed before a failure.
pub apply_errors : List ℕ → List ℕ → ℕ → List ℕ → List ℕ → Bool × List ℕ
apply_errors locator w degree [] block = (true, block)
apply_errors locator w degree (k ∷ ks) block = elim (magnitude locator w degree k) [
  | none ↦ (false, block)
  | some e ↦ apply_errors locator w degree ks (set block k (bit_xor (get_or block k 0) e))
]

-- From the positions on: the changes, and the check of the syndromes after them.
pub correct_at : List ℕ → List ℕ → ℕ → List ℕ → ℕ → List ℕ → Option ℕ × List ℕ
correct_at syn locator degree positions count block =
    let (done, out) = apply_errors locator (omega_poly syn locator degree) degree positions block in
    if not done
    then (none, out)
    else if has_syndrome (syndromes_204 out)
    then (none, out)
    else (some count, out)

-- From the locator on.
pub correct_by : List ℕ → List ℕ → ℕ → List ℕ → Option ℕ × List ℕ
correct_by syn locator degree block =
    if degree == 0 || ltb (rs_parity_len / 2) degree
    then (none, block)
    else elim (find_positions locator degree rs_block_len 0 [] 0) [
      | none ↦ (none, block)
      | some (positions, count) ↦
          if count == degree
          then correct_at syn locator degree positions count block
          else (none, block)
    ]

-- The number of positions, `none` for -1, and the block as it is left.
pub correct_204 : List ℕ → Option ℕ × List ℕ
correct_204 block =
    let syn = syndromes_204 block in
    if not (has_syndrome syn) then (some 0, block) else elim (berlekamp_massey syn) [
      | none ↦ (none, block)
      | some (locator, degree) ↦ correct_by syn locator degree block
    ]
