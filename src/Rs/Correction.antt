-- ===== src/Rs/Correction.antt =====
-- A block with at most eight wrong bytes is corrected to the code word that was sent, or not at all.
use dvbt_rx.Base.{
  ℕ, zero, suc, ◌+◌, ◌≤◌, ◌<◌, ◌≡◌, refl, arith, subst, List, [], ◌∷◌, some, none, Option,
}
use dvbt_rx.Base.{
  length, Bool, true, false, if◌then◌else◌, ◌==◌, get_or, set, inl, inr, Option-cases,
}
use dvbt_rx.Base.{bit_xor, bit_xor-lt-byte}
use dvbt_rx.Gf.Field.{mul-lt_any}
use dvbt_rx.Rs.{
  syndromes_204, block_is_clean_204, berlekamp_massey, find_positions, magnitude, apply_errors,
  omega_poly, correct_at, correct_by, correct_204,
}
use dvbt_rx.Rs.Sound.{distance, correct_204-IsCorrected}
use dvbt_rx.Rs.Words.{IsBlock}
use dvbt_rx.Rs.Unique.{clean_eq}

pub set-IsBlock : (xs : List ℕ) (k b : ℕ) → IsBlock xs → b < 256 → IsBlock (set xs k b)
set-IsBlock [] k b h lt = tt
set-IsBlock (x ∷ xs) zero b (hx, h) lt = (lt, h)
set-IsBlock (x ∷ xs) (suc k) b (hx, h) lt = (hx, set-IsBlock xs k b h lt)

get_or-lt-byte : (xs : List ℕ) (k : ℕ) → IsBlock xs → get_or xs k 0 < 256
get_or-lt-byte [] k h = omega arith
get_or-lt-byte (x ∷ xs) zero (hx, h) = hx
get_or-lt-byte (x ∷ xs) (suc k) (hx, h) = get_or-lt-byte xs k h

magnitude-lt :
    (locator w : List ℕ) (degree k : ℕ) {e : ℕ} → magnitude locator w degree k ≡ some e → e < 256
unfolding magnitude
magnitude-lt locator w degree k r = grind (arith, mul-lt_any)

apply_errors-IsBlock :
    (locator w : List ℕ) (degree : ℕ) (ks block : List ℕ)
    → IsBlock block
    → IsBlock (apply_errors locator w degree ks block).1
unfolding apply_errors
apply_errors-IsBlock locator w degree [] block h = h
apply_errors-IsBlock locator w degree (k ∷ ks) block h =
    elim (Option-cases (magnitude locator w degree k)) [
      | inl e ↦ rw (e, apply_errors) h
      | inr (m, e) ↦
          rw (e, apply_errors)
            (apply_errors-IsBlock locator w degree ks (set block k (bit_xor (get_or block k 0) m)) (
              set-IsBlock block k _ h (
                bit_xor-lt-byte _ m (get_or-lt-byte block k h)
                  (magnitude-lt locator w degree k e))))
    ]

-- What the decoder leaves are bytes.
LeavesBytes : Option ℕ × List ℕ → Type 0
LeavesBytes (n, out) = IsBlock out

either-LeavesBytes :
    (b : Bool) (x y : Option ℕ × List ℕ)
    → LeavesBytes x
    → LeavesBytes y
    → LeavesBytes (if b then x else y)
either-LeavesBytes true x y hx hy = hx
either-LeavesBytes false x y hx hy = hy

with_result : (n : Option ℕ) (out : List ℕ) → IsBlock out → LeavesBytes (n, out)
unfolding LeavesBytes
with_result n out h = h

correct_at-LeavesBytes :
    (syn locator : List ℕ) (degree : ℕ) (ps : List ℕ) (count : ℕ) (block : List ℕ)
    → IsBlock block
    → LeavesBytes (correct_at syn locator degree ps count block)
unfolding correct_at
correct_at-LeavesBytes syn locator degree ps count block h =
    let changed = apply_errors-IsBlock locator (omega_poly syn locator degree) degree ps block h in
    either-LeavesBytes _ _ _ (with_result none after changed) (
      either-LeavesBytes _ _ _ (with_result none after changed)
        (with_result (some count) after changed))
  where
    after : List ℕ
    after = (apply_errors locator (omega_poly syn locator degree) degree ps block).1

correct_by-LeavesBytes :
    (syn locator : List ℕ) (degree : ℕ) (block : List ℕ)
    → IsBlock block
    → LeavesBytes (correct_by syn locator degree block)
unfolding correct_by
correct_by-LeavesBytes syn locator degree block h =
    either-LeavesBytes _ _ _ (with_result none block h) searched
  where
    searched :
        LeavesBytes (elim (find_positions locator degree 204 0 [] 0) as (λ r. Option ℕ × List ℕ) [
          | none ↦ (none, block)
          | some (positions, count) ↦
              if count == degree
              then correct_at syn locator degree positions count block
              else (none, block)
        ])
    searched = elim (Option-cases (find_positions locator degree 204 0 [] 0)) [
      | inl e ↦ rw e (with_result none block h)
      | inr ((ps, c), e) ↦ rw e (
          either-LeavesBytes _ _ _ (correct_at-LeavesBytes syn locator degree ps c block h)
            (with_result none block h))
    ]

correct_204-LeavesBytes : (block : List ℕ) → IsBlock block → LeavesBytes (correct_204 block)
unfolding correct_204
correct_204-LeavesBytes block h = either-LeavesBytes _ _ _ (with_result (some 0) block h) located
  where
    located :
        LeavesBytes (elim (berlekamp_massey (syndromes_204 block)) as (λ r. Option ℕ × List ℕ) [
          | none ↦ (none, block)
          | some (locator, degree) ↦ correct_by (syndromes_204 block) locator degree block
        ])
    located = elim (Option-cases (berlekamp_massey (syndromes_204 block))) [
      | inl e ↦ rw e (with_result none block h)
      | inr ((locator, degree), e) ↦
          rw e (correct_by-LeavesBytes (syndromes_204 block) locator degree block h)
    ]

distance_comm : (xs ys : List ℕ) → length xs ≡ length ys → distance xs ys ≡ distance ys xs
distance_comm [] [] e = refl
distance_comm [] (y ∷ ys) e = absurd (omega arith)
distance_comm (x ∷ xs) [] e = absurd (omega arith)
distance_comm (x ∷ xs) (y ∷ ys) e = ground (arith, distance_comm xs ys (omega arith))

distance_triangle :
    (xs ys zs : List ℕ)
    → length xs ≡ length ys
    → length ys ≡ length zs
    → distance xs zs ≤ distance xs ys + distance ys zs
distance_triangle [] ys zs e f = omega arith
distance_triangle (x ∷ xs) [] zs e f = absurd (omega arith)
distance_triangle (x ∷ xs) (y ∷ ys) [] e f = absurd (omega arith)
distance_triangle (x ∷ xs) (y ∷ ys) (z ∷ zs) e f =
    ground (arith, distance_triangle xs ys zs (omega arith) (omega arith))

-- When a block of 204 bytes differs from a code word in at most 8 bytes and rs_correct_204 reports
-- a number of corrected bytes, then the block that it leaves is the code word, and the number is
-- at least that of the wrong bytes.
pub correct_204-eq :
    (word block : List ℕ) {n : ℕ} {out : List ℕ}
    → length word ≡ 204
    → length block ≡ 204
    → IsBlock word
    → IsBlock block
    → block_is_clean_204 word ≡ true
    → distance word block ≤ 8
    → correct_204 block ≡ (some n, out)
    → (out ≡ word) × (distance block word ≤ n)
unfolding LeavesBytes
correct_204-eq word block {n} {out} size_word size_block hw hb clean few r =
    let c = correct_204-IsCorrected block r in
    let same =
      clean_eq out word (out_bytes (subst LeavesBytes r (correct_204-LeavesBytes block hb))) hw
        (omega (arith, c.same_length)) (omega (arith, c.same_length)) c.clean clean
        (omega (
          arith,
          distance_triangle out block word,
          distance_comm out block,
          distance_comm word block,
          c.near,
          c.few,
          c.same_length,
        )) in
    (same, subst (λ w. distance block w ≤ n) same c.near)
  where
    out_bytes : LeavesBytes (some n, out) → IsBlock out
    out_bytes h = h
