-- ===== src/LiveViterbi/Rows.antt =====
-- The rows of survivors: a bit for each of the 64 states, and the ring that holds the last rows.
use dvbt_rx.Base.{
  ℕ, zero, suc, ◌+◌, ◌-◌, ◌/◌, ◌%◌, ◌^◌, ◌<◌, ◌≤◌, ◌≡◌, ◌≢◌, refl, sym, ap, ◌∙◌, arith, bit_and,
  bit_or, Bool, true, false, ◌==◌, ltb, if◌then◌else◌, List, length, get_or, set, length-set,
  get_or-set_self, get_or-set_ne, all_below, all_below_sound, all_below_lt, ==_iff, not-==_ne, inl,
  inr, subst, Bool-cases, round-ne,
}
use native.Mathlib.Nat.{mod-add-mod, mod-lt}
use dvbt_rx.Viterbi.{Metric}
use dvbt_rx.LiveViterbi.{survivor_row_set, survivor_row_get, choose, chosen_row}

-- Eight bytes.
pub record IsRow (row : List ℕ) : Type 0 where
  pub eight : length row ≡ 8
  pub bytes : (i : ℕ) → i < 8 → get_or row i 0 < 256

-- A byte with the bit `i` set or cleared.
abbrev with_bit : ℕ → ℕ → ℕ → ℕ
with_bit old i pred =
    if pred == 0 then bit_and old (255 - 2 ^ i % 256) else bit_or old (2 ^ i % 256)

-- What a bit of it reads as.
reads : ℕ → ℕ → ℕ → ℕ → Bool
reads pred i j old =
    bit_and (with_bit old i pred / 2 ^ j) 1 == (if i == j then pred else bit_and (old / 2 ^ j) 1)

all_read :
    all_below 2 (λ pred. all_below 8 (λ i. all_below 8 (λ j. all_below 256 (reads pred i j))))
    ≡ true
unfolding all_below reads
all_read = refl

all_bytes :
    all_below 2 (λ pred. all_below 8 (λ i. all_below 256 (λ old. ltb (with_bit old i pred) 256)))
    ≡ true
unfolding all_below
all_bytes = refl

with_bit_reads :
    (pred i j old : ℕ)
    → pred < 2
    → i < 8
    → j < 8
    → old < 256
    → bit_and (with_bit old i pred / 2 ^ j) 1 ≡ (if i == j then pred else bit_and (old / 2 ^ j) 1)
unfolding reads
with_bit_reads pred i j old p q r t = (==_iff _ _).0 (
    all_below_sound 256 (reads pred i j) old
      (all_below_sound 8 (λ j. all_below 256 (reads pred i j)) j
        (all_below_sound 8 (λ i. all_below 8 (λ j. all_below 256 (reads pred i j))) i
          (all_below_sound 2
            (λ pred. all_below 8 (λ i. all_below 8 (λ j. all_below 256 (reads pred i j)))) pred
            all_read p)
          q)
        r)
      t)

with_bit-lt : (pred i old : ℕ) → pred < 2 → i < 8 → old < 256 → with_bit old i pred < 256
with_bit-lt pred i old p q t =
    all_below_lt 256 (λ old. with_bit old i pred) (λ _. 256) old
      (all_below_sound 8 (λ i. all_below 256 (λ old. ltb (with_bit old i pred) 256)) i
        (all_below_sound 2
          (λ pred. all_below 8 (λ i. all_below 256 (λ old. ltb (with_bit old i pred) 256))) pred
          all_bytes p)
        q)
      t

survivor_row_set-eq :
    (row : List ℕ) (state pred : ℕ)
    → survivor_row_set row state pred
      ≡ set row (state / 8) (with_bit (get_or row (state / 8) 0) (state % 8) pred)
unfolding survivor_row_set
survivor_row_set-eq row state pred = elim (Bool-cases (pred == 0)) [
  | inl cleared ↦ rw cleared refl
  | inr kept ↦ rw kept refl
]

survivor_row_set-IsRow :
    (row : List ℕ) (state pred : ℕ)
    → state < 64
    → pred < 2
    → IsRow row
    → IsRow (survivor_row_set row state pred)
survivor_row_set-IsRow row state pred lt bit r =
    subst IsRow (sym (survivor_row_set-eq row state pred)) (record {
      eight = length-set row (state / 8) byte ∙ r.eight;
      bytes = λ i h. elim (Bool-cases (state / 8 == i)) [
        | inl same ↦
            subst (λ i. get_or (set row (state / 8) byte) i 0 < 256) ((==_iff (state / 8) i).0 same)
              (subst (λ x. x < 256)
                (sym (get_or-set_self row (state / 8) byte 0 (omega (arith, r.eight))))
                (with_bit-lt pred (state % 8) _ bit (omega arith)
                  (r.bytes (state / 8) (omega arith))))
        | inr other ↦
            subst (λ x. x < 256)
              (sym (get_or-set_ne row (state / 8) i byte 0 (not-==_ne (state / 8) i other)))
              (r.bytes i h)
      ];
    })
  where
    byte : ℕ
    byte = with_bit (get_or row (state / 8) 0) (state % 8) pred

-- On a row of eight bytes, survivor_row_get reads back the flag that survivor_row_set wrote for a
-- state, and the flags of the other states are as they were.
pub survivor_row_get-survivor_row_set :
    (row : List ℕ) (state pred state2 : ℕ)
    → IsRow row
    → state < 64
    → state2 < 64
    → pred < 2
    → survivor_row_get (survivor_row_set row state pred) state2
      ≡ (if state == state2 then pred else survivor_row_get row state2)
unfolding survivor_row_get
survivor_row_get-survivor_row_set row state pred state2 r lt lt2 bit =
    ap (λ l. bit_and (get_or l (state2 / 8) 0 / 2 ^ (state2 % 8)) 1)
      (survivor_row_set-eq row state pred)
    ∙ elim (Bool-cases (state / 8 == state2 / 8)) [
      | inl same ↦
          let e = (==_iff (state / 8) (state2 / 8)).0 same in
          ap (λ x. bit_and (x / 2 ^ (state2 % 8)) 1)
            (ap (λ i. get_or (set row (state / 8) byte) i 0) (sym e)
              ∙ get_or-set_self row (state / 8) byte 0 (omega (arith, r.eight)))
          ∙ with_bit_reads pred (state % 8) (state2 % 8) _ bit (omega arith) (omega arith)
              (r.bytes (state / 8) (omega arith))
          ∙ chosen e
      | inr other ↦
          let e = not-==_ne (state / 8) (state2 / 8) other in
          ap (λ x. bit_and (x / 2 ^ (state2 % 8)) 1)
            (get_or-set_ne row (state / 8) (state2 / 8) byte 0 e)
          ∙ elim (Bool-cases (state == state2)) [
            | inl equal ↦ absurd (e (ap (λ x. x / 8) ((==_iff state state2).0 equal)))
            | inr differ ↦ rw differ refl
          ]
    ]
  where
    byte : ℕ
    byte = with_bit (get_or row (state / 8) 0) (state % 8) pred

    chosen :
        state / 8 ≡ state2 / 8
        → (if state % 8 == state2 % 8
            then pred
            else bit_and (get_or row (state / 8) 0 / 2 ^ (state2 % 8)) 1)
          ≡ (if state == state2
              then pred
              else bit_and (get_or row (state2 / 8) 0 / 2 ^ (state2 % 8)) 1)
    chosen e = elim (Bool-cases (state == state2)) [
      | inl equal ↦
          let same : (state % 8 == state2 % 8) ≡ true = ground arith in rw (equal, same) refl
      | inr differ ↦
          let other : (state % 8 == state2 % 8) ≡ false = ground arith in
          rw (differ, other) (ap (λ i. bit_and (get_or row i 0 / 2 ^ (state2 % 8)) 1) e)
    ]

module _ {C : Type 0} (m : Metric C) where
  pub choose-lt :
      (cost metrics : List C) (next_state : ℕ) → (choose m cost metrics next_state).1 < 2
  unfolding choose
  choose-lt cost metrics next_state = ground arith

  pub chosen_row-IsRow :
      (cost metrics : List C) (n next_state : ℕ) (row : List ℕ)
      → next_state + n ≤ 64
      → IsRow row
      → IsRow (chosen_row m cost metrics n next_state row)
  unfolding chosen_row
  chosen_row-IsRow cost metrics zero next_state row le r = r
  chosen_row-IsRow cost metrics (suc n) next_state row le r =
      chosen_row-IsRow cost metrics n (next_state + 1) _ (omega arith) (
        survivor_row_set-IsRow row next_state _ (omega arith) (choose-lt cost metrics next_state) r)

  -- A state that the loop does not come to keeps its flag, one that it does has its choice.
  kept_flag :
      (cost metrics : List C) (n next_state state : ℕ) (row : List ℕ)
      → next_state + n ≤ 64
      → state < next_state
      → IsRow row
      → survivor_row_get (chosen_row m cost metrics n next_state row) state
        ≡ survivor_row_get row state
  unfolding chosen_row
  kept_flag cost metrics zero next_state state row le lt r = refl
  kept_flag cost metrics (suc n) next_state state row le lt r =
      kept_flag cost metrics n (next_state + 1) state _ (omega arith) (omega arith) (
        survivor_row_set-IsRow row next_state _ (omega arith) (choose-lt cost metrics next_state) r)
      ∙ survivor_row_get-survivor_row_set row next_state _ state r (omega arith) (omega arith)
          (choose-lt cost metrics next_state)
      ∙ rw other refl
    where
      other : (next_state == state) ≡ false
      other = ground arith

  pub survivor_row_get-chosen_row :
      (cost metrics : List C) (n next_state state : ℕ) (row : List ℕ)
      → next_state + n ≤ 64
      → next_state ≤ state
      → state < next_state + n
      → IsRow row
      → survivor_row_get (chosen_row m cost metrics n next_state row) state
        ≡ (choose m cost metrics state).1
  unfolding chosen_row
  survivor_row_get-chosen_row cost metrics zero next_state state row le from to r =
      absurd (omega arith)
  survivor_row_get-chosen_row cost metrics (suc n) next_state state row le from to r =
      elim (Bool-cases (next_state == state)) [
        | inl same ↦
            kept_flag cost metrics n (next_state + 1) state _ (omega arith) (ground arith) row_after
            ∙ survivor_row_get-survivor_row_set row next_state _ state r (omega arith) (omega arith)
                (choose-lt cost metrics next_state)
            ∙ rw same (ap (λ k. (choose m cost metrics k).1) ((==_iff next_state state).0 same))
        | inr other ↦
            survivor_row_get-chosen_row cost metrics n (next_state + 1) state _ (omega arith)
              (ground arith) (omega arith) row_after
      ]
    where
      row_after : IsRow (survivor_row_set row next_state (choose m cost metrics next_state).1)
      row_after =
          survivor_row_set-IsRow row next_state _ (omega arith) (choose-lt cost metrics next_state)
            r

-- The slots of the last rows are not the slot of the next one.
pub slot-ne :
    (cap steps i : ℕ) → i < cap → suc i ≤ steps → suc i < cap → (steps - suc i) % cap ≢ steps % cap
slot-ne cap steps i lt le ne e =
    round-ne cap ((steps - suc i) % cap) i (mod-lt (steps - suc i) (omega arith)) ne
      (mod-add-mod (steps - suc i) cap (suc i) ∙ ap (λ t. t % cap) back ∙ sym e)
  where
    back : steps - suc i + suc i ≡ steps
    back = omega arith
