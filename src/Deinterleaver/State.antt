-- ===== src/Deinterleaver/State.antt =====
-- What the rows of the deinterleaver hold between two bytes, and that it holds at the start.
use dvbt_rx.Base.{ℕ, zero, suc, ◌+◌, ◌-◌, ◌*◌, ◌%◌, ◌≤◌, ◌<◌, ◌≡◌, ◌∙◌, refl, ap, arith}
use dvbt_rx.Base.{List, [], ◌∷◌, if◌then◌else◌, ltb}
use dvbt_rx.Base.{length, get_or, replicate}
use dvbt_rx.Base.{get_or-replicate, length-replicate}
use dvbt_rx.Deinterleaver.{Deinterleaver, init, init_len, init_rows}

-- The bytes that branch `j` holds back.
abbrev pub branch_len : ℕ → ℕ
branch_len j = (11 - j) * 17

-- What comes out at index `n` of a stream `s`: the byte that went in so much earlier, or 0 while
-- there is none.
abbrev pub delayed : (ℕ → ℕ) → ℕ → ℕ
delayed s n = if ltb n (12 * branch_len (n % 12)) then 0 else s (n - 12 * branch_len (n % 12))

-- The same for any index and length of a branch.
abbrev pub past : (ℕ → ℕ) → ℕ → ℕ → ℕ
past s len t = if ltb t (12 * len) then 0 else s (t - 12 * len)

-- The next time from `n` on at which branch `j` is served.
abbrev pub next_time : ℕ → ℕ → ℕ
next_time n j = n + (j + 12 - n % 12) % 12

abbrev pub row_at : Deinterleaver → ℕ → List ℕ
row_at d j = get_or d.rows j []

abbrev pub pos_at : Deinterleaver → ℕ → ℕ
pos_at d j = get_or d.pos j 0

-- Branch `j` after `n` bytes of `s`: from its position on it holds what is to come out at its next
-- times.
pub record IsBranch (s : ℕ → ℕ) (n : ℕ) (d : Deinterleaver) (j : ℕ) : Type 0 where
  pub len_at : get_or d.len j 0 ≡ branch_len j
  pub row_len : branch_len j ≤ length (row_at d j)
  pub pos_in : 0 < branch_len j → pos_at d j < branch_len j
  pub holds :
      (k : ℕ)
      → k < branch_len j
      → get_or (row_at d j) ((pos_at d j + k) % branch_len j) 0
        ≡ past s (branch_len j) (next_time n j + 12 * k)

pub record IsState (s : ℕ → ℕ) (n : ℕ) (d : Deinterleaver) : Type 0 where
  pub rows_len : length d.rows ≡ 12
  pub pos_len : length d.pos ≡ 12
  pub branches : (j : ℕ) → j < 12 → IsBranch s n d j

-- The state at the start.
init_len-at : (n i j : ℕ) → j < n → get_or (init_len n i) j 0 ≡ (11 - (i + j)) * 17
unfolding init_len
init_len-at zero i j h = absurd (omega arith)
init_len-at (suc n) i zero h = omega arith
init_len-at (suc n) i (suc j) h =
    init_len-at n (i + 1) j (omega arith) ∙ ap (λ t. (11 - t) * 17) regroup
  where
    regroup : i + 1 + j ≡ i + suc j
    regroup = omega arith

length-init_len : (n i : ℕ) → length (init_len n i) ≡ n
unfolding init_len
length-init_len zero i = refl
length-init_len (suc n) i = ap suc (length-init_len n (i + 1))

init_rows-at :
    (ls : List ℕ) (j : ℕ)
    → j < length ls
    → get_or (init_rows ls) j [] ≡ replicate (if ltb 0 (get_or ls j 0) then get_or ls j 0 else 1) 0
unfolding init_rows
init_rows-at [] j h = absurd (omega arith)
init_rows-at (l ∷ ls) zero h = refl
init_rows-at (l ∷ ls) (suc j) h = init_rows-at ls j (omega arith)

init-IsBranch : (s : ℕ → ℕ) (j : ℕ) → j < 12 → IsBranch s 0 init j
unfolding init
init-IsBranch s j h = record {
  len_at = len_eq;
  row_len = rw row_eq (
      rw (length-replicate {A = ℕ} (if ltb 0 (branch_len j) then branch_len j else 1) 0)
        (ground arith));
  pos_in = rw (get_or-replicate {A = ℕ} 12 j 0) (λ p. p);
  holds = λ k p.
      rw (row_eq, get_or-replicate {A = ℕ} (if ltb 0 (branch_len j) then branch_len j else 1))
        (ground arith);
}
  where
    len_eq : get_or (init_len 12 0) j 0 ≡ branch_len j
    len_eq = init_len-at 12 0 j h ∙ ap (λ t. (11 - t) * 17) (omega arith)

    row_eq :
        get_or (init_rows (init_len 12 0)) j []
        ≡ replicate (if ltb 0 (branch_len j) then branch_len j else 1) 0
    row_eq =
        init_rows-at (init_len 12 0) j (rw (length-init_len 12 0) h)
        ∙ ap (λ l. replicate (if ltb 0 l then l else 1) 0) len_eq

pub init-IsState : (s : ℕ → ℕ) → IsState s 0 init
init-IsState s = record {
  rows_len = unfold init init_rows init_len in refl;
  pos_len = unfold init in refl;
  branches = init-IsBranch s;
}
