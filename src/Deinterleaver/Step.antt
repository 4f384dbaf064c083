-- ===== src/Deinterleaver/Step.antt =====
-- One call of `outer_deinterleaver_step` keeps what the rows are to hold.
use native.Mathlib.Nat.{mod-lt}
use native.Mathlib.Decide.{ℕ_discrete}
use dvbt_rx.Base.{ℕ, suc, ◌+◌, ◌-◌, ◌*◌, ◌%◌, ◌≤◌, ◌<◌, ◌≡◌, ◌≢◌, ◌∙◌, refl, sym, ap, ap₂, arith}
use dvbt_rx.Base.{List, [], inl, inr, ltb, ltb→lt, ◌==◌, ==_iff, Bool-cases}
use dvbt_rx.Base.{length, get_or, set, length-set, get_or-set_self, get_or-set_ne}
use dvbt_rx.Base.{round-ne, round-suc, round_full}
use dvbt_rx.Deinterleaver.{Deinterleaver, step}
use dvbt_rx.Deinterleaver.State.{branch_len, past, next_time, row_at, pos_at, IsBranch, IsState}

-- Both forms of a step.
pub step_through : (d : Deinterleaver) (b x : ℕ) → get_or d.len b 0 ≡ 0 → step d b x ≡ (x, d)
unfolding step
step_through d b x e = rw e

pub step_stored :
    (d : Deinterleaver) (b x : ℕ)
    → get_or d.len b 0 ≢ 0
    → step d b x ≡ (
      get_or (row_at d b) (pos_at d b) 0,
      record d {
        rows = set d.rows b (set (row_at d b) (pos_at d b) x);
        pos = set d.pos b ((pos_at d b + 1) % get_or d.len b 0);
      },
    )
unfolding step
step_stored d b x h = ground arith

-- A branch that is not served keeps what it holds and its next time.
other-IsBranch :
    (s : ℕ → ℕ) (n j : ℕ) (d d' : Deinterleaver)
    → j < 12
    → j ≢ n % 12
    → get_or d'.len j 0 ≡ get_or d.len j 0
    → row_at d' j ≡ row_at d j
    → pos_at d' j ≡ pos_at d j
    → IsBranch s n d j
    → IsBranch s (n + 1) d' j
other-IsBranch s n j d d' h ne el er ep v = record {
  len_at = el ∙ v.len_at;
  row_len = rw er v.row_len;
  pos_in = rw ep v.pos_in;
  holds = λ k p.
      ap₂ (λ row i. get_or row ((i + k) % branch_len j) 0) er ep
      ∙ v.holds k p
      ∙ ap (λ t. past s (branch_len j) (t + 12 * k)) same_time;
}
  where
    same_time : next_time n j ≡ next_time (n + 1) j
    same_time = omega arith

-- A row of `len` bytes after the byte of time `n` has replaced the one that came out.
row_step :
    (s : ℕ → ℕ) (n len pos : ℕ) (row : List ℕ)
    → pos < len
    → len ≤ length row
    → ((k : ℕ) → k < len → get_or row ((pos + k) % len) 0 ≡ past s len (n + 12 * k))
    → (k : ℕ) → k < len
    → get_or (set row pos (s n)) (((pos + 1) % len + k) % len) 0 ≡ past s len (n + 12 + 12 * k)
row_step s n len pos row hp hl holds k hk = elim (Bool-cases (ltb (suc k) len)) [
  | inl more ↦
      let below : suc k < len = ltb→lt (suc k) len more in
      ap (λ i. get_or (set row pos (s n)) i 0) (round-suc len pos k)
      ∙ get_or-set_ne row pos ((pos + suc k) % len) (s n) 0
          (λ e. round-ne len pos k hp below (sym e))
      ∙ holds (suc k) below
      ∙ ap (λ t. past s len t) (omega arith)
  | inr last ↦
      ap (λ i. get_or (set row pos (s n)) i 0)
        (round-suc len pos k ∙ round_full len pos k hp (ground arith))
      ∙ get_or-set_self row pos (s n) 0 (omega arith)
      ∙ ground (arith, ap s (here (ground arith)))
]
  where
    here : suc k ≡ len → n ≡ n + 12 + 12 * k - 12 * len
    here e = omega arith

served-IsBranch :
    (s : ℕ → ℕ) (n : ℕ) (d d' : Deinterleaver) (x : ℕ)
    → x ≡ s n
    → 0 < branch_len (n % 12)
    → d'.len ≡ d.len
    → row_at d' (n % 12) ≡ set (row_at d (n % 12)) (pos_at d (n % 12)) x
    → pos_at d' (n % 12) ≡ (pos_at d (n % 12) + 1) % get_or d.len (n % 12) 0
    → IsBranch s n d (n % 12)
    → IsBranch s (n + 1) d' (n % 12)
served-IsBranch s n d d' x ex hl el er ep v = record {
  len_at = ap (λ l. get_or l (n % 12) 0) el ∙ v.len_at;
  row_len = rw (er, length-set) v.row_len;
  pos_in = λ p. rw (ep, v.len_at) (mod-lt _ hl);
  holds = λ k p.
      ap₂ (λ row i. get_or row ((i + k) % branch_len (n % 12)) 0)
        (er ∙ ap (λ y. set (row_at d (n % 12)) (pos_at d (n % 12)) y) ex)
        (ep ∙ ap (λ l. (pos_at d (n % 12) + 1) % l) v.len_at)
      ∙ row_step s n (branch_len (n % 12)) (pos_at d (n % 12)) (row_at d (n % 12)) (v.pos_in hl)
          v.row_len
          (λ k' p'. v.holds k' p' ∙ ap (λ t. past s (branch_len (n % 12)) (t + 12 * k')) (now n)) k
          p
      ∙ ap (λ t. past s (branch_len (n % 12)) (t + 12 * k)) (sym (then_on n));
}
  where
    now : (n : ℕ) → next_time n (n % 12) ≡ n
    now n = omega arith

    then_on : (n : ℕ) → next_time (n + 1) (n % 12) ≡ n + 12
    then_on n = omega arith

pub through-IsState :
    (s : ℕ → ℕ) (n : ℕ) (d : Deinterleaver)
    → branch_len (n % 12) ≡ 0
    → IsState s n d
    → IsState s (n + 1) d
through-IsState s n d e v = record {
  rows_len = v.rows_len;
  pos_len = v.pos_len;
  branches = λ j h. elim (Bool-cases (j == n % 12)) [
    | inl same ↦
        let e' : branch_len j ≡ 0 = ap branch_len ((==_iff j (n % 12)).0 same) ∙ e in
        record {
          len_at = (v.branches j h).len_at;
          row_len = (v.branches j h).row_len;
          pos_in = (v.branches j h).pos_in;
          holds = λ k p. absurd (omega arith);
        }
    | inr other ↦ other-IsBranch s n j d d h (ground arith) refl refl refl (v.branches j h)
  ];
}

pub stored-IsState :
    (s : ℕ → ℕ) (n : ℕ) (d : Deinterleaver) (x : ℕ)
    → x ≡ s n
    → 0 < branch_len (n % 12)
    → IsState s n d
    → IsState s (n + 1) (record d {
      rows = set d.rows (n % 12) (set (row_at d (n % 12)) (pos_at d (n % 12)) x);
      pos = set d.pos (n % 12) ((pos_at d (n % 12) + 1) % get_or d.len (n % 12) 0);
    })
stored-IsState s n d x e hl v = record {
  rows_len = length-set d.rows (n % 12) _ ∙ v.rows_len;
  pos_len = length-set d.pos (n % 12) _ ∙ v.pos_len;
  branches = λ j h. elim (ℕ_discrete j (n % 12)) [
    | yes same ↦ rw same (
        served-IsBranch s n d _ x e hl refl
          (get_or-set_self d.rows (n % 12) _ [] (omega (arith, v.rows_len)))
          (get_or-set_self d.pos (n % 12) _ 0 (omega (arith, v.pos_len)))
          (v.branches (n % 12) (omega arith)))
    | no other ↦
        other-IsBranch s n j d _ h other refl
          (get_or-set_ne d.rows (n % 12) j _ [] (λ q. other (sym q)))
          (get_or-set_ne d.pos (n % 12) j _ 0 (λ q. other (sym q))) (v.branches j h)
  ];
}
