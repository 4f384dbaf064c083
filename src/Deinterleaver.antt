-- ===== src/Deinterleaver.antt =====
-- The outer byte deinterleaver of src/dvbt_outer.c: `outer_deinterleaver_init`,
-- `outer_deinterleaver_step` and `outer_deinterleave_phase`.
-- The C code cuts one allocation into twelve slices that do not overlap; here each row is an array
-- of its own. `calloc` and `malloc` are taken to succeed.
pub mod State
pub mod Step
pub mod Delay
pub mod Forney
mod Tests
use dvbt_rx.Base.{ℕ, zero, suc, ◌+◌, ◌-◌, ◌*◌, ◌%◌, ◌||◌, List, [], ◌∷◌, Option, none, some}
use dvbt_rx.Base.{if◌then◌else◌, ◌==◌, ltb, leb, get_or, set, drop, replicate, length}

abbrev pub outer_i : ℕ
outer_i = 12

abbrev pub outer_m : ℕ
outer_m = 17

abbrev pub outer_transient : ℕ
outer_transient = (outer_i - 1) * outer_m * outer_i

-- `outer_deinterleaver_t`.
pub record Deinterleaver : Type 0 where
  pub rows : List (List ℕ)
  pub pos : List ℕ
  pub len : List ℕ

-- The loops of `outer_deinterleaver_init` at `i`, with `n` rounds left.
init_len : ℕ → ℕ → List ℕ
init_len zero i = []
init_len (suc n) i = (outer_i - 1 - i) * outer_m ∷ init_len n (i + 1)

init_rows : List ℕ → List (List ℕ)
init_rows [] = []
init_rows (l ∷ ls) = replicate (if ltb 0 l then l else 1) 0 ∷ init_rows ls

pub init : Deinterleaver
unfolding init_len init_rows
init =
    let len = init_len outer_i 0 in
    record { rows = init_rows len; pos = replicate outer_i 0; len = len }

-- The byte out, and the state with the byte in.
pub step : Deinterleaver → ℕ → ℕ → ℕ × Deinterleaver
step d branch byte =
    let len = get_or d.len branch 0 in
    let pos = get_or d.pos branch 0 in
    let row = get_or d.rows branch [] in
    if len == 0 then (byte, d) else (
      get_or row pos 0,
      record d {
        rows = set d.rows branch (set row pos byte);
        pos = set d.pos branch ((pos + 1) % len);
      },
    )

-- The loop over the bytes, with `n` bytes already out.
unfoldable pub run : ℕ → Deinterleaver → List ℕ → List ℕ
run n d [] = []
run n d (x ∷ xs) = let (out, d') = step d (n % outer_i) x in out ∷ run (n + 1) d' xs

-- `none` is the NULL.
pub deinterleave_phase : List ℕ → ℕ → Option (List ℕ)
unfolding run
deinterleave_phase inner phase =
    if leb outer_i phase || leb (length inner) phase
    then none
    else some (run 0 init (drop phase inner))
