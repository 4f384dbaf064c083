-- ===== src/Buffer.antt =====
-- The growing byte buffers of src/dvbt_outer.c, which three streams keep with the same code:
-- `live_mpeg_sync_reserve` and `live_mpeg_sync_append`, `live_outer_stream_reserve` and
-- `live_outer_stream_append`, `live_grdvbt_outer_append_pending`.
-- The bytes in use are a list, so `count` is its length; `cap` is the size of the allocation.
-- `grants` says which sizes `realloc` can give.
pub mod Growth
mod Tests
use dvbt_rx.Base.{ℕ, zero, suc, ◌+◌, ◌-◌, ◌*◌, ◌/◌, ◌%◌, ◌^◌, Bool, List, ◌++◌, Option, none, some}
use dvbt_rx.Base.{if◌then◌else◌, ◌==◌, ltb, leb, length, drop}

abbrev pub size_max : ℕ
size_max = 2 ^ 64 - 1

pub record Buffer : Type 0 where
  pub bytes : List ℕ
  pub cap : ℕ

-- `while (cap < need)`: the capacity is doubled, unless that would not fit a `size_t`.
pub grow : ℕ → ℕ → ℕ → Option ℕ
grow zero cap need = none
grow (suc fuel) cap need =
    let rest = grow fuel (cap * 2) need in
    if ltb cap need then (if ltb (size_max / 2) cap then none else rest) else some cap

module _ (grants : ℕ → Bool) (first_cap : ℕ) where
  -- `none` is the -1; 65 rounds take any capacity past a `size_t`.
  pub reserve : Buffer → ℕ → Option Buffer
  reserve b extra =
      let need = (length b.bytes + extra) % 2 ^ 64 in
      if leb need b.cap
      then some b
      else elim (grow 65 (if b.cap == 0 then first_cap else b.cap) need) [
        | none ↦ none
        | some cap ↦ if grants cap then some (record b { cap = cap }) else none
      ]

  pub append : Buffer → List ℕ → Option Buffer
  append b more = if length more == 0 then some b else elim (reserve b (length more)) [
    | none ↦ none
    | some b' ↦ some (record b' { bytes = b'.bytes ++ more })
  ]

-- `memmove` of what follows the first `n` bytes to the front.
unfoldable pub consume : Buffer → ℕ → Buffer
consume b n = record b { bytes = drop n b.bytes }
