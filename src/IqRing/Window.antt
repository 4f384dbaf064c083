-- ===== src/IqRing/Window.antt =====
-- What the front end may rely on: the newest samples, as many as the ring holds, and how many older
-- ones have been lost.
use dvbt_rx.Base.{
  ℕ, ◌+◌, ◌-◌, ◌%◌, Bool, true, not, ◌&&◌, if◌then◌else◌, ltb, List, [], ◌∷◌, ◌++◌, length, take,
  drop, Option, none, some,
}
use dvbt_rx.IqRing.{u64}

pub record Window (A : Type 0) : Type 0 where
  pub waiting : List A
  pub lost : ℕ
  pub ended : Bool

module _ {A : Type 0} where
  unfoldable pub push : ℕ → List A → Window A → Window A
  push cap samples w =
      let all = w.waiting ++ samples in
      let more = length all - cap in
      record w { waiting = drop more all; lost = (w.lost + more) % u64 }

  -- All that is wanted, or what is left at the end.
  unfoldable pub read : ℕ → ℕ → Window A → Option (List A × ℕ) × Window A
  read want lost_before w = if ltb (length w.waiting) want && not w.ended then (none, w) else (
    some (take want w.waiting, (w.lost + u64 - lost_before) % u64),
    record w { waiting = drop want w.waiting },
  )

-- What the threads do: the reader brings a block or finds the end, the front end wants samples; a
-- read that slept is tried again with the same number of losses.
pub data Call (A : Type 0) : Type 0 where
  brings : List A → Call A
  wants : ℕ → ℕ → Call A
  ends : Call A

abbrev pub Reply : Type 0 → Type 0
Reply A = Option (List A × ℕ)

module _ {A : Type 0} where
  unfoldable pub step : ℕ → Call A → Window A → Reply A × Window A
  step cap (brings samples) w = (none, push cap samples w)
  step cap (wants want lost_before) w = read want lost_before w
  step cap ends w = (none, record w { ended = true })

  unfoldable pub run : ℕ → List (Call A) → Window A → List (Reply A)
  run cap [] w = []
  run cap (c ∷ cs) w = let (reply, w') = step cap c w in reply ∷ run cap cs w'
