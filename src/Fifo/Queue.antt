-- ===== src/Fifo/Queue.antt =====
-- The bounded queue that a client of src/pipeline.c may rely on: the items waiting, oldest first,
-- and whether it is closed.
use dvbt_rx.Base.{ℕ, Bool, true, not, ◌&&◌, List, [], ◌∷◌, ◌++◌, Option, none, some}
use dvbt_rx.Base.{if◌then◌else◌, ◌==◌, length}
use dvbt_rx.Fifo.{Rc, done, later, failed}

pub record Queue (A : Type 0) : Type 0 where
  pub waiting : List A
  pub closed : Bool

module _ {A : Type 0} where
  unfoldable pub push : ℕ → Queue A → A → Rc × Queue A
  push capacity q item =
      if q.closed
      then (failed, q)
      else if length q.waiting == capacity
      then (later, q)
      else (done, record q { waiting = q.waiting ++ (item ∷ []) })

  unfoldable pub pop_from : Bool → List A → Rc × Option A × Queue A
  pop_from closed [] = (later, none, record { waiting = []; closed = closed })
  pop_from closed (x ∷ xs) = (done, some x, record { waiting = xs; closed = closed })

  unfoldable pub pop : Queue A → Rc × Option A × Queue A
  pop q = pop_from q.closed q.waiting

-- A call of the client, and what comes back: a return code with what was popped, or `none` for a
-- caller that is put to sleep.
pub data Call (A : Type 0) : Type 0 where
  try_push push_wait : A → Call A
  try_pop pop_wait close clear : Call A

abbrev pub Reply : Type 0 → Type 0
Reply A = Option (Rc × Option A)

module _ {A : Type 0} where
  -- Pushing waits for room, popping for an item; neither waits on a closed queue, and a pop first
  -- takes what is still there.
  unfoldable pub step : ℕ → Queue A → Call A → Reply A × Queue A
  step capacity q (try_push x) = let (rc, q') = push capacity q x in (some (rc, none), q')
  step capacity q (push_wait x) =
      let (rc, q') = push capacity q x in
      if not q.closed && length q.waiting == capacity then (none, q) else (some (rc, none), q')
  step capacity q try_pop = let (rc, out, q') = pop q in (some (rc, out), q')
  step capacity q pop_wait =
      let (rc, out, q') = pop q in
      if not q.closed && length q.waiting == 0 then (none, q) else (some (rc, out), q')
  step capacity q close = (some (done, none), record q { closed = true })
  step capacity q clear = (some (done, none), record q { waiting = [] })

  unfoldable pub run : ℕ → Queue A → List (Call A) → List (Reply A)
  run capacity q [] = []
  run capacity q (c ∷ cs) = let (r, q') = step capacity q c in r ∷ run capacity q' cs
