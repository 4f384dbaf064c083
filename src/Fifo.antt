-- ===== src/Fifo.antt =====
-- src/pipeline.c: the bounded queue `rbdvbt_fifo_t`, its non-blocking and blocking operations,
-- `rbdvbt_fifo_close` and `rbdvbt_fifo_clear`.
-- An item is a value of any type, so a slot of `item_size` bytes is one element of the array. The
-- functions run under the queue's mutex; a call is one step. The mutex and the allocator are taken
-- to succeed, and the pointers are not NULL.
pub mod Queue
pub mod Refine
pub mod Clients
pub mod Signals
mod Tests
use dvbt_rx.Base.{
  ℕ, ◌+◌, zero, ◌-◌, ◌%◌, Bool, true, false, not, ◌||◌, ◌&&◌, List, Option, none, some,
}
use dvbt_rx.Base.{if◌then◌else◌, ◌==◌, get_or, set, replicate}

-- `rc`: 0, 1 and -1.
pub data Rc : Type 0 where
  done later failed : Rc

-- What a call that may wait has come to: it returns, or it goes to sleep on its condition.
pub data Wait (A : Type 0) : Type 0 where
  returns : A → Wait A
  sleeps : Wait A

pub record Fifo (A : Type 0) : Type 0 where
  pub items : List A
  pub capacity : ℕ
  pub head : ℕ
  pub tail : ℕ
  pub count : ℕ
  pub closed : Bool

module _ {A : Type 0} where
  -- `rbdvbt_fifo_init`; `zero_item` is the zeroed slot of `calloc`.
  pub init : A → ℕ → ℕ → Option (Fifo A)
  init zero_item item_size capacity =
      if item_size == 0 || capacity == 0
      then none
      else some (record {
        items = replicate capacity zero_item;
        capacity = capacity;
        head = 0;
        tail = 0;
        count = 0;
        closed = false;
      })

  pub push_locked : Fifo A → A → Fifo A
  push_locked f item = record f {
    items = set f.items f.tail item;
    tail = (f.tail + 1) % f.capacity;
    count = f.count + 1;
  }

  -- The item, and the queue without it. `d` is what a read out of range gives.
  pub pop_locked : A → Fifo A → A × Fifo A
  pop_locked d f =
      (get_or f.items f.head d, record f { head = (f.head + 1) % f.capacity; count = f.count - 1 })

  pub try_push : Fifo A → A → Rc × Fifo A
  try_push f item =
      if f.closed
      then (failed, f)
      else if f.count == f.capacity
      then (later, f)
      else (done, push_locked f item)

  pub try_pop : A → Fifo A → Rc × Option A × Fifo A
  try_pop d f =
      if f.count == 0
      then (later, none, f)
      else let (item, f') = pop_locked d f in (done, some item, f')

  -- One turn of the loop of `rbdvbt_fifo_push_wait`, and what follows it.
  pub push_wait : Fifo A → A → Wait (Rc × Fifo A)
  push_wait f item =
      if not f.closed && f.count == f.capacity
      then sleeps
      else if f.closed
      then returns (failed, f)
      else returns (done, push_locked f item)

  pub pop_wait : A → Fifo A → Wait (Rc × Option A × Fifo A)
  pop_wait d f =
      if not f.closed && f.count == 0
      then sleeps
      else if f.count == 0 && f.closed
      then returns (later, none, f)
      else let (item, f') = pop_locked d f in returns (done, some item, f')

  pub close : Fifo A → Fifo A
  close f = record f { closed = true }

  pub clear : Fifo A → Fifo A
  clear f = record f { head = 0; tail = 0; count = 0 }
