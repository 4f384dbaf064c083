-- ===== src/Fifo/Signals.antt =====
-- The condition variables `not_empty` and `not_full` of src/pipeline.c: which calls signal them, and
-- who sleeps on them.
-- Of the callers that wait only the numbers are kept: those asleep, and those that have been woken
-- and have not yet had the mutex. A woken caller goes through the loop of its call once more.
pub mod Lost
mod Tests
use dvbt_rx.Base.{ℕ, ◌+◌, ◌-◌, if◌then◌else◌, ◌==◌, Option}
use dvbt_rx.Fifo.{
  Fifo, Rc, done, later, failed, Wait, returns, sleeps, try_push, try_pop, push_wait, pop_wait,
  close, clear,
}

pub record Callers (A : Type 0) : Type 0 where
  pub fifo : Fifo A
  pub pop_asleep : ℕ
  pub pop_awake : ℕ
  pub push_asleep : ℕ
  pub push_awake : ℕ

module _ {A : Type 0} where
  -- `pthread_cond_signal` wakes one of the callers that sleep, if there are any.
  pub signal_not_empty : Callers A → Callers A
  signal_not_empty w =
      if w.pop_asleep == 0
      then w
      else record w { pop_asleep = w.pop_asleep - 1; pop_awake = w.pop_awake + 1 }

  pub signal_not_full : Callers A → Callers A
  signal_not_full w =
      if w.push_asleep == 0
      then w
      else record w { push_asleep = w.push_asleep - 1; push_awake = w.push_awake + 1 }

  -- `pthread_cond_broadcast` wakes them all.
  pub broadcast_not_empty : Callers A → Callers A
  broadcast_not_empty w = record w { pop_asleep = 0; pop_awake = w.pop_awake + w.pop_asleep }

  pub broadcast_not_full : Callers A → Callers A
  broadcast_not_full w = record w { push_asleep = 0; push_awake = w.push_awake + w.push_asleep }

  -- A push signals when it has put its item in, and a pop when it has taken one out.
  pub after_push : Callers A → Rc × Fifo A → Callers A
  after_push w (done, f) = signal_not_empty (record w { fifo = f })
  after_push w (later, f) = record w { fifo = f }
  after_push w (failed, f) = record w { fifo = f }

  pub after_pop : Callers A → Rc × Option A × Fifo A → Callers A
  after_pop w (done, out, f) = signal_not_full (record w { fifo = f })
  after_pop w (later, out, f) = record w { fifo = f }
  after_pop w (failed, out, f) = record w { fifo = f }

  pub waiting_push : Callers A → Wait (Rc × Fifo A) → Callers A
  unfolding after_push
  waiting_push w sleeps = record w { push_asleep = w.push_asleep + 1 }
  waiting_push w (returns r) = after_push w r

  pub waiting_pop : Callers A → Wait (Rc × Option A × Fifo A) → Callers A
  unfolding after_pop
  waiting_pop w sleeps = record w { pop_asleep = w.pop_asleep + 1 }
  waiting_pop w (returns r) = after_pop w r

  pub call_try_push : A → Callers A → Callers A
  call_try_push x w = after_push w (try_push w.fifo x)

  pub call_try_pop : A → Callers A → Callers A
  call_try_pop d w = after_pop w (try_pop d w.fifo)

  pub call_push_wait : A → Callers A → Callers A
  call_push_wait x w = waiting_push w (push_wait w.fifo x)

  pub call_pop_wait : A → Callers A → Callers A
  call_pop_wait d w = waiting_pop w (pop_wait d w.fifo)

  pub call_close : Callers A → Callers A
  call_close w = broadcast_not_full (broadcast_not_empty (record w { fifo = close w.fifo }))

  pub call_clear : Callers A → Callers A
  call_clear w = broadcast_not_full (record w { fifo = clear w.fifo })
