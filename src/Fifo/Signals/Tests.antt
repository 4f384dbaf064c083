-- ===== src/Fifo/Signals/Tests.antt =====
-- Callers that wait for an item, and the theorem about their signals there.
use dvbt_rx.Base.{ℕ, ◌-◌, ◌<◌, ◌≡◌, refl, arith, false, [], ◌∷◌}
use dvbt_rx.Fifo.{push_locked, pop_locked, try_push, push_wait, pop_wait}
use dvbt_rx.Fifo.Signals.{
  Callers, signal_not_empty, signal_not_full, after_push, after_pop, waiting_push, waiting_pop,
  call_try_push, call_push_wait, call_pop_wait,
}
use dvbt_rx.Fifo.Signals.Lost.{NoneLost, Step, Reach, Reach-NoneLost}

-- Three callers wait for an item of an empty queue; two items come, and one of the woken callers
-- takes one.
abbrev waiting : Callers ℕ
waiting = record {
  fifo = record { items = 0 ∷ 0 ∷ []; capacity = 2; head = 0; tail = 0; count = 0; closed = false };
  pop_asleep = 3;
  pop_awake = 0;
  push_asleep = 0;
  push_awake = 0;
}

waiting-NoneLost : NoneLost waiting
waiting-NoneLost = record {
  valid = omega arith;
  pop_open = λ h. refl;
  pop_woken = λ h. omega arith;
  push_open = λ h. absurd (omega arith);
  push_woken = λ h. absurd (omega arith);
}

abbrev two_items : Callers ℕ
two_items = call_try_push 5 (call_push_wait 4 waiting)

abbrev one_taken : Callers ℕ
one_taken = call_pop_wait 0 (record two_items { pop_awake = two_items.pop_awake - 1 })

awake_and_asleep :
    (one_taken.pop_awake ≡ 1) × (one_taken.pop_asleep ≡ 1) × (one_taken.fifo.count ≡ 1)
unfolding call_try_push call_push_wait call_pop_wait after_push after_pop waiting_push waiting_pop
    signal_not_empty signal_not_full try_push push_wait pop_wait push_locked pop_locked
awake_and_asleep = (refl, refl, refl)

some_awake : 0 < two_items.pop_awake
unfolding call_try_push call_push_wait after_push waiting_push signal_not_empty try_push push_wait
    push_locked
some_awake = omega arith

Reach-NoneLost_example : NoneLost one_taken
Reach-NoneLost_example = Reach-NoneLost 0 waiting-NoneLost (
    Reach.next (Reach.next (Reach.next Reach.here (Step.waits_push 4)) (Step.tries_push 5))
      (Step.pops_again some_awake))
