-- ===== src/Fifo/Signals/Lost.antt =====
-- No signal of src/pipeline.c is lost, whatever the order of the calls.
use native.Mathlib.Nat.{mod-eq_of_lt}
use mathlib.Core.Bool.{true≢false}
use dvbt_rx.Base.{
  sym, ◌∙◌, ℕ, ◌+◌, ◌-◌, ◌≤◌, ◌<◌, ◌≡◌, ◌≢◌, refl, arith, Bool, true, false, ◌&&◌, ◌==◌, inl, inr,
  Bool-cases, ==_iff, not-==_ne,
}
use dvbt_rx.Fifo.{push_locked, pop_locked, try_push, try_pop, push_wait, pop_wait, close, clear}
use dvbt_rx.Fifo.Refine.{IsValid, push_locked-IsValid, pop_locked-IsValid}
use dvbt_rx.Fifo.Signals.{
  Callers, signal_not_empty, signal_not_full, broadcast_not_empty, broadcast_not_full, after_push,
  after_pop, waiting_push, waiting_pop, call_try_push, call_try_pop, call_push_wait, call_pop_wait,
  call_close, call_clear,
}

-- One turn under the mutex: a call, or a caller that has been woken and tries again. A sleeper may
-- also wake by itself. `d` is what a read out of range gives.
pub data Step {A : Type 0} (d : A) (w : Callers A) : Callers A → Type 0 where
  tries_push : (x : A) → Step d w (call_try_push x w)
  tries_pop : Step d w (call_try_pop d w)
  waits_push : (x : A) → Step d w (call_push_wait x w)
  waits_pop : Step d w (call_pop_wait d w)
  pushes_again :
      (x : A)
      → 0 < w.push_awake
      → Step d w (call_push_wait x (record w { push_awake = w.push_awake - 1 }))
  pops_again :
      0 < w.pop_awake → Step d w (call_pop_wait d (record w { pop_awake = w.pop_awake - 1 }))
  closes : Step d w (call_close w)
  clears : Step d w (call_clear w)
  pusher_wakes :
      0 < w.push_asleep
      → Step d w (record w { push_asleep = w.push_asleep - 1; push_awake = w.push_awake + 1 })
  popper_wakes :
      0 < w.pop_asleep
      → Step d w (record w { pop_asleep = w.pop_asleep - 1; pop_awake = w.pop_awake + 1 })

pub data Reach {A : Type 0} (d : A) (w : Callers A) : Callers A → Type 0 where
  here : Reach d w w
  next : {t u : Callers A} → Reach d w t → Step d t u → Reach d w u

-- While a caller sleeps for an item, the queue is open and each item waiting, but `p` of them, has
-- a woken caller to come for it; while one sleeps for room, the queue is open and so has each free
-- slot but `q`.
pub record IsServed {A : Type 0} (p q : ℕ) (w : Callers A) : Type 0 where
  pub valid : IsValid w.fifo
  pub pop_open : 0 < w.pop_asleep → w.fifo.closed ≡ false
  pub pop_woken : 0 < w.pop_asleep → w.fifo.count ≤ w.pop_awake + p
  pub push_open : 0 < w.push_asleep → w.fifo.closed ≡ false
  pub push_woken : 0 < w.push_asleep → w.fifo.capacity ≤ w.fifo.count + w.push_awake + q

-- With none left out.
abbrev pub NoneLost : {A : Type 0} → Callers A → Type 0
NoneLost w = IsServed 0 0 w

module _ {A : Type 0} (d : A) where
  served : (p q : ℕ) (w : Callers A) → NoneLost w → IsServed p q w
  served p q w v = record {
    valid = v.valid;
    pop_open = v.pop_open;
    pop_woken = λ h. omega (arith, v.pop_woken);
    push_open = v.push_open;
    push_woken = λ h. omega (arith, v.push_woken);
  }

  put-NoneLost :
      (w : Callers A) (x : A)
      → IsServed 0 1 w
      → w.fifo.count < w.fifo.capacity
      → NoneLost (signal_not_empty (record w { fifo = push_locked w.fifo x }))
  unfolding signal_not_empty push_locked
  put-NoneLost w x v room = elim (Bool-cases (w.pop_asleep == 0)) [
    | inl nobody ↦ rw nobody (record {
      valid = push_locked-IsValid d w.fifo x v.valid room;
      pop_open = v.pop_open;
      pop_woken = λ h. absurd (ground arith);
      push_open = v.push_open;
      push_woken = λ h. omega (arith, v.push_woken);
    })
    | inr somebody ↦
        let asleep = not-==_ne w.pop_asleep 0 somebody in
        rw somebody (record {
          valid = push_locked-IsValid d w.fifo x v.valid room;
          pop_open = λ h. v.pop_open (omega arith);
          pop_woken = λ h. omega (arith, v.pop_woken);
          push_open = v.push_open;
          push_woken = λ h. omega (arith, v.push_woken);
        })
  ]

  taken-NoneLost :
      (w : Callers A)
      → IsServed 1 0 w
      → w.fifo.count ≢ 0
      → NoneLost (signal_not_full (record w { fifo = (pop_locked d w.fifo).1 }))
  unfolding signal_not_full pop_locked
  taken-NoneLost w v some_item = elim (Bool-cases (w.push_asleep == 0)) [
    | inl nobody ↦ rw nobody (record {
      valid = pop_locked-IsValid d w.fifo v.valid some_item;
      pop_open = v.pop_open;
      pop_woken = λ h. omega (arith, v.pop_woken);
      push_open = v.push_open;
      push_woken = λ h. absurd (ground arith);
    })
    | inr somebody ↦
        let asleep = not-==_ne w.push_asleep 0 somebody in
        rw somebody (record {
          valid = pop_locked-IsValid d w.fifo v.valid some_item;
          pop_open = v.pop_open;
          pop_woken = λ h. omega (arith, v.pop_woken);
          push_open = λ h. v.push_open (omega arith);
          push_woken = λ h. omega (arith, v.push_woken);
        })
  ]

  and_false : (b : Bool) → (b && false) ≡ false
  and_false true = refl
  and_false false = refl

  -- Nobody sleeps on a queue that is closed.
  closed-NoneLost : (p q : ℕ) (w : Callers A) → IsServed p q w → w.fifo.closed ≡ true → NoneLost w
  closed-NoneLost p q w v shut = record {
    valid = v.valid;
    pop_open = v.pop_open;
    pop_woken = λ h. absurd (true≢false (sym shut ∙ v.pop_open h));
    push_open = v.push_open;
    push_woken = λ h. absurd (true≢false (sym shut ∙ v.push_open h));
  }

  push_wait-NoneLost : (w : Callers A) (x : A) → IsServed 0 1 w → NoneLost (call_push_wait x w)
  unfolding call_push_wait waiting_push after_push push_wait
  push_wait-NoneLost w x v = elim (Bool-cases w.fifo.closed) [
    | inl shut ↦ simp shut (closed-NoneLost 0 1 w v shut)
    | inr is_open ↦ elim (Bool-cases (w.fifo.count == w.fifo.capacity)) [
      | inl full ↦
          let same = (==_iff w.fifo.count w.fifo.capacity).0 full in
          simp (is_open, full)
            (record {
              valid = v.valid;
              pop_open = v.pop_open;
              pop_woken = v.pop_woken;
              push_open = λ h. is_open;
              push_woken = λ h. omega arith;
            })
      | inr free ↦
          let room = not-==_ne w.fifo.count w.fifo.capacity free in
          simp (is_open, free) (put-NoneLost w x v (omega (arith, v.valid.count_in)))
    ]
  ]

  pop_wait-NoneLost : (w : Callers A) → IsServed 1 0 w → NoneLost (call_pop_wait d w)
  unfolding call_pop_wait waiting_pop after_pop pop_wait
  pop_wait-NoneLost w v = elim (Bool-cases (w.fifo.count == 0)) [
    | inr items ↦ simp (items, and_false) (taken-NoneLost w v (not-==_ne w.fifo.count 0 items))
    | inl empty ↦ elim (Bool-cases w.fifo.closed) [
      | inl shut ↦ simp (empty, shut) (closed-NoneLost 1 0 w v shut)
      | inr is_open ↦
          let none_left = (==_iff w.fifo.count 0).0 empty in
          simp (empty, is_open)
            (record {
              valid = v.valid;
              pop_open = λ h. is_open;
              pop_woken = λ h. omega arith;
              push_open = v.push_open;
              push_woken = v.push_woken;
            })
    ]
  ]

  try_push-NoneLost : (w : Callers A) (x : A) → NoneLost w → NoneLost (call_try_push x w)
  unfolding call_try_push after_push try_push
  try_push-NoneLost w x v = elim (Bool-cases w.fifo.closed) [
    | inl shut ↦ simp shut v
    | inr is_open ↦ elim (Bool-cases (w.fifo.count == w.fifo.capacity)) [
      | inl full ↦ simp (is_open, full) v
      | inr free ↦
          let room = not-==_ne w.fifo.count w.fifo.capacity free in
          simp (is_open, free) (put-NoneLost w x (served 0 1 w v) (omega (arith, v.valid.count_in)))
    ]
  ]

  try_pop-NoneLost : (w : Callers A) → NoneLost w → NoneLost (call_try_pop d w)
  unfolding call_try_pop after_pop try_pop
  try_pop-NoneLost w v = elim (Bool-cases (w.fifo.count == 0)) [
    | inl empty ↦ simp empty v
    | inr items ↦ simp items (taken-NoneLost w (served 1 0 w v) (not-==_ne w.fifo.count 0 items))
  ]

  close-NoneLost : (w : Callers A) → NoneLost w → NoneLost (call_close w)
  unfolding call_close broadcast_not_empty broadcast_not_full close
  close-NoneLost w v = record {
    valid = record {
      some_room = v.valid.some_room;
      storage = v.valid.storage;
      head_in = v.valid.head_in;
      count_in = v.valid.count_in;
      tail_at = v.valid.tail_at;
    };
    pop_open = λ h. absurd (omega arith);
    pop_woken = λ h. absurd (omega arith);
    push_open = λ h. absurd (omega arith);
    push_woken = λ h. absurd (omega arith);
  }

  clear-NoneLost : (w : Callers A) → NoneLost w → NoneLost (call_clear w)
  unfolding call_clear broadcast_not_full clear
  clear-NoneLost w v = record {
    valid = record {
      some_room = v.valid.some_room;
      storage = v.valid.storage;
      head_in = v.valid.some_room;
      count_in = omega arith;
      tail_at = sym (mod-eq_of_lt {n = 0} {m = w.fifo.capacity} v.valid.some_room);
    };
    pop_open = v.pop_open;
    pop_woken = λ h. omega arith;
    push_open = λ h. absurd (omega arith);
    push_woken = λ h. absurd (omega arith);
  }

  Step-NoneLost : {w t : Callers A} → Step d w t → NoneLost w → NoneLost t
  Step-NoneLost {w} (tries_push x) v = try_push-NoneLost w x v
  Step-NoneLost {w} tries_pop v = try_pop-NoneLost w v
  Step-NoneLost {w} (waits_push x) v = push_wait-NoneLost w x (served 0 1 w v)
  Step-NoneLost {w} waits_pop v = pop_wait-NoneLost w (served 1 0 w v)
  Step-NoneLost {w} (pushes_again x some_awake) v = push_wait-NoneLost _ x (record {
    valid = v.valid;
    pop_open = v.pop_open;
    pop_woken = v.pop_woken;
    push_open = v.push_open;
    push_woken = λ h. omega (arith, v.push_woken);
  })
  Step-NoneLost {w} (pops_again some_awake) v = pop_wait-NoneLost _ (record {
    valid = v.valid;
    pop_open = v.pop_open;
    pop_woken = λ h. omega (arith, v.pop_woken);
    push_open = v.push_open;
    push_woken = v.push_woken;
  })
  Step-NoneLost {w} closes v = close-NoneLost w v
  Step-NoneLost {w} clears v = clear-NoneLost w v
  Step-NoneLost {w} (pusher_wakes somebody) v = record {
    valid = v.valid;
    pop_open = v.pop_open;
    pop_woken = v.pop_woken;
    push_open = λ h. v.push_open (omega arith);
    push_woken = λ h. omega (arith, v.push_woken);
  }
  Step-NoneLost {w} (popper_wakes somebody) v = record {
    valid = v.valid;
    pop_open = λ h. v.pop_open (omega arith);
    pop_woken = λ h. omega (arith, v.pop_woken);
    push_open = v.push_open;
    push_woken = v.push_woken;
  }

  -- No signal is lost: in every state that calls, woken callers that try again and sleepers that
  -- wake by themselves lead to, from one where this holds, the ring is valid; while a caller of
  -- rbdvbt_fifo_pop_wait sleeps the queue is open and has at most as many items as there are
  -- woken callers of it; and while a caller of rbdvbt_fifo_push_wait sleeps the queue is open and
  -- has at most as many free slots as there are woken callers of it.
  pub Reach-NoneLost : {w t : Callers A} → NoneLost w → Reach d w t → NoneLost t
  Reach-NoneLost v here = v
  Reach-NoneLost v (next r st) = Step-NoneLost st (Reach-NoneLost v r)
