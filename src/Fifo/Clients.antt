-- ===== src/Fifo/Clients.antt =====
-- Any sequence of calls by any threads, each under the mutex of src/pipeline.c.
use native.Mathlib.Nat.{mod-eq_of_lt}
use dvbt_rx.Base.{length-ring_from, ring_from_pos, ◌≡◌, refl, arith, ap, ap₂, ◌∙◌}
use dvbt_rx.Base.{List, [], ◌∷◌, Option, none, some}
use dvbt_rx.Fifo.{
  Fifo, Rc, done, Wait, returns, sleeps, pop_locked, try_push, try_pop, push_wait, pop_wait, close,
  clear,
}
use dvbt_rx.Fifo.Queue
use dvbt_rx.Fifo.Queue.{Queue, Call, Reply}
use dvbt_rx.Fifo.Refine.{
  IsValid, contents, push_locked-IsValid, capacity-push_locked, contents-push_locked,
  pop_locked-IsValid,
}

module _ {A : Type 0} (d : A) where
  -- What a thread sees of its call.
  pushed : Fifo A → Wait (Rc × Fifo A) → Reply A × Fifo A
  pushed f sleeps = (none, f)
  pushed f (returns (rc, f')) = (some (rc, none), f')

  popped : Fifo A → Wait (Rc × Option A × Fifo A) → Reply A × Fifo A
  popped f sleeps = (none, f)
  popped f (returns (rc, out, f')) = (some (rc, out), f')

  unfoldable pub step : Fifo A → Call A → Reply A × Fifo A
  unfolding pushed popped
  step f (Call.try_push x) = let (rc, f') = try_push f x in (some (rc, none), f')
  step f (Call.push_wait x) = pushed f (push_wait f x)
  step f Call.try_pop = let (rc, out, f') = try_pop d f in (some (rc, out), f')
  step f Call.pop_wait = popped f (pop_wait d f)
  step f Call.close = (some (done, none), close f)
  step f Call.clear = (some (done, none), clear f)

  unfoldable pub run : Fifo A → List (Call A) → List (Reply A)
  run f [] = []
  run f (c ∷ cs) = let (r, f') = step f c in r ∷ run f' cs

  -- One call answers and acts as the queue's, and keeps the ring valid and its capacity.
  pub step_refines :
      (f : Fifo A) (c : Call A)
      → IsValid f
      → let (r, f') = step f c in
        ((r, contents d f') ≡ Queue.step f.capacity (contents d f) c)
        × IsValid f'
        × (f'.capacity ≡ f.capacity)
  unfolding step pushed popped try_push try_pop push_wait pop_wait pop_locked close clear Queue.step
      Queue.push Queue.pop Queue.pop_from
  step_refines f (Call.try_push x) v = ground (
    arith,
    length-ring_from d f.capacity f.items f.head f.count,
    contents-push_locked d f x v,
    push_locked-IsValid d f x v,
    capacity-push_locked d f x,
  )
  step_refines f (Call.push_wait x) v = ground (
    arith,
    length-ring_from d f.capacity f.items f.head f.count,
    contents-push_locked d f x v,
    push_locked-IsValid d f x v,
    capacity-push_locked d f x,
  )
  step_refines f Call.try_pop v = ground (
    arith,
    length-ring_from d f.capacity f.items f.head f.count,
    ring_from_pos d f.capacity f.items f.head f.count,
    pop_locked-IsValid d f v,
  )
  step_refines f Call.pop_wait v = ground (
    arith,
    length-ring_from d f.capacity f.items f.head f.count,
    ring_from_pos d f.capacity f.items f.head f.count,
    pop_locked-IsValid d f v,
  )
  step_refines f Call.close v = (refl, omega arith, refl)
  step_refines f Call.clear v = (refl, ground (arith, mod-eq_of_lt {n = 0} {m = f.capacity}), refl)

  -- No sequence of calls tells a valid ring from the bounded queue of its items.
  pub run_refines :
      (cs : List (Call A)) (f : Fifo A)
      → IsValid f
      → run f cs ≡ Queue.run f.capacity (contents d f) cs
  unfolding run Queue.run
  run_refines [] f v = refl
  run_refines (c ∷ cs) f v =
      let (same, valid, cap) = step_refines f c v in
      ap₂ ◌∷◌ (ap (λ p. p.0) same)
        (run_refines cs (step f c).1 valid ∙ ap₂ (λ n q. Queue.run n q cs) cap (ap (λ p. p.1) same))
