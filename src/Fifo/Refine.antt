-- ===== src/Fifo/Refine.antt =====
-- The ring of src/pipeline.c holds the bounded queue of `Fifo.Queue`.
use native.Mathlib.Numerals.{add-one}
use native.Mathlib.Nat.{add_assoc, mod-add-mod, mod-eq_of_lt}
use dvbt_rx.Base.{ℕ, ◌+◌, ◌-◌, ◌%◌, ◌≤◌, ◌<◌, ◌≡◌, ◌≢◌, ◌∙◌, refl, sym, ap, arith}
use dvbt_rx.Base.{false, [], ◌∷◌, ◌++◌, some}
use dvbt_rx.Base.{length, set, replicate, length-set, length-replicate}
use dvbt_rx.Base.{ring_from, length-ring_from, ring_from-set, ring_from_pos}
use dvbt_rx.Fifo.{Fifo, init, push_locked, pop_locked, try_push, try_pop}
use dvbt_rx.Fifo.Queue
use dvbt_rx.Fifo.Queue.{Queue}

pub record IsValid {A : Type 0} (f : Fifo A) : Type 0 where
  pub some_room : 0 < f.capacity
  pub storage : length f.items ≡ f.capacity
  pub head_in : f.head < f.capacity
  pub count_in : f.count ≤ f.capacity
  pub tail_at : f.tail ≡ (f.head + f.count) % f.capacity

module _ {A : Type 0} (d : A) where
  -- The queue that a ring holds.
  abbrev pub contents : Fifo A → Queue A
  contents f = record { waiting = ring_from d f.capacity f.items f.head f.count; closed = f.closed }

  -- `rbdvbt_fifo_init` refuses an empty item or no capacity, and otherwise gives a valid empty ring.
  pub init-IsValid :
      (item_size capacity : ℕ)
      → item_size ≢ 0
      → capacity ≢ 0
      → (f : Fifo A) × (init d item_size capacity ≡ some f)
        × IsValid f
        × (contents f ≡ record { waiting = []; closed = false })
        × (f.capacity ≡ capacity)
  unfolding init
  init-IsValid item_size capacity p q = (
    record {
      items = replicate capacity d;
      capacity = capacity;
      head = 0;
      tail = 0;
      count = 0;
      closed = false;
    },
    ground arith,
    record {
      some_room = omega arith;
      storage = length-replicate capacity d;
      head_in = omega arith;
      count_in = omega arith;
      tail_at = sym (mod-eq_of_lt (omega arith));
    },
    refl,
    refl,
  )

  pub push_locked-IsValid :
      (f : Fifo A) (x : A) → IsValid f → f.count < f.capacity → IsValid (push_locked f x)
  unfolding push_locked
  push_locked-IsValid f x v h = ground (
    arith,
    length-set f.items f.tail x,
    mod-add-mod (f.head + f.count) f.capacity 1,
    ap (λ k. k % f.capacity) (add_assoc f.head f.count 1),
  )

  pub capacity-push_locked : (f : Fifo A) (x : A) → (push_locked f x).capacity ≡ f.capacity
  unfolding push_locked
  capacity-push_locked f x = refl

  pub contents-push_locked :
      (f : Fifo A) (x : A)
      → IsValid f
      → f.count < f.capacity
      → contents (push_locked f x)
        ≡ record { waiting = (contents f).waiting ++ (x ∷ []); closed = f.closed }
  unfolding push_locked
  contents-push_locked f x v h =
      ap (λ w. record { waiting = w; closed = f.closed })
        (ap (λ k. ring_from d f.capacity (set f.items f.tail x) f.head k) (add-one f.count)
          ∙ ring_from-set d f.capacity f.count f.items f.head f.tail x v.storage v.head_in h
              v.tail_at)

  pub pop_locked-IsValid : (f : Fifo A) → IsValid f → f.count ≢ 0 → IsValid (pop_locked d f).1
  unfolding pop_locked
  pop_locked-IsValid f v h =
      ground
        (arith, mod-add-mod (f.head + 1) f.capacity (f.count - 1), ap (λ k. k % f.capacity) regroup)
    where
      regroup : f.head + 1 + (f.count - 1) ≡ f.head + f.count
      regroup = omega arith

  -- `rbdvbt_fifo_try_push` answers and acts as the push of the queue, and keeps the ring valid.
  pub try_push_refines :
      (f : Fifo A) (x : A)
      → IsValid f
      → let (rc, f') = try_push f x in
        ((rc, contents f') ≡ Queue.push f.capacity (contents f) x) × IsValid f'
  unfolding try_push Queue.push
  try_push_refines f x v = ground (
    arith,
    length-ring_from d f.capacity f.items f.head f.count,
    contents-push_locked f x v,
    push_locked-IsValid f x v,
  )

  -- `rbdvbt_fifo_try_pop` answers and acts as the pop of the queue, and keeps the ring valid.
  pub try_pop_refines :
      (f : Fifo A)
      → IsValid f
      → let (rc, out, f') = try_pop d f in
        ((rc, out, contents f') ≡ Queue.pop (contents f)) × IsValid f'
  unfolding try_pop Queue.pop Queue.pop_from pop_locked
  try_pop_refines f v =
      ground (arith, ring_from_pos d f.capacity f.items f.head f.count, pop_locked-IsValid f v)
