-- ===== src/IqRing.antt =====
-- The ring of IQ samples between the reader of standard input and the front end, in
-- src/probe_constellation.c: `live_iq_ring_start`, `live_iq_ring_push`,
-- `live_iq_ring_reader_main`, `live_iq_ring_read` and `live_iq_ring_snapshot`.
-- A sample is a value of any type. The functions run under the ring's mutex; a call is one step,
-- and a reader that has to wait is put to sleep. `calloc` and `pthread_create` may fail. The display
-- of the samples, the log and the counters of a waiting producer, which stay 0, are left out.
pub mod Window
pub mod Push
pub mod Refine
mod Tests
use dvbt_rx.Base.{
  ℕ, zero, suc, ◌+◌, ◌-◌, ◌*◌, ◌%◌, ◌^◌, Bool, true, false, not, ◌&&◌, ◌||◌, if◌then◌else◌, ltb,
  ◌==◌, List, [], ◌∷◌, get_or, set, length, drop, replicate, Option, none, some,
}

pub record IqRing (A : Type 0) : Type 0 where
  pub items : List A
  pub cap : ℕ
  pub head : ℕ
  pub count : ℕ
  pub max_count : ℕ
  pub overrun_samples : ℕ
  pub eof : Bool
  pub started : Bool

abbrev pub u64 : ℕ
u64 = 2 ^ 64

pub capacity_for : ℕ → ℕ
capacity_for chunk_samples =
    let cap = chunk_samples * 4 in
    let cap₁ = if ltb cap (chunk_samples + 4096) then chunk_samples + 4096 else cap in
    if ltb cap₁ 16384 then 16384 else cap₁

module _ {A : Type 0} where
  -- The return code, and the ring. `allocated` and `created` are what `calloc` and `pthread_create`
  -- answer; the new items are zeroed.
  pub start : A → ℕ → Bool → Bool → IqRing A → Bool × IqRing A
  start zero_item chunk_samples allocated created r =
      let cap = capacity_for chunk_samples in
      if r.started
      then (true, r)
      else if not allocated
      then (false, record r { items = [] })
      else if created
      then (
        true,
        record {
          items = replicate cap zero_item;
          cap = cap;
          head = 0;
          count = 0;
          max_count = 0;
          overrun_samples = 0;
          eof = false;
          started = true;
        },
      )
      else (
        false,
        record {
          items = [];
          cap = 0;
          head = 0;
          count = 0;
          max_count = 0;
          overrun_samples = 0;
          eof = false;
          started = false;
        },
      )

  -- More samples than the ring holds: the oldest of them are left out.
  pub trim : List A → IqRing A → List A × IqRing A
  trim samples r =
      let drop_count = length samples - r.cap in
      if ltb r.cap (length samples)
      then (
        drop drop_count samples,
        record r { overrun_samples = (r.overrun_samples + drop_count) % u64 },
      )
      else (samples, r)

  -- The oldest samples of the ring go where there is no room for `write_count` more.
  pub make_room : ℕ → IqRing A → IqRing A
  make_room write_count r =
      let drop_count = write_count - (r.cap - r.count) in
      if ltb (r.cap - r.count) write_count
      then record r {
        head = (r.head + drop_count) % r.cap;
        count = r.count - drop_count;
        overrun_samples = (r.overrun_samples + drop_count) % u64;
      }
      else r

  pub write : List A → IqRing A → IqRing A
  write [] r = r
  write (x ∷ samples) r =
      write samples
        (record r { items = set r.items ((r.head + r.count) % r.cap) x; count = r.count + 1 })

  pub note_fill : IqRing A → IqRing A
  note_fill r = if ltb r.max_count r.count then record r { max_count = r.count } else r

  -- The body of the loop of `live_iq_ring_push`: what is left of the samples, and the ring.
  pub push_round : List A → IqRing A → List A × IqRing A
  push_round samples r =
      let (samples₁, r₁) = trim samples r in
      let write_count = length samples₁ in
      (drop write_count samples₁, note_fill (write samples₁ (make_room write_count r₁)))

  -- The loop, with as many rounds as there are samples.
  pub push_loop : ℕ → List A → IqRing A → IqRing A
  push_loop zero samples r = r
  push_loop (suc n) samples r =
      let later = push_loop n (push_round samples r).0 (push_round samples r).1 in
      if length samples == 0 then r else later

  pub push : List A → IqRing A → IqRing A
  push samples r =
      if length r.items == 0 || r.cap == 0 then r else push_loop (length samples) samples r

  -- `live_iq_ring_reader_main` on the blocks that `rbdvbt_read_iq` gives: an empty one ends it.
  pub reader_main : List (List A) → IqRing A → IqRing A
  reader_main [] r = r
  reader_main ([] ∷ blocks) r = record r { eof = true }
  reader_main ((x ∷ block) ∷ blocks) r = reader_main blocks (push (x ∷ block) r)

  -- The loop of `live_iq_ring_read`; `d` is what a read out of range gives.
  pub take_samples : A → ℕ → IqRing A → List A × IqRing A
  take_samples d zero r = ([], r)
  take_samples d (suc n) r =
      let rest = take_samples d n (record r { head = (r.head + 1) % r.cap; count = r.count - 1 }) in
      let found : List A × IqRing A = (get_or r.items r.head d ∷ rest.0, rest.1) in
      if r.count == 0 then ([], r) else found

  -- A read that began when `overrun_before` samples had been lost: it sleeps, or gives the samples
  -- out with those lost since.
  pub read : A → ℕ → ℕ → IqRing A → Option (List A × ℕ) × IqRing A
  read d want overrun_before r =
      let want₁ = if ltb r.count want && r.eof then r.count else want in
      let (out, r') = take_samples d want₁ r in
      if ltb r.count want && not r.eof
      then (none, r)
      else (some (out, (r'.overrun_samples + u64 - overrun_before) % u64), r')

  -- `fill`, `capacity`, `max_fill` and `dropped_samples`.
  pub snapshot : IqRing A → ℕ × ℕ × ℕ × ℕ
  snapshot r = (r.count, r.cap, r.max_count, r.overrun_samples)
