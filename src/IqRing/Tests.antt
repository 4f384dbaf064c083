-- ===== src/IqRing/Tests.antt =====
-- A ring of three samples that loses some.
use dvbt_rx.Base.{ℕ, ◌≡◌, refl, arith, false, true, List, [], ◌∷◌, some, none}
use dvbt_rx.IqRing
use dvbt_rx.IqRing.{IqRing, capacity_for, start}
use dvbt_rx.IqRing.Window
use dvbt_rx.IqRing.Window.{Call, brings, wants, ends}
use dvbt_rx.IqRing.Push.{IsValid}
use dvbt_rx.IqRing.Refine.{run, run-Window, window}

abbrev small : IqRing ℕ
small = record {
  items = 0 ∷ 0 ∷ 0 ∷ [];
  cap = 3;
  head = 2;
  count = 0;
  max_count = 0;
  overrun_samples = 0;
  eof = false;
  started = true;
}

small-IsValid : IsValid small
small-IsValid = record {
  some_room = omega arith;
  storage = refl;
  head_in = omega arith;
  count_in = omega arith;
  lost_in = omega arith;
}

-- Two samples, then three more: the first two are lost.
abbrev calls : List (Call ℕ)
calls =
    wants 2 0
    ∷ brings (1 ∷ 2 ∷ [])
    ∷ brings (3 ∷ 4 ∷ 5 ∷ [])
    ∷ wants 2 0
    ∷ wants 2 2
    ∷ ends
    ∷ wants 2 2
    ∷ []

run-calls :
    run 0 calls small
    ≡ none ∷ none ∷ none ∷ some (3 ∷ 4 ∷ [], 2) ∷ none ∷ none ∷ some (5 ∷ [], 0) ∷ []
unfolding run IqRing.push IqRing.push_loop IqRing.push_round IqRing.trim IqRing.make_room
    IqRing.write IqRing.note_fill IqRing.read IqRing.take_samples
run-calls = refl

-- More samples at once than the ring holds.
run_block :
    run 0 (brings (1 ∷ 2 ∷ 3 ∷ 4 ∷ []) ∷ wants 3 0 ∷ []) small
    ≡ none ∷ some (2 ∷ 3 ∷ 4 ∷ [], 1) ∷ []
unfolding run IqRing.push IqRing.push_loop IqRing.push_round IqRing.trim IqRing.make_room
    IqRing.write IqRing.note_fill IqRing.read IqRing.take_samples
run_block = refl

run-Window_example : run 0 calls small ≡ Window.run 3 calls (window 0 small)
run-Window_example = run-Window 0 calls small small-IsValid
