-- ===== src/Fifo/Tests.antt =====
-- A queue of two slots, and the theorems about queues at it.
use dvbt_rx.Base.{ℕ, ◌≡◌, refl, arith, false, List, [], ◌∷◌, none, some}
use dvbt_rx.Fifo.{
  Fifo, done, later, failed, push_locked, pop_locked, try_push, try_pop, push_wait, pop_wait, close,
  clear,
}
use dvbt_rx.Fifo.Queue
use dvbt_rx.Fifo.Queue.{Call}
use dvbt_rx.Fifo.Refine.{IsValid, contents}
use dvbt_rx.Fifo.Clients.{step, run, run_refines}

-- 8, then 9, round the end of the storage.
abbrev wrapped : Fifo ℕ
wrapped = record {
  items = 9 ∷ 7 ∷ 8 ∷ [];
  capacity = 3;
  head = 2;
  tail = 1;
  count = 2;
  closed = false;
}

abbrev calls : List (Call ℕ)
calls =
    Call.try_push 1
    ∷ Call.push_wait 2
    ∷ Call.try_pop
    ∷ Call.close
    ∷ Call.try_push 3
    ∷ Call.pop_wait
    ∷ Call.pop_wait
    ∷ Call.pop_wait
    ∷ []

run-wrapped :
    run 0 wrapped calls
    ≡ some (done, none)
      ∷ none
      ∷ some (done, some 8)
      ∷ some (done, none)
      ∷ some (failed, none)
      ∷ some (done, some 9)
      ∷ some (done, some 1)
      ∷ some (later, none)
      ∷ []
unfolding run step try_push try_pop push_wait pop_wait push_locked pop_locked close clear
run-wrapped = refl

wrapped-IsValid : IsValid wrapped
wrapped-IsValid = omega arith

run_refines_example : run 0 wrapped calls ≡ Queue.run 3 (contents 0 wrapped) calls
run_refines_example = run_refines 0 calls wrapped wrapped-IsValid
