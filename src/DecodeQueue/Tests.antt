-- ===== src/DecodeQueue/Tests.antt =====
-- Jobs of one and two symbols, one of them refused, and the theorems about the queue there.
use dvbt_rx.Base.{
  ℕ, ◌≡◌, refl, arith, ◌*◌, ◌+◌, map, Bool, true, false, List, [], ◌∷◌, replicate, length-replicate,
  none, min,
}
use dvbt_rx.Puncture.{Fec}
use dvbt_rx.DecodeQueue.{Job, DecodeQueue, make_job, queue_job, enqueue, drop_symbols}
use dvbt_rx.DecodeQueue.Reach.{System, Step, Reach, IsConsistent, Reach-IsConsistent}
use dvbt_rx.DecodeQueue.Drops.{IsCounted, IsWithout, drop_symbols-IsWithout}

cells : ℕ → List ℕ
cells n = replicate n 7

abbrev job_of : ℕ → ℕ → Job ℕ
job_of seq n = make_job Fec.fec_1_2 (cells (n * 1512)) none seq 0 n true

abbrev empty : DecodeQueue ℕ
empty = record {
  jobs = [];
  job_count = 0;
  queued_symbols = 0;
  processing_symbols = 0;
  epoch = 0;
  gap_pending = false;
  stop = false;
}

abbrev after_calls : DecodeQueue ℕ
after_calls =
    (enqueue true (job_of 1026 1)
      (enqueue true (job_of 2 1024) (enqueue true (job_of 0 2) empty).1).1).1

-- The job behind the refused one is not continuous.
calls_run :
    (after_calls.queued_symbols ≡ 3)
    × (map {B = Bool} (λ job. job.continuous) after_calls.jobs ≡ true ∷ false ∷ [])
unfolding cells enqueue queue_job make_job
calls_run = (refl, refl)

abbrev start : System ℕ
start = record { queue = empty; in_flight = none; next_seq = 0; last = none }

start-IsConsistent : IsConsistent start
start-IsConsistent = record {
  jobs_counted = refl;
  symbols_counted = refl;
  in_bounds = omega arith;
  flight_counted = refl;
  flight_in_bounds = omega arith;
  epochs = tt;
  linked = tt;
  at_end = λ _ _. tt;
}

abbrev reached : System ℕ
reached = record start { queue = after_calls; next_seq = 1027 }

three_calls : Reach start reached
unfolding make_job
three_calls =
    Reach.next
      (Reach.next (Reach.next Reach.here (Step.enqueues start (job_of 0 2) refl)) (
        Step.enqueues (record start { queue = (enqueue true (job_of 0 2) empty).1; next_seq = 2 })
          (job_of 2 1024) refl))
      (Step.enqueues
        (record start {
          queue = (enqueue true (job_of 2 1024) (enqueue true (job_of 0 2) empty).1).1;
          next_seq = 1026;
        })
        (job_of 1026 1) refl)

Reach-IsConsistent_example : IsConsistent reached
Reach-IsConsistent_example = Reach-IsConsistent start-IsConsistent three_calls

after_calls-IsCounted : IsCounted after_calls
unfolding cells make_job enqueue queue_job
after_calls-IsCounted = record {
  jobs_counted = refl;
  symbols_counted = refl;
  are_whole = (
    record { some_symbol = omega arith; cells_counted = length-replicate (2 * 1512) (7 + 0) },
    (record { some_symbol = omega arith; cells_counted = length-replicate (1 * 1512) (7 + 0) }, tt),
  );
}

drop_symbols-IsWithout_example :
    ((drop_symbols 2 after_calls).0 ≡ min 2 after_calls.queued_symbols)
    × IsWithout 2 after_calls (drop_symbols 2 after_calls).1
drop_symbols-IsWithout_example = drop_symbols-IsWithout 2 after_calls after_calls-IsCounted
