-- ===== src/DecodeQueue/Reach.antt =====
-- Every state that the front end and the worker reach by their calls on the queue of jobs.
use dvbt_rx.Base.{
  ℕ, ◌+◌, ◌-◌, ◌%◌, ◌^◌, ◌≤◌, ◌≡◌, refl, sym, ap, ◌∙◌, arith, Bool, true, false, not, ◌&&◌,
  if◌then◌else◌, ltb, leb, List, [], ◌∷◌, ◌++◌, length, length-append, All, Option, none, some, inl,
  inr, Bool-cases, subst,
}
use dvbt_rx.DecodeQueue.{
  Job, DecodeQueue, Taken, queue_job, enqueue, take_from, take_job, finish_job, stop_worker,
  invalidate, load_percent,
}

abbrev pub IsAt : Option ℕ → ℕ → Type 0
IsAt none seq = Unit
IsAt (some e) seq = e ≡ seq

module _ {S : Type 0} where
  abbrev pub symbols_of : List (Job S) → ℕ
  symbols_of [] = 0
  symbols_of (job ∷ jobs) = job.symbol_count + symbols_of jobs

  abbrev pub end_of : Job S → ℕ
  end_of job = job.seq_start + job.symbol_count

  -- Where the last job ends, after one that ended at `last`, if that is known.
  abbrev pub last_end : Option ℕ → List (Job S) → Option ℕ
  last_end last [] = last
  last_end last (job ∷ jobs) = last_end (some (end_of job)) jobs

  -- A continuous job begins where the one before it ended.
  abbrev pub AreLinked : Option ℕ → List (Job S) → Type 0
  AreLinked last [] = Unit
  AreLinked last (job ∷ jobs) =
      (job.continuous ≡ true → IsAt last job.seq_start) × AreLinked (some (end_of job)) jobs

  abbrev pub flight_symbols : Option (Job S) → ℕ
  flight_symbols none = 0
  flight_symbols (some job) = job.symbol_count

  symbols_of-snoc :
      (jobs : List (Job S)) (job : Job S)
      → symbols_of (jobs ++ (job ∷ [])) ≡ symbols_of jobs + job.symbol_count
  symbols_of-snoc [] job = omega arith
  symbols_of-snoc (j ∷ jobs) job = omega (arith, symbols_of-snoc jobs job)

  last_end-snoc :
      (last : Option ℕ) (jobs : List (Job S)) (job : Job S)
      → last_end last (jobs ++ (job ∷ [])) ≡ some (end_of job)
  last_end-snoc last [] job = refl
  last_end-snoc last (j ∷ jobs) job = last_end-snoc (some (end_of j)) jobs job

  AreLinked-snoc :
      (last : Option ℕ) (jobs : List (Job S)) (job : Job S)
      → AreLinked last jobs
      → (job.continuous ≡ true → IsAt (last_end last jobs) job.seq_start)
      → AreLinked last (jobs ++ (job ∷ []))
  AreLinked-snoc last [] job linked at = (at, tt)
  AreLinked-snoc last (j ∷ jobs) job (first, linked) at =
      (first, AreLinked-snoc (some (end_of j)) jobs job linked at)

  abbrev pub AreOf : ℕ → List (Job S) → Type 0
  AreOf epoch jobs = All (λ job. job.epoch ≡ epoch) jobs

  AreOf-snoc :
      (epoch : ℕ) (jobs : List (Job S)) (job : Job S)
      → AreOf epoch jobs
      → job.epoch ≡ epoch
      → AreOf epoch (jobs ++ (job ∷ []))
  AreOf-snoc epoch [] job all same = (same, tt)
  AreOf-snoc epoch (j ∷ jobs) job (first, all) same = (first, AreOf-snoc epoch jobs job all same)

-- The queue, the job that the worker has taken, the sequence number that the front end goes on with,
-- and the one where the job taken last ended, unless the queue has been invalidated since.
pub record System (S : Type 0) : Type 0 where
  pub queue : DecodeQueue S
  pub in_flight : Option (Job S)
  pub next_seq : ℕ
  pub last : Option ℕ

-- The front end queues jobs one behind the other while the worker thread runs; the worker takes a
-- job when it has none.
pub data Step {S : Type 0} : System S → System S → Type 0 where
  enqueues :
      (s : System S) (job : Job S)
      → job.seq_start ≡ s.next_seq
      → Step s (record s {
        queue = (enqueue true job s.queue).1;
        next_seq = job.seq_start + job.symbol_count;
      })
  takes :
      (s : System S) (job : Job S) (q : DecodeQueue S)
      → s.in_flight ≡ none
      → take_job s.queue ≡ Taken.takes job q
      → Step s (record s {
        queue = q;
        in_flight = some job;
        last = some (job.seq_start + job.symbol_count);
      })
  finishes :
      (s : System S) (job : Job S)
      → s.in_flight ≡ some job
      → Step s (record s { queue = finish_job job s.queue; in_flight = none })
  invalidates : (s : System S) → Step s (record s { queue = (invalidate s.queue).1; last = none })
  stops : (s : System S) → Step s (record s { queue = stop_worker s.queue })

pub data Reach {S : Type 0} (s : System S) : System S → Type 0 where
  here : Reach s s
  next : {t u : System S} → Reach s t → Step t u → Reach s u

pub record IsConsistent {S : Type 0} (s : System S) : Type 0 where
  pub jobs_counted : s.queue.job_count ≡ length s.queue.jobs
  pub symbols_counted : s.queue.queued_symbols ≡ symbols_of s.queue.jobs
  pub in_bounds : s.queue.queued_symbols ≤ 1024
  pub flight_counted : s.queue.processing_symbols ≡ flight_symbols s.in_flight
  pub flight_in_bounds : s.queue.processing_symbols ≤ 1024
  pub epochs : AreOf s.queue.epoch s.queue.jobs
  pub linked : AreLinked s.last s.queue.jobs
  pub at_end :
      s.queue.gap_pending ≡ false
      → s.queue.stop ≡ false
      → IsAt (last_end s.last s.queue.jobs) s.next_seq

module _ {S : Type 0} where
  queue_job-IsConsistent :
      (s : System S) (job : Job S)
      → IsConsistent s
      → job.seq_start ≡ s.next_seq
      → s.queue.queued_symbols + job.symbol_count ≤ 1024
      → s.queue.stop ≡ false
      → IsConsistent
          (record s { queue = queue_job job s.queue; next_seq = job.seq_start + job.symbol_count })
  unfolding queue_job
  queue_job-IsConsistent s job c at room runs = record {
    jobs_counted = omega (arith, c.jobs_counted, length-append s.queue.jobs (queued ∷ []));
    symbols_counted = omega (arith, c.symbols_counted, symbols_of-snoc s.queue.jobs queued);
    in_bounds = omega arith;
    flight_counted = c.flight_counted;
    flight_in_bounds = c.flight_in_bounds;
    epochs = AreOf-snoc s.queue.epoch s.queue.jobs queued c.epochs refl;
    linked =
        AreLinked-snoc s.last s.queue.jobs queued c.linked
          (λ h. subst (IsAt (last_end s.last s.queue.jobs)) (sym at) (c.at_end (no_gap h) runs));
    at_end = λ _ _.
        subst (λ e. IsAt e (job.seq_start + job.symbol_count))
          (sym (last_end-snoc s.last s.queue.jobs queued)) refl;
  }
    where
      sum : ℕ
      sum = (s.queue.queued_symbols + job.symbol_count) % 2 ^ 32

      queued : Job S
      queued = record job {
        continuous = job.continuous && not s.queue.gap_pending;
        epoch = s.queue.epoch;
        load = record {
          queued = sum;
          processing = s.queue.processing_symbols;
          percent = load_percent sum s.queue.processing_symbols;
        };
      }

      no_gap : (job.continuous && not s.queue.gap_pending) ≡ true → s.queue.gap_pending ≡ false
      no_gap h = ground arith

  -- A job that is not queued leaves a gap, if the queue is not stopped.
  refused-IsConsistent :
      (s : System S) (gap : Bool) (n : ℕ)
      → IsConsistent s
      → (gap ≡ false → s.queue.stop ≡ true)
      → IsConsistent (record s { queue = record s.queue { gap_pending = gap }; next_seq = n })
  refused-IsConsistent s gap n c shut = record {
    jobs_counted = c.jobs_counted;
    symbols_counted = c.symbols_counted;
    in_bounds = c.in_bounds;
    flight_counted = c.flight_counted;
    flight_in_bounds = c.flight_in_bounds;
    epochs = c.epochs;
    linked = c.linked;
    at_end = λ no_gap runs. absurd (cc (shut no_gap));
  }

  enqueue_cases :
      (s : System S) (job : Job S) (big full stopped : Bool)
      → IsConsistent s
      → job.seq_start ≡ s.next_seq
      → (full ≡ false → s.queue.queued_symbols + job.symbol_count ≤ 1024)
      → stopped ≡ s.queue.stop
      → let gap = record s.queue { gap_pending = true } in
        let answer : Bool × DecodeQueue S =
          if big
          then (false, gap)
          else if not stopped && full
          then (true, gap)
          else if stopped
          then (false, s.queue)
          else (true, queue_job job s.queue) in
        IsConsistent (record s { queue = answer.1; next_seq = job.seq_start + job.symbol_count })
  enqueue_cases s job true full stopped c at room same =
      refused-IsConsistent s true _ c (λ no_gap. cc)
  enqueue_cases s job false true false c at room same =
      refused-IsConsistent s true _ c (λ no_gap. cc)
  enqueue_cases s job false false false c at room same =
      queue_job-IsConsistent s job c at (room refl) (sym same)
  enqueue_cases s job false full true c at room same =
      refused-IsConsistent s s.queue.gap_pending _ c (λ no_gap. sym same)

  enqueues-IsConsistent :
      (s : System S) (job : Job S)
      → IsConsistent s
      → job.seq_start ≡ s.next_seq
      → IsConsistent (record s {
        queue = (enqueue true job s.queue).1;
        next_seq = job.seq_start + job.symbol_count;
      })
  unfolding enqueue
  enqueues-IsConsistent s job c at = elim (Bool-cases (ltb 1024 job.symbol_count)) [
    | inl big ↦ rw big (refused-IsConsistent s true _ c (λ no_gap. cc))
    | inr small ↦
        enqueue_cases s job (ltb 1024 job.symbol_count)
          (ltb 1024 ((s.queue.queued_symbols + job.symbol_count) % 2 ^ 32)) s.queue.stop c at
          (λ fits. ground (arith, c.in_bounds)) refl
  ]

  -- The job that the worker takes is the first.
  take_from_first :
      (jobs : List (Job S)) (q₀ : DecodeQueue S) (job : Job S) (q : DecodeQueue S)
      → take_from jobs q₀ ≡ Taken.takes job q
      → (rest : List (Job S)) × (jobs ≡ job ∷ rest)
        × (q ≡ record q₀ {
          jobs = rest;
          job_count = q₀.job_count - 1;
          queued_symbols =
              if leb job.symbol_count q₀.queued_symbols
              then q₀.queued_symbols - job.symbol_count
              else 0;
          processing_symbols = (q₀.processing_symbols + job.symbol_count) % 2 ^ 32;
        })
  unfolding take_from
  take_from_first [] q₀ job q e = absurd (ground arith)
  take_from_first (j ∷ jobs) q₀ job q e = let same : j ≡ job = cc in (jobs, cc, rw (← same) (cc))

  take_job-IsConsistent :
      (s : System S) (job : Job S) (q : DecodeQueue S)
      → IsConsistent s
      → s.in_flight ≡ none
      → take_job s.queue ≡ Taken.takes job q
      → IsConsistent (record s {
        queue = q;
        in_flight = some job;
        last = some (job.seq_start + job.symbol_count);
      })
  unfolding take_job
  take_job-IsConsistent s job q c idle e =
      let (rest, jobs_eq, q_eq) = take_from_first s.queue.jobs s.queue job q e in
      let counted = ap symbols_of jobs_eq in
      let none_flying : s.queue.processing_symbols ≡ 0 =
        c.flight_counted ∙ ap flight_symbols idle in
      let small : job.symbol_count ≤ s.queue.queued_symbols =
        omega (arith, c.symbols_counted, counted) in
      subst
        (λ (q : DecodeQueue S). IsConsistent (record s {
          queue = q;
          in_flight = some job;
          last = some (job.seq_start + job.symbol_count);
        }))
        (sym q_eq)
        (record {
          jobs_counted = omega (arith, c.jobs_counted, ap length jobs_eq);
          symbols_counted = ground (arith, c.symbols_counted, counted, small);
          in_bounds = ground (arith, c.in_bounds, small);
          flight_counted = omega (arith, none_flying, small, c.in_bounds);
          flight_in_bounds = omega (arith, none_flying, small, c.in_bounds);
          epochs = (subst (AreOf s.queue.epoch) jobs_eq c.epochs).1;
          linked = (subst (AreLinked s.last) jobs_eq c.linked).1;
          at_end = λ no_gap runs.
              subst (λ l. IsAt (last_end s.last l) s.next_seq) jobs_eq (c.at_end no_gap runs);
        })

  finish_job-IsConsistent :
      (s : System S) (job : Job S)
      → IsConsistent s
      → s.in_flight ≡ some job
      → IsConsistent (record s { queue = finish_job job s.queue; in_flight = none })
  unfolding finish_job
  finish_job-IsConsistent s job c busy = record {
    jobs_counted = c.jobs_counted;
    symbols_counted = c.symbols_counted;
    in_bounds = c.in_bounds;
    flight_counted = ground (arith, c.flight_counted, ap flight_symbols busy);
    flight_in_bounds = ground (arith, c.flight_in_bounds);
    epochs = c.epochs;
    linked = c.linked;
    at_end = c.at_end;
  }

  invalidate-IsConsistent :
      (s : System S)
      → IsConsistent s
      → IsConsistent (record s { queue = (invalidate s.queue).1; last = none })
  unfolding invalidate
  invalidate-IsConsistent s c = record {
    jobs_counted = refl;
    symbols_counted = refl;
    in_bounds = omega arith;
    flight_counted = c.flight_counted;
    flight_in_bounds = c.flight_in_bounds;
    epochs = tt;
    linked = tt;
    at_end = λ _ _. tt;
  }

  stop_worker-IsConsistent :
      (s : System S) → IsConsistent s → IsConsistent (record s { queue = stop_worker s.queue })
  unfolding stop_worker
  stop_worker-IsConsistent s c = record {
    jobs_counted = c.jobs_counted;
    symbols_counted = c.symbols_counted;
    in_bounds = c.in_bounds;
    flight_counted = c.flight_counted;
    flight_in_bounds = c.flight_in_bounds;
    epochs = c.epochs;
    linked = c.linked;
    at_end = λ _ runs. absurd (cc);
  }

  Step-IsConsistent : {s t : System S} → Step s t → IsConsistent s → IsConsistent t
  Step-IsConsistent (enqueues s job at) c = enqueues-IsConsistent s job c at
  Step-IsConsistent (takes s job q idle e) c = take_job-IsConsistent s job q c idle e
  Step-IsConsistent (finishes s job busy) c = finish_job-IsConsistent s job c busy
  Step-IsConsistent (invalidates s) c = invalidate-IsConsistent s c
  Step-IsConsistent (stops s) c = stop_worker-IsConsistent s c

  -- In every state that the calls reach from a consistent one: the counters are those of the jobs
  -- queued and of the job in process, and stay at 1024 symbols; every job queued is of the epoch of
  -- the queue; and a continuous job begins where the job before it ended, also where jobs have been
  -- dropped in between.
  pub Reach-IsConsistent : {s t : System S} → IsConsistent s → Reach s t → IsConsistent t
  Reach-IsConsistent c here = c
  Reach-IsConsistent c (next r st) = Step-IsConsistent st (Reach-IsConsistent c r)
