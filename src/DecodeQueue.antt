-- ===== src/DecodeQueue.antt =====
-- The queue of inner jobs of the live path in src/probe_constellation.c: `live_decode_enqueue`,
-- `live_decode_drop_symbol_locked`, `live_decode_drop_symbols_locked`,
-- `live_decode_invalidate_queued_locked`, the two critical sections of `live_decode_worker_main`
-- that take a job and give it back, and `rbdvbt_live_decoder_shutdown`.
-- A cell is a value of any type. The linked list of jobs is a list, oldest first. A call is one step
-- under the mutex; a worker that has to wait is put to sleep. The allocator succeeds; whether the
-- worker thread starts is an argument. The display, the health counters, the log and the rest of the
-- status that a job carries are left out.
pub mod Drops
pub mod Reach
mod Tests
use dvbt_rx.Base.{
  ℕ, zero, suc, ◌+◌, ◌-◌, ◌*◌, ◌/◌, ◌%◌, ◌^◌, Bool, true, false, not, ◌&&◌, ◌||◌, if◌then◌else◌,
  ltb, leb, ◌==◌, List, [], ◌∷◌, ◌++◌, get_or, length, take, drop, tabulate, Option, none, some,
}
use dvbt_rx.Puncture.{Fec}

abbrev pub data_cells : ℕ
data_cells = 1512

-- `LIVE_DECODE_MAX_QUEUED_SYMBOLS`.
abbrev pub max_queued_symbols : ℕ
max_queued_symbols = 1024

-- The fill of the queue that a job notes when it comes in: `fifo1_queued_symbols`,
-- `fifo1_processing_symbols` and `fifo1_load_percent`.
pub record Load : Type 0 where
  pub queued : ℕ
  pub processing : ℕ
  pub percent : ℕ

-- `live_decode_job_t`.
pub record Job (S : Type 0) : Type 0 where
  pub fec : Fec
  pub symbols : List S
  pub model_symbols : Option (List ℕ)
  pub seq_start : ℕ
  pub model_symbol_start : ℕ
  pub symbol_count : ℕ
  pub continuous : Bool
  pub epoch : ℕ
  pub load : Load

pub record DecodeQueue (S : Type 0) : Type 0 where
  pub jobs : List (Job S)
  pub job_count : ℕ
  pub queued_symbols : ℕ
  pub processing_symbols : ℕ
  pub epoch : ℕ
  pub gap_pending : Bool
  pub stop : Bool

pub load_percent : ℕ → ℕ → ℕ
load_percent queued processing =
    let percent =
      (((queued + processing) % 2 ^ 32 * 100 + max_queued_symbols / 2) / max_queued_symbols)
      % 2 ^ 32 in
    if ltb 100 percent then 100 else percent

module _ {S : Type 0} where
  -- The job that `live_decode_enqueue` allocates, before it is queued.
  pub make_job : Fec → List S → Option (List ℕ) → ℕ → ℕ → ℕ → Bool → Job S
  make_job fec symbols model_symbols seq_start model_symbol_start symbol_count continuous =
      let counted = tabulate (λ i. (model_symbol_start + i) % 2 ^ 32) symbol_count 0 in
      record {
        fec = fec;
        symbols = symbols;
        model_symbols = if symbol_count == 0 then none else elim model_symbols [
          | none ↦ some counted
          | some given ↦ some (take symbol_count given)
        ];
        seq_start = seq_start;
        model_symbol_start = model_symbol_start;
        symbol_count = symbol_count;
        continuous = continuous;
        epoch = 0;
        load = record { queued = 0; processing = 0; percent = 0 };
      }

  pub queue_job : Job S → DecodeQueue S → DecodeQueue S
  queue_job job q =
      let queued = (q.queued_symbols + job.symbol_count) % 2 ^ 32 in
      record q {
        jobs =
            q.jobs
            ++ (record job {
              continuous = job.continuous && not q.gap_pending;
              epoch = q.epoch;
              load = record {
                queued = queued;
                processing = q.processing_symbols;
                percent = load_percent queued q.processing_symbols;
              };
            }
                ∷ []);
        job_count = q.job_count + 1;
        queued_symbols = queued;
        gap_pending = false;
      }

  -- `true` is the return code 0. A job that finds no room is dropped with the code 0.
  pub enqueue : Bool → Job S → DecodeQueue S → Bool × DecodeQueue S
  enqueue worker_runs job q =
      if not worker_runs
      then (false, q)
      else if ltb max_queued_symbols job.symbol_count
      then (false, record q { gap_pending = true })
      else if not q.stop && ltb max_queued_symbols ((q.queued_symbols + job.symbol_count) % 2 ^ 32)
      then (true, record q { gap_pending = true })
      else if q.stop
      then (false, q)
      else (true, queue_job job q)

  -- The oldest symbol of a job of more than one.
  pub drop_first : Job S → Job S
  drop_first job = record job {
    symbols = drop data_cells job.symbols;
    model_symbols = elim job.model_symbols [ none ↦ none | some given ↦ some (drop 1 given) ];
    symbol_count = job.symbol_count - 1;
    seq_start = job.seq_start + 1;
    model_symbol_start = elim job.model_symbols [
      | none ↦ (job.model_symbol_start + 1) % 2 ^ 32
      | some given ↦ get_or given 1 0
    ];
    continuous = false;
  }

  drop_from : List (Job S) → DecodeQueue S → ℕ × DecodeQueue S
  drop_from [] q = (0, q)
  drop_from (job ∷ jobs) q =
      if job.symbol_count == 0 || ltb (length job.symbols) data_cells
      then (0, q)
      else if job.symbol_count == 1
      then (
        1,
        record q {
          jobs = jobs;
          job_count = q.job_count - 1;
          queued_symbols = q.queued_symbols - 1;
        },
      )
      else (1, record q { jobs = drop_first job ∷ jobs; queued_symbols = q.queued_symbols - 1 })

  -- The number of symbols dropped, 0 or 1, and the queue.
  pub drop_symbol : DecodeQueue S → ℕ × DecodeQueue S
  unfolding drop_from
  drop_symbol q = drop_from q.jobs q

  pub drop_symbols : ℕ → DecodeQueue S → ℕ × DecodeQueue S
  drop_symbols zero q = (0, q)
  drop_symbols (suc symbols) q =
      let (n, q₁) = drop_symbol q in
      let rest = drop_symbols symbols q₁ in
      let result : ℕ × DecodeQueue S = (n + rest.0, rest.1) in if n == 0 then (0, q) else result

  -- The symbols in process, and the queue of the next epoch.
  pub invalidate : DecodeQueue S → ℕ × DecodeQueue S
  invalidate q = (
    q.processing_symbols,
    record q {
      jobs = [];
      job_count = 0;
      queued_symbols = 0;
      gap_pending = false;
      epoch = (q.epoch + 1) % 2 ^ 64;
    },
  )

-- What the worker comes to when it looks for a job.
pub data Taken (S : Type 0) : Type 0 where
  sleeps ends : Taken S
  takes : Job S → DecodeQueue S → Taken S

module _ {S : Type 0} where
  take_from : List (Job S) → DecodeQueue S → Taken S
  take_from [] q = if q.stop then ends else sleeps
  take_from (job ∷ jobs) q = takes job (record q {
    jobs = jobs;
    job_count = q.job_count - 1;
    queued_symbols =
        if leb job.symbol_count q.queued_symbols then q.queued_symbols - job.symbol_count else 0;
    processing_symbols = (q.processing_symbols + job.symbol_count) % 2 ^ 32;
  })

  pub take_job : DecodeQueue S → Taken S
  unfolding take_from
  take_job q = take_from q.jobs q

  -- The job belongs to an epoch that is over.
  pub is_stale : Job S → DecodeQueue S → Bool
  is_stale job q = not (job.epoch == q.epoch)

  pub finish_job : Job S → DecodeQueue S → DecodeQueue S
  finish_job job q = record q {
    processing_symbols =
        if leb job.symbol_count q.processing_symbols
        then q.processing_symbols - job.symbol_count
        else 0;
  }

  pub stop_worker : DecodeQueue S → DecodeQueue S
  stop_worker q = record q { stop = true }

  -- `rbdvbt_live_decoder_shutdown` after the worker has ended.
  pub shutdown : DecodeQueue S → DecodeQueue S
  shutdown q = record (drop_symbols q.queued_symbols q).1 {
    queued_symbols = 0;
    processing_symbols = 0;
    gap_pending = false;
  }
