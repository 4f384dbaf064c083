-- ===== src/SoftFifo/Tests.antt =====
-- Two chunks of one symbol and of two, windows of two symbols, and the theorem about the calls there.
use dvbt_rx.Base.{
  ℕ, ◌≡◌, refl, arith, ◌*◌, ◌&&◌, Bool, true, false, List, [], length, replicate, length-replicate,
  tabulate, none, ◌++◌, ◌∷◌,
}
use dvbt_rx.Puncture.{Fec}
use dvbt_rx.DecodeQueue.{DecodeQueue}
use dvbt_rx.SoftFifo.{
  SoftFifo, Chunk, Window, chunk_symbols, append_chunk, window_symbols, window_cells, is_due,
  window_of, without_window, consume, drain, process, live_window,
}
use dvbt_rx.SoftFifo.Append.{IsWhole, IsAt, joined}
use dvbt_rx.SoftFifo.Calls.{process-joined}

abbrev chunk : ℕ → ℕ → Chunk ℕ
chunk seq n = record {
  cells = replicate (n * 1512) 7;
  given_symbols = none;
  symbol_count = n;
  seq_start = seq;
  model_symbol_start = 3;
}

abbrev fifo : SoftFifo ℕ
fifo = record {
  items = [];
  model_symbols = [];
  seq_start = 0;
  model_symbol_start = 0;
  continuous = false;
}

abbrev queue : DecodeQueue ℕ
queue = record {
  jobs = [];
  job_count = 0;
  queued_symbols = 0;
  processing_symbols = 0;
  epoch = 0;
  gap_pending = false;
  stop = false;
}

-- What is behind the queue notes the first symbol of each window.
abbrev noted : Window ℕ → List ℕ → Bool × List ℕ
noted win seqs = (true, seqs ++ (win.seq ∷ []))

abbrev first : Bool × (SoftFifo ℕ × List ℕ)
first = process noted (λ seqs. seqs) true (2 * 1512) (chunk 0 1) (fifo, [])

abbrev second : Bool × (SoftFifo ℕ × List ℕ)
second = process noted (λ seqs. seqs) true (2 * 1512) (chunk 1 2) first.1

second_run :
    (second.0 ≡ true)
    × (second.1.1 ≡ 0 ∷ [])
    × (second.1.0.model_symbols ≡ 4 ∷ [])
    × (length second.1.0.items ≡ 1512)
unfolding process drain consume append_chunk is_due window_of without_window window_symbols
    window_cells chunk_symbols tabulate
second_run = (refl, refl, refl, refl)

one-IsWhole : IsWhole (chunk 0 1)
unfolding chunk_symbols tabulate
one-IsWhole = record {
  some_symbol = omega arith;
  cells_counted = length-replicate {A = ℕ} (1 * 1512) 7;
  symbols_counted = refl;
  first_symbol = refl;
}

two-IsWhole : IsWhole (chunk 1 2)
unfolding chunk_symbols tabulate
two-IsWhole = record {
  some_symbol = omega arith;
  cells_counted = length-replicate {A = ℕ} (2 * 1512) 7;
  symbols_counted = refl;
  first_symbol = refl;
}

fifo-IsAt : IsAt fifo 0
fifo-IsAt = record { cells_counted = refl; next_symbol = λ _. refl }

-- In the live mode the windows go into the queue of jobs.
abbrev live : Window ℕ → DecodeQueue ℕ → Bool × DecodeQueue ℕ
live = live_window Fec.fec_1_2 true

process-joined_example :
    let a = process live (λ q. q) true (2 * 1512) (chunk 0 1) (fifo, queue) in
    let b = process live (λ q. q) true (2 * 1512) (chunk 1 2) a.1 in
    (process live (λ q. q) true (2 * 1512) (joined (chunk 0 1) (chunk 1 2)) (fifo, queue)
      ≡ (a.0 && b.0, b.1))
    × (is_due (2 * 1512) a.1.0 ≡ false)
process-joined_example =
    process-joined live (λ q. q) 2 (chunk 0 1) (chunk 1 2) fifo queue (omega arith) (omega arith)
      fifo-IsAt one-IsWhole two-IsWhole refl
