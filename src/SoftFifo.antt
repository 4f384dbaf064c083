-- ===== src/SoftFifo.antt =====
-- The soft symbols that wait for a window in src/probe_constellation.c: `live_soft_dibit_fifo_t` and
-- `live_soft_dibit_fifo_process`.
-- A cell is a value of any type. The two arrays are lists of what is in use, so that `count` and
-- `symbol_count` are their lengths; `realloc` is taken to succeed. A window goes to `out`, which is
-- `live_decode_enqueue` in the live mode, and `reset_decoder` is what is done to the decoder of the
-- live path. The sequence number that the front end goes on with, and the log, are left out.
pub mod Append
pub mod Windows
pub mod Calls
mod Tests
use dvbt_rx.Base.{
  ℕ, zero, suc, ◌+◌, ◌-◌, ◌*◌, ◌/◌, ◌%◌, ◌^◌, Bool, true, false, not, ◌&&◌, if◌then◌else◌, ltb, leb,
  ◌==◌, List, [], ◌∷◌, ◌++◌, get_or, length, take, drop, tabulate, Option, none, some,
}
use dvbt_rx.Puncture.{Fec}
use dvbt_rx.DecodeQueue.{DecodeQueue, data_cells, make_job, enqueue}

-- `LIVE_DECODE_WINDOW_SYMBOLS`.
abbrev pub window_default : ℕ
window_default = 256

-- `live_soft_dibit_fifo_t`.
pub record SoftFifo (S : Type 0) : Type 0 where
  pub items : List S
  pub model_symbols : List ℕ
  pub seq_start : ℕ
  pub model_symbol_start : ℕ
  pub continuous : Bool

-- The symbols that one call brings.
pub record Chunk (S : Type 0) : Type 0 where
  pub cells : List S
  pub given_symbols : Option (List ℕ)
  pub symbol_count : ℕ
  pub seq_start : ℕ
  pub model_symbol_start : ℕ

-- What a window hands on.
pub record Window (S : Type 0) : Type 0 where
  pub cells : List S
  pub model_symbols : List ℕ
  pub seq : ℕ
  pub model_symbol_start : ℕ
  pub symbols : ℕ
  pub continuous : Bool

-- The cells of a window.
pub window_cells : Bool → ℕ → ℕ → ℕ
window_cells continuous_frontend symbol_count preferred_window =
    if not continuous_frontend && ltb 0 symbol_count
    then symbol_count * data_cells
    else if preferred_window == 0
    then window_default * data_cells
    else preferred_window

pub window_symbols : ℕ → ℕ
window_symbols preferred_window = preferred_window / data_cells % 2 ^ 32

module _ {S : Type 0} where
  -- The model symbols of a chunk: those given, or counted from the first.
  pub chunk_symbols : Chunk S → List ℕ
  chunk_symbols c = elim c.given_symbols [
    | none ↦ tabulate (λ i. (c.model_symbol_start + i) % 2 ^ 32) c.symbol_count 0
    | some given ↦ take c.symbol_count given
  ]

  -- The queue at a chunk that does not go on from the one before.
  pub restarted : Chunk S → SoftFifo S → SoftFifo S
  restarted c f = record f {
    items = [];
    model_symbols = [];
    model_symbol_start = c.model_symbol_start;
    continuous = false;
  }

  pub append_chunk : Bool → Chunk S → SoftFifo S → SoftFifo S
  append_chunk continuous_frontend c f = if length c.cells == 0 then f else record {
    items = f.items ++ c.cells;
    model_symbols = f.model_symbols ++ chunk_symbols c;
    seq_start = if length f.items == 0 then c.seq_start else f.seq_start;
    model_symbol_start = if length f.items == 0 then c.model_symbol_start else f.model_symbol_start;
    continuous = continuous_frontend;
  }

  -- The condition of the loop.
  pub is_due : ℕ → SoftFifo S → Bool
  is_due preferred_window f =
      leb preferred_window (length f.items)
      && leb (window_symbols preferred_window) (length f.model_symbols)

  pub window_of : ℕ → SoftFifo S → Window S
  window_of preferred_window f = record {
    cells = take preferred_window f.items;
    model_symbols = take (window_symbols preferred_window) f.model_symbols;
    seq = f.seq_start;
    model_symbol_start = f.model_symbol_start;
    symbols = window_symbols preferred_window;
    continuous = f.continuous;
  }

  -- A window leaves the queue.
  pub without_window : ℕ → SoftFifo S → SoftFifo S
  without_window preferred_window f =
      let symbols = window_symbols preferred_window in
      record {
        items = drop preferred_window f.items;
        model_symbols = drop symbols f.model_symbols;
        seq_start = f.seq_start + symbols;
        model_symbol_start =
            if ltb 0 (length f.model_symbols - symbols)
            then get_or f.model_symbols symbols 0
            else (f.model_symbol_start + symbols) % 2 ^ 32;
        continuous = f.continuous;
      }

  -- The window in the live mode.
  pub live_window : Fec → Bool → Window S → DecodeQueue S → Bool × DecodeQueue S
  live_window fec worker_runs win q =
      enqueue worker_runs
        (make_job fec win.cells (some win.model_symbols) win.seq win.model_symbol_start win.symbols
          win.continuous)
        q

module _ {S W : Type 0} (out : Window S → W → Bool × W) (reset_decoder : W → W) where
  -- `n` rounds of the loop: whether every window was taken, the queue, and what lies behind it.
  pub consume : Bool → ℕ → ℕ → SoftFifo S × W → Bool × (SoftFifo S × W)
  consume continuous_frontend preferred_window zero (f, w) = (true, (f, w))
  consume continuous_frontend preferred_window (suc n) (f, w) =
      let sent = out (window_of preferred_window f) w in
      let later =
        consume continuous_frontend preferred_window n
          (without_window preferred_window f, sent.1) in
      if not (is_due preferred_window f)
      then (true, (f, w))
      else if not continuous_frontend && not sent.0
      then (false, (record f { items = []; model_symbols = [] }, reset_decoder sent.1))
      else (sent.0 && later.0, later.1)

  -- The loop, whose rounds are at most the cells.
  pub drain : Bool → ℕ → SoftFifo S × W → Bool × (SoftFifo S × W)
  drain continuous_frontend preferred_window (f, w) =
      consume continuous_frontend preferred_window (length f.items) (f, w)

  -- `true` is the return code 0.
  pub process : Bool → ℕ → Chunk S → SoftFifo S × W → Bool × (SoftFifo S × W)
  process continuous_frontend preferred_window c (f, w) =
      let preferred_window₁ = window_cells continuous_frontend c.symbol_count preferred_window in
      let f₁ = if continuous_frontend then f else restarted c f in
      let w₁ = if continuous_frontend then w else reset_decoder w in
      if preferred_window₁ == 0
      then (true, (f₁, w₁))
      else drain continuous_frontend preferred_window₁ (append_chunk continuous_frontend c f₁, w₁)
