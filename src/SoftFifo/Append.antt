-- ===== src/SoftFifo/Append.antt =====
-- The chunks that come into the queue of soft symbols, one behind the other.
use dvbt_rx.Base.{
  ℕ, ◌+◌, ◌*◌, ◌<◌, ◌≡◌, refl, sym, ap, ◌∙◌, arith, true, if◌then◌else◌, ◌==◌, [], ◌++◌, append-nil,
  append_assoc, get_or, length, length-append, take, take-append, get_or-append_left, some, inl,
  inr, Bool-cases,
}
use dvbt_rx.SoftFifo.{SoftFifo, Chunk, chunk_symbols, append_chunk}

-- A chunk of whole symbols, which carries their model symbols.
pub record IsWhole {S : Type 0} (c : Chunk S) : Type 0 where
  pub some_symbol : 0 < c.symbol_count
  pub cells_counted : length c.cells ≡ c.symbol_count * 1512
  pub symbols_counted : length (chunk_symbols c) ≡ c.symbol_count
  pub first_symbol : get_or (chunk_symbols c) 0 0 ≡ c.model_symbol_start

-- The queue holds whole symbols, and the next of them is `seq`.
pub record IsAt {S : Type 0} (f : SoftFifo S) (seq : ℕ) : Type 0 where
  pub cells_counted : length f.items ≡ length f.model_symbols * 1512
  pub next_symbol : 0 < length f.items → f.seq_start + length f.model_symbols ≡ seq

module _ {S : Type 0} where
  -- The chunk of the cells of two.
  abbrev pub joined : Chunk S → Chunk S → Chunk S
  joined a b = record {
    cells = a.cells ++ b.cells;
    given_symbols = some (chunk_symbols a ++ chunk_symbols b);
    symbol_count = a.symbol_count + b.symbol_count;
    seq_start = a.seq_start;
    model_symbol_start = a.model_symbol_start;
  }

  pub SoftFifo_eq :
      (f g : SoftFifo S)
      → f.items ≡ g.items
      → f.model_symbols ≡ g.model_symbols
      → f.seq_start ≡ g.seq_start
      → f.model_symbol_start ≡ g.model_symbol_start
      → f.continuous ≡ g.continuous
      → f ≡ g
  SoftFifo_eq f g items symbols seq first continuous = cc

  -- The queue with the symbols of a chunk.
  abbrev pub appended : Chunk S → SoftFifo S → SoftFifo S
  appended c f = record {
    items = f.items ++ c.cells;
    model_symbols = f.model_symbols ++ chunk_symbols c;
    seq_start = if length f.items == 0 then c.seq_start else f.seq_start;
    model_symbol_start = if length f.items == 0 then c.model_symbol_start else f.model_symbol_start;
    continuous = true;
  }

  pub append_chunk_lem :
      (f : SoftFifo S) (c : Chunk S) → IsWhole c → append_chunk true c f ≡ appended c f
  unfolding append_chunk
  append_chunk_lem f c whole = elim (Bool-cases (length c.cells == 0)) [
    | inl e ↦ absurd (ground (arith, whole.cells_counted, whole.some_symbol))
    | inr e ↦ rw e
  ]

  pub append_chunk-continuous :
      (f : SoftFifo S) (c : Chunk S) → IsWhole c → (append_chunk true c f).continuous ≡ true
  append_chunk-continuous f c whole = rw (append_chunk_lem f c whole) refl

  pub append_chunk-IsAt :
      (f : SoftFifo S) (c : Chunk S)
      → IsAt f c.seq_start
      → IsWhole c
      → IsAt (append_chunk true c f) (c.seq_start + c.symbol_count)
  append_chunk-IsAt f c at whole =
      let items_len = length-append f.items c.cells in
      let symbols_len = length-append f.model_symbols (chunk_symbols c) in
      rw (append_chunk_lem f c whole) (record {
        cells_counted = omega (
          arith, at.cells_counted, whole.cells_counted, whole.symbols_counted, items_len,
          symbols_len,
        );
        next_symbol = λ h.
            ground (arith, at.cells_counted, at.next_symbol, whole.symbols_counted, symbols_len);
      })

  chunk_symbols-joined :
      (a b : Chunk S)
      → IsWhole a
      → IsWhole b
      → chunk_symbols (joined a b) ≡ chunk_symbols a ++ chunk_symbols b
  unfolding chunk_symbols
  chunk_symbols-joined a b wa wb =
      let both = chunk_symbols a ++ chunk_symbols b in
      ap (λ l. take (a.symbol_count + b.symbol_count) l) (sym (append-nil both))
      ∙ take-append (a.symbol_count + b.symbol_count) both [] (
          omega (
            arith,
            length-append (chunk_symbols a) (chunk_symbols b),
            wa.symbols_counted,
            wb.symbols_counted,
          ))

  pub joined-IsWhole : (a b : Chunk S) → IsWhole a → IsWhole b → IsWhole (joined a b)
  joined-IsWhole a b wa wb = record {
    some_symbol = omega (arith, wa.some_symbol);
    cells_counted =
        omega (arith, wa.cells_counted, wb.cells_counted, length-append a.cells b.cells);
    symbols_counted =
        ap length (chunk_symbols-joined a b wa wb)
        ∙ omega (
          arith,
          length-append (chunk_symbols a) (chunk_symbols b),
          wa.symbols_counted,
          wb.symbols_counted,
        );
    first_symbol =
        ap (λ l. get_or l 0 0) (chunk_symbols-joined a b wa wb)
        ∙ get_or-append_left (chunk_symbols a) (chunk_symbols b) 0 0
            (omega (arith, wa.symbols_counted, wa.some_symbol))
        ∙ wa.first_symbol;
  }

  pub append_chunk-joined :
      (f : SoftFifo S) (a b : Chunk S)
      → IsWhole a
      → IsWhole b
      → append_chunk true (joined a b) f ≡ append_chunk true b (append_chunk true a f)
  append_chunk-joined f a b wa wb =
      rw
        (
          append_chunk_lem f (joined a b) (joined-IsWhole a b wa wb),
          append_chunk_lem f a wa,
          append_chunk_lem (appended a f) b wb,
        )
        (SoftFifo_eq _ _ (sym (append_assoc f.items a.cells b.cells))
          (ap (λ l. f.model_symbols ++ l) (chunk_symbols-joined a b wa wb)
            ∙ sym (append_assoc f.model_symbols (chunk_symbols a) (chunk_symbols b)))
          (ground (arith, wa.cells_counted, wa.some_symbol, length-append f.items a.cells))
          (ground (arith, wa.cells_counted, wa.some_symbol, length-append f.items a.cells)) refl)
