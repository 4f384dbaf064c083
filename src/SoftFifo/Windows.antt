-- ===== src/SoftFifo/Windows.antt =====
-- The windows of the queue of soft symbols, and the chunks that come behind them.
use dvbt_rx.Base.{
  ℕ, zero, suc, ◌+◌, ◌-◌, ◌*◌, ◌%◌, ◌^◌, ◌≤◌, ◌<◌, ◌≡◌, refl, sym, ap, ◌∙◌, arith, true,
  if◌then◌else◌, ltb, leb, ◌==◌, List, [], ◌∷◌, ◌++◌, get_or, length, length-append, length-drop,
  take, drop, drop_append_left, drop-append, get_or-drop, ltb→lt, leb→le, get_or-append_left, inl,
  inr, Bool-cases,
}
use dvbt_rx.SoftFifo.{
  SoftFifo, Chunk, Window, chunk_symbols, window_symbols, append_chunk, is_due, window_of,
  without_window,
}
use dvbt_rx.SoftFifo.Append.{IsWhole, IsAt, SoftFifo_eq, append_chunk_lem, append_chunk-IsAt}

take_append_left :
    {A : Type 0} (n : ℕ) (xs ys : List A) → n ≤ length xs → take n (xs ++ ys) ≡ take n xs
take_append_left zero xs ys le = refl
take_append_left (suc n) [] ys le = absurd (omega arith)
take_append_left (suc n) (x ∷ xs) ys le = ap (λ t. x ∷ t) (take_append_left n xs ys (omega arith))

window_symbols_lem : (n : ℕ) → n < 2 ^ 32 → window_symbols (n * 1512) ≡ n
unfolding window_symbols
window_symbols_lem n small = omega arith

module _ {S : Type 0} where
  -- On whole symbols the cells alone decide whether a window is due.
  is_due_lem :
      (n : ℕ) (f : SoftFifo S) (seq : ℕ)
      → n < 2 ^ 32
      → IsAt f seq
      → is_due (n * 1512) f ≡ leb n (length f.model_symbols)
  unfolding is_due
  is_due_lem n f seq small at = rw (window_symbols_lem n small) (ground (arith, at.cells_counted))

  pub without_window-IsAt :
      (n : ℕ) (f : SoftFifo S) (seq : ℕ)
      → n < 2 ^ 32
      → n ≤ length f.model_symbols
      → IsAt f seq
      → IsAt (without_window (n * 1512) f) seq
  unfolding without_window
  without_window-IsAt n f seq small le at = rw (window_symbols_lem n small) (record {
    cells_counted =
        omega
          (arith, at.cells_counted, length-drop (n * 1512) f.items, length-drop n f.model_symbols);
    next_symbol = λ h. omega (
      arith,
      at.cells_counted,
      at.next_symbol,
      length-drop (n * 1512) f.items,
      length-drop n f.model_symbols,
    );
  })

  -- The first symbol behind the window is the same, whether the chunk comes before or after it.
  first_behind :
      (n : ℕ) (f : SoftFifo S) (c : Chunk S)
      → 0 < n
      → n ≤ length f.model_symbols
      → IsAt f c.seq_start
      → IsWhole c
      → (if length (drop (n * 1512) f.items) == 0
          then c.model_symbol_start
          else if ltb 0 (length f.model_symbols - n)
          then get_or f.model_symbols n 0
          else (f.model_symbol_start + n) % 2 ^ 32)
        ≡ get_or (f.model_symbols ++ chunk_symbols c) n 0
  first_behind n f c pos le at whole = elim (Bool-cases (ltb n (length f.model_symbols))) [
    | inl more ↦ ground (
      arith,
      length-drop (n * 1512) f.items,
      at.cells_counted,
      get_or-append_left f.model_symbols (chunk_symbols c) n 0 (ltb→lt _ _ more),
    )
    | inr all ↦
        let is_all : length f.model_symbols ≡ n = ground arith in
        let behind : get_or (f.model_symbols ++ chunk_symbols c) n 0 ≡ c.model_symbol_start =
          ap (λ k. get_or (f.model_symbols ++ chunk_symbols c) k 0) (omega arith)
          ∙ sym (get_or-drop n (f.model_symbols ++ chunk_symbols c) 0 0)
          ∙ ap (λ l. get_or l 0 0) (drop-append n f.model_symbols (chunk_symbols c) is_all)
          ∙ whole.first_symbol in
        ground (arith, length-drop (n * 1512) f.items, at.cells_counted, behind)
  ]

  pub append_chunk-without_window :
      (n : ℕ) (f : SoftFifo S) (c : Chunk S)
      → n < 2 ^ 32
      → 0 < n
      → n ≤ length f.model_symbols
      → IsAt f c.seq_start
      → IsWhole c
      → append_chunk true c (without_window (n * 1512) f)
        ≡ without_window (n * 1512) (append_chunk true c f)
  unfolding without_window
  append_chunk-without_window n f c small pos le at whole =
      rw
        (
          append_chunk_lem f c whole,
          append_chunk_lem (without_window (n * 1512) f) c whole,
          window_symbols_lem n small,
        )
        (SoftFifo_eq _ _
          (sym (drop_append_left (n * 1512) f.items c.cells (omega (arith, at.cells_counted))))
          (sym (drop_append_left n f.model_symbols (chunk_symbols c) le))
          (ground (arith, at.cells_counted, at.next_symbol, length-drop (n * 1512) f.items))
          (first_behind n f c pos le at whole
            ∙ ground (
              arith,
              le,
              length-append f.model_symbols (chunk_symbols c),
              whole.symbols_counted,
              whole.some_symbol,
            ))
          refl)

  -- A window that is due stays so with the chunk that comes behind it.
  pub is_due-append_chunk :
      (n : ℕ) (f : SoftFifo S) (c : Chunk S)
      → n < 2 ^ 32
      → IsAt f c.seq_start
      → IsWhole c
      → is_due (n * 1512) f ≡ true
      → (n ≤ length f.model_symbols) × (is_due (n * 1512) (append_chunk true c f) ≡ true)
  is_due-append_chunk n f c small at whole due =
      let fits : n ≤ length f.model_symbols =
        leb→le _ _ (sym (is_due_lem n f c.seq_start small at) ∙ due) in
      (
        fits,
        is_due_lem n _ _ small (append_chunk-IsAt f c at whole)
            ∙ rw (append_chunk_lem f c whole)
                (ground (arith, fits, length-append f.model_symbols (chunk_symbols c))),
      )

  Window_eq :
      (v w : Window S)
      → v.cells ≡ w.cells
      → v.model_symbols ≡ w.model_symbols
      → v.seq ≡ w.seq
      → v.model_symbol_start ≡ w.model_symbol_start
      → v.symbols ≡ w.symbols
      → v.continuous ≡ w.continuous
      → v ≡ w
  Window_eq v w cells models seq first symbols continuous = cc

  -- A window that is due does not change with the chunk that comes behind it.
  pub window_of-append_chunk :
      (n : ℕ) (f : SoftFifo S) (c : Chunk S)
      → n < 2 ^ 32
      → 0 < n
      → n ≤ length f.model_symbols
      → f.continuous ≡ true
      → IsAt f c.seq_start
      → IsWhole c
      → window_of (n * 1512) (append_chunk true c f) ≡ window_of (n * 1512) f
  unfolding window_of
  window_of-append_chunk n f c small pos le goes_on at whole =
      rw (append_chunk_lem f c whole, window_symbols_lem n small)
        (Window_eq _ _
          (take_append_left (n * 1512) f.items c.cells (omega (arith, at.cells_counted)))
          (take_append_left n f.model_symbols (chunk_symbols c) le)
          (ground (arith, at.cells_counted)) (ground (arith, at.cells_counted)) refl (sym goes_on))
