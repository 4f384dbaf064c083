-- ===== src/SoftFifo/Calls.antt =====
-- The windows that come out of calls of `live_soft_dibit_fifo_process`, one after the other.
use dvbt_rx.Base.{
  ℕ, zero, suc, ◌+◌, ◌-◌, ◌*◌, ◌^◌, ◌≤◌, ◌<◌, ◌≡◌, refl, sym, ap, ◌∙◌, arith, Bool, true, false,
  ◌&&◌, length, length-drop, inl, inr, Bool-cases, subst,
}
use dvbt_rx.SoftFifo.{
  SoftFifo, Chunk, Window, window_cells, append_chunk, is_due, window_of, without_window, consume,
  drain, process,
}
use dvbt_rx.SoftFifo.Append.{
  IsWhole, IsAt, joined, append_chunk-IsAt, append_chunk-continuous, append_chunk-joined,
}
use dvbt_rx.SoftFifo.Windows.{
  is_due-append_chunk, without_window-IsAt, append_chunk-without_window, window_of-append_chunk,
}

module _ {S W : Type 0} (out : Window S → W → Bool × W) (reset_decoder : W → W) where
  -- One window, then the rest.
  abbrev after_window : ℕ → ℕ → SoftFifo S × W → Bool × (SoftFifo S × W)
  after_window preferred n (f, w) =
      let sent = out (window_of preferred f) w in
      let later = consume out reset_decoder true preferred n (without_window preferred f, sent.1) in
      (sent.0 && later.0, later.1)

  consume_due :
      (preferred n : ℕ) (f : SoftFifo S) (w : W)
      → is_due preferred f ≡ true
      → consume out reset_decoder true preferred (suc n) (f, w) ≡ after_window preferred n (f, w)
  unfolding consume
  consume_due preferred n f w due = rw due refl

  consume_rest :
      (preferred n : ℕ) (f : SoftFifo S) (w : W)
      → is_due preferred f ≡ false
      → consume out reset_decoder true preferred n (f, w) ≡ (true, (f, w))
  unfolding consume
  consume_rest preferred zero f w rest = refl
  consume_rest preferred (suc n) f w rest = rw rest refl

  is_due-fits :
      (preferred : ℕ) (f : SoftFifo S) → is_due preferred f ≡ true → preferred ≤ length f.items
  unfolding is_due
  is_due-fits preferred f due = ground arith

  length-without_window :
      (preferred : ℕ) (f : SoftFifo S)
      → length (without_window preferred f).items ≡ length f.items - preferred
  unfolding without_window
  length-without_window preferred f = length-drop preferred f.items

  without_window-continuous :
      (preferred : ℕ) (f : SoftFifo S) → (without_window preferred f).continuous ≡ f.continuous
  unfolding without_window
  without_window-continuous preferred f = refl

  empty-rest :
      (preferred : ℕ) (f : SoftFifo S)
      → 0 < preferred
      → length f.items ≤ 0
      → is_due preferred f ≡ false
  empty-rest preferred f pos none_left = elim (Bool-cases (is_due preferred f)) [
    | inl due ↦ absurd (omega (arith, is_due-fits preferred f due))
    | inr rest ↦ rest
  ]

  -- As many rounds as there are cells are enough.
  consume_enough :
      (preferred n m : ℕ) (f : SoftFifo S) (w : W)
      → 0 < preferred
      → length f.items ≤ n
      → length f.items ≤ m
      → consume out reset_decoder true preferred n (f, w)
        ≡ consume out reset_decoder true preferred m (f, w)
  consume_enough preferred zero m f w pos le le' =
      consume_rest preferred zero f w (empty-rest preferred f pos le)
      ∙ sym (consume_rest preferred m f w (empty-rest preferred f pos le))
  consume_enough preferred n zero f w pos le le' =
      consume_rest preferred n f w (empty-rest preferred f pos le')
      ∙ sym (consume_rest preferred zero f w (empty-rest preferred f pos le'))
  consume_enough preferred (suc n) (suc m) f w pos le le' = elim (Bool-cases (is_due preferred f)) [
    | inr rest ↦
        consume_rest preferred (suc n) f w rest ∙ sym (consume_rest preferred (suc m) f w rest)
    | inl due ↦
        let fits = is_due-fits preferred f due in
        let shorter = length-without_window preferred f in
        consume_due preferred n f w due
        ∙ ap
            (λ (later : Bool × (SoftFifo S × W)).
              ((out (window_of preferred f) w).0 && later.0, later.1))
            (consume_enough preferred n m (without_window preferred f) _ pos (omega arith)
              (omega arith))
        ∙ sym (consume_due preferred m f w due)
  ]

  -- No window is due when the loop has ended.
  consume-rest :
      (preferred n : ℕ) (f : SoftFifo S) (w : W)
      → 0 < preferred
      → length f.items ≤ n
      → is_due preferred (consume out reset_decoder true preferred n (f, w)).1.0 ≡ false
  consume-rest preferred zero f w pos le =
      let rest = empty-rest preferred f pos le in rw (consume_rest preferred zero f w rest) rest
  consume-rest preferred (suc n) f w pos le = elim (Bool-cases (is_due preferred f)) [
    | inr rest ↦ rw (consume_rest preferred (suc n) f w rest) rest
    | inl due ↦
        let fits = is_due-fits preferred f due in
        let shorter = length-without_window preferred f in
        rw (consume_due preferred n f w due)
          (consume-rest preferred n (without_window preferred f) _ pos (omega arith))
  ]

  abbrev and_then : Chunk S → ℕ → Bool × (SoftFifo S × W) → Bool × (SoftFifo S × W)
  and_then c preferred (ok, (f, w)) =
      let rest = drain out reset_decoder true preferred (append_chunk true c f, w) in
      (ok && rest.0, rest.1)

  drain_due :
      (preferred : ℕ) (f : SoftFifo S) (w : W)
      → 0 < preferred
      → is_due preferred f ≡ true
      → drain out reset_decoder true preferred (f, w) ≡ (
          let sent = out (window_of preferred f) w in
          let later = drain out reset_decoder true preferred (without_window preferred f, sent.1) in
          (sent.0 && later.0, later.1))
  unfolding drain
  drain_due preferred f w pos due =
      let shorter = length-without_window preferred f in
      consume_enough preferred (length f.items) (suc (length f.items)) f w pos (omega arith)
        (omega arith)
      ∙ consume_due preferred (length f.items) f w due
      ∙ ap
          (λ (later : Bool × (SoftFifo S × W)).
            ((out (window_of preferred f) w).0 && later.0, later.1))
          (consume_enough preferred (length f.items) (length (without_window preferred f).items)
            (without_window preferred f) _ pos (omega arith) (omega arith))

  and_assoc : (a b c : Bool) → ((a && b) && c) ≡ (a && (b && c))
  and_assoc true b c = refl
  and_assoc false b c = refl

  and_then-also :
      (c : Chunk S) (preferred : ℕ) (ok : Bool) (r : Bool × (SoftFifo S × W))
      → (ok && (and_then c preferred r).0, (and_then c preferred r).1)
        ≡ and_then c preferred (ok && r.0, r.1)
  and_then-also c preferred ok (taken, (f, w)) =
      let rest = drain out reset_decoder true preferred (append_chunk true c f, w) in
      ap (λ b. (b, rest.1)) (sym (and_assoc ok taken rest.0))

  -- A chunk that comes in before the windows are taken, and one that comes in behind them.
  drain-append_chunk :
      (n rounds : ℕ) (f : SoftFifo S) (w : W) (c : Chunk S)
      → n < 2 ^ 32
      → 0 < n
      → length f.items ≤ rounds
      → f.continuous ≡ true
      → IsAt f c.seq_start
      → IsWhole c
      → drain out reset_decoder true (n * 1512) (append_chunk true c f, w)
        ≡ and_then c (n * 1512) (consume out reset_decoder true (n * 1512) rounds (f, w))
  drain-append_chunk n zero f w c small pos le goes_on at whole =
      rw (consume_rest (n * 1512) zero f w (empty-rest (n * 1512) f (omega arith) le)) refl
  drain-append_chunk n (suc rounds) f w c small pos le goes_on at whole =
      elim (Bool-cases (is_due (n * 1512) f)) [
        | inr rest ↦ rw (consume_rest (n * 1512) (suc rounds) f w rest) refl
        | inl due ↦
            let (fits, due') = is_due-append_chunk n f c small at whole due in
            let f' = without_window (n * 1512) f in
            let shorter = length-without_window (n * 1512) f in
            let cells_fit = is_due-fits (n * 1512) f due in
            let later =
              drain-append_chunk n rounds f' (out (window_of (n * 1512) f) w).1 c small pos
                (omega arith) (without_window-continuous (n * 1512) f ∙ goes_on)
                (without_window-IsAt n f c.seq_start small fits at) whole in
            drain_due (n * 1512) (append_chunk true c f) w (omega arith) due'
            ∙ rw
                (
                  window_of-append_chunk n f c small pos fits goes_on at whole,
                  ← append_chunk-without_window n f c small pos fits at whole,
                  consume_due (n * 1512) rounds f w due,
                  later,
                )
                (and_then-also c (n * 1512) (out (window_of (n * 1512) f) w).0 (
                  consume out reset_decoder true (n * 1512) rounds
                    (f', (out (window_of (n * 1512) f) w).1)))
      ]

  process_lem :
      (n : ℕ) (c : Chunk S) (f : SoftFifo S) (w : W)
      → 0 < n
      → process out reset_decoder true (n * 1512) c (f, w)
        ≡ drain out reset_decoder true (n * 1512) (append_chunk true c f, w)
  unfolding process window_cells
  process_lem n c f w pos = ground arith

  -- When the queue holds whole symbols up to the first of a chunk, that chunk and one behind it
  -- are of whole symbols with their model symbols, and the windows of 1 to under 2^32 symbols,
  -- two calls of live_soft_dibit_fifo_process in a front end that goes on do what one call does
  -- on the cells of both: the same windows go out in order, the result is that both went well,
  -- and the same symbols are left. No window is due after a call.
  pub process-joined :
      (n : ℕ) (a b : Chunk S) (f : SoftFifo S) (w : W)
      → n < 2 ^ 32
      → 0 < n
      → IsAt f a.seq_start
      → IsWhole a
      → IsWhole b
      → b.seq_start ≡ a.seq_start + a.symbol_count
      → let first = process out reset_decoder true (n * 1512) a (f, w) in
        let second = process out reset_decoder true (n * 1512) b first.1 in
        (process out reset_decoder true (n * 1512) (joined a b) (f, w)
          ≡ (first.0 && second.0, second.1))
        × (is_due (n * 1512) first.1.0 ≡ false)
  unfolding drain
  process-joined n a b f w small pos at wa wb follows =
      let f' = append_chunk true a f in
      let first = drain out reset_decoder true (n * 1512) (f', w) in
      let at' = subst (IsAt f') (sym follows) (append_chunk-IsAt f a at wa) in
      rw (process_lem n a f w pos, process_lem n b first.1.0 first.1.1 pos)
        (
          process_lem n (joined a b) f w pos
              ∙ ap (λ g. drain out reset_decoder true (n * 1512) (g, w))
                  (append_chunk-joined f a b wa wb)
              ∙ drain-append_chunk n (length f'.items) f' w b small pos (omega arith)
                  (append_chunk-continuous f a wa) at' wb,
          consume-rest (n * 1512) (length f'.items) f' w (omega arith) (omega arith),
        )
