-- ===== src/Outer/Reception.antt =====
-- A reception that begins decodes the blocks that the search has scored.
use dvbt_rx.Base.{
  ℕ, zero, suc, ◌+◌, ◌-◌, ◌*◌, ◌/◌, ◌%◌, ◌≤◌, ◌<◌, ◌≡◌, arith, refl, sym, ap, ◌∙◌, List, [], ◌∷◌,
  ◌++◌, drop, length, Option, none, some, ◌>>=◌, Bool,
}
use dvbt_rx.Deinterleaver.{run, step, deinterleave_phase}
use dvbt_rx.Deinterleaver
use dvbt_rx.Deinterleaver.Delay.{length-run, deinterleave_phase-run}
use dvbt_rx.Acquire.{Candidate}
use dvbt_rx.Outer.{Receiver, acquired, deinterleave, process_bytes, process_acquired}
use dvbt_rx.Outer.Blocks.{blocks, view, seen, to_come, process_bytes-blocks}

module _ {S : Type 0} (consume : S → ℕ → List ℕ → Option S) (note_bad : S → S)
    (scramble : List ℕ) where
  -- The bytes that are dropped do not come into a block.
  process_bytes-drop :
      (j : ℕ) (xs : List ℕ) (n k : ℕ) (r : Receiver S)
      → r.live.rs_block ≡ []
      → j + 204 * n ≤ length xs
      → length xs < j + 204 * n + 204
      → r.live.branch ≡ k % 12
      → (process_bytes consume note_bad scramble j r xs >>= λ r'. some (view r'))
        ≡ blocks consume note_bad scramble n r.live.block_phase
            (view r)
            (drop j (run k r.live.deinterleaver xs))
  unfolding process_bytes deinterleave run seen to_come
  process_bytes-drop zero xs n k r empty low high at =
      process_bytes-blocks consume note_bad scramble xs n k r (omega (arith, ap length empty))
        (omega (arith, ap length empty, low)) (omega (arith, ap length empty, high)) at
      ∙ ap
          (λ b.
            blocks consume note_bad scramble n r.live.block_phase (view r)
              (b ++ run k r.live.deinterleaver xs))
          empty
  process_bytes-drop (suc j) [] n k r empty low high at = absurd (omega arith)
  process_bytes-drop (suc j) (x ∷ xs) n k r empty low high at =
      process_bytes-drop j xs n (k + 1) (deinterleave r x).1 empty (omega arith) (omega arith)
        next_branch
      ∙ ap
          (λ b.
            blocks consume note_bad scramble n r.live.block_phase (view r)
              (drop j (run (k + 1) (step r.live.deinterleaver b x).1 xs)))
          at
    where
      next_branch : (r.live.branch + 1) % 12 ≡ (k + 1) % 12
      next_branch = omega arith

  -- When a reception begins at a candidate, the pending bytes are decoded as the whole blocks of 204
  -- bytes of the output of outer_deinterleave_phase, from the place where the search has scored
  -- them, the first at the candidate's block phase.
  pub process_acquired-blocks :
      (r : Receiver S) (pending deint : List ℕ) (best : Candidate) (probation : Bool)
      → deinterleave_phase pending best.deint_phase ≡ some deint
      → 2244 + best.rs_phase ≤ length deint
      → (process_acquired consume note_bad scramble r pending best probation >>= λ r'.
          some (view r'))
        ≡ blocks consume note_bad scramble
            ((length deint - (2244 + best.rs_phase)) / 204)
            best.block_phase
            (view r)
            (drop (2244 + best.rs_phase) deint)
  unfolding process_acquired acquired
  process_acquired-blocks r pending deint best probation made enough =
      >>=-ended (process_bytes consume note_bad scramble offset r' bytes)
      ∙ process_bytes-drop offset bytes n 0 r' refl (omega (arith, size, enough))
          (omega (arith, size)) refl
      ∙ ap (λ d. blocks consume note_bad scramble n best.block_phase (view r) (drop offset d))
          deint_eq
    where
      offset : ℕ
      offset = 2244 + best.rs_phase

      bytes : List ℕ
      bytes = drop best.deint_phase pending

      n : ℕ
      n = (length deint - offset) / 204

      r' : Receiver S
      r' = record r { live = acquired pending best probation }

      deint_eq : run 0 Deinterleaver.init bytes ≡ deint
      deint_eq = deinterleave_phase-run pending best.deint_phase deint made

      size : length bytes ≡ length deint
      size = sym (length-run 0 Deinterleaver.init bytes) ∙ ap length deint_eq

      >>=-ended :
          (m : Option (Receiver S))
          → (m >>= (λ q. some (record q { live = record q.live { pending = [] } })) >>= λ q.
              some (view q))
            ≡ (m >>= λ q. some (view q))
      >>=-ended none = refl
      >>=-ended (some q) = refl
