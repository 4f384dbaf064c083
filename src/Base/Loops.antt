-- ===== src/Base/Loops.antt =====
-- The C loop `for (i = first; i < first + n; ++i)` over a state, and its invariant.
use Prim.Native.Nat.{ℕ, zero, suc, ◌+◌, ◌<◌}
use mathlib.Core.Path.{◌≡◌, subst}
use native.Mathlib.Omega.{arith}

module _ {ℓ} {S : Type ℓ} where
  -- With `n` rounds left at `i`.
  unfoldable pub for_from : (ℕ → S → S) → ℕ → ℕ → S → S
  for_from step zero i s = s
  for_from step (suc n) i s = for_from step n (i + 1) (step i s)

  -- What holds at the start and is kept by each round holds at the end.
  pub for_from_invariant {κ} :
      (step : ℕ → S → S) (P : ℕ → S → Type κ) (end n i : ℕ) (s : S)
      → i + n ≡ end
      → ((j : ℕ) (t : S) → j < end → P j t → P (j + 1) (step j t))
      → P i s
      → P end (for_from step n i s)
  unfolding for_from
  for_from_invariant step P end zero i s e keeps p = subst (λ k. P k s) at_end p
    where
      at_end : i ≡ end
      at_end = omega arith
  for_from_invariant step P end (suc n) i s e keeps p =
      for_from_invariant step P end n (i + 1) (step i s) (omega arith) keeps
        (keeps i s (omega arith) p)
