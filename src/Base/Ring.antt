-- ===== src/Base/Ring.antt =====
-- Indices that go round a buffer of `cap` slots.
use Prim.Native.Nat.{ℕ, zero, suc, ◌≤◌, ◌+◌, ◌-◌, ◌%◌, ◌<◌}
use mathlib.Core.Path.{◌≡◌, refl, sym, ap, ap₂, ◌∙◌}
use mathlib.Core.Logic.{◌≢◌, inl, inr}
use native.Mathlib.Nat.{mod-lt, mod-add-mod, mod-eq_of_lt, mod-eq-sub-mod, add-mod_right}
use native.Mathlib.Omega.{arith}
use dvbt_rx.Base.Tests.{ltb, Bool-cases}
use dvbt_rx.Base.Lists.{length, get_or, set, drop, get_or-set_self, get_or-set_ne}
use mathlib.Core.List.{List, [], ◌∷◌, ◌++◌}

-- Fewer than `cap` steps do not come back to the start.
pub round-ne : (cap h n : ℕ) → h < cap → suc n < cap → (h + suc n) % cap ≢ h
round-ne cap h n p q = elim (Bool-cases (ltb (h + suc n) cap)) [
  | inl below ↦ ground (arith, mod-eq_of_lt {n = h + suc n} {m = cap})
  | inr over ↦ ground (
    arith,
    mod-eq-sub-mod {n = h + suc n} {m = cap},
    mod-eq_of_lt {n = h + suc n - cap} {m = cap},
  )
]

-- One step and then `k` are `suc k` steps.
pub round-suc : (cap h k : ℕ) → ((h + 1) % cap + k) % cap ≡ (h + suc k) % cap
round-suc cap h k = mod-add-mod (h + 1) cap k ∙ ap (λ t. t % cap) regroup
  where
    regroup : h + 1 + k ≡ h + suc k
    regroup = omega arith

-- `cap` steps come back to the start.
pub round_full : (cap h k : ℕ) → h < cap → suc k ≡ cap → (h + suc k) % cap ≡ h
round_full cap h k p e = ap (λ t. (h + t) % cap) e ∙ add-mod_right h cap ∙ mod-eq_of_lt p

module _ {A : Type 0} (d : A) (cap : ℕ) where
  -- The `n` items from slot `h` on, going round at `cap`.
  abbrev pub ring_from : List A → ℕ → ℕ → List A
  ring_from items h zero = []
  ring_from items h (suc n) = get_or items h d ∷ ring_from items ((h + 1) % cap) n

  pub length-ring_from : (items : List A) (h n : ℕ) → length (ring_from items h n) ≡ n
  length-ring_from items h zero = refl
  length-ring_from items h (suc n) = ap suc (length-ring_from items ((h + 1) % cap) n)

  -- A write into the slot after the last item appends it.
  pub ring_from-set :
      (n : ℕ) (items : List A) (h t : ℕ) (x : A)
      → length items ≡ cap
      → h < cap
      → n < cap
      → t ≡ (h + n) % cap
      → ring_from (set items t x) h (suc n) ≡ ring_from items h n ++ (x ∷ [])
  ring_from-set zero items h t x e hh hn et =
      ap (λ y. y ∷ [])
        (ap (λ i. get_or (set items i x) h d) at_head ∙ get_or-set_self items h x d (omega arith))
    where
      at_head : t ≡ h
      at_head = et ∙ ap (λ k. k % cap) (omega arith) ∙ mod-eq_of_lt hh
  ring_from-set (suc n) items h t x e hh hn et =
      ap₂ ◌∷◌ (get_or-set_ne items t h x d (rw et (round-ne cap h n hh hn))) (
        ring_from-set n items ((h + 1) % cap) t x e (omega arith) (omega arith)
          (et ∙ sym (round-suc cap h n)))

  pub ring_from_pos :
      (items : List A) (h n : ℕ)
      → n ≢ 0
      → ring_from items h n ≡ get_or items h d ∷ ring_from items ((h + 1) % cap) (n - 1)
  ring_from_pos items h zero p = absurd (p refl)
  ring_from_pos items h (suc n) p =
      ap (λ k. get_or items h d ∷ ring_from items ((h + 1) % cap) k) (omega arith)

  -- Without the first `k` items.
  pub ring_from-drop :
      (k : ℕ) (items : List A) (h n : ℕ)
      → h < cap
      → k ≤ n
      → ring_from items ((h + k) % cap) (n - k) ≡ drop k (ring_from items h n)
  ring_from-drop zero items h n hh le =
      ap₂ (λ i m. ring_from items i m) (ap (λ t. t % cap) (omega arith) ∙ mod-eq_of_lt hh)
        (omega arith)
  ring_from-drop (suc k) items h zero hh le = absurd (omega arith)
  ring_from-drop (suc k) items h (suc n) hh le =
      ap₂ (λ i m. ring_from items i m) (sym (round-suc cap h k)) (omega arith)
      ∙ ring_from-drop k items ((h + 1) % cap) n (mod-lt (h + 1) (omega arith)) (omega arith)
