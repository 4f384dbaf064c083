-- ===== src/Base/Reads.antt =====
-- Reads of an array that may be out of range: `none` is a read past the end.
use Prim.Native.Nat.{ℕ, zero, suc, ◌<◌}
use mathlib.Core.Path.{◌≡◌, refl, ◌∙◌, ap}
use mathlib.Core.Bool.{Bool, true, false}
use mathlib.Core.Option.{Option, none, some}
use mathlib.Core.List.{List, [], ◌∷◌}
use native.Mathlib.Omega.{arith}
use dvbt_rx.Base.Tests.{if◌then◌else◌}
use dvbt_rx.Base.Lists.{length, All}

abbrev pub read {ℓ} : {A : Type ℓ} → List A → ℕ → Option A
read [] i = none
read (x ∷ xs) zero = some x
read (x ∷ xs) (suc i) = read xs i

infixl 5 ◌>>=◌
abbrev pub ◌>>=◌ {ℓ κ} : {A : Type ℓ} {B : Type κ} → Option A → (A → Option B) → Option B
none >>= f = none
some a >>= f = f a

-- The code returns, and what it returns has the property.
abbrev pub Returns {ℓ κ} : {A : Type ℓ} → Option A → (A → Type κ) → Type (ℓ ⊔ κ)
Returns {A = A} m P = (a : A) × (m ≡ some a) × P a

module _ {ℓ κ} {A : Type ℓ} (P : A → Type κ) where
  pub some-Returns : (a : A) → P a → Returns (some a) P
  some-Returns a p = (a, refl, p)

  pub if-Returns :
      (b : Bool) {x y : Option A}
      → (b ≡ true → Returns x P)
      → (b ≡ false → Returns y P)
      → Returns (if b then x else y) P
  if-Returns true on_true on_false = on_true refl
  if-Returns false on_true on_false = on_false refl

  pub >>=-Returns {ℓ₁ κ₁} :
      {B : Type ℓ₁} (Q : B → Type κ₁) {m : Option B} {f : B → Option A}
      → Returns m Q
      → ((b : B) → Q b → Returns (f b) P)
      → Returns (m >>= f) P
  >>=-Returns Q {m} {f} (b, e, q) h = let (a, e', p) = h b q in (a, ap (λ o. o >>= f) e ∙ e', p)

pub read-Returns {ℓ κ} :
    {A : Type ℓ} (P : A → Type κ) (xs : List A) (i : ℕ)
    → All P xs
    → i < length xs
    → Returns (read xs i) P
read-Returns P [] i all lt = absurd (omega arith)
read-Returns P (x ∷ xs) zero (p, all) lt = (x, refl, p)
read-Returns P (x ∷ xs) (suc i) (p, all) lt = read-Returns P xs i all (omega arith)

abbrev pub Any {ℓ} : {A : Type ℓ} → A → Type 0
Any a = Unit

pub read-Any {ℓ} : {A : Type ℓ} (xs : List A) (i : ℕ) → i < length xs → Returns (read xs i) Any
read-Any [] i lt = absurd (omega arith)
read-Any (x ∷ xs) zero lt = (x, refl, tt)
read-Any (x ∷ xs) (suc i) lt = read-Any xs i (omega arith)
