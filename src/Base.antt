-- ===== src/Base.antt =====
-- The names that the other modules share: the libraries', passed on, and those of the children.
pub mod Tests
mod Lists
mod Xor
mod Ring
mod Reads
mod Loops
pub use Tests.*
unfoldable pub use Lists.*
unfoldable pub use Xor.*
pub use Ring.*
pub use Reads.*
unfoldable pub use Loops.*
pub use Prim.Native.Nat.{
  ℕ, zero, suc, ◌+◌, ◌-◌, ◌*◌, ◌/◌, ◌%◌, ◌^◌, ◌≤◌, ◌<◌, min, bit_xor, bit_and, bit_or,
}
pub use mathlib.Core.Path.{◌≡◌, refl, sym, ap, ap₂, ◌∙◌, subst}
pub use mathlib.Core.Logic.{◌≢◌, ◌↔◌, ◌⊎◌, inl, inr}
pub use mathlib.Core.Bool.{Bool, true, false, not, ◌&&◌, ◌||◌}
pub use mathlib.Core.Option.{Option, none, some}
pub use mathlib.Core.List.{List, [], ◌∷◌, ◌++◌, map, append-nil, append_assoc}
pub use native.Mathlib.Omega.{arith}

-- Two functions that agree below `n` by evaluation agree at each number there.
pub all_below_eq :
    (n : ℕ) (f g : ℕ → ℕ) (x : ℕ) → all_below n (λ i. f i == g i) ≡ true → x < n → f x ≡ g x
all_below_eq n f g x t h = (==_iff (f x) (g x)).0 (all_below_sound n (λ i. f i == g i) x t h)

pub all_below_lt :
    (n : ℕ) (f g : ℕ → ℕ) (x : ℕ) → all_below n (λ i. ltb (f i) (g i)) ≡ true → x < n → f x < g x
all_below_lt n f g x t h = ltb→lt (f x) (g x) (all_below_sound n (λ i. ltb (f i) (g i)) x t h)
