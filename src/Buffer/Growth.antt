-- ===== src/Buffer/Growth.antt =====
-- A buffer keeps its bytes when it grows, and has room for what is appended.
use native.Mathlib.Nat.{pow-suc}
use dvbt_rx.Base.{ℕ, zero, suc, ◌+◌, ◌*◌, ◌%◌, ◌^◌, ◌≤◌, ◌<◌, ◌≡◌, refl, arith, ap, sym}
use dvbt_rx.Base.{Bool, true, List, [], ◌∷◌, ◌++◌, some, inl, inr, length}
use dvbt_rx.Base.{length-append, append-nil, if◌then◌else◌, ltb, leb, leb→le, ◌==◌, Bool-cases}
use dvbt_rx.Buffer.{Buffer, grow, reserve, append}

-- The bytes in use fit the allocation.
abbrev pub IsValid : Buffer → Type 0
IsValid b = length b.bytes ≤ b.cap

-- Doubling ends with a capacity that suffices, as long as half a `size_t` does.
pub grow_enough :
    (fuel cap need : ℕ)
    → 0 < cap
    → need ≤ 2 ^ 63
    → need ≤ cap * 2 ^ fuel
    → (c : ℕ) × (grow (suc fuel) cap need ≡ some c) × (need ≤ c) × (cap ≤ c)
unfolding grow
grow_enough zero cap need p h k = (cap, ground arith, omega arith, omega arith)
grow_enough (suc fuel) cap need p h k = elim (Bool-cases (ltb cap need)) [
  | inl short ↦
      let (c, found, room, grown) =
        grow_enough fuel (cap * 2) need (omega arith) h
          (omega (arith, ap (λ (t : ℕ). cap * t) (pow-suc 2 fuel))) in
      (c, rw found (ground arith), room, omega arith)
  | inr enough ↦ (cap, ground arith, ground arith, omega arith)
]

reserve_enough :
    (grants : ℕ → Bool) (first_cap : ℕ) (b : Buffer) (extra : ℕ)
    → ((c : ℕ) → grants c ≡ true)
    → 0 < first_cap
    → length b.bytes + extra ≤ 2 ^ 63
    → (c : ℕ) × (reserve grants first_cap b extra ≡ some (record b { cap = c }))
      × (length b.bytes + extra ≤ c)
      × (b.cap ≤ c)
unfolding reserve
reserve_enough grants first_cap b extra g p h =
    elim (Bool-cases (leb (length b.bytes + extra) b.cap)) [
      | inl fits ↦ (b.cap, rw no_wrap (ground arith), leb→le _ _ fits, omega arith)
      | inr short ↦
          let (c, found, room, grown) =
            grow_enough 64 start (length b.bytes + extra) start_pos h (omega (arith, start_pos)) in
          (c, rw (no_wrap, found) (ground (arith, g c)), room, ground arith)
    ]
  where
    no_wrap : (length b.bytes + extra) % 2 ^ 64 ≡ length b.bytes + extra
    no_wrap = omega arith

    start : ℕ
    start = if b.cap == 0 then first_cap else b.cap

    start_pos : 0 < start
    start_pos = ground arith

-- An append succeeds while `realloc` does and the sum stays below half a `size_t`: the bytes are
-- the old ones and then the new, they fit the allocation, and the allocation has not shrunk.
pub append-IsValid :
    (grants : ℕ → Bool) (first_cap : ℕ) (b : Buffer) (more : List ℕ)
    → ((c : ℕ) → grants c ≡ true)
    → 0 < first_cap
    → length b.bytes + length more ≤ 2 ^ 63
    → IsValid b
    → (b' : Buffer) × (append grants first_cap b more ≡ some b')
      × (b'.bytes ≡ b.bytes ++ more)
      × IsValid b'
      × (b.cap ≤ b'.cap)
unfolding append
append-IsValid grants first_cap b [] g p h v = (b, refl, sym (append-nil b.bytes), v, omega arith)
append-IsValid grants first_cap b (x ∷ xs) g p h v =
    let (c, found, room, grown) = reserve_enough grants first_cap b (length (x ∷ xs)) g p h in
    (
      record { bytes = b.bytes ++ (x ∷ xs); cap = c },
      ground (arith, found),
      refl,
      rw (length-append b.bytes (x ∷ xs)) room,
      grown,
    )
