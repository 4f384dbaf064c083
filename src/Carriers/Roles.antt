-- ===== src/Carriers/Roles.antt =====
-- The data carriers of a symbol are, in order, those whose role is data.
use native.Mathlib.Nat.{mod-mod}
use dvbt_rx.Base.{ℕ, zero, suc, ◌+◌, ◌%◌, ◌≤◌, ◌<◌, ◌≡◌, ◌∙◌, refl, sym, ap, arith, inl, inr}
use dvbt_rx.Base.{true, false, List, ◌∷◌, some, get_or, length, Bool-cases}
use mathlib.Core.Bool.{false≢true}
use dvbt_rx.Base.{all_below, all_below_eq, if◌then◌else◌, ltb}
use dvbt_rx.Carriers.{Role, carrier_role, is_data, is_scattered_pilot, is_tps_carrier}
use dvbt_rx.Carriers.{
  is_continual_pilot, list_contains, data_carriers_from, data_carriers, data_carrier,
}

is_data_sound : (r : Role) → is_data r ≡ true → r ≡ Role.carrier_data
unfolding is_data
is_data_sound Role.carrier_data h = refl
is_data_sound Role.unused h = cc
is_data_sound Role.continual_pilot h = cc
is_data_sound Role.scattered_pilot h = cc
is_data_sound Role.tps h = cc

-- A role depends on the symbol's number modulo 4.
pub role-mod : (n k : ℕ) → carrier_role (n % 4) k ≡ carrier_role n k
unfolding carrier_role is_scattered_pilot
role-mod n k = rw (mod-mod n 4) refl

-- `ys` lists the data carriers from `lo` on below `hi`, in order and without a gap.
record IsListing (m lo hi : ℕ) (ys : List ℕ) : Type 0 where
  inside :
      (i : ℕ)
      → i < length ys
      → (lo ≤ get_or ys i 0)
        × (get_or ys i 0 < hi)
        × (is_data (carrier_role m (get_or ys i 0)) ≡ true)
  grows : (i j : ℕ) → i < j → j < length ys → get_or ys i 0 < get_or ys j 0
  complete :
      (c : ℕ)
      → lo ≤ c
      → c < hi
      → is_data (carrier_role m c) ≡ true
      → (i : ℕ) × (i < length ys) × (get_or ys i 0 ≡ c)

cons-inside :
    (m lo hi : ℕ) (ys : List ℕ)
    → lo < hi
    → is_data (carrier_role m lo) ≡ true
    → IsListing m (lo + 1) hi ys
    → (i : ℕ) → i < length (lo ∷ ys)
    → (lo ≤ get_or (lo ∷ ys) i 0)
      × (get_or (lo ∷ ys) i 0 < hi)
      × (is_data (carrier_role m (get_or (lo ∷ ys) i 0)) ≡ true)
cons-inside m lo hi ys b d v zero h = (omega arith, b, d)
cons-inside m lo hi ys b d v (suc i) h =
    let (low, high, is) = v.inside i (omega arith) in (omega arith, high, is)

cons-grows :
    (m lo hi : ℕ) (ys : List ℕ)
    → IsListing m (lo + 1) hi ys
    → (i j : ℕ) → i < j
    → j < length (lo ∷ ys)
    → get_or (lo ∷ ys) i 0 < get_or (lo ∷ ys) j 0
cons-grows m lo hi ys v i zero h p = absurd (omega arith)
cons-grows m lo hi ys v zero (suc j) h p = omega (arith, (v.inside j (omega arith)).0)
cons-grows m lo hi ys v (suc i) (suc j) h p = v.grows i j (omega arith) (omega arith)

cons-IsListing :
    (m lo hi : ℕ) (ys : List ℕ)
    → lo < hi
    → is_data (carrier_role m lo) ≡ true
    → IsListing m (lo + 1) hi ys
    → IsListing m lo hi (lo ∷ ys)
cons-IsListing m lo hi ys b d v = record {
  inside = cons-inside m lo hi ys b d v;
  grows = cons-grows m lo hi ys v;
  complete = λ c p q dc. elim (Bool-cases (ltb lo c)) [
    | inl later ↦ let (i, short, at) = v.complete c (ground arith) q dc in (suc i, omega arith, at)
    | inr here ↦ (0, omega arith, ground arith)
  ];
}

skip-IsListing :
    (m lo hi : ℕ) (ys : List ℕ)
    → is_data (carrier_role m lo) ≡ false
    → IsListing m (lo + 1) hi ys
    → IsListing m lo hi ys
skip-IsListing m lo hi ys d v = record {
  inside = λ i h. let (low, high, is) = v.inside i h in (omega arith, high, is);
  grows = v.grows;
  complete = λ c p q dc. elim (Bool-cases (ltb lo c)) [
    | inl later ↦ v.complete c (ground arith) q dc
    | inr here ↦
        let same : c ≡ lo = ground arith in
        absurd (false≢true (sym d ∙ ap (λ t. is_data (carrier_role m t)) (sym same) ∙ dc))
  ];
}

-- The data carriers among the `n` from `k` on.
count_data : ℕ → ℕ → ℕ → ℕ
count_data m zero k = 0
count_data m (suc n) k = (if is_data (carrier_role m k) then 1 else 0) + count_data m n (k + 1)

-- While there is room, the loop lists them all.
loop-IsListing :
    (m n k index hi : ℕ)
    → k + n ≡ hi
    → index + count_data m n k ≤ 1512
    → IsListing m k hi (data_carriers_from m n k index)
      × (length (data_carriers_from m n k index) ≡ count_data m n k)
unfolding data_carriers_from count_data
loop-IsListing m zero k index hi e h = (
  record {
    inside = λ i p. absurd (omega arith);
    grows = λ i j p q. absurd (omega arith);
    complete = λ c p q d. absurd (omega arith);
  },
  refl,
)
loop-IsListing m (suc n) k index hi e h = elim (Bool-cases (is_data (carrier_role m k))) [
  | inl here ↦
      let (rest, len) = loop-IsListing m n (k + 1) (index + 1) hi (omega arith) (ground arith) in
      let room : ltb index 1512 ≡ true = ground arith in
      rw (here, room) (cons-IsListing m k hi _ (omega arith) here rest, omega (arith, len))
  | inr other ↦
      let (rest, len) = loop-IsListing m n (k + 1) index hi (omega arith) (ground arith) in
      rw other (skip-IsListing m k hi _ other rest, omega (arith, len))
]

count_symbols : (m : ℕ) → m < 4 → count_data m 1705 0 ≡ 1512
count_symbols m h =
    all_below_eq 4 (λ m. count_data m 1705 0) (λ m. 1512) m
      (unfold all_below count_data is_data carrier_role is_tps_carrier is_scattered_pilot
          is_continual_pilot list_contains in
        refl)
      h

symbol-IsListing :
    (n : ℕ)
    → IsListing (n % 4) 0 1705 (data_carriers (n % 4)) × (length (data_carriers (n % 4)) ≡ 1512)
unfolding data_carriers
symbol-IsListing n =
    let counted = count_symbols (n % 4) (omega arith) in
    let (listing, len) = loop-IsListing (n % 4) 1705 0 0 1705 refl (omega arith) in
    (listing, len ∙ counted)

role_active : (n k : ℕ) → carrier_role n k ≡ Role.carrier_data → k < 1705
unfolding carrier_role
role_active n k h = ground arith

-- Each of the 1512 cells of a symbol has a carrier below 1705 whose role in that symbol is data, and
-- a later cell has a higher carrier.
data_carrier_lem :
    (n i j : ℕ)
    → i < j
    → j < 1512
    → (k : ℕ) × (l : ℕ) × (data_carrier n i ≡ some k)
      × (data_carrier n j ≡ some l)
      × (k < l)
      × (l < 1705)
      × (carrier_role n k ≡ Role.carrier_data)
      × (carrier_role n l ≡ Role.carrier_data)
unfolding data_carrier
data_carrier_lem n i j h p =
    let (v, len) = symbol-IsListing n in
    let first = v.inside i (omega arith) in
    let second = v.inside j (omega arith) in
    (
      get_or (data_carriers (n % 4)) i 0,
      get_or (data_carriers (n % 4)) j 0,
      ground arith,
      ground arith,
      v.grows i j h (omega arith),
      second.1,
      sym (role-mod n _) ∙ is_data_sound _ first.2,
      sym (role-mod n _) ∙ is_data_sound _ second.2,
    )

-- Each carrier whose role in a symbol is data has a cell.
data_carrier_complete :
    (n k : ℕ)
    → carrier_role n k ≡ Role.carrier_data
    → (i : ℕ) × (i < 1512) × (data_carrier n i ≡ some k)
unfolding data_carrier
data_carrier_complete n k h =
    let (v, len) = symbol-IsListing n in
    let (i, short, at) =
      v.complete k (omega arith) (role_active n k h) (ap is_data (role-mod n k ∙ h) ∙ is) in
    (i, omega arith, ground arith)
  where
    is : is_data Role.carrier_data ≡ true
    is = unfold is_data in refl

-- Of two of the 1512 cells of a symbol each has a carrier below 1705 whose role in that symbol is
-- data, and the later cell has the higher carrier; and each carrier whose role is data belongs to
-- one of the 1512 cells.
pub data_carriers_listed :
    (n i j c : ℕ)
    → i < j
    → j < 1512
    → carrier_role n c ≡ Role.carrier_data
    → ((k : ℕ) × (l : ℕ) × (data_carrier n i ≡ some k)
        × (data_carrier n j ≡ some l)
        × (k < l)
        × (l < 1705)
        × (carrier_role n k ≡ Role.carrier_data)
        × (carrier_role n l ≡ Role.carrier_data))
      × ((i' : ℕ) × (i' < 1512) × (data_carrier n i' ≡ some c))
data_carriers_listed n i j c h p is = (data_carrier_lem n i j h p, data_carrier_complete n c is)
