-- ===== src/Puncture/RoundTrip.antt =====
-- The pairs against the puncturing of the transmitter: which bits of the mother code were sent, and
-- in which order.
use dvbt_rx.Base.{
  ℕ, zero, suc, ◌+◌, ◌*◌, ◌<◌, ◌/◌, ◌≤◌, ◌≡◌, ◌≢◌, refl, sym, ap, ap₂, ◌∙◌, arith, Bool, true,
  false, List, [], ◌∷◌, ◌++◌, Option, none, some, length, take, drop, length-append, length-drop,
  take-nil, le→not-ltb,
}
use dvbt_rx.Puncture.{
  Fec, group_in, group_out, pair_count, Dibit, Received, Pair, x_of, y_of, both, only_x, only_y,
  group, groups_from, depuncture_into, depuncture,
}

-- The X and the Y of each pair of a group: whether the transmitter sends it.
pub pattern : Fec → List (Bool × Bool)
pattern Fec.auto = []
pattern Fec.fec_1_2 = (true, true) ∷ []
pattern Fec.fec_2_3 = (true, true) ∷ (false, true) ∷ (true, true) ∷ (false, true) ∷ []
pattern Fec.fec_3_4 = (true, true) ∷ (false, true) ∷ (true, false) ∷ []
pattern Fec.fec_5_6 =
    (true, true) ∷ (false, true) ∷ (true, false) ∷ (false, true) ∷ (true, false) ∷ []
pattern Fec.fec_7_8 =
    (true, true)
    ∷ (false, true)
    ∷ (false, true)
    ∷ (false, true)
    ∷ (true, false)
    ∷ (false, true)
    ∷ (true, false)
    ∷ []

pub repeated : ℕ → List (Bool × Bool) → List (Bool × Bool)
repeated zero p = []
repeated (suc n) p = p ++ repeated n p

suc_times : (n m : ℕ) → m + n * m ≡ suc n * m
suc_times n m = grind arith

whole_groups-le : (fec : Fec) (n : ℕ) → n / group_in fec * group_in fec ≤ n
unfolding group_in
whole_groups-le Fec.auto n = omega arith
whole_groups-le Fec.fec_1_2 n = omega arith
whole_groups-le Fec.fec_2_3 n = omega arith
whole_groups-le Fec.fec_3_4 n = omega arith
whole_groups-le Fec.fec_5_6 n = omega arith
whole_groups-le Fec.fec_7_8 n = omega arith

real_rate : (fec : Fec) (n : ℕ) → 0 < pair_count fec n → fec ≢ Fec.auto
unfolding pair_count group_out
real_rate Fec.auto n h e = absurd (omega arith)
real_rate Fec.fec_1_2 n h e = cc
real_rate Fec.fec_2_3 n h e = cc
real_rate Fec.fec_3_4 n h e = cc
real_rate Fec.fec_5_6 n h e = cc
real_rate Fec.fec_7_8 n h e = cc

module _ {C : Type 0} where
  pub is_some : Option (Received C) → Bool
  is_some none = false
  is_some (some r) = true

  pub sent_mask : List (Pair C) → List (Bool × Bool)
  sent_mask [] = []
  sent_mask (p ∷ ps) = (is_some p.x, is_some p.y) ∷ sent_mask ps

  pub push : Option (Received C) → List (Received C) → List (Received C)
  push none rs = rs
  push (some r) rs = r ∷ rs

  -- The bits of the pairs that were sent, X before Y.
  pub sent_bits : List (Pair C) → List (Received C)
  sent_bits [] = []
  sent_bits (p ∷ ps) = push p.x (push p.y (sent_bits ps))

  -- The bits of the dibits in the order of reception.
  pub dibit_bits : List (Dibit C) → List (Received C)
  dibit_bits [] = []
  dibit_bits (t ∷ ts) = x_of t ∷ y_of t ∷ dibit_bits ts

  -- As many whole groups as the dibits have, each with the mask of its pattern, and with every bit
  -- of the dibits taken in its place.
  pub IsDepunctured : Fec → List (Dibit C) → List (Pair C) → Type 0
  IsDepunctured fec dibits pairs =
      (length pairs ≡ length dibits / group_in fec * group_out fec)
      × (sent_mask pairs ≡ repeated (length dibits / group_in fec) (pattern fec))
      × (sent_bits pairs ≡ dibit_bits (take (length dibits / group_in fec * group_in fec) dibits))

  HasRate : Fec → List (Dibit C) → Type 0
  HasRate fec dibits =
      (length (group fec dibits) ≡ group_out fec)
      × ((ps : List (Pair C)) → sent_mask (group fec dibits ++ ps) ≡ pattern fec ++ sent_mask ps)
      × ((ps : List (Pair C))
          → sent_bits (group fec dibits ++ ps)
            ≡ dibit_bits (take (group_in fec) dibits) ++ sent_bits ps)

  group-HasRate :
      (fec : Fec) (dibits : List (Dibit C))
      → fec ≢ Fec.auto
      → group_in fec ≤ length dibits
      → HasRate fec dibits
  unfolding HasRate group group_in group_out pattern sent_mask sent_bits dibit_bits is_some push
      both only_x only_y
  group-HasRate Fec.auto dibits real le = absurd (real refl)
  group-HasRate Fec.fec_1_2 (a ∷ ts) real le = (refl, λ ps. refl, λ ps. refl)
  group-HasRate Fec.fec_1_2 [] real le = absurd (omega arith)
  group-HasRate Fec.fec_2_3 (a ∷ b ∷ c ∷ ts) real le = (refl, λ ps. refl, λ ps. refl)
  group-HasRate Fec.fec_2_3 [] real le = absurd (omega arith)
  group-HasRate Fec.fec_2_3 (a ∷ []) real le = absurd (omega arith)
  group-HasRate Fec.fec_2_3 (a ∷ b ∷ []) real le = absurd (omega arith)
  group-HasRate Fec.fec_3_4 (a ∷ b ∷ ts) real le = (refl, λ ps. refl, λ ps. refl)
  group-HasRate Fec.fec_3_4 [] real le = absurd (omega arith)
  group-HasRate Fec.fec_3_4 (a ∷ []) real le = absurd (omega arith)
  group-HasRate Fec.fec_5_6 (a ∷ b ∷ c ∷ ts) real le = (refl, λ ps. refl, λ ps. refl)
  group-HasRate Fec.fec_5_6 [] real le = absurd (omega arith)
  group-HasRate Fec.fec_5_6 (a ∷ []) real le = absurd (omega arith)
  group-HasRate Fec.fec_5_6 (a ∷ b ∷ []) real le = absurd (omega arith)
  group-HasRate Fec.fec_7_8 (a ∷ b ∷ c ∷ d ∷ ts) real le = (refl, λ ps. refl, λ ps. refl)
  group-HasRate Fec.fec_7_8 [] real le = absurd (omega arith)
  group-HasRate Fec.fec_7_8 (a ∷ []) real le = absurd (omega arith)
  group-HasRate Fec.fec_7_8 (a ∷ b ∷ []) real le = absurd (omega arith)
  group-HasRate Fec.fec_7_8 (a ∷ b ∷ c ∷ []) real le = absurd (omega arith)

  take_bits :
      (m n : ℕ) (ts : List (Dibit C))
      → dibit_bits (take (m + n) ts) ≡ dibit_bits (take m ts) ++ dibit_bits (take n (drop m ts))
  unfolding dibit_bits
  take_bits zero n ts = ap (λ k. dibit_bits (take k ts)) (omega arith)
  take_bits (suc m) n [] =
      ap dibit_bits (take-nil {A = Dibit C} (suc m + n))
      ∙ sym (ap dibit_bits (take-nil {A = Dibit C} n))
  take_bits (suc m) n (t ∷ ts) =
      ap (λ k. dibit_bits (take k (t ∷ ts))) suc_add
      ∙ ap (λ bs. x_of t ∷ y_of t ∷ bs) (take_bits m n ts)
    where
      suc_add : suc m + n ≡ suc (m + n)
      suc_add = omega arith

  HaveRate : Fec → ℕ → List (Dibit C) → Type 0
  HaveRate fec n dibits =
      (length (groups_from fec n dibits) ≡ n * group_out fec)
      × (sent_mask (groups_from fec n dibits) ≡ repeated n (pattern fec))
      × (sent_bits (groups_from fec n dibits) ≡ dibit_bits (take (n * group_in fec) dibits))

  take_none :
      (n : ℕ) (fec : Fec) (dibits : List (Dibit C))
      → n ≡ 0
      → [] ≡ dibit_bits (take (n * group_in fec) dibits)
  unfolding dibit_bits
  take_none n fec dibits e = ap (λ k. dibit_bits (take k dibits)) zero_product
    where
      zero_product : 0 ≡ n * group_in fec
      zero_product = grind arith

  groups_from-HaveRate :
      (n : ℕ) (fec : Fec) (dibits : List (Dibit C))
      → fec ≢ Fec.auto
      → n * group_in fec ≤ length dibits
      → HaveRate fec n dibits
  unfolding HaveRate HasRate groups_from repeated sent_mask sent_bits dibit_bits
  groups_from-HaveRate zero fec dibits real le = (omega arith, refl, take_none 0 fec dibits refl)
  groups_from-HaveRate (suc n) fec dibits real le =
      let (len, mask, bits) = group-HasRate fec dibits real (grind arith) in
      let (len', mask', bits') =
        groups_from-HaveRate n fec (drop (group_in fec) dibits) real
          (grind (arith, length-drop (group_in fec) dibits)) in
      (
        length-append (group fec dibits) (groups_from fec n (drop (group_in fec) dibits))
            ∙ ap₂ ◌+◌ len len'
            ∙ suc_times n (group_out fec),
        mask (groups_from fec n (drop (group_in fec) dibits)) ∙ ap (λ m. pattern fec ++ m) mask',
        bits (groups_from fec n (drop (group_in fec) dibits))
            ∙ ap (λ b. dibit_bits (take (group_in fec) dibits) ++ b) bits'
            ∙ sym (take_bits (group_in fec) (n * group_in fec) dibits)
            ∙ ap (λ k. dibit_bits (take k dibits)) (suc_times n (group_in fec)),
      )

  -- For every code rate but `auto`, as many whole groups are depunctured as the dibits have: the
  -- pairs that come out have the rate's pattern of sent bits, which are the bits of those dibits in
  -- their order.
  pub depuncture-IsDepunctured :
      (fec : Fec) (dibits : List (Dibit C))
      → fec ≢ Fec.auto
      → IsDepunctured fec dibits (depuncture fec dibits)
  unfolding IsDepunctured HaveRate depuncture depuncture_into
  depuncture-IsDepunctured fec dibits real =
      rw
        (le→not-ltb (pair_count fec (length dibits)) (pair_count fec (length dibits)) (omega arith))
        (groups_from-HaveRate (length dibits / group_in fec) fec dibits real
          (whole_groups-le fec (length dibits)))

  pub length-depuncture :
      (fec : Fec) (dibits : List (Dibit C))
      → 0 < pair_count fec (length dibits)
      → length (depuncture fec dibits) ≡ pair_count fec (length dibits)
  unfolding IsDepunctured pair_count
  length-depuncture fec dibits some_pair =
      (depuncture-IsDepunctured fec dibits (real_rate fec (length dibits) some_pair)).0
