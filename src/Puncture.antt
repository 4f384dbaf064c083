-- ===== src/Puncture.antt =====
-- The depuncturing of the inner code in src/probe_constellation.c: `dvbt_depuncture_pair_count`,
-- `depuncture_pair_set`, `dvbt_depuncture_dibits_into`, its variant for costs, and
-- `viterbi_traceback_bytes`.
-- A cost is a value of a type `C` with a zero and a sum (the floats of the C code). The loop over
-- the groups is a recursion on their number. `malloc` is taken to succeed.
pub mod RoundTrip
mod Tests
use dvbt_rx.Base.{
  ℕ, zero, suc, ◌+◌, ◌-◌, ◌*◌, ◌/◌, ◌%◌, ◌^◌, Bool, true, false, List, [], ◌∷◌, ◌++◌,
}
use dvbt_rx.Base.{if◌then◌else◌, ◌==◌, ltb, leb, get_or, length, drop, Option, none, some}

-- `rbdvbt_fec_t`.
pub data Fec : Type 0 where
  auto fec_1_2 fec_2_3 fec_3_4 fec_5_6 fec_7_8 : Fec

-- Dibits taken and pairs made by one group.
unfoldable pub group_in : Fec → ℕ
group_in Fec.auto = 1
group_in Fec.fec_1_2 = 1
group_in Fec.fec_2_3 = 3
group_in Fec.fec_3_4 = 2
group_in Fec.fec_5_6 = 3
group_in Fec.fec_7_8 = 4

unfoldable pub group_out : Fec → ℕ
group_out Fec.auto = 0
group_out Fec.fec_1_2 = 1
group_out Fec.fec_2_3 = 4
group_out Fec.fec_3_4 = 3
group_out Fec.fec_5_6 = 5
group_out Fec.fec_7_8 = 7

-- The 0 of `auto` is its early return.
unfoldable pub pair_count : Fec → ℕ → ℕ
pair_count fec dibit_count = dibit_count / group_in fec * group_out fec

unfoldable pub traceback_bytes : Fec → ℕ
traceback_bytes Fec.fec_1_2 = 5
traceback_bytes Fec.fec_2_3 = 9
traceback_bytes Fec.fec_3_4 = 10
traceback_bytes Fec.fec_5_6 = 15
traceback_bytes Fec.fec_7_8 = 24
traceback_bytes Fec.auto = 9

-- `x_cost` and `y_cost`, with the cost of a 0 and of a 1.
pub record Costs (C : Type 0) : Type 0 where
  pub zero_cost : C
  pub one_cost : C

-- `qpsk_dibit_t`.
pub record Dibit (C : Type 0) : Type 0 where
  pub dibit : ℕ
  pub x_cost : Costs C
  pub y_cost : Costs C

-- One bit of a pair: `has_x` with `x` and `x_cost`, or a bit that was not sent.
pub record Received (C : Type 0) : Type 0 where
  pub bit : ℕ
  pub costs : Costs C

-- `viterbi_pair_t`.
pub record Pair (C : Type 0) : Type 0 where
  pub x : Option (Received C)
  pub y : Option (Received C)

module _ {C : Type 0} where
  -- The two bits of a dibit as they are handed to `depuncture_pair_set`, which masks them.
  unfoldable pub x_of : Dibit C → Received C
  x_of t = record { bit = t.dibit % 2; costs = t.x_cost }

  unfoldable pub y_of : Dibit C → Received C
  y_of t = record { bit = t.dibit / 2 % 2; costs = t.y_cost }

  unfoldable pub both : Received C → Received C → Pair C
  both x y = record { x = some x; y = some y }

  unfoldable pub only_x : Received C → Pair C
  only_x x = record { x = some x; y = none }

  unfoldable pub only_y : Received C → Pair C
  only_y y = record { x = none; y = some y }

  -- The first group of the dibits, and the rest of them; too few make no group.
  unfoldable pub group : Fec → List (Dibit C) → List (Pair C)
  group Fec.fec_1_2 (a ∷ _) = both (x_of a) (y_of a) ∷ []
  group Fec.fec_2_3 (a ∷ b ∷ c ∷ _) =
      both (x_of a) (y_of a) ∷ only_y (x_of b) ∷ both (y_of b) (x_of c) ∷ only_y (y_of c) ∷ []
  group Fec.fec_3_4 (a ∷ b ∷ _) = both (x_of a) (y_of a) ∷ only_y (x_of b) ∷ only_x (y_of b) ∷ []
  group Fec.fec_5_6 (a ∷ b ∷ c ∷ _) =
      both (x_of a) (y_of a)
      ∷ only_y (x_of b)
      ∷ only_x (y_of b)
      ∷ only_y (x_of c)
      ∷ only_x (y_of c)
      ∷ []
  group Fec.fec_7_8 (a ∷ b ∷ c ∷ d ∷ _) =
      both (x_of a) (y_of a)
      ∷ only_y (x_of b)
      ∷ only_y (y_of b)
      ∷ only_y (x_of c)
      ∷ only_x (y_of c)
      ∷ only_y (x_of d)
      ∷ only_x (y_of d)
      ∷ []
  group _ _ = []

  unfoldable pub groups_from : Fec → ℕ → List (Dibit C) → List (Pair C)
  groups_from fec zero dibits = []
  groups_from fec (suc n) dibits =
      group fec dibits ++ groups_from fec n (drop (group_in fec) dibits)

  -- The pairs that are written; none for too small an array.
  unfoldable pub depuncture_into : Fec → List (Dibit C) → ℕ → List (Pair C)
  depuncture_into fec dibits pair_cap =
      if ltb pair_cap (pair_count fec (length dibits))
      then []
      else groups_from fec (length dibits / group_in fec) dibits

  unfoldable pub depuncture : Fec → List (Dibit C) → List (Pair C)
  depuncture fec dibits = depuncture_into fec dibits (pair_count fec (length dibits))

-- The cost of a received bit against the lowest bit of `e`, if there is one.
unfoldable pub cost_of : {C : Type 0} → Option (Received C) → ℕ → Option C
cost_of none e = none
cost_of (some r) e = some (if e % 2 == 0 then r.costs.zero_cost else r.costs.one_cost)

module _ {C : Type 0} (add : C → C → C) where
  unfoldable pub add_if : C → Option C → C
  add_if c none = c
  add_if c (some d) = add c d

  -- A metric and the costs of a pair against the two bits of `e`.
  unfoldable pub add_pair : C → Pair C → ℕ → C
  add_pair c p e = add_if (add_if c (cost_of p.x e)) (cost_of p.y (e / 2))

  -- `depuncture_pair_cost_set`: from the cost 0.
  unfoldable pub pair_costs : C → Pair C → List C
  pair_costs no_cost p =
      add_pair no_cost p 0 ∷ add_pair no_cost p 1 ∷ add_pair no_cost p 2 ∷ add_pair no_cost p 3 ∷ []
