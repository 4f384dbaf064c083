-- ===== src/Puncture/Tests.antt =====
-- Five dibits at the rate 3/4: two groups, and one dibit that is left.
use dvbt_rx.Base.{ℕ, ◌≢◌, List, [], ◌∷◌}
use dvbt_rx.Puncture.{Fec, Dibit, depuncture}
use dvbt_rx.Puncture.RoundTrip.{IsDepunctured, depuncture-IsDepunctured}

abbrev received : ℕ → Dibit ℕ
received d = record {
  dibit = d;
  x_cost = record { zero_cost = d; one_cost = 9 };
  y_cost = record { zero_cost = 3; one_cost = d };
}

abbrev dibits : List (Dibit ℕ)
dibits = received 0 ∷ received 1 ∷ received 2 ∷ received 3 ∷ received 1 ∷ []

fec_3_4-ne-auto : Fec.fec_3_4 ≢ Fec.auto
fec_3_4-ne-auto e = cc

depuncture-IsDepunctured_example : IsDepunctured Fec.fec_3_4 dibits (depuncture Fec.fec_3_4 dibits)
depuncture-IsDepunctured_example = depuncture-IsDepunctured Fec.fec_3_4 dibits fec_3_4-ne-auto
