-- ===== src/Viterbi/Tests.antt =====
-- Natural numbers as a metric, and a run over two pairs, one of them punctured.
use dvbt_rx.Base.{
  ℕ, ◌+◌, ◌-◌, ◌≡◌, refl, arith, true, List, [], ◌∷◌, none, some, length, leb, ltb, all_below,
  all_below_sound,
}
use dvbt_rx.Puncture
use dvbt_rx.Puncture.{Costs, Received, Pair}
use dvbt_rx.Viterbi.{Metric, start_metrics, decode_pairs, conv_parity}
use dvbt_rx.Viterbi.Metrics.{IsOrdered, walk}
use dvbt_rx.Viterbi.Optimal.{IsPath, IsOptimal, metric_of, decode_pairs-IsOptimal}

abbrev numbers : Metric ℕ
numbers = record {
  add = λ a b. a + b;
  subtract = λ a b. a - b;
  le = leb;
  lt = ltb;
  zero_metric = 0;
  inf = 1000;
}

numbers-IsOrdered : IsOrdered numbers
numbers-IsOrdered = record {
  le_trans = λ a b c h k. ground arith;
  le_total = λ a b h. ground arith;
  lt_le = λ a b. ground arith;
  add_mono = λ a b c h. ground arith;
}

-- A bit received as 1 with certainty 5.
abbrev one : Received ℕ
one = record { bit = 1; costs = record { zero_cost = 5; one_cost = 0 } }

abbrev pairs : List (Pair ℕ)
pairs = record { x = some one; y = some one } ∷ record { x = none; y = some one } ∷ []

abbrev start : List ℕ
start = start_metrics numbers none

length-start : length start ≡ 64
unfolding start_metrics
length-start = refl

paths_stay_low :
    all_below 64 (λ s.
      all_below 2 (λ a. all_below 2 (λ b. ltb (metric_of numbers start pairs s (a ∷ b ∷ [])) 1000)))
    ≡ true
unfolding all_below walk start_metrics conv_parity Puncture.add_pair Puncture.add_if
    Puncture.cost_of
paths_stay_low = refl

finite :
    (s : ℕ) (bs : List ℕ)
    → IsPath numbers pairs s bs
    → ltb (metric_of numbers start pairs s bs) 1000 ≡ true
unfolding IsPath
finite s [] (lt, len, bits) = absurd (omega arith)
finite s (a ∷ []) (lt, len, bits) = absurd (omega arith)
finite s (a ∷ b ∷ []) (lt, len, (bit_a, (bit_b, _))) =
    all_below_sound 2 _ b (all_below_sound 2 _ a (all_below_sound 64 _ s paths_stay_low lt) bit_a)
      bit_b
finite s (a ∷ b ∷ c ∷ bs) (lt, len, bits) = absurd (omega arith)

decode_pairs-IsOptimal_example : IsOptimal numbers start pairs (decode_pairs numbers pairs none)
decode_pairs-IsOptimal_example =
    decode_pairs-IsOptimal numbers pairs none numbers-IsOrdered length-start finite
