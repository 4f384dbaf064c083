-- ===== src/Config/Options/Checked.antt =====
-- What `rbdvbt_parse_args` has checked when it returns 0.
use dvbt_rx.Base.{
  ℕ, ◌<◌, ◌^◌, ◌≡◌, ◌≢◌, refl, sym, subst, not-==_ne, arith, Bool, true, false, ◌||◌, ◌&&◌, List,
  [], ◌∷◌, ◌⊎◌, inl, inr,
}
use dvbt_rx.Base.{Option, none, some, ◌>>=◌, if◌then◌else◌, Option-cases, Bool-cases, not, ◌==◌}
use mathlib.Core.Option.{none-ne-some, some-injective}
use dvbt_rx.Config.{Text, Config, SymbolRate, config_default}
use dvbt_rx.Config.Numbers.{parse_u32, parse_u32-lt, parse_u64, parse_u64-lt}
use dvbt_rx.Config.Options.{
  flag_option, text_option, named_option, value_option, checked, positive, is_rate, any, parse_from,
  require, parse_args,
}

-- A number that an `uint32_t` holds, other than 0.
abbrev pub IsCount : ℕ → Type 0
IsCount n = (0 < n) × (n < 2 ^ 32)

-- The factors of the IQ rate.
abbrev pub IsFactor : ℕ → Type 0
IsFactor n = (n ≡ 1) ⊎ (n ≡ 2) ⊎ (n ≡ 4) ⊎ (n ≡ 8)

-- The numbers of a configuration.
pub record IsValid (c : Config) : Type 0 where
  pub fft_size : IsCount c.fft_size
  pub probe_symbols : IsCount c.probe_symbols
  pub status_period_packets : IsCount c.status_period_packets
  pub highres_fft_size : IsCount c.highres_fft_size
  pub bench_viterbi_pairs : IsCount c.bench_viterbi_pairs
  pub dvbt_ir : IsFactor c.dvbt_ir
  pub sample_rate_hz : c.sample_rate_hz < 2 ^ 32
  pub max_samples : c.max_samples < 2 ^ 64
  pub live_frontend_symbols : c.live_frontend_symbols < 2 ^ 32
  pub window_sweep_radius : c.window_sweep_radius < 2 ^ 32

Keeps : Option Config → Type 0
Keeps none = Unit
Keeps (some c) = IsValid c

either-Keeps : (b : Bool) (x y : Option Config) → Keeps x → Keeps y → Keeps (if b then x else y)
either-Keeps true x y hx hy = hx
either-Keeps false x y hx hy = hy

none-Keeps : Keeps none
unfolding Keeps
none-Keeps = tt

kept : (c : Config) → Keeps (some c) → IsValid c
unfolding Keeps
kept c h = h

some-Keeps : (c : Config) → IsValid c → Keeps (some c)
unfolding Keeps
some-Keeps c h = h

-- The options that leave the numbers alone.
same-Keeps :
    (c c' : Config)
    → IsValid c
    → c'.fft_size ≡ c.fft_size
    → c'.probe_symbols ≡ c.probe_symbols
    → c'.status_period_packets ≡ c.status_period_packets
    → c'.highres_fft_size ≡ c.highres_fft_size
    → c'.bench_viterbi_pairs ≡ c.bench_viterbi_pairs
    → c'.dvbt_ir ≡ c.dvbt_ir
    → c'.sample_rate_hz ≡ c.sample_rate_hz
    → c'.max_samples ≡ c.max_samples
    → c'.live_frontend_symbols ≡ c.live_frontend_symbols
    → c'.window_sweep_radius ≡ c.window_sweep_radius
    → Keeps (some c')
unfolding Keeps
same-Keeps c c' h e₁ e₂ e₃ e₄ e₅ e₆ e₇ e₈ e₉ e₁₀ = record {
  fft_size = omega (arith, h.fft_size, e₁);
  probe_symbols = omega (arith, h.probe_symbols, e₂);
  status_period_packets = omega (arith, h.status_period_packets, e₃);
  highres_fft_size = omega (arith, h.highres_fft_size, e₄);
  bench_viterbi_pairs = omega (arith, h.bench_viterbi_pairs, e₅);
  dvbt_ir = rw e₆ h.dvbt_ir;
  sample_rate_hz = omega (arith, h.sample_rate_hz, e₇);
  max_samples = omega (arith, h.max_samples, e₈);
  live_frontend_symbols = omega (arith, h.live_frontend_symbols, e₉);
  window_sweep_radius = omega (arith, h.window_sweep_radius, e₁₀);
}

flag_option-Keeps : (arg : Text) (c : Config) → IsValid c → Keeps (flag_option arg c)
unfolding flag_option
flag_option-Keeps arg c h = search (either-Keeps, none-Keeps, same-Keeps c, h) depth 60 fits 5000

text_option-Keeps : (arg value : Text) (c : Config) → IsValid c → Keeps (text_option arg value c)
unfolding text_option
text_option-Keeps arg value c h =
    search (either-Keeps, none-Keeps, same-Keeps c, h) depth 60 fits 5000

named-Keeps :
    {A : Type 0} (m : Option A) (f : A → Config)
    → ((a : A) → Keeps (some (f a)))
    → Keeps (m >>= λ a. some (f a))
named-Keeps none f h = none-Keeps
named-Keeps (some a) f h = h a

named_option-Keeps : (arg value : Text) (c : Config) → IsValid c → Keeps (named_option arg value c)
unfolding named_option
named_option-Keeps arg value c h =
    search (either-Keeps, named-Keeps, same-Keeps c, text_option-Keeps, h) depth 60 fits 5000

-- A number that is read, and has passed its test.
checked-Keeps :
    (test : ℕ → Bool) (value : Text) (f : ℕ → Config)
    → ((n : ℕ) → n < 2 ^ 32 → test n ≡ true → Keeps (some (f n)))
    → Keeps (checked test (parse_u32 value) >>= λ n. some (f n))
unfolding checked
checked-Keeps test value f h = elim (Option-cases (parse_u32 value)) [
  | inl e ↦ rw e none-Keeps
  | inr (n, e) ↦ rw e (tested n (parse_u32-lt value e))
]
  where
    tested : (n : ℕ) → n < 2 ^ 32 → Keeps ((if test n then some n else none) >>= λ n. some (f n))
    tested n lt = elim (Bool-cases (test n)) [
      | inl passed ↦ rw passed (h n lt passed)
      | inr failed ↦ rw failed none-Keeps
    ]

positive_count : (n : ℕ) → n < 2 ^ 32 → positive n ≡ true → IsCount n
unfolding positive
positive_count n lt e = ground arith

-- A number that need only be read, and has `b` bits.
read-Keeps :
    (b : ℕ) (m : Option ℕ) (f : ℕ → Config)
    → ((n : ℕ) → m ≡ some n → n < 2 ^ b)
    → ((n : ℕ) → n < 2 ^ b → Keeps (some (f n)))
    → Keeps (checked any m >>= λ n. some (f n))
unfolding checked any
read-Keeps b none f bound h = none-Keeps
read-Keeps b (some n) f bound h = h n (bound n refl)

factor : (n : ℕ) → is_rate n ≡ true → IsFactor n
unfolding is_rate
factor n e = ground arith

factor-Keeps :
    (value : Text) (f : ℕ → Config)
    → ((n : ℕ) → IsFactor n → Keeps (some (f n)))
    → Keeps (checked is_rate (parse_u32 value) >>= λ n. some (f n))
factor-Keeps value f k = checked-Keeps is_rate value f (λ n lt e. k n (factor n e))

count_range : (n : ℕ) → IsCount n → n < 2 ^ 32
count_range n h = h.1

u32-Keeps :
    (value : Text) (f : ℕ → Config)
    → ((n : ℕ) → n < 2 ^ 32 → Keeps (some (f n)))
    → Keeps (checked any (parse_u32 value) >>= λ n. some (f n))
u32-Keeps value f k = read-Keeps 32 (parse_u32 value) f (λ n e. parse_u32-lt value e) k

u64-Keeps :
    (value : Text) (f : ℕ → Config)
    → ((n : ℕ) → n < 2 ^ 64 → Keeps (some (f n)))
    → Keeps (checked any (parse_u64 value) >>= λ n. some (f n))
u64-Keeps value f k = read-Keeps 64 (parse_u64 value) f (λ n e. parse_u64-lt value e) k

numbers-Keeps :
    (c : Config)
    → IsCount c.fft_size
    → IsCount c.probe_symbols
    → IsCount c.status_period_packets
    → IsCount c.highres_fft_size
    → IsCount c.bench_viterbi_pairs
    → IsFactor c.dvbt_ir
    → c.sample_rate_hz < 2 ^ 32
    → c.max_samples < 2 ^ 64
    → c.live_frontend_symbols < 2 ^ 32
    → c.window_sweep_radius < 2 ^ 32
    → Keeps (some c)
unfolding Keeps
numbers-Keeps c e₁ e₂ e₃ e₄ e₅ e₆ e₇ e₈ e₉ e₁₀ = record {
  fft_size = e₁;
  probe_symbols = e₂;
  status_period_packets = e₃;
  highres_fft_size = e₄;
  bench_viterbi_pairs = e₅;
  dvbt_ir = e₆;
  sample_rate_hz = e₇;
  max_samples = e₈;
  live_frontend_symbols = e₉;
  window_sweep_radius = e₁₀;
}

count-Keeps :
    (value : Text) (f : ℕ → Config)
    → ((n : ℕ) → IsCount n → Keeps (some (f n)))
    → Keeps (checked positive (parse_u32 value) >>= λ n. some (f n))
count-Keeps value f k = checked-Keeps positive value f (λ n lt e. k n (positive_count n lt e))

value_option-Keeps : (arg value : Text) (c : Config) → IsValid c → Keeps (value_option arg value c)
unfolding value_option
value_option-Keeps arg value c h =
    search
      (
        either-Keeps,
        count-Keeps value,
        factor-Keeps value,
        u32-Keeps value,
        u64-Keeps value,
        count_range,
        numbers-Keeps,
        named_option-Keeps,
        h,
        h.fft_size,
        h.probe_symbols,
        h.status_period_packets,
        h.highres_fft_size,
        h.bench_viterbi_pairs,
        h.dvbt_ir,
        h.sample_rate_hz,
        h.max_samples,
        h.live_frontend_symbols,
        h.window_sweep_radius,
      )
      depth 60 fits 10000

parse_from-Keeps : (c : Config) (args : List Text) → IsValid c → Keeps (parse_from c args)
unfolding parse_from
parse_from-Keeps c [] h = some-Keeps c h
parse_from-Keeps c (arg ∷ []) h = flag_option-Keeps arg c h
parse_from-Keeps c (arg ∷ value ∷ rest) h = elim (Option-cases (flag_option arg c)) [
  | inr (c', e) ↦
      rw (e, parse_from)
        (parse_from-Keeps c' (value ∷ rest) (kept c' (subst Keeps e (flag_option-Keeps arg c h))))
  | inl e ↦ elim (Option-cases (value_option arg value c)) [
    | inl f ↦ rw (e, f, parse_from) none-Keeps
    | inr (c', f) ↦
        rw (e, f, parse_from)
          (parse_from-Keeps c' rest (kept c' (subst Keeps f (value_option-Keeps arg value c h))))
  ]
]

-- What is asked for before a reception can start.
abbrev pub IsComplete : Config → Type 0
IsComplete c =
    (c.show_help || c.show_version || c.bench_viterbi ≡ true)
    ⊎ ((c.use_stdin ≡ true)
        × (c.sample_rate_hz ≢ 0)
        × (c.symbol_rate ≢ none)
        × (c.resample_x4 && c.resample_to_dvbt_rate ≡ false))

require_cases :
    (c : Config) (quick stdin both : Bool) (hz : ℕ) (sr : Option SymbolRate) {c' : Config}
    → (if quick
        then some c
        else if not stdin
        then none
        else if hz == 0
        then none
        else elim sr as (λ r. Option Config) [
          | none ↦ none
          | some rate ↦ if both then none else some c
        ])
      ≡ some c'
    → (c ≡ c') × ((quick ≡ true) ⊎ ((stdin ≡ true) × (hz ≢ 0) × (sr ≢ none) × (both ≡ false)))
require_cases c true stdin both hz sr e = (some-injective c _ e, inl refl)
require_cases c false false both hz sr {c'} e = absurd (none-ne-some c' e)
require_cases c false true both hz sr {c'} e = elim (Bool-cases (hz == 0)) [
  | inl unset ↦ absurd (none-ne-some c' (rw unset at e))
  | inr is_set ↦ with_rate both sr is_set (rw is_set at e)
]
  where
    with_rate :
        (b : Bool) (r : Option SymbolRate)
        → (hz == 0) ≡ false
        → (elim r as (λ r. Option Config) [ none ↦ none | some rate ↦ if b then none else some c ])
          ≡ some c'
        → (c ≡ c') × ((false ≡ true) ⊎ ((true ≡ true) × (hz ≢ 0) × (r ≢ none) × (b ≡ false)))
    with_rate b none is_set e = absurd (none-ne-some c' e)
    with_rate true (some rate) is_set e = absurd (none-ne-some c' e)
    with_rate false (some rate) is_set e = (
      some-injective c c' e,
      inr (refl, not-==_ne hz 0 is_set, λ p. none-ne-some rate (sym p), refl),
    )

require-IsComplete : (c : Config) {c' : Config} → require c ≡ some c' → (c ≡ c') × IsComplete c
unfolding require
require-IsComplete c e = require_cases c _ _ _ _ _ e

config_default-IsValid : IsValid config_default
config_default-IsValid = record {
  fft_size = omega arith;
  probe_symbols = omega arith;
  status_period_packets = omega arith;
  highres_fft_size = omega arith;
  bench_viterbi_pairs = omega arith;
  dvbt_ir = inl refl;
  sample_rate_hz = omega arith;
  max_samples = omega arith;
  live_frontend_symbols = omega arith;
  window_sweep_radius = omega arith;
}

-- When rbdvbt_parse_args accepts the arguments, fft_size, probe_symbols, status_period_packets,
-- highres_fft_size and bench_viterbi_pairs have 32 bits and are not 0, sample_rate_hz,
-- live_frontend_symbols and window_sweep_radius have 32 bits and max_samples 64, dvbt_ir is 1, 2,
-- 4 or 8, and unless only help, the version or a benchmark is asked for, there are an input, a
-- sample rate other than 0 and a symbol rate, and at most one kind of resampling.
pub parse_args-IsValid :
    (args : List Text) {c : Config} → parse_args args ≡ some c → IsValid c × IsComplete c
unfolding parse_args
parse_args-IsValid args {c} e = elim (Option-cases (parse_from config_default args)) [
  | inl f ↦ absurd (none-ne-some c (rw f at e))
  | inr (c', f) ↦
      let (same, complete) = require-IsComplete c' (rw f at e) in
      let valid =
        kept c' (subst Keeps f (parse_from-Keeps config_default args config_default-IsValid)) in
      subst (λ d. IsValid d × IsComplete d) same (valid, complete)
]
