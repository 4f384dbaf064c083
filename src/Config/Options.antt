-- ===== src/Config/Options.antt =====
-- `rbdvbt_parse_args` of src/config.c. `none` is the -1; the messages and the level of the log are
-- left out. The options have different names, so the order of the tests is not that of the source:
-- first those without a value, then those with one.
pub mod Checked
mod Tests
use dvbt_rx.Base.{
  ℕ, Bool, true, false, not, ◌||◌, ◌&&◌, List, [], ◌∷◌, ◌++◌, take, Option, none, some, ◌>>=◌,
}
use dvbt_rx.Base.{if◌then◌else◌, ◌==◌}
use dvbt_rx.Config.{Text, codes, is_text, Config, config_default, LogLevel}
use dvbt_rx.Config.Numbers.{parse_u32, parse_u64}
use dvbt_rx.Config.Names.{
  parse_symbol_rate, parse_guard_interval, parse_fec, parse_input_format, parse_log_level,
}

-- The options without a value; `none` is an argument that is none of them.
pub flag_option : Text → Config → Option Config
flag_option arg c =
    if is_text arg "--help" || is_text arg "-h" || is_text arg "--info"
    then some (record c { show_help = true })
    else if is_text arg "--version" || is_text arg "-V"
    then some (record c { show_version = true })
    else if is_text arg "--stdin"
    then some (record c { use_stdin = true })
    else if is_text arg "--probe-constellation"
    then some (record c { probe_constellation = true })
    else if is_text arg "--live"
    then some (record c { live_mode = true; probe_constellation = true })
    else if is_text arg "--afc"
    then some (record c { afc_enabled = true })
    else if is_text arg "--no-afc"
    then some (record c { afc_enabled = false })
    else if is_text arg "--gui"
    then some (record c { gui = true; probe_constellation = true })
    else if is_text arg "--bench-viterbi"
    then some (record c { bench_viterbi = true })
    else if is_text arg "--resample-x4"
    then some (record c { resample_x4 = true })
    else if is_text arg "--resample-to-dvbt-rate"
    then some (record c { resample_to_dvbt_rate = true })
    else if is_text arg "--verbose" || is_text arg "-v"
    then some (record c { verbose = true; log_level = LogLevel.debug })
    else if is_text arg "--stdout-ts"
    then some (record c { ts_out = some (b'-' ∷ []) })
    else if is_text arg "--wait-video-start"
    then some (record c { wait_video_start = true })
    else none

-- `snprintf` of "udp://%s" into 128 bytes.
pub udp_text : Text → Text
udp_text value = take 127 (codes "udp://" ++ value)

-- The options whose value is kept as it is.
pub text_option : Text → Text → Config → Option Config
text_option arg value c =
    if is_text arg "--constellation-out"
    then some (record c { constellation_out = some value })
    else if is_text arg "--constellation-svg"
    then some (record c { constellation_svg = some value })
    else if is_text arg "--demap-out"
    then some (record c { demap_out = some value })
    else if is_text arg "--viterbi-out"
    then some (record c { viterbi_out = some value })
    else if is_text arg "--status-json"
    then some (record c { status_json = some value })
    else if is_text arg "--visualizer-udp"
    then some (record c { visualizer_udp = some value })
    else if is_text arg "--spectrum-out"
    then some (record c { spectrum_out = some value })
    else if is_text arg "--spectrum-svg"
    then some (record c { spectrum_svg = some value })
    else if is_text arg "--carrier-metrics-out"
    then some (record c { carrier_metrics_out = some value })
    else if is_text arg "--equalized-out"
    then some (record c { equalized_out = some value })
    else if is_text arg "--equalized-svg"
    then some (record c { equalized_svg = some value })
    else if is_text arg "--window-sweep-out"
    then some (record c { window_sweep_out = some value })
    else if is_text arg "--window-sweep-svg"
    then some (record c { window_sweep_svg = some value })
    else if is_text arg "--acquisition-scan-out"
    then some (record c { acquisition_scan_out = some value })
    else if is_text arg "--acquisition-scan-svg"
    then some (record c { acquisition_scan_svg = some value })
    else if is_text arg "--mapping-scan-out"
    then some (record c { mapping_scan_out = some value })
    else if is_text arg "--mapping-scan-svg"
    then some (record c { mapping_scan_svg = some value })
    else if is_text arg "--highres-spectrum-out"
    then some (record c { highres_spectrum_out = some value })
    else if is_text arg "--highres-spectrum-svg"
    then some (record c { highres_spectrum_svg = some value })
    else if is_text arg "--carrier-spacing-out"
    then some (record c { carrier_spacing_out = some value })
    else if is_text arg "--carrier-map-out"
    then some (record c { carrier_map_out = some value })
    else if is_text arg "--carrier-map-svg"
    then some (record c { carrier_map_svg = some value })
    else if is_text arg "--logical-constellation-out"
    then some (record c { logical_constellation_out = some value })
    else if is_text arg "--logical-constellation-svg"
    then some (record c { logical_constellation_svg = some value })
    else if is_text arg "--cp-timing-out"
    then some (record c { cp_timing_out = some value })
    else if is_text arg "--cp-timing-svg"
    then some (record c { cp_timing_svg = some value })
    else if is_text arg "--fine-timing-out"
    then some (record c { fine_timing_out = some value })
    else if is_text arg "--fine-timing-svg"
    then some (record c { fine_timing_svg = some value })
    else if is_text arg "--ts-out"
    then some (record c { ts_out = some value })
    else if is_text arg "--udp-out" || is_text arg "--udp-ts"
    then some (record c { ts_out = some (udp_text value) })
    else if is_text arg "--udp-copy"
    then some (record c { ts_out_copy = some (udp_text value) })
    else none

-- The options whose value is a name.
pub named_option : Text → Text → Config → Option Config
named_option arg value c =
    if is_text arg "--loglevel" || is_text arg "--log-level"
    then (parse_log_level value >>= λ l. some (record c { log_level = l }))
    else if is_text arg "--sr" || is_text arg "--symbol-rate"
    then (parse_symbol_rate value >>= λ s. some (record c { symbol_rate = some s }))
    else if is_text arg "--gi"
    then (parse_guard_interval value >>= λ g. some (record c { guard_interval = g }))
    else if is_text arg "--fec"
    then (parse_fec value >>= λ f. some (record c { fec = f }))
    else if is_text arg "--input-format"
    then (parse_input_format value >>= λ f. some (record c { input_format = f }))
    else text_option arg value c

pub any : ℕ → Bool
any n = true

pub positive : ℕ → Bool
positive n = not (n == 0)

pub is_rate : ℕ → Bool
is_rate n = n == 1 || n == 2 || n == 4 || n == 8

pub checked : (ℕ → Bool) → Option ℕ → Option ℕ
checked test none = none
checked test (some n) = if test n then some n else none

-- The options with a value, those with a number first; `none` also for a value that is refused.
pub value_option : Text → Text → Config → Option Config
value_option arg value c =
    if is_text arg "--bench-viterbi-pairs"
    then (checked positive (parse_u32 value) >>= λ n.
        some (record c { bench_viterbi = true; bench_viterbi_pairs = n }))
    else if is_text arg "--sample-rate"
    then (checked any (parse_u32 value) >>= λ n. some (record c { sample_rate_hz = n }))
    else if is_text arg "--max-samples"
    then (checked any (parse_u64 value) >>= λ n. some (record c { max_samples = n }))
    else if is_text arg "--fft-size"
    then (checked positive (parse_u32 value) >>= λ n. some (record c { fft_size = n }))
    else if is_text arg "--dvbt-ir"
    then (checked is_rate (parse_u32 value) >>= λ n. some (record c { dvbt_ir = n }))
    else if is_text arg "--probe-symbols"
    then (checked positive (parse_u32 value) >>= λ n. some (record c { probe_symbols = n }))
    else if is_text arg "--live-symbols" || is_text arg "--frontend-symbols"
    then (checked positive (parse_u32 value) >>= λ n. some (record c { live_frontend_symbols = n }))
    else if is_text arg "--status-period-packets"
    then (checked positive (parse_u32 value) >>= λ n. some (record c { status_period_packets = n }))
    else if is_text arg "--window-sweep-radius"
    then (checked any (parse_u32 value) >>= λ n. some (record c { window_sweep_radius = n }))
    else if is_text arg "--highres-fft-size"
    then (checked positive (parse_u32 value) >>= λ n. some (record c { highres_fft_size = n }))
    else named_option arg value c

-- The loop over the arguments. An option with a value that is the last argument is refused.
pub parse_from : Config → List Text → Option Config
parse_from c [] = some c
parse_from c (arg ∷ []) = flag_option arg c
parse_from c (arg ∷ value ∷ rest) = elim (flag_option arg c) [
  | some c' ↦ parse_from c' (value ∷ rest)
  | none ↦ elim (value_option arg value c) [ none ↦ none | some c' ↦ parse_from c' rest ]
]

-- The tests behind the loop.
pub require : Config → Option Config
require c =
    if c.show_help || c.show_version || c.bench_viterbi
    then some c
    else if not c.use_stdin
    then none
    else if c.sample_rate_hz == 0
    then none
    else elim c.symbol_rate [
      | none ↦ none
      | some rate ↦ if c.resample_x4 && c.resample_to_dvbt_rate then none else some c
    ]

-- The arguments are `argv` from 1 on.
pub parse_args : List Text → Option Config
parse_args args = parse_from config_default args >>= require
