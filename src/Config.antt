-- ===== src/Config.antt =====
-- The configuration of src/config.c and include/config.h: the types, and the values before any option.
-- A text is the list of its bytes, without the final 0. A text that is not set is `none`, the NULL,
-- and so is the symbol rate 0.
pub mod Numbers
pub mod Names
pub mod Options
use Prim.Native.Char.{code}
use Prim.Native.String.{String}
use dvbt_rx.Base.{ℕ, Bool, true, false, ◌&&◌, List, [], ◌∷◌, Option, none, ◌==◌}
use dvbt_rx.Puncture.{Fec}

abbrev pub Text : Type 0
Text = List ℕ

-- The bytes of a literal.
abbrev pub codes : String → Text
codes String.[] = []
codes (String.◌∷◌ c s) = code c ∷ codes s

unfoldable pub same_text : Text → Text → Bool
same_text [] [] = true
same_text [] (t ∷ ts) = false
same_text (c ∷ cs) [] = false
same_text (c ∷ cs) (t ∷ ts) = c == t && same_text cs ts

-- `strcmp(text, literal) == 0`.
unfoldable pub is_text : Text → String → Bool
unfolding same_text
is_text text literal = same_text text (codes literal)

pub data InputFormat : Type 0 where
  u8 s16 : InputFormat

pub data SymbolRate : Type 0 where
  sr_35k sr_40k sr_125k sr_150k sr_250k sr_333k sr_500k : SymbolRate

pub data GuardInterval : Type 0 where
  auto gi_1_8 gi_1_16 gi_1_32 : GuardInterval

pub data LogLevel : Type 0 where
  quiet error warn info debug trace : LogLevel

-- `rbdvbt_config_t`.
pub record Config : Type 0 where
  pub use_stdin : Bool
  pub probe_constellation : Bool
  pub live_mode : Bool
  pub afc_enabled : Bool
  pub resample_x4 : Bool
  pub resample_to_dvbt_rate : Bool
  pub wait_video_start : Bool
  pub gui : Bool
  pub bench_viterbi : Bool
  pub verbose : Bool
  pub show_help : Bool
  pub show_version : Bool
  pub dvbt_ir : ℕ
  pub sample_rate_hz : ℕ
  pub max_samples : ℕ
  pub fft_size : ℕ
  pub probe_symbols : ℕ
  pub live_frontend_symbols : ℕ
  pub status_period_packets : ℕ
  pub window_sweep_radius : ℕ
  pub highres_fft_size : ℕ
  pub bench_viterbi_pairs : ℕ
  pub symbol_rate : Option SymbolRate
  pub guard_interval : GuardInterval
  pub fec : Fec
  pub input_format : InputFormat
  pub log_level : LogLevel
  pub constellation_out : Option Text
  pub constellation_svg : Option Text
  pub demap_out : Option Text
  pub viterbi_out : Option Text
  pub ts_out : Option Text
  pub ts_out_copy : Option Text
  pub status_json : Option Text
  pub visualizer_udp : Option Text
  pub spectrum_out : Option Text
  pub spectrum_svg : Option Text
  pub carrier_metrics_out : Option Text
  pub equalized_out : Option Text
  pub equalized_svg : Option Text
  pub window_sweep_out : Option Text
  pub window_sweep_svg : Option Text
  pub acquisition_scan_out : Option Text
  pub acquisition_scan_svg : Option Text
  pub mapping_scan_out : Option Text
  pub mapping_scan_svg : Option Text
  pub highres_spectrum_out : Option Text
  pub highres_spectrum_svg : Option Text
  pub carrier_spacing_out : Option Text
  pub carrier_map_out : Option Text
  pub carrier_map_svg : Option Text
  pub logical_constellation_out : Option Text
  pub logical_constellation_svg : Option Text
  pub cp_timing_out : Option Text
  pub cp_timing_svg : Option Text
  pub fine_timing_out : Option Text
  pub fine_timing_svg : Option Text

-- The values that `rbdvbt_parse_args` begins with.
abbrev pub config_default : Config
config_default = record {
  use_stdin = false;
  probe_constellation = false;
  live_mode = false;
  afc_enabled = false;
  resample_x4 = false;
  resample_to_dvbt_rate = false;
  wait_video_start = false;
  gui = false;
  bench_viterbi = false;
  verbose = false;
  show_help = false;
  show_version = false;
  dvbt_ir = 1;
  sample_rate_hz = 0;
  max_samples = 0;
  fft_size = 2048;
  probe_symbols = 200;
  live_frontend_symbols = 0;
  status_period_packets = 100;
  window_sweep_radius = 128;
  highres_fft_size = 32768;
  bench_viterbi_pairs = 4000000;
  symbol_rate = none;
  guard_interval = GuardInterval.gi_1_8;
  fec = Fec.fec_1_2;
  input_format = InputFormat.s16;
  log_level = LogLevel.info;
  constellation_out = none;
  constellation_svg = none;
  demap_out = none;
  viterbi_out = none;
  ts_out = none;
  ts_out_copy = none;
  status_json = none;
  visualizer_udp = none;
  spectrum_out = none;
  spectrum_svg = none;
  carrier_metrics_out = none;
  equalized_out = none;
  equalized_svg = none;
  window_sweep_out = none;
  window_sweep_svg = none;
  acquisition_scan_out = none;
  acquisition_scan_svg = none;
  mapping_scan_out = none;
  mapping_scan_svg = none;
  highres_spectrum_out = none;
  highres_spectrum_svg = none;
  carrier_spacing_out = none;
  carrier_map_out = none;
  carrier_map_svg = none;
  logical_constellation_out = none;
  logical_constellation_svg = none;
  cp_timing_out = none;
  cp_timing_svg = none;
  fine_timing_out = none;
  fine_timing_svg = none;
}
