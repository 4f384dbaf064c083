-- ===== src/Config/Names/RoundTrip.antt =====
-- Each name that is printed is read back as what it names.
use dvbt_rx.Base.{◌≡◌, refl, some}
use dvbt_rx.Puncture.{Fec}
use dvbt_rx.Config.{codes, is_text, InputFormat, SymbolRate, GuardInterval, LogLevel}
use dvbt_rx.Config.Names.{
  parse_symbol_rate, symbol_rate_name, parse_guard_interval, guard_interval_name, parse_fec,
  fec_name, parse_input_format, input_format_name, parse_log_level, log_level_name,
}

parse_symbol_rate-name : (r : SymbolRate) → parse_symbol_rate (codes (symbol_rate_name r)) ≡ some r
unfolding parse_symbol_rate symbol_rate_name is_text
parse_symbol_rate-name SymbolRate.sr_35k = refl
parse_symbol_rate-name SymbolRate.sr_40k = refl
parse_symbol_rate-name SymbolRate.sr_125k = refl
parse_symbol_rate-name SymbolRate.sr_150k = refl
parse_symbol_rate-name SymbolRate.sr_250k = refl
parse_symbol_rate-name SymbolRate.sr_333k = refl
parse_symbol_rate-name SymbolRate.sr_500k = refl

parse_guard_interval-name :
    (g : GuardInterval) → parse_guard_interval (codes (guard_interval_name g)) ≡ some g
unfolding parse_guard_interval guard_interval_name is_text
parse_guard_interval-name GuardInterval.auto = refl
parse_guard_interval-name GuardInterval.gi_1_8 = refl
parse_guard_interval-name GuardInterval.gi_1_16 = refl
parse_guard_interval-name GuardInterval.gi_1_32 = refl

parse_fec-name : (f : Fec) → parse_fec (codes (fec_name f)) ≡ some f
unfolding parse_fec fec_name is_text
parse_fec-name Fec.auto = refl
parse_fec-name Fec.fec_1_2 = refl
parse_fec-name Fec.fec_2_3 = refl
parse_fec-name Fec.fec_3_4 = refl
parse_fec-name Fec.fec_5_6 = refl
parse_fec-name Fec.fec_7_8 = refl

parse_input_format-name :
    (f : InputFormat) → parse_input_format (codes (input_format_name f)) ≡ some f
unfolding parse_input_format input_format_name is_text
parse_input_format-name InputFormat.u8 = refl
parse_input_format-name InputFormat.s16 = refl

parse_log_level-name : (l : LogLevel) → parse_log_level (codes (log_level_name l)) ≡ some l
unfolding parse_log_level log_level_name is_text
parse_log_level-name LogLevel.quiet = refl
parse_log_level-name LogLevel.error = refl
parse_log_level-name LogLevel.warn = refl
parse_log_level-name LogLevel.info = refl
parse_log_level-name LogLevel.debug = refl
parse_log_level-name LogLevel.trace = refl

-- The name that is printed for a symbol rate, a guard interval, a code rate, an input format or a log
-- level is read back as the same value.
pub names_read_back :
    ((r : SymbolRate) → parse_symbol_rate (codes (symbol_rate_name r)) ≡ some r)
    × ((g : GuardInterval) → parse_guard_interval (codes (guard_interval_name g)) ≡ some g)
    × ((f : Fec) → parse_fec (codes (fec_name f)) ≡ some f)
    × ((f : InputFormat) → parse_input_format (codes (input_format_name f)) ≡ some f)
    × ((l : LogLevel) → parse_log_level (codes (log_level_name l)) ≡ some l)
names_read_back = (
  parse_symbol_rate-name, parse_guard_interval-name, parse_fec-name, parse_input_format-name,
  parse_log_level-name,
)
