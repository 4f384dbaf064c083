-- ===== src/Config/Names.antt =====
-- The names of src/config.c: `parse_symbol_rate` to `parse_log_level`, and the names that
-- `rbdvbt_symbol_rate_name` and its like print. `none` is the -1. A value outside an enumeration
-- does not occur.
pub mod RoundTrip
use Prim.Native.String.{String}
use dvbt_rx.Base.{ℕ, Bool, ◌||◌, List, Option, none, some, ◌>>=◌, if◌then◌else◌, ◌==◌}
use dvbt_rx.Puncture.{Fec}
use dvbt_rx.Config.{Text, is_text, InputFormat, SymbolRate, GuardInterval, LogLevel}
use dvbt_rx.Config.Numbers.{parse_u32}

pub symbol_rate_of : ℕ → Option SymbolRate
symbol_rate_of hz =
    if hz == 35000
    then some SymbolRate.sr_35k
    else if hz == 40000
    then some SymbolRate.sr_40k
    else if hz == 125000
    then some SymbolRate.sr_125k
    else if hz == 150000
    then some SymbolRate.sr_150k
    else if hz == 250000
    then some SymbolRate.sr_250k
    else if hz == 333000 || hz == 333333
    then some SymbolRate.sr_333k
    else if hz == 500000
    then some SymbolRate.sr_500k
    else none

unfoldable pub parse_symbol_rate : Text → Option SymbolRate
unfolding symbol_rate_of
parse_symbol_rate text =
    if is_text text "35k" || is_text text "35ks"
    then some SymbolRate.sr_35k
    else if is_text text "40k" || is_text text "40ks"
    then some SymbolRate.sr_40k
    else if is_text text "125k" || is_text text "125ks"
    then some SymbolRate.sr_125k
    else if is_text text "150k" || is_text text "150ks"
    then some SymbolRate.sr_150k
    else if is_text text "250k" || is_text text "250ks"
    then some SymbolRate.sr_250k
    else if is_text text "333k" || is_text text "333ks"
    then some SymbolRate.sr_333k
    else if is_text text "500k" || is_text text "500ks"
    then some SymbolRate.sr_500k
    else (parse_u32 text >>= symbol_rate_of)

unfoldable pub symbol_rate_name : SymbolRate → String
symbol_rate_name SymbolRate.sr_35k = "35k"
symbol_rate_name SymbolRate.sr_40k = "40k"
symbol_rate_name SymbolRate.sr_125k = "125k"
symbol_rate_name SymbolRate.sr_150k = "150k"
symbol_rate_name SymbolRate.sr_250k = "250k"
symbol_rate_name SymbolRate.sr_333k = "333k"
symbol_rate_name SymbolRate.sr_500k = "500k"

unfoldable pub parse_guard_interval : Text → Option GuardInterval
parse_guard_interval text =
    if is_text text "auto"
    then some GuardInterval.auto
    else if is_text text "1/8"
    then some GuardInterval.gi_1_8
    else if is_text text "1/16"
    then some GuardInterval.gi_1_16
    else if is_text text "1/32"
    then some GuardInterval.gi_1_32
    else none

unfoldable pub guard_interval_name : GuardInterval → String
guard_interval_name GuardInterval.auto = "auto"
guard_interval_name GuardInterval.gi_1_8 = "1/8"
guard_interval_name GuardInterval.gi_1_16 = "1/16"
guard_interval_name GuardInterval.gi_1_32 = "1/32"

unfoldable pub parse_fec : Text → Option Fec
parse_fec text =
    if is_text text "auto"
    then some Fec.auto
    else if is_text text "1/2" || is_text text "12"
    then some Fec.fec_1_2
    else if is_text text "2/3" || is_text text "23"
    then some Fec.fec_2_3
    else if is_text text "3/4" || is_text text "34"
    then some Fec.fec_3_4
    else if is_text text "5/6" || is_text text "56"
    then some Fec.fec_5_6
    else if is_text text "7/8" || is_text text "78"
    then some Fec.fec_7_8
    else none

unfoldable pub fec_name : Fec → String
fec_name Fec.auto = "auto"
fec_name Fec.fec_1_2 = "1/2"
fec_name Fec.fec_2_3 = "2/3"
fec_name Fec.fec_3_4 = "3/4"
fec_name Fec.fec_5_6 = "5/6"
fec_name Fec.fec_7_8 = "7/8"

unfoldable pub parse_input_format : Text → Option InputFormat
parse_input_format text =
    if is_text text "u8"
    then some InputFormat.u8
    else if is_text text "s16" || is_text text "cs16"
    then some InputFormat.s16
    else none

unfoldable pub input_format_name : InputFormat → String
input_format_name InputFormat.u8 = "u8"
input_format_name InputFormat.s16 = "s16"

unfoldable pub parse_log_level : Text → Option LogLevel
parse_log_level text =
    if is_text text "quiet" || is_text text "none" || is_text text "silent" || is_text text "off"
    then some LogLevel.quiet
    else if is_text text "error" || is_text text "err"
    then some LogLevel.error
    else if is_text text "warn" || is_text text "warning"
    then some LogLevel.warn
    else if is_text text "info"
    then some LogLevel.info
    else if is_text text "debug"
    then some LogLevel.debug
    else if is_text text "trace"
    then some LogLevel.trace
    else none

unfoldable pub log_level_name : LogLevel → String
log_level_name LogLevel.quiet = "quiet"
log_level_name LogLevel.error = "error"
log_level_name LogLevel.warn = "warn"
log_level_name LogLevel.info = "info"
log_level_name LogLevel.debug = "debug"
log_level_name LogLevel.trace = "trace"
