-- ===== src/Config/Options/Tests.antt =====
-- A reception from standard input, and arguments that are refused.
use dvbt_rx.Base.{◌≡◌, refl, List, [], ◌∷◌, some, true}
use dvbt_rx.Puncture.{Fec}
use dvbt_rx.Config.{Text, Config, SymbolRate, config_default, codes, is_text}
use dvbt_rx.Config.Options.{
  parse_args, parse_from, flag_option, value_option, named_option, text_option, checked, any,
  positive, is_rate, require,
}
use dvbt_rx.Config.Numbers.{parse_u32, parse_u64}
use dvbt_rx.Config.Names.{parse_symbol_rate, parse_fec}
use dvbt_rx.Config.Options.Checked.{IsValid, IsComplete, parse_args-IsValid}

abbrev arguments : List Text
arguments =
    codes "--stdin"
    ∷ codes "--sample-rate"
    ∷ codes "500000"
    ∷ codes "--sr"
    ∷ codes "250k"
    ∷ codes "--fec"
    ∷ codes "2/3"
    ∷ []

abbrev configured : Config
configured = record config_default {
  use_stdin = true;
  sample_rate_hz = 500000;
  symbol_rate = some SymbolRate.sr_250k;
  fec = Fec.fec_2_3;
}

accepted : parse_args arguments ≡ some configured
unfolding parse_args parse_from flag_option value_option named_option text_option checked any
    positive is_rate require is_text parse_u32 parse_u64 parse_symbol_rate parse_fec
accepted = refl

parse_args-IsValid_example : IsValid configured × IsComplete configured
parse_args-IsValid_example = parse_args-IsValid arguments accepted
