-- ===== src/Config/Numbers/Tests.antt =====
-- Numbers that are read, and a sign that is.
use dvbt_rx.Base.{◌^◌, ◌-◌, ◌≡◌, refl, arith, some, none, if◌then◌else◌, leb}
use dvbt_rx.Config.{codes}
use dvbt_rx.Config.Numbers.{parse_u64, parse_u32}
use dvbt_rx.Config.Numbers.Decimal.{decimal, parse_u32-decimal}

parse_u32-decimal_example :
    (parse_u64 (decimal 500000) ≡ some 500000)
    × (parse_u32 (decimal 500000) ≡ (if leb (2 ^ 32) 500000 then none else some 500000))
parse_u32-decimal_example = parse_u32-decimal 500000 (omega arith)

-- A negative number of samples is one close to 2^64.
negative_samples : parse_u64 (codes "-1") ≡ some (2 ^ 64 - 1)
unfolding parse_u64
negative_samples = refl
