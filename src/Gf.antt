-- ===== src/Gf.antt =====
-- The Galois field of src/dvbt_outer.c: `gf_tables_init`, `gf_mul_fast`, `gf_div`, `gf_inv`,
-- `gf_pow_alpha`, `gf_pow_elem` and `gf_poly_eval`.
-- A byte is a number below 256. The tables are filled once, so they are a constant.
pub mod Lookup
pub mod Field
mod Tests
use dvbt_rx.Base.{ℕ, zero, suc, ◌+◌, ◌-◌, ◌*◌, ◌%◌, ◌^◌, bit_xor, bit_and}
use dvbt_rx.Base.{Bool, ◌||◌, List, if◌then◌else◌, ◌==◌, leb, get_or, set, replicate}

-- `gf_exp[512]` and `gf_log[256]`.
pub record Tables : Type 0 where
  pub exp : List ℕ
  pub log : List ℕ

-- One step of `x` in the loop: `x <<= 1` in a `uint16_t`, reduced when bit 8 is set.
pub double : ℕ → ℕ
double x =
    let y = x * 2 % 2 ^ 16 in if bit_and y 0x100 == 0 then y else bit_xor (bit_and y 0xff) 0x1d

-- The first loop at index `i`, with `n` rounds left.
fill : ℕ → ℕ → ℕ → Tables → Tables
unfolding double
fill zero i x t = t
fill (suc n) i x t =
    fill n (i + 1) (double x) (record { exp = set t.exp i (x % 256); log = set t.log x (i % 256) })

-- The second loop, which copies the first 255 entries.
extend : ℕ → ℕ → List ℕ → List ℕ
extend zero i e = e
extend (suc n) i e = extend n (i + 1) (set e i (get_or e (i - 255) 0))

pub tables : Tables
unfolding fill extend
tables =
    let t = fill 255 0 1 (record { exp = replicate 512 0; log = replicate 256 0 }) in
    record t { exp = extend 257 255 t.exp }

unfoldable pub gf_exp : ℕ → ℕ
unfolding tables
gf_exp i = get_or tables.exp i 0

unfoldable pub gf_log : ℕ → ℕ
unfolding tables
gf_log a = get_or tables.log a 0

unfoldable pub mul_fast : ℕ → ℕ → ℕ
mul_fast a b = if a == 0 || b == 0 then 0 else gf_exp (gf_log a + gf_log b)

-- `gf_log[a] - gf_log[b]`, plus 255 where that is negative.
unfoldable pub div : ℕ → ℕ → ℕ
div a b =
    if a == 0
    then 0
    else if b == 0
    then 0
    else gf_exp
        (if leb (gf_log b) (gf_log a) then gf_log a - gf_log b else gf_log a + 255 - gf_log b)

unfoldable pub inv : ℕ → ℕ
inv a = if a == 0 then 0 else gf_exp ((255 - gf_log a) % 255)

-- The callers' exponents are 0 or more, so the loop on a negative one is not entered.
unfoldable pub pow_alpha : ℕ → ℕ
pow_alpha exponent = gf_exp (exponent % 255)

-- The product is taken in a `uint32_t`.
unfoldable pub pow_elem : ℕ → ℕ → ℕ
pow_elem a exponent =
    if exponent == 0 then 1 else if a == 0 then 0 else gf_exp (gf_log a * exponent % 2 ^ 32 % 255)
