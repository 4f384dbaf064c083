-- ===== src/Gf/Tests.antt =====
-- The field of src/dvbt_outer.c at single bytes, and its theorems at inputs that meet their
-- hypotheses.
use dvbt_rx.Base.{◌≡◌, refl, arith}
use dvbt_rx.Gf.{mul_fast, inv, gf_exp, gf_log}
use dvbt_rx.Gf.Field.{poly_product, mul-eq-poly_product}

products : (mul_fast 0x80 2 ≡ 0x1d) × (mul_fast 0x53 0xca ≡ 0x8f) × (inv 2 ≡ 0x8e)
unfolding mul_fast inv gf_exp gf_log
products = (refl, refl, refl)

mul-eq-poly_product_example : mul_fast 0x80 0x91 ≡ poly_product 8 0x80 0x91
mul-eq-poly_product_example = mul-eq-poly_product 0x80 0x91 (omega arith) (omega arith)
