-- ===== src/Rs/Tests.antt =====
-- The decoder on the all-zero code word with an error, and its theorems there.
use dvbt_rx.Base.{ℕ, zero, suc, ◌≤◌, ◌≡◌, refl, arith, List, some, replicate, set, true}
use dvbt_rx.Rs.{
  block_is_clean_204, syndromes_204, syndromes_from, syndrome, horner, has_syndrome,
  berlekamp_massey, massey_loop, massey_round, massey_update, discrepancy, add_shifted, correct_by,
  find_positions, poly_eval, poly_eval_from, locator_at, correct_at, apply_errors, magnitude,
  denominator_from, omega_poly, omega_from, omega_row, correct_204,
}
use dvbt_rx.Rs.Sound.{distance, IsCorrected, correct_204-IsCorrected}
use dvbt_rx.Rs.Words.{IsBlock}
use dvbt_rx.Rs.Correction.{set-IsBlock, correct_204-eq}
use dvbt_rx.Gf.{mul_fast, div, inv, pow_alpha, pow_elem, gf_exp, gf_log}

abbrev code_word : List ℕ
code_word = replicate 204 0

abbrev damaged : List ℕ
damaged = set (set code_word 200 9) 203 0x35

corrected : correct_204 damaged ≡ (some 2, code_word)
unfolding correct_204 syndromes_204 syndromes_from syndrome horner has_syndrome berlekamp_massey
    massey_loop massey_round massey_update discrepancy add_shifted correct_by find_positions
    poly_eval poly_eval_from locator_at correct_at apply_errors magnitude denominator_from
    omega_poly omega_from omega_row mul_fast div inv pow_alpha pow_elem gf_exp gf_log
corrected = refl

correct_204-IsCorrected_example : IsCorrected damaged 2 code_word
correct_204-IsCorrected_example = correct_204-IsCorrected damaged corrected

zeros-IsBlock : (n : ℕ) → IsBlock (replicate n 0)
zeros-IsBlock zero = tt
zeros-IsBlock (suc n) = (omega arith, zeros-IsBlock n)

code_word_clean : block_is_clean_204 code_word ≡ true
unfolding block_is_clean_204 syndromes_204 syndromes_from syndrome horner has_syndrome mul_fast
    pow_alpha gf_exp gf_log
code_word_clean = refl

correct_204-eq_example : (code_word ≡ code_word) × (distance damaged code_word ≤ 2)
correct_204-eq_example =
    correct_204-eq code_word damaged refl refl (zeros-IsBlock 204)
      (set-IsBlock (set code_word 200 9) 203 0x35
        (set-IsBlock code_word 200 9 (zeros-IsBlock 204) (omega arith)) (omega arith))
      code_word_clean (omega arith) corrected
