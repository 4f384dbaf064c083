-- ===== src/Validator/Tests.antt =====
-- Runs of the check: a PAT, a packet with a wrong continuity counter, a packet out of step.
use dvbt_rx.Base.{
  ℕ, ◌≡◌, refl, arith, List, [], ◌∷◌, Option, none, some, replicate, Returns, All, Bool, true,
  false, if◌then◌else◌, ltb,
}
use dvbt_rx.Validator
use dvbt_rx.Validator.{Validator, observe, parse_pat}
use dvbt_rx.Validator.Safe.{IsValid}
use dvbt_rx.Validator.Pat.{pat_section, take_program, first_program, HasPid, parse_pat-pat_section}
use dvbt_rx.Validator.Observe.{IsByte, observe-Returns, init-IsValid}

-- Program 1 has its PMT on 0x1000.
abbrev pat : List ℕ
pat =
    0x47
    ∷ 0x40
    ∷ 0
    ∷ 0x10
    ∷ 0
    ∷ 0
    ∷ 0xb0
    ∷ 13
    ∷ 0
    ∷ 1
    ∷ 0xc1
    ∷ 0
    ∷ 0
    ∷ 0
    ∷ 1
    ∷ 0xf0
    ∷ 0
    ∷ replicate 171 0xff

are_bytes : List ℕ → Bool
are_bytes [] = true
are_bytes (b ∷ bs) = if ltb b 256 then are_bytes bs else false

are_bytes_sound : (bs : List ℕ) → are_bytes bs ≡ true → All IsByte bs
unfolding are_bytes
are_bytes_sound [] h = tt
are_bytes_sound (b ∷ bs) h = ground (arith, are_bytes_sound bs)

pat-IsByte : All IsByte pat
unfolding are_bytes
pat-IsByte = are_bytes_sound pat refl

found : Option Validator → Option (ℕ × ℕ × ℕ)
found none = none
found (some v) = some (v.pmt_pid, v.service_id, v.pat_packets)

pat_run : found (observe Validator.init pat) ≡ some (0x1000, 1, 1)
unfolding found observe Validator.init Validator.note_continuity Validator.observe_payload
    Validator.parse_psi Validator.read16 Validator.parse_section Validator.parse_pat
    Validator.pat_loop
pat_run = refl

observe-Returns_example : Returns (observe Validator.init pat) IsValid
observe-Returns_example = observe-Returns Validator.init pat refl pat-IsByte init-IsValid

-- The network's own entry, and a program after it.
abbrev programs : List (ℕ × ℕ)
programs = (0, 0x10) ∷ (7, 0x100) ∷ []

parse_pat-pat_section_example :
    parse_pat Validator.init (pat_section programs 0 1 0xc1 0 0 (1 ∷ 2 ∷ 3 ∷ 4 ∷ [])) 20
    ≡ some (take_program Validator.init (some (7, 0x100)))
unfolding first_program HasPid
parse_pat-pat_section_example =
    parse_pat-pat_section Validator.init programs 0 1 0xc1 0 0 (1 ∷ 2 ∷ 3 ∷ 4 ∷ []) (omega arith)
      (omega arith, (omega arith, tt))
