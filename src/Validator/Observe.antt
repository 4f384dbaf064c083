-- ===== src/Validator/Observe.antt =====
-- No read or write of `ts_validator_observe` is out of range, and its loops end.
use dvbt_rx.Base.{ℕ, ◌+◌, ◌%◌, ◌^◌, ◌<◌, ◌≡◌, arith, List, Bool}
use dvbt_rx.Base.{
  some, if◌then◌else◌, length, length-replicate, length-set, drop, length-drop, ltb, leb, ◌==◌, not,
  ◌||◌, ◌&&◌, All, Returns,
}
use dvbt_rx.Base.{some-Returns, if-Returns, >>=-Returns, read-Returns, Any, read-Any}
use dvbt_rx.Validator
use dvbt_rx.Validator.{Validator, parse_psi, note_continuity, observe_payload, observe, no_pid}
use dvbt_rx.Validator.Safe.{IsValid, read16-Returns, parse_section-Returns}

abbrev pub IsByte : ℕ → Type 0
IsByte b = b < 256

module _ (packet : List ℕ) (whole : length packet ≡ 188) where
  parse_psi-Returns :
      (v : Validator) (pid start : ℕ) (unit_start : Bool)
      → IsValid v
      → Returns (parse_psi v packet pid start unit_start) IsValid
  unfolding parse_psi
  parse_psi-Returns v pid start unit_start valid =
      if-Returns IsValid (not unit_start || leb 188 start) (λ h. some-Returns _ _ valid)
        (λ h. >>=-Returns _ Any (read-Any packet start (ground arith)) (λ pointer _.
          if-Returns _ (ltb 188 (start + (pointer + 1) + 3)) (λ h. some-Returns _ _ valid)
            (λ h.
              >>=-Returns _ Any (read16-Returns packet (start + (pointer + 1) + 1) (ground arith))
                (λ field _.
                  if-Returns _ (ltb 188 (start + (pointer + 1) + (field % 2 ^ 12 + 3)))
                    (λ h. some-Returns _ _ valid)
                    (λ h.
                      parse_section-Returns v pid (drop (start + (pointer + 1)) packet)
                        (field % 2 ^ 12 + 3)
                        (ground (arith, length-drop (start + (pointer + 1)) packet)) valid)))))

  observe_payload-Returns :
      (v : Validator) (pid afc : ℕ) (unit_start : Bool)
      → IsValid v
      → Returns (observe_payload v packet pid afc unit_start) IsValid
  unfolding observe_payload
  observe_payload-Returns v pid afc unit_start valid =
      if-Returns IsValid (not (afc == 2 || afc == 3)) (λ h. parse_from-Returns 4)
        (λ h. >>=-Returns _ Any (read-Any packet 4 (ground arith)) (λ adaptation_length _.
          if-Returns _ (ltb 188 (5 + adaptation_length)) (λ h. some-Returns _ _ valid)
            (λ h. parse_from-Returns (5 + adaptation_length))))
    where
      parse_from-Returns :
          (start : ℕ)
          → Returns
              (if (afc == 1 || afc == 3) && ltb start 188
                then parse_psi v packet pid start unit_start
                else some v)
              IsValid
      parse_from-Returns start =
          if-Returns IsValid ((afc == 1 || afc == 3) && ltb start 188)
            (λ h. parse_psi-Returns v pid start unit_start valid) (λ h. some-Returns _ _ valid)

note_continuity-Returns :
    (v : Validator) (pid cc : ℕ) (has_payload : Bool)
    → pid < 8192
    → IsValid v
    → Returns (note_continuity v pid cc has_payload) IsValid
unfolding note_continuity
note_continuity-Returns v pid cc has_payload lt valid =
    if-Returns IsValid (pid == no_pid) (λ h. some-Returns _ _ valid)
      (λ h. >>=-Returns _ Any (read-Any v.cc_seen pid (omega (arith, valid.0))) (λ seen _.
        >>=-Returns _ Any (read-Any v.cc_value pid (omega (arith, valid.1))) (λ last _.
          some-Returns _ _
            (ground (arith, length-set v.cc_seen pid 1, length-set v.cc_value pid cc)))))

-- On a packet of 188 bytes, tables of 8192 entries and names of 64 bytes ts_validator_observe
-- returns, with tables and names of that size again: no read or write is out of range, and each loop
-- ends within its rounds.
pub observe-Returns :
    (v : Validator) (packet : List ℕ)
    → length packet ≡ 188
    → All IsByte packet
    → IsValid v
    → Returns (observe v packet) IsValid
unfolding observe
observe-Returns v packet whole bytes valid =
    >>=-Returns IsValid Any (read-Any packet 0 (omega arith)) (λ sync _.
      if-Returns _ (not (sync == 0x47)) (λ h. some-Returns _ _ valid)
        (λ h. >>=-Returns _ IsByte (read-Returns IsByte packet 1 bytes (omega arith)) (λ b1 lt1.
          >>=-Returns _ IsByte (read-Returns IsByte packet 2 bytes (omega arith)) (λ b2 lt2.
            >>=-Returns _ Any (read-Any packet 3 (omega arith)) (λ b3 _.
              >>=-Returns _ IsValid (note_continuity-Returns _ _ _ _ (omega arith) valid)
                (λ v' valid'. observe_payload-Returns packet whole v' _ _ _ valid'))))))

pub init-IsValid : IsValid Validator.init
unfolding Validator.init
init-IsValid = (
  length-replicate {A = ℕ} 8192 0,
  length-replicate {A = ℕ} 8192 0,
  length-replicate {A = ℕ} 64 0,
  length-replicate {A = ℕ} 64 0,
)
