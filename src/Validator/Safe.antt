-- ===== src/Validator/Safe.antt =====
-- No read in a section and no write into a name goes out of range, and none of the loops goes on for ever.
use dvbt_rx.Base.{ℕ, zero, suc, ◌+◌, ◌-◌, ◌%◌, ◌^◌, ◌≤◌, ◌<◌, ◌≡◌, arith, List}
use dvbt_rx.Base.{
  length, length-set, ◌∙◌, ◌-◌, if◌then◌else◌, ltb, leb, ◌==◌, not, ◌||◌, ◌&&◌, Returns,
}
use dvbt_rx.Base.{some-Returns, if-Returns, >>=-Returns, Any, read-Any}
use dvbt_rx.Validator.{
  Validator, read16, pat_loop, parse_pat, copy_text, copy_dvb_text, note_stream, pmt_loop,
  parse_pmt, write_at, note_service, note_descriptor, desc_loop, sdt_loop, parse_sdt, parse_section,
}

-- The tables have an entry for every identifier, and the names have 64 bytes.
abbrev pub IsValid : Validator → Type 0
IsValid v =
    (length v.cc_seen ≡ 8192)
    × (length v.cc_value ≡ 8192)
    × (length v.service_name ≡ 64)
    × (length v.service_provider ≡ 64)

abbrev IsByte : ℕ → Type 0
IsByte b = b < 256

pub read16-Returns : (p : List ℕ) (i : ℕ) → i + 1 < length p → Returns (read16 p i) Any
unfolding read16
read16-Returns p i lt =
    >>=-Returns _ Any (read-Any p i (omega arith))
      (λ a _. >>=-Returns _ Any (read-Any p (i + 1) lt) (λ b _. some-Returns _ _ tt))

pat_loop-Returns :
    (fuel : ℕ) (v : Validator) (section : List ℕ) (end pos : ℕ)
    → end ≤ length section
    → 1 ≤ fuel
    → end < pos + fuel
    → IsValid v
    → Returns (pat_loop fuel v section end pos) IsValid
unfolding pat_loop
pat_loop-Returns zero v section end pos le one enough valid = absurd (omega arith)
pat_loop-Returns (suc fuel) v section end pos le one enough valid =
    if-Returns IsValid (not (leb (pos + 4) end)) (λ past. some-Returns _ _ valid)
      (λ within. >>=-Returns _ Any (read16-Returns section pos (ground arith)) (λ n _.
        >>=-Returns _ Any (read16-Returns section (pos + 2) (ground arith)) (λ pid _.
          if-Returns _ (n == 0)
            (λ h.
              pat_loop-Returns fuel v section end (pos + 4) le (ground arith) (ground arith) valid)
            (λ h. some-Returns _ _ valid))))

parse_pat-Returns :
    (v : Validator) (section : List ℕ) (len : ℕ)
    → len ≤ length section
    → IsValid v
    → Returns (parse_pat v section len) IsValid
unfolding parse_pat
parse_pat-Returns v section len le valid =
    if-Returns IsValid (ltb len 8) (λ short. some-Returns _ _ valid)
      (λ long. >>=-Returns _ Any (read-Any section 0 (ground arith)) (λ table_id _.
        if-Returns _ (not (table_id == 0)) (λ h. some-Returns _ _ valid)
          (λ h. >>=-Returns _ Any (read16-Returns section 1 (ground arith)) (λ field _.
            if-Returns _ (ltb len (field % 2 ^ 12 + 3) || ltb (field % 2 ^ 12) 9)
              (λ cut. some-Returns _ _ valid)
              (λ whole.
                pat_loop-Returns len v section (3 + field % 2 ^ 12 - 4) 8 (ground arith)
                  (ground arith) (ground arith) valid)))))

-- A text that is as long as an array of `n` bytes.
abbrev HasLength : ℕ → List ℕ → Type 0
HasLength n out = length out ≡ n

write_at-Returns :
    (out : List ℕ) (n i c : ℕ) → HasLength n out → i < n → Returns (write_at out i c) (HasLength n)
unfolding write_at
write_at-Returns out n i c size lt =
    if-Returns (HasLength n) (ltb i (length out))
      (λ within. some-Returns _ _ (length-set out i c ∙ size))
      (λ past. absurd (ground (arith, size)))

copy_text-Returns :
    (out section : List ℕ) (src size i n : ℕ)
    → HasLength size out
    → i + n ≤ size
    → src + i + n ≤ length section
    → Returns (copy_text out section src i n) (HasLength size)
unfolding copy_text
copy_text-Returns out section src size i zero whole fits le = some-Returns _ _ whole
copy_text-Returns out section src size i (suc n) whole fits le =
    >>=-Returns _ Any (read-Any section (src + i) (omega arith)) (λ c _.
      >>=-Returns _ (HasLength size) (write_at-Returns out size i _ whole (omega arith))
        (λ out' whole'.
          copy_text-Returns out' section src size (i + 1) n whole' (omega arith) (omega arith)))

copy_dvb_text-Returns :
    (out section : List ℕ) (size src n : ℕ)
    → HasLength size out
    → src + n ≤ length section
    → Returns (copy_dvb_text out size section src n) (HasLength size)
unfolding copy_dvb_text
copy_dvb_text-Returns out section size src n whole le =
    if-Returns (HasLength size) (size == 0) (λ empty. some-Returns _ _ whole)
      (λ room.
        >>=-Returns _ (HasLength size)
          (copy_text-Returns out section src size 0 (if ltb n (size - 1) then n else size - 1) whole
            (ground arith) (ground arith))
          (λ out' whole'. write_at-Returns out' size _ 0 whole' (ground arith)))

note_stream-IsValid :
    (v : Validator) (stream_type pid : ℕ) → IsValid v → IsValid (note_stream v stream_type pid)
unfolding note_stream
note_stream-IsValid v stream_type pid valid = ground arith

pmt_loop-Returns :
    (fuel : ℕ) (v : Validator) (section : List ℕ) (end pos : ℕ)
    → end ≤ length section
    → 1 ≤ fuel
    → end < pos + fuel
    → IsValid v
    → Returns (pmt_loop fuel v section end pos) IsValid
unfolding pmt_loop
pmt_loop-Returns zero v section end pos le one enough valid = absurd (omega arith)
pmt_loop-Returns (suc fuel) v section end pos le one enough valid =
    if-Returns IsValid (not (leb (pos + 5) end)) (λ past. some-Returns _ _ valid)
      (λ within. >>=-Returns _ Any (read-Any section pos (ground arith)) (λ stream_type _.
        >>=-Returns _ Any (read16-Returns section (pos + 1) (ground arith)) (λ pid _.
          >>=-Returns _ Any (read16-Returns section (pos + 3) (ground arith)) (λ info _.
            pmt_loop-Returns fuel (note_stream v stream_type (pid % 2 ^ 13)) section end
              (pos + (5 + info % 2 ^ 12)) le (ground arith) (ground arith)
              (note_stream-IsValid v stream_type (pid % 2 ^ 13) valid)))))

parse_pmt-Returns :
    (v : Validator) (section : List ℕ) (len : ℕ)
    → len ≤ length section
    → IsValid v
    → Returns (parse_pmt v section len) IsValid
unfolding parse_pmt
parse_pmt-Returns v section len le valid =
    if-Returns IsValid (ltb len 12) (λ short. some-Returns _ _ valid)
      (λ long. >>=-Returns _ Any (read-Any section 0 (ground arith)) (λ table_id _.
        if-Returns _ (not (table_id == 2)) (λ h. some-Returns _ _ valid)
          (λ h. >>=-Returns _ Any (read16-Returns section 1 (ground arith)) (λ field _.
            if-Returns _ (ltb len (field % 2 ^ 12 + 3) || ltb (field % 2 ^ 12) 13)
              (λ cut. some-Returns _ _ valid)
              (λ whole. >>=-Returns _ Any (read16-Returns section 8 (ground arith)) (λ pcr _.
                >>=-Returns _ Any (read16-Returns section 10 (ground arith)) (λ info _.
                  pmt_loop-Returns len (record v { pcr_pid = pcr % 2 ^ 13 }) section
                    (3 + field % 2 ^ 12 - 4) (12 + info % 2 ^ 12) (ground arith) (ground arith)
                    (ground arith) valid)))))))

note_service-Returns :
    (v : Validator) (service_id : ℕ) (section : List ℕ) (desc desc_len : ℕ)
    → 3 ≤ desc_len
    → desc + desc_len ≤ length section
    → IsValid v
    → Returns (note_service v service_id section desc desc_len) IsValid
unfolding note_service
note_service-Returns v service_id section desc desc_len three le valid =
    >>=-Returns IsValid Any (read-Any section (desc + 1) (omega arith)) (λ provider_len _.
      if-Returns _ (not (ltb (2 + provider_len) desc_len)) (λ h. some-Returns _ _ valid)
        (λ h.
          >>=-Returns _ Any (read-Any section (desc + (2 + provider_len)) (ground arith))
            (λ name_len _.
              if-Returns _
                (not (
                  leb (2 + provider_len) desc_len
                  && leb (2 + provider_len + 1 + name_len) desc_len))
                (λ h. some-Returns _ _ valid)
                (λ fits.
                  >>=-Returns _ (HasLength 64)
                    (copy_dvb_text-Returns v.service_provider section 64 (desc + 2) provider_len
                      valid.3 (ground arith))
                    (λ provider provider_size.
                      >>=-Returns _ (HasLength 64)
                        (copy_dvb_text-Returns v.service_name section 64
                          (desc + (2 + provider_len + 1)) name_len valid.2 (ground arith))
                        (λ name name_size.
                          some-Returns _ _ (valid.0, valid.1, name_size, provider_size)))))))

note_descriptor-Returns :
    (v : Validator) (service_id : ℕ) (section : List ℕ) (tag desc desc_len : ℕ)
    → desc + desc_len ≤ length section
    → IsValid v
    → Returns (note_descriptor v service_id section tag desc desc_len) IsValid
unfolding note_descriptor
note_descriptor-Returns v service_id section tag desc desc_len le valid =
    if-Returns IsValid
      (tag == 0x48 && leb 3 desc_len && (v.service_id == 0 || v.service_id == service_id))
      (λ h. note_service-Returns v service_id section desc desc_len (ground arith) le valid)
      (λ h. some-Returns _ _ valid)

desc_loop-Returns :
    (fuel : ℕ) (v : Validator) (service_id : ℕ) (section : List ℕ) (desc_end desc_pos : ℕ)
    → desc_end ≤ length section
    → 1 ≤ fuel
    → desc_end < desc_pos + fuel
    → IsValid v
    → Returns (desc_loop fuel v service_id section desc_end desc_pos) IsValid
unfolding desc_loop
desc_loop-Returns zero v service_id section desc_end desc_pos le one enough valid =
    absurd (omega arith)
desc_loop-Returns (suc fuel) v service_id section desc_end desc_pos le one enough valid =
    if-Returns IsValid (not (leb (desc_pos + 2) desc_end)) (λ h. some-Returns _ _ valid)
      (λ h. >>=-Returns _ Any (read-Any section desc_pos (ground arith)) (λ tag _.
        >>=-Returns _ Any (read-Any section (desc_pos + 1) (ground arith)) (λ desc_len _.
          if-Returns _ (ltb desc_end (desc_pos + 2 + desc_len)) (λ cut. some-Returns _ _ valid)
            (λ whole.
              >>=-Returns _ IsValid
                (note_descriptor-Returns v service_id section tag (desc_pos + 2) desc_len
                  (ground arith) valid)
                (λ v' valid'.
                  desc_loop-Returns fuel v' service_id section desc_end (desc_pos + (2 + desc_len))
                    le (ground arith) (ground arith) valid')))))

sdt_loop-Returns :
    (fuel : ℕ) (v : Validator) (section : List ℕ) (end pos : ℕ)
    → end ≤ length section
    → 1 ≤ fuel
    → end < pos + fuel
    → IsValid v
    → Returns (sdt_loop fuel v section end pos) IsValid
unfolding sdt_loop
sdt_loop-Returns zero v section end pos le one enough valid = absurd (omega arith)
sdt_loop-Returns (suc fuel) v section end pos le one enough valid =
    if-Returns IsValid (not (leb (pos + 5) end)) (λ past. some-Returns _ _ valid)
      (λ within. >>=-Returns _ Any (read16-Returns section pos (ground arith)) (λ service_id _.
        >>=-Returns _ Any (read16-Returns section (pos + 3) (ground arith)) (λ field _.
          if-Returns _ (ltb end (pos + 5 + field % 2 ^ 12)) (λ cut. some-Returns _ _ valid)
            (λ whole.
              >>=-Returns _ IsValid
                (desc_loop-Returns end v service_id section (pos + 5 + field % 2 ^ 12) (pos + 5)
                  (ground arith) (ground arith) (ground arith) valid)
                (λ v' valid'.
                  sdt_loop-Returns fuel v' section end (pos + 5 + field % 2 ^ 12) le (ground arith)
                    (ground arith) valid')))))

parse_sdt-Returns :
    (v : Validator) (section : List ℕ) (len : ℕ)
    → len ≤ length section
    → IsValid v
    → Returns (parse_sdt v section len) IsValid
unfolding parse_sdt
parse_sdt-Returns v section len le valid =
    if-Returns IsValid (ltb len 14) (λ short. some-Returns _ _ valid)
      (λ long. >>=-Returns _ Any (read-Any section 0 (ground arith)) (λ table_id _.
        if-Returns _ (not (table_id == 0x42)) (λ h. some-Returns _ _ valid)
          (λ h. >>=-Returns _ Any (read16-Returns section 1 (ground arith)) (λ field _.
            if-Returns _ (ltb len (field % 2 ^ 12 + 3) || ltb (field % 2 ^ 12) 12)
              (λ cut. some-Returns _ _ valid)
              (λ whole.
                sdt_loop-Returns len v section (3 + field % 2 ^ 12 - 4) 11 (ground arith)
                  (ground arith) (ground arith) valid)))))

pub parse_section-Returns :
    (v : Validator) (pid : ℕ) (section : List ℕ) (len : ℕ)
    → len ≤ length section
    → IsValid v
    → Returns (parse_section v pid section len) IsValid
unfolding parse_section
parse_section-Returns v pid section len le valid =
    if-Returns IsValid (pid == 0) (λ h. parse_pat-Returns _ section len le valid)
      (λ h.
        if-Returns _ (pid == v.pmt_pid) (λ h. parse_pmt-Returns _ section len le valid)
          (λ h.
            if-Returns _ (pid == 0x11) (λ h. parse_sdt-Returns _ section len le valid)
              (λ h. some-Returns _ _ valid)))
