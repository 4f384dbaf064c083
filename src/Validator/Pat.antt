-- ===== src/Validator/Pat.antt =====
-- What `ts_validator_parse_pat` takes from a PAT: the first program other than number 0.
use dvbt_rx.Base.{
  ℕ, zero, suc, ◌+◌, ◌-◌, ◌*◌, ◌/◌, ◌%◌, ◌^◌, ◌≤◌, ◌<◌, ◌≡◌, refl, sym, ap, ◌∙◌, arith, List, [],
  ◌∷◌, ◌++◌, Option, none, some, if◌then◌else◌, ◌==◌, leb, ltb, length, drop, All, read, drop-drop,
  Bool, false, true,
}
use dvbt_rx.Validator.{Validator, read16, pat_loop, parse_pat}

-- The loop of a PAT: a program number and the identifier of its PMT, with three reserved bits.
pub entry_bytes : List (ℕ × ℕ) → List ℕ
entry_bytes [] = []
entry_bytes ((number, pid) ∷ es) =
    number / 256 ∷ number % 256 ∷ (0xe0 + pid / 256) ∷ pid % 256 ∷ entry_bytes es

unfoldable pub first_program : List (ℕ × ℕ) → Option (ℕ × ℕ)
first_program [] = none
first_program ((number, pid) ∷ es) = if number == 0 then first_program es else some (number, pid)

-- The section: the five bytes after the length are `stream_id` and what follows it.
pub pat_section : List (ℕ × ℕ) → ℕ → ℕ → ℕ → ℕ → ℕ → List ℕ → List ℕ
pat_section es s1 s2 version number last crc =
    let section_length = 9 + 4 * length es in
    0x00
    ∷ (0xb0 + section_length / 256)
    ∷ section_length % 256
    ∷ s1
    ∷ s2
    ∷ version
    ∷ number
    ∷ last
    ∷ (entry_bytes es ++ crc)

pub take_program : Validator → Option (ℕ × ℕ) → Validator
take_program v none = v
take_program v (some (number, pid)) = record v {
  service_id = number;
  program_id = number;
  pmt_pid = pid;
}

unfoldable pub HasPid : ℕ × ℕ → Type 0
HasPid e = e.1 < 8192

read-drop : (n : ℕ) (xs : List ℕ) (i : ℕ) → read xs (n + i) ≡ read (drop n xs) i
read-drop zero xs i = ap (λ k. read xs k) (omega arith)
read-drop (suc n) [] i = refl
read-drop (suc n) (x ∷ xs) i = ap (λ k. read (x ∷ xs) k) suc-eq ∙ read-drop n xs i
  where
    suc-eq : suc n + i ≡ suc (n + i)
    suc-eq = omega arith

read16-drop :
    (n i k : ℕ) (xs ys : List ℕ) (a b : ℕ)
    → k ≡ n + i
    → drop n xs ≡ ys
    → read ys i ≡ some a
    → read ys (i + 1) ≡ some b
    → read16 xs k ≡ some (a * 256 + b)
unfolding read16
read16-drop n i k xs ys a b at e ea eb = rw (high, low) refl
  where
    high : read xs k ≡ some a
    high = ap (λ m. read xs m) at ∙ read-drop n xs i ∙ ap (λ l. read l i) e ∙ ea

    low : read xs (k + 1) ≡ some b
    low =
        ap (λ m. read xs m) (omega arith) ∙ read-drop n xs (i + 1) ∙ ap (λ l. read l (i + 1)) e ∙ eb

past_end : (a b : ℕ) → b < a → leb a b ≡ false
past_end a b h = ground arith

within_end : (a b : ℕ) → a ≤ b → leb a b ≡ true
within_end a b h = ground arith

take_program-if :
    (b : Bool) (v : Validator) (number pid : ℕ) (later : Option (ℕ × ℕ))
    → (if b then some (take_program v later) else some (take_program v (some (number, pid))))
      ≡ some (take_program v (if b then later else some (number, pid)))
take_program-if true v number pid later = refl
take_program-if false v number pid later = refl

pat_loop-first_program :
    (es : List (ℕ × ℕ)) (fuel : ℕ) (v : Validator) (section crc : List ℕ) (end pos : ℕ)
    → end ≡ pos + 4 * length es
    → length es < fuel
    → drop pos section ≡ entry_bytes es ++ crc
    → All HasPid es
    → pat_loop fuel v section end pos ≡ some (take_program v (first_program es))
unfolding pat_loop entry_bytes first_program take_program HasPid
pat_loop-first_program es zero v section crc end pos eq lt e all = absurd (omega arith)
pat_loop-first_program [] (suc fuel) v section crc end pos eq lt e all =
    rw (past_end (pos + 4) end (omega arith)) refl
pat_loop-first_program ((number, pid) ∷ es) (suc fuel) v section crc end pos eq lt e (p, all) =
    rw
      (
        within_end (pos + 4) end (omega arith),
        read16-drop pos 0 pos section _ (number / 256) (number % 256) (omega arith) e refl refl,
        read16-drop pos 2 (pos + 2) section _ (0xe0 + pid / 256) (pid % 256) refl e refl refl,
        number_eq,
        pid_eq,
      )
      (rw
        (pat_loop-first_program es fuel v section crc end (pos + 4) (omega arith) (omega arith) rest
          all)
        (take_program-if (number == 0) v number pid (first_program es)))
  where
    number_eq : number / 256 * 256 + number % 256 ≡ number
    number_eq = omega arith

    pid_eq : ((0xe0 + pid / 256) * 256 + pid % 256) % 2 ^ 13 ≡ pid
    pid_eq = omega arith

    rest : drop (pos + 4) section ≡ entry_bytes es ++ crc
    rest = sym (drop-drop pos 4 section) ∙ ap (λ l. drop 4 l) e

not_below : (a b : ℕ) → b ≤ a → ltb a b ≡ false
not_below a b h = ground arith

-- On the section of a PAT whose length fits its twelve bits and whose identifiers fit their
-- thirteen ts_validator_parse_pat takes the first program whose number is not 0, with the
-- identifier of its PMT; with no such program nothing changes.
pub parse_pat-pat_section :
    (v : Validator) (es : List (ℕ × ℕ)) (s1 s2 version number last : ℕ) (crc : List ℕ)
    → 9 + 4 * length es < 4096
    → All HasPid es
    → parse_pat v (pat_section es s1 s2 version number last crc) (12 + 4 * length es)
      ≡ some (take_program v (first_program es))
unfolding parse_pat pat_section read16
parse_pat-pat_section v es s1 s2 version number last crc fits all =
    rw
      (
        not_below (12 + 4 * length es) 8 (omega arith),
        length_eq,
        not_below (12 + 4 * length es) (9 + 4 * length es + 3) (omega arith),
        not_below (9 + 4 * length es) 9 (omega arith),
      )
      (pat_loop-first_program es (12 + 4 * length es) v
        (pat_section es s1 s2 version number last crc) crc (3 + (9 + 4 * length es) - 4) 8
        (omega arith) (omega arith) refl all)
  where
    length_eq :
        ((0xb0 + (9 + 4 * length es) / 256) * 256 + (9 + 4 * length es) % 256) % 2 ^ 12
        ≡ 9 + 4 * length es
    length_eq = omega arith
