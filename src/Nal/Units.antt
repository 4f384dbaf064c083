-- ===== src/Nal/Units.antt =====
-- The search for NAL units reads no byte outside the packet, ends, and finds nothing that is not
-- there.
use dvbt_rx.Base.{
  ℕ, zero, suc, ◌+◌, ◌-◌, ◌≤◌, ◌<◌, ◌≡◌, arith, refl, ap, ◌∙◌, sym, ◌⊎◌, inl, inr, length-drop, ◌≢◌,
  List, ◌∷◌, [], length, drop, Bool, true, false, ◌||◌,
}
use dvbt_rx.Base.{
  Option, none, some, read, Returns, some-Returns, if-Returns, >>=-Returns, read-Any, Any,
}
use dvbt_rx.Base.{not, ◌&&◌, ltb, ◌==◌, if◌then◌else◌}
use mathlib.Core.Option.{some-injective, none-ne-some}
use dvbt_rx.Gate.{NalFlags}
use dvbt_rx.Nal.{
  payload_start, no_flags, flags_of, add_flags, unit_start, note_unit, nal_loop, payload_nal_flags,
  pes_skip, flags_from, packet_nal_flags,
}

pub data Kind : Type 0 where
  idr : Kind
  sps : Kind
  pps : Kind
  vps : Kind

unfoldable pub has : Kind → NalFlags → Bool
has idr f = f.idr
has sps f = f.sps
has pps f = f.pps
has vps f = f.vps

has-add_flags : (k : Kind) (f g : NalFlags) → has k (add_flags f g) ≡ has k f || has k g
unfolding has add_flags
has-add_flags idr f g = refl
has-add_flags sps f g = refl
has-add_flags pps f g = refl
has-add_flags vps f g = refl

-- The bytes 00 00 01 stand at `i`, and the byte behind them begins a unit of the kind.
pub IsUnit : List ℕ → ℕ → Kind → ℕ → Type 0
IsUnit p stream_type k i =
    (read p i ≡ some 0)
    × (read p (i + 1) ≡ some 0)
    × (read p (i + 2) ≡ some 1)
    × (header : ℕ) × (read p (i + 3) ≡ some header)
    × (has k (flags_of stream_type header) ≡ true)

-- Each flag is that of a unit in the bytes.
pub AreFound : List ℕ → ℕ → NalFlags → Type 0
AreFound p stream_type f = (k : Kind) → has k f ≡ true → (i : ℕ) × IsUnit p stream_type k i

read-Is :
    {A : Type 0} (xs : List A) (i : ℕ)
    → i < length xs
    → Returns (read xs i) (λ a. read xs i ≡ some a)
read-Is xs i lt = let (a, e, any) = read-Any xs i lt in (a, e, e)

-- The byte at `start`, when it is not 0, stands behind 00 00 01.
IsStart : List ℕ → ℕ → ℕ → ℕ → Type 0
IsStart p len i start =
    start ≢ 0
    → (j : ℕ) × (start ≡ j + 3)
      × (i ≤ j)
      × (start < len)
      × (read p j ≡ some 0)
      × (read p (j + 1) ≡ some 0)
      × (read p (j + 2) ≡ some 1)

if-any :
    {A : Type 0} (P : A → Type 0) (b : Bool) {x y : A}
    → (b ≡ true → P x)
    → (b ≡ false → P y)
    → P (if b then x else y)
if-any P true on_true on_false = on_true refl
if-any P false on_true on_false = on_false refl

unit_start-IsStart :
    (p : List ℕ) (len i : ℕ)
    → len ≤ length p
    → i + 4 < len
    → Returns (unit_start p len i) (IsStart p len i)
unfolding unit_start IsStart
unit_start-IsStart p len i le lt = >>=-Returns _ _ (read-Is p i (omega arith)) (λ a at_a.
    >>=-Returns _ _ (read-Is p (i + 1) (omega arith)) (λ b at_b.
      >>=-Returns _ _ (read-Is p (i + 2) (omega arith)) (λ c at_c.
        >>=-Returns _ _ (read-Is p (i + 3) (omega arith)) (λ d at_d. some-Returns _ _ (
          if-any (IsStart p len i) (a == 0 && b == 0 && c == 1)
            (λ three filled. (
              i,
              refl,
              omega arith,
              omega arith,
              at_a ∙ ap some (ground arith),
              at_b ∙ ap some (ground arith),
              at_c ∙ ap some (ground arith),
            ))
            (λ not_three.
              if-any (IsStart p len i) (ltb (i + 5) len && a == 0 && b == 0 && c == 0 && d == 1)
                (λ four filled. (
                  i + 1,
                  omega arith,
                  omega arith,
                  ground arith,
                  at_b ∙ ap some (ground arith),
                  ap (read p) (omega arith) ∙ at_c ∙ ap some (ground arith),
                  ap (read p) (omega arith) ∙ at_d ∙ ap some (ground arith),
                ))
                (λ none_here filled. absurd (filled refl))))))))

has-no_flags : (k : Kind) → has k no_flags ≡ true → ⊥
unfolding has
has-no_flags idr e = ground arith
has-no_flags sps e = ground arith
has-no_flags pps e = ground arith
has-no_flags vps e = ground arith

no_flags-AreFound : (p : List ℕ) (stream_type : ℕ) → AreFound p stream_type no_flags
unfolding AreFound
no_flags-AreFound p stream_type k e = absurd (has-no_flags k e)

or_cases : (a b : Bool) → a || b ≡ true → (a ≡ true) ⊎ (b ≡ true)
or_cases true b e = inl refl
or_cases false b e = inr e

note_unit-AreFound :
    (p : List ℕ) (len stream_type i start : ℕ) (flags : NalFlags)
    → len ≤ length p
    → start ≢ 0
    → start < len
    → IsStart p len i start
    → AreFound p stream_type flags
    → Returns (note_unit p len stream_type start flags) (AreFound p stream_type)
unfolding note_unit AreFound IsStart IsUnit
note_unit-AreFound p len stream_type i start flags le filled lt is_start found =
    if-Returns _ (stream_type == 0x24 && not (ltb (start + 1) len)) (λ cut. some-Returns _ _ found)
      (λ whole. >>=-Returns _ _ (read-Is p start (omega arith)) (λ header at_start.
        some-Returns _ _ (λ k e.
          let (j, at_j, le_j, lt_j, zero_0, zero_1, one) = is_start filled in
          elim (or_cases (has k (flags_of stream_type header)) (has k flags)
            (sym (has-add_flags k (flags_of stream_type header) flags) ∙ e)) [
              | inl new ↦ (j, (zero_0, zero_1, one, header, ap (read p) (sym at_j) ∙ at_start, new))
              | inr old ↦ found k old
            ])))

-- The loop goes on behind `i` and not past the end.
next_index :
    (p : List ℕ) (len i start : ℕ)
    → IsStart p len i start
    → i + 4 < len
    → let next = if not (start == 0) && ltb start len then start + 1 else i + 1 in
      (i < next) × (next ≤ len)
unfolding IsStart
next_index p len i start is_start lt =
    if-any (λ next. (i < next) × (next ≤ len)) (not (start == 0) && ltb start len)
      (λ found.
        let (j, at_j, le_j, lt_j, zero_0, zero_1, one) = is_start (ground arith) in
        (omega (arith, at_j, le_j), omega (arith, lt_j)))
      (λ not_found. (omega arith, omega arith))

nal_loop-AreFound :
    (fuel : ℕ) (p : List ℕ) (len stream_type i : ℕ) (flags : NalFlags)
    → len ≤ length p
    → i ≤ len
    → len < i + fuel
    → AreFound p stream_type flags
    → Returns (nal_loop fuel p len stream_type i flags) (AreFound p stream_type)
unfolding nal_loop
nal_loop-AreFound zero p len stream_type i flags le within enough found = absurd (omega arith)
nal_loop-AreFound (suc fuel) p len stream_type i flags le within enough found =
    if-Returns _ (not (ltb (i + 4) len)) (λ over. some-Returns _ _ found)
      (λ more. >>=-Returns _ _ (unit_start-IsStart p len i le (ground arith)) (λ start is_start.
        let (rises, within') = next_index p len i start is_start (ground arith) in
        >>=-Returns _ _
          (if-Returns _ (not (start == 0) && ltb start len)
            (λ at_unit.
              note_unit-AreFound p len stream_type i start flags le (ground arith) (ground arith)
                is_start found)
            (λ no_unit. some-Returns _ _ found))
          (λ flags' found'.
            nal_loop-AreFound fuel p len stream_type _ flags' le within'
              (omega (arith, rises, enough)) found')))

read-drop : {A : Type 0} (n : ℕ) (xs : List A) (i : ℕ) → read (drop n xs) i ≡ read xs (n + i)
read-drop zero xs i = ap (read xs) (omega arith)
read-drop (suc n) [] i = refl
read-drop (suc n) (x ∷ xs) i = read-drop n xs i ∙ ap (read (x ∷ xs)) suc_add
  where
    suc_add : suc (n + i) ≡ suc n + i
    suc_add = omega arith

read-drop_at :
    {A : Type 0} (n : ℕ) (xs : List A) (i d : ℕ) → read (drop n xs) (i + d) ≡ read xs (n + i + d)
read-drop_at n xs i d = read-drop n xs (i + d) ∙ ap (read xs) (omega arith)

-- What is found behind the first bytes is found in the whole.
AreFound-drop :
    (n : ℕ) (p : List ℕ) (stream_type : ℕ) (f : NalFlags)
    → AreFound (drop n p) stream_type f
    → AreFound p stream_type f
unfolding AreFound IsUnit
AreFound-drop n p stream_type f found k e =
    let (i, (zero_0, zero_1, one, header, at_header, kind)) = found k e in
    (
      n + i,
      (
        sym (read-drop n p i) ∙ zero_0,
        sym (read-drop_at n p i 1) ∙ zero_1,
        sym (read-drop_at n p i 2) ∙ one,
        header,
        sym (read-drop_at n p i 3) ∙ at_header,
        kind,
      ),
    )

pes_skip-Returns :
    (p : List ℕ) (len : ℕ) → len ≤ length p → Returns (pes_skip p len) (λ skip. skip ≤ len)
unfolding pes_skip
pes_skip-Returns p len le =
    if-Returns _ (ltb len 9) (λ short. some-Returns _ _ (omega arith))
      (λ long. >>=-Returns _ Any (read-Any p 0 (ground arith)) (λ a _.
        >>=-Returns _ Any (read-Any p 1 (ground arith)) (λ b _.
          >>=-Returns _ Any (read-Any p 2 (ground arith)) (λ c _.
            >>=-Returns _ Any (read-Any p 8 (ground arith))
              (λ header_len _. some-Returns _ _ (ground arith))))))

bounded_start :
    (c : Bool) (pos : ℕ)
    → (c ≡ false → pos ≤ 188)
    → (start : ℕ) → (if c then none else some pos) ≡ some start
    → start ≤ 188
bounded_start true pos bound start e = absurd (none-ne-some start e)
bounded_start false pos bound start e = omega (arith, bound refl, some-injective pos start e)

payload_start-Returns :
    (packet : List ℕ)
    → length packet ≡ 188
    → Returns (payload_start packet) (λ r. (start : ℕ) → r ≡ some start → start ≤ 188)
unfolding payload_start
payload_start-Returns packet size = >>=-Returns _ Any (read-Any packet 3 (omega arith)) (λ b _.
    >>=-Returns _ Any (read-Any packet 4 (omega arith))
      (λ adaptation_length _. some-Returns _ _ (bounded_start _ _ (λ payload. ground arith))))

flags_from-AreFound :
    (packet : List ℕ) (stream_type : ℕ) (r : Option ℕ)
    → length packet ≡ 188
    → ((start : ℕ) → r ≡ some start → start ≤ 188)
    → Returns (flags_from packet stream_type r) (AreFound packet stream_type)
unfolding flags_from payload_nal_flags
flags_from-AreFound packet stream_type none size bound =
    some-Returns _ _ (no_flags-AreFound packet stream_type)
flags_from-AreFound packet stream_type (some start) size bound =
    let payload = drop start packet in
    let le = bound start refl in
    let size' = length-drop start packet in
    >>=-Returns _ _ (pes_skip-Returns payload (188 - start) (omega arith)) (λ skip within.
      let size'' = length-drop skip payload in
      let len = 188 - start - skip in
      let (f, e, found) =
        nal_loop-AreFound (len + 1) (drop skip payload) len stream_type 0 no_flags (omega arith)
          (omega arith) (omega arith) (no_flags-AreFound (drop skip payload) stream_type) in
      (
        f,
        e,
        AreFound-drop start packet stream_type f (AreFound-drop skip payload stream_type f found),
      ))

-- On a packet of 188 bytes ts_packet_video_nal_flags returns, with no read out of range and its
-- loop ended, and each flag that it sets is that of a NAL unit in the packet: the bytes 00 00 01,
-- then a byte whose type has this flag.
pub packet_nal_flags-AreFound :
    (packet : List ℕ) (video_pid stream_type : ℕ)
    → length packet ≡ 188
    → Returns (packet_nal_flags packet video_pid stream_type) (AreFound packet stream_type)
unfolding packet_nal_flags
packet_nal_flags-AreFound packet video_pid stream_type size =
    if-Returns _ _ (λ other. some-Returns _ _ (no_flags-AreFound packet stream_type))
      (λ video.
        >>=-Returns _ _ (payload_start-Returns packet size)
          (λ r bound. flags_from-AreFound packet stream_type r size bound))
