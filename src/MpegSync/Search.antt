-- ===== src/MpegSync/Search.antt =====
-- What the search for the cadence finds, and that it ends.
use native.Mathlib.Decide.{ℕ_discrete}
use mathlib.Core.Bool.{true≢false}
use mathlib.Core.Option.{some-injective, none-ne-some}
use mathlib.Core.Path.{subst}
use dvbt_rx.Base.{leb→le, ltb→lt, not-ltb→le}
use dvbt_rx.Base.{ℕ, zero, suc, ◌+◌, ◌-◌, ◌*◌, ◌≤◌, ◌<◌, ◌≡◌, ◌∙◌, refl, sym, ap, arith}
use dvbt_rx.Base.{ltb, none, Bool, true, false, List, some, length, drop, inl, inr}
use dvbt_rx.Base.{length-drop, drop-drop, Bool-cases, Option-cases, leb}
use dvbt_rx.Buffer
use dvbt_rx.MpegSync.{MpegSync, scan, is_locked, find_offset, skip, search_from, search}
use dvbt_rx.MpegSync.Scanned.{IsCadence, OnCadence, is_locked-IsCadence, is_locked-OnCadence}

missed-IsCadence :
    (bytes : List ℕ) (offset : ℕ)
    → is_locked (scan bytes offset) ≡ false
    → ¬ IsCadence (drop offset bytes)
missed-IsCadence bytes offset miss on =
    true≢false (sym ((is_locked-IsCadence bytes offset).1 on) ∙ miss)

-- The offset that is found is the first on the cadence.
find_offset_lem :
    (bytes : List ℕ) (n offset : ℕ) {at phase8 : ℕ}
    → find_offset bytes n offset ≡ some (at, phase8)
    → (at < offset + n)
      × OnCadence (drop at bytes) phase8
      × ((q : ℕ) → offset ≤ q → q < at → ¬ IsCadence (drop q bytes))
unfolding find_offset
find_offset_lem bytes zero offset e = cc
find_offset_lem bytes (suc n) offset {at} {phase8} e =
    elim (Bool-cases (is_locked (scan bytes offset))) [
      | inl lock ↦
          subst
            (λ p.
              (p.0 < offset + suc n)
              × OnCadence (drop p.0 bytes) p.1
              × ((q : ℕ) → offset ≤ q → q < p.0 → ¬ IsCadence (drop q bytes)))
            (some-injective _ _ (rw lock at e))
            (omega arith, is_locked-OnCadence bytes offset lock, λ q p r. absurd (omega arith))
      | inr miss ↦
          let (low, on, first) = find_offset_lem bytes n (offset + 1) (rw miss at e) in
          (
            omega arith,
            on,
            λ q p r. elim (ℕ_discrete q offset) [
              | yes here ↦ rw here (missed-IsCadence bytes offset miss)
              | no later ↦ first q (omega arith) r
            ],
          )
    ]

find_offset-none :
    (bytes : List ℕ) (n offset : ℕ)
    → find_offset bytes n offset ≡ none
    → (q : ℕ) → offset ≤ q
    → q < offset + n
    → ¬ IsCadence (drop q bytes)
unfolding find_offset
find_offset-none bytes zero offset e q p r = absurd (omega arith)
find_offset-none bytes (suc n) offset e q p r = elim (Bool-cases (is_locked (scan bytes offset))) [
  | inl lock ↦ absurd (none-ne-some _ (sym (rw lock at e)))
  | inr miss ↦ elim (ℕ_discrete q offset) [
    | yes here ↦ rw here (missed-IsCadence bytes offset miss)
    | no later ↦ find_offset-none bytes n (offset + 1) (rw miss at e) q (omega arith) (omega arith)
  ]
]

-- What the search has done: it has taken bytes off the front and counted them, and has either
-- found the cadence or run out of the bytes that it needs. None of the bytes taken began a cadence.
pub record IsSearched (s : MpegSync) (found : Bool) (s' : MpegSync) : Type 0 where
  pub taken : ℕ
  pub rest : s'.buffer.bytes ≡ drop taken s.buffer.bytes
  pub counted : s'.stream_byte_offset ≡ s.stream_byte_offset + taken
  pub taken_in : taken ≤ length s.buffer.bytes
  pub earliest : (q : ℕ) → q < taken → ¬ IsCadence (drop q s.buffer.bytes)
  pub lock :
      found ≡ true
      → (s'.synchronized ≡ true)
        × OnCadence s'.buffer.bytes s'.phase8
        × (1428 < length s'.buffer.bytes)
  pub short : found ≡ false → (length s'.buffer.bytes < 1632) × (s'.synchronized ≡ s.synchronized)

stopped-IsSearched : (s : MpegSync) → length s.buffer.bytes < 1632 → IsSearched s false s
stopped-IsSearched s h = record {
  taken = 0;
  rest = refl;
  counted = omega arith;
  taken_in = omega arith;
  earliest = λ q p. absurd (omega arith);
  lock = λ e. cc;
  short = λ e. (h, refl);
}

found-IsSearched :
    (s : MpegSync) (offset phase8 : ℕ)
    → 1632 ≤ length s.buffer.bytes
    → (offset < 204)
      × OnCadence (drop offset s.buffer.bytes) phase8
      × ((q : ℕ) → 0 ≤ q → q < offset → ¬ IsCadence (drop q s.buffer.bytes))
    → IsSearched s true
        (record (skip s offset) { synchronized = true; phase8 = phase8; fail_packets = 0 })
unfolding skip Buffer.consume
found-IsSearched s offset phase8 h v = record {
  taken = offset;
  rest = refl;
  counted = refl;
  taken_in = omega arith;
  earliest = λ q p. v.2 q (omega arith) p;
  lock = λ e. (refl, v.1, omega (arith, length-drop offset s.buffer.bytes));
  short = λ e. cc;
}

skipped-IsSearched :
    (s : MpegSync) (found : Bool) (s' : MpegSync)
    → 1632 ≤ length s.buffer.bytes
    → ((q : ℕ) → 0 ≤ q → q < 204 → ¬ IsCadence (drop q s.buffer.bytes))
    → IsSearched (skip s 204) found s'
    → IsSearched s found s'
unfolding skip Buffer.consume
skipped-IsSearched s found s' h missed v = record {
  taken = 204 + v.taken;
  rest = v.rest ∙ drop-drop 204 v.taken s.buffer.bytes;
  counted = omega (arith, v.counted);
  taken_in = omega (arith, v.taken_in, length-drop 204 s.buffer.bytes);
  earliest = λ q p. earlier q p;
  lock = v.lock;
  short = v.short;
}
  where
    earlier : (q : ℕ) → q < 204 + v.taken → ¬ IsCadence (drop q s.buffer.bytes)
    earlier q p = elim (Bool-cases (ltb q 204)) [
      | inl near ↦ missed q (omega arith) (ltb→lt q 204 near)
      | inr far ↦
          let at_least = not-ltb→le q 204 far in
          subst (λ l. ¬ IsCadence l)
            (drop-drop 204 (q - 204) s.buffer.bytes ∙ ap (λ t. drop t s.buffer.bytes) (omega arith))
            (v.earliest (q - 204) (omega arith))
    ]

length-skip : (s : MpegSync) (n : ℕ) → length (skip s n).buffer.bytes ≡ length s.buffer.bytes - n
unfolding skip Buffer.consume
length-skip s n = length-drop n s.buffer.bytes

search_from-IsSearched :
    (fuel : ℕ) (s : MpegSync)
    → length s.buffer.bytes < fuel * 204
    → IsSearched s (search_from fuel s).0 (search_from fuel s).1
unfolding search_from
search_from-IsSearched zero s h = absurd (omega arith)
search_from-IsSearched (suc fuel) s h = elim (Bool-cases (leb 1632 (length s.buffer.bytes))) [
  | inr few ↦ rw few (stopped-IsSearched s (ground arith))
  | inl enough ↦
      let many : 1632 ≤ length s.buffer.bytes = leb→le _ _ enough in
      elim (Option-cases (find_offset s.buffer.bytes 204 0)) [
        | inl miss ↦
            rw (enough, miss)
              (skipped-IsSearched s _ _ many (find_offset-none s.buffer.bytes 204 0 miss)
                (search_from-IsSearched fuel (skip s 204) (omega (arith, length-skip s 204))))
        | inr ((offset, phase8), hit) ↦
            rw (enough, hit)
              (found-IsSearched s offset phase8 many (find_offset_lem s.buffer.bytes 204 0 hit))
      ]
]

-- The search of live_mpeg_sync_search ends. It takes counted bytes off the front, none of which
-- begins a cadence, which is eight packets of 204 bytes whose first bytes are at least six times
-- 0x47 and once 0xb8. Either it reports a lock, and what is left begins a cadence, has over 1428
-- bytes, and has the phase that counts to its 0xb8; or it reports none, and under 1632 bytes are
-- left.
pub search-IsSearched : (s : MpegSync) → IsSearched s (search s).0 (search s).1
unfolding search
search-IsSearched s = search_from-IsSearched _ s (omega arith)
