-- ===== src/MpegSync/Scanned.antt =====
-- What a scan of eight packets finds.
use native.Mathlib.Decide.{ℕ_discrete}
use mathlib.Core.Path.{subst}
use dvbt_rx.Base.{ℕ, zero, suc, ◌+◌, ◌-◌, ◌*◌, ◌%◌, ◌≤◌, ◌<◌, ◌≡◌, ◌≢◌, ◌∙◌, refl, sym, ap, arith}
use dvbt_rx.Base.{ap₂, if◌then◌else◌, true, false, List, get_or, drop, inl, inr}
use dvbt_rx.Base.{get_or-drop, Bool-cases, ◌==◌}
use dvbt_rx.MpegSync.{Scan, scan_byte, scan_from, scan, is_locked}

-- The first byte of packet `j` from an offset on.
abbrev pub sync_at : List ℕ → ℕ → ℕ → ℕ
sync_at bytes offset j = get_or bytes (offset + j * 204) 0

sync_at-drop :
    (bytes : List ℕ) (offset k : ℕ) → sync_at (drop offset bytes) 0 k ≡ sync_at bytes offset k
sync_at-drop bytes offset k =
    get_or-drop offset bytes (0 + k * 204) 0 ∙ ap (λ t. get_or bytes t 0) (omega arith)

-- What the counters say of the packets from `j` on, of `n`.
record IsScan (bytes : List ℕ) (offset j n : ℕ) (c c' : Scan) : Type 0 where
  none_more :
      c'.syncb8 ≡ c.syncb8
      → (c'.phase8 ≡ c.phase8) × ((i : ℕ) → j ≤ i → i < j + n → sync_at bytes offset i ≢ 0xb8)
  grows : c.syncb8 ≤ c'.syncb8
  one_more :
      c'.syncb8 ≡ c.syncb8 + 1
      → (i : ℕ) × (j ≤ i)
        × (i < j + n)
        × (sync_at bytes offset i ≡ 0xb8)
        × (c'.phase8 ≡ (8 - i % 8) % 8)
        × ((k : ℕ) → j ≤ k → k < j + n → k ≢ i → sync_at bytes offset k ≢ 0xb8)

scan_byte_hit :
    (b j : ℕ) (c : Scan)
    → b ≡ 0xb8
    → ((scan_byte b j c).syncb8 ≡ c.syncb8 + 1) × ((scan_byte b j c).phase8 ≡ (8 - j % 8) % 8)
unfolding scan_byte
scan_byte_hit b j c e = ground arith

scan_byte_other :
    (b j : ℕ) (c : Scan)
    → b ≢ 0xb8
    → ((scan_byte b j c).syncb8 ≡ c.syncb8) × ((scan_byte b j c).phase8 ≡ c.phase8)
unfolding scan_byte
scan_byte_other b j c e = ground arith

hit-IsScan :
    (bytes : List ℕ) (offset j n : ℕ) (c c' : Scan)
    → sync_at bytes offset j ≡ 0xb8
    → IsScan bytes offset (j + 1) n (scan_byte (sync_at bytes offset j) j c) c'
    → IsScan bytes offset j (suc n) c c'
hit-IsScan bytes offset j n c c' b v =
    let (count, phase) = scan_byte_hit (sync_at bytes offset j) j c b in
    record {
      none_more = λ e. absurd (omega (arith, v.grows));
      grows = omega (arith, v.grows);
      one_more = λ e.
          let (same, others) = v.none_more (omega arith) in
          (
            j,
            omega arith,
            omega arith,
            b,
            same ∙ phase,
            λ k p q ne. others k (omega arith) (omega arith),
          );
    }

other-IsScan :
    (bytes : List ℕ) (offset j n : ℕ) (c c' : Scan)
    → sync_at bytes offset j ≢ 0xb8
    → IsScan bytes offset (j + 1) n (scan_byte (sync_at bytes offset j) j c) c'
    → IsScan bytes offset j (suc n) c c'
other-IsScan bytes offset j n c c' b v =
    let (count, phase) = scan_byte_other (sync_at bytes offset j) j c b in
    record {
      none_more = λ e.
          let (same, others) = v.none_more (omega arith) in
          (
            same ∙ phase,
            λ k p q. elim (ℕ_discrete k j) [
              | yes at ↦ rw at b
              | no ne ↦ others k (omega arith) (omega arith)
            ],
          );
      grows = omega (arith, v.grows);
      one_more = λ e.
          let (i, low, high, at, same, others) = v.one_more (omega arith) in
          (
            i,
            omega arith,
            omega arith,
            at,
            same,
            λ k p q ne. elim (ℕ_discrete k j) [
              | yes first ↦ rw first b
              | no later ↦ others k (omega arith) (omega arith) ne
            ],
          );
    }

scan_from-IsScan :
    (bytes : List ℕ) (offset n j : ℕ) (c : Scan)
    → IsScan bytes offset j n c (scan_from bytes offset n j c)
unfolding scan_from
scan_from-IsScan bytes offset zero j c = record {
  none_more = λ e. (refl, λ i p q. absurd (omega arith));
  grows = omega arith;
  one_more = λ e. absurd (omega arith);
}
scan_from-IsScan bytes offset (suc n) j c = elim (Bool-cases (sync_at bytes offset j == 0xb8)) [
  | inl here ↦
      hit-IsScan bytes offset j n c _ (ground arith)
        (scan_from-IsScan bytes offset n (j + 1) (scan_byte (sync_at bytes offset j) j c))
  | inr other ↦
      other-IsScan bytes offset j n c _ (ground arith)
        (scan_from-IsScan bytes offset n (j + 1) (scan_byte (sync_at bytes offset j) j c))
]

-- How many of `n` packets from `j` on begin with the byte `b`.
abbrev pub count_at : List ℕ → ℕ → ℕ → ℕ → ℕ → ℕ
count_at bytes offset b j zero = 0
count_at bytes offset b j (suc n) =
    (if sync_at bytes offset j == b then 1 else 0) + count_at bytes offset b (j + 1) n

-- The cadence: of the first bytes of eight packets at least six are sync bytes and one is the
-- inverted sync byte.
abbrev pub IsCadence : List ℕ → Type 0
IsCadence bytes = (6 ≤ count_at bytes 0 0x47 0 8) × (count_at bytes 0 0xb8 0 8 ≡ 1)

-- The counters of a scan are those numbers.
record IsCounted (bytes : List ℕ) (offset j n : ℕ) (c c' : Scan) : Type 0 where
  syncs : c'.sync47 ≡ c.sync47 + count_at bytes offset 0x47 j n
  inverted : c'.syncb8 ≡ c.syncb8 + count_at bytes offset 0xb8 j n
  kept : c.have_phase ≡ true → c'.have_phase ≡ true
  phase : 0 < count_at bytes offset 0xb8 j n → c'.have_phase ≡ true

scan_byte_counts :
    (b j : ℕ) (c : Scan)
    → ((scan_byte b j c).sync47 ≡ c.sync47 + (if b == 0x47 then 1 else 0))
      × ((scan_byte b j c).syncb8 ≡ c.syncb8 + (if b == 0xb8 then 1 else 0))
      × (c.have_phase ≡ true → (scan_byte b j c).have_phase ≡ true)
      × (b ≡ 0xb8 → (scan_byte b j c).have_phase ≡ true)
unfolding scan_byte
scan_byte_counts b j c = ground arith

scan_from-IsCounted :
    (bytes : List ℕ) (offset n j : ℕ) (c : Scan)
    → IsCounted bytes offset j n c (scan_from bytes offset n j c)
unfolding scan_from
scan_from-IsCounted bytes offset zero j c = record {
  syncs = omega arith;
  inverted = omega arith;
  kept = λ e. e;
  phase = λ h. absurd (omega arith);
}
scan_from-IsCounted bytes offset (suc n) j c =
    let (syncs, inverted, kept, phase) = scan_byte_counts (sync_at bytes offset j) j c in
    let v = scan_from-IsCounted bytes offset n (j + 1) (scan_byte (sync_at bytes offset j) j c) in
    record {
      syncs = omega (arith, v.syncs, syncs);
      inverted = omega (arith, v.inverted, inverted);
      kept = λ e. v.kept (kept e);
      phase = λ h. elim (Bool-cases (sync_at bytes offset j == 0xb8)) [
        | inl here ↦ v.kept (phase (ground arith))
        | inr other ↦ v.phase (ground arith)
      ];
    }

count_at-drop :
    (bytes : List ℕ) (offset b j n : ℕ)
    → count_at (drop offset bytes) 0 b j n ≡ count_at bytes offset b j n
count_at-drop bytes offset b j zero = refl
count_at-drop bytes offset b j (suc n) =
    ap₂ (λ t m. (if t == b then 1 else 0) + m) (sync_at-drop bytes offset j)
      (count_at-drop bytes offset b (j + 1) n)

is_locked_lem :
    (c : Scan) (syncs inverted : ℕ)
    → c.sync47 ≡ syncs
    → c.syncb8 ≡ inverted
    → (0 < inverted → c.have_phase ≡ true)
    → (is_locked c ≡ true → (6 ≤ syncs) × (inverted ≡ 1))
      × ((6 ≤ syncs) × (inverted ≡ 1) → is_locked c ≡ true)
unfolding is_locked
is_locked_lem c syncs inverted e e' phase =
    (λ lock. (ground arith, ground arith), λ (enough, one). ground (arith, phase))

zero-add : (n : ℕ) → 0 + n ≡ n
zero-add n = omega arith

-- A scan locks on the cadence, and on nothing else.
pub is_locked-IsCadence :
    (bytes : List ℕ) (offset : ℕ)
    → (is_locked (scan bytes offset) ≡ true → IsCadence (drop offset bytes))
      × (IsCadence (drop offset bytes) → is_locked (scan bytes offset) ≡ true)
unfolding scan
is_locked-IsCadence bytes offset =
    let start : Scan = record { sync47 = 0; syncb8 = 0; phase8 = 0; have_phase = false } in
    let v = scan_from-IsCounted bytes offset 8 0 start in
    let syncs = count_at-drop bytes offset 0x47 0 8 in
    let inverted = count_at-drop bytes offset 0xb8 0 8 in
    is_locked_lem (scan_from bytes offset 8 0 start) _ _ (v.syncs ∙ zero-add _ ∙ sym syncs)
      (v.inverted ∙ zero-add _ ∙ sym inverted)
      (λ some_inverted. v.phase (subst (λ n. 0 < n) inverted some_inverted))

-- A buffer whose front is on the cadence, with the packet of the inverted sync byte; `phase8`
-- packets have gone since the last such one.
pub record OnCadence (bytes : List ℕ) (phase8 : ℕ) : Type 0 where
  pub cadence : IsCadence bytes
  pub phase_in : phase8 < 8
  pub inverted : ℕ
  pub inverted_in : inverted < 8
  pub at_inverted : sync_at bytes 0 inverted ≡ 0xb8
  pub counts_to : (phase8 + inverted) % 8 ≡ 0
  pub others : (k : ℕ) → k < 8 → k ≢ inverted → sync_at bytes 0 k ≢ 0xb8

pub is_locked-OnCadence :
    (bytes : List ℕ) (offset : ℕ)
    → is_locked (scan bytes offset) ≡ true
    → OnCadence (drop offset bytes) (scan bytes offset).phase8
unfolding is_locked scan
is_locked-OnCadence bytes offset h =
    let start : Scan = record { sync47 = 0; syncb8 = 0; phase8 = 0; have_phase = false } in
    let (i, low, high, at, phase, others) =
      (scan_from-IsScan bytes offset 8 0 start).one_more (ground arith) in
    record {
      cadence = (is_locked-IsCadence bytes offset).0 h;
      phase_in = omega (arith, phase);
      inverted = i;
      inverted_in = high;
      at_inverted = sync_at-drop bytes offset i ∙ at;
      counts_to = omega (arith, phase);
      others = λ k p ne q. others k (omega arith) p ne (sym (sync_at-drop bytes offset k) ∙ q);
    }
