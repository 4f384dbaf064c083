-- ===== src/Output/Locks.antt =====
-- The lock state that is reported behind a packet.
use dvbt_rx.Base.{
  ℕ, ◌≡◌, refl, Bool, true, false, not, ◌&&◌, ◌||◌, List, length, if◌then◌else◌, ltb, ◌==◌, All,
}
use dvbt_rx.Base.{
  Option, none, some, ◌>>=◌, ◌⊎◌, inl, inr, Bool-cases, Returns, some-Returns, >>=-Returns,
}
use dvbt_rx.Validator.{Validator, no_pid}
use dvbt_rx.Validator.Safe.{IsValid}
use dvbt_rx.Validator.Observe.{IsByte, observe-Returns}
use dvbt_rx.Gate.{Gate, relock, try_write, NalFlags}
use dvbt_rx.Nal.Units.{packet_nal_flags-AreFound}
use dvbt_rx.Output.{
  Lock, locking, locked, degraded, is_degraded, Output, is_damaged, error_lock, lock_before,
  lock_after, hold, consume,
}

lock_before-cases :
    (gate : Gate) (v : Validator) → (lock_before gate v ≡ locked) ⊎ (lock_before gate v ≡ locking)
unfolding lock_before
lock_before-cases gate v = elim (Bool-cases gate.stdout_enabled) [
  | inl opened ↦ rw opened (inl refl)
  | inr closed ↦ rw closed (
      by_tables (ltb 0 v.pat_packets && ltb 0 v.pmt_packets && not (v.video_pid == no_pid))
        gate.waiting_for_video_start)
]
  where
    by_tables :
        (tables waiting : Bool)
        → let lock = if tables then (if waiting then locking else locked) else locking in
          (lock ≡ locked) ⊎ (lock ≡ locking)
    by_tables true true = inr refl
    by_tables true false = inl refl
    by_tables false waiting = inr refl

module _ {S : Type 0} where
  -- What a packet does, damaged or not, with the sink as it was before.
  unfoldable pub Behaves : Bool → Bool → Output S → Option (Output S) → Type 0
  Behaves true live_mode o none = ⊥
  Behaves true live_mode o (some o') =
      (o'.sink ≡ o.sink)
      × (o'.gate.stdout_enabled ≡ (o.gate.stdout_enabled && live_mode))
      × (o'.lock ≡ (if o.gate.stdout_enabled then degraded else locking))
  Behaves false live_mode o none = Unit
  Behaves false live_mode o (some o') =
      (o'.lock ≡ locked) ⊎ ((o'.lock ≡ locking) × (o'.gate.stdout_enabled ≡ false))

  lock_after-Behaves :
      (live_mode : Bool) (o : Output S) (gate : Gate) (lock : Lock) (v : Validator) (sink : S)
      → (lock ≡ locked) ⊎ (lock ≡ locking)
      → Behaves false live_mode o
          (some (record { gate = gate; validator = v; lock = lock_after gate lock; sink = sink }))
  unfolding Behaves lock_after is_degraded
  lock_after-Behaves live_mode o gate lock v sink was = elim was [
    | inl e ↦ inl (rw e (by_gate gate.stdout_enabled))
    | inr e ↦ rw e (by_open gate.stdout_enabled)
  ]
    where
      by_gate : (b : Bool) → (if b && true then locked else locked) ≡ locked
      by_gate true = refl
      by_gate false = refl

      by_open :
          (b : Bool)
          → ((if b && true then locked else locking) ≡ locked)
            ⊎ (((if b && true then locked else locking) ≡ locking) × (b ≡ false))
      by_open true = inl refl
      by_open false = inr (refl, refl)

  hold-Behaves :
      (live_mode wait_video_start : Bool) (o : Output S) (v : Validator)
      → Behaves true live_mode o
          (some (hold (record o { validator = v }) live_mode wait_video_start))
  unfolding Behaves hold error_lock relock
  hold-Behaves live_mode wait_video_start o v = (refl, by_gate live_mode, refl)
    where
      by_gate :
          (b : Bool)
          → (if not b || not o.gate.stdout_enabled
              then relock o.gate wait_video_start
              else o.gate).stdout_enabled
            ≡ (o.gate.stdout_enabled && b)
      by_gate true = elim (Bool-cases o.gate.stdout_enabled) [
        | inl opened ↦ rw opened refl
        | inr closed ↦ rw closed refl
      ]
      by_gate false = elim (Bool-cases o.gate.stdout_enabled) [
        | inl opened ↦ rw opened refl
        | inr closed ↦ rw closed refl
      ]

  -- On a packet of 188 bytes block4_consume_fifo3_packet returns. A packet with a damaged header does
  -- not reach the sink and does not fail; the gate stays open only if it was open in live mode, and
  -- the state is degraded if it was open, else locking. After any other packet, unless the sink
  -- fails, the state is locked, or locking behind a closed gate, also where the packet has a
  -- continuity error.
  pub consume-Behaves :
      (send : S → List (List ℕ) → Option S) (o : Output S) (packet : List ℕ)
      (live_mode pilot_lock_ok wait_video_start : Bool)
      → length packet ≡ 188
      → All IsByte packet
      → IsValid o.validator
      → Returns
          (consume send o packet live_mode pilot_lock_ok wait_video_start)
          (Behaves (is_damaged packet) live_mode o)
  unfolding consume Behaves
  consume-Behaves send o packet live_mode pilot_lock_ok wait_video_start whole bytes valid =
      >>=-Returns _ _ (observe-Returns o.validator packet whole bytes valid) (λ v valid'.
        >>=-Returns _ _ (packet_nal_flags-AreFound packet v.video_pid v.video_stream_type whole)
          (λ nal found. some-Returns _ _ (by_packet v nal (is_damaged packet))))
    where
      by_packet :
          (v : Validator) (nal : NalFlags) (d : Bool)
          → Behaves d live_mode o (
              if d
              then some (hold (record o { validator = v }) live_mode wait_video_start)
              else (try_write send o.gate v o.sink packet nal pilot_lock_ok >>= λ (gate', sink').
                  some (record {
                    gate = gate';
                    validator = v;
                    lock = lock_after gate' (lock_before o.gate v);
                    sink = sink';
                  })))
      by_packet v nal true = hold-Behaves live_mode wait_video_start o v
      by_packet v nal false = written (try_write send o.gate v o.sink packet nal pilot_lock_ok)
        where
          written :
              (m : Option (Gate × S))
              → Behaves false live_mode o (
                  m >>= λ (gate', sink'). some (record {
                    gate = gate';
                    validator = v;
                    lock = lock_after gate' (lock_before o.gate v);
                    sink = sink';
                  }))
          written none = tt
          written (some (gate', sink')) =
              lock_after-Behaves live_mode o gate' _ v sink' (lock_before-cases o.gate v)
