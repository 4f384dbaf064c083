-- ===== src/Acquire/Tracking.antt =====
-- The alignment that is kept from job to job stays with the blocks of the stream.
use dvbt_rx.Base.{ℕ, ◌+◌, ◌%◌, ◌<◌, ◌≡◌, arith, true, false}
use dvbt_rx.Acquire.{Alignment, note_result}

-- The phases are in range.
unfoldable pub IsValid : Alignment → Type 0
IsValid a = (a.rs_phase < 204) × (a.block_phase < 8)

-- After a good job on a valid alignment the phases are in range again, the first block of the next
-- job begins a whole number of blocks behind the first block of this one, counted over the bytes of
-- the stream, and the block phase has gone on by the blocks that were processed.
pub note_result-IsValid :
    (a : Alignment) (deint_count processed_blocks : ℕ)
    → IsValid a
    → a.valid ≡ true
    → let a' = note_result a false deint_count processed_blocks in
      IsValid a'
      × ((a'.consumed_deint_bytes + a'.rs_phase) % 204
          ≡ (a.consumed_deint_bytes + a.rs_phase) % 204)
      × (a'.block_phase ≡ (a.block_phase + processed_blocks) % 8)
unfolding IsValid note_result
note_result-IsValid a deint_count processed_blocks valid on = ground arith
