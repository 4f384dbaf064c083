-- ===== src/Outer/Tests.antt =====
-- A run on bytes that are all 0, of which each whole block is a word of the code, with the packets
-- as the output.
use dvbt_rx.Base.{
  ℕ, ◌+◌, ◌-◌, ◌/◌, ◌≡◌, arith, List, [], ◌∷◌, ◌++◌, replicate, Option, some, ◌>>=◌, drop, length,
  false,
}
use dvbt_rx.Acquire.{Candidate, no_candidate}
use dvbt_rx.Deinterleaver.Delay.{deinterleave_phase-delayed}
use dvbt_rx.Deinterleaver.{run}
use dvbt_rx.Scramble.{scrambler_table}
use dvbt_rx.Outer.{Tally, Receiver, acquired, process_acquired}
use dvbt_rx.Outer.Blocks.{view, blocks, concat, process_jobs, process_jobs-blocks}
use dvbt_rx.Outer.Reception.{process_acquired-blocks}

abbrev keep : List (List ℕ) → ℕ → List ℕ → Option (List (List ℕ))
keep packets n packet = some (packets ++ (packet ∷ []))

abbrev as_before : List (List ℕ) → List (List ℕ)
as_before packets = packets

abbrev no_tally : Tally
no_tally = record {
  rs_bad = 0;
  rs_ok = 0;
  rs_corrected = 0;
  rs_corrected_bytes = 0;
  rs_uncorrectable = 0;
  processed_blocks = 0;
}

abbrev receiver : Receiver (List (List ℕ))
receiver = record { live = acquired [] no_candidate false; tally = no_tally; out = [] }

abbrev job : List ℕ
job = replicate 300 0

-- A reception in the middle of a block, at branch 7.
abbrev going_on : Receiver (List (List ℕ))
going_on = record receiver {
  live = record receiver.live { rs_block = replicate 100 0; branch = 7; block_phase = 3 };
}

process_jobs-blocks_example :
    (process_jobs keep as_before scrambler_table going_on (job ∷ job ∷ []) >>= λ r. some (view r))
    ≡ blocks keep as_before scrambler_table
        ((length going_on.live.rs_block + length (concat (job ∷ job ∷ []))) / 204)
        3
        (view going_on)
        (going_on.live.rs_block ++ run 7 going_on.live.deinterleaver (concat (job ∷ job ∷ [])))
process_jobs-blocks_example =
    process_jobs-blocks keep as_before scrambler_table going_on (job ∷ job ∷ []) (omega arith)
      (omega arith)

abbrev candidate : Candidate
candidate = record no_candidate { deint_phase = 3; rs_phase = 5; block_phase = 2 }

abbrev zeros : List ℕ
zeros = replicate 3000 0

process_acquired-blocks_example :
    let (deint, made, size, at) = deinterleave_phase-delayed zeros 3 (omega arith) (omega arith) in
    (process_acquired keep as_before scrambler_table receiver zeros candidate false >>= λ r.
    some (view r))
    ≡ blocks keep as_before scrambler_table
        ((length deint - (2244 + 5)) / 204)
        2
        (view receiver)
        (drop (2244 + 5) deint)
process_acquired-blocks_example =
    let (deint, made, size, at) = deinterleave_phase-delayed zeros 3 (omega arith) (omega arith) in
    process_acquired-blocks keep as_before scrambler_table receiver zeros deint candidate false made
      (omega (arith, size))
