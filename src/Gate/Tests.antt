-- ===== src/Gate/Tests.antt =====
-- Runs of the gate.
use dvbt_rx.Base.{
  ℕ, ◌≡◌, refl, arith, List, [], ◌∷◌, Option, some, none, true, false, replicate, Returns,
}
use dvbt_rx.Validator
use dvbt_rx.Validator.{Validator}
use dvbt_rx.Gate
use dvbt_rx.Gate.{Gate, NalFlags, try_write, write_packets}
use dvbt_rx.Gate.Burst.{keep, Wrote, write_packets-Wrote}
use dvbt_rx.Gate.Opening.{IsValid, Outcome, try_write-Outcome}

abbrev pat : List ℕ
pat = 0x47 ∷ 0x40 ∷ 0 ∷ 0x10 ∷ []

abbrev pmt : List ℕ
pmt = 0x47 ∷ 0x50 ∷ 0 ∷ 0x10 ∷ []

abbrev video : List ℕ
video = 0x47 ∷ 0x41 ∷ 0 ∷ 0x10 ∷ []

-- Both tables have been seen, and the video is on 0x100.
abbrev seen : Validator
seen = record Validator.init {
  pat_packets = 1;
  pmt_packets = 1;
  pmt_pid = 0x1000;
  video_pid = 0x100;
}

abbrev ready : Gate
ready = record (Gate.init false) { pat = pat; pmt = pmt; have_pat = true; have_pmt = true }

abbrev no_flags : NalFlags
no_flags = record { idr = false; sps = false; pps = false; vps = false }

waiting : Option (Gate × List (List ℕ)) → List (List ℕ)
waiting none = []
waiting (some (gate, out)) = gate.write_buf

opening_run : waiting (try_write keep ready seen [] video no_flags true) ≡ pat ∷ pmt ∷ video ∷ []
unfolding waiting try_write Gate.init Validator.init Gate.may_open Gate.note_packet Gate.packet_pid
    write_packets Gate.write_packet Gate.is_psi
opening_run = refl

try_write-Outcome_example :
    Returns (try_write keep ready seen [] video no_flags true) (Outcome ready [])
unfolding IsValid Gate.init Gate.packet_pid
try_write-Outcome_example =
    try_write-Outcome ready seen [] video no_flags true (omega arith, λ h. refl) refl

write_packets-Wrote_example :
    Returns (write_packets keep ready [] (replicate 8 video)) (Wrote ready [] (replicate 8 video))
unfolding Gate.init
write_packets-Wrote_example = write_packets-Wrote (replicate 8 video) ready [] (omega arith)
