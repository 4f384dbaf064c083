-- ===== src/Lib.antt =====
-- A model of the receiver rbdvbt_rx: what lies between the demodulated bytes and the transport
-- stream, and the tables that the demodulator works by.
--
-- The program reads IQ samples, finds the OFDM symbols, maps their carriers to soft bits, decodes
-- them by Viterbi, and hands the bytes to the outer receiver. That undoes the byte interleaving,
-- corrects each block of 204 bytes, undoes the energy dispersal and writes packets of 188 bytes.
-- The parts and their files:
--
-- - Gf.antt: the Galois field of src/dvbt_outer.c (`gf_tables_init` and the `gf_` functions).
--   Gf/Lookup.antt is about the tables, Gf/Field.antt about the laws of a field.
-- - Rs.antt: the decoder RS(204,188), `rs_syndromes_204` to `rs_correct_204`; each C loop is a
--   function over the rounds left. Rs/Sound.antt is about what it reports,
--   Rs/Vandermonde.antt, Rs/Words.antt and Rs/Unique.antt about the distance of code words, and
--   Rs/Correction.antt about the block it leaves.
-- - Deinterleaver.antt: `outer_deinterleaver_init`, `outer_deinterleaver_step` and
--   `outer_deinterleave_phase`. Deinterleaver/State.antt and Deinterleaver/Step.antt hold the
--   invariant, Deinterleaver/Delay.antt and Deinterleaver/Forney.antt what comes out.
-- - Buffer.antt: the buffers that grow by doubling, one model of three copies of the code.
-- - OuterStream.antt: `live_outer_stream_pop_rs`, the same deinterleaver by direct reads from a
--   buffer; OuterStream/Refine.antt compares the two.
-- - MpegSync.antt: `live_mpeg_sync_search` and `live_mpeg_sync_pop_packet`; MpegSync/Scanned.antt
--   and MpegSync/Search.antt are about the search, MpegSync/Cadence.antt about the packets.
-- - Scramble.antt: `build_scrambler_table` and `descramble_packet`; Scramble/Descramble.antt has the
--   transmitter's energy dispersal, and that it is undone.
-- - Validator.antt: `ts_validator_observe`, which reads PAT, PMT and SDT in the packets that leave.
--   Validator/Safe.antt and Validator/Observe.antt are about the bounds of its reads
--   and writes, Validator/Pat.antt about the program it takes from a PAT.
-- - Gate.antt: `ts_output_gate_try_write`, which keeps packets back until the stream can start.
--   Gate/Burst.antt is about the write buffer, Gate/Opening.antt about the gate while it is closed.
-- - Nal.antt: `ts_packet_video_nal_flags`, which finds the NAL units of a video packet for the gate;
--   Nal/Units.antt is about its reads and what it finds.
-- - Output.antt: `block4_consume_fifo3_packet`, which puts validator, NAL units and gate together
--   and keeps the lock state; Output/Locks.antt.
-- - Udp.antt: `rbdvbt_udp_ts_output_write` of src/udp_ts_output.c, which cuts bytes into datagrams;
--   Udp/Datagrams.antt.
-- - Fifo.antt: the bounded queue of src/pipeline.c between the blocks of the pipeline; a call is
--   one step under the mutex. Fifo/Queue.antt is the queue that a client may rely on,
--   Fifo/Refine.antt and Fifo/Clients.antt are about the ring as such a queue, Fifo/Signals.antt and
--   Fifo/Signals/Lost.antt about its condition variables.
-- - Carriers.antt: src/dvbt_2k_model.c, the roles of the carriers and the symbol interleaver.
--   Carriers/Pilots.antt is the pilots that src/probe_constellation.c looks for, with tables of its
--   own; Carriers/Pilots/Agree.antt compares them with the roles.
-- - Inner.antt: the deinterleavers of src/probe_constellation.c, from the QPSK cells of a symbol to
--   dibits; Inner/Symbols.antt, Inner/Bits.antt and Inner/Soft.antt.
-- - Puncture.antt: `dvbt_depuncture_dibits`; Puncture/RoundTrip.antt is about its patterns.
-- - Viterbi.antt: `dvbt_viterbi_decode_pairs` and `decode_viterbi_bytes`. Viterbi/Metrics.antt has
--   the laws of a metric, Viterbi/Bound.antt, Viterbi/Survivor.antt and Viterbi/Optimal.antt are
--   about the path that comes out.
-- - LiveViterbi.antt: `live_viterbi_stream_decode_bytes`, the decoder of the live path, which keeps
--   the last survivors in a ring and goes on from job to job. LiveViterbi/Rows.antt,
--   LiveViterbi/Relative.antt, LiveViterbi/Trace.antt and LiveViterbi/Emit.antt are about its parts,
--   LiveViterbi/Tracking.antt and LiveViterbi/Steps.antt about its state after some pairs,
--   LiveViterbi/Agree.antt and LiveViterbi/Jobs.antt about the bytes of whole jobs.
-- - IqRing.antt: the ring of IQ samples between the reader of standard input and the front end, the
--   `live_iq_ring_` functions. IqRing/Window.antt is what the front end may rely on, IqRing/Push.antt
--   and IqRing/Refine.antt are about the ring as such a window.
-- - DecodeQueue.antt: the queue of jobs between the live front end and the worker that decodes them,
--   `live_decode_enqueue`, `live_decode_drop_one_locked` and the worker's side of the mutex. A call
--   is one step under that mutex. DecodeQueue/Drops.antt is about the symbols that are dropped,
--   DecodeQueue/Reach.antt about the states that calls can lead to.
-- - SoftFifo.antt: the soft symbols that wait for a window, `live_soft_dibit_fifo_process`; the windows
--   become jobs of DecodeQueue.antt. SoftFifo/Append.antt is about the chunks that come in,
--   SoftFifo/Windows.antt and SoftFifo/Calls.antt about the windows that go out.
-- - Acquire.antt: the search for the alignment of the outer code, `score_candidate_with_policy` to
--   `live_outer_alignment_store`, and `live_outer_alignment_note_result`. Acquire/Scan.antt is about
--   the search, Acquire/Tracking.antt about the alignment from job to job.
-- - Outer.antt: the live outer receiver, `live_grdvbt_outer_process` and its helpers, from bytes of
--   the inner receiver to packets. Outer/Blocks.antt is about jobs and blocks, Outer/Reception.antt
--   about the start of a reception.
-- - Session.antt: `live_ts_session_note`, whose totals go over jobs; Session/Totals.antt.
-- - Config.antt: `rbdvbt_parse_args` and the names of src/config.c. Config/Numbers.antt has the numbers,
--   Config/Names.antt the names, Config/Options.antt the options; what is checked is in
--   Config/Options/Checked.antt.
-- - Base.antt: shared names, arrays as lists over the native numbers, the laws of exclusive or.
--
-- Bytes and counters are natural numbers; where the C code depends on a width, the remainder is
-- written out. An array is a list, and a read past its end gives 0; the index theorems say where
-- that does not happen. In Validator.antt and Nal.antt such a read is `none`. Counters of bytes
-- and jobs are not taken modulo their width, save in Session.antt, IqRing.antt and
-- DecodeQueue.antt. The loops on fuel are the search for the cadence, where the length of the
-- buffer over 204 and one is enough, the doubling of a capacity, where 65 rounds leave every
-- `size_t`, the windows of soft symbols, with as many rounds as there are cells, the loops over a
-- section of the transport stream and over the datagrams, with as many rounds as there are bytes,
-- and the loop over a video payload, with one round more.
--
-- Not modelled: the OFDM front end and the plots (floating-point signal processing), the log, the
-- status file, the opening of sockets and files, the graphical interfaces and the separate tools.
pub mod Base
pub mod Gf
pub mod Rs
pub mod Fifo
pub mod Deinterleaver
pub mod Buffer
pub mod OuterStream
pub mod MpegSync
pub mod Scramble
pub mod Validator
pub mod Gate
pub mod Carriers
pub mod Puncture
pub mod Inner
pub mod Viterbi
pub mod LiveViterbi
pub mod IqRing
pub mod DecodeQueue
pub mod SoftFifo
pub mod Acquire
pub mod Session
pub mod Nal
pub mod Outer
pub mod Output
pub mod Udp
pub mod Config
