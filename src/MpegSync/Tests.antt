-- ===== src/MpegSync/Tests.antt =====
-- Theorems about the packet cadence at a stream of two packets.
use dvbt_rx.Base.{
  ℕ, ◌+◌, ◌*◌, ◌%◌, ◌≡◌, refl, arith, true, false, ◌++◌, List, ◌∷◌, length, replicate,
  length-replicate,
}
use dvbt_rx.MpegSync.{
  MpegSync, search, search_from, find_offset, is_locked, scan, scan_from, scan_byte, skip,
}
use dvbt_rx.Buffer
use dvbt_rx.MpegSync.Search.{IsSearched, search-IsSearched}
use dvbt_rx.MpegSync.Cadence.{pop_bytes, pop_bytes_lem}

abbrev two_packets : MpegSync
two_packets = record {
  buffer = record { bytes = replicate 408 0x47; cap = 13056 };
  synchronized = true;
  phase8 = 7;
  fail_packets = 0;
  stream_byte_offset = 100;
}

-- Noise, then eight packets of which the third has the inverted sync byte.
abbrev noisy : MpegSync
noisy = record {
  buffer = record {
    bytes = replicate 100 0 ++ packet 0x47 ++ packet 0x47 ++ packet 0xb8 ++ fives;
    cap = 13056;
  };
  synchronized = false;
  phase8 = 0;
  fail_packets = 0;
  stream_byte_offset = 0;
}
  where
    packet : ℕ → List ℕ
    packet sync = sync ∷ replicate 203 0

    fives : List ℕ
    fives = packet 0x47 ++ packet 0x47 ++ packet 0x47 ++ packet 0x47 ++ packet 0x47

noisy_locks : ((search noisy).0 ≡ true) × ((search noisy).1.phase8 ≡ 6)
unfolding search search_from find_offset is_locked scan scan_from scan_byte skip Buffer.consume
noisy_locks = (refl, refl)

search-IsSearched_example : IsSearched noisy (search noisy).0 (search noisy).1
search-IsSearched_example = search-IsSearched noisy

pop_bytes_lem_example :
    let (out, t) = pop_bytes 2 two_packets in
    (out ++ t.buffer.bytes ≡ replicate 408 0x47)
    × (length out ≡ 2 * 204)
    × (t.synchronized ≡ true)
    × (t.phase8 ≡ (7 + 2) % 8)
    × (t.stream_byte_offset ≡ 100 + 2 * 204)
pop_bytes_lem_example =
    pop_bytes_lem 2 two_packets refl (omega arith)
      (rw (length-replicate {A = ℕ} 408 0x47) (omega arith))
