-- ===== src/Nal/Tests.antt =====
-- A packet of H.264 video in which a PES header is followed by a sequence parameter set.
use dvbt_rx.Base.{ℕ, List, [], ◌∷◌, ◌++◌, replicate, refl, Returns}
use dvbt_rx.Nal.{packet_nal_flags}
use dvbt_rx.Nal.Units.{AreFound, packet_nal_flags-AreFound}

abbrev video_packet : List ℕ
video_packet =
    (0x47 ∷ 0x41 ∷ 0x00 ∷ 0x10 ∷ [])
    ++ (0 ∷ 0 ∷ 1 ∷ 0xe0 ∷ 0 ∷ 0 ∷ 0x80 ∷ 0 ∷ 2 ∷ 0xff ∷ 0xff ∷ [])
    ++ (0 ∷ 0 ∷ 0 ∷ 1 ∷ 0x67 ∷ [])
    ++ replicate 168 0x11

packet_nal_flags-AreFound_example :
    Returns (packet_nal_flags video_packet 256 0x1b) (AreFound video_packet 0x1b)
packet_nal_flags-AreFound_example = packet_nal_flags-AreFound video_packet 256 0x1b refl
