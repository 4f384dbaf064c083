-- ===== src/Udp/Tests.antt =====
-- A burst of eight packets.
use dvbt_rx.Base.{ℕ, ◌≡◌, List, [], ◌++◌, replicate, All}
use dvbt_rx.Udp.{write}
use dvbt_rx.Udp.Datagrams.{keep_sent, joined, IsDatagram, write-IsDatagram}

write-IsDatagram_example :
    (ds : List (List ℕ)) × (write keep_sent [] (replicate 1504 0x47) ≡ [] ++ ds)
    × (joined ds ≡ replicate 1504 0x47)
    × All IsDatagram ds
write-IsDatagram_example = write-IsDatagram [] (replicate 1504 0x47)
