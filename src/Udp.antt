-- ===== src/Udp.antt =====
-- The UDP output of src/udp_ts_output.c: `rbdvbt_udp_ts_output_write`.
-- The socket is a parameter: `send` gives the state of the network and the number of bytes sent,
-- `none` for its -1. The code returns 0 in every case, so the result is the state alone. The
-- pointers are not NULL.
pub mod Datagrams
mod Tests
use dvbt_rx.Base.{
  ℕ, zero, suc, List, [], ◌∷◌, length, take, drop, if◌then◌else◌, ltb, ◌==◌, Option, none, some,
}

abbrev pub packet_size : ℕ
packet_size = 1316

pub chunk_size : ℕ → ℕ
chunk_size byte_count = if ltb packet_size byte_count then packet_size else byte_count

module _ {S : Type 0} (send : S → List ℕ → S × Option ℕ) where
  -- The loop, with `fuel` rounds left.
  pub write_from : ℕ → S → List ℕ → S
  write_from zero s bytes = s
  write_from (suc fuel) s [] = s
  write_from (suc fuel) s (b ∷ bytes) =
      let chunk = chunk_size (length (b ∷ bytes)) in
      let (s', sent) = send s (take chunk (b ∷ bytes)) in
      elim sent [
        | none ↦ s'
        | some n ↦
            let rest = write_from fuel s' (drop n (b ∷ bytes)) in if n == chunk then rest else s'
      ]

  pub write : S → List ℕ → S
  write s bytes = write_from (length bytes) s bytes
