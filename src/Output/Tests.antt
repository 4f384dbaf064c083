-- ===== src/Output/Tests.antt =====
-- A packet of 188 sync bytes at a gate that is closed.
use dvbt_rx.Base.{ℕ, zero, suc, arith, refl, List, [], replicate, true, All, Returns}
use dvbt_rx.Validator
use dvbt_rx.Validator.Observe.{IsByte, init-IsValid}
use dvbt_rx.Gate
use dvbt_rx.Gate.Burst.{keep}
use dvbt_rx.Output.{Output, search, consume, is_damaged}
use dvbt_rx.Output.Locks.{Behaves, consume-Behaves}

abbrev closed : Output (List (List ℕ))
closed = record { gate = Gate.init true; validator = Validator.init; lock = search; sink = [] }

abbrev packet : List ℕ
packet = replicate 188 0x47

sync_bytes-IsByte : (n : ℕ) → All IsByte (replicate n 0x47)
sync_bytes-IsByte zero = tt
sync_bytes-IsByte (suc n) = (omega arith, sync_bytes-IsByte n)

consume-Behaves_example :
    Returns (consume keep closed packet true true true) (Behaves (is_damaged packet) true closed)
consume-Behaves_example =
    consume-Behaves keep closed packet true true true refl (sync_bytes-IsByte 188) init-IsValid
