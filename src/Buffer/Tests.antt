-- ===== src/Buffer/Tests.antt =====
-- A buffer that has to grow, and the theorem there.
use dvbt_rx.Base.{◌≤◌, ◌≡◌, refl, arith, true, [], ◌∷◌, ◌++◌, some}
use dvbt_rx.Buffer.{Buffer, append, reserve, grow}
use dvbt_rx.Buffer.Growth.{IsValid, append-IsValid}

abbrev small : Buffer
small = record { bytes = 1 ∷ 2 ∷ 3 ∷ []; cap = 3 }

doubled :
    append (λ c. true) 4 small (4 ∷ []) ≡ some (record { bytes = 1 ∷ 2 ∷ 3 ∷ 4 ∷ []; cap = 6 })
unfolding append reserve grow
doubled = refl

append-IsValid_example :
    (b' : Buffer) × (append (λ c. true) 4 small (4 ∷ 5 ∷ []) ≡ some b')
    × (b'.bytes ≡ (1 ∷ 2 ∷ 3 ∷ []) ++ (4 ∷ 5 ∷ []))
    × IsValid b'
    × (3 ≤ b'.cap)
append-IsValid_example =
    append-IsValid (λ c. true) 4 small (4 ∷ 5 ∷ []) (λ c. refl) (omega arith) (omega arith)
      (omega arith)
