-- ===== src/Inner/Symbols.antt =====
-- The symbol deinterleaver against the interleaver of the transmitter.
use dvbt_rx.Base.{
  ℕ, ◌%◌, ◌<◌, ◌≡◌, refl, sym, ap, ◌∙◌, arith, false, List, none, some, length, get_or, set,
  replicate, length-replicate, lt→ltb, ◌==◌, inl, inr, Bool-cases, ==_iff, not-==_ne,
}
use dvbt_rx.Carriers.{symbol_interleaver}
use dvbt_rx.Carriers.Permutation.{deinterleaver-interleaver, interleaver-deinterleaver}
use dvbt_rx.Inner.{even_round, odd_round, symbol_deinterleave}
use dvbt_rx.Inner.Writes.{for_from-writes}

-- The address of a cell.
address : ℕ → ℕ
address i = elim (symbol_interleaver i) [ none ↦ 0 | some h ↦ h ]

address_of : (i h : ℕ) → symbol_interleaver i ≡ some h → address i ≡ h
unfolding address
address_of i h e = rw (e, address) refl

address_lem : (i : ℕ) → i < 1512 → (address i < 1512) × (symbol_interleaver i ≡ some (address i))
address_lem i lt =
    let (h, e, lt', back) = deinterleaver-interleaver i lt in
    (omega (arith, address_of i h e), e ∙ ap some (sym (address_of i h e)))

address_onto : (j : ℕ) → j < 1512 → (q : ℕ) × (q < 1512) × (address q ≡ j)
address_onto j lt =
    let (q, e, lt', back) = interleaver-deinterleaver j lt in (q, lt', address_of q j back)

module _ {A : Type 0} (z : A) where
  -- What the transmitter makes of the cells of one symbol: cell `q` goes to the address of `q` in
  -- an even symbol, and comes from there in an odd one.
  unfoldable pub IsInterleaved : ℕ → List A → List A → Type 0
  IsInterleaved symbol_index sent received =
      (length sent ≡ 1512)
      × ((q h : ℕ)
          → q < 1512
          → symbol_interleaver q ≡ some h
          → (symbol_index % 2 ≡ 0 → get_or received h z ≡ get_or sent q z)
            × (symbol_index % 2 ≡ 1 → get_or received q z ≡ get_or sent h z))

  even_round-set :
      (received out : List A) (i : ℕ)
      → i < 1512
      → even_round z received i out ≡ set out i (get_or received (address i) z)
  unfolding even_round
  even_round-set received out i lt =
      let (lt', e) = address_lem i lt in rw (e, even_round, lt→ltb (address i) 1512 lt') refl

  odd_round-set :
      (received out : List A) (i : ℕ)
      → i < 1512
      → odd_round z received i out ≡ set out (address i) (get_or received i z)
  unfolding odd_round
  odd_round-set received out i lt =
      let (lt', e) = address_lem i lt in rw (e, odd_round, lt→ltb (address i) 1512 lt') refl

  -- The symbol deinterleaver gives back the 1512 cells that the transmitter has interleaved, in an
  -- even and in an odd symbol.
  pub symbol_deinterleave-IsInterleaved :
      (symbol_index : ℕ) (sent received : List A)
      → IsInterleaved symbol_index sent received
      → symbol_deinterleave z symbol_index received ≡ sent
  unfolding symbol_deinterleave IsInterleaved
  symbol_deinterleave-IsInterleaved symbol_index sent received (len, cells) =
      elim (Bool-cases (symbol_index % 2 == 0)) [
        | inl even ↦ rw even (
            for_from-writes z 1512 (λ i. i) (even_round z received) sent (replicate 1512 z) len
              (length-replicate 1512 z)
              (λ i out lt. (
                lt,
                even_round-set received out i lt
                    ∙ ap (λ v. set out i v)
                        ((cells i (address i) lt (address_lem i lt).1).0
                          ((==_iff (symbol_index % 2) 0).0 even)),
              ))
              (λ j lt. (j, lt, refl)))
        | inr odd ↦ rw odd (
            for_from-writes z 1512 address (odd_round z received) sent (replicate 1512 z) len
              (length-replicate 1512 z)
              (λ i out lt. (
                (address_lem i lt).0,
                odd_round-set received out i lt
                    ∙ ap (λ v. set out (address i) v)
                        ((cells i (address i) lt (address_lem i lt).1).1 (odd_remainder odd)),
              ))
              address_onto)
      ]
    where
      odd_remainder : (symbol_index % 2 == 0) ≡ false → symbol_index % 2 ≡ 1
      odd_remainder h = omega (arith, not-==_ne (symbol_index % 2) 0 h)
