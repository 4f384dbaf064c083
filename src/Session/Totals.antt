-- ===== src/Session/Totals.antt =====
-- What the counters of a session add up to.
use dvbt_rx.Base.{
  ℕ, ◌+◌, ◌-◌, ◌^◌, ◌≤◌, ◌<◌, ◌≡◌, refl, sym, ap, subst, ◌∙◌, arith, List, [], ◌∷◌, ◌++◌,
}
use dvbt_rx.Session.{Counter, counter_delta, note}

unfoldable pub note_all : Counter → List ℕ → Counter
note_all c [] = c
note_all c (r ∷ rs) = note_all (note c r) rs

-- Readings of one validator: none is below the one before.
unfoldable pub Rises : ℕ → List ℕ → Type 0
Rises low [] = Unit
Rises low (r ∷ rs) = (low ≤ r) × Rises r rs

unfoldable pub last_of : ℕ → List ℕ → ℕ
last_of low [] = low
last_of low (r ∷ rs) = last_of r rs

last_of-le : (low : ℕ) (rs : List ℕ) → Rises low rs → low ≤ last_of low rs
unfolding Rises last_of
last_of-le low [] rises = omega arith
last_of-le low (r ∷ rs) (le, rises) = omega (arith, le, last_of-le r rs rises)

note-total :
    (c : Counter) (r : ℕ)
    → c.last ≤ r
    → c.total + (r - c.last) < 2 ^ 64
    → ((note c r).total ≡ c.total + (r - c.last)) × ((note c r).last ≡ r)
unfolding note counter_delta
note-total c r le fits = ground arith

note_all-Rises :
    (c : Counter) (rs : List ℕ)
    → Rises c.last rs
    → c.total + (last_of c.last rs - c.last) < 2 ^ 64
    → ((note_all c rs).total ≡ c.total + (last_of c.last rs - c.last))
      × ((note_all c rs).last ≡ last_of c.last rs)
unfolding note_all Rises last_of
note_all-Rises c [] rises fits = (omega arith, refl)
note_all-Rises c (r ∷ rs) (le, rises) fits =
    let above = last_of-le r rs rises in
    let (total_eq, last_eq) = note-total c r le (omega (arith, above, fits)) in
    let (later, last') =
      note_all-Rises (note c r) rs (subst (λ l. Rises l rs) (sym last_eq) rises) (
        subst (λ l. (note c r).total + (last_of l rs - l) < 2 ^ 64) (sym last_eq)
          (omega (arith, total_eq, above, fits))) in
    (
      later ∙ ap (λ l. (note c r).total + (last_of l rs - l)) last_eq ∙ sum_eq total_eq above,
      last' ∙ ap (λ l. last_of l rs) last_eq,
    )
  where
    sum_eq :
        (note c r).total ≡ c.total + (r - c.last)
        → r ≤ last_of r rs
        → (note c r).total + (last_of r rs - r) ≡ c.total + (last_of r rs - c.last)
    sum_eq total_eq above = omega arith

note_all-append :
    (c : Counter) (rs qs : List ℕ) → note_all c (rs ++ qs) ≡ note_all (note_all c rs) qs
unfolding note_all
note_all-append c [] qs = refl
note_all-append c (r ∷ rs) qs = note_all-append (note c r) rs qs

-- The readings of jobs one after the other: each job begins at 0.
unfoldable pub readings : List (List ℕ) → List ℕ
readings [] = []
readings (job ∷ jobs) = 0 ∷ job ++ readings jobs

unfoldable pub AllRise : List (List ℕ) → Type 0
AllRise [] = Unit
AllRise (job ∷ jobs) = Rises 0 job × AllRise jobs

-- The sum of the last readings of the jobs.
unfoldable pub sum_of_last : List (List ℕ) → ℕ
sum_of_last [] = 0
sum_of_last (job ∷ jobs) = last_of 0 job + sum_of_last jobs

note_zero : (c : Counter) → c.total < 2 ^ 64 → ((note c 0).total ≡ c.total) × ((note c 0).last ≡ 0)
unfolding note counter_delta
note_zero c fits = ground arith

note_job :
    (c : Counter) (job : List ℕ)
    → Rises 0 job
    → c.total + last_of 0 job < 2 ^ 64
    → (note_all c (0 ∷ job)).total ≡ c.total + last_of 0 job
unfolding note_all
note_job c job rises fits =
    let (total_eq, last_eq) = note_zero c (omega (arith, fits)) in
    let (noted, last') =
      note_all-Rises (note c 0) job (subst (λ l. Rises l job) (sym last_eq) rises) (
        subst (λ l. (note c 0).total + (last_of l job - l) < 2 ^ 64) (sym last_eq)
          (omega (arith, total_eq, fits))) in
    noted ∙ ap (λ l. (note c 0).total + (last_of l job - l)) last_eq ∙ sum_eq total_eq
  where
    sum_eq :
        (note c 0).total ≡ c.total
        → (note c 0).total + (last_of 0 job - 0) ≡ c.total + last_of 0 job
    sum_eq total_eq = omega arith

-- When the readings of each job begin at 0 and rise, and the total stays below 2^64, noting the
-- readings of jobs one after the other adds the sum of the last readings of the jobs to the total.
pub note_all-sum_of_last :
    (c : Counter) (jobs : List (List ℕ))
    → AllRise jobs
    → c.total + sum_of_last jobs < 2 ^ 64
    → (note_all c (readings jobs)).total ≡ c.total + sum_of_last jobs
unfolding note_all readings AllRise sum_of_last
note_all-sum_of_last c [] rise fits = omega arith
note_all-sum_of_last c (job ∷ jobs) (rises, rise) fits =
    let noted = note_job c job rises (omega (arith, fits)) in
    ap (λ d. d.total) (note_all-append c (0 ∷ job) (readings jobs))
    ∙ note_all-sum_of_last (note_all c (0 ∷ job)) jobs rise (omega (arith, noted, fits))
    ∙ sum_eq noted
  where
    sum_eq :
        (note_all c (0 ∷ job)).total ≡ c.total + last_of 0 job
        → (note_all c (0 ∷ job)).total + sum_of_last jobs
          ≡ c.total + (last_of 0 job + sum_of_last jobs)
    sum_eq noted = omega arith
