-- ===== src/Session/Tests.antt =====
-- Two jobs, of which the second counts from 0 again, and a session that starts again.
use dvbt_rx.Base.{ℕ, ◌+◌, ◌≡◌, arith, refl, List, [], ◌∷◌, true}
use dvbt_rx.Session.{new_counter, Session, start}
use dvbt_rx.Session.Totals.{
  note_all, readings, Rises, AllRise, sum_of_last, last_of, note_all-sum_of_last,
}

abbrev two_jobs : List (List ℕ)
two_jobs = (5 ∷ 9 ∷ []) ∷ (3 ∷ 4 ∷ 12 ∷ []) ∷ []

note_all-sum_of_last_example : (note_all new_counter (readings two_jobs)).total ≡ 0 + 21
unfolding AllRise Rises sum_of_last last_of
note_all-sum_of_last_example =
    note_all-sum_of_last new_counter two_jobs
      ((omega arith, (omega arith, tt)), ((omega arith, (omega arith, (omega arith, tt))), tt))
      (omega arith)

started_twice :
    (s : Session) → (start (record s { valid = true; session_id = 4294967295 }) 7).session_id ≡ 1
unfolding start
started_twice s = refl
