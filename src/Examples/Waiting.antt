-- ===== src/Examples/Waiting.antt =====
-- A queue of submissions, worked through.
use kilonova.Prelude.{
  ℕ, ◌≡◌, refl, Bool, true, false, none, some, [], ◌∷◌, arith, ◌==◌, if◌then◌else◌, inl,
}
use kilonova.Status.{plain}
use kilonova.Submission.{Status}
use kilonova.Grader.Feeder.{Row, Queue, Round, wake, ids_with, is_waiting, run_waiting, handle}
use kilonova.Grader.Feeder.Ids.{without_all, ran, run_waiting-ids}
use kilonova.Grader.Feeder.Draining.{IsQuiet}
use kilonova.Grader.Feeder.Rounds.{waiting_ids, reevaling_ids, handle-drains}
use kilonova.Grader.Feeder.Steps.{step, end_execution, with_status}
use kilonova.Grader.Feeder.Waking.{
  submit, submitted, here, happened, stepped, IsAttended, Reach-IsAttended,
}

abbrev row : ℕ → Status → Row
row id s = record { id = id; status = s }

abbrev night : Queue
night = record {
  rows =
      row 3 Status.finished
      ∷ row 5 Status.waiting
      ∷ row 6 Status.reevaling
      ∷ row 9 Status.waiting
      ∷ [];
  token = true;
}

abbrev quiet_round : Round
quiet_round = record {
  waiting_error = none;
  reevaling_error = none;
  working_error = λ id. none;
  finishes = λ id. true;
  reset_error = λ id. none;
}

quiet_round-IsQuiet : IsQuiet quiet_round
quiet_round-IsQuiet = record {
  waiting_error = refl;
  reevaling_error = refl;
  working_error = λ id. refl;
  reset_error = λ id. refl;
}

-- Five loses its connection.
abbrev bad_round : Round
bad_round = record quiet_round {
  working_error = λ id. if id == 5 then some (plain "conn closed") else none;
}

run_waiting-ids_example :
    ids_with is_waiting (run_waiting bad_round (5 ∷ 9 ∷ []) night).rows
    ≡ without_all (ran bad_round (5 ∷ 9 ∷ [])) (ids_with is_waiting night.rows)
run_waiting-ids_example = run_waiting-ids bad_round (5 ∷ 9 ∷ []) is_waiting night refl refl

bad_round_test : ids_with is_waiting (run_waiting bad_round (5 ∷ 9 ∷ []) night).rows ≡ 5 ∷ []
unfolding run_waiting
bad_round_test = refl

abbrev morning : Queue
morning = record { rows = row 3 Status.finished ∷ row 5 Status.waiting ∷ []; token = true }

handle-drains_example :
    ((handle (λ n. quiet_round) 4 night).token ≡ false)
    × (waiting_ids (handle (λ n. quiet_round) 4 night) ≡ [])
    × (reevaling_ids (handle (λ n. quiet_round) 4 night) ≡ [])
handle-drains_example =
    handle-drains 4 (λ n. quiet_round) night (λ n. quiet_round-IsQuiet) refl (omega arith)

-- A submission arrives after the loop has read the rows.
abbrev woken_again : Queue
unfolding submit
woken_again = submit 12 (record morning { token = false })

abbrev all_finish : ℕ → Bool
all_finish id = true

abbrev after_round : Queue
unfolding woken_again with_status
after_round = with_status 5 Status.finished (with_status 5 Status.working woken_again)

Reach-IsAttended_example : IsAttended after_round
unfolding after_round woken_again step end_execution with_status submit wake
Reach-IsAttended_example =
    Reach-IsAttended {start = morning} {q = after_round}
      (stepped
        (stepped
          (stepped
            (stepped
              (stepped
                (happened (stepped (stepped here all_finish) all_finish)
                  (submitted (record morning { token = false }) 12))
                all_finish)
              all_finish)
            all_finish)
          all_finish)
        all_finish)
      (inl refl)
