-- ===== src/Grader/Feeder/Undisturbed.antt =====
-- A round of eval/grader/feeder.go that nobody disturbs: the steps of the loop add up to the round as
-- one function.
use kilonova.Prelude.{ℕ, ◌≡◌, refl, sym, subst, ◌∙◌, Bool, true, false, List, [], ◌∷◌, arith}
use kilonova.Submission.{Status}
use kilonova.Grader.Feeder.{
  Row, Queue, Round, set_status, wake, run_submission, run_waiting, run_reeval, run_reevals,
  waiting_pass, reeval_pass, handle_wake,
}
use kilonova.Grader.Feeder.Ids.{run_reeval-ok}
use kilonova.Grader.Feeder.Draining.{IsQuiet}
use kilonova.Grader.Feeder.Steps.{
  idle, reading, running, resetting, Loop, at, with_status, end_execution, step,
}
use kilonova.Grader.Feeder.Waking.{Reach, here, stepped}

set_status-twice :
    (id : ℕ) (s t : Status) (rows : List Row)
    → set_status id t (set_status id s rows) ≡ set_status id t rows
set_status-twice id s t [] = refl
set_status-twice id s t (r ∷ rows) = let rest = set_status-twice id s t rows in ground arith

module _ (round : Round) (quiet : IsQuiet round) where
  run_submission-execution :
      (id : ℕ) (q : Queue)
      → run_submission round id q
        ≡ end_execution round.finishes id (with_status id Status.working q)
  unfolding run_submission end_execution with_status
  run_submission-execution id q =
      let written = quiet.working_error id in
      let twice = set_status-twice id Status.working Status.working q.rows in ground arith

  run_waiting-Reach :
      {start : Loop} (ids : List ℕ) (rewake : Bool) (q : Queue)
      → Reach start (at (running ids rewake) q)
      → Reach start (at (running [] rewake) (run_waiting round ids q))
  unfolding run_waiting step
  run_waiting-Reach [] rewake q reached = reached
  run_waiting-Reach {start = start} (id ∷ ids) rewake q reached =
      run_waiting-Reach ids rewake (run_submission round id q) (
        subst (λ r. Reach start (at (running ids rewake) r)) (sym (run_submission-execution id q))
          (stepped (stepped reached round.finishes) round.finishes))

  run_reevals-Reach :
      {start : Loop} (ids : List ℕ) (rewake : Bool) (q : Queue)
      → Reach start (at (resetting ids rewake) q)
      → Reach start (at (resetting [] rewake) (run_reevals round ids q))
  unfolding run_reevals step with_status
  run_reevals-Reach [] rewake q reached = reached
  run_reevals-Reach {start = start} (id ∷ ids) rewake q reached =
      let reset = wake (record q { rows = set_status id Status.waiting q.rows }) in
      let same =
        run_reeval-ok round id q (quiet.reset_error id) ∙ run_submission-execution id reset in
      run_reevals-Reach ids rewake (run_reeval round id q) (
        subst (λ r. Reach start (at (resetting ids rewake) r)) (sym same)
          (stepped (stepped (stepped reached round.finishes) round.finishes) round.finishes))

  step-woken :
      (q : Queue)
      → q.token ≡ true
      → step round.finishes idle q ≡ at reading (record q { token = false })
  unfolding step
  step-woken q h = simp (h)

  -- A round that starts with a token, and in which no call fails and nothing else happens, does what
  -- the steps of the loop do from one idle phase to the next.
  pub handle_wake-Reach :
      (q : Queue) → q.token ≡ true → Reach (at idle q) (at idle (handle_wake round q))
  unfolding handle_wake waiting_pass reeval_pass step
  handle_wake-Reach q woken =
      let started = subst (Reach (at idle q)) (step-woken q woken) (stepped here round.finishes) in
      let first = run_waiting-Reach _ _ _ (stepped started round.finishes) in
      let second =
        run_reevals-Reach _ _ _ (stepped (stepped first round.finishes) round.finishes) in
      rw (quiet.waiting_error, quiet.reevaling_error) (stepped second round.finishes)
