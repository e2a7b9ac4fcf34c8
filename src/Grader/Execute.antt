-- ===== src/Grader/Execute.antt =====
-- One submission from the queue to its last write (grader.go: executeSubmission, compileSubmission,
-- markSubtestsDone). What is fetched or run on the way is the environment's.
use kilonova.Prelude.{
  ℕ, Bool, true, not, Option, none, some, List, [], ◌∷◌, String, ◌==◌, if◌then◌else◌,
}
use kilonova.Prelude.Text.{◌⧺◌}
use kilonova.Status.{GoError, plain, wrapped, Result, ok, err, statusf, error_code}
use kilonova.Decimal.{Decimal}
use kilonova.Problem.{Problem}
use kilonova.Submission.{SubTest, SubmissionSubTask, SubmissionUpdate, Status, EvalType}
use kilonova.Grader.{
  State, Faults, update_submission, update_subtest, update_subtask_percentage, read_subtests,
  read_subtasks, no_update, no_subtest_update,
}
use kilonova.Grader.Subtest.{Judge}
use kilonova.Grader.Score.{handle_classic_submission}
use kilonova.Grader.Icpc.{handle_icpc_submission}

pub record CompileResponse : Type 0 where
  pub success : Bool
  pub output : String
  pub stats_time : Option ℕ

-- What the steps of executeSubmission fetch or run.
pub record Setup (D : Type 0) : Type 0 where
  -- langMgr.Language, or outputOnly for the language "ai", is not nil.
  pub language_found : Bool
  pub problem : Result (Problem D)
  pub settings : Result (Unit {0})
  pub files : Result (Unit {0})
  pub compile_request : Result (Unit {0})
  pub compile : Result CompileResponse
  pub checker : Result (Unit {0})
  -- checker.Prepare's message and error.
  pub prepare : Option (String × GoError)
  pub judge : Judge D

abbrev pub verdict_update : {D : Type 0} → D → String → SubmissionUpdate D
verdict_update score verdict = record no_update {
  status = Status.finished;
  score = some score;
  change_verdict = true;
  icpc_verdict = some verdict;
}

abbrev pub compile_update : {D : Type 0} → CompileResponse → SubmissionUpdate D
compile_update resp = record no_update {
  compile_error = some (not resp.success);
  compile_message = some resp.output;
  compile_time = resp.stats_time;
}

module _ {D : Type 0} (f : Faults D) where
  unfoldable pub mark_rows_done : State D → List (SubTest D) → State D
  mark_rows_done st [] = st
  mark_rows_done st (t ∷ ts) =
      mark_rows_done
        (if t.done
          then st
          else (update_subtest f st t.id (record no_subtest_update { done = some true })).0)
        ts

  unfoldable pub mark_subtests_done : State D → State D × Result (Unit {0})
  unfolding mark_rows_done
  mark_subtests_done st = elim (read_subtests f st) [
    | err e ↦ (st, err (wrapped "error during getting subtests: %w" e))
    | ok sts ↦ (mark_rows_done st sts, ok tt)
  ]

  -- The loop that gives every subtask the percentage 0 stops at the first write that fails.
  unfoldable pub fail_subtasks :
      D → State D → List (SubmissionSubTask D) → State D × Result (Unit {0})
  fail_subtasks zero st [] = (st, ok tt)
  fail_subtasks zero st (k ∷ ks) =
      let rest = fail_subtasks zero (update_subtask_percentage f st k.id zero).0 ks in
      elim (update_subtask_percentage f st k.id zero).1 [
        | err e ↦ (
          (update_subtask_percentage f st k.id zero).0,
          err (wrapped "couldn't finish subtasks: %w" e),
        )
        | ok u ↦ rest
      ]

  -- A compile error ends by the status error 204, which the caller takes for success.
  unfoldable pub compile_failed : D → State D → D → State D × Result (Unit {0})
  unfolding fail_subtasks
  compile_failed zero st default_points =
      let (st', r) =
        update_submission f st (verdict_update default_points "test_verdict.compile_error") in
      elim r [
        | err e ↦ (st', err (wrapped "couldn't finalize submission with compiler error: %w" e))
        | ok u ↦ elim (read_subtasks f st') [
          | err e ↦ (st', err (wrapped "couldn't get submission subtasks: %w" e))
          | ok stks ↦
              let (st'', r') = fail_subtasks zero st' stks in
              elim r' [ err e ↦ (st'', err e) | ok u' ↦ (st'', err (statusf 204 "Compile failed")) ]
        ]
      ]

  unfoldable pub compiled : D → State D → D → CompileResponse → State D × Result (Unit {0})
  unfolding compile_failed
  compiled zero st default_points resp =
      let (st', r) = update_submission f st (compile_update resp) in
      elim r [
        | err e ↦ (st', err (wrapped "couldn't update submission: %w" e))
        | ok u ↦ if not resp.success then compile_failed zero st' default_points else (st', ok tt)
      ]

  unfoldable pub compile_submission :
      D → Setup D → State D → Problem D → State D × Result (Unit {0})
  unfolding compiled
  compile_submission zero env st pb = elim env.compile_request [
    | err e ↦ (st, err (wrapped "couldn't generate compilation request: %w" e))
    | ok u ↦ elim env.compile [
      | err e ↦ (st, err (wrapped "error from eval: %w" e))
      | ok resp ↦ compiled zero st pb.default_points resp
    ]
  ]

-- `if err := UpdateSubmission(…); err != nil { return … }; return …`
abbrev pub then_report {ℓ} :
    {S : Type ℓ} → S × Result (Unit {0}) → String → GoError → S × Result (Unit {0})
then_report (st, err e) text error = (st, err (wrapped text e))
then_report (st, ok u) text error = (st, err error)

module _ (d : Decimal) (f : Faults d.D) (env : Setup d.D) where
  unfoldable pub judge_all :
      Problem d.D → EvalType → State d.D → List (SubTest d.D) → State d.D × Result (Unit {0})
  judge_all pb EvalType.classic st tests = handle_classic_submission d f env.judge pb st tests
  judge_all pb EvalType.icpc st tests = handle_icpc_submission d f env.judge pb st tests
  judge_all pb EvalType.none_given st tests = (st, err (plain "invalid eval type"))
  judge_all pb (EvalType.other t) st tests = (st, err (plain "invalid eval type"))

  unfoldable pub fetch_and_judge : Problem d.D → State d.D → State d.D × Result (Unit {0})
  unfolding judge_all
  fetch_and_judge pb st = elim (read_subtests f st) [
    | err e ↦
        then_report
          (update_submission f st (verdict_update pb.default_points "test_verdict.internal_error"))
          "could not update submission after subtest fetch fail: %w"
          (wrapped "could not fetch subtests: %w" e)
    | ok tests ↦ judge_all pb st.submission.submission_type st tests
  ]

  unfoldable pub after_compile : Problem d.D → State d.D → State d.D × Result (Unit {0})
  unfolding fetch_and_judge
  after_compile pb st = elim env.checker [
    | err e ↦ (st, err (wrapped "couldn't get checker: %w" e))
    | ok u ↦ elim env.prepare [
      | some (info, e) ↦
          then_report
            (update_submission f st
              (record (verdict_update pb.default_points "test_verdict.internal_error") {
                compile_error = some true;
                compile_message = some ("Checker compile error:\n" ⧺ info);
              }))
            "error during update of compile information: %w"
            (wrapped "could not prepare checker: %w" e)
      | none ↦ fetch_and_judge pb st
    ]
  ]

  unfoldable pub compile_and_judge : Problem d.D → State d.D → State d.D × Result (Unit {0})
  unfolding after_compile
  compile_and_judge pb st =
      let (st', r) = compile_submission f (d.from_int 0) env st pb in
      elim r [
        | err e ↦ if not (error_code (some e) == 204) then (st', err e) else (st', ok tt)
        | ok u ↦ after_compile pb st'
      ]

  -- The body behind the test for the language.
  unfoldable pub execute_body : State d.D → State d.D × Result (Unit {0})
  unfolding compile_and_judge
  execute_body st = elim env.problem [
    | err e ↦ (st, err (wrapped "couldn't get submission problem: %w" e))
    | ok pb ↦ elim env.settings [
      | err e ↦ (st, err (wrapped "couldn't get problem settings: %w" e))
      | ok u ↦ elim env.files [
        | err e ↦ (st, err (wrapped "couldn't get submission files: %w" e))
        | ok u' ↦ compile_and_judge pb st
      ]
    ]
  ]

  -- The body and the first of the deferred calls, which marks the tests done once the language has
  -- been found.
  unfoldable pub execute_and_mark : State d.D → State d.D × Result (Unit {0})
  execute_and_mark st =
      if not env.language_found
      then (st, err (plain "language not found for submission"))
      else ((mark_subtests_done f (execute_body st).0).0, (execute_body st).1)

  -- The other deferred call runs last, and marks the submission finished.
  unfoldable pub execute_submission : State d.D → State d.D × Result (Unit {0})
  execute_submission st =
      let (st', r) = execute_and_mark st in
      ((update_submission f st' (record no_update { status = Status.finished })).0, r)
