-- ===== src/Grader/Subtest.antt =====
-- Grading one test of a submission (grader.go: handleSubTest, handleBatchSubTest,
-- handleCommunicationSubTest). Running a program and its checker is the environment's: each test's
-- outcome is given, whatever the other tests do.
use kilonova.Prelude.{
  ℕ, Bool, true, false, not, ◌||◌, none, some, String, ltb, if◌then◌else◌, str_eq,
}
use kilonova.Prelude.Text.{contains_text}
use kilonova.Status.{plain, wrapped, Result, ok, err, statusf}
use kilonova.Decimal.{Decimal}
use kilonova.Problem.{Problem, TaskType}
use kilonova.Submission.{SubTest, SubTestUpdate, EvalType}
use kilonova.Grader.{State, Faults, update_subtest, no_subtest_update}

pub record BatchResponse : Type 0 where
  pub time : ℕ
  pub memory : ℕ
  pub comments : String

pub record SubtestOutput (D : Type 0) : Type 0 where
  pub memory : ℕ
  pub time : ℕ
  pub comments : String
  pub score : D

-- What the sandbox and the checker answer, by subtest id and test id.
pub record Judge (D : Type 0) : Type 0 where
  pub execute_batch : ℕ → ℕ → Result BatchResponse
  pub run_checker : ℕ → ℕ → String × D
  -- checker.Language() is not nil.
  pub has_checker_language : Bool
  pub execute_communication : ℕ → ℕ → Result (SubtestOutput D)

abbrev pub is_icpc : EvalType → Bool
is_icpc EvalType.icpc = true
is_icpc _ = false

module _ (d : Decimal) (j : Judge d.D) (pb : Problem d.D) where
  -- `if resp.Time > TimeLimit { resp.Time = TimeLimit; resp.Comments = "translate:timeout" }`
  unfoldable pub clamp_time : BatchResponse → BatchResponse
  clamp_time r =
      if ltb pb.time_limit r.time
      then record r { time = pb.time_limit; comments = "translate:timeout" }
      else r

  unfoldable pub checked : ℕ → ℕ → BatchResponse → SubtestOutput d.D
  checked sid tid r =
      if str_eq r.comments ""
      then record {
        memory = r.memory;
        time = r.time;
        comments = (j.run_checker sid tid).0;
        score = (j.run_checker sid tid).1;
      }
      else record { memory = r.memory; time = r.time; comments = r.comments; score = d.from_int 0 }

  unfoldable pub handle_batch_sub_test : ℕ → ℕ → Result (SubtestOutput d.D)
  unfolding clamp_time checked
  handle_batch_sub_test sid tid = elim (j.execute_batch sid tid) [
    | err e ↦ err (wrapped "couldn't execute subtest: %w" e)
    | ok r ↦ ok (checked sid tid (clamp_time r))
  ]

  unfoldable pub handle_communication_sub_test : ℕ → ℕ → Result (SubtestOutput d.D)
  handle_communication_sub_test sid tid =
      if not j.has_checker_language
      then err (plain "checker language not found")
      else elim (j.execute_communication sid tid) [
        | err e ↦ err (wrapped "couldn't execute subtest: %w" e)
        | ok o ↦ ok (
            if ltb pb.time_limit o.time
            then record o { time = pb.time_limit; comments = "translate:timeout" }
            else o)
      ]

  unfoldable pub run_by_task : TaskType → ℕ → ℕ → Result (SubtestOutput d.D)
  unfolding handle_batch_sub_test handle_communication_sub_test
  run_by_task TaskType.batch sid tid = handle_batch_sub_test sid tid
  run_by_task TaskType.ai sid tid = handle_batch_sub_test sid tid
  run_by_task TaskType.communication sid tid = handle_communication_sub_test sid tid
  run_by_task TaskType.none_given sid tid = err (plain "invalid task type")
  run_by_task (TaskType.other t) sid tid = err (plain "invalid task type")

  -- ICPC submissions do not see signals.
  unfoldable pub hide_signals : Bool → String → String
  hide_signals icpc c =
      if not icpc
      then c
      else let c' = (if contains_text c "signal 9" then "translate:memory_limit" else c) in
        if contains_text c' "Caught fatal signal" || contains_text c' "Exited with error status"
        then "translate:runtime_error"
        else c'

  -- What one test gives, before it is written down.
  unfoldable pub judged : EvalType → SubTest d.D → Result (SubtestOutput d.D)
  unfolding run_by_task hide_signals
  judged kind t = elim t.test_id [
    | none ↦
        err (statusf 400 "Trying to handle subtest whose test was purged. This should never happen")
    | some tid ↦ elim (run_by_task pb.task_type t.id tid) [
      | err e ↦ err e
      | ok o ↦ ok (record o { comments = hide_signals (is_icpc kind) o.comments })
    ]
  ]

  unfoldable pub output_update : SubtestOutput d.D → SubTestUpdate d.D
  output_update o = record no_subtest_update {
    memory = some o.memory;
    percentage = some o.score;
    time = some o.time;
    verdict = some o.comments;
    done = some true;
  }

  unfoldable pub handle_sub_test :
      Faults d.D → State d.D → SubTest d.D → State d.D × Result (d.D × String)
  handle_sub_test f st t = elim (judged st.submission.submission_type t) [
    | err e ↦ (st, err e)
    | ok o ↦
        let (st', r) = update_subtest f st t.id (output_update o) in
        elim r [
          | err e ↦ (st', err (wrapped "error during evaltest updating: %w" e))
          | ok u ↦ (st', ok (o.score, o.comments))
        ]
  ]
