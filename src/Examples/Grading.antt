-- ===== src/Examples/Grading.antt =====
-- The theorems on grading at a submission with three tests.
use mathlib.Core.List.{Permᴰ}
use kilonova.Prelude.{
  ℕ, ◌≤◌, ◌*◌, ◌≡◌, refl, true, false, none, some, is_some, if◌then◌else◌, Option, List, [], ◌∷◌,
  String, All, arith,
}
use kilonova.Status.{ok, err, plain}
use kilonova.Submission.{SubTest, SubmissionSubTask, Status, EvalType}
use kilonova.Grader.{State, Faults}
use kilonova.Grader.Subtest.{Judge}
use kilonova.Grader.Score.{score_tests, subtask_percentage, handle_classic_submission}
use kilonova.Grader.Groups.{IsGroupMin, subtask_percentage-IsGroupMin}
use kilonova.Grader.Total.{sum_from, score_parts, score_tests-sum}
use kilonova.Grader.Rows.{classic_schedule_independent}
use kilonova.Grader.Icpc.{handle_icpc_submission}
use kilonova.Grader.IcpcVerdict.{first_failure, verdict_of, icpc_first_failure}
use kilonova.Grader.Execute.{Setup, CompileResponse, execute_submission}
use kilonova.Grader.Finish.{executed_is_finished, executed_tests_are_done}
use kilonova.Grader.Refused.{compile_error_verdict}
use kilonova.Examples.Data.{fixed_point, fixed_point_laws, sums, sent, test_row}

abbrev no_faults : Faults ℕ
no_faults = record {
  update_submission = λ u. none;
  read_subtests = none;
  read_subtasks = none;
  update_subtest = λ i. none;
  update_subtask = λ i. none;
}

-- Every write of a score is refused.
abbrev refused_scores : Faults ℕ
refused_scores = record no_faults {
  update_submission = λ u. if is_some u.score then some (plain "refused") else none;
}

abbrev rows : List (SubTest ℕ)
rows = test_row 1 0 ∷ test_row 2 0 ∷ test_row 3 0 ∷ []

abbrev scored_rows : List (SubTest ℕ)
scored_rows = test_row 1 1_000_000 ∷ test_row 2 400_000 ∷ test_row 3 700_000 ∷ []

abbrev subtask : SubmissionSubTask ℕ
subtask = record {
  id = 1;
  submission_id = 500;
  score = 300_000;
  final_percentage = none;
  subtests = 1 ∷ 2 ∷ [];
}

abbrev start : State ℕ
start = record { submission = sent; subtests = rows; subtasks = subtask ∷ [] }

abbrev icpc_start : State ℕ
icpc_start = record start { submission = record sent { submission_type = EvalType.icpc } }

-- The second test times out.
abbrev slow_second : Judge ℕ
slow_second = record {
  execute_batch = λ sid tid. ok (record { time = sid * 600; memory = 100; comments = "" });
  run_checker = λ sid tid. ("translate:success", 1_000_000);
  has_checker_language = true;
  execute_communication = λ sid tid. err (plain "no sandbox");
}

abbrev no_sandbox : Judge ℕ
no_sandbox = record slow_second { execute_batch = λ sid tid. err (plain "no sandbox") }

abbrev refusing_compiler : CompileResponse
refusing_compiler = record { success = false; output = "expected ;"; stats_time = none }

abbrev setup : Setup ℕ
setup = record {
  language_found = true;
  problem = ok sums;
  settings = ok tt;
  files = ok tt;
  compile_request = ok tt;
  compile = ok refusing_compiler;
  checker = ok tt;
  prepare = none;
  judge = slow_second;
}

subtask_percentage-IsGroupMin_example :
    IsGroupMin fixed_point fixed_point_laws scored_rows
      (1 ∷ 2 ∷ [])
      (subtask_percentage fixed_point scored_rows subtask)
subtask_percentage-IsGroupMin_example =
    subtask_percentage-IsGroupMin fixed_point fixed_point_laws scored_rows subtask (λ e. cc)

classic_schedule_independent_example :
    handle_classic_submission fixed_point no_faults slow_second sums start
      (test_row 1 0 ∷ test_row 2 0 ∷ test_row 3 0 ∷ [])
    ≡ handle_classic_submission fixed_point no_faults slow_second sums start
        (test_row 2 0 ∷ test_row 1 0 ∷ test_row 3 0 ∷ [])
classic_schedule_independent_example =
    classic_schedule_independent fixed_point no_faults slow_second sums
      (test_row 1 0 ∷ test_row 2 0 ∷ test_row 3 0 ∷ [])
      (test_row 2 0 ∷ test_row 1 0 ∷ test_row 3 0 ∷ []) start (Permᴰ.swap refl refl)
      ((λ e. omega arith, (λ e. omega arith, tt)), ((λ e. omega arith, tt), (tt, tt)))

icpc_first_failure_example :
    let row =
      (handle_icpc_submission fixed_point no_faults slow_second sums icpc_start
        rows).0.submission in
    ◌≡◌ {A = ℕ × Option String}
      (row.score, row.icpc_verdict)
      (verdict_of fixed_point slow_second sums
        (first_failure fixed_point slow_second sums EvalType.icpc rows))
icpc_first_failure_example =
    icpc_first_failure fixed_point no_faults slow_second sums icpc_start rows (λ u. refl) refl
      (λ i. refl)

executed_is_finished_example :
    (execute_submission fixed_point refused_scores setup start).0.submission.status
    ≡ Status.finished
executed_is_finished_example = executed_is_finished fixed_point refused_scores setup start refl

executed_tests_are_done_example :
    All (λ t. t.done ≡ true) (execute_submission fixed_point no_faults setup start).0.subtests
executed_tests_are_done_example =
    executed_tests_are_done fixed_point no_faults setup start refl refl (λ i. refl)

compile_error_verdict_example :
    let (st', r) = execute_submission fixed_point no_faults setup start in
    (r ≡ ok tt)
    × (st'.submission.score ≡ sums.default_points)
    × (st'.submission.icpc_verdict ≡ some "test_verdict.compile_error")
    × (st'.submission.compile_error ≡ some true)
    × (st'.submission.compile_message ≡ some "expected ;")
compile_error_verdict_example =
    compile_error_verdict fixed_point no_faults setup start sums refusing_compiler (λ u. refl) refl
      refl (λ i. refl) refl refl refl refl refl refl refl

abbrev scored : State ℕ
scored = record start { subtests = scored_rows }

score_tests-sum_example :
    let row = (score_tests fixed_point no_faults sums scored).0.submission in
    (row.status ≡ Status.finished)
    × (row.score
        ≡ sum_from fixed_point sums 0 (score_parts fixed_point sums scored_rows (subtask ∷ [])))
    × All (λ t. t.memory ≤ row.max_memory) scored_rows
    × All (λ t. t.time ≤ row.max_time) scored_rows
score_tests-sum_example = score_tests-sum fixed_point sums no_faults scored (λ u. refl) refl refl
