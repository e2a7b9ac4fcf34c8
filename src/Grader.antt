-- ===== src/Grader.antt =====
-- The rows that grading one submission reads and writes, and what stands outside the grader: the
-- sandbox, the checker and the database's faults (eval/grader/grader.go over db/submission.go,
-- db/subtest.go and db/sub_subtask.go).
pub mod Subtest
pub mod Rows
pub mod Score
pub mod Groups
pub mod Total
pub mod Icpc
pub mod IcpcVerdict
pub mod Execute
pub mod Finish
pub mod Refused
pub mod Feeder
use kilonova.Prelude.{
  ℕ, Bool, true, false, not, ◌||◌, Option, none, some, List, [], ◌∷◌, String, ◌==◌, if◌then◌else◌,
  is_some,
}
use kilonova.Status.{GoError, wrapped, Result, ok, err, err_no_updates}
use kilonova.Submission.{
  Submission, SubTest, SubmissionSubTask, SubmissionUpdate, SubTestUpdate, Status,
}

-- The rows of one submission.
pub record State (D : Type 0) : Type 0 where
  pub submission : Submission D
  pub subtests : List (SubTest D)
  pub subtasks : List (SubmissionSubTask D)

-- What the database reports for each statement on them.
pub record Faults (D : Type 0) : Type 0 where
  -- By the update: the writes of the submission's row in one run all differ.
  pub update_submission : SubmissionUpdate D → Option GoError
  pub read_subtests : Option GoError
  pub read_subtasks : Option GoError
  pub update_subtest : ℕ → Option GoError
  pub update_subtask : ℕ → Option GoError

abbrev pub or_old {ℓ} : {A : Type ℓ} → Option A → A → A
or_old none a = a
or_old (some b) a = b

abbrev pub or_keep {ℓ} : {A : Type ℓ} → Option A → Option A → Option A
or_keep none o = o
or_keep (some b) o = some b

abbrev pub status_given : Status → Bool
status_given Status.none_given = false
status_given _ = true

-- subUpdateQuery's list of columns is empty.
unfoldable pub is_empty_update : {D : Type 0} → SubmissionUpdate D → Bool
is_empty_update u = not (
    status_given u.status
    || is_some u.score
    || u.change_verdict
    || is_some u.compile_error
    || is_some u.compile_message
    || is_some u.compile_time
    || is_some u.max_time
    || is_some u.max_memory)

unfoldable pub apply_update : {D : Type 0} → SubmissionUpdate D → Submission D → Submission D
apply_update u s = record s {
  status = if status_given u.status then u.status else s.status;
  score = or_old u.score s.score;
  icpc_verdict = if u.change_verdict then u.icpc_verdict else s.icpc_verdict;
  compile_error = or_keep u.compile_error s.compile_error;
  compile_message = or_keep u.compile_message s.compile_message;
  compile_time = or_keep u.compile_time s.compile_time;
  max_time = or_old u.max_time s.max_time;
  max_memory = or_old u.max_memory s.max_memory;
}

unfoldable pub update_submission :
    {D : Type 0} → Faults D → State D → SubmissionUpdate D → State D × Result (Unit {0})
unfolding apply_update
update_submission f st u =
    if is_empty_update u
    then (st, err (wrapped "couldn't update submission: %w" err_no_updates))
    else elim (f.update_submission u) [
      | some e ↦ (st, err (wrapped "couldn't update submission: %w" e))
      | none ↦ (record st { submission = apply_update u st.submission }, ok tt)
    ]

unfoldable pub apply_subtest_update : {D : Type 0} → SubTestUpdate D → SubTest D → SubTest D
apply_subtest_update u t = record t {
  memory = or_old u.memory t.memory;
  percentage = or_old u.percentage t.percentage;
  time = or_old u.time t.time;
  verdict = or_old u.verdict t.verdict;
  done = or_old u.done t.done;
  skipped = or_old u.skipped t.skipped;
}

unfoldable pub update_rows :
    {D : Type 0} → ℕ → SubTestUpdate D → List (SubTest D) → List (SubTest D)
update_rows i u [] = []
update_rows i u (t ∷ ts) = (if t.id == i then apply_subtest_update u t else t) ∷ update_rows i u ts

unfoldable pub is_empty_subtest_update : {D : Type 0} → SubTestUpdate D → Bool
is_empty_subtest_update u = not (
    is_some u.memory
    || is_some u.percentage
    || is_some u.time
    || is_some u.verdict
    || is_some u.done
    || is_some u.skipped)

unfoldable pub update_subtest :
    {D : Type 0} → Faults D → State D → ℕ → SubTestUpdate D → State D × Result (Unit {0})
update_subtest f st i u =
    if is_empty_subtest_update u
    then (st, err (wrapped "couldn't update subtest: %w" err_no_updates))
    else elim (f.update_subtest i) [
      | some e ↦ (st, err (wrapped "couldn't update subtest: %w" e))
      | none ↦ (record st { subtests = update_rows i u st.subtests }, ok tt)
    ]

-- UPDATE submission_subtasks SET final_percentage = $1 WHERE id = $2
unfoldable pub set_percentage :
    {D : Type 0} → ℕ → D → List (SubmissionSubTask D) → List (SubmissionSubTask D)
set_percentage i p [] = []
set_percentage i p (k ∷ ks) =
    (if k.id == i then record k { final_percentage = some p } else k) ∷ set_percentage i p ks

unfoldable pub update_subtask_percentage :
    {D : Type 0} → Faults D → State D → ℕ → D → State D × Result (Unit {0})
update_subtask_percentage f st i p = elim (f.update_subtask i) [
  | some e ↦ (st, err (wrapped "couldn't update subtask percentage: %w" e))
  | none ↦ (record st { subtasks = set_percentage i p st.subtasks }, ok tt)
]

-- SubTests and SubmissionSubTasks.
unfoldable pub read_subtests : {D : Type 0} → Faults D → State D → Result (List (SubTest D))
read_subtests f st = elim f.read_subtests [
  | some e ↦ err (wrapped "couldn't get subtests: %w" e)
  | none ↦ ok st.subtests
]

unfoldable pub read_subtasks :
    {D : Type 0} → Faults D → State D → Result (List (SubmissionSubTask D))
read_subtasks f st = elim f.read_subtasks [
  | some e ↦ err (wrapped "couldn't get submission subtasks: %w" e)
  | none ↦ ok st.subtasks
]

-- An update that names no column.
abbrev pub no_update : {D : Type 0} → SubmissionUpdate D
no_update = record {
  status = Status.none_given;
  score = none;
  compile_error = none;
  compile_message = none;
  compile_time = none;
  max_time = none;
  max_memory = none;
  change_verdict = false;
  icpc_verdict = none;
}

abbrev pub no_subtest_update : {D : Type 0} → SubTestUpdate D
no_subtest_update = record {
  memory = none;
  time = none;
  percentage = none;
  verdict = none;
  done = none;
  skipped = none;
}
