-- ===== src/Grader/Refused.antt =====
-- Submissions that do not compile: theorems on executeSubmission and compileSubmission.
use kilonova.Prelude.{
  ℕ, ◌≡◌, refl, ◌∙◌, inl, inr, true, false, none, some, List, [], ◌∷◌, arith, Bool-cases,
}
use kilonova.Status.{error_code, as_status, ok, err, statusf}
use kilonova.Decimal.{Decimal}
use kilonova.Problem.{Problem}
use kilonova.Submission.{SubTest, SubmissionUpdate, SubmissionSubTask, Status, Submission}
use kilonova.Grader.{
  State, Faults, update_submission, update_subtest, update_subtask_percentage, apply_update,
  no_update, read_subtasks, is_empty_update,
}
use kilonova.Grader.Rows.{update_subtest-submission}
use kilonova.Grader.Execute.{
  Setup, CompileResponse, mark_rows_done, fail_subtasks, compile_failed, verdict_update,
  compile_update, compile_and_judge, compiled, compile_submission, execute_body, execute_and_mark,
  execute_submission,
}
use kilonova.Grader.Finish.{mark_done, mark_subtests_done-rows}

update_subtask_percentage-ok :
    {D : Type 0} (f : Faults D) (st : State D) (i : ℕ) (p : D)
    → f.update_subtask i ≡ none
    → ((update_subtask_percentage f st i p).1 ≡ ok tt)
      × ((update_subtask_percentage f st i p).0.submission ≡ st.submission)
unfolding update_subtask_percentage
update_subtask_percentage-ok f st i p h = (ground arith, ground arith)

fail_subtasks-ok :
    {D : Type 0} (f : Faults D) (zero : D) (ks : List (SubmissionSubTask D)) (st : State D)
    → ((i : ℕ) → f.update_subtask i ≡ none)
    → ((fail_subtasks f zero st ks).1 ≡ ok tt)
      × ((fail_subtasks f zero st ks).0.submission ≡ st.submission)
unfolding fail_subtasks
fail_subtasks-ok f zero [] st h = (refl, refl)
fail_subtasks-ok f zero (k ∷ ks) st h =
    let first = update_subtask_percentage-ok f st k.id zero (h k.id) in
    let rest = fail_subtasks-ok f zero ks (update_subtask_percentage f st k.id zero).0 h in
    (ground arith, ground arith)

update_submission-ok :
    {D : Type 0} (f : Faults D) (st : State D) (u : SubmissionUpdate D)
    → f.update_submission u ≡ none
    → is_empty_update u ≡ false
    → update_submission f st u ≡ (record st { submission = apply_update u st.submission }, ok tt)
unfolding update_submission
update_submission-ok f st u h e = rw e (rw h refl)

-- The submission's row once its compile error is written down.
abbrev refused : {D : Type 0} → D → CompileResponse → Submission D → Submission D
refused points resp s =
    apply_update (verdict_update points "test_verdict.compile_error")
      (apply_update (compile_update resp) s)

compile_failed-row :
    {D : Type 0} (f : Faults D) (zero : D) (st : State D) (points : D)
    → ((u : SubmissionUpdate D) → f.update_submission u ≡ none)
    → f.read_subtasks ≡ none
    → ((i : ℕ) → f.update_subtask i ≡ none)
    → ((compile_failed f zero st points).1 ≡ err (statusf 204 "Compile failed"))
      × ((compile_failed f zero st points).0.submission
          ≡ apply_update (verdict_update points "test_verdict.compile_error") st.submission)
unfolding compile_failed is_empty_update read_subtasks
compile_failed-row f zero st points u rk h =
    let row = apply_update (verdict_update points "test_verdict.compile_error") st.submission in
    let subtasks = fail_subtasks-ok f zero st.subtasks (record st { submission = row }) h in
    let written =
      update_submission-ok f st (verdict_update points "test_verdict.compile_error") (u _) refl in
    (ground arith, ground arith)

compiled-refused :
    {D : Type 0} (f : Faults D) (zero : D) (st : State D) (points : D) (resp : CompileResponse)
    → ((u : SubmissionUpdate D) → f.update_submission u ≡ none)
    → f.read_subtasks ≡ none
    → ((i : ℕ) → f.update_subtask i ≡ none)
    → resp.success ≡ false
    → ((compiled f zero st points resp).1 ≡ err (statusf 204 "Compile failed"))
      × ((compiled f zero st points resp).0.submission ≡ refused points resp st.submission)
unfolding compiled is_empty_update
compiled-refused f zero st points resp u rk h no_success =
    let written = update_submission-ok f st (compile_update resp) (u _) refl in
    let failed =
      compile_failed-row f zero
        (record st { submission = apply_update (compile_update resp) st.submission }) points u rk
        h in
    (ground arith, ground arith)

compile_submission-requested :
    {D : Type 0} (f : Faults D) (zero : D) (env : Setup D) (st : State D) (pb : Problem D)
    (resp : CompileResponse)
    → env.compile_request ≡ ok tt
    → env.compile ≡ ok resp
    → compile_submission f zero env st pb ≡ compiled f zero st pb.default_points resp
unfolding compile_submission
compile_submission-requested f zero env st pb resp cr c = ground arith

compile_failed_code : error_code (some (statusf 204 "Compile failed")) ≡ 204
unfolding error_code statusf as_status
compile_failed_code = refl

compile_and_judge-refused :
    (d : Decimal) (f : Faults d.D) (env : Setup d.D) (st : State d.D) (pb : Problem d.D)
    → (compile_submission f (d.from_int 0) env st pb).1 ≡ err (statusf 204 "Compile failed")
    → compile_and_judge d f env pb st ≡ ((compile_submission f (d.from_int 0) env st pb).0, ok tt)
unfolding compile_and_judge
compile_and_judge-refused d f env st pb r = ground (arith, compile_failed_code)

execute_body-fetched :
    (d : Decimal) (f : Faults d.D) (env : Setup d.D) (st : State d.D) (pb : Problem d.D)
    → env.problem ≡ ok pb
    → env.settings ≡ ok tt
    → env.files ≡ ok tt
    → execute_body d f env st ≡ compile_and_judge d f env pb st
unfolding execute_body
execute_body-fetched d f env st pb p s fs = ground arith

mark_rows_done-submission :
    {D : Type 0} (f : Faults D) (rest : List (SubTest D)) (st : State D)
    → (mark_rows_done f st rest).submission ≡ st.submission
unfolding mark_rows_done mark_done
mark_rows_done-submission f [] st = refl
mark_rows_done-submission f (s ∷ rest) st = elim (Bool-cases s.done) [
  | inl old ↦ rw old (mark_rows_done-submission f rest st)
  | inr new ↦ rw new (
      mark_rows_done-submission f rest (update_subtest f st s.id mark_done).0
      ∙ update_subtest-submission f st s.id mark_done)
]

execute_and_mark-kept :
    (d : Decimal) (f : Faults d.D) (env : Setup d.D) (st : State d.D)
    → env.language_found ≡ true
    → f.read_subtests ≡ none
    → ((execute_and_mark d f env st).1 ≡ (execute_body d f env st).1)
      × ((execute_and_mark d f env st).0.submission ≡ (execute_body d f env st).0.submission)
unfolding execute_and_mark
execute_and_mark-kept d f env st l r =
    let rows = mark_subtests_done-rows f (execute_body d f env st).0 r in
    let kept =
      mark_rows_done-submission f (execute_body d f env st).0.subtests
        (execute_body d f env st).0 in
    (ground arith, ground arith)

last_update :
    {D : Type 0} (f : Faults D) (st : State D)
    → ((u : SubmissionUpdate D) → f.update_submission u ≡ none)
    → (update_submission f st (record no_update { status = Status.finished })).0.submission
      ≡ record st.submission { status = Status.finished }
unfolding update_submission is_empty_update apply_update
last_update f st u = let h = u (record no_update { status = Status.finished }) in ground arith

-- When the compiler refuses the code, the submission gets the problem's default points, the
-- verdict for compile errors and the compiler's output, and the caller sees no error. The
-- language, the problem, its settings and the files have been found, the request to the compiler
-- could be built, and the database takes the writes of the submission and of its subtasks and can
-- read its tests and subtasks.
pub compile_error_verdict :
    (d : Decimal) (f : Faults d.D) (env : Setup d.D) (st : State d.D) (pb : Problem d.D)
    (resp : CompileResponse)
    → ((u : SubmissionUpdate d.D) → f.update_submission u ≡ none)
    → f.read_subtests ≡ none
    → f.read_subtasks ≡ none
    → ((i : ℕ) → f.update_subtask i ≡ none)
    → env.language_found ≡ true
    → env.problem ≡ ok pb
    → env.settings ≡ ok tt
    → env.files ≡ ok tt
    → env.compile_request ≡ ok tt
    → env.compile ≡ ok resp
    → resp.success ≡ false
    → let (st', r) = execute_submission d f env st in
      (r ≡ ok tt)
      × (st'.submission.score ≡ pb.default_points)
      × (st'.submission.icpc_verdict ≡ some "test_verdict.compile_error")
      × (st'.submission.compile_error ≡ some true)
      × (st'.submission.compile_message ≡ some resp.output)
unfolding execute_submission apply_update
compile_error_verdict d f env st pb resp u rt rk h l p s fs cr c no_success =
    let fetched = execute_body-fetched d f env st pb p s fs in
    let requested = compile_submission-requested f (d.from_int 0) env st pb resp cr c in
    let row = compiled-refused f (d.from_int 0) st pb.default_points resp u rk h no_success in
    let stopped = compile_and_judge-refused d f env st pb (ground arith) in
    let kept = execute_and_mark-kept d f env st l rt in
    let last = last_update f (execute_and_mark d f env st).0 u in
    (ground arith, ground arith, ground arith, ground arith, ground arith)
