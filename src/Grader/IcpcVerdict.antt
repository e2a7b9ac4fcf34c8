-- ===== src/Grader/IcpcVerdict.antt =====
-- The verdict of handleICPCSubmission, against a description by the tests' outcomes.
use kilonova.Prelude.{
  ℕ, ◌≡◌, refl, ◌∙◌, ap, Bool, true, false, not, Option, none, some, List, [], ◌∷◌, String, arith,
  is_some, All, if◌then◌else◌, inl, inr,
}
use kilonova.Status.{GoError, ok, err, is_ok, Result-cases}
use kilonova.Decimal.{Decimal}
use kilonova.Problem.{Problem}
use kilonova.Submission.{SubTest, SubmissionUpdate, Status, EvalType}
use kilonova.Grader.{
  State, Faults, update_submission, update_subtest, is_empty_subtest_update, or_old, read_subtests,
  no_update, is_empty_update, apply_update,
}
use kilonova.Grader.Subtest.{Judge, judged, handle_sub_test, output_update, SubtestOutput}
use kilonova.Grader.Score.{max_time_from, max_memory_from}
use kilonova.Grader.Rows.{update_subtest-submission}
use kilonova.Grader.Icpc.{
  skip_test, with_failure, after_test, icpc_loop, finish_icpc, handle_icpc_submission,
  failed_verdict, accepted_verdict,
}

module _ (d : Decimal) (j : Judge d.D) (pb : Problem d.D) where
  -- The first test that was judged, and judged to something else than 100.
  unfoldable pub first_failure :
      EvalType → List (SubTest d.D) → Option (SubTest d.D × SubtestOutput d.D)
  first_failure kind [] = none
  first_failure kind (t ∷ ts) =
      let rest = first_failure kind ts in
      elim (judged d j pb kind t) [
        | err e ↦ rest
        | ok o ↦ if not (d.equal o.score (d.from_int 100)) then some (t, o) else rest
      ]

  -- The score and the verdict that follow from it.
  unfoldable pub verdict_of : Option (SubTest d.D × SubtestOutput d.D) → d.D × Option String
  verdict_of none = (d.from_int 100, some accepted_verdict)
  verdict_of (some (t, o)) = (pb.default_points, some (failed_verdict o.comments t.visible_id))

module _ (d : Decimal) (f : Faults d.D) (j : Judge d.D) (pb : Problem d.D) where
  failure_update :
      Option (SubTest d.D × SubtestOutput d.D) → SubmissionUpdate d.D → SubmissionUpdate d.D
  failure_update none upd = upd
  failure_update (some (t, o)) upd = with_failure d f j pb upd t o.comments

  skip_test-submission :
      (st : State d.D) (t : SubTest d.D) → (skip_test d f j pb st t).submission ≡ st.submission
  unfolding skip_test
  skip_test-submission st t = update_subtest-submission f st t.id _

  -- Once a test has failed, the rest is skipped and the update stays as it is.
  icpc_loop-failed :
      (ts : List (SubTest d.D)) (st : State d.D) (upd : SubmissionUpdate d.D)
      → ((icpc_loop d f j pb st true upd ts).1 ≡ true)
        × ((icpc_loop d f j pb st true upd ts).2 ≡ upd)
        × ((icpc_loop d f j pb st true upd ts).0.submission ≡ st.submission)
  unfolding icpc_loop
  icpc_loop-failed [] st upd = (refl, refl, refl)
  icpc_loop-failed (t ∷ ts) st upd = (
    (icpc_loop-failed ts (skip_test d f j pb st t) upd).0,
    (icpc_loop-failed ts (skip_test d f j pb st t) upd).1,
    (icpc_loop-failed ts (skip_test d f j pb st t) upd).2 ∙ skip_test-submission st t,
  )

  handle_sub_test-submission :
      (st : State d.D) (t : SubTest d.D)
      → (handle_sub_test d j pb f st t).0.submission ≡ st.submission
  unfolding handle_sub_test
  handle_sub_test-submission st t =
      elim (Result-cases (judged d j pb st.submission.submission_type t)) [
        | inl (e, r) ↦ ground arith
        | inr (o, r) ↦
            let same = update_subtest-submission f st t.id (output_update d j pb o) in ground arith
      ]

  handle_sub_test-err :
      (st : State d.D) (t : SubTest d.D) (e : GoError)
      → judged d j pb st.submission.submission_type t ≡ err e
      → (handle_sub_test d j pb f st t).1 ≡ err e
  unfolding handle_sub_test
  handle_sub_test-err st t e r = ground arith

  handle_sub_test-ok :
      (st : State d.D) (t : SubTest d.D) (o : SubtestOutput d.D)
      → f.update_subtest t.id ≡ none
      → judged d j pb st.submission.submission_type t ≡ ok o
      → (handle_sub_test d j pb f st t).1 ≡ ok (o.score, o.comments)
  unfolding handle_sub_test update_subtest is_empty_subtest_update output_update
  handle_sub_test-ok st t o h r = ground arith

  -- What the loop leaves behind, when no write fails.
  icpc_loop_lem :
      (ts : List (SubTest d.D)) (st : State d.D) (upd : SubmissionUpdate d.D)
      → ((i : ℕ) → f.update_subtest i ≡ none)
      → let failure = first_failure d j pb st.submission.submission_type ts in
        ((icpc_loop d f j pb st false upd ts).1 ≡ is_some failure)
        × ((icpc_loop d f j pb st false upd ts).2 ≡ failure_update failure upd)
        × ((icpc_loop d f j pb st false upd ts).0.submission ≡ st.submission)
  unfolding icpc_loop first_failure failure_update after_test
  icpc_loop_lem [] st upd h = (refl, refl, refl)
  icpc_loop_lem (t ∷ ts) st upd h =
      let kept = handle_sub_test-submission st t in
      let next = (handle_sub_test d j pb f st t).0 in
      let rest = icpc_loop_lem ts next upd h in
      elim (Result-cases (judged d j pb st.submission.submission_type t)) [
        | inl (e, r) ↦
            let answer = handle_sub_test-err st t e r in
            let same = ap (λ s. first_failure d j pb s.submission_type ts) kept in
            (ground arith, ground arith, ground arith)
        | inr (o, r) ↦
            let answer = handle_sub_test-ok st t o (h t.id) r in
            let same = ap (λ s. first_failure d j pb s.submission_type ts) kept in
            let failed = icpc_loop-failed ts next (with_failure d f j pb upd t o.comments) in
            (ground arith, ground arith, ground arith)
      ]

  finish_icpc-row :
      (st : State d.D) (failed : Bool) (upd : SubmissionUpdate d.D)
      → ((u : SubmissionUpdate d.D) → f.update_submission u ≡ none)
      → f.read_subtests ≡ none
      → upd.status ≡ Status.finished
      → upd.change_verdict ≡ failed
      → let row = (finish_icpc d f j pb st failed upd).0.submission in
        (row.score ≡ (if failed then or_old upd.score st.submission.score else d.from_int 100))
        × (row.icpc_verdict ≡ (if failed then upd.icpc_verdict else some accepted_verdict))
  unfolding finish_icpc update_submission is_empty_update apply_update read_subtests
  finish_icpc-row st true upd u r s c =
      let written = u (record upd {
        max_time = some (max_time_from 0 st.subtests);
        max_memory = some (max_memory_from 0 st.subtests);
      }) in
      (ground arith, ground arith)
  finish_icpc-row st false upd u r s c =
      let written = u (record upd {
        score = some (d.from_int 100);
        change_verdict = true;
        icpc_verdict = some accepted_verdict;
        max_time = some (max_time_from 0 st.subtests);
        max_memory = some (max_memory_from 0 st.subtests);
      }) in
      (ground arith, ground arith)

  finish_icpc-verdict :
      (st : State d.D) (failure : Option (SubTest d.D × SubtestOutput d.D)) (failed : Bool)
      (upd : SubmissionUpdate d.D)
      → ((u : SubmissionUpdate d.D) → f.update_submission u ≡ none)
      → f.read_subtests ≡ none
      → failed ≡ is_some failure
      → upd ≡ failure_update failure (record no_update { status = Status.finished })
      → let row = (finish_icpc d f j pb st failed upd).0.submission in
        ◌≡◌ {A = d.D × Option String} (row.score, row.icpc_verdict) (verdict_of d j pb failure)
  unfolding finish_icpc failure_update verdict_of with_failure
  finish_icpc-verdict st none failed upd u r e e' =
      let row = finish_icpc-row st failed upd u r (ground arith) (ground arith) in ground arith
  finish_icpc-verdict st (some (t, o)) failed upd u r e e' =
      let row = finish_icpc-row st failed upd u r (ground arith) (ground arith) in ground arith

  -- An ICPC submission gets the problem's default points and the verdict of its first test that
  -- was judged to something else than 100, and 100 and the accepting verdict when no test was, as
  -- long as the database takes the writes of the submission and of its tests and the tests can be read
  -- again once they are done.
  pub icpc_first_failure :
      (st : State d.D) (ts : List (SubTest d.D))
      → ((u : SubmissionUpdate d.D) → f.update_submission u ≡ none)
      → f.read_subtests ≡ none
      → ((i : ℕ) → f.update_subtest i ≡ none)
      → let row = (handle_icpc_submission d f j pb st ts).0.submission in
        ◌≡◌ {A = d.D × Option String}
          (row.score, row.icpc_verdict)
          (verdict_of d j pb (first_failure d j pb st.submission.submission_type ts))
  unfolding handle_icpc_submission
  icpc_first_failure st ts u r h =
      let loop = icpc_loop_lem ts st (record no_update { status = Status.finished }) h in
      finish_icpc-verdict _ (first_failure d j pb st.submission.submission_type ts) _ _ u r loop.0
        loop.1

  first_failure-errors :
      (kind : EvalType) (ts : List (SubTest d.D))
      → All (λ t. is_ok (judged d j pb kind t) ≡ false) ts
      → first_failure d j pb kind ts ≡ none
  unfolding first_failure
  first_failure-errors kind [] h = refl
  first_failure-errors kind (t ∷ ts) h =
      let rest = first_failure-errors kind ts h.1 in
      elim (Result-cases (judged d j pb kind t)) [
        | inl (e, r) ↦ ground arith
        | inr (o, r) ↦ ground arith
      ]

  -- When judging errs on every test, an ICPC submission is accepted with 100 points, as long as
  -- the database writes what it is given and can read the tests again.
  pub icpc_errors_accepted :
      (st : State d.D) (ts : List (SubTest d.D))
      → ((u : SubmissionUpdate d.D) → f.update_submission u ≡ none)
      → f.read_subtests ≡ none
      → ((i : ℕ) → f.update_subtest i ≡ none)
      → All (λ t. is_ok (judged d j pb st.submission.submission_type t) ≡ false) ts
      → let row = (handle_icpc_submission d f j pb st ts).0.submission in
        ◌≡◌ {A = d.D × Option String}
          (row.score, row.icpc_verdict)
          (d.from_int 100, some accepted_verdict)
  unfolding verdict_of
  icpc_errors_accepted st ts u r h e =
      icpc_first_failure st ts u r h
      ∙ ap (verdict_of d j pb) (first_failure-errors st.submission.submission_type ts e)
