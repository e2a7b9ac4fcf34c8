-- ===== src/Grader/Icpc.antt =====
-- Grading an ICPC submission: the tests in order, up to the first that fails (grader.go:
-- handleICPCSubmission).
use kilonova.Prelude.{ℕ, Bool, true, false, not, some, List, [], ◌∷◌, String, if◌then◌else◌}
use kilonova.Prelude.Text.{◌⧺◌, replace_all, itoa}
use kilonova.Status.{Result, ok, err}
use kilonova.Decimal.{Decimal}
use kilonova.Problem.{Problem}
use kilonova.Submission.{SubTest, SubmissionUpdate, Status}
use kilonova.Grader.{
  State, Faults, update_submission, update_subtest, read_subtests, no_update, no_subtest_update,
}
use kilonova.Grader.Subtest.{Judge, handle_sub_test}
use kilonova.Grader.Score.{max_time_from, max_memory_from}

abbrev pub skipped_verdict : String
skipped_verdict = "translate:skipped"

abbrev pub accepted_verdict : String
accepted_verdict = "test_verdict.accepted"

-- `fmt.Sprintf("%s (test_verdict.test_x #%d)", strings.ReplaceAll(verdict, …), VisibleID)`
pub failed_verdict : String → ℕ → String
failed_verdict verdict visible_id =
    replace_all verdict "translate:" "test_verdict."
    ⧺ " (test_verdict.test_x #"
    ⧺ itoa visible_id
    ⧺ ")"

module _ (d : Decimal) (f : Faults d.D) (j : Judge d.D) (pb : Problem d.D) where
  unfoldable pub skip_test : State d.D → SubTest d.D → State d.D
  skip_test st t =
      (update_subtest f st t.id (record no_subtest_update {
        done = some true;
        skipped = some true;
        verdict = some skipped_verdict;
      })).0

  unfoldable pub with_failure : SubmissionUpdate d.D → SubTest d.D → String → SubmissionUpdate d.D
  with_failure upd t verdict = record upd {
    score = some pb.default_points;
    change_verdict = true;
    icpc_verdict = some (failed_verdict verdict t.visible_id);
  }

  -- The loop's variables behind one handled test: the rows, `failed` and `upd`.
  unfoldable pub after_test :
      State d.D
      → SubmissionUpdate d.D
      → SubTest d.D
      → Result (d.D × String)
      → State d.D × Bool × SubmissionUpdate d.D
  unfolding with_failure
  after_test st upd t (err e) = (st, false, upd)
  after_test st upd t (ok (score, verdict)) =
      if not (d.equal score (d.from_int 100))
      then (st, true, with_failure upd t verdict)
      else (st, false, upd)

  unfoldable pub icpc_loop :
      State d.D
      → Bool
      → SubmissionUpdate d.D
      → List (SubTest d.D)
      → State d.D × Bool × SubmissionUpdate d.D
  icpc_loop st failed upd [] = (st, failed, upd)
  icpc_loop st true upd (t ∷ ts) = icpc_loop (skip_test st t) true upd ts
  icpc_loop st false upd (t ∷ ts) =
      let (st', r) = handle_sub_test d j pb f st t in
      let (st'', failed, upd') = after_test st' upd t r in icpc_loop st'' failed upd' ts

  unfoldable pub finish_icpc :
      State d.D → Bool → SubmissionUpdate d.D → State d.D × Result (Unit {0})
  finish_icpc st failed upd =
      let upd' =
        (if not failed
          then record upd {
            score = some (d.from_int 100);
            change_verdict = true;
            icpc_verdict = some accepted_verdict;
          }
          else upd) in
      elim (read_subtests f st) [
        | err e ↦ (st, err e)
        | ok tests ↦ update_submission f st (record upd' {
          max_time = some (max_time_from 0 tests);
          max_memory = some (max_memory_from 0 tests);
        })
      ]

  unfoldable pub handle_icpc_submission :
      State d.D → List (SubTest d.D) → State d.D × Result (Unit {0})
  unfolding icpc_loop finish_icpc
  handle_icpc_submission st tests =
      let (st', failed, upd) =
        icpc_loop st false (record no_update { status = Status.finished }) tests in
      finish_icpc st' failed upd
