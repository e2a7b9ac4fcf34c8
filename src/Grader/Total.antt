-- ===== src/Grader/Total.antt =====
-- The score of a classic submission: theorems on scoreTests.
use kilonova.Prelude.{◌≤◌, ◌≡◌, refl, ◌∙◌, none, List, [], ◌∷◌, map, All, arith}
use kilonova.Prelude.Int.{negsuc}
use kilonova.Decimal.{Decimal}
use kilonova.Problem.{Problem}
use kilonova.Submission.{SubTest, SubmissionSubTask, SubmissionUpdate, Status}
use kilonova.Grader.{
  State, Faults, update_submission, read_subtests, read_subtasks, apply_update, is_empty_update,
}
use kilonova.Grader.Score.{
  part_score, subtask_percentage, score_subtasks, score_each_test, total_score, finished_update,
  score_tests, max_memory_from, max_time_from,
}
use kilonova.Grader.Groups.{max_memory_bounds, max_time_bounds}

module _ (d : Decimal) (pb : Problem d.D) where
  -- Parts added up from a start.
  unfoldable pub sum_from : d.D → List d.D → d.D
  sum_from start [] = start
  sum_from start (x ∷ xs) = sum_from (d.add start x) xs

  -- A percentage of a score, rounded to the problem's precision.
  unfoldable pub rounded_part : d.D → d.D → d.D
  rounded_part score percentage =
      d.round (d.mul score (d.shift percentage (negsuc 1))) pb.score_precision

  -- The parts of a submission's score: its subtasks' if it has any, and its tests' otherwise.
  unfoldable pub score_parts : List (SubTest d.D) → List (SubmissionSubTask d.D) → List d.D
  score_parts tests [] = map (λ t. rounded_part t.score t.percentage) tests
  score_parts tests (k ∷ ks) =
      map (λ s. rounded_part s.score (subtask_percentage d tests s)) (k ∷ ks)

  score_each_test-sum :
      (tests : List (SubTest d.D)) (start : d.D)
      → score_each_test d pb.score_precision start tests
        ≡ sum_from start (map (λ t. rounded_part t.score t.percentage) tests)
  unfolding score_each_test sum_from part_score rounded_part
  score_each_test-sum [] start = refl
  score_each_test-sum (t ∷ ts) start = score_each_test-sum ts _

  score_subtasks-sum :
      (f : Faults d.D) (tests : List (SubTest d.D)) (ks : List (SubmissionSubTask d.D))
      (st : State d.D) (start : d.D)
      → (score_subtasks d f tests pb.score_precision st start ks).1
        ≡ sum_from start (map (λ s. rounded_part s.score (subtask_percentage d tests s)) ks)
  unfolding score_subtasks sum_from part_score rounded_part
  score_subtasks-sum f tests [] st start = refl
  score_subtasks-sum f tests (k ∷ ks) st start = score_subtasks-sum f tests ks _ _

  total_score-sum :
      (f : Faults d.D) (st : State d.D) (tests : List (SubTest d.D))
      (ks : List (SubmissionSubTask d.D))
      → (total_score d f pb st tests ks).1 ≡ sum_from pb.default_points (score_parts tests ks)
  unfolding total_score score_parts
  total_score-sum f st tests [] = score_each_test-sum tests pb.default_points
  total_score-sum f st tests (k ∷ ks) = score_subtasks-sum f tests (k ∷ ks) st pb.default_points

  score_tests-row :
      (f : Faults d.D) (st : State d.D)
      → ((u : SubmissionUpdate d.D) → f.update_submission u ≡ none)
      → f.read_subtests ≡ none
      → f.read_subtasks ≡ none
      → let row = (score_tests d f pb st).0.submission in
        (row.score ≡ (total_score d f pb st st.subtests st.subtasks).1)
        × (row.status ≡ Status.finished)
        × (row.max_memory ≡ max_memory_from 0 st.subtests)
        × (row.max_time ≡ max_time_from 0 st.subtests)
  unfolding score_tests read_subtests read_subtasks finished_update update_submission
      is_empty_update apply_update
  score_tests-row f st u r k =
      let (st', score) = total_score d f pb st st.subtests st.subtasks in
      let h = u (finished_update d score st.subtests) in
      (ground arith, ground arith, ground arith, ground arith)

  -- Scoring finishes a classic submission: its score is the problem's default points and the rounded
  -- parts of its subtasks, or of its tests if it has no subtasks, and no test used more memory or
  -- time than it shows. This holds also where the percentages of subtasks cannot be written, as long
  -- as the tests and subtasks can be read and the submission's row can be written.
  pub score_tests-sum :
      (f : Faults d.D) (st : State d.D)
      → ((u : SubmissionUpdate d.D) → f.update_submission u ≡ none)
      → f.read_subtests ≡ none
      → f.read_subtasks ≡ none
      → let row = (score_tests d f pb st).0.submission in
        (row.status ≡ Status.finished)
        × (row.score ≡ sum_from pb.default_points (score_parts st.subtests st.subtasks))
        × All (λ t. t.memory ≤ row.max_memory) st.subtests
        × All (λ t. t.time ≤ row.max_time) st.subtests
  score_tests-sum f st u r k =
      let (score, status, memory, time) = score_tests-row f st u r k in
      (
        status,
        score ∙ total_score-sum f st st.subtests st.subtasks,
        rw memory (max_memory_bounds 0 st.subtests),
        rw time (max_time_bounds 0 st.subtests),
      )
