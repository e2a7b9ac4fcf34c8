-- ===== src/Grader/Score.antt =====
-- Scoring a classic submission (grader.go: scoreTests, handleClassicSubmission).
use kilonova.Prelude.{ℕ, max, Option, none, some, List, [], ◌∷◌, ◌==◌, if◌then◌else◌, is_empty}
use kilonova.Prelude.Int.{negsuc}
use kilonova.Status.{Result, ok, err}
use kilonova.Decimal.{Decimal}
use kilonova.Problem.{Problem}
use kilonova.Submission.{SubTest, SubmissionSubTask, SubmissionUpdate, Status}
use kilonova.Grader.{
  State, Faults, update_submission, update_subtask_percentage, read_subtests, read_subtasks,
  no_update,
}
use kilonova.Grader.Subtest.{Judge, handle_sub_test}

-- `memory = max(memory, subtest.Memory)` over the tests, from 0; so for the time.
unfoldable pub max_memory_from : {D : Type 0} → ℕ → List (SubTest D) → ℕ
max_memory_from m [] = m
max_memory_from m (t ∷ ts) = max_memory_from (max m t.memory) ts

unfoldable pub max_time_from : {D : Type 0} → ℕ → List (SubTest D) → ℕ
max_time_from m [] = m
max_time_from m (t ∷ ts) = max_time_from (max m t.time) ts

-- The map from ids to tests, filled in order: a later test of the same id wins.
unfoldable pub lookup_subtest : {D : Type 0} → ℕ → List (SubTest D) → Option (SubTest D)
lookup_subtest i [] = none
lookup_subtest i (t ∷ ts) = elim (lookup_subtest i ts) [
  | some r ↦ some r
  | none ↦ if t.id == i then some t else none
]

module _ (d : Decimal) where
  -- stk.Score * (percentage / 100), rounded.
  unfoldable pub part_score : ℕ → d.D → d.D → d.D
  part_score precision score percentage =
      d.round (d.mul score (d.shift percentage (negsuc 1))) precision

  -- One round of the loop over a subtask's tests; a test that is missing is passed over.
  unfoldable pub min_with : d.D → Option (SubTest d.D) → d.D
  min_with p none = p
  min_with p (some t) = d.min p t.percentage

  unfoldable pub min_percentage : List (SubTest d.D) → d.D → List ℕ → d.D
  min_percentage tests p [] = p
  min_percentage tests p (i ∷ is) = min_percentage tests (min_with p (lookup_subtest i tests)) is

  unfoldable pub subtask_percentage : List (SubTest d.D) → SubmissionSubTask d.D → d.D
  unfolding min_percentage
  subtask_percentage tests stk =
      min_percentage tests (if is_empty stk.subtests then d.from_int 0 else d.from_int 100)
        stk.subtests

  -- The loop over the subtasks: the score so far and the rows written.
  unfoldable pub score_subtasks :
      Faults d.D
      → List (SubTest d.D)
      → ℕ
      → State d.D
      → d.D
      → List (SubmissionSubTask d.D)
      → State d.D × d.D
  unfolding subtask_percentage part_score
  score_subtasks f tests precision st score [] = (st, score)
  score_subtasks f tests precision st score (stk ∷ stks) =
      let p = subtask_percentage tests stk in
      score_subtasks f tests precision (update_subtask_percentage f st stk.id p).0
        (d.add score (part_score precision stk.score p)) stks

  unfoldable pub score_each_test : ℕ → d.D → List (SubTest d.D) → d.D
  unfolding part_score
  score_each_test precision score [] = score
  score_each_test precision score (t ∷ ts) =
      score_each_test precision (d.add score (part_score precision t.score t.percentage)) ts

  unfoldable pub total_score :
      Faults d.D
      → Problem d.D
      → State d.D
      → List (SubTest d.D)
      → List (SubmissionSubTask d.D)
      → State d.D × d.D
  unfolding score_subtasks score_each_test
  total_score f pb st tests [] = (st, score_each_test pb.score_precision pb.default_points tests)
  total_score f pb st tests (k ∷ ks) =
      score_subtasks f tests pb.score_precision st pb.default_points (k ∷ ks)

  unfoldable pub finished_update : d.D → List (SubTest d.D) → SubmissionUpdate d.D
  unfolding max_time_from max_memory_from
  finished_update score tests = record no_update {
    status = Status.finished;
    score = some score;
    max_time = some (max_time_from 0 tests);
    max_memory = some (max_memory_from 0 tests);
  }

  unfoldable pub score_tests : Faults d.D → Problem d.D → State d.D → State d.D × Result (Unit {0})
  unfolding finished_update
  score_tests f pb st = elim (read_subtests f st) [
    | err e ↦ (st, err e)
    | ok tests ↦ elim (read_subtasks f st) [
      | err e ↦ (st, err e)
      | ok subtasks ↦
          let (st', score) = total_score f pb st tests subtasks in
          update_submission f st' (finished_update score tests)
    ]
  ]

  -- One goroutine for each test; each writes its own row, so a list gives the order in which the
  -- writes happen to land.
  unfoldable pub handle_each :
      Faults d.D → Judge d.D → Problem d.D → State d.D → List (SubTest d.D) → State d.D
  handle_each f j pb st [] = st
  handle_each f j pb st (t ∷ ts) = handle_each f j pb (handle_sub_test d j pb f st t).0 ts

  unfoldable pub handle_classic_submission :
      Faults d.D
      → Judge d.D
      → Problem d.D
      → State d.D
      → List (SubTest d.D)
      → State d.D × Result (Unit {0})
  unfolding handle_each
  handle_classic_submission f j pb st tests = score_tests f pb (handle_each f j pb st tests)
