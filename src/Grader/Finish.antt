-- ===== src/Grader/Finish.antt =====
-- Executed submissions: theorems on executeSubmission and markSubtestsDone.
use kilonova.Prelude.{
  ℕ, ◌≡◌, inl, inr, Bool, true, none, some, List, [], ◌∷◌, arith, ◌==◌, ==_refl, All, Bool-cases,
  any, not, ◌&&◌, ◌||◌, if◌then◌else◌,
}
use kilonova.Decimal.{Decimal}
use kilonova.Submission.{SubTest, SubTestUpdate, SubmissionUpdate, Status}
use kilonova.Grader.{
  State, Faults, update_submission, update_subtest, update_rows, apply_subtest_update,
  read_subtests, is_empty_update, is_empty_subtest_update, no_subtest_update, no_update,
}
use kilonova.Grader.Execute.{
  Setup, mark_rows_done, mark_subtests_done, execute_body, execute_and_mark, execute_submission,
}

-- Once executed, a submission is finished, whatever was fetched, run or written on the way, if the
-- last write of its row, which sets only the status, is not refused. Earlier writes may have been.
pub executed_is_finished :
    (d : Decimal) (f : Faults d.D) (env : Setup d.D) (st : State d.D)
    → f.update_submission (record no_update { status = Status.finished }) ≡ none
    → (execute_submission d f env st).0.submission.status ≡ Status.finished
unfolding execute_submission update_submission is_empty_update
executed_is_finished d f env st h = ground arith

unfoldable pub mark_done : {D : Type 0} → SubTestUpdate D
mark_done = record no_subtest_update { done = some true }

-- The loop has still to mark a row of this id.
abbrev pending : {D : Type 0} → ℕ → List (SubTest D) → Bool
pending i rest = any (λ s. s.id == i && not s.done) rest

-- Every row is done, or still to be marked.
abbrev Covered : {D : Type 0} → List (SubTest D) → List (SubTest D) → Type 0
Covered rows rest = All (λ t. (t.done || pending t.id rest) ≡ true) rows

Covered-drop :
    {D : Type 0} (s : SubTest D) (rest rows : List (SubTest D))
    → s.done ≡ true
    → Covered rows (s ∷ rest)
    → Covered rows rest
Covered-drop s rest [] h c = tt
Covered-drop s rest (t ∷ rows) h c = (ground arith, Covered-drop s rest rows h c.1)

Covered-mark :
    {D : Type 0} (s : SubTest D) (rest rows : List (SubTest D))
    → Covered rows (s ∷ rest)
    → Covered (update_rows s.id mark_done rows) rest
unfolding update_rows apply_subtest_update mark_done
Covered-mark s rest [] c = tt
Covered-mark s rest (t ∷ rows) c = (marked-or, Covered-mark s rest rows c.1)
  where
    marked-or :
        let t' = (if t.id == s.id then apply_subtest_update mark_done t else t) in
        (t'.done || pending t'.id rest) ≡ true
    marked-or = elim (Bool-cases (t.id == s.id)) [
      | inl same ↦ rw same
      | inr other ↦ rw other (ground arith)
    ]

Covered-weaken :
    {D : Type 0} (s : SubTest D) (rest rows : List (SubTest D))
    → Covered rows rest
    → Covered rows (s ∷ rest)
Covered-weaken s rest [] c = tt
Covered-weaken s rest (t ∷ rows) c = (ground arith, Covered-weaken s rest rows c.1)

Covered-refl : {D : Type 0} (rows : List (SubTest D)) → Covered rows rows
Covered-refl [] = tt
Covered-refl (t ∷ rows) =
    (ground (arith, ==_refl t.id), Covered-weaken t rows rows (Covered-refl rows))

Covered-nil :
    {D : Type 0} (rows : List (SubTest D)) → Covered rows [] → All (λ t. t.done ≡ true) rows
Covered-nil [] c = tt
Covered-nil (t ∷ rows) c = (ground arith, Covered-nil rows c.1)

update_subtest-rows :
    {D : Type 0} (f : Faults D) (st : State D) (i : ℕ)
    → f.update_subtest i ≡ none
    → (update_subtest f st i mark_done).0.subtests ≡ update_rows i mark_done st.subtests
unfolding update_subtest is_empty_subtest_update mark_done
update_subtest-rows f st i h = ground arith

mark_rows_done-done :
    {D : Type 0} (f : Faults D) (st : State D) (rest : List (SubTest D))
    → ((i : ℕ) → f.update_subtest i ≡ none)
    → Covered st.subtests rest
    → All (λ t. t.done ≡ true) (mark_rows_done f st rest).subtests
unfolding mark_rows_done mark_done
mark_rows_done-done f st [] h c = Covered-nil st.subtests c
mark_rows_done-done f st (s ∷ rest) h c = elim (Bool-cases s.done) [
  | inl old ↦ rw old (mark_rows_done-done f st rest h (Covered-drop s rest st.subtests old c))
  | inr new ↦ rw new (
      mark_rows_done-done f (update_subtest f st s.id mark_done).0 rest h
        (rw (update_subtest-rows f st s.id (h s.id)) (Covered-mark s rest st.subtests c)))
]

pub mark_subtests_done-rows :
    {D : Type 0} (f : Faults D) (st : State D)
    → f.read_subtests ≡ none
    → (mark_subtests_done f st).0 ≡ mark_rows_done f st st.subtests
unfolding mark_subtests_done read_subtests
mark_subtests_done-rows f st r = ground arith

update_submission-subtests :
    {D : Type 0} (f : Faults D) (st : State D) (u : SubmissionUpdate D)
    → (update_submission f st u).0.subtests ≡ st.subtests
unfolding update_submission
update_submission-subtests f st u = ground arith

execute_and_mark-found :
    (d : Decimal) (f : Faults d.D) (env : Setup d.D) (st : State d.D)
    → env.language_found ≡ true
    → (execute_and_mark d f env st).0 ≡ (mark_subtests_done f (execute_body d f env st).0).0
unfolding execute_and_mark
execute_and_mark-found d f env st l = ground arith

-- Once executed, every test of a submission is done, whatever failed on the way, if its language
-- was found and the tests' rows can be read and written.
pub executed_tests_are_done :
    (d : Decimal) (f : Faults d.D) (env : Setup d.D) (st : State d.D)
    → env.language_found ≡ true
    → f.read_subtests ≡ none
    → ((i : ℕ) → f.update_subtest i ≡ none)
    → All (λ t. t.done ≡ true) (execute_submission d f env st).0.subtests
unfolding execute_submission
executed_tests_are_done d f env st l r h =
    rw (update_submission-subtests f (execute_and_mark d f env st).0 _) (
      rw (execute_and_mark-found d f env st l) (
        rw (mark_subtests_done-rows f (execute_body d f env st).0 r)
          (mark_rows_done-done f (execute_body d f env st).0 _ h (Covered-refl _))))
