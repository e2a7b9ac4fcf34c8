-- ===== src/Grader/Feeder/Ids.antt =====
-- The ids of the submissions that wait or are to be evaluated again, along eval/grader/feeder.go.
use kilonova.Prelude.{
  ℕ, ◌≡◌, refl, ap, ◌∙◌, Bool, false, none, some, List, [], ◌∷◌, ◌==◌, if◌then◌else◌, arith,
  Bool-cases, Option-cases, inl, inr, is_some,
}
use kilonova.Status.{GoError}
use kilonova.Submission.{Status}
use kilonova.Grader.Feeder.{
  Row, Queue, Round, ids_with, set_status, run_submission, run_waiting, run_reeval,
  reset_submission, wake,
}

abbrev pub without : ℕ → List ℕ → List ℕ
without id [] = []
without id (x ∷ xs) = if x == id then without id xs else x ∷ without id xs

abbrev pub without_all : List ℕ → List ℕ → List ℕ
without_all [] xs = xs
without_all (id ∷ ids) xs = without_all ids (without id xs)

-- A row that gets a status outside the predicate is no longer found.
pub ids_with-set_status :
    (p : Status → Bool) (id : ℕ) (s : Status) (rows : List Row)
    → p s ≡ false
    → ids_with p (set_status id s rows) ≡ without id (ids_with p rows)
ids_with-set_status p id s [] h = refl
ids_with-set_status p id s (r ∷ rs) h =
    let rest = ids_with-set_status p id s rs h in
    elim (Bool-cases (r.id == id)) [
      | inl same ↦ ground (arith, rest)
      | inr other ↦ ground (arith, rest)
    ]

-- The rows of other submissions are found as before.
pub without-set_status :
    (p : Status → Bool) (id : ℕ) (s : Status) (rows : List Row)
    → without id (ids_with p (set_status id s rows)) ≡ without id (ids_with p rows)
without-set_status p id s [] = refl
without-set_status p id s (r ∷ rs) =
    let rest = without-set_status p id s rs in
    elim (Bool-cases (r.id == id)) [
      | inl same ↦ ground (arith, rest)
      | inr other ↦ ground (arith, rest)
    ]

run_submission-ok :
    (round : Round) (id : ℕ) (q : Queue)
    → round.working_error id ≡ none
    → (run_submission round id q).rows
      ≡ set_status id
          (if round.finishes id then Status.finished else Status.working)
          (set_status id Status.working q.rows)
unfolding run_submission
run_submission-ok round id q h = ground arith

run_submission-error :
    (round : Round) (id : ℕ) (q : Queue) (e : GoError)
    → round.working_error id ≡ some e
    → run_submission round id q ≡ q
unfolding run_submission
run_submission-error round id q e h = ground arith

pub run_reeval-ok :
    (round : Round) (id : ℕ) (q : Queue)
    → round.reset_error id ≡ none
    → run_reeval round id q
      ≡ run_submission round id (wake (record q { rows = set_status id Status.waiting q.rows }))
unfolding run_reeval reset_submission
run_reeval-ok round id q h = ground arith

-- A submission whose row can be updated has been run: it neither waits nor is to be evaluated again.
pub run_submission-ids :
    (round : Round) (p : Status → Bool) (id : ℕ) (q : Queue)
    → p Status.finished ≡ false
    → p Status.working ≡ false
    → round.working_error id ≡ none
    → ids_with p (run_submission round id q).rows ≡ without id (ids_with p q.rows)
run_submission-ids round p id q finished working h =
    let end = if round.finishes id then Status.finished else Status.working in
    let ended : p end ≡ false = ground arith in
    ap (λ rows. ids_with p rows) (run_submission-ok round id q h)
    ∙ (ids_with-set_status p id end (set_status id Status.working q.rows) ended
        ∙ without-set_status p id Status.working q.rows)

pub run_reeval-ids :
    (round : Round) (p : Status → Bool) (id : ℕ) (q : Queue)
    → p Status.finished ≡ false
    → p Status.working ≡ false
    → round.working_error id ≡ none
    → round.reset_error id ≡ none
    → ids_with p (run_reeval round id q).rows ≡ without id (ids_with p q.rows)
unfolding wake
run_reeval-ids round p id q finished working h reset =
    ap (λ r. ids_with p r.rows) (run_reeval-ok round id q reset)
    ∙ (run_submission-ids round p id _ finished working h
        ∙ without-set_status p id Status.waiting q.rows)

-- The ids whose status could be set to working.
abbrev pub ran : Round → List ℕ → List ℕ
ran round [] = []
ran round (id ∷ ids) =
    if is_some (round.working_error id) then ran round ids else id ∷ ran round ids

-- After a pass over waiting submissions, exactly those whose row could be updated have left: an error
-- for one of them leaves it waiting and does not stop the ones after it.
pub run_waiting-ids :
    (round : Round) (ids : List ℕ) (p : Status → Bool) (q : Queue)
    → p Status.finished ≡ false
    → p Status.working ≡ false
    → ids_with p (run_waiting round ids q).rows ≡ without_all (ran round ids) (ids_with p q.rows)
unfolding run_waiting
run_waiting-ids round [] p q finished working = refl
run_waiting-ids round (id ∷ ids) p q finished working =
    let rest = run_waiting-ids round ids p (run_submission round id q) finished working in
    elim (Option-cases (round.working_error id)) [
      | inl h ↦ rw h (
          rest
          ∙ ap (λ l. without_all (ran round ids) l)
              (run_submission-ids round p id q finished working h))
      | inr (e, h) ↦ rw h (
          rest
          ∙ ap (λ r. without_all (ran round ids) (ids_with p r.rows))
              (run_submission-error round id q e h))
    ]
