-- ===== src/Grader/Feeder/Waking.antt =====
-- Who wakes the grader, and in which order: WakeGrader of sudoapi/admin.go at the end of CreateSubmission
-- and ResetProblemSubmissions (sudoapi/submission.go) and of ResetSubmission (sudoapi/admin.go), the
-- ticker of Start, between any two steps of the loop (eval/grader/feeder.go).
use kilonova.Prelude.{
  ℕ, suc, ◌≡◌, refl, sym, ap, subst, ◌∙◌, Bool, true, false, ◌⊎◌, inl, inr, List, [], ◌∷◌, ◌++◌,
  ◌||◌, ◌==◌, ==_refl, contains, ltb, length, take, arith, Bool-cases,
}
use kilonova.Submission.{Status}
use kilonova.Grader.Feeder.{Row, Queue, set_status, wake, ids_with, is_waiting, is_reevaling}
use kilonova.Grader.Feeder.Ids.{without, ids_with-set_status}
use kilonova.Grader.Feeder.Draining.{taken, taken_all}
use kilonova.Grader.Feeder.Rounds.{waiting_ids, reevaling_ids}
use kilonova.Grader.Feeder.Steps.{
  Phase, idle, reading, running, executing, rereading, resetting, rerunning, reexecuting, Loop, at,
  with_status, end_execution, step,
}

-- The end of CreateSubmission: InitSubmission leaves the new row waiting.
unfoldable pub submit : ℕ → Queue → Queue
unfolding wake
submit id q =
    wake (record q { rows = q.rows ++ (record { id = id; status = Status.waiting } ∷ []) })

abbrev pub set_all : List ℕ → Status → List Row → List Row
set_all [] s rows = rows
set_all (id ∷ ids) s rows = set_all ids s (set_status id s rows)

-- ResetProblemSubmissions, for the ids of the problem's submissions.
unfoldable pub reset_problem_submissions : List ℕ → Queue → Queue
unfolding wake
reset_problem_submissions ids q = wake (record q { rows = set_all ids Status.reevaling q.rows })

-- BaseAPI.ResetSubmission of a submission, outside the loop.
unfoldable pub reset_one : ℕ → Queue → Queue
unfolding wake
reset_one id q = wake (record q { rows = set_status id Status.waiting q.rows })

-- What other requests do, and the ticker.
pub data Event : Queue → Queue → Type 0 where
  submitted : (q : Queue) (id : ℕ) → Event q (submit id q)
  problem_reset : (q : Queue) (ids : List ℕ) → Event q (reset_problem_submissions ids q)
  submission_reset : (q : Queue) (id : ℕ) → Event q (reset_one id q)
  ticked : (q : Queue) → Event q (wake q)

-- Steps of the loop, each with what executeSubmission manages to finish, and events between them.
pub data Reach (start : Loop) : Loop → Type 0 where
  here : Reach start start
  happened : {p : Phase} {q r : Queue} → Reach start (at p q) → Event q r → Reach start (at p r)
  stepped :
      {p : Phase} {q : Queue}
      → Reach start (at p q)
      → (finishes : ℕ → Bool) → Reach start (step finishes p q)

-- The grader will be woken, or there is nothing to do.
abbrev pub IsAttended : Queue → Type 0
IsAttended q = (q.token ≡ true) ⊎ ((waiting_ids q ≡ []) × (reevaling_ids q ≡ []))

-- A submission that waits will still be run in this round, or the round ends by a wake.
unfoldable pending_waiting : Phase → ℕ → Bool
pending_waiting idle i = false
pending_waiting reading i = true
pending_waiting (running ids rewake) i = contains ids i || rewake
pending_waiting (executing id ids rewake) i = contains ids i || rewake
pending_waiting (rereading rewake) i = rewake
pending_waiting (resetting ids rewake) i = rewake
pending_waiting (rerunning id ids rewake) i = rewake
pending_waiting (reexecuting id ids rewake) i = rewake

unfoldable pending_reeval : Phase → ℕ → Bool
pending_reeval idle i = false
pending_reeval reading i = true
pending_reeval (running ids rewake) i = true
pending_reeval (executing id ids rewake) i = true
pending_reeval (rereading rewake) i = true
pending_reeval (resetting ids rewake) i = contains ids i || rewake
pending_reeval (rerunning id ids rewake) i = contains ids i || rewake
pending_reeval (reexecuting id ids rewake) i = contains ids i || rewake

record IsCovered (l : Loop) : Type 0 where
  pub waiting : (i : ℕ) → contains (waiting_ids l.queue) i ≡ true → pending_waiting l.phase i ≡ true
  pub reevals :
      (i : ℕ) → contains (reevaling_ids l.queue) i ≡ true → pending_reeval l.phase i ≡ true

abbrev IsSafe : Loop → Type 0
IsSafe l = (l.queue.token ≡ true) ⊎ IsCovered l

contains-without :
    (id i : ℕ) (xs : List ℕ)
    → contains (without id xs) i ≡ true
    → (contains xs i ≡ true) × ((id == i) ≡ false)
contains-without id i [] h = ground arith
contains-without id i (x ∷ xs) h =
    let rest = contains-without id i xs in (ground arith, ground arith)

contains-taken :
    (limit i : ℕ) (xs : List ℕ)
    → contains xs i ≡ true
    → (contains (taken limit (take (suc limit) xs)) i || ltb limit (length (take (suc limit) xs)))
      ≡ true
contains-taken limit i xs h = elim (Bool-cases (ltb limit (length (take (suc limit) xs)))) [
  | inl more ↦ rw more (ground arith)
  | inr all_read ↦ rw (taken_all limit xs all_read) (ground arith)
]

-- A row that is given another status leaves those found for this one.
contains-set_status :
    (p : Status → Bool) (id i : ℕ) (s : Status) (rows : List Row)
    → p s ≡ false
    → contains (ids_with p (set_status id s rows)) i ≡ true
    → (contains (ids_with p rows) i ≡ true) × ((id == i) ≡ false)
contains-set_status p id i s rows h c =
    contains-without id i (ids_with p rows)
      (ap (λ l. contains l i) (sym (ids_with-set_status p id s rows h)) ∙ c)

contains-none : (xs : List ℕ) → ((i : ℕ) → contains xs i ≡ true → false ≡ true) → xs ≡ []
contains-none [] h = refl
contains-none (x ∷ xs) h = let no = h x (ground (arith, ==_refl x)) in ground (arith, no)

-- A step that writes a row keeps what is pending but for that row.
with_status-IsCovered :
    (p r : Phase) (q : Queue) (id : ℕ) (s : Status)
    → IsCovered (at p q)
    → is_waiting s ≡ false
    → is_reevaling s ≡ false
    → ((i : ℕ) → (id == i) ≡ false → pending_waiting p i ≡ true → pending_waiting r i ≡ true)
    → ((i : ℕ) → (id == i) ≡ false → pending_reeval p i ≡ true → pending_reeval r i ≡ true)
    → IsCovered (at r (with_status id s q))
unfolding with_status
with_status-IsCovered p r q id s covered no_wait no_reeval waits reevals = record {
  waiting = λ i h.
      let (before, other_row) = contains-set_status is_waiting id i s q.rows no_wait h in
      waits i other_row (covered.waiting i before);
  reevals = λ i h.
      let (before, other_row) = contains-set_status is_reevaling id i s q.rows no_reeval h in
      reevals i other_row (covered.reevals i before);
}

end_execution-IsSafe :
    (finishes : ℕ → Bool) (p r : Phase) (q : Queue) (id : ℕ)
    → IsSafe (at p q)
    → ((i : ℕ) → pending_waiting p i ≡ pending_waiting r i)
    → ((i : ℕ) → pending_reeval p i ≡ pending_reeval r i)
    → IsSafe (at r (end_execution finishes id q))
unfolding end_execution with_status
end_execution-IsSafe finishes p r q id (inl token) waits reevals = inl (ground arith)
end_execution-IsSafe finishes p r q id (inr covered) waits reevals =
    elim (Bool-cases (finishes id)) [
      | inl finished ↦ rw finished (
          inr (
            with_status-IsCovered p r q id Status.finished covered refl refl
              (λ i other_row h. sym (waits i) ∙ h) (λ i other_row h. sym (reevals i) ∙ h)))
      | inr stays ↦ rw stays (
          inr (record {
            waiting = λ i h. sym (waits i) ∙ covered.waiting i h;
            reevals = λ i h. sym (reevals i) ∙ covered.reevals i h;
          }))
    ]

step-idle : (finishes : ℕ → Bool) (q : Queue) → q.token ≡ false → step finishes idle q ≡ at idle q
unfolding step
step-idle finishes q h = simp (h)

step-IsSafe :
    (finishes : ℕ → Bool) (p : Phase) (q : Queue) → IsSafe (at p q) → IsSafe (step finishes p q)
unfolding step with_status wake pending_waiting pending_reeval
step-IsSafe finishes idle q safe = elim (Bool-cases q.token) [
  | inl token ↦ rw token (inr (record { waiting = λ i h. refl; reevals = λ i h. refl }))
  | inr no_token ↦ subst IsSafe (sym (step-idle finishes q no_token)) safe
]
step-IsSafe finishes reading q (inl token) = inl token
step-IsSafe finishes reading q (inr covered) =
    inr (record { waiting = λ i h. contains-taken 40 i (waiting_ids q) h; reevals = λ i h. refl })
step-IsSafe finishes (running [] rewake) q (inl token) = inl token
step-IsSafe finishes (running [] rewake) q (inr covered) =
    inr (record { waiting = λ i h. covered.waiting i h; reevals = λ i h. refl })
step-IsSafe finishes (running (id ∷ ids) rewake) q (inl token) = inl token
step-IsSafe finishes (running (id ∷ ids) rewake) q (inr covered) = inr (
    with_status-IsCovered (running (id ∷ ids) rewake) (executing id ids rewake) q id Status.working
      covered refl refl (λ i other_row h. ground arith) (λ i other_row h. refl))
step-IsSafe finishes (executing id ids rewake) q safe =
    end_execution-IsSafe finishes (executing id ids rewake) (running ids rewake) q id safe
      (λ i. refl) (λ i. refl)
step-IsSafe finishes (rereading rewake) q (inl token) = inl token
step-IsSafe finishes (rereading rewake) q (inr covered) = inr (record {
  waiting = λ i h. let more = covered.waiting i h in ground (arith, more);
  reevals = λ i h. let found = contains-taken 5 i (reevaling_ids q) h in ground (arith, found);
})
step-IsSafe finishes (resetting [] true) q safe = inl refl
step-IsSafe finishes (resetting [] false) q (inl token) = inl token
step-IsSafe finishes (resetting [] false) q (inr covered) =
    inr (record { waiting = λ i h. covered.waiting i h; reevals = λ i h. covered.reevals i h })
step-IsSafe finishes (resetting (id ∷ ids) rewake) q safe = inl refl
step-IsSafe finishes (rerunning id ids rewake) q (inl token) = inl token
step-IsSafe finishes (rerunning id ids rewake) q (inr covered) = inr (
    with_status-IsCovered (rerunning id ids rewake) (reexecuting id ids rewake) q id Status.working
      covered refl refl (λ i other_row h. h) (λ i other_row h. h))
step-IsSafe finishes (reexecuting id ids rewake) q safe =
    end_execution-IsSafe finishes (reexecuting id ids rewake) (resetting ids rewake) q id safe
      (λ i. refl) (λ i. refl)

Event-token : {q r : Queue} → Event q r → r.token ≡ true
unfolding wake submit reset_problem_submissions reset_one
Event-token (submitted q id) = refl
Event-token (problem_reset q ids) = refl
Event-token (submission_reset q id) = refl
Event-token (ticked q) = refl

Reach-IsSafe : {start l : Loop} → Reach start l → IsSafe start → IsSafe l
Reach-IsSafe here safe = safe
Reach-IsSafe (happened reached event) safe = inl (Event-token event)
Reach-IsSafe (stepped {p = p} {q = q} reached finishes) safe =
    step-IsSafe finishes p q (Reach-IsSafe reached safe)

-- An idle loop that is covered has nothing to do.
idle-IsAttended : (q : Queue) → IsSafe (at idle q) → IsAttended q
unfolding pending_waiting pending_reeval
idle-IsAttended q (inl token) = inl token
idle-IsAttended q (inr covered) =
    inr (
      contains-none (waiting_ids q) covered.waiting,
      contains-none (reevaling_ids q) covered.reevals,
    )

attended-IsSafe : (q : Queue) → IsAttended q → IsSafe (at idle q)
unfolding pending_waiting pending_reeval
attended-IsSafe q (inl token) = inl token
attended-IsSafe q (inr (no_waiting, no_reevals)) = inr (record {
  waiting = λ i h. ap (λ l. contains l i) (sym no_waiting) ∙ h;
  reevals = λ i h. ap (λ l. contains l i) (sym no_reevals) ∙ h;
})

-- No wake is lost: new submissions, resets of submissions or of whole problems and ticks may happen
-- between any two steps of the loop, whose calls do not fail. Whenever the loop is idle again, after a
-- start in which it was idle and attended, a token is in wakeChan unless no submission waits and none
-- is to be evaluated again.
pub Reach-IsAttended :
    {start q : Queue} → Reach (at idle start) (at idle q) → IsAttended start → IsAttended q
Reach-IsAttended {start = start} {q = q} reached attended =
    idle-IsAttended q (Reach-IsSafe reached (attended-IsSafe start attended))
