-- ===== src/Grader/Feeder.antt =====
-- The queue of submissions that the grader works through (eval/grader/feeder.go). The channel wakeChan
-- holds at most one token; the rows of the submissions table stand in the order of their ids. Here a
-- round is one function, as when no other request comes between its calls; Steps takes it apart.
pub mod Ids
pub mod Draining
pub mod Rounds
pub mod Steps
pub mod Undisturbed
pub mod Waking
use kilonova.Prelude.{
  ℕ, zero, suc, Bool, true, false, ◌||◌, Option, none, some, List, [], ◌∷◌, ltb, ◌==◌, take, length,
  if◌then◌else◌,
}
use kilonova.Status.{GoError}
use kilonova.Submission.{Status}

pub record Row : Type 0 where
  pub id : ℕ
  pub status : Status

pub record Queue : Type 0 where
  pub rows : List Row
  pub token : Bool

-- What the calls of the database and of executeSubmission answer in one round.
pub record Round : Type 0 where
  pub waiting_error : Option GoError
  pub reevaling_error : Option GoError
  -- The first UpdateSubmission of runSubmission.
  pub working_error : ℕ → Option GoError
  -- executeSubmission gets as far as writing the status finished; otherwise the row stays working.
  pub finishes : ℕ → Bool
  pub reset_error : ℕ → Option GoError

abbrev pub is_waiting : Status → Bool
is_waiting Status.waiting = true
is_waiting other = false

abbrev pub is_reevaling : Status → Bool
is_reevaling Status.reevaling = true
is_reevaling other = false

-- The ids that RawSubmissions finds for a status, ascending, `limit` at most.
abbrev pub ids_with : (Status → Bool) → List Row → List ℕ
ids_with p [] = []
ids_with p (r ∷ rs) = if p r.status then r.id ∷ ids_with p rs else ids_with p rs

abbrev pub raw_submissions : (Status → Bool) → ℕ → List Row → List ℕ
raw_submissions p limit rows = take limit (ids_with p rows)

abbrev pub set_status : ℕ → Status → List Row → List Row
set_status id s [] = []
set_status id s (r ∷ rs) = (if r.id == id then record r { status = s } else r) ∷ set_status id s rs

-- Handler.Wake: a token, unless there is one.
unfoldable pub wake : Queue → Queue
wake q = record q { token = true }

module _ (round : Round) where
  -- runSubmission; the callers of ScheduleSubmission log its error and go on.
  unfoldable pub run_submission : ℕ → Queue → Queue
  run_submission id q = elim (round.working_error id) [
    | some e ↦ q
    | none ↦ record q {
      rows =
          set_status id (if round.finishes id then Status.finished else Status.working)
            (set_status id Status.working q.rows);
    }
  ]

  unfoldable pub run_waiting : List ℕ → Queue → Queue
  unfolding run_submission
  run_waiting [] q = q
  run_waiting (id ∷ ids) q = run_waiting ids (run_submission id q)

  -- BaseAPI.ResetSubmission, whose transaction leaves the row waiting or as it was, and WakeGrader.
  unfoldable pub reset_submission : ℕ → Queue → Queue × Bool
  unfolding wake
  reset_submission id q = elim (round.reset_error id) [
    | some e ↦ (q, false)
    | none ↦ (wake (record q { rows = set_status id Status.waiting q.rows }), true)
  ]

  -- The body of the loop over the submissions to evaluate again.
  unfoldable pub run_reeval : ℕ → Queue → Queue
  unfolding run_submission reset_submission
  run_reeval id q =
      let (was_reset, done) = reset_submission id q in
      if done then run_submission id was_reset else was_reset

  unfoldable pub run_reevals : List ℕ → Queue → Queue
  unfolding run_reeval
  run_reevals [] q = q
  run_reevals (id ∷ ids) q = run_reevals ids (run_reeval id q)

  -- The waiting submissions of a round, and whether to wake again.
  unfoldable pub waiting_pass : Queue → Queue × Bool
  unfolding run_waiting
  waiting_pass q = elim round.waiting_error [
    | some e ↦ (q, false)
    | none ↦
        let subs = raw_submissions is_waiting 41 q.rows in
        (run_waiting (if ltb 40 (length subs) then take 40 subs else subs) q, ltb 40 (length subs))
  ]

  unfoldable pub reeval_pass : Queue → Queue × Bool
  unfolding run_reevals
  reeval_pass q = elim round.reevaling_error [
    | some e ↦ (q, false)
    | none ↦
        let reevals = raw_submissions is_reevaling 6 q.rows in
        (
          run_reevals (if ltb 5 (length reevals) then take 5 reevals else reevals) q,
          ltb 5 (length reevals),
        )
  ]

  -- The body of handle's loop when the token is taken from wakeChan.
  unfoldable pub handle_wake : Queue → Queue
  unfolding waiting_pass reeval_pass wake
  handle_wake q =
      let taken = record q { token = false } in
      let (q1, more_waiting) = waiting_pass taken in
      let (q2, more_reevals) = reeval_pass q1 in
      if more_waiting || more_reevals then wake q2 else q2

-- handle's loop as long as there is a token, for at most `fuel` rounds; `rounds fuel` is the round
-- that starts with that much fuel.
unfoldable pub handle : (ℕ → Round) → ℕ → Queue → Queue
unfolding handle_wake
handle rounds zero q = q
handle rounds (suc fuel) q =
    let next = handle rounds fuel (handle_wake (rounds fuel) q) in if q.token then next else q
