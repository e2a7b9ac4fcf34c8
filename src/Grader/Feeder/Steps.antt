-- ===== src/Grader/Feeder/Steps.antt =====
-- The loop of handle (eval/grader/feeder.go) one database call at a time, so that other requests may
-- write rows and wake the grader between its steps. No call of the loop fails here.
use kilonova.Prelude.{ℕ, Bool, false, ◌||◌, List, [], ◌∷◌, ltb, take, length, if◌then◌else◌}
use kilonova.Submission.{Status}
use kilonova.Grader.Feeder.{Queue, raw_submissions, is_waiting, is_reevaling, set_status, wake}

-- Where the loop stands: the submissions still to run of those that it has read, and `rewake`.
pub data Phase : Type 0 where
  idle reading : Phase
  running : List ℕ → Bool → Phase
  executing : ℕ → List ℕ → Bool → Phase
  rereading : Bool → Phase
  resetting : List ℕ → Bool → Phase
  rerunning : ℕ → List ℕ → Bool → Phase
  reexecuting : ℕ → List ℕ → Bool → Phase

pub record Loop : Type 0 where
  pub phase : Phase
  pub queue : Queue

abbrev pub at : Phase → Queue → Loop
at p q = record { phase = p; queue = q }

unfoldable pub with_status : ℕ → Status → Queue → Queue
with_status id s q = record q { rows = set_status id s q.rows }

-- executeSubmission's last write, if it gets there.
unfoldable pub end_execution : (ℕ → Bool) → ℕ → Queue → Queue
unfolding with_status
end_execution finishes id q = if finishes id then with_status id Status.finished q else q

unfoldable pub step : (ℕ → Bool) → Phase → Queue → Loop
unfolding with_status end_execution wake
step finishes idle q = if q.token then at reading (record q { token = false }) else at idle q
step finishes reading q =
    let subs = raw_submissions is_waiting 41 q.rows in
    at (running (if ltb 40 (length subs) then take 40 subs else subs) (ltb 40 (length subs))) q
step finishes (running [] rewake) q = at (rereading rewake) q
step finishes (running (id ∷ ids) rewake) q =
    at (executing id ids rewake) (with_status id Status.working q)
step finishes (executing id ids rewake) q = at (running ids rewake) (end_execution finishes id q)
step finishes (rereading rewake) q =
    let reevals = raw_submissions is_reevaling 6 q.rows in
    at
      (resetting (if ltb 5 (length reevals) then take 5 reevals else reevals)
        (rewake || ltb 5 (length reevals)))
      q
step finishes (resetting [] rewake) q = at idle (if rewake then wake q else q)
step finishes (resetting (id ∷ ids) rewake) q =
    at (rerunning id ids rewake) (wake (with_status id Status.waiting q))
step finishes (rerunning id ids rewake) q =
    at (reexecuting id ids rewake) (with_status id Status.working q)
step finishes (reexecuting id ids rewake) q =
    at (resetting ids rewake) (end_execution finishes id q)
