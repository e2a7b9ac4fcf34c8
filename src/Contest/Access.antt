-- ===== src/Contest/Access.antt =====
-- Who may see, join and submit to a contest (sudoapi/contest.go and sudoapi/filters.go).
-- The two queries that the tests make are parameters: the SQL functions behind them belong to the
-- database.
use kilonova.Prelude.{
  ℕ, Bool, true, false, not, ◌&&◌, Option, none, some, List, ltb, ◌==◌, if◌then◌else◌, contains,
}
use kilonova.Status.{Result, ok, err, wrapped, statusf, err_not_found}
use kilonova.User.{UserBrief, is_admin, user_id_or_zero}
use kilonova.Contest.{Contest, ContestRegistration, started, ended, running, is_editor, is_tester}

pub record ContestDb : Type 0 where
  -- visible_contests, asked for one contest and one user.
  pub is_contest_viewer : ℕ → ℕ → Result Bool
  -- The row of contest_registrations, if any.
  pub contest_registration : ℕ → ℕ → Result (Option ContestRegistration)

-- `ok, err := query; if err != nil { return false }; return ok`.
abbrev pub or_false : Result Bool → Bool
or_false (ok b) = b
or_false (err e) = false

unfoldable pub can_join_contest : ℕ → Contest → Bool
can_join_contest now c =
    if not c.public_join
    then false
    else if c.register_during_contest && not (ended now (some c))
    then true
    else not (started now (some c))

-- `time.Now().After(*reg.IndividualStartTime) && time.Now().Before(*reg.IndividualEndTime)`.
abbrev pub in_window : ℕ → Option ℕ → Option ℕ → Bool
in_window now none e = false
in_window now (some s) none = false
in_window now (some s) (some e) = ltb s now && ltb now e

-- What CanSubmitInContest answers once the registration has been fetched.
unfoldable pub registration_admits : ℕ → Contest → Result (Option ContestRegistration) → Bool
registration_admits now c (err e) = false
registration_admits now c (ok none) = false
registration_admits now c (ok (some reg)) =
    if c.per_user_time == 0
    then true
    else in_window now reg.individual_start_time reg.individual_end_time

module _ (db : ContestDb) where
  unfoldable pub is_contest_visible : Option UserBrief → Option Contest → Bool
  is_contest_visible user contest = if is_admin user then true else elim contest [
    | none ↦ false
    | some c ↦ or_false (db.is_contest_viewer c.id (user_id_or_zero user))
  ]

  -- The part of CanSubmitInContest behind the test for testers.
  unfoldable pub can_submit_as_contestant : ℕ → Option UserBrief → Option Contest → Bool
  unfolding registration_admits
  can_submit_as_contestant now none c = false
  can_submit_as_contestant now (some u) none = false
  can_submit_as_contestant now (some u) (some c) =
      if not (running now (some c))
      then false
      else registration_admits now c (db.contest_registration c.id u.id)

  unfoldable pub can_submit_in_contest : ℕ → Option UserBrief → Option Contest → Bool
  unfolding can_submit_as_contestant
  can_submit_in_contest now user c =
      if ended now c
      then false
      else if is_tester c user
      then true
      else can_submit_as_contestant now user c

  -- The tests of CanViewContestProblems that read the contest's settings; they come after the test
  -- that it has started, which no nil contest passes.
  unfoldable pub can_view_contest_problems : ℕ → Option UserBrief → Option Contest → Bool
  can_view_contest_problems now user none = false
  can_view_contest_problems now user (some c) =
      if is_tester (some c) user
      then true
      else if not (started now (some c))
      then false
      else if ended now (some c) && c.visible
      then true
      else if c.per_user_time == 0 && c.visible && not c.register_during_contest
      then true
      else can_submit_in_contest now user (some c)

  unfoldable pub can_view_contest_leaderboard : ℕ → Option UserBrief → Option Contest → Bool
  can_view_contest_leaderboard now user none = false
  can_view_contest_leaderboard now user (some c) =
      if not (is_contest_visible user (some c))
      then false
      else if is_tester (some c) user
      then true
      else if not (started now (some c))
      then false
      else c.public_leaderboard

-- The instant at which the leaderboard is frozen for the user, if it is.
unfoldable pub user_contest_freeze_time : ℕ → Option UserBrief → Contest → Bool → Option ℕ
user_contest_freeze_time now user c show_frozen = elim c.leaderboard_freeze [
  | none ↦ none
  | some freeze ↦
      if ltb now freeze
      then none
      else if is_editor (some c) user
      then if show_frozen then c.leaderboard_freeze else none
      else c.leaderboard_freeze
]

-- ContestProblem (sudoapi/problem.go), over the query that lists the contest's problems; a problem
-- is its id.
unfoldable pub contest_problem :
    ContestDb → Result (List ℕ) → ℕ → Option UserBrief → Option Contest → ℕ → Result ℕ
contest_problem db problems now user c pid =
    if not (can_view_contest_problems db now user c)
    then err (statusf 403 "User can't view contest problem")
    else elim problems [
      | err e ↦ err (wrapped "couldn't get problems: %w" e)
      | ok ids ↦
          if contains ids pid
          then ok pid
          else err (wrapped "problem isn't in contest: %w" err_not_found)
    ]
