-- ===== src/Query/Updates.antt =====
-- The updates of db/contest.go, db/pblist.go, db/subtask.go, db/subtest.go and db/test.go.
use kilonova.Prelude.{ℕ, Bool, true, false, Option, [], ◌∷◌, String}
use kilonova.Status.{Result}
use kilonova.Contest.{LeaderboardType, ContestType}
use kilonova.Submission.{SubTestUpdate}
use kilonova.Query.Builder.{
  Query, FilterBuilder, UpdateBuilder, new_update_builder, add_constraint, add_update, exec_update,
}
use kilonova.Query.Steps.{for_some, when, ◌▷◌}
use kilonova.Query.Values.{
  Value, int, string, bool, time, decimal, style, contest_type, time_or_null,
}

pub record ContestUpdate : Type 0 where
  pub name : Option String
  pub public_join : Option Bool
  pub visible : Option Bool
  pub description : Option String
  pub start_time : Option ℕ
  pub end_time : Option ℕ
  pub max_subs : Option ℕ
  pub register_during_contest : Option Bool
  pub public_leaderboard : Option Bool
  pub leaderboard_style : LeaderboardType
  pub icpc_submission_penalty : Option ℕ
  pub leaderboard_advanced_filter : Option Bool
  pub change_leaderboard_freeze : Bool
  pub leaderboard_freeze : Option ℕ
  pub submission_cooldown : Option ℕ
  pub question_cooldown : Option ℕ
  pub contest_type : ContestType
  pub ip_management_enabled : Option Bool
  pub whitelist_enabled : Option Bool
  pub per_user_time : Option ℕ

pub record ProblemListUpdate : Type 0 where
  pub author_id : Option ℕ
  pub title : Option String
  pub description : Option String
  pub sidebar_hidable : Option Bool
  pub featured_checklist : Option Bool

pub record SubTaskUpdate (D : Type 0) : Type 0 where
  pub visible_id : Option ℕ
  pub score : Option D

pub record TestUpdate (D : Type 0) : Type 0 where
  pub score : Option D
  pub visible_id : Option ℕ

abbrev pub is_style_given : LeaderboardType → Bool
is_style_given LeaderboardType.unset = false
is_style_given given = true

abbrev pub is_type_given : ContestType → Bool
is_type_given ContestType.none_given = false
is_type_given given = true

module _ {D : Type 0} where
  -- `fb.AddConstraint("id = %s", id)`
  unfoldable pub of_id : ℕ → FilterBuilder (Value D) → FilterBuilder (Value D)
  unfolding add_constraint
  of_id id = add_constraint "id = %s" (int id ∷ [])

  unfoldable pub contest_update_query :
      ContestUpdate → UpdateBuilder (Value D) → UpdateBuilder (Value D)
  unfolding add_update for_some when ◌▷◌
  contest_update_query upd =
      for_some upd.name (λ v. add_update "name = %s" (string v ∷ []))
      ▷ for_some upd.description (λ v. add_update "description = %s" (string v ∷ []))
      ▷ for_some upd.public_join (λ v. add_update "public_join = %s" (bool v ∷ []))
      ▷ for_some upd.visible (λ v. add_update "visible = %s" (bool v ∷ []))
      ▷ for_some upd.start_time (λ v. add_update "start_time = %s" (time v ∷ []))
      ▷ for_some upd.end_time (λ v. add_update "end_time = %s" (time v ∷ []))
      ▷ for_some upd.max_subs (λ v. add_update "max_sub_count = %s" (int v ∷ []))
      ▷ for_some upd.public_leaderboard (λ v. add_update "public_leaderboard = %s" (bool v ∷ []))
      ▷ when (is_style_given upd.leaderboard_style)
          (add_update "leaderboard_style = %s" (style upd.leaderboard_style ∷ []))
      ▷ when upd.change_leaderboard_freeze
          (add_update "leaderboard_freeze_time = %s" (time_or_null upd.leaderboard_freeze ∷ []))
      ▷ for_some upd.icpc_submission_penalty
          (λ v. add_update "icpc_submission_penalty = %s" (int v ∷ []))
      ▷ for_some upd.leaderboard_advanced_filter
          (λ v. add_update "leaderboard_advanced_filter = %s" (bool v ∷ []))
      ▷ for_some upd.question_cooldown (λ v. add_update "question_cooldown_ms = %s" (int v ∷ []))
      ▷ for_some upd.submission_cooldown
          (λ v. add_update "submission_cooldown_ms = %s" (int v ∷ []))
      ▷ for_some upd.per_user_time (λ v. add_update "per_user_time = %s" (int v ∷ []))
      ▷ for_some upd.register_during_contest
          (λ v. add_update "register_during_contest = %s" (bool v ∷ []))
      ▷ when (is_type_given upd.contest_type)
          (add_update "type = %s" (contest_type upd.contest_type ∷ []))
      ▷ for_some upd.ip_management_enabled
          (λ v. add_update "ip_management_enabled = %s" (bool v ∷ []))
      ▷ for_some upd.whitelist_enabled (λ v. add_update "whitelist_enabled = %s" (bool v ∷ []))

  unfoldable pub update_contest : ℕ → ContestUpdate → Result (Query (Value D))
  unfolding contest_update_query of_id exec_update
  update_contest id upd =
      exec_update "UPDATE contests SET " (contest_update_query upd new_update_builder) (of_id id)

  unfoldable pub problem_list_updates :
      ProblemListUpdate → UpdateBuilder (Value D) → UpdateBuilder (Value D)
  unfolding add_update for_some ◌▷◌
  problem_list_updates upd =
      for_some upd.author_id (λ v. add_update "author_id = %s" (int v ∷ []))
      ▷ for_some upd.title (λ v. add_update "title = %s" (string v ∷ []))
      ▷ for_some upd.description (λ v. add_update "description = %s" (string v ∷ []))
      ▷ for_some upd.sidebar_hidable (λ v. add_update "sidebar_hidable = %s" (bool v ∷ []))
      ▷ for_some upd.featured_checklist (λ v. add_update "featured_checklist = %s" (bool v ∷ []))

  unfoldable pub update_problem_list : ℕ → ProblemListUpdate → Result (Query (Value D))
  unfolding problem_list_updates of_id exec_update
  update_problem_list id upd =
      exec_update "UPDATE problem_lists SET " (problem_list_updates upd new_update_builder)
        (of_id id)

  unfoldable pub sub_task_updates :
      SubTaskUpdate D → UpdateBuilder (Value D) → UpdateBuilder (Value D)
  unfolding add_update for_some ◌▷◌
  sub_task_updates upd =
      for_some upd.visible_id (λ v. add_update "visible_id = %s" (int v ∷ []))
      ▷ for_some upd.score (λ v. add_update "score = %s" (decimal v ∷ []))

  unfoldable pub update_sub_task : ℕ → SubTaskUpdate D → Result (Query (Value D))
  unfolding sub_task_updates of_id exec_update
  update_sub_task id upd =
      exec_update "UPDATE subtasks SET " (sub_task_updates upd new_update_builder) (of_id id)

  unfoldable pub test_updates : TestUpdate D → UpdateBuilder (Value D) → UpdateBuilder (Value D)
  unfolding add_update for_some ◌▷◌
  test_updates upd =
      for_some upd.score (λ v. add_update "score = %s" (decimal v ∷ []))
      ▷ for_some upd.visible_id (λ v. add_update "visible_id = %s" (int v ∷ []))

  unfoldable pub update_test : ℕ → TestUpdate D → Result (Query (Value D))
  unfolding test_updates of_id exec_update
  update_test id upd =
      exec_update "UPDATE tests SET " (test_updates upd new_update_builder) (of_id id)

  unfoldable pub subtest_update_query :
      SubTestUpdate D → UpdateBuilder (Value D) → UpdateBuilder (Value D)
  unfolding add_update for_some ◌▷◌
  subtest_update_query upd =
      for_some upd.memory (λ v. add_update "memory = %s" (int v ∷ []))
      ▷ for_some upd.percentage (λ v. add_update "percentage = %s" (decimal v ∷ []))
      ▷ for_some upd.time (λ v. add_update "time = %s" (int v ∷ []))
      ▷ for_some upd.verdict (λ v. add_update "verdict = %s" (string v ∷ []))
      ▷ for_some upd.done (λ v. add_update "done = %s" (bool v ∷ []))
      ▷ for_some upd.skipped (λ v. add_update "skipped = %s" (bool v ∷ []))

  unfoldable pub update_sub_test : ℕ → SubTestUpdate D → Result (Query (Value D))
  unfolding subtest_update_query of_id exec_update
  update_sub_test id upd =
      exec_update "UPDATE submission_tests SET " (subtest_update_query upd new_update_builder)
        (of_id id)
