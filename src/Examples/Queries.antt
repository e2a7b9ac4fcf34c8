-- ===== src/Examples/Queries.antt =====
-- Queries of the examples.
use kilonova.Prelude.{ℕ, refl, true, false, none, some, [], ◌∷◌}
use kilonova.User.{is_admin, user_id_or_zero}
use kilonova.Submission.{Status, SubmissionUpdate}
use kilonova.Contest.{LeaderboardType, ContestType}
use kilonova.Query.Format.{literal, slot}
use kilonova.Query.Builder.{Query, new_filter_builder}
use kilonova.Query.Placeholders.{Agrees}
use kilonova.Query.Values.{Value, int, string, sub_status, null}
use kilonova.Query.SubmissionQuery.{
  SubmissionFilter, visible_submissions, bulk_update_submissions, sub_filter_query,
}
use kilonova.Query.SubmissionPlaceholders.{bulk_update_submissions-Agrees}
use kilonova.Query.Restricted.{IsRestricted, sub_filter_query-IsRestricted}
use kilonova.Query.Updates.{ContestUpdate, update_contest}
use kilonova.Query.ClientPlaceholders.{update_contest-Agrees}
use kilonova.Examples.Data.{ana}

abbrev all_submissions : SubmissionFilter ℕ
all_submissions = record {
  id = none;
  ids = none;
  user_id = none;
  problem_id = none;
  problem_list_id = none;
  contest_id = none;
  status = Status.none_given;
  waiting = false;
  lang = none;
  compile_error = none;
  score = none;
  look = false;
  looking_user = none;
  since = none;
  from_authors = false;
  limit = 0;
  offset = 0;
  ordering = "";
  ascending = false;
}

abbrev of_problem : SubmissionFilter ℕ
of_problem = record all_submissions { problem_id = some 4; look = true; looking_user = some ana }

abbrev to_reevaling : SubmissionUpdate ℕ
to_reevaling = record {
  status = Status.reevaling;
  score = some 0;
  compile_error = none;
  compile_message = none;
  compile_time = none;
  max_time = none;
  max_memory = none;
  change_verdict = false;
  icpc_verdict = none;
}

abbrev reevaling_query : Query (Value ℕ)
reevaling_query = record {
  sql =
      literal "UPDATE submissions SET "
      ∷ literal "status = "
      ∷ slot 1
      ∷ literal ", "
      ∷ literal "score = "
      ∷ slot 2
      ∷ literal " WHERE "
      ∷ literal "problem_id = "
      ∷ slot 3
      ∷ [];
  args = sub_status Status.reevaling ∷ Value.decimal 0 ∷ int 4 ∷ [];
}

bulk_update_submissions-Agrees_example : Agrees reevaling_query.sql reevaling_query.args
unfolding bulk_update_submissions
bulk_update_submissions-Agrees_example =
    bulk_update_submissions-Agrees (record all_submissions { problem_id = some 4 }) to_reevaling
      reevaling_query refl

sub_filter_query-IsRestricted_example :
    IsRestricted visible_submissions
      (int 7 ∷ int 4 ∷ null ∷ [])
      (sub_filter_query of_problem new_filter_builder)
unfolding is_admin user_id_or_zero
sub_filter_query-IsRestricted_example =
    sub_filter_query-IsRestricted of_problem new_filter_builder (refl, refl, refl, refl) refl refl

abbrev renamed : ContestUpdate
renamed = record {
  name = some "Finals";
  public_join = none;
  visible = none;
  description = none;
  start_time = none;
  end_time = none;
  max_subs = none;
  register_during_contest = none;
  public_leaderboard = none;
  leaderboard_style = LeaderboardType.unset;
  icpc_submission_penalty = none;
  leaderboard_advanced_filter = none;
  change_leaderboard_freeze = true;
  leaderboard_freeze = none;
  submission_cooldown = none;
  question_cooldown = none;
  contest_type = ContestType.none_given;
  ip_management_enabled = none;
  whitelist_enabled = none;
  per_user_time = none;
}

abbrev renamed_query : Query (Value ℕ)
renamed_query = record {
  sql =
      literal "UPDATE contests SET "
      ∷ literal "name = "
      ∷ slot 1
      ∷ literal ", "
      ∷ literal "leaderboard_freeze_time = "
      ∷ slot 2
      ∷ literal " WHERE "
      ∷ literal "id = "
      ∷ slot 3
      ∷ [];
  args = string "Finals" ∷ null ∷ int 15 ∷ [];
}

update_contest-Agrees_example : Agrees renamed_query.sql renamed_query.args
unfolding update_contest
update_contest-Agrees_example = update_contest-Agrees 15 renamed renamed_query refl
