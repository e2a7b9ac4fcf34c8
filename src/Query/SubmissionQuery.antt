-- ===== src/Query/SubmissionQuery.antt =====
-- The queries on submissions that db/submission.go builds from a filter and an update.
use kilonova.Prelude.{
  ℕ, Bool, true, false, not, Option, List, [], ◌∷◌, ◌++◌, String, ltb, is_empty, ◌==◌,
  if◌then◌else◌, str_eq,
}
use kilonova.Prelude.Text.{◌⧺◌}
use kilonova.Status.{Result}
use kilonova.User.{UserBrief, is_admin, user_id_or_zero}
use kilonova.Submission.{Status, SubmissionUpdate}
use kilonova.Query.Format.{literal}
use kilonova.Query.Builder.{
  Query, FilterBuilder, UpdateBuilder, new_filter_builder, new_update_builder, where_clause,
  exec_update, add_constraint, add_update, format_string,
}
use kilonova.Query.Steps.{for_some, when, ◌▷◌}
use kilonova.Query.Values.{
  Value, int, ints, string, bool, time, decimal, sub_status, int_or_null, string_or_null,
  format_limit_offset,
}

-- A nil list of ids is `none`.
pub record SubmissionFilter (D : Type 0) : Type 0 where
  pub id : Option ℕ
  pub ids : Option (List ℕ)
  pub user_id : Option ℕ
  pub problem_id : Option ℕ
  pub problem_list_id : Option ℕ
  pub contest_id : Option ℕ
  pub status : Status
  pub waiting : Bool
  pub lang : Option String
  pub compile_error : Option Bool
  pub score : Option D
  pub look : Bool
  pub looking_user : Option UserBrief
  pub since : Option ℕ
  pub from_authors : Bool
  pub limit : ℕ
  pub offset : ℕ
  pub ordering : String
  pub ascending : Bool

-- `v != kilonova.StatusNone`
abbrev pub is_status_given : Status → Bool
is_status_given Status.none_given = false
is_status_given other = true

-- The condition of a submission's visibility; its sync with the database's lateralVisibleSubs is the
-- database's.
abbrev pub visible_submissions : String
visible_submissions =
    "EXISTS (SELECT 1 FROM visible_submissions_ex(%s, %s, %s) WHERE sub_id = submissions.id)"

-- getSubmissionOrdering
unfoldable pub get_submission_ordering : String → Bool → String
get_submission_ordering ordering ascending =
    let ord = if ascending then " ASC" else " DESC" in
    if str_eq ordering "max_time"
    then "ORDER BY max_time" ⧺ ord ⧺ ", id DESC"
    else if str_eq ordering "max_mem"
    then "ORDER BY max_memory" ⧺ ord ⧺ ", id DESC"
    else if str_eq ordering "score"
    then "ORDER BY score" ⧺ ord ⧺ ", id DESC"
    else if str_eq ordering "code_size"
    then "ORDER BY code_size" ⧺ ord ⧺ ", id DESC"
    else "ORDER BY id" ⧺ ord

module _ {D : Type 0} where
  unfoldable pub look_constraint :
      SubmissionFilter D → FilterBuilder (Value D) → FilterBuilder (Value D)
  unfolding user_id_or_zero is_admin add_constraint when
  look_constraint filter =
      let id = user_id_or_zero filter.looking_user in
      when (not (is_admin filter.looking_user)) (
        add_constraint visible_submissions
          (int id ∷ int_or_null filter.problem_id ∷ int_or_null filter.user_id ∷ []))

  -- subFilterQuery up to the visibility, the visibility, and the rest.
  unfoldable pub first_constraints :
      SubmissionFilter D → FilterBuilder (Value D) → FilterBuilder (Value D)
  unfolding add_constraint for_some when ◌▷◌
  first_constraints filter =
      for_some filter.id (λ v. add_constraint "id = %s" (int v ∷ []))
      ▷ for_some filter.ids (λ v. when (is_empty v) (add_constraint "0 = 1" []))
      ▷ for_some filter.ids
          (λ v. when (not (is_empty v)) (add_constraint "id = ANY(%s)" (ints v ∷ [])))
      ▷ for_some filter.user_id (λ v. add_constraint "user_id = %s" (int v ∷ []))
      ▷ for_some filter.problem_id (λ v. add_constraint "problem_id = %s" (int v ∷ []))
      ▷ for_some filter.problem_list_id (λ v.
        add_constraint
          "EXISTS (SELECT 1 FROM problem_list_deep_problems WHERE list_id = %s AND problem_id = submissions.problem_id)"
          (int v ∷ []))
      ▷ for_some filter.contest_id (λ v.
        if v == 0
        then add_constraint "contest_id IS NULL" []
        else add_constraint "contest_id = %s" (int v ∷ []))

  unfoldable pub last_constraints :
      SubmissionFilter D → FilterBuilder (Value D) → FilterBuilder (Value D)
  unfolding add_constraint for_some when ◌▷◌
  last_constraints filter =
      when filter.from_authors (
        add_constraint
          "\n\t\tEXISTS (\n\t\t\tSELECT 1 FROM problem_user_access \n\t\t\t\tWHERE access = 'editor' \n\t\t\t\t\tAND problem_id = submissions.problem_id \n\t\t\t\t\tAND user_id = submissions.user_id\n\t\t)"
          [])
      ▷ when (is_status_given filter.status)
          (add_constraint "status = %s" (sub_status filter.status ∷ []))
      ▷ when filter.waiting (
          add_constraint "(status = %s OR status = %s OR status = %s)" (
            sub_status Status.creating
            ∷ sub_status Status.waiting
            ∷ sub_status Status.working
            ∷ []))
      ▷ for_some filter.lang (λ v. add_constraint "lower(language) = lower(%s)" (string v ∷ []))
      ▷ for_some filter.score (λ v. add_constraint "score = %s" (decimal v ∷ []))
      ▷ for_some filter.since (λ v. add_constraint "created_at > %s" (time v ∷ []))
      ▷ for_some filter.compile_error (λ v. add_constraint "compile_error = %s" (bool v ∷ []))

  unfoldable pub sub_filter_query :
      SubmissionFilter D → FilterBuilder (Value D) → FilterBuilder (Value D)
  unfolding look_constraint first_constraints last_constraints when ◌▷◌
  sub_filter_query filter =
      first_constraints filter ▷ when filter.look (look_constraint filter) ▷ last_constraints filter

  unfoldable pub sub_update_query :
      SubmissionUpdate D → UpdateBuilder (Value D) → UpdateBuilder (Value D)
  unfolding add_update for_some when ◌▷◌
  sub_update_query upd =
      when (is_status_given upd.status) (add_update "status = %s" (sub_status upd.status ∷ []))
      ▷ for_some upd.score (λ v. add_update "score = %s" (decimal v ∷ []))
      ▷ when upd.change_verdict
          (add_update "icpc_verdict = %s" (string_or_null upd.icpc_verdict ∷ []))
      ▷ for_some upd.compile_error (λ v. add_update "compile_error = %s" (bool v ∷ []))
      ▷ for_some upd.compile_message (λ v. add_update "compile_message = %s" (string v ∷ []))
      ▷ for_some upd.compile_time (λ v. add_update "compile_duration = %s" (int v ∷ []))
      ▷ for_some upd.max_time (λ v. add_update "max_time = %s" (int v ∷ []))
      ▷ for_some upd.max_memory (λ v. add_update "max_memory = %s" (int v ∷ []))

  -- The call of Select in DB.Submissions.
  unfoldable pub submissions : SubmissionFilter D → Query (Value D)
  unfolding sub_filter_query where_clause get_submission_ordering format_limit_offset
  submissions filter =
      let fb = sub_filter_query filter new_filter_builder in
      record {
        sql =
            literal "SELECT submissions.* FROM submissions WHERE "
            ∷ (where_clause fb
                ++ (literal " "
                    ∷ literal (get_submission_ordering filter.ordering filter.ascending)
                    ∷ literal " "
                    ∷ literal (format_limit_offset filter.limit filter.offset)
                    ∷ []));
        args = fb.args;
      }

  -- The call of QueryRow in DB.SubmissionCount.
  unfoldable pub submission_count : SubmissionFilter D → ℕ → Query (Value D)
  unfolding sub_filter_query where_clause format_string
  submission_count filter limit =
      let fb = sub_filter_query filter new_filter_builder in
      let (lim, fb_limited) = format_string "LIMIT %s" (int limit ∷ []) fb in
      if ltb 0 limit
      then record {
        sql =
            literal "SELECT COUNT(*) FROM (SELECT 1 FROM submissions WHERE "
            ∷ (where_clause fb_limited ++ (literal " " ∷ (lim ++ (literal ") sbc" ∷ []))));
        args = fb_limited.args;
      }
      else record {
        sql = literal "SELECT COUNT(*) FROM submissions WHERE " ∷ where_clause fb;
        args = fb.args;
      }

  -- The call of QueryRow in DB.LastSubmissionTime.
  unfoldable pub last_submission_time : SubmissionFilter D → Query (Value D)
  unfolding sub_filter_query where_clause
  last_submission_time filter =
      let fb = sub_filter_query filter new_filter_builder in
      record {
        sql = literal "SELECT MAX(created_at) FROM submissions WHERE " ∷ where_clause fb;
        args = fb.args;
      }

  -- DB.BulkUpdateSubmissions up to the call of Exec, whose arguments are the result.
  unfoldable pub bulk_update_submissions :
      SubmissionFilter D → SubmissionUpdate D → Result (Query (Value D))
  unfolding sub_update_query sub_filter_query exec_update
  bulk_update_submissions filter upd =
      exec_update "UPDATE submissions SET " (sub_update_query upd new_update_builder)
        (sub_filter_query filter)
