-- ===== src/Query/Filters.antt =====
-- The queries of db/external_resources.go, db/verif_session.go, db/contest_qna.go and db/pblist.go.
use kilonova.Prelude.{ℕ, Bool, true, false, Option, [], ◌∷◌, ◌++◌, String, if◌then◌else◌, str_eq}
use kilonova.Prelude.Text.{◌⧺◌}
use kilonova.Status.{Result}
use kilonova.User.{UserBrief, user_id_or_zero}
use kilonova.Query.Format.{literal}
use kilonova.Query.Builder.{
  Query, FilterBuilder, UpdateBuilder, new_filter_builder, new_update_builder, add_constraint,
  add_update, exec_update, where_clause,
}
use kilonova.Query.Steps.{for_some, when, ◌▷◌}
use kilonova.Query.Values.{Value, int, string, bool, format_limit_offset}

-- kilonova.ResourceType: "" is ResourceTypeNone.
pub record ExternalResourceFilter : Type 0 where
  pub id : Option ℕ
  pub problem_id : Option ℕ
  pub resource_type : String
  pub language : Option String
  pub visible : Option Bool
  pub accepted : Option Bool
  pub proposed_by : Option ℕ
  pub look : Bool
  pub looking_user : Option UserBrief
  pub ordering : String
  pub descending : Bool
  pub limit : ℕ
  pub offset : ℕ

pub record ExternalResourceUpdate : Type 0 where
  pub name : Option String
  pub description : Option String
  pub url : Option String
  pub language : Option String
  pub visible : Option Bool
  pub accepted : Option Bool
  pub resource_type : String
  pub position : Option ℕ

-- Addresses and prefixes are their texts.
pub record SessionFilter : Type 0 where
  pub id : Option String
  pub user_id : Option ℕ
  pub user_prefix : Option String
  pub ip_addr : Option String
  pub ip_prefix : Option String
  pub limit : ℕ
  pub offset : ℕ
  pub ordering : String
  pub ascending : Bool

pub record QuestionFilter : Type 0 where
  pub id : Option ℕ
  pub contest_id : Option ℕ
  pub author_id : Option ℕ
  pub limit : ℕ
  pub offset : ℕ

pub record ProblemListFilter : Type 0 where
  pub root : Bool
  pub featured_checklist : Option Bool
  pub parent_id : Option ℕ

abbrev pub is_given : String → Bool
is_given s = if str_eq s "" then false else true

-- getResourceOrdering
unfoldable pub get_resource_ordering : String → Bool → String
get_resource_ordering ordering descending =
    let ord = if descending then " DESC" else " ASC" in
    if str_eq ordering "created_at"
    then "ORDER BY created_at" ⧺ ord
    else "ORDER BY position" ⧺ ord ⧺ ", created_at" ⧺ ord ⧺ ", id ASC"

-- SessionFilter.ordering
unfoldable pub session_ordering : SessionFilter → String
session_ordering sf =
    let ord = if sf.ascending then " ASC" else " DESC" in
    if str_eq sf.ordering "last_access"
    then "ORDER BY (SELECT MAX(last_checked_at) FROM session_clients WHERE session_id = id)" ⧺ ord
      ⧺ " NULLS LAST"
    else if str_eq sf.ordering "user_id"
    then "ORDER BY user_id" ⧺ ord
    else "ORDER BY created_at" ⧺ ord

module _ {D : Type 0} where
  unfoldable pub external_resource_filter_query :
      ExternalResourceFilter → FilterBuilder (Value D) → FilterBuilder (Value D)
  unfolding add_constraint for_some when ◌▷◌ user_id_or_zero
  external_resource_filter_query filter =
      for_some filter.id (λ v. add_constraint "id = %s" (int v ∷ []))
      ▷ for_some filter.problem_id (λ v. add_constraint "problem_id = %s" (int v ∷ []))
      ▷ when (is_given filter.resource_type)
          (add_constraint "type = %s" (string filter.resource_type ∷ []))
      ▷ for_some filter.language (λ v. add_constraint "language = %s" (string v ∷ []))
      ▷ for_some filter.visible (λ v. add_constraint "visible = %s" (bool v ∷ []))
      ▷ for_some filter.accepted (λ v. add_constraint "accepted = %s" (bool v ∷ []))
      ▷ for_some filter.proposed_by (λ v. add_constraint "proposed_by = %s" (int v ∷ []))
      ▷ when filter.look (
          add_constraint
            "EXISTS (SELECT 1 FROM persistently_visible_pbs(%s) vpbs WHERE vpbs.problem_id = external_resources.problem_id)"
            (int (user_id_or_zero filter.looking_user) ∷ []))

  unfoldable pub external_resource_update_query :
      ExternalResourceUpdate → UpdateBuilder (Value D) → UpdateBuilder (Value D)
  unfolding add_update for_some when ◌▷◌
  external_resource_update_query upd =
      for_some upd.name (λ v. add_update "name = %s" (string v ∷ []))
      ▷ for_some upd.description (λ v. add_update "description = %s" (string v ∷ []))
      ▷ for_some upd.url (λ v. add_update "url = %s" (string v ∷ []))
      ▷ for_some upd.visible (λ v. add_update "language = %s" (bool v ∷ []))
      ▷ for_some upd.visible (λ v. add_update "visible = %s" (bool v ∷ []))
      ▷ for_some upd.accepted (λ v. add_update "accepted = %s" (bool v ∷ []))
      ▷ when (is_given upd.resource_type) (add_update "type = %s" (string upd.resource_type ∷ []))
      ▷ for_some upd.position (λ v. add_update "position = %s" (int v ∷ []))

  unfoldable pub external_resources : ExternalResourceFilter → Query (Value D)
  unfolding external_resource_filter_query where_clause get_resource_ordering format_limit_offset
  external_resources filter =
      let fb = external_resource_filter_query filter new_filter_builder in
      record {
        sql =
            literal "SELECT * FROM external_resources WHERE "
            ∷ (where_clause fb
                ++ (literal " "
                    ∷ literal (get_resource_ordering filter.ordering filter.descending)
                    ∷ literal " "
                    ∷ literal (format_limit_offset filter.limit filter.offset)
                    ∷ []));
        args = fb.args;
      }

  unfoldable pub update_external_resources :
      ExternalResourceFilter → ExternalResourceUpdate → Result (Query (Value D))
  unfolding external_resource_update_query external_resource_filter_query exec_update
  update_external_resources filter upd =
      exec_update "UPDATE external_resources SET "
        (external_resource_update_query upd new_update_builder)
        (external_resource_filter_query filter)

  unfoldable pub delete_external_resources : ExternalResourceFilter → Query (Value D)
  unfolding external_resource_filter_query where_clause
  delete_external_resources filter =
      let fb = external_resource_filter_query filter new_filter_builder in
      record {
        sql = literal "DELETE FROM external_resources WHERE " ∷ where_clause fb;
        args = fb.args;
      }

  -- SessionFilter.filterQuery
  unfoldable pub session_filter_query :
      SessionFilter → FilterBuilder (Value D) → FilterBuilder (Value D)
  unfolding add_constraint for_some ◌▷◌
  session_filter_query sf =
      for_some sf.id (λ v. add_constraint "id = %s" (string v ∷ []))
      ▷ for_some sf.user_id (λ v. add_constraint "user_id = %s" (int v ∷ []))
      ▷ for_some sf.user_prefix (λ v.
        add_constraint
          "EXISTS (SELECT 1 FROM users WHERE users.id = user_id AND name LIKE %s || '%%')"
          (string v ∷ []))
      ▷ for_some sf.ip_addr (λ v.
        add_constraint
          "EXISTS (SELECT 1 FROM session_clients WHERE session_id = id AND ip_addr = %s)"
          (string v ∷ []))
      ▷ for_some sf.ip_prefix (λ v.
        add_constraint
          "EXISTS (SELECT 1 FROM session_clients WHERE session_id = id AND ip_addr <<= %s)"
          (string v ∷ []))

  unfoldable pub sessions : SessionFilter → Query (Value D)
  unfolding session_filter_query where_clause session_ordering format_limit_offset
  sessions filter =
      let fb = session_filter_query filter new_filter_builder in
      record {
        sql =
            literal "SELECT * FROM sessions WHERE "
            ∷ (where_clause fb
                ++ (literal " "
                    ∷ literal (session_ordering filter)
                    ∷ literal " "
                    ∷ literal (format_limit_offset filter.limit filter.offset)
                    ∷ []));
        args = fb.args;
      }

  unfoldable pub count_sessions : SessionFilter → Query (Value D)
  unfolding session_filter_query where_clause
  count_sessions filter =
      let fb = session_filter_query filter new_filter_builder in
      record {
        sql = literal "SELECT COUNT(*) FROM sessions WHERE " ∷ where_clause fb;
        args = fb.args;
      }

  -- The constraints of ContestQuestions.
  unfoldable pub question_constraints :
      QuestionFilter → FilterBuilder (Value D) → FilterBuilder (Value D)
  unfolding add_constraint for_some ◌▷◌
  question_constraints filter =
      for_some filter.id (λ v. add_constraint "id = %s" (int v ∷ []))
      ▷ for_some filter.contest_id (λ v. add_constraint "contest_id = %s" (int v ∷ []))
      ▷ for_some filter.author_id (λ v. add_constraint "author_id = %s" (int v ∷ []))

  unfoldable pub contest_questions : QuestionFilter → Query (Value D)
  unfolding question_constraints where_clause format_limit_offset
  contest_questions filter =
      let fb = question_constraints filter new_filter_builder in
      record {
        sql =
            literal "SELECT * FROM contest_questions WHERE "
            ∷ (where_clause fb
                ++ (literal " ORDER BY created_at DESC "
                    ∷ literal (format_limit_offset filter.limit filter.offset)
                    ∷ []));
        args = fb.args;
      }

  -- The constraints of ProblemLists.
  unfoldable pub list_constraints :
      ProblemListFilter → FilterBuilder (Value D) → FilterBuilder (Value D)
  unfolding add_constraint for_some when ◌▷◌
  list_constraints filter =
      when filter.root (
        add_constraint "NOT EXISTS (SELECT 1 FROM problem_list_pblists WHERE child_id = lists.id)"
          [])
      ▷ for_some filter.featured_checklist
          (λ v. add_constraint "lists.featured_checklist = %s" (bool v ∷ []))
      ▷ for_some filter.parent_id (λ v.
        add_constraint
          "EXISTS (SELECT 1 FROM problem_list_deep_sublists WHERE child_id = lists.id AND parent_id = %s)"
          (int v ∷ []))
