-- ===== src/Query/SubmissionPlaceholders.antt =====
-- The placeholders of the queries of db/submission.go.
use kilonova.Prelude.{ℕ, ◌≡◌, refl, true, List, [], ◌∷◌, ltb, String, Bool-cases, inl, inr}
use kilonova.Status.{ok}
use kilonova.Submission.{SubmissionUpdate}
use kilonova.Query.Format.{parse_format}
use kilonova.Query.Builder.{
  Query, FilterBuilder, new_filter_builder, new_update_builder, add_constraint, format_string,
  where_clause,
}
use kilonova.Query.Placeholders.{
  Agrees, IsSequential, IsFilterOnly, IsSequentialUpdate, add_constraint-Keeps, add_update-Keeps,
  exec_update-Agrees, where_clause-Agrees, new_filter_builder-IsFilterOnly,
  add_constraint-KeepsFilterOnly, format_string-Agrees, around-Agrees,
  new_update_builder-IsSequentialUpdate,
}
use kilonova.Query.Slots.{fits}
use kilonova.Query.Steps.{Keeps, for_some-Keeps, when-Keeps, then-Keeps, if-Keeps}
use kilonova.Query.Values.{Value, int}
use kilonova.Query.SubmissionQuery.{
  SubmissionFilter, look_constraint, first_constraints, last_constraints, sub_filter_query,
  submission_count, sub_update_query, bulk_update_submissions,
}

-- What every constraint keeps that has one argument for each verb, the filter keeps.
module _ {D : Type 0} (I : FilterBuilder (Value D) → Type 0)
    (k : (wh : String) (args : List (Value D))
      → fits (parse_format wh) args ≡ true
      → Keeps I (add_constraint wh args))
    (filter : SubmissionFilter D) where
  pub look_constraint-Keeps : Keeps I (look_constraint filter)
  unfolding parse_format look_constraint
  look_constraint-Keeps = search (when-Keeps, k)

  pub first_constraints-Keeps : Keeps I (first_constraints filter)
  unfolding parse_format first_constraints
  first_constraints-Keeps = search (then-Keeps, for_some-Keeps, when-Keeps, if-Keeps, k) depth 20

  pub last_constraints-Keeps : Keeps I (last_constraints filter)
  unfolding parse_format last_constraints
  last_constraints-Keeps = search (then-Keeps, for_some-Keeps, when-Keeps, k) depth 20

  pub sub_filter_query-Keeps : Keeps I (sub_filter_query filter)
  unfolding sub_filter_query
  sub_filter_query-Keeps = search (
    then-Keeps, when-Keeps, first_constraints-Keeps, look_constraint-Keeps, last_constraints-Keeps,
  )

module _ {D : Type 0} where
  sub_update_query-Keeps :
      (upd : SubmissionUpdate D) → Keeps IsSequentialUpdate (sub_update_query upd)
  unfolding parse_format sub_update_query
  sub_update_query-Keeps upd =
      search (then-Keeps, for_some-Keeps, when-Keeps, add_update-Keeps) depth 20

  -- For every filter and every update that is accepted, the UPDATE that BulkUpdateSubmissions runs has
  -- the placeholders $1, $2, ... in the order of its text, exactly one for each argument, the ones of
  -- the SET part before the ones of the WHERE part, and no verb lacked an argument or was left over.
  pub bulk_update_submissions-Agrees :
      (filter : SubmissionFilter D) (upd : SubmissionUpdate D) (q : Query (Value D))
      → bulk_update_submissions filter upd ≡ ok q
      → Agrees q.sql q.args
  unfolding bulk_update_submissions
  bulk_update_submissions-Agrees filter upd q h =
      exec_update-Agrees _ _ _ q
        ((sub_update_query-Keeps upd).keep new_update_builder
          (new_update_builder-IsSequentialUpdate (Value D)))
        (sub_filter_query-Keeps IsSequential add_constraint-Keeps filter) h

  filtered :
      (filter : SubmissionFilter D) → IsFilterOnly (sub_filter_query filter new_filter_builder)
  filtered filter =
      (sub_filter_query-Keeps IsFilterOnly add_constraint-KeepsFilterOnly filter).keep
        new_filter_builder (new_filter_builder-IsFilterOnly (Value D))

  -- For every filter and limit, the query that SubmissionCount runs has the placeholders $1, $2, ... in
  -- the order of its text, exactly one for each argument, and no verb lacked an argument or was left
  -- over; this holds with and without the LIMIT that is added to the same builder.
  pub submission_count-Agrees :
      (filter : SubmissionFilter D) (limit : ℕ)
      → Agrees (submission_count filter limit).sql (submission_count filter limit).args
  unfolding submission_count parse_format
  submission_count-Agrees filter limit =
      let fb = sub_filter_query filter new_filter_builder in
      let (lim, limited) = format_string "LIMIT %s" (int limit ∷ []) fb in
      elim (Bool-cases (ltb 0 limit)) [
        | inl e ↦ rw e (
            around-Agrees (where_clause limited) lim " " ") sbc" limited.args
              (format_string-Agrees "LIMIT %s" (int limit) [] fb refl (filtered filter)))
        | inr e ↦ rw e (where_clause-Agrees fb (filtered filter))
      ]
