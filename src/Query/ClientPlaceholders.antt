-- ===== src/Query/ClientPlaceholders.antt =====
-- The placeholders of the queries of Query/Updates.antt and Query/Filters.antt.
use kilonova.Prelude.{ℕ, ◌≡◌}
use kilonova.Status.{ok}
use kilonova.Submission.{SubTestUpdate}
use kilonova.Query.Format.{parse_format}
use kilonova.Query.Builder.{
  where_clause, Query, FilterBuilder, new_filter_builder, new_update_builder,
}
use kilonova.Query.Placeholders.{
  Agrees, IsSequential, IsFilterOnly, IsSequentialUpdate, add_constraint-Keeps, add_update-Keeps,
  exec_update-Agrees, where_clause-Agrees, add_constraint-KeepsFilterOnly,
  new_filter_builder-IsFilterOnly, new_update_builder-IsSequentialUpdate,
}
use kilonova.Query.Steps.{Keeps, for_some-Keeps, when-Keeps, then-Keeps}
use kilonova.Query.Values.{Value}
use kilonova.Query.Updates.{
  ContestUpdate, ProblemListUpdate, SubTaskUpdate, TestUpdate, of_id, contest_update_query,
  update_contest, problem_list_updates, update_problem_list, sub_task_updates, update_sub_task,
  test_updates, update_test, subtest_update_query, update_sub_test,
}
use kilonova.Query.Filters.{
  ExternalResourceFilter, ExternalResourceUpdate, SessionFilter, QuestionFilter, ProblemListFilter,
  external_resource_filter_query, external_resource_update_query, update_external_resources,
  delete_external_resources, session_filter_query, count_sessions, question_constraints,
  list_constraints,
}

module _ {D : Type 0} where
  of_id-Keeps : (id : ℕ) → Keeps (IsSequential {A = Value D}) (of_id id)
  unfolding of_id parse_format
  of_id-Keeps id = search (add_constraint-Keeps)

  -- For every contest and every update that is accepted, the UPDATE that UpdateContest runs has the
  -- placeholders $1, $2, ... in the order of its text, exactly one for each argument, the contest's id
  -- last, and no verb lacked an argument or was left over.
  pub update_contest-Agrees :
      (id : ℕ) (upd : ContestUpdate) (q : Query (Value D))
      → update_contest id upd ≡ ok q
      → Agrees q.sql q.args
  unfolding update_contest contest_update_query parse_format
  update_contest-Agrees id upd q h =
      let k : Keeps (IsSequentialUpdate {A = Value D}) (contest_update_query upd) =
        search (then-Keeps, for_some-Keeps, when-Keeps, add_update-Keeps) depth 40 in
      exec_update-Agrees _ _ _ q
        (k.keep new_update_builder (new_update_builder-IsSequentialUpdate (Value D)))
        (of_id-Keeps id) h

  pub update_problem_list-Agrees :
      (id : ℕ) (upd : ProblemListUpdate) (q : Query (Value D))
      → update_problem_list id upd ≡ ok q
      → Agrees q.sql q.args
  unfolding update_problem_list problem_list_updates parse_format
  update_problem_list-Agrees id upd q h =
      let k : Keeps (IsSequentialUpdate {A = Value D}) (problem_list_updates upd) =
        search (then-Keeps, for_some-Keeps, add_update-Keeps) depth 40 in
      exec_update-Agrees _ _ _ q
        (k.keep new_update_builder (new_update_builder-IsSequentialUpdate (Value D)))
        (of_id-Keeps id) h

  pub update_sub_task-Agrees :
      (id : ℕ) (upd : SubTaskUpdate D) (q : Query (Value D))
      → update_sub_task id upd ≡ ok q
      → Agrees q.sql q.args
  unfolding update_sub_task sub_task_updates parse_format
  update_sub_task-Agrees id upd q h =
      let k : Keeps (IsSequentialUpdate {A = Value D}) (sub_task_updates upd) =
        search (then-Keeps, for_some-Keeps, add_update-Keeps) depth 40 in
      exec_update-Agrees _ _ _ q
        (k.keep new_update_builder (new_update_builder-IsSequentialUpdate (Value D)))
        (of_id-Keeps id) h

  pub update_test-Agrees :
      (id : ℕ) (upd : TestUpdate D) (q : Query (Value D))
      → update_test id upd ≡ ok q
      → Agrees q.sql q.args
  unfolding update_test test_updates parse_format
  update_test-Agrees id upd q h =
      let k : Keeps (IsSequentialUpdate {A = Value D}) (test_updates upd) =
        search (then-Keeps, for_some-Keeps, add_update-Keeps) depth 40 in
      exec_update-Agrees _ _ _ q
        (k.keep new_update_builder (new_update_builder-IsSequentialUpdate (Value D)))
        (of_id-Keeps id) h

  pub update_sub_test-Agrees :
      (id : ℕ) (upd : SubTestUpdate D) (q : Query (Value D))
      → update_sub_test id upd ≡ ok q
      → Agrees q.sql q.args
  unfolding update_sub_test subtest_update_query parse_format
  update_sub_test-Agrees id upd q h =
      let k : Keeps (IsSequentialUpdate {A = Value D}) (subtest_update_query upd) =
        search (then-Keeps, for_some-Keeps, add_update-Keeps) depth 40 in
      exec_update-Agrees _ _ _ q
        (k.keep new_update_builder (new_update_builder-IsSequentialUpdate (Value D)))
        (of_id-Keeps id) h

  external_resource_filter_query-Keeps :
      (filter : ExternalResourceFilter)
      → Keeps (IsSequential {A = Value D}) (external_resource_filter_query filter)
  unfolding external_resource_filter_query parse_format
  external_resource_filter_query-Keeps filter =
      search (then-Keeps, for_some-Keeps, when-Keeps, add_constraint-Keeps) depth 40

  -- For every filter and every update that is accepted, the UPDATE that UpdateExternalResources runs
  -- has the placeholders $1, $2, ... in the order of its text, exactly one for each argument, and no
  -- verb lacked an argument or was left over.
  pub update_external_resources-Agrees :
      (filter : ExternalResourceFilter) (upd : ExternalResourceUpdate) (q : Query (Value D))
      → update_external_resources filter upd ≡ ok q
      → Agrees q.sql q.args
  unfolding update_external_resources external_resource_update_query parse_format
  update_external_resources-Agrees filter upd q h =
      let k : Keeps (IsSequentialUpdate {A = Value D}) (external_resource_update_query upd) =
        search (then-Keeps, for_some-Keeps, when-Keeps, add_update-Keeps) depth 40 in
      exec_update-Agrees _ _ _ q
        (k.keep new_update_builder (new_update_builder-IsSequentialUpdate (Value D)))
        (external_resource_filter_query-Keeps filter) h

  -- The text of a filter that no update precedes.
  filter_only-Agrees :
      (constrain : FilterBuilder (Value D) → FilterBuilder (Value D))
      → Keeps IsFilterOnly constrain
      → Agrees (where_clause (constrain new_filter_builder)) (constrain new_filter_builder).args
  filter_only-Agrees constrain k =
      where_clause-Agrees (constrain new_filter_builder)
        (k.keep new_filter_builder (new_filter_builder-IsFilterOnly (Value D)))

module _ (D : Type 0) where
  pub delete_external_resources-Agrees :
      (filter : ExternalResourceFilter)
      → Agrees
          (delete_external_resources {D = D} filter).sql
          (delete_external_resources {D = D} filter).args
  unfolding delete_external_resources external_resource_filter_query parse_format
  delete_external_resources-Agrees filter =
      filter_only-Agrees (external_resource_filter_query filter)
        (search (then-Keeps, for_some-Keeps, when-Keeps, add_constraint-KeepsFilterOnly) depth 40)

  pub count_sessions-Agrees :
      (filter : SessionFilter)
      → Agrees (count_sessions {D = D} filter).sql (count_sessions {D = D} filter).args
  unfolding count_sessions session_filter_query parse_format
  count_sessions-Agrees filter =
      filter_only-Agrees (session_filter_query filter)
        (search (then-Keeps, for_some-Keeps, add_constraint-KeepsFilterOnly) depth 40)

  pub question_constraints-Agrees :
      (filter : QuestionFilter)
      → Agrees
          (where_clause (question_constraints filter (new_filter_builder {A = Value D})))
          (question_constraints filter (new_filter_builder {A = Value D})).args
  unfolding question_constraints parse_format
  question_constraints-Agrees filter =
      filter_only-Agrees (question_constraints filter)
        (search (then-Keeps, for_some-Keeps, add_constraint-KeepsFilterOnly) depth 40)

  pub list_constraints-Agrees :
      (filter : ProblemListFilter)
      → Agrees
          (where_clause (list_constraints filter (new_filter_builder {A = Value D})))
          (list_constraints filter (new_filter_builder {A = Value D})).args
  unfolding list_constraints parse_format
  list_constraints-Agrees filter =
      filter_only-Agrees (list_constraints filter)
        (search (then-Keeps, for_some-Keeps, when-Keeps, add_constraint-KeepsFilterOnly) depth 40)
