-- ===== src/Query/Restricted.antt =====
-- Conditions that a query is restricted to, and the visibility of the submissions it may return.
use kilonova.Prelude.{
  suc, ◌≡◌, refl, sym, ap, ◌∙◌, true, false, List, [], ◌∷◌, ◌++◌, String, length,
}
use kilonova.User.{is_admin, user_id_or_zero}
use kilonova.Query.Format.{trim_space, sprintf, parse_format}
use kilonova.Query.Builder.{Sql, FilterBuilder, count_from, add_constraint}
use kilonova.Query.Slots.{append_nil, append_assoc}
use kilonova.Query.Placeholders.{IsSequential, add_constraint-Keeps}
use kilonova.Query.Steps.{Keeps, when, ◌▷◌}
use kilonova.Query.Values.{Value, int, int_or_null}
use kilonova.Query.SubmissionQuery.{
  SubmissionFilter, visible_submissions, look_constraint, first_constraints, sub_filter_query,
}
use kilonova.Query.SubmissionPlaceholders.{first_constraints-Keeps, last_constraints-Keeps}

module _ {ℓ} {A : Type ℓ} where
  -- One of the conditions that AND joins is the format string, and its placeholders stand for the
  -- values.
  pub record IsRestricted (wh : String) (values : List A) (fb : FilterBuilder A) : Type ℓ where
    pub before : List Sql
    pub after : List Sql
    pub args_before : List A
    pub args_after : List A
    pub condition :
        fb.conditions
        ≡ before
          ++ (trim_space
                (sprintf (parse_format wh) (count_from (suc (length args_before)) (length values)))
              ∷ after)
    pub arguments : fb.args ≡ args_before ++ (values ++ args_after)

  pub add_constraint-IsRestricted :
      (wh : String) (a : A) (more : List A) (fb : FilterBuilder A)
      → IsSequential fb
      → IsRestricted wh (a ∷ more) (add_constraint wh (a ∷ more) fb)
  unfolding add_constraint
  add_constraint-IsRestricted wh a more fb i = record {
    before = fb.conditions;
    after = [];
    args_before = fb.args;
    args_after = [];
    condition =
        ap
          (λ k.
            fb.conditions
            ++ (trim_space (sprintf (parse_format wh) (count_from k (length (a ∷ more)))) ∷ []))
          i.0;
    arguments = ap (λ r. fb.args ++ r) (sym (append_nil (a ∷ more)));
  }

  -- More conditions and arguments after the ones there are.
  IsRestricted-snoc :
      (wh : String) (values : List A) (fb grown : FilterBuilder A) (condition : Sql) (args : List A)
      → grown.conditions ≡ fb.conditions ++ (condition ∷ [])
      → grown.args ≡ fb.args ++ args
      → IsRestricted wh values fb
      → IsRestricted wh values grown
  IsRestricted-snoc wh values fb grown condition args hc ha r = record {
    before = r.before;
    after = r.after ++ (condition ∷ []);
    args_before = r.args_before;
    args_after = r.args_after ++ args;
    condition =
        hc ∙ ap (λ l. l ++ (condition ∷ [])) r.condition ∙ append_assoc r.before _ (condition ∷ []);
    arguments =
        ha
        ∙ ap (λ l. l ++ args) r.arguments
        ∙ append_assoc r.args_before _ args
        ∙ ap (λ l. r.args_before ++ l) (append_assoc values r.args_after args);
  }

  -- Later constraints leave it standing.
  pub IsRestricted-Keeps :
      (wh : String) (values : List A) (later : String) (args : List A)
      → Keeps (IsRestricted wh values) (add_constraint later args)
  unfolding add_constraint
  IsRestricted-Keeps wh values later [] = record {
    keep = λ fb r. IsRestricted-snoc wh values fb _ _ [] refl (sym (append_nil fb.args)) r;
  }
  IsRestricted-Keeps wh values later (a ∷ more) = record {
    keep = λ fb r. IsRestricted-snoc wh values fb _ _ (a ∷ more) refl refl r;
  }

-- When a filter looks with the eyes of a user who is not an administrator, or of nobody, one of the
-- conditions that its query joins by AND is that of visible_submissions_ex, for the user's id (0 for
-- nobody) and the filter's problem and user, whatever else the filter asks and whatever update stands
-- before it in a builder whose placeholders are numbered in order.
pub sub_filter_query-IsRestricted :
    {D : Type 0} (filter : SubmissionFilter D) (fb : FilterBuilder (Value D))
    → IsSequential fb
    → filter.look ≡ true
    → is_admin filter.looking_user ≡ false
    → IsRestricted visible_submissions
        (int (user_id_or_zero filter.looking_user)
          ∷ int_or_null filter.problem_id
          ∷ int_or_null filter.user_id
          ∷ [])
        (sub_filter_query filter fb)
unfolding sub_filter_query look_constraint when ◌▷◌
sub_filter_query-IsRestricted filter fb i look user =
    let values =
      int (user_id_or_zero filter.looking_user)
      ∷ int_or_null filter.problem_id
      ∷ int_or_null filter.user_id
      ∷ [] in
    let fb1 = first_constraints filter fb in
    let i1 = (first_constraints-Keeps IsSequential add_constraint-Keeps filter).keep fb i in
    let looked : IsRestricted visible_submissions values
        (when filter.look (look_constraint filter) fb1) =
      rw (look, user) (add_constraint-IsRestricted visible_submissions _ _ fb1 i1) in
    (last_constraints-Keeps (IsRestricted visible_submissions values)
        (λ later args fits. IsRestricted-Keeps visible_submissions values later args) filter).keep
      (when filter.look (look_constraint filter) fb1) looked
