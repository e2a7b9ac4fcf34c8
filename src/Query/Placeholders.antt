-- ===== src/Query/Placeholders.antt =====
-- The numbers of the placeholders in the queries of db/querybuilder.go.
use kilonova.Prelude.{
  ℕ, suc, ◌+◌, ◌≡◌, refl, sym, ap, ◌∙◌, true, List, [], ◌∷◌, ◌++◌, String, length, arith, all,
  is_empty, if◌then◌else◌, length-append, subst,
}
use kilonova.Status.{Result, ok, err, ◌>>◌, err_no_updates}
use kilonova.Query.Format.{literal, slots, is_clean, trim_space, parse_format, sprintf, join}
use kilonova.Query.Builder.{
  Query, exec_update, check_updates, Sql, count_from, FilterBuilder, UpdateBuilder,
  new_filter_builder, new_update_builder, where_clause, with_update, add_constraint, add_update,
  make_filter, to_update, format_string,
}
use kilonova.Query.Slots.{
  all_slots, append_nil, append_assoc, slots-append, is_clean-append, slots-trim_space,
  is_clean-trim_space, fits, sprintf_lem, slots-join, is_clean-join, all_slots-append, all-append,
  count_from-append, length-count_from,
}
use kilonova.Query.Steps.{Keeps}

-- The parts as ToUpdate and Where join them.
joined-Agrees :
    (parts : List Sql) (otherwise : Sql) (separator : String)
    → slots otherwise ≡ []
    → is_clean otherwise ≡ true
    → (slots (if is_empty parts then otherwise else join parts separator) ≡ all_slots parts)
      × (is_clean (if is_empty parts then otherwise else join parts separator) ≡ all is_clean parts)
joined-Agrees [] otherwise separator shown clean = (shown, clean)
joined-Agrees (t ∷ ts) otherwise separator shown clean =
    (slots-join (t ∷ ts) separator, is_clean-join (t ∷ ts) separator)

module _ {ℓ} {A : Type ℓ} where
  -- The query's text and arguments agree: its placeholders are $1, $2, ..., one for each argument, in
  -- the arguments' order, and Sprintf reported nothing.
  abbrev pub Agrees : Sql → List A → Type 0
  Agrees sql args = (slots sql ≡ count_from 1 (length args)) × (is_clean sql ≡ true)

  -- Texts that are joined with more text that has no placeholder.
  abbrev pub Parts : Sql → List Sql → List A → ℕ → Type 0
  Parts prefix parts args pos =
      (pos ≡ suc (length args))
      × (slots prefix ++ all_slots parts ≡ count_from 1 (length args))
      × (is_clean prefix ≡ true)
      × (all is_clean parts ≡ true)

  abbrev pub IsSequential : FilterBuilder A → Type 0
  IsSequential fb = Parts fb.prefix fb.conditions fb.args fb.pos

  -- Of a builder that no update precedes.
  abbrev pub IsFilterOnly : FilterBuilder A → Type 0
  IsFilterOnly fb = (fb.prefix ≡ []) × IsSequential fb

  abbrev pub IsSequentialUpdate : UpdateBuilder A → Type 0
  IsSequentialUpdate upd = Parts [] upd.to_upd upd.args upd.pos

  -- One more part, that shows the next placeholders.
  Parts-snoc :
      (prefix : Sql) (parts : List Sql) (args : List A) (pos : ℕ) (part : Sql) (more : List A)
      → Parts prefix parts args pos
      → slots part ≡ count_from pos (length more)
      → is_clean part ≡ true
      → Parts prefix (parts ++ (part ∷ [])) (args ++ more) (pos + length more)
  Parts-snoc prefix parts args pos part more (p, s, c, cs) shown clean =
      let len = length-append args more in
      let next : slots part ≡ count_from (1 + length args) (length more) =
        shown ∙ ap (λ k. count_from k (length more)) (p ∙ omega arith) in
      (
        omega (arith, p, len),
        ap (λ r. slots prefix ++ r) (all_slots-append parts part)
            ∙ sym (append_assoc (slots prefix) (all_slots parts) (slots part))
            ∙ ap (λ r. r ++ slots part) s
            ∙ ap (λ r. count_from 1 (length args) ++ r) next
            ∙ count_from-append 1 (length args) (length more)
            ∙ ap (λ k. count_from 1 k) (sym len),
        c,
        all-append parts part cs clean,
      )

  -- A format string that fits its arguments, filled with the next numbers.
  filled :
      (wh : String) (args : List A) (pos : ℕ)
      → fits (parse_format wh) args ≡ true
      → (slots (sprintf (parse_format wh) (count_from pos (length args)))
          ≡ count_from pos (length args))
        × (is_clean (sprintf (parse_format wh) (count_from pos (length args))) ≡ true)
  filled wh args pos h =
      sprintf_lem (parse_format wh) (count_from pos (length args))
        (ground (arith, h, length-count_from pos (length args)))

  -- A part with no verb and no argument.
  Parts-plain :
      (prefix : Sql) (parts : List Sql) (args : List A) (pos : ℕ) (part : Sql)
      → Parts prefix parts args pos
      → slots part ≡ []
      → is_clean part ≡ true
      → Parts prefix (parts ++ (part ∷ [])) args pos
  Parts-plain prefix parts args pos part (p, s, c, cs) shown clean = (
    p,
    ap (λ r. slots prefix ++ r) (all_slots-append parts part)
        ∙ ap (λ r. slots prefix ++ (all_slots parts ++ r)) shown
        ∙ ap (λ r. slots prefix ++ r) (append_nil (all_slots parts))
        ∙ s,
    c,
    all-append parts part cs clean,
  )

  pub add_constraint-IsSequential :
      (wh : String) (args : List A) (fb : FilterBuilder A)
      → fits (parse_format wh) args ≡ true
      → IsSequential fb
      → IsSequential (add_constraint wh args fb)
  unfolding add_constraint
  add_constraint-IsSequential wh [] fb h i =
      Parts-plain fb.prefix fb.conditions fb.args fb.pos (trim_space (literal wh ∷ [])) i
        (slots-trim_space (literal wh ∷ [])) (is_clean-trim_space (literal wh ∷ []))
  add_constraint-IsSequential wh (a ∷ more) fb h i =
      let (shown, clean) = filled wh (a ∷ more) fb.pos h in
      let made = sprintf (parse_format wh) (count_from fb.pos (length (a ∷ more))) in
      Parts-snoc fb.prefix fb.conditions fb.args fb.pos (trim_space made) (a ∷ more) i
        (slots-trim_space made ∙ shown) (is_clean-trim_space made ∙ clean)

  pub add_update-IsSequentialUpdate :
      (wh : String) (args : List A) (upd : UpdateBuilder A)
      → fits (parse_format wh) args ≡ true
      → IsSequentialUpdate upd
      → IsSequentialUpdate (add_update wh args upd)
  unfolding add_update
  add_update-IsSequentialUpdate wh [] upd h i =
      Parts-plain [] upd.to_upd upd.args upd.pos (literal wh ∷ []) i refl refl
  add_update-IsSequentialUpdate wh (a ∷ more) upd h i =
      let (shown, clean) = filled wh (a ∷ more) upd.pos h in
      Parts-snoc [] upd.to_upd upd.args upd.pos _ (a ∷ more) i shown clean

  pub make_filter-IsSequential :
      (upd : UpdateBuilder A) → IsSequentialUpdate upd → IsSequential (make_filter upd)
  unfolding make_filter to_update
  make_filter-IsSequential upd (p, s, c, cs) =
      let (shown, clean) = joined-Agrees upd.to_upd [] ", " refl refl in
      (p, append_nil _ ∙ shown ∙ s, clean ∙ cs, refl)

  pub with_update-Agrees :
      (fb : FilterBuilder A) → IsSequential fb → Agrees (with_update fb) fb.args
  unfolding with_update where_clause
  with_update-Agrees fb (p, s, c, cs) =
      let (shown, clean) = joined-Agrees fb.conditions (literal "1 = 1" ∷ []) " AND " refl refl in
      let rest = literal " WHERE " ∷ where_clause fb in
      (
        slots-append fb.prefix rest ∙ ap (λ r. slots fb.prefix ++ r) shown ∙ s,
        is_clean-append fb.prefix rest ∙ ground (arith, c, clean ∙ cs),
      )

  pub where_clause-Agrees :
      (fb : FilterBuilder A) → IsFilterOnly fb → Agrees (where_clause fb) fb.args
  unfolding where_clause
  where_clause-Agrees fb (none_before, (p, s, c, cs)) =
      let (shown, clean) = joined-Agrees fb.conditions (literal "1 = 1" ∷ []) " AND " refl refl in
      (shown ∙ ap (λ r. slots r ++ all_slots fb.conditions) (sym none_before) ∙ s, clean ∙ cs)

pub new_filter_builder-IsSequential {ℓ} : (A : Type ℓ) → IsSequential (new_filter_builder {A = A})
new_filter_builder-IsSequential A = (refl, refl, refl, refl)

pub new_update_builder-IsSequentialUpdate {ℓ} :
    (A : Type ℓ) → IsSequentialUpdate (new_update_builder {A = A})
new_update_builder-IsSequentialUpdate A = (refl, refl, refl, refl)

module _ {ℓ} {A : Type ℓ} where
  pub add_constraint-Keeps :
      (wh : String) (args : List A)
      → fits (parse_format wh) args ≡ true
      → Keeps IsSequential (add_constraint wh args)
  add_constraint-Keeps wh args h = record {
    keep = λ fb i. add_constraint-IsSequential wh args fb h i;
  }

  pub add_constraint-KeepsFilterOnly :
      (wh : String) (args : List A)
      → fits (parse_format wh) args ≡ true
      → Keeps IsFilterOnly (add_constraint wh args)
  unfolding add_constraint
  add_constraint-KeepsFilterOnly wh [] h = record {
    keep = λ fb i. (i.0, add_constraint-IsSequential wh [] fb h i.1);
  }
  add_constraint-KeepsFilterOnly wh (a ∷ more) h = record {
    keep = λ fb i. (i.0, add_constraint-IsSequential wh (a ∷ more) fb h i.1);
  }

  -- Texts with no placeholder around the end.
  pub around-Agrees :
      (t u : Sql) (between after : String) (args : List A)
      → Agrees (t ++ u) args
      → Agrees (t ++ (literal between ∷ (u ++ (literal after ∷ [])))) args
  around-Agrees t u between after args (shown, clean) =
      let end = u ++ (literal after ∷ []) in
      (
        slots-append t (literal between ∷ end)
            ∙ ap (λ r. slots t ++ r) (slots-append u (literal after ∷ []) ∙ append_nil (slots u))
            ∙ sym (slots-append t u)
            ∙ shown,
        is_clean-append t (literal between ∷ end)
            ∙ ground (arith, is_clean-append u (literal after ∷ []), is_clean-append t u, clean),
      )

  -- A text with its own arguments after the conditions.
  pub format_string-Agrees :
      (str : String) (a : A) (more : List A) (fb : FilterBuilder A)
      → fits (parse_format str) (a ∷ more) ≡ true
      → IsFilterOnly fb
      → Agrees
          (where_clause (format_string str (a ∷ more) fb).1 ++ (format_string str (a ∷ more) fb).0)
          (format_string str (a ∷ more) fb).1.args
  unfolding where_clause format_string
  format_string-Agrees str a more fb h i =
      let (shown, clean) = filled str (a ∷ more) fb.pos h in
      let made = sprintf (parse_format str) (count_from fb.pos (length (a ∷ more))) in
      let (before, clean_before) = where_clause-Agrees fb i in
      let len = length-append fb.args (a ∷ more) in
      let next : fb.pos ≡ 1 + length fb.args = i.1.0 ∙ omega arith in
      (
        slots-append (where_clause fb) (trim_space made)
            ∙ ap (λ r. r ++ slots (trim_space made)) before
            ∙ ap (λ r. count_from 1 (length fb.args) ++ r)
                (slots-trim_space made ∙ shown ∙ ap (λ k. count_from k (length (a ∷ more))) next)
            ∙ count_from-append 1 (length fb.args) (length (a ∷ more))
            ∙ ap (λ k. count_from 1 k) (sym len),
        is_clean-append (where_clause fb) (trim_space made)
            ∙ ground (arith, clean_before, is_clean-trim_space made ∙ clean),
      )

  pub add_update-Keeps :
      (wh : String) (args : List A)
      → fits (parse_format wh) args ≡ true
      → Keeps IsSequentialUpdate (add_update wh args)
  add_update-Keeps wh args h = record {
    keep = λ upd i. add_update-IsSequentialUpdate wh args upd h i;
  }

  -- The text and the arguments of a statement that is run.
  AgreesIfRun : Result (Query A) → Type 0
  AgreesIfRun (err e) = Unit
  AgreesIfRun (ok q) = Agrees q.sql q.args

  checked-AgreesIfRun :
      (check : Result (Unit {0})) (q : Query A) → Agrees q.sql q.args → AgreesIfRun (check >> ok q)
  unfolding AgreesIfRun
  checked-AgreesIfRun (err e) q h = tt
  checked-AgreesIfRun (ok u) q h = h

  pub exec_update-Agrees :
      (statement : String) (ub : UpdateBuilder A) (constrain : FilterBuilder A → FilterBuilder A)
      (q : Query A)
      → IsSequentialUpdate ub
      → Keeps IsSequential constrain
      → exec_update statement ub constrain ≡ ok q
      → Agrees q.sql q.args
  unfolding exec_update AgreesIfRun
  exec_update-Agrees statement ub constrain q i k h = subst AgreesIfRun h if_run
    where
      agreed : Agrees (with_update (constrain (make_filter ub))) (constrain (make_filter ub)).args
      agreed =
          with_update-Agrees (constrain (make_filter ub))
            (k.keep (make_filter ub) (make_filter-IsSequential ub i))

      if_run : AgreesIfRun (exec_update statement ub constrain)
      if_run = checked-AgreesIfRun _ _ agreed

  pub exec_update-err :
      (statement : String) (ub : UpdateBuilder A) (constrain : FilterBuilder A → FilterBuilder A)
      → ub.to_upd ≡ []
      → exec_update statement ub constrain ≡ err err_no_updates
  unfolding exec_update check_updates
  exec_update-err statement ub constrain h = rw h refl

pub new_filter_builder-IsFilterOnly {ℓ} : (A : Type ℓ) → IsFilterOnly (new_filter_builder {A = A})
new_filter_builder-IsFilterOnly A = (refl, new_filter_builder-IsSequential A)
