-- ===== src/Query/Builder.antt =====
-- The builders of db/querybuilder.go. Each method holds the builder's mutex, so that methods happen one
-- after the other; the slices they return are copies.
use kilonova.Prelude.{
  ℕ, zero, suc, ◌+◌, List, [], ◌∷◌, ◌++◌, String, length, is_empty, if◌then◌else◌,
}
use kilonova.Status.{Result, ok, err, ◌>>◌, err_no_updates}
use kilonova.Query.Format.{Piece, literal, parse_format, sprintf, trim_space, join}

-- A text of SQL: its slots are the placeholders $1, $2, ..., by their numbers.
abbrev pub Sql : Type 0
Sql = List (Piece ℕ)

-- `n` numbers from `first` on.
abbrev pub count_from : ℕ → ℕ → List ℕ
count_from first zero = []
count_from first (suc n) = first ∷ count_from (suc first) n

pub record FilterBuilder {ℓ} (A : Type ℓ) : Type ℓ where
  pub prefix : Sql
  pub conditions : List Sql
  pub args : List A
  pub pos : ℕ

pub record UpdateBuilder {ℓ} (A : Type ℓ) : Type ℓ where
  pub to_upd : List Sql
  pub args : List A
  pub pos : ℕ

pub record Query {ℓ} (A : Type ℓ) : Type ℓ where
  pub sql : Sql
  pub args : List A

module _ {ℓ} {A : Type ℓ} where
  abbrev pub new_filter_builder : FilterBuilder A
  new_filter_builder = record { prefix = []; conditions = []; args = []; pos = 1 }

  -- filterBuilder.Where
  unfoldable pub where_clause : FilterBuilder A → Sql
  where_clause fb =
      if is_empty fb.conditions then literal "1 = 1" ∷ [] else join fb.conditions " AND "

  unfoldable pub with_update : FilterBuilder A → Sql
  unfolding where_clause
  with_update fb = fb.prefix ++ (literal " WHERE " ∷ where_clause fb)

  -- filterBuilder.FormatString: the text and the builder after it.
  unfoldable pub format_string : String → List A → FilterBuilder A → Sql × FilterBuilder A
  unfolding parse_format trim_space
  format_string str [] fb = (literal str ∷ [], fb)
  format_string str (a ∷ more) fb =
      let all_args = a ∷ more in
      let count = length all_args in
      (
        trim_space (sprintf (parse_format str) (count_from fb.pos count)),
        record fb { args = fb.args ++ all_args; pos = fb.pos + count },
      )

  unfoldable pub add_constraint : String → List A → FilterBuilder A → FilterBuilder A
  unfolding parse_format trim_space
  add_constraint wh [] fb = record fb {
    conditions = fb.conditions ++ (trim_space (literal wh ∷ []) ∷ []);
  }
  add_constraint wh (a ∷ more) fb =
      let all_args = a ∷ more in
      let count = length all_args in
      let condition = trim_space (sprintf (parse_format wh) (count_from fb.pos count)) in
      record fb {
        conditions = fb.conditions ++ (condition ∷ []);
        args = fb.args ++ all_args;
        pos = fb.pos + count;
      }

  abbrev pub new_update_builder : UpdateBuilder A
  new_update_builder = record { to_upd = []; args = []; pos = 1 }

  unfoldable pub to_update : UpdateBuilder A → Sql
  to_update upd = if is_empty upd.to_upd then [] else join upd.to_upd ", "

  unfoldable pub make_filter : UpdateBuilder A → FilterBuilder A
  unfolding to_update
  make_filter upd = record {
    prefix = to_update upd;
    conditions = [];
    args = upd.args;
    pos = upd.pos;
  }

  unfoldable pub check_updates : UpdateBuilder A → Result (Unit {0})
  check_updates upd = if is_empty upd.to_upd then err err_no_updates else ok tt

  unfoldable pub add_update : String → List A → UpdateBuilder A → UpdateBuilder A
  unfolding parse_format
  add_update wh [] upd = record upd { to_upd = upd.to_upd ++ ((literal wh ∷ []) ∷ []) }
  add_update wh (a ∷ more) upd =
      let all_args = a ∷ more in
      let count = length all_args in
      let update = sprintf (parse_format wh) (count_from upd.pos count) in
      record upd {
        to_upd = upd.to_upd ++ (update ∷ []);
        args = upd.args ++ all_args;
        pos = upd.pos + count;
      }

  -- The end that the update functions share: `if ub.CheckUpdates() != nil { return ... }`, the filter
  -- with its constraints, and the arguments of Exec. `statement` is the text before the updates.
  unfoldable pub exec_update :
      String → UpdateBuilder A → (FilterBuilder A → FilterBuilder A) → Result (Query A)
  unfolding check_updates make_filter with_update
  exec_update statement ub constrain =
      let fb = constrain (make_filter ub) in
      check_updates ub >> ok (record { sql = literal statement ∷ with_update fb; args = fb.args })
