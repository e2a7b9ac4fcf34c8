-- ===== src/Query/Associations.antt =====
-- The tables that keep an ordered list of children for each parent: updateManyToMany of
-- db/many2many.go, which the problems of a contest, a problem list's problems and lists, a
-- subtask's tests and a problem's tags are written with, and the query that reads such a list back
-- (ContestProblems of db/problem.go). Rows have no order but their position; a parent has a child
-- at most once. What other constraints refuse is among the faults of the copy.
pub mod Order
pub mod Copy
use kilonova.Prelude.{
  ℕ, suc, ◌+◌, Bool, true, false, not, ◌&&◌, ◌||◌, Option, none, some, List, [], ◌∷◌, ◌++◌, leb,
  ◌==◌, if◌then◌else◌, map,
}
use kilonova.Status.{GoError, Result, ok, err}

pub record Association : Type 0 where
  pub parent : ℕ
  pub child : ℕ
  pub position : ℕ

-- What the database reports for the two statements, and for a row that is there already.
pub record AssociationDb : Type 0 where
  pub delete_fault : Option GoError
  pub copy_fault : Option GoError
  pub duplicate_key : GoError

unfoldable pub has_pair : ℕ → ℕ → List Association → Bool
has_pair p c [] = false
has_pair p c (row ∷ rows) = (row.parent == p && row.child == c) || has_pair p c rows

unfoldable pub without_parent : ℕ → List Association → List Association
without_parent p [] = []
without_parent p (row ∷ rows) =
    let rest = without_parent p rows in if row.parent == p then rest else row ∷ rest

-- The loop that collects the rows, from index i on. Without positions the table keeps no order;
-- the field is then 0.
unfoldable pub rows_from : Bool → ℕ → ℕ → List ℕ → List Association
rows_from positions p i [] = []
rows_from positions p i (c ∷ cs) =
    record { parent = p; child = c; position = if positions then i else 0 }
    ∷ rows_from positions p (suc i) cs

-- COPY: all of the rows, or none when one of them repeats a pair.
unfoldable pub copy_from : List Association → List Association → Option (List Association)
unfolding has_pair
copy_from [] table = some table
copy_from (row ∷ rows) table =
    let rest = copy_from rows (table ++ row ∷ []) in
    if has_pair row.parent row.child table then none else rest

-- The transaction rolls back when a statement fails.
unfoldable pub commit_copy :
    AssociationDb
    → List Association
    → Option (List Association)
    → List Association × Result (Unit {0})
commit_copy db old none = (old, err db.duplicate_key)
commit_copy db old (some table) = (table, ok tt)

unfoldable pub update_many_to_many :
    AssociationDb → ℕ → List ℕ → Bool → List Association → List Association × Result (Unit {0})
unfolding without_parent rows_from copy_from commit_copy
update_many_to_many db p children positions table = elim (db.delete_fault) [
  | some e ↦ (table, err e)
  | none ↦ elim (db.copy_fault) [
    | some e ↦ (table, err e)
    | none ↦
        commit_copy db table (copy_from (rows_from positions p 0 children) (without_parent p table))
  ]
]

unfoldable pub of_parent : ℕ → List Association → List Association
of_parent p [] = []
of_parent p (row ∷ rows) =
    let rest = of_parent p rows in if row.parent == p then row ∷ rest else rest

-- ORDER BY position ASC
unfoldable pub insert_by_position : Association → List Association → List Association
insert_by_position row [] = row ∷ []
insert_by_position row (first ∷ rows) =
    let rest = insert_by_position row rows in
    if leb row.position first.position then row ∷ first ∷ rows else first ∷ rest

unfoldable pub order_by_position : List Association → List Association
unfolding insert_by_position
order_by_position [] = []
order_by_position (row ∷ rows) = insert_by_position row (order_by_position rows)

unfoldable pub children_of : ℕ → List Association → List ℕ
unfolding of_parent order_by_position
children_of p table = map (λ (row : Association). row.child) (order_by_position (of_parent p table))
