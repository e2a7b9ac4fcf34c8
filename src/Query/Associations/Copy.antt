-- ===== src/Query/Associations/Copy.antt =====
-- The transaction of updateManyToMany (db/many2many.go): which lists it copies, and what is read
-- back afterwards.
use kilonova.Prelude.{
  ℕ, suc, ◌≡◌, refl, inl, inr, Bool, true, false, not, ◌&&◌, ◌||◌, none, some, List, [], ◌∷◌, ◌++◌,
  ◌==◌, if◌then◌else◌, arith, Bool-cases, contains,
}
use kilonova.Status.{ok, err}
use kilonova.Query.Associations.{
  Association, AssociationDb, has_pair, without_parent, rows_from, copy_from, commit_copy,
  update_many_to_many, children_of,
}
use kilonova.Query.Associations.Order.{append-none, append-append, children_of-replaced}

-- No two children of the list are equal.
unfoldable pub is_distinct : List ℕ → Bool
is_distinct [] = true
is_distinct (c ∷ cs) = not (contains cs c) && is_distinct cs

has_pair-append :
    (p c : ℕ) (row : Association) (table : List Association)
    → has_pair p c (table ++ row ∷ []) ≡ has_pair p c table || (row.parent == p && row.child == c)
unfolding has_pair
has_pair-append p c row [] = ground arith
has_pair-append p c row (first ∷ table) = let ih = has_pair-append p c row table in ground arith

has_pair-without_parent :
    (p c : ℕ) (table : List Association) → has_pair p c (without_parent p table) ≡ false
unfolding has_pair without_parent
has_pair-without_parent p c [] = refl
has_pair-without_parent p c (row ∷ table) =
    let ih = has_pair-without_parent p c table in ground arith

contains-equal :
    (cs : List ℕ) (c d : ℕ) → contains cs d ≡ false → contains cs c ≡ true → (d == c) ≡ false
contains-equal [] c d absent present = ground arith
contains-equal (e ∷ cs) c d absent present = let ih = contains-equal cs c d in ground arith

-- The children of the rows to be copied are not in the table.
IsFresh : ℕ → List ℕ → List Association → Type 0
IsFresh p cs table = (c : ℕ) → contains cs c ≡ true → has_pair p c table ≡ false

append-IsFresh :
    (p c i : ℕ) (cs : List ℕ) (table : List Association)
    → contains cs c ≡ false
    → IsFresh p (c ∷ cs) table
    → IsFresh p cs (table ++ record { parent = p; child = c; position = i } ∷ [])
unfolding IsFresh
append-IsFresh p c i cs table absent fresh d present =
    let differs = contains-equal cs d c absent present in
    let before = fresh d in
    let after = has_pair-append p d (record { parent = p; child = c; position = i }) table in
    ground arith

copy_from-distinct :
    (p i : ℕ) (cs : List ℕ) (table : List Association)
    → is_distinct cs ≡ true
    → IsFresh p cs table
    → copy_from (rows_from true p i cs) table ≡ some (table ++ rows_from true p i cs)
unfolding copy_from rows_from is_distinct IsFresh
copy_from-distinct p i [] table distinct fresh = let whole = append-none table in ground arith
copy_from-distinct p i (c ∷ cs) table distinct fresh =
    let row : Association = record { parent = p; child = c; position = i } in
    let absent : contains cs c ≡ false = ground arith in
    let rest : is_distinct cs ≡ true = ground arith in
    let ih =
      copy_from-distinct p (suc i) cs (table ++ row ∷ []) rest
        (append-IsFresh p c i cs table absent fresh) in
    let moved = append-append table (row ∷ []) (rows_from true p (suc i) cs) in
    let new : has_pair p c table ≡ false = fresh c (ground arith) in ground arith

copy_from-present :
    (p c i : ℕ) (cs : List ℕ) (table : List Association)
    → contains cs c ≡ true
    → has_pair p c table ≡ true
    → copy_from (rows_from true p i cs) table ≡ none
unfolding copy_from rows_from
copy_from-present p c i [] table repeated present = ground arith
copy_from-present p c i (d ∷ cs) table repeated present =
    let row : Association = record { parent = p; child = d; position = i } in
    let kept = has_pair-append p c row table in
    let ih = copy_from-present p c (suc i) cs (table ++ row ∷ []) in ground arith

copy_from-repeated :
    (p i : ℕ) (cs : List ℕ) (table : List Association)
    → is_distinct cs ≡ false
    → copy_from (rows_from true p i cs) table ≡ none
unfolding copy_from rows_from is_distinct
copy_from-repeated p i [] table repeated = ground arith
copy_from-repeated p i (c ∷ cs) table repeated =
    let row : Association = record { parent = p; child = c; position = i } in
    let added = has_pair-append p c row table in
    let again = copy_from-present p c (suc i) cs (table ++ row ∷ []) in
    let later = copy_from-repeated p (suc i) cs (table ++ row ∷ []) in ground arith

update-distinct :
    (db : AssociationDb) (p : ℕ) (children : List ℕ) (table : List Association)
    → db.delete_fault ≡ none
    → db.copy_fault ≡ none
    → update_many_to_many db p children true table ≡ (
        if is_distinct children
        then (without_parent p table ++ rows_from true p 0 children, ok tt)
        else (table, err db.duplicate_key))
unfolding update_many_to_many commit_copy IsFresh
update-distinct db p children table deletes copies = elim (Bool-cases (is_distinct children)) [
  | inl distinct ↦
      let copied =
        copy_from-distinct p 0 children (without_parent p table) distinct
          (λ c h. has_pair-without_parent p c table) in
      ground arith
  | inr repeated ↦
      let refused = copy_from-repeated p 0 children (without_parent p table) repeated in
      ground arith
]

-- Suppose that neither statement fails by a fault. Writing the positioned children of a parent
-- succeeds exactly when no child is repeated, and reading the parent's children then gives the
-- list in its order. The children of every other parent stay, and a list with a repeated child
-- changes nothing.
pub update_many_to_many-children :
    (db : AssociationDb) (p q : ℕ) (children : List ℕ) (table : List Association)
    → db.delete_fault ≡ none
    → db.copy_fault ≡ none
    → ((update_many_to_many db p children true table).1
        ≡ (if is_distinct children then ok tt else err db.duplicate_key))
      × (children_of q (update_many_to_many db p children true table).0
          ≡ (if is_distinct children && q == p then children else children_of q table))
update_many_to_many-children db p q children table deletes copies =
    let result = update-distinct db p children table deletes copies in
    let replaced = children_of-replaced p q children table in (ground arith, ground arith)
