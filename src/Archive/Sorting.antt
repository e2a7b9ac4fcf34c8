-- ===== src/Archive/Sorting.antt =====
-- The tests of a subtask after its dependencies are added (domain/archive/test/properties_file.go).
use kilonova.Prelude.{
  ℕ, ◌≡◌, refl, ap, ◌∙◌, Bool, true, false, ◌&&◌, ◌||◌, Option, none, some, List, [], ◌∷◌, ◌++◌,
  ltb, leb, ◌==◌, contains, arith, any,
}
use kilonova.Archive.Dependencies.{
  ParsedSubtask, insert, sort, compact_onto, compact, find_subtask, dependency_tests, solve_subtask,
  tests_of,
}

contains-insert :
    (a : ℕ) (bs : List ℕ) (t : ℕ) → contains (insert a bs) t ≡ (a == t) || contains bs t
contains-insert a [] t = refl
contains-insert a (b ∷ bs) t = ground (arith, contains-insert a bs t)

contains-sort : (as' : List ℕ) (t : ℕ) → contains (sort as') t ≡ contains as' t
contains-sort [] t = refl
contains-sort (a ∷ as') t =
    contains-insert a (sort as') t ∙ ap (λ b. (a == t) || b) (contains-sort as' t)

contains-compact_onto :
    (a : ℕ) (bs : List ℕ) (t : ℕ) → contains (compact_onto a bs) t ≡ (a == t) || contains bs t
contains-compact_onto a [] t = refl
contains-compact_onto a (b ∷ bs) t = ground arith

contains-compact : (as' : List ℕ) (t : ℕ) → contains (compact as') t ≡ contains as' t
contains-compact [] t = refl
contains-compact (a ∷ as') t =
    contains-compact_onto a (compact as') t ∙ ap (λ b. (a == t) || b) (contains-compact as' t)

contains-append : (xs ys : List ℕ) (t : ℕ) → contains (xs ++ ys) t ≡ contains xs t || contains ys t
contains-append [] ys t = refl
contains-append (x ∷ xs) ys t = ground (arith, contains-append xs ys t)

-- In increasing order: each number is at least (`leb`) or less (`ltb`) the next.
abbrev pub is_chain : (ℕ → ℕ → Bool) → List ℕ → Bool
is_chain r [] = true
is_chain r (a ∷ []) = true
is_chain r (a ∷ b ∷ bs) = r a b && is_chain r (b ∷ bs)

insert-chain : (a : ℕ) (bs : List ℕ) → is_chain leb bs ≡ true → is_chain leb (insert a bs) ≡ true
insert-chain a [] h = refl
insert-chain a (b ∷ []) h = ground arith
insert-chain a (b ∷ c ∷ cs) h = ground (arith, insert-chain a (c ∷ cs))

sort-chain : (as' : List ℕ) → is_chain leb (sort as') ≡ true
sort-chain [] = refl
sort-chain (a ∷ as') = insert-chain a (sort as') (sort-chain as')

abbrev at_least : ℕ → List ℕ → Bool
at_least k [] = true
at_least k (b ∷ bs) = leb k b

compact_onto-at_least :
    (k b : ℕ) (bs : List ℕ) → leb k b ≡ true → at_least k (compact_onto b bs) ≡ true
compact_onto-at_least k b [] h = h
compact_onto-at_least k b (c ∷ cs) h = ground arith

compact_onto-chain :
    (a : ℕ) (bs : List ℕ)
    → at_least a bs ≡ true
    → is_chain ltb bs ≡ true
    → is_chain ltb (compact_onto a bs) ≡ true
compact_onto-chain a [] h c = refl
compact_onto-chain a (b ∷ bs) h c = ground arith

compact-chain : (as' : List ℕ) → is_chain leb as' ≡ true → is_chain ltb (compact as') ≡ true
compact-chain [] h = refl
compact-chain (a ∷ []) h = refl
compact-chain (a ∷ b ∷ bs) h =
    compact_onto-chain a (compact (b ∷ bs)) (compact_onto-at_least a b (compact bs) (ground arith))
      (compact-chain (b ∷ bs) (ground arith))

-- A subtask that exists and has the test.
abbrev pub has_test : {D : Type 0} → ℕ → Option (ParsedSubtask D) → Bool
has_test t none = false
has_test t (some s) = contains s.tests t

contains-tests_of :
    {D : Type 0} (found : Option (ParsedSubtask D)) (t : ℕ)
    → contains (tests_of found) t ≡ has_test t found
contains-tests_of none t = refl
contains-tests_of (some s) t = refl

contains-dependency_tests :
    {D : Type 0} (all : List (ℕ × ParsedSubtask D)) (ds : List ℕ) (t : ℕ)
    → contains (dependency_tests all ds) t ≡ any (λ d. has_test t (find_subtask d all)) ds
contains-dependency_tests all [] t = refl
contains-dependency_tests all (d ∷ ds) t =
    contains-append (tests_of (find_subtask d all)) (dependency_tests all ds) t
    ∙ ap (λ b. b || contains (dependency_tests all ds) t) (contains-tests_of (find_subtask d all) t)
    ∙ ap (λ b. has_test t (find_subtask d all) || b) (contains-dependency_tests all ds t)

-- The tests of a solved subtask stand in increasing order, each once, and a test is among them exactly
-- when it is one of the subtask's own or one of those of the subtasks it names that exist; the tests of
-- a dependency's dependencies are not added.
pub solve_subtask-tests :
    {D : Type 0} (all : List (ℕ × ParsedSubtask D)) (group : ParsedSubtask D) (t : ℕ)
    → (is_chain ltb (solve_subtask all group).tests ≡ true)
      × (contains (solve_subtask all group).tests t
          ≡ contains group.tests t || any (λ d. has_test t (find_subtask d all)) group.dependencies)
solve_subtask-tests all group t =
    let gathered = group.tests ++ dependency_tests all group.dependencies in
    (
      compact-chain (sort gathered) (sort-chain gathered),
      contains-compact (sort gathered) t
          ∙ contains-sort gathered t
          ∙ contains-append group.tests (dependency_tests all group.dependencies) t
          ∙ ap (λ b. contains group.tests t || b)
              (contains-dependency_tests all group.dependencies t),
    )
