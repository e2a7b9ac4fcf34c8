-- ===== src/Archive/Dependencies.antt =====
-- Subtasks that depend on others: the dependencies that ProcessPropertiesFile reads and
-- solveSubtaskDependencies (domain/archive/test/properties_file.go), for subtasks whose ids are the
-- numbers 1, 2, ... of the properties file. The maps are lists in the order of the ids, and a text is
-- the list of its bytes.
use kilonova.Prelude.{
  ℕ, not, ◌||◌, Option, none, some, List, [], ◌∷◌, ◌++◌, ltb, leb, ◌==◌, if◌then◌else◌, length, any,
  is_empty,
}
use kilonova.Status.{Result, ok, statusf, ◌>>=◌, ◌>>◌, guard}
use kilonova.Archive.{Text, comma, split, parse_prop_list_item}

pub record ParsedSubtask (D : Type 0) : Type 0 where
  pub score : D
  pub tests : List ℕ
  pub dependencies : List ℕ

pub record Subtask (D : Type 0) : Type 0 where
  pub score : D
  pub tests : List ℕ

-- One of the dependency strings, for `count` groups.
unfoldable pub parse_dependency : ℕ → Text → Result (List ℕ)
unfolding parse_prop_list_item statusf
parse_dependency count d =
    if is_empty d
    then ok []
    else parse_prop_list_item d >>= λ ids.
        guard (not (any (λ vid. leb vid 0 || ltb count vid) ids))
          (statusf 400 "Dependency number out of range")
        >> ok ids

abbrev pub parse_each_dependency : ℕ → List Text → Result (List (List ℕ))
unfolding parse_dependency
parse_each_dependency count [] = ok []
parse_each_dependency count (d ∷ ds) = parse_dependency count d >>= λ first.
    parse_each_dependency count ds >>= λ rest. ok (first ∷ rest)

-- `if rawProps.Dependencies != "" { ... }`, for the numbers of groups and of weights.
unfoldable pub parse_dependencies : ℕ → Text → Result (List (List ℕ))
unfolding parse_each_dependency statusf
parse_dependencies count dependencies =
    if is_empty dependencies
    then ok []
    else guard (length (split comma dependencies) == count)
        (statusf 400 "Number of dependencies must match number of groups")
      >> parse_each_dependency count (split comma dependencies)

-- slices.Sort
abbrev pub insert : ℕ → List ℕ → List ℕ
insert a [] = a ∷ []
insert a (b ∷ bs) = let rest = insert a bs in if leb a b then a ∷ b ∷ bs else b ∷ rest

abbrev pub sort : List ℕ → List ℕ
sort [] = []
sort (a ∷ as') = insert a (sort as')

-- A number before others, unless it is the first of them.
abbrev pub compact_onto : ℕ → List ℕ → List ℕ
compact_onto a [] = a ∷ []
compact_onto a (b ∷ bs) = if a == b then b ∷ bs else a ∷ b ∷ bs

-- slices.Compact
abbrev pub compact : List ℕ → List ℕ
compact [] = []
compact (a ∷ as') = compact_onto a (compact as')

module _ {D : Type 0} where
  abbrev pub find_subtask : ℕ → List (ℕ × ParsedSubtask D) → Option (ParsedSubtask D)
  find_subtask id [] = none
  find_subtask id ((i, s) ∷ rest) = if i == id then some s else find_subtask id rest

  -- `dep, ok := subtasks[dependency]; if !ok { continue }`, and the tests of `dep`.
  abbrev pub tests_of : Option (ParsedSubtask D) → List ℕ
  tests_of none = []
  tests_of (some dep) = dep.tests

  -- The tests of the dependencies, those of unknown subtasks left out.
  abbrev pub dependency_tests : List (ℕ × ParsedSubtask D) → List ℕ → List ℕ
  dependency_tests all [] = []
  dependency_tests all (d ∷ ds) = tests_of (find_subtask d all) ++ dependency_tests all ds

  abbrev pub solve_subtask : List (ℕ × ParsedSubtask D) → ParsedSubtask D → Subtask D
  solve_subtask all group = record {
    score = group.score;
    tests = compact (sort (group.tests ++ dependency_tests all group.dependencies));
  }

  abbrev pub solve_each :
      List (ℕ × ParsedSubtask D) → List (ℕ × ParsedSubtask D) → List (ℕ × Subtask D)
  solve_each all [] = []
  solve_each all ((i, s) ∷ rest) = (i, solve_subtask all s) ∷ solve_each all rest

  -- The subtasks of solveSubtaskDependencies.
  unfoldable pub solve_subtask_dependencies : List (ℕ × ParsedSubtask D) → List (ℕ × Subtask D)
  solve_subtask_dependencies subtasks = solve_each subtasks subtasks
