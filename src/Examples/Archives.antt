-- ===== src/Examples/Archives.antt =====
-- A problem's groups, written and read back.
use kilonova.Prelude.{
  ℕ, ◌≡◌, ◌⊎◌, refl, Bool, true, false, not, ◌&&◌, ◌||◌, some, none, List, [], ◌∷◌, String, str_eq,
  ltb, leb, any, all, contains, is_some, is_empty,
}
use kilonova.Status.{ok}
use kilonova.Archive.{Text, parse_prop_list_item}
use kilonova.Archive.Dependencies.{ParsedSubtask, solve_subtask, find_subtask}
use kilonova.Archive.Sorting.{is_chain, has_test, solve_subtask-tests}
use kilonova.Archive.Params.{
  Json, ScoreParamEntry, ArchiveTest, is_valid, parse_score_parameters, is_masked_scoring,
}
use kilonova.Archive.Uniform.{
  amount, parse_score_parameters-uniform, counts_positive, is_masked_scoring_iff,
}

-- "30,70"
abbrev weights : Text
weights = 51 ∷ 48 ∷ 44 ∷ 55 ∷ 48 ∷ []

-- "1-3;7;" is 1, 2, 3 and 7.
range_test : parse_prop_list_item (49 ∷ 45 ∷ 51 ∷ 59 ∷ 55 ∷ 59 ∷ []) ≡ ok (1 ∷ 2 ∷ 3 ∷ 7 ∷ [])
unfolding parse_prop_list_item
range_test = refl

abbrev subtasks : List (ℕ × ParsedSubtask ℕ)
subtasks =
    (1, record { score = 30; tests = 2 ∷ 1 ∷ []; dependencies = [] })
    ∷ (2, record { score = 70; tests = 4 ∷ 3 ∷ []; dependencies = 1 ∷ 9 ∷ [] })
    ∷ []

abbrev second_subtask : ParsedSubtask ℕ
second_subtask = record { score = 70; tests = 4 ∷ 3 ∷ []; dependencies = 1 ∷ 9 ∷ [] }

solve_subtask-tests_example :
    (is_chain ltb (solve_subtask subtasks second_subtask).tests ≡ true)
    × (contains (solve_subtask subtasks second_subtask).tests 1
        ≡ contains second_subtask.tests 1
          || any (λ d. has_test 1 (find_subtask d subtasks)) second_subtask.dependencies)
solve_subtask-tests_example = solve_subtask-tests subtasks second_subtask 1

solved_test : (solve_subtask subtasks second_subtask).tests ≡ 1 ∷ 2 ∷ 3 ∷ 4 ∷ []
solved_test = refl

abbrev by_count : ScoreParamEntry ℕ String
by_count = record { score = 40; count = some 1; regexp = none }

parse_score_parameters-uniform_example :
    (all is_valid (by_count ∷ []) ≡ true)
    × (all counts_positive (by_count ∷ []) ≡ true)
    × ((all (λ q. is_some q.count) (by_count ∷ []) ≡ true)
        ⊎ (all (λ q. is_some q.regexp) (by_count ∷ []) ≡ true))
unfolding parse_score_parameters
parse_score_parameters-uniform_example =
    parse_score_parameters-uniform (λ s. some s)
      ((Json.number (record { decimal = 40; is_negative = false; whole = 40 })
          ∷ Json.number (record { decimal = 1; is_negative = false; whole = 1 })
          ∷ [])
        ∷ [])
      (by_count ∷ []) refl

abbrev two_tests : List ArchiveTest
two_tests = record { visible_id = 1; key = "a1" } ∷ record { visible_id = 2; key = "b1" } ∷ []

abbrev is_key : String → ArchiveTest → Bool
is_key r t = str_eq r t.key

abbrev by_key : ScoreParamEntry ℕ String
by_key = record { score = 60; count = none; regexp = some "b1" }

is_masked_scoring_iff_example :
    is_masked_scoring is_key (by_key ∷ []) two_tests
    ≡ not (is_empty (by_key ∷ [])) && all (λ p. leb (amount is_key p two_tests) 1) (by_key ∷ [])
is_masked_scoring_iff_example = is_masked_scoring_iff is_key (by_key ∷ []) two_tests
