-- ===== src/Archive/Params.antt =====
-- Score parameters in the manner of CMS (domain/archive/test/score_params.go). Decimals, regular
-- expressions and the decoding of JSON into values are those of the libraries.
use kilonova.Prelude.{
  ℕ, suc, Bool, true, false, not, ◌&&◌, ◌||◌, Option, none, some, List, [], ◌∷◌, ◌++◌, String, ltb,
  ◌==◌, if◌then◌else◌, is_some, all,
}
use kilonova.Status.{wrapped, Result, ok, err, statusf, ◌>>=◌, ◌>>◌, guard, map_err}

-- A float64 of the input: its decimal, its sign, and what is before the point.
pub record Number (D : Type 0) : Type 0 where
  pub decimal : D
  pub is_negative : Bool
  pub whole : ℕ

-- A value that encoding/json puts in an `any`.
pub data Json (D : Type 0) : Type 0 where
  number : Number D → Json D
  string : String → Json D
  other : Json D

pub record ScoreParamEntry (D R : Type 0) : Type 0 where
  pub score : D
  pub count : Option ℕ
  pub regexp : Option R

module _ {D R : Type 0} where
  -- ScoreParamEntry.Valid
  unfoldable pub is_valid : ScoreParamEntry D R → Bool
  is_valid p =
      (is_some p.count || is_some p.regexp) && (not (is_some p.count) || not (is_some p.regexp))

  -- The second element of the entry.
  unfoldable pub read_count_or_regexp :
      (String → Option R) → D → Json D → Result (ScoreParamEntry D R)
  unfolding statusf
  read_count_or_regexp compile score (number v) =
      if v.is_negative || v.whole == 0
      then err (statusf 400 "cannot have <= 0 test count")
      else ok (record { score = score; count = some v.whole; regexp = none })
  read_count_or_regexp compile score (string s) = elim (compile s) [
    | none ↦ err (statusf 400 "invalid regular expression (%q): %#v")
    | some r ↦ ok (record { score = score; count = none; regexp = some r })
  ]
  read_count_or_regexp compile score other = err (statusf 400 "invalid type %T for second entry")

  -- ScoreParamEntry.UnmarshalJSON, for an input that is an array.
  unfoldable pub unmarshal_entry :
      (String → Option R) → List (Json D) → Result (ScoreParamEntry D R)
  unfolding read_count_or_regexp statusf
  unmarshal_entry compile (number v ∷ second ∷ []) =
      if v.is_negative
      then err (statusf 400 "cannot have negative score")
      else read_count_or_regexp compile v.decimal second
  unmarshal_entry compile (string s ∷ second ∷ []) = err (statusf 400 "invalid type %T for score")
  unmarshal_entry compile (other ∷ second ∷ []) = err (statusf 400 "invalid type %T for score")
  unmarshal_entry compile [] =
      err (statusf 400 "invalid number of elements in score parameter entry: got %d, expected 2")
  unmarshal_entry compile (first ∷ []) =
      err (statusf 400 "invalid number of elements in score parameter entry: got %d, expected 2")
  unmarshal_entry compile (first ∷ second ∷ third ∷ more) =
      err (statusf 400 "invalid number of elements in score parameter entry: got %d, expected 2")

  unfoldable pub unmarshal_all :
      (String → Option R) → List (List (Json D)) → Result (List (ScoreParamEntry D R))
  unfolding unmarshal_entry
  unmarshal_all compile [] = ok []
  unmarshal_all compile (e ∷ es) =
      unmarshal_entry compile e >>= λ p. unmarshal_all compile es >>= λ ps. ok (p ∷ ps)

  -- `(pType == 1 && param.Match != nil) || (pType == 2 && param.Count != nil)`
  abbrev pub is_mixed : Bool → ScoreParamEntry D R → Bool
  is_mixed of_regexps p = (not of_regexps && is_some p.regexp) || (of_regexps && is_some p.count)

  unfoldable pub check_mixed : List (ScoreParamEntry D R) → Result (List (ScoreParamEntry D R))
  unfolding statusf
  check_mixed [] = ok []
  check_mixed (p ∷ ps) =
      guard (all (λ q. not (is_mixed (is_some p.regexp) q)) (p ∷ ps)) (
        statusf 400
          "score parameters: there must be ONLY integers or ONLY regexes, do not mix them")
      >> ok (p ∷ ps)

  -- ParseScoreParameters
  unfoldable pub parse_score_parameters :
      (String → Option R) → List (List (Json D)) → Result (List (ScoreParamEntry D R))
  unfolding unmarshal_all check_mixed
  parse_score_parameters compile params =
      map_err (wrapped "couldn't parse score parameters: %w") (unmarshal_all compile params)
      >>= check_mixed

-- A test of the archive by its visible id and its key; Matches asks a regular expression about the key.
pub record ArchiveTest : Type 0 where
  pub visible_id : ℕ
  pub key : String

module _ {R : Type 0} (matches : R → ArchiveTest → Bool) where
  abbrev pub count_matching : R → List ArchiveTest → ℕ
  count_matching r [] = 0
  count_matching r (t ∷ ts) = if matches r t then suc (count_matching r ts) else count_matching r ts

  -- The loop over the tests, with `cnt` of them found: whether it gets to its end.
  abbrev pub at_most_one : R → ℕ → List ArchiveTest → Bool
  at_most_one r cnt [] = true
  at_most_one r cnt (t ∷ ts) =
      let found = at_most_one r (suc cnt) ts in
      let rest = at_most_one r cnt ts in
      if matches r t then (if ltb 1 (suc cnt) then false else found) else rest

module _ {D R : Type 0} (matches : R → ArchiveTest → Bool) where
  abbrev pub masks : ScoreParamEntry D R → List ArchiveTest → Bool
  masks p tests = elim p.count [
    | some n ↦ not (ltb 1 n)
    | none ↦ elim p.regexp [ none ↦ true | some r ↦ at_most_one matches r 0 tests ]
  ]

  -- isMaskedScoring. A parameter with neither a count nor an expression, on which the code would fault,
  -- does not come from ParseScoreParameters; it reads as no obstacle.
  unfoldable pub is_masked_scoring : List (ScoreParamEntry D R) → List ArchiveTest → Bool
  is_masked_scoring [] tests = false
  is_masked_scoring (p ∷ ps) tests = all (λ q. masks q tests) (p ∷ ps)

  -- The scores that buildParamTestScores writes by count: one for each test, in order.
  abbrev pub scores_by_count : List (ScoreParamEntry D R) → List ArchiveTest → List (ℕ × D)
  scores_by_count [] tests = []
  scores_by_count (p ∷ ps) [] = []
  scores_by_count (p ∷ ps) (t ∷ ts) = (t.visible_id, p.score) ∷ scores_by_count ps ts

  abbrev pub scores_of_entry : R → D → List ArchiveTest → List (ℕ × D)
  scores_of_entry r score [] = []
  scores_of_entry r score (t ∷ ts) =
      if matches r t
      then (t.visible_id, score) ∷ scores_of_entry r score ts
      else scores_of_entry r score ts

  abbrev pub scores_by_regexp : List (ScoreParamEntry D R) → List ArchiveTest → List (ℕ × D)
  scores_by_regexp [] tests = []
  scores_by_regexp (p ∷ ps) tests = elim p.regexp [
    | none ↦ scores_by_regexp ps tests
    | some r ↦ scores_of_entry r p.score tests ++ scores_by_regexp ps tests
  ]

  -- buildParamTestScores: the writes to testScores, in order. It is called with some parameters.
  unfoldable pub build_param_test_scores :
      List (ScoreParamEntry D R) → List ArchiveTest → List (ℕ × D)
  build_param_test_scores [] tests = []
  build_param_test_scores (p ∷ ps) tests =
      if is_some p.count then scores_by_count (p ∷ ps) tests else scores_by_regexp (p ∷ ps) tests
