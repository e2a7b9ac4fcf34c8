-- ===== src/Archive/Uniform.antt =====
-- The score parameters that are accepted, and when they are the scores of single tests
-- (domain/archive/test/score_params.go).
use kilonova.Prelude.{
  ℕ, suc, ◌+◌, ◌≡◌, refl, sym, ap, subst, ◌∙◌, ◌⊎◌, inl, inr, Bool, true, false, not, ◌&&◌, Option,
  none, some, List, [], ◌∷◌, String, ltb, leb, is_some, is_empty, all, arith, Bool-cases,
  Option-cases,
}
use kilonova.Status.{ok, Result-cases}
use kilonova.Archive.Params.{
  Json, number, string, other, ScoreParamEntry, is_valid, read_count_or_regexp, unmarshal_entry,
  unmarshal_all, is_mixed, check_mixed, parse_score_parameters, ArchiveTest, count_matching,
  at_most_one, is_masked_scoring, masks,
}

module _ {D R : Type 0} where
  -- A count, if there is one, is positive.
  unfoldable pub counts_positive : ScoreParamEntry D R → Bool
  counts_positive p = elim p.count [ none ↦ true | some n ↦ ltb 0 n ]

  is_good : ScoreParamEntry D R → Bool
  unfolding is_valid counts_positive
  is_good p = is_valid p && counts_positive p

module _ {D R : Type 0} (compile : String → Option R) where
  read_count_or_regexp-good :
      (score : D) (second : Json D) (p : ScoreParamEntry D R)
      → read_count_or_regexp compile score second ≡ ok p
      → is_good p ≡ true
  unfolding read_count_or_regexp is_good is_valid counts_positive
  read_count_or_regexp-good score (number v) p h = ground arith
  read_count_or_regexp-good score (string s) p h = ground arith
  read_count_or_regexp-good score other p h = ground arith

  unmarshal_entry-good :
      (e : List (Json D)) (p : ScoreParamEntry D R)
      → unmarshal_entry compile e ≡ ok p
      → is_good p ≡ true
  unfolding unmarshal_entry
  unmarshal_entry-good [] p h = ground arith
  unmarshal_entry-good (first ∷ []) p h = ground arith
  unmarshal_entry-good (number v ∷ second ∷ []) p h =
      read_count_or_regexp-good v.decimal second p (ground arith)
  unmarshal_entry-good (string s ∷ second ∷ []) p h = ground arith
  unmarshal_entry-good (other ∷ second ∷ []) p h = ground arith
  unmarshal_entry-good (first ∷ second ∷ third ∷ more) p h = ground arith

  unmarshal_all-good :
      (es : List (List (Json D))) (ps : List (ScoreParamEntry D R))
      → unmarshal_all compile es ≡ ok ps
      → all is_good ps ≡ true
  unfolding unmarshal_all
  unmarshal_all-good [] ps h = ground arith
  unmarshal_all-good (e ∷ es) ps h = elim (Result-cases (unmarshal_entry compile e)) [
    | inl (f, bad) ↦ ground (arith, bad, h)
    | inr (p, good) ↦ elim (Result-cases (unmarshal_all compile es)) [
      | inl (f, bad) ↦ ground (arith, good, bad, h)
      | inr (qs, rest) ↦
          let same : p ∷ qs ≡ ps = ground (arith, good, rest, h) in
          ap (λ l. all is_good l) (sym same)
          ∙ rw (unmarshal_entry-good e p good) (unmarshal_all-good es qs rest)
    ]
  ]

  good-parts :
      (ps : List (ScoreParamEntry D R))
      → all is_good ps ≡ true
      → (all is_valid ps ≡ true) × (all counts_positive ps ≡ true)
  unfolding is_good
  good-parts [] h = (refl, refl)
  good-parts (p ∷ ps) h =
      let (valid, positive) = good-parts ps (ground arith) in (ground arith, ground arith)

  -- Valid entries of which none is mixed are all of one kind.
  valid-counts :
      (ps : List (ScoreParamEntry D R))
      → all is_valid ps ≡ true
      → all (λ q. not (is_mixed false q)) ps ≡ true
      → all (λ q. is_some q.count) ps ≡ true
  unfolding is_valid
  valid-counts [] v h = refl
  valid-counts (p ∷ ps) v h = ground (arith, valid-counts ps (ground arith) (ground arith))

  valid-regexps :
      (ps : List (ScoreParamEntry D R))
      → all is_valid ps ≡ true
      → all (λ q. not (is_mixed true q)) ps ≡ true
      → all (λ q. is_some q.regexp) ps ≡ true
  unfolding is_valid
  valid-regexps [] v h = refl
  valid-regexps (p ∷ ps) v h = ground (arith, valid-regexps ps (ground arith) (ground arith))

  check_mixed-uniform :
      (ps qs : List (ScoreParamEntry D R))
      → all is_valid ps ≡ true
      → check_mixed ps ≡ ok qs
      → (ps ≡ qs)
        × ((all (λ q. is_some q.count) ps ≡ true) ⊎ (all (λ q. is_some q.regexp) ps ≡ true))
  unfolding check_mixed
  check_mixed-uniform [] qs v h = (ground arith, inl refl)
  check_mixed-uniform (p ∷ ps) qs v h =
      elim (Bool-cases (all (λ q. not (is_mixed (is_some p.regexp) q)) (p ∷ ps))) [
        | inr mixed ↦ ground (arith, mixed, h)
        | inl pure ↦ elim (Bool-cases (is_some p.regexp)) [
          | inl of_regexps ↦ (
            ground (arith, pure, h),
            inr (valid-regexps (p ∷ ps) v (kind_is true of_regexps pure)),
          )
          | inr of_counts ↦ (
            ground (arith, pure, h),
            inl (valid-counts (p ∷ ps) v (kind_is false of_counts pure)),
          )
        ]
      ]
    where
      kind_is :
          {k : Bool} (b : Bool)
          → k ≡ b
          → all (λ q. not (is_mixed k q)) (p ∷ ps) ≡ true
          → all (λ q. not (is_mixed b q)) (p ∷ ps) ≡ true
      kind_is b e pure = subst (λ c. all (λ q. not (is_mixed c q)) (p ∷ ps) ≡ true) e pure

  -- Score parameters that are accepted each have a count or a regular expression and not both, their
  -- counts are positive, and either all of them have counts or all have regular expressions.
  pub parse_score_parameters-uniform :
      (params : List (List (Json D))) (ps : List (ScoreParamEntry D R))
      → parse_score_parameters compile params ≡ ok ps
      → (all is_valid ps ≡ true)
        × (all counts_positive ps ≡ true)
        × ((all (λ q. is_some q.count) ps ≡ true) ⊎ (all (λ q. is_some q.regexp) ps ≡ true))
  unfolding parse_score_parameters
  parse_score_parameters-uniform params ps h = elim (Result-cases (unmarshal_all compile params)) [
    | inl (f, bad) ↦ ground (arith, bad, h)
    | inr (qs, good) ↦
        let (valid, positive) = good-parts qs (unmarshal_all-good params qs good) in
        let (same, kind) = check_mixed-uniform qs ps valid (ground (arith, good, h)) in
        subst
          (λ l.
            (all is_valid l ≡ true)
            × (all counts_positive l ≡ true)
            × ((all (λ q. is_some q.count) l ≡ true) ⊎ (all (λ q. is_some q.regexp) l ≡ true)))
          same (valid, positive, kind)
  ]

at_most_one_lem :
    {R : Type 0} (matches : R → ArchiveTest → Bool) (r : R) (ts : List ArchiveTest) (cnt : ℕ)
    → leb cnt 1 ≡ true
    → at_most_one matches r cnt ts ≡ leb (cnt + count_matching matches r ts) 1
at_most_one_lem matches r [] cnt h = ground arith
at_most_one_lem matches r (t ∷ ts) cnt h = elim (Bool-cases (matches r t)) [
  | inr away ↦ let rest = at_most_one_lem matches r ts cnt h in ground (arith, rest, away)
  | inl found ↦ elim (Bool-cases (ltb 1 (suc cnt))) [
    | inl second ↦ ground (arith, found, second)
    | inr first ↦
        let rest = at_most_one_lem matches r ts (suc cnt) (ground (arith, first)) in
        ground (arith, rest, found, first)
  ]
]

-- How many tests a parameter stands for.
abbrev pub amount :
    {D R : Type 0} → (R → ArchiveTest → Bool) → ScoreParamEntry D R → List ArchiveTest → ℕ
amount matches p tests = elim p.count [
  | some n ↦ n
  | none ↦ elim p.regexp [ none ↦ 0 | some r ↦ count_matching matches r tests ]
]

masks_iff :
    {D R : Type 0} (matches : R → ArchiveTest → Bool) (p : ScoreParamEntry D R)
    (tests : List ArchiveTest)
    → masks matches p tests ≡ leb (amount matches p tests) 1
masks_iff matches p tests = elim (Option-cases p.count) [
  | inr (n, counted) ↦ ground (arith, counted)
  | inl uncounted ↦ elim (Option-cases p.regexp) [
    | inl nothing ↦ ground (arith, uncounted, nothing)
    | inr (r, expression) ↦
        ground (arith, uncounted, expression, at_most_one_lem matches r tests 0 refl)
  ]
]

-- The parameters are taken as the scores of single tests exactly when there are some and each stands
-- for at most one test: its count is at most 1, or its expression matches at most one test.
pub is_masked_scoring_iff :
    {D R : Type 0} (matches : R → ArchiveTest → Bool) (ps : List (ScoreParamEntry D R))
    (tests : List ArchiveTest)
    → is_masked_scoring matches ps tests
      ≡ not (is_empty ps) && all (λ p. leb (amount matches p tests) 1) ps
unfolding is_masked_scoring
is_masked_scoring_iff {D = D} {R = R} matches [] tests = refl
is_masked_scoring_iff {D = D} {R = R} matches (p ∷ ps) tests = all_masks (p ∷ ps)
  where
    all_masks :
        (qs : List (ScoreParamEntry D R))
        → all (λ q. masks matches q tests) qs ≡ all (λ q. leb (amount matches q tests) 1) qs
    all_masks [] = refl
    all_masks (q ∷ qs) = rw (masks_iff matches q tests, all_masks qs) refl
