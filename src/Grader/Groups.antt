-- ===== src/Grader/Groups.antt =====
-- The percentage of a subtask: theorems on scoreTests.
use kilonova.Prelude.{
  ℕ, ◌≤◌, ◌≡◌, refl, sym, ◌∙◌, ◌≢◌, ◌⊎◌, inl, inr, max, true, false, Option, none, some, List, [],
  ◌∷◌, arith, is_empty, contains, ◌==◌, ==→eq, ==_refl, Bool-cases, All,
}
use kilonova.Decimal.{Decimal, DecimalLaws}
use kilonova.Submission.{SubTest, SubmissionSubTask}
use kilonova.Grader.Score.{
  max_memory_from, max_time_from, lookup_subtest, min_with, min_percentage, subtask_percentage,
}

is_empty-ne : (is : List ℕ) → is ≢ [] → is_empty is ≡ false
is_empty-ne [] h = absurd (h refl)
is_empty-ne (i ∷ is) h = refl

max_memory_from-le : {D : Type 0} (m : ℕ) (ts : List (SubTest D)) → m ≤ max_memory_from m ts
unfolding max_memory_from
max_memory_from-le m [] = omega arith
max_memory_from-le m (t ∷ ts) = omega (arith, max_memory_from-le (max m t.memory) ts)

pub max_memory_bounds :
    {D : Type 0} (m : ℕ) (ts : List (SubTest D)) → All (λ t. t.memory ≤ max_memory_from m ts) ts
unfolding max_memory_from
max_memory_bounds m [] = tt
max_memory_bounds m (t ∷ ts) =
    (omega (arith, max_memory_from-le (max m t.memory) ts), max_memory_bounds (max m t.memory) ts)

max_time_from-le : {D : Type 0} (m : ℕ) (ts : List (SubTest D)) → m ≤ max_time_from m ts
unfolding max_time_from
max_time_from-le m [] = omega arith
max_time_from-le m (t ∷ ts) = omega (arith, max_time_from-le (max m t.time) ts)

pub max_time_bounds :
    {D : Type 0} (m : ℕ) (ts : List (SubTest D)) → All (λ t. t.time ≤ max_time_from m ts) ts
unfolding max_time_from
max_time_bounds m [] = tt
max_time_bounds m (t ∷ ts) =
    (omega (arith, max_time_from-le (max m t.time) ts), max_time_bounds (max m t.time) ts)

module _ (d : Decimal) (laws : DecimalLaws d) where
  open laws use {Le, le_refl, le_trans, min-le_left, min-le_right, min-eq}

  min_with-le : (p : d.D) (o : Option (SubTest d.D)) → Le (min_with d p o) p
  unfolding min_with
  min_with-le p none = le_refl p
  min_with-le p (some t) = min-le_left p t.percentage

  min_percentage-le_start :
      (tests : List (SubTest d.D)) (p : d.D) (is : List ℕ) → Le (min_percentage d tests p is) p
  unfolding min_percentage
  min_percentage-le_start tests p [] = le_refl p
  min_percentage-le_start tests p (i ∷ is) =
      le_trans _ _ _ (min_percentage-le_start tests (min_with d p (lookup_subtest i tests)) is)
        (min_with-le p (lookup_subtest i tests))

  min_percentage-le :
      (tests : List (SubTest d.D)) (i : ℕ) (t : SubTest d.D) (is : List ℕ) (p : d.D)
      → contains is i ≡ true
      → lookup_subtest i tests ≡ some t
      → Le (min_percentage d tests p is) t.percentage
  unfolding min_percentage min_with
  min_percentage-le tests i t [] p c e = cc
  min_percentage-le tests i t (k ∷ is) p c e = elim (Bool-cases (k == i)) [
    | inl same ↦
        let hit : lookup_subtest k tests ≡ some t = ground (arith, ==→eq k i same) in
        rw hit (
          le_trans _ _ _ (min_percentage-le_start tests (d.min p t.percentage) is)
            (min-le_right p t.percentage))
    | inr other ↦
        min_percentage-le tests i t is (min_with d p (lookup_subtest k tests)) (ground arith) e
  ]

  -- Some listed test that exists has the percentage.
  pub data Attained (tests : List (SubTest d.D)) (q : d.D) (is : List ℕ) : Type 0 where
    by :
        (i : ℕ) (t : SubTest d.D)
        → contains is i ≡ true
        → lookup_subtest i tests ≡ some t
        → t.percentage ≡ q
        → Attained tests q is

  Attained-cons :
      (tests : List (SubTest d.D)) (q : d.D) (k : ℕ) (is : List ℕ)
      → Attained tests q is
      → Attained tests q (k ∷ is)
  Attained-cons tests q k is (by i t c e p) = by i t (ground arith) e p

  min_with-cases :
      (p : d.D) (o : Option (SubTest d.D))
      → (min_with d p o ≡ p) ⊎ ((t : SubTest d.D) × (o ≡ some t) × (t.percentage ≡ min_with d p o))
  unfolding min_with
  min_with-cases p none = inl refl
  min_with-cases p (some t) = elim (min-eq p t.percentage) [
    | inl e ↦ inl e
    | inr e ↦ inr (t, refl, sym e)
  ]

  min_percentage-Attained :
      (tests : List (SubTest d.D)) (p : d.D) (is : List ℕ)
      → (min_percentage d tests p is ≡ p) ⊎ Attained tests (min_percentage d tests p is) is
  unfolding min_percentage
  min_percentage-Attained tests p [] = inl refl
  min_percentage-Attained tests p (i ∷ is) =
      elim (min_percentage-Attained tests (min_with d p (lookup_subtest i tests)) is) [
        | inr a ↦ inr (Attained-cons tests _ i is a)
        | inl e ↦ elim (min_with-cases p (lookup_subtest i tests)) [
          | inl q ↦ inl (e ∙ q)
          | inr (t, found, q) ↦ inr (by i t (ground (arith, ==_refl i)) found (q ∙ sym e))
        ]
      ]

  -- The least of 100 and the percentages of the listed tests that exist.
  pub record IsGroupMin (tests : List (SubTest d.D)) (is : List ℕ) (q : d.D) : Type 0 where
    pub below_full : Le q (d.from_int 100)
    pub below_each :
        (i : ℕ) (t : SubTest d.D)
        → contains is i ≡ true
        → lookup_subtest i tests ≡ some t
        → Le q t.percentage
    pub attained : (q ≡ d.from_int 100) ⊎ Attained tests q is

  min_percentage-IsGroupMin :
      (tests : List (SubTest d.D)) (is : List ℕ)
      → IsGroupMin tests is (min_percentage d tests (d.from_int 100) is)
  min_percentage-IsGroupMin tests is = record {
    below_full = min_percentage-le_start tests (d.from_int 100) is;
    below_each = λ i t c e. min_percentage-le tests i t is (d.from_int 100) c e;
    attained = min_percentage-Attained tests (d.from_int 100) is;
  }

  -- A subtask with tests gets the least of 100 and the percentages of its tests that exist: it is
  -- below each of them and below 100, and equal to 100 or to one of them. The decimal type keeps
  -- its laws.
  pub subtask_percentage-IsGroupMin :
      (tests : List (SubTest d.D)) (stk : SubmissionSubTask d.D)
      → stk.subtests ≢ []
      → IsGroupMin tests stk.subtests (subtask_percentage d tests stk)
  unfolding subtask_percentage
  subtask_percentage-IsGroupMin tests stk e =
      rw (is_empty-ne stk.subtests e) (min_percentage-IsGroupMin tests stk.subtests)
