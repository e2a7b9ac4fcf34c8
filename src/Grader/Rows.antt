-- ===== src/Grader/Rows.antt =====
-- The rows of a classic submission under different orders of its tests' writes
-- (handleClassicSubmission grades the tests at once).
use mathlib.Core.List.{Permᴰ}
use kilonova.Prelude.{ℕ, ◌≡◌, refl, sym, ◌∙◌, ap, subst, ◌≢◌, List, [], ◌∷◌, arith, All}
use kilonova.Status.{Result, ok, err}
use kilonova.Decimal.{Decimal}
use kilonova.Problem.{Problem}
use kilonova.Submission.{SubTest, SubTestUpdate}
use kilonova.Grader.{State, Faults, apply_subtest_update, update_rows, update_subtest}
use kilonova.Grader.Subtest.{Judge, SubtestOutput, judged, output_update, handle_sub_test}
use kilonova.Grader.Score.{handle_each, score_tests, handle_classic_submission}

apply-id : {D : Type 0} (u : SubTestUpdate D) (t : SubTest D) → (apply_subtest_update u t).id ≡ t.id
unfolding apply_subtest_update
apply-id u t = refl

update_rows_comm :
    {D : Type 0} (i k : ℕ) (u v : SubTestUpdate D) (ts : List (SubTest D))
    → i ≢ k
    → update_rows i u (update_rows k v ts) ≡ update_rows k v (update_rows i u ts)
unfolding update_rows
update_rows_comm i k u v [] n = refl
update_rows_comm i k u v (t ∷ ts) n =
    ground (arith, apply-id u t, apply-id v t, update_rows_comm i k u v ts n)

update_subtest_comm :
    {D : Type 0} (f : Faults D) (st : State D) (i k : ℕ) (u v : SubTestUpdate D)
    → i ≢ k
    → (update_subtest f (update_subtest f st k v).0 i u).0
      ≡ (update_subtest f (update_subtest f st i u).0 k v).0
unfolding update_subtest
update_subtest_comm f st i k u v n = ground (arith, update_rows_comm i k u v st.subtests n)

pub update_subtest-submission :
    {D : Type 0} (f : Faults D) (st : State D) (i : ℕ) (u : SubTestUpdate D)
    → (update_subtest f st i u).0.submission ≡ st.submission
unfolding update_subtest
update_subtest-submission f st i u = ground arith

All-perm {ℓ κ} : {A : Type ℓ} (P : A → Type κ) {xs ys : List A} → Permᴰ xs ys → All P xs → All P ys
All-perm P Permᴰ.nil h = h
All-perm P (Permᴰ.cons e p) h = (subst P e h.0, All-perm P p h.1)
All-perm P (Permᴰ.swap e e') h = (subst P e' h.1.0, (subst P e h.0, h.1.1))
All-perm P (Permᴰ.trans p q) h = All-perm P q (All-perm P p h)

module _ (d : Decimal) (f : Faults d.D) (j : Judge d.D) (pb : Problem d.D) where
  -- The write that follows a test's outcome.
  written : State d.D → ℕ → Result (SubtestOutput d.D) → State d.D
  written st i (err e) = st
  written st i (ok o) = (update_subtest f st i (output_update d j pb o)).0

  written_lem :
      (st : State d.D) (t : SubTest d.D) (r : Result (SubtestOutput d.D))
      → judged d j pb st.submission.submission_type t ≡ r
      → (handle_sub_test d j pb f st t).0 ≡ written st t.id r
  unfolding handle_sub_test written
  written_lem st t (err e) q = ground arith
  written_lem st t (ok o) q = ground arith

  written-submission :
      (st : State d.D) (i : ℕ) (r : Result (SubtestOutput d.D))
      → (written st i r).submission ≡ st.submission
  unfolding written
  written-submission st i (err e) = refl
  written-submission st i (ok o) = update_subtest-submission f st i (output_update d j pb o)

  written_comm :
      (st : State d.D) (i k : ℕ) (q r : Result (SubtestOutput d.D))
      → i ≢ k
      → written (written st i q) k r ≡ written (written st k r) i q
  unfolding written
  written_comm st i k (err e) (err e') n = refl
  written_comm st i k (err e) (ok o) n = refl
  written_comm st i k (ok o) (err e) n = refl
  written_comm st i k (ok o) (ok o') n = sym (update_subtest_comm f st i k _ _ n)

  handle_twice :
      (st : State d.D) (a b : SubTest d.D)
      → (handle_sub_test d j pb f (handle_sub_test d j pb f st a).0 b).0 ≡ (
          let kind = st.submission.submission_type in
          written (written st a.id (judged d j pb kind a)) b.id (judged d j pb kind b))
  handle_twice st a b =
      let r : Result (SubtestOutput d.D) = judged d j pb st.submission.submission_type a in
      rw (written_lem st a r refl) (
        written_lem (written st a.id r) b _
          (ap (λ s. judged d j pb s.submission_type b) (written-submission st a.id r)))

  handle_sub_test_comm :
      (st : State d.D) (a b : SubTest d.D)
      → a.id ≢ b.id
      → (handle_sub_test d j pb f (handle_sub_test d j pb f st a).0 b).0
        ≡ (handle_sub_test d j pb f (handle_sub_test d j pb f st b).0 a).0
  handle_sub_test_comm st a b n =
      handle_twice st a b ∙ written_comm st a.id b.id _ _ n ∙ sym (handle_twice st b a)

  -- No two of the tests are one row.
  abbrev pub Distinct : List (SubTest d.D) → Type 0
  Distinct [] = Unit {0}
  Distinct (t ∷ ts) = All (λ s. t.id ≢ s.id) ts × Distinct ts

  Distinct-perm : {xs ys : List (SubTest d.D)} → Permᴰ xs ys → Distinct xs → Distinct ys
  Distinct-perm Permᴰ.nil h = h
  Distinct-perm (Permᴰ.cons {l₂ = l₂} e p) h = (
    subst (λ (t : SubTest d.D). All (λ (s : SubTest d.D). t.id ≢ s.id) l₂) e (All-perm _ p h.0),
    Distinct-perm p h.1,
  )
  Distinct-perm (Permᴰ.swap {a = a} {b = b} {b' = b'} {l = l} e e') h =
      subst (λ x. Distinct (x ∷ b' ∷ l)) e'
        (subst (λ y. Distinct (b ∷ y ∷ l)) e ((λ q. h.0.0 (sym q), h.1.0), (h.0.1, h.1.1)))
  Distinct-perm (Permᴰ.trans p q) h = Distinct-perm q (Distinct-perm p h)

  schedule_independent :
      (xs ys : List (SubTest d.D)) (st : State d.D)
      → Permᴰ xs ys
      → Distinct xs
      → handle_each d f j pb st xs ≡ handle_each d f j pb st ys
  unfolding handle_each
  schedule_independent xs ys st p h = by_perm p st h
    where
      by_perm :
          {xs ys : List (SubTest d.D)}
          → Permᴰ xs ys
          → (st : State d.D) → Distinct xs
          → handle_each d f j pb st xs ≡ handle_each d f j pb st ys
      by_perm Permᴰ.nil st h = refl
      by_perm (Permᴰ.cons {a = a} {l₁ = l₁} {l₂ = l₂} e p) st h =
          subst (λ x. handle_each d f j pb st (a ∷ l₁) ≡ handle_each d f j pb st (x ∷ l₂)) e
            (by_perm p (handle_sub_test d j pb f st a).0 h.1)
      by_perm (Permᴰ.swap {a = a} {b = b} {b' = b'} {l = l} e e') st h =
          subst (λ x. handle_each d f j pb st (a ∷ b ∷ l) ≡ handle_each d f j pb st (x ∷ b' ∷ l)) e'
            (subst (λ y. handle_each d f j pb st (a ∷ b ∷ l) ≡ handle_each d f j pb st (b ∷ y ∷ l))
              e (ap (λ s. handle_each d f j pb s l) (handle_sub_test_comm st a b h.0.0)))
      by_perm (Permᴰ.trans p q) st h = by_perm p st h ∙ by_perm q st (Distinct-perm p h)

  -- Whatever order the writes of the tests' handlers land in, a classic submission comes out the
  -- same, its score and its rows, when the tests are different rows.
  pub classic_schedule_independent :
      (xs ys : List (SubTest d.D)) (st : State d.D)
      → Permᴰ xs ys
      → Distinct xs
      → handle_classic_submission d f j pb st xs ≡ handle_classic_submission d f j pb st ys
  unfolding handle_classic_submission
  classic_schedule_independent xs ys st p h =
      ap (score_tests d f pb) (schedule_independent xs ys st p h)
