-- ===== src/Submission/Create/Effects.antt =====
-- What a call writes: theorems on CreateSubmission.
use kilonova.Prelude.{
  ℕ, ◌+◌, ◌≡◌, inl, inr, Bool, false, Option, none, some, List, [], ◌∷◌, ◌++◌, String, arith,
  length, length-append, ◌&&◌, if◌then◌else◌,
}
use kilonova.Status.{is_ok, Result-cases}
use kilonova.User.{UserFull}
use kilonova.Problem.{Problem}
use kilonova.Submission.Create.{
  CreateDb, Language, Store, NewSubmission, new_row, upload_files, create_checks, write_submission,
  create_submission,
}

length-snoc {ℓ} : {A : Type ℓ} (xs : List A) (x : A) → length (xs ++ x ∷ []) ≡ length xs + 1
length-snoc xs x = omega (arith, length-append xs (x ∷ []))

module _ (db : CreateDb) where
  write_submission-length :
      (store : Store) (row : ℕ → NewSubmission)
      → length (write_submission db store row).0.submissions
        ≡ length store.submissions + (if is_ok db.new_id then 1 else 0)
  unfolding write_submission
  write_submission-length store row = elim (Result-cases db.new_id) [
    | inl (e, q) ↦ ground arith
    | inr (id, q) ↦ ground (arith, length-snoc store.submissions (row id))
  ]

  write_submission-wakes :
      (store : Store) (row : ℕ → NewSubmission)
      → (write_submission db store row).0.wakes
        ≡ store.wakes + (if is_ok (write_submission db store row).1 then 1 else 0)
  unfolding write_submission
  write_submission-wakes store row = ground arith

  -- The author and the problem are given, and all tests pass.
  unfoldable pub passes :
      {D : Type 0}
      → ℕ
      → Option UserFull
      → Option (Problem D)
      → List ℕ
      → Language
      → Option ℕ
      → Bool
      → Bool
  passes now none problem code lang contest_id bypass = false
  passes now (some a) none code lang contest_id bypass = false
  passes now (some a) (some pb) code lang contest_id bypass =
      is_ok (create_checks db now a pb code lang contest_id bypass)

  -- A call with an author and a problem whose tests all pass writes one row, if the database takes
  -- it, and any other call writes none. A call that succeeds wakes the grader once, and no other call
  -- wakes it.
  pub create_effects :
      {D : Type 0} (now : ℕ) (store : Store) (author : Option UserFull)
      (problem : Option (Problem D)) (code : List ℕ) (name : String) (lang : Language)
      (contest_id : Option ℕ) (bypass : Bool) (extra : Option (List ℕ)) (extra_name : String)
      → let (store', r) =
          create_submission db now store author problem code name lang contest_id bypass extra
            extra_name in
        let passed = passes now author problem code lang contest_id bypass in
        (length store'.submissions
          ≡ length store.submissions + (if passed && is_ok db.new_id then 1 else 0))
        × (store'.wakes ≡ store.wakes + (if is_ok r then 1 else 0))
  unfolding create_submission passes
  create_effects now store none problem code name lang contest_id bypass extra extra_name =
      (omega arith, omega arith)
  create_effects now store (some a) none code name lang contest_id bypass extra extra_name =
      (omega arith, omega arith)
  create_effects now store (some a) (some pb) code name lang contest_id bypass extra extra_name =
      let row =
        new_row a.id pb.id lang contest_id (upload_files db code name lang extra extra_name) in
      elim (Result-cases (create_checks db now a pb code lang contest_id bypass)) [
        | inl (e, q) ↦ (ground arith, ground arith)
        | inr (u, q) ↦ (
          ground (arith, write_submission-length store row),
          ground (arith, write_submission-wakes store row),
        )
      ]
