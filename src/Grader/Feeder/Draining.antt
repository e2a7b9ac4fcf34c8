-- ===== src/Grader/Feeder/Draining.antt =====
-- How rounds empty the queue of eval/grader/feeder.go.
use kilonova.Prelude.{
  ℕ, zero, suc, ◌≤◌, ◌<◌, ◌≡◌, refl, ap, ◌∙◌, Bool, false, none, List, [], ◌∷◌, ==_refl, take,
  length, if◌then◌else◌, arith, Bool-cases, inl, inr, ltb,
}
use kilonova.Submission.{Status}
use kilonova.Grader.Feeder.{
  Queue, Round, ids_with, run_waiting, run_reeval, run_reevals, is_waiting, is_reevaling,
  waiting_pass, reeval_pass,
}
use kilonova.Grader.Feeder.Ids.{without, without_all, ran, run_waiting-ids, run_reeval-ids}

-- A round in which no call fails.
pub record IsQuiet (round : Round) : Type 0 where
  pub waiting_error : round.waiting_error ≡ none
  pub reevaling_error : round.reevaling_error ≡ none
  pub working_error : (id : ℕ) → round.working_error id ≡ none
  pub reset_error : (id : ℕ) → round.reset_error id ≡ none

pub without_all_nil : (ids : List ℕ) → without_all ids [] ≡ []
without_all_nil [] = refl
without_all_nil (id ∷ ids) = without_all_nil ids

-- Taking ids away, and one of them from a list where it is first.
length-without : (id : ℕ) (xs : List ℕ) → length (without id xs) ≤ length xs
length-without id [] = omega arith
length-without id (x ∷ xs) = ground (arith, length-without id xs)

pub length-without_all : (ids xs : List ℕ) → length (without_all ids xs) ≤ length xs
length-without_all [] xs = omega arith
length-without_all (id ∷ ids) xs =
    omega (arith, length-without_all ids (without id xs), length-without id xs)

without_first : (x : ℕ) (xs : List ℕ) → without x (x ∷ xs) ≡ without x xs
without_first x xs = rw (==_refl x) refl

pub length-without_all_first :
    (x : ℕ) (ids xs : List ℕ) → length (without_all (x ∷ ids) (x ∷ xs)) < length (x ∷ xs)
length-without_all_first x ids xs =
    let fewer = length-without_all ids (without x xs) in
    let fewest = length-without x xs in rw (without_first x xs) (omega (arith, fewer, fewest))

-- Nothing is left of a list without all of its own items, in whatever list they stand.
without-without_all :
    (ids : List ℕ) (x : ℕ) (xs : List ℕ)
    → without_all ids (without x xs) ≡ without x (without_all ids xs)
without-without_all [] x xs = refl
without-without_all (id ∷ ids) x xs =
    ap (λ l. without_all ids l) (without-comm id x xs) ∙ without-without_all ids x (without id xs)
  where
    without-comm : (a b : ℕ) (ys : List ℕ) → without a (without b ys) ≡ without b (without a ys)
    without-comm a b [] = refl
    without-comm a b (y ∷ ys) = ground (arith, without-comm a b ys)

pub without_all_self : (xs : List ℕ) → without_all xs xs ≡ []
without_all_self [] = refl
without_all_self (x ∷ xs) =
    ap (λ l. without_all xs l) (without_first x xs)
    ∙ without-without_all xs x xs
    ∙ ap (λ l. without x l) (without_all_self xs)

take_all : (n : ℕ) (xs : List ℕ) → length (take n xs) < n → take n xs ≡ xs
take_all zero xs h = ground arith
take_all (suc n) [] h = refl
take_all (suc n) (x ∷ xs) h = ap (λ l. x ∷ l) (take_all n xs (omega arith))

-- What a pass takes of the ids it reads: `limit` of them when there are more.
abbrev pub taken : ℕ → List ℕ → List ℕ
taken limit read = if ltb limit (length read) then take limit read else read

pub taken_all :
    (limit : ℕ) (xs : List ℕ)
    → ltb limit (length (take (suc limit) xs)) ≡ false
    → taken limit (take (suc limit) xs) ≡ xs
taken_all limit xs h = rw h (take_all (suc limit) xs (ground (arith, h)))

pub taken_first :
    (limit x : ℕ) (xs : List ℕ)
    → (rest : List ℕ) × (taken (suc limit) (take (suc (suc limit)) (x ∷ xs)) ≡ x ∷ rest)
taken_first limit x xs =
    elim (Bool-cases (ltb (suc limit) (length (take (suc (suc limit)) (x ∷ xs))))) [
      | inl more ↦ (take limit (take (suc limit) xs), rw more refl)
      | inr all ↦ (take (suc limit) xs, rw all refl)
    ]

module _ (round : Round) (quiet : IsQuiet round) where
  ran_all : (ids : List ℕ) → ran round ids ≡ ids
  ran_all [] = refl
  ran_all (id ∷ ids) = rw (quiet.working_error id) (ap (λ l. id ∷ l) (ran_all ids))

  run_waiting_lem :
      (ids : List ℕ) (p : Status → Bool) (q : Queue)
      → p Status.finished ≡ false
      → p Status.working ≡ false
      → ids_with p (run_waiting round ids q).rows ≡ without_all ids (ids_with p q.rows)
  run_waiting_lem ids p q finished working =
      run_waiting-ids round ids p q finished working
      ∙ ap (λ l. without_all l (ids_with p q.rows)) (ran_all ids)

  run_reevals_lem :
      (ids : List ℕ) (p : Status → Bool) (q : Queue)
      → p Status.finished ≡ false
      → p Status.working ≡ false
      → ids_with p (run_reevals round ids q).rows ≡ without_all ids (ids_with p q.rows)
  unfolding run_reevals
  run_reevals_lem [] p q finished working = refl
  run_reevals_lem (id ∷ ids) p q finished working =
      run_reevals_lem ids p (run_reeval round id q) finished working
      ∙ ap (λ l. without_all ids l)
          (run_reeval-ids round p id q finished working (quiet.working_error id)
            (quiet.reset_error id))

  pub waiting_pass_lem :
      (p : Status → Bool) (q : Queue)
      → p Status.finished ≡ false
      → p Status.working ≡ false
      → (ids_with p (waiting_pass round q).0.rows
          ≡ without_all (taken 40 (take 41 (ids_with is_waiting q.rows))) (ids_with p q.rows))
        × ((waiting_pass round q).1 ≡ ltb 40 (length (take 41 (ids_with is_waiting q.rows))))
  unfolding waiting_pass
  waiting_pass_lem p q finished working =
      let ids = taken 40 (take 41 (ids_with is_waiting q.rows)) in
      let ids_left = run_waiting_lem ids p q finished working in
      rw quiet.waiting_error (ids_left, refl)

  pub reeval_pass_lem :
      (p : Status → Bool) (q : Queue)
      → p Status.finished ≡ false
      → p Status.working ≡ false
      → (ids_with p (reeval_pass round q).0.rows
          ≡ without_all (taken 5 (take 6 (ids_with is_reevaling q.rows))) (ids_with p q.rows))
        × ((reeval_pass round q).1 ≡ ltb 5 (length (take 6 (ids_with is_reevaling q.rows))))
  unfolding reeval_pass
  reeval_pass_lem p q finished working =
      let ids = taken 5 (take 6 (ids_with is_reevaling q.rows)) in
      let ids_left = run_reevals_lem ids p q finished working in
      rw quiet.reevaling_error (ids_left, refl)
