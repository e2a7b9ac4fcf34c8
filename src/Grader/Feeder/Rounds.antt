-- ===== src/Grader/Feeder/Rounds.antt =====
-- Rounds of eval/grader/feeder.go in which no call fails.
use kilonova.Prelude.{
  ℕ, zero, suc, ◌+◌, ◌<◌, ◌≡◌, refl, sym, ap, ◌∙◌, true, false, List, [], ◌∷◌, take, length, arith,
  Bool-cases, inl, inr, ◌⊎◌, ltb,
}
use kilonova.Grader.Feeder.{
  Queue, Round, ids_with, is_waiting, is_reevaling, wake, waiting_pass, reeval_pass, handle_wake,
  handle, run_waiting, run_reevals,
}
use kilonova.Grader.Feeder.Ids.{without_all}
use kilonova.Grader.Feeder.Draining.{
  IsQuiet, waiting_pass_lem, reeval_pass_lem, taken, taken_all, taken_first, length-without_all,
  length-without_all_first, without_all_nil, without_all_self,
}

abbrev pub waiting_ids : Queue → List ℕ
waiting_ids q = ids_with is_waiting q.rows

abbrev pub reevaling_ids : Queue → List ℕ
reevaling_ids q = ids_with is_reevaling q.rows

-- How many submissions wait or are to be evaluated again.
abbrev pub backlog : Queue → ℕ
backlog q = length (waiting_ids q) + length (reevaling_ids q)

-- The same on lists: one pass takes the first of one of them.
passes-shrink :
    (waiting reevals : List ℕ)
    → 0 < length waiting + length reevals
    → let first = taken 40 (take 41 waiting) in
      let second = taken 5 (take 6 (without_all first reevals)) in
      length (without_all second (without_all first waiting))
        + length (without_all second (without_all first reevals))
      < length waiting + length reevals
passes-shrink (w ∷ ws) reevals h =
    let first = taken 40 (take 41 (w ∷ ws)) in
    let second = taken 5 (take 6 (without_all first reevals)) in
    let (rest, starts) = taken_first 39 w ws in
    let fewer : length (without_all first (w ∷ ws)) < length (w ∷ ws) =
      rw starts (length-without_all_first w rest ws) in
    omega (
      arith,
      fewer,
      length-without_all second (without_all first (w ∷ ws)),
      length-without_all second (without_all first reevals),
      length-without_all first reevals,
    )
passes-shrink [] [] h = omega arith
passes-shrink [] (r ∷ rs) h =
    let second = taken 5 (take 6 (r ∷ rs)) in
    let (rest, starts) = taken_first 4 r rs in
    let fewer : length (without_all second (r ∷ rs)) < length (r ∷ rs) =
      rw starts (length-without_all_first r rest rs) in
    omega (arith, fewer, length-without_all second [])

module _ (round : Round) (quiet : IsQuiet round) (q : Queue) where
  -- The rows after a round, by its two passes.
  handle_wake-rows :
      (handle_wake round q).rows
      ≡ (reeval_pass round (waiting_pass round (record q { token = false })).0).0.rows
  unfolding handle_wake wake
  handle_wake-rows = ground arith

  -- No more token only if neither pass saw more than it takes.
  handle_wake-token :
      (handle_wake round q).token ≡ false
      → ((waiting_pass round (record q { token = false })).1 ≡ false)
        × ((reeval_pass round (waiting_pass round (record q { token = false })).0).1 ≡ false)
  unfolding handle_wake wake
  handle_wake-token h = (ground arith, ground arith)

  first_taken : List ℕ
  first_taken = taken 40 (take 41 (waiting_ids q))

  second_taken : List ℕ
  unfolding first_taken
  second_taken = taken 5 (take 6 (without_all first_taken (reevaling_ids q)))

  waiting_after :
      waiting_ids (handle_wake round q)
      ≡ without_all second_taken (without_all first_taken (waiting_ids q))
  unfolding first_taken second_taken
  waiting_after =
      let start = record q { token = false } in
      let first = waiting_pass_lem round quiet is_waiting start refl refl in
      let firsts = waiting_pass_lem round quiet is_reevaling start refl refl in
      let second = reeval_pass_lem round quiet is_waiting (waiting_pass round start).0 refl refl in
      ap (λ rows. ids_with is_waiting rows) handle_wake-rows
      ∙ second.0
      ∙ ap (λ l. without_all l (ids_with is_waiting (waiting_pass round start).0.rows))
          (ap (λ l. taken 5 (take 6 l)) firsts.0)
      ∙ ap (λ l. without_all second_taken l) first.0

  reevaling_after :
      reevaling_ids (handle_wake round q)
      ≡ without_all second_taken (without_all first_taken (reevaling_ids q))
  unfolding first_taken second_taken
  reevaling_after =
      let start = record q { token = false } in
      let first = waiting_pass_lem round quiet is_reevaling start refl refl in
      let second =
        reeval_pass_lem round quiet is_reevaling (waiting_pass round start).0 refl refl in
      ap (λ rows. ids_with is_reevaling rows) handle_wake-rows
      ∙ second.0
      ∙ ap (λ l. without_all (taken 5 (take 6 l)) l) first.0

  -- A round in which no call fails leaves no token in wakeChan only when no submission waits and none
  -- is to be evaluated again: what the limits of 40 and 5 leave over is never forgotten until the
  -- ticker's next wake.
  pub handle_wake-empties :
      (handle_wake round q).token ≡ false
      → (waiting_ids (handle_wake round q) ≡ []) × (reevaling_ids (handle_wake round q) ≡ [])
  unfolding first_taken second_taken
  handle_wake-empties h =
      let (no_more_waiting, no_more_reevals) = handle_wake-token h in
      let start = record q { token = false } in
      let all_waiting : first_taken ≡ waiting_ids q =
        taken_all 40 (waiting_ids q)
          (sym (waiting_pass_lem round quiet is_waiting start refl refl).1 ∙ no_more_waiting) in
      let left = without_all first_taken (reevaling_ids q) in
      let read = (waiting_pass_lem round quiet is_reevaling start refl refl).0 in
      let all_reevals : second_taken ≡ left = taken_all 5 left (
        ap (λ l. ltb 5 (length (take 6 l))) (sym read)
        ∙ sym (reeval_pass_lem round quiet is_reevaling (waiting_pass round start).0 refl refl).1
        ∙ no_more_reevals) in
      (
        waiting_after
            ∙ ap (λ l. without_all second_taken (without_all l (waiting_ids q))) all_waiting
            ∙ ap (λ l. without_all second_taken l) (without_all_self (waiting_ids q))
            ∙ without_all_nil second_taken,
        reevaling_after ∙ ap (λ l. without_all l left) all_reevals ∙ without_all_self left,
      )

  -- A round in which no call fails makes the backlog smaller, unless there is none.
  pub handle_wake-shrinks : 0 < backlog q → backlog (handle_wake round q) < backlog q
  unfolding first_taken second_taken
  handle_wake-shrinks h =
      rw (waiting_after, reevaling_after) (passes-shrink (waiting_ids q) (reevaling_ids q) h)

-- A round that finds nothing leaves no token.
handle_wake-idle :
    (round : Round) (q : Queue)
    → IsQuiet round
    → waiting_ids q ≡ []
    → reevaling_ids q ≡ []
    → (handle_wake round q).token ≡ false
unfolding handle_wake waiting_pass reeval_pass run_waiting run_reevals wake
handle_wake-idle round q quiet none_waits no_reevals =
    rw (quiet.waiting_error, quiet.reevaling_error, none_waits, no_reevals) refl

nil_or_some : (xs : List ℕ) → (xs ≡ []) ⊎ (0 < length xs)
nil_or_some [] = inl refl
nil_or_some (x ∷ xs) = inr (omega arith)

-- A round that leaves a token found something.
still_backlog :
    (round : Round) (q : Queue) → IsQuiet round → (handle_wake round q).token ≡ true → 0 < backlog q
still_backlog round q quiet more = elim (nil_or_some (waiting_ids q)) [
  | inr waits ↦ omega (arith, waits)
  | inl none_waits ↦ elim (nil_or_some (reevaling_ids q)) [
    | inr reevals ↦ omega (arith, reevals)
    | inl no_reevals ↦
        let idle = handle_wake-idle round q quiet none_waits no_reevals in
        ground (arith, idle, more)
  ]
]

-- Without a token the loop does nothing.
handle-rest :
    (fuel : ℕ) (rounds : ℕ → Round) (q : Queue) → q.token ≡ false → handle rounds fuel q ≡ q
unfolding handle
handle-rest zero rounds q h = refl
handle-rest (suc fuel) rounds q h = rw h refl

-- The loop, when it starts with a token, no call fails and no other request comes between, comes to
-- rest after at most one round more than there are submissions that wait or are to be evaluated again:
-- then no token is left, none waits and none is to be evaluated again.
pub handle-drains :
    (fuel : ℕ) (rounds : ℕ → Round) (q : Queue)
    → ((n : ℕ) → IsQuiet (rounds n))
    → q.token ≡ true
    → backlog q < fuel
    → ((handle rounds fuel q).token ≡ false)
      × (waiting_ids (handle rounds fuel q) ≡ [])
      × (reevaling_ids (handle rounds fuel q) ≡ [])
unfolding handle
handle-drains zero rounds q quiet woken enough = ground arith
handle-drains (suc fuel) rounds q quiet woken enough =
    let round = rounds fuel in
    let next = handle_wake round q in
    elim (Bool-cases next.token) [
      | inl more ↦
          let smaller : backlog next < backlog q =
            handle_wake-shrinks round (quiet fuel) q (still_backlog round q (quiet fuel) more) in
          rw woken (handle-drains fuel rounds next quiet more (omega (arith, smaller, enough)))
      | inr rests ↦
          let (none_waits, no_reevals) = handle_wake-empties round (quiet fuel) q rests in
          rw (woken, handle-rest fuel rounds next rests) (rests, none_waits, no_reevals)
    ]
