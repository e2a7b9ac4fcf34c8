-- ===== src/Submission/Create/Limits.antt =====
-- Accepted and refused submissions: theorems on CreateSubmission.
use kilonova.Prelude.{
  ℕ, ◌+◌, ◌≡◌, refl, ◌⊎◌, inl, inr, ◌↔◌, Bool, true, false, Option, none, some, List, [], ◌∷◌,
  String, ◌<◌, ◌≤◌, arith, length, any, str_eq, is_empty, Bool-cases, Option-cases, is_some, ltb,
  ap, ◌∙◌, ◌||◌,
}
use kilonova.Prelude.Int.{ℤ, pos, negsuc, ◌-ℤ◌, is_negative}
use kilonova.Status.{ok, Result-cases}
use kilonova.User.{UserFull}
use kilonova.Contest.{Contest, is_tester}
use kilonova.Contest.Access.{can_submit_in_contest}
use kilonova.Problem.{Problem}
use kilonova.Problem.Access.{is_problem_visible, is_problem_fully_visible}
use kilonova.Submission.Create.{
  CreateDb, Language, Store, remaining_submission_count, rate_checks, cooldown_check,
  contest_checks, place_checks, language_check, create_checks, create_submission,
}

length-pos : (code : List ℕ) → is_empty code ≡ false → 0 < length code
length-pos [] h = cc
length-pos (x ∷ xs) h = omega arith

sign-cases : (z : ℤ) → (is_negative z ≡ true) ⊎ ((m : ℕ) × (z ≡ pos m))
sign-cases (pos m) = inr (m, refl)
sign-cases (negsuc m) = inl refl

module _ (db : CreateDb) where
  -- With the counts fetched and all three limits set, a user passes the rate limits exactly when
  -- fewer than the limit of his submissions wait, and at most the limit, not fewer, were sent in
  -- the last minute; an unverified user has a limit of his own, met the same way.
  pub rate_checks_iff :
      (a : UserFull) (waiting recent : ℕ)
      → db.waiting_count a.id ≡ ok waiting
      → db.recent_count a.id ≡ ok recent
      → 0 < db.waiting_sub_limit
      → 0 < db.total_sub_limit
      → 0 < db.unverified_sub_limit
      → (rate_checks db a ≡ ok tt) ↔ (
          (waiting < db.waiting_sub_limit)
          × (recent ≤ db.total_sub_limit)
          × ((a.verified_email ≡ true) ⊎ (recent ≤ db.unverified_sub_limit)))
  unfolding rate_checks
  rate_checks_iff a waiting recent w r p q s = (λ h. ground arith, λ h. ground arith)

  -- Sending to a contest that limits submissions leaves the user within the limit: there is room
  -- for one more.
  contest_checks-room :
      (now : ℕ) (a : UserFull) (pid cid : ℕ) (c : Contest)
      → db.contest cid ≡ ok c
      → contest_checks db now a pid cid ≡ ok tt
      → (is_negative c.max_subs ≡ true)
        ⊎ ((n : ℕ) × (m : ℕ) × (c.max_subs ≡ pos m)
            × (db.submission_count c.id pid a.id ≡ ok n)
            × (n < m))
  unfolding contest_checks remaining_submission_count ◌-ℤ◌
  contest_checks-room now a pid cid c q h = elim (sign-cases c.max_subs) [
    | inl unlimited ↦ inl unlimited
    | inr (m, limited) ↦ elim (Result-cases (db.submission_count c.id pid a.id)) [
      | inl (e, failed) ↦ ground arith
      | inr (n, counted) ↦ inr (n, m, limited, counted, ground arith)
    ]
  ]

  contest_checks-admitted :
      (now : ℕ) (a : UserFull) (pid cid : ℕ) (c : Contest)
      → db.contest cid ≡ ok c
      → contest_checks db now a pid cid ≡ ok tt
      → can_submit_in_contest db.contest_db now (some a.user_brief) (some c) ≡ true
  unfolding contest_checks
  contest_checks-admitted now a pid cid c q h = ground arith

  -- A user who is no tester waits: his last submission to the contest, if any, is a cooldown old.
  contest_checks-cooldown :
      (now : ℕ) (a : UserFull) (pid cid : ℕ) (c : Contest)
      → db.contest cid ≡ ok c
      → contest_checks db now a pid cid ≡ ok tt
      → (is_tester (some c) (some a.user_brief) ≡ true)
        ⊎ (c.submission_cooldown ≡ 0)
        ⊎ (db.last_submission_time c.id a.id ≡ ok none)
        ⊎ ((t : ℕ) × (db.last_submission_time c.id a.id ≡ ok (some t))
            × (t + c.submission_cooldown ≤ now))
  unfolding contest_checks cooldown_check
  contest_checks-cooldown now a pid cid c q h =
      elim (Bool-cases (is_tester (some c) (some a.user_brief))) [
        | inl tester ↦ inl tester
        | inr no_tester ↦ elim (Result-cases (db.last_submission_time c.id a.id)) [
          | inl (e, failed) ↦ inr (inl (ground arith))
          | inr (last, read) ↦ elim (Option-cases last) [
            | inl never ↦ inr (inr (inl (read ∙ ap ok never)))
            | inr (t, sent) ↦ elim (Bool-cases (ltb 0 c.submission_cooldown)) [
              | inl waits ↦ inr (inr (inr (t, read ∙ ap ok sent, ground arith)))
              | inr no_wait ↦ inr (inl (ground arith))
            ]
          ]
        ]
      ]

  create_checks-place :
      {D : Type 0} (now : ℕ) (a : UserFull) (pb : Problem D) (code : List ℕ) (lang : Language)
      (contest_id : Option ℕ) (bypass : Bool)
      → create_checks db now a pb code lang contest_id bypass ≡ ok tt
      → place_checks db now a pb contest_id ≡ ok tt
  unfolding create_checks
  create_checks-place now a pb code lang contest_id bypass h = ground arith

  create-checks :
      {D : Type 0} (now : ℕ) (store : Store) (a : UserFull) (pb : Problem D) (code : List ℕ)
      (name : String) (lang : Language) (contest_id : Option ℕ) (bypass : Bool)
      (extra : Option (List ℕ)) (extra_name : String) (id : ℕ)
      → (create_submission db now store
          (some a)
          (some pb)
          code
          name
          lang
          contest_id
          bypass
          extra
          extra_name).1
        ≡ ok id
      → create_checks db now a pb code lang contest_id bypass ≡ ok tt
  unfolding create_submission
  create-checks now store a pb code name lang contest_id bypass extra extra_name id h = ground arith

  -- A submission is accepted to a contest only from a user who may submit there now. The contest
  -- does not limit submissions, or the user's submissions to the problem could be counted and are
  -- fewer than it allows. And the user is a tester, the contest has no cooldown, he has sent none to
  -- it before, or a cooldown has passed since his last one.
  pub created_in_contest :
      {D : Type 0} (now : ℕ) (store : Store) (a : UserFull) (pb : Problem D) (code : List ℕ)
      (name : String) (lang : Language) (bypass : Bool) (extra : Option (List ℕ))
      (extra_name : String) (id cid : ℕ) (c : Contest)
      → db.contest cid ≡ ok c
      → (create_submission db now store
          (some a)
          (some pb)
          code
          name
          lang
          (some cid)
          bypass
          extra
          extra_name).1
        ≡ ok id
      → (can_submit_in_contest db.contest_db now (some a.user_brief) (some c) ≡ true)
        × ((is_negative c.max_subs ≡ true)
            ⊎ ((n : ℕ) × (m : ℕ) × (c.max_subs ≡ pos m)
                × (db.submission_count c.id pb.id a.id ≡ ok n)
                × (n < m)))
        × ((is_tester (some c) (some a.user_brief) ≡ true)
            ⊎ (c.submission_cooldown ≡ 0)
            ⊎ (db.last_submission_time c.id a.id ≡ ok none)
            ⊎ ((t : ℕ) × (db.last_submission_time c.id a.id ≡ ok (some t))
                × (t + c.submission_cooldown ≤ now)))
  unfolding place_checks
  created_in_contest now store a pb code name lang bypass extra extra_name id cid c q h =
      let checks =
        create_checks-place now a pb code lang (some cid) bypass
          (create-checks now store a pb code name lang (some cid) bypass extra extra_name id h) in
      (
        contest_checks-admitted now a pb.id cid c q checks,
        contest_checks-room now a pb.id cid c q checks,
        contest_checks-cooldown now a pb.id cid c q checks,
      )

  create_checks-parts :
      {D : Type 0} (now : ℕ) (a : UserFull) (pb : Problem D) (code : List ℕ) (lang : Language)
      (contest_id : Option ℕ) (bypass : Bool)
      → create_checks db now a pb code lang contest_id bypass ≡ ok tt
      → (length code ≤ pb.source_size)
        × (is_problem_visible db.problem_db (some a.user_brief) (some pb) ≡ true)
        × (is_empty code ≡ false)
        × (language_check db pb.id lang ≡ ok tt)
  unfolding create_checks
  create_checks-parts now a pb code lang contest_id bypass h = ground arith

  language_check-any :
      (pid : ℕ) (lang : Language) (langs : List Language)
      → db.problem_languages pid ≡ ok langs
      → language_check db pid lang ≡ ok tt
      → any (λ k. str_eq k.internal_name lang.internal_name) langs ≡ true
  unfolding language_check
  language_check-any pid lang langs q h = ground arith

  place_checks-outside :
      {D : Type 0} (now : ℕ) (a : UserFull) (pb : Problem D) (contest_id : Option ℕ)
      → place_checks db now a pb contest_id ≡ ok tt
      → (is_some contest_id || is_problem_fully_visible db.problem_db (some a.user_brief) (some pb))
        ≡ true
  unfolding place_checks
  place_checks-outside now a pb none h = ground arith
  place_checks-outside now a pb (some cid) h = refl

  -- Whatever is accepted is code of an allowed size in a language of the problem, sent by a user
  -- who sees the problem, and outside a contest by one who sees it fully.
  pub created_is_admissible :
      {D : Type 0} (now : ℕ) (store : Store) (a : UserFull) (pb : Problem D) (code : List ℕ)
      (name : String) (lang : Language) (contest_id : Option ℕ) (bypass : Bool)
      (extra : Option (List ℕ)) (extra_name : String) (id : ℕ) (langs : List Language)
      → db.problem_languages pb.id ≡ ok langs
      → (create_submission db now store
          (some a)
          (some pb)
          code
          name
          lang
          contest_id
          bypass
          extra
          extra_name).1
        ≡ ok id
      → (0 < length code)
        × (length code ≤ pb.source_size)
        × (is_problem_visible db.problem_db (some a.user_brief) (some pb) ≡ true)
        × (any (λ k. str_eq k.internal_name lang.internal_name) langs ≡ true)
        × ((is_some contest_id
              || is_problem_fully_visible db.problem_db (some a.user_brief) (some pb))
            ≡ true)
  created_is_admissible now store a pb code name lang contest_id bypass extra extra_name id langs q
        h =
      let checks =
        create-checks now store a pb code name lang contest_id bypass extra extra_name id h in
      let (size, sees, full, language) =
        create_checks-parts now a pb code lang contest_id bypass checks in
      let place = create_checks-place now a pb code lang contest_id bypass checks in
      (
        length-pos code full,
        size,
        sees,
        language_check-any pb.id lang langs q language,
        place_checks-outside now a pb contest_id place,
      )
