-- ===== src/Submission/Hiding.antt =====
-- Who sees source code: theorems on Submission/Visibility.antt.
use kilonova.Prelude.{
  ℕ, ◌≡◌, refl, ◌≢◌, ◌⊎◌, inl, inr, ◌↔◌, Bool, true, false, ◌&&◌, Option, none, some, List, [], ◌∷◌,
  ◌<◌, ◌==◌, if◌then◌else◌, any, all, contains, is_value, is_some, not, ◌||◌, arith, Bool-cases,
  Option-cases,
}
use kilonova.Status.{Result, ok, err}
use kilonova.User.{UserBrief, is_authed, user_id_or_zero}
use kilonova.Contest
use kilonova.Contest.{Contest, ended}
use kilonova.Decimal.{Decimal}
use kilonova.Problem.{Problem}
use kilonova.Problem.Access.{is_problem_editor, is_problem_fully_visible}
use kilonova.Submission.{Submission, is_editor}
use kilonova.Submission.Visibility.{
  VisibilityDb, WhitelistVerdict, sub_visible_regardless, answer, check_solved, whitelist_answer,
  whitelist_verdict, everyone_answer, source_visible, is_submission_visible, filter_submission,
  submission_code,
}

module _ (d : Decimal) (db : VisibilityDb d) (now : ℕ) (sub : Submission d.D) where
  everyone_off :
      (user : Option UserBrief) (problem : Option (Problem d.D))
      → db.sub_for_everyone ≡ false
      → everyone_answer d db now sub user problem ≡ none
  unfolding everyone_answer
  everyone_off user none off = refl
  everyone_off user (some pb) off = ground arith

  regardless_iff :
      (user : Option UserBrief) (problem : Option (Problem d.D))
      → is_authed user ≡ true
      → (sub_visible_regardless d db (some sub) user problem true ≡ true) ↔ (
          (is_editor (some sub) user ≡ true)
          ⊎ (is_problem_editor db.problem_db user problem ≡ true)
          ⊎ (d.equal (db.max_score (user_id_or_zero user) sub.problem_id) (d.from_int 100) ≡ true))
  unfolding sub_visible_regardless is_problem_editor is_editor is_authed user_id_or_zero
  regardless_iff none problem a = (λ h. ground arith, λ h. ground arith)
  regardless_iff (some u) none a = (λ h. ground arith, λ h. ground arith)
  regardless_iff (some u) (some pb) a = (λ h. ground arith, λ h. ground arith)

  -- What the contest of an unfinished submission adds for an outsider.
  everyone_answer-running :
      (user : Option UserBrief) (problem : Option (Problem d.D)) (cid : ℕ) (c : Contest)
      → sub.contest_id ≡ some cid
      → db.contest cid ≡ ok c
      → ended now (some c) ≡ false
      → Contest.is_editor (some c) user ≡ false
      → is_editor (some sub) user ≡ false
      → (everyone_answer d db now sub user problem ≡ none)
        ⊎ (everyone_answer d db now sub user problem ≡ some false)
  unfolding everyone_answer
  everyone_answer-running user none cid c i q e ce se = inl refl
  everyone_answer-running user (some pb) cid c i q e ce se = ground arith

  whitelist_answer-stranger :
      (user : Option UserBrief) (cs : List Contest)
      → is_authed user ≡ true
      → is_editor (some sub) user ≡ false
      → whitelist_answer d db sub user cs ≢ answer true
  unfolding whitelist_answer is_editor
  whitelist_answer-stranger user [] a e h = cc
  whitelist_answer-stranger user (c ∷ cs) a e h = ground arith

  whitelist_verdict-stranger :
      (user : Option UserBrief) (check_ip : Bool)
      → is_authed user ≡ true
      → is_editor (some sub) user ≡ false
      → whitelist_verdict d db sub user check_ip ≢ answer true
  unfolding whitelist_verdict
  whitelist_verdict-stranger user false a e h = cc
  whitelist_verdict-stranger user true a e h = elim (Option-cases db.whitelisted_contests) [
    | inl q ↦ ground arith
    | inr (r, q) ↦ by_result r q
  ]
    where
      by_result : (r : Result (List Contest)) → db.whitelisted_contests ≡ some r → ⊥
      by_result (err x) q = ground arith
      by_result (ok cs) q = whitelist_answer-stranger user cs a e (ground arith)

  source_hidden :
      (user : Option UserBrief) (problem : Option (Problem d.D)) (w : WhitelistVerdict d db)
      → w ≢ answer true
      → (everyone_answer d db now sub user problem ≡ none)
        ⊎ (everyone_answer d db now sub user problem ≡ some false)
      → is_editor (some sub) user ≡ false
      → is_problem_editor db.problem_db user problem ≡ false
      → d.equal (db.max_score (user_id_or_zero user) sub.problem_id) (d.from_int 100) ≡ false
      → source_visible d db now sub problem user w ≡ false
  unfolding source_visible sub_visible_regardless
  source_hidden user problem (answer true) w e se pe s = absurd (w refl)
  source_hidden user problem (answer false) w e se pe s = refl
  source_hidden user problem (check_solved b) w e se pe s = ground arith

module _ (d : Decimal) (db : VisibilityDb d) (now : ℕ) (sub : Submission d.D)
    (problem : Option (Problem d.D)) (user : Option UserBrief) where
  whitelist_answer-outsider :
      (cs : List Contest)
      → all (λ k. Contest.is_editor (some k) user) cs ≡ false
      → whitelist_answer d db sub user cs
        ≡ answer (any (λ k. is_value sub.contest_id k.id) cs && sub.user_id == user_id_or_zero user)
  unfolding whitelist_answer
  whitelist_answer-outsider [] h = cc
  whitelist_answer-outsider (c ∷ cs) h = ground arith

  -- No address, no answer of the database, or no contest for the address.
  unfoldable pub is_outside : Option (Result (List Contest)) → Bool
  is_outside none = true
  is_outside (some (err e)) = true
  is_outside (some (ok [])) = true
  is_outside (some (ok (c ∷ cs))) = false

  whitelist_verdict-outside :
      (check_ip : Bool)
      → (not check_ip || is_outside db.whitelisted_contests) ≡ true
      → whitelist_verdict d db sub user check_ip ≡ check_solved true
  unfolding whitelist_verdict whitelist_answer is_outside
  whitelist_verdict-outside false h = refl
  whitelist_verdict-outside true h = ground arith

  -- From an address inside running official contests, where addresses are checked and those
  -- contests could be fetched, a signed-in user who does not edit all of them sees his own
  -- submissions to them, and no other source code, whatever the other rules say.
  pub exam_lockdown :
      (cs : List Contest)
      → is_authed user ≡ true
      → db.whitelisted_contests ≡ some (ok cs)
      → all (λ k. Contest.is_editor (some k) user) cs ≡ false
      → is_submission_visible d db now (some sub) problem user true
        ≡ (any (λ k. is_value sub.contest_id k.id) cs && sub.user_id == user_id_or_zero user)
  unfolding is_submission_visible whitelist_verdict
  exam_lockdown cs a w h = ground (arith, whitelist_answer-outsider cs h)

  -- Where the platform does not show source code to everyone, and when addresses are not checked or
  -- the user's lies inside no running official contest that can be fetched, a signed-in user sees a
  -- submission's code exactly when he is its author, an admin, an editor of the problem, or has
  -- scored 100 on the problem.
  pub private_source_iff :
      (check_ip : Bool)
      → db.sub_for_everyone ≡ false
      → is_authed user ≡ true
      → (not check_ip || is_outside db.whitelisted_contests) ≡ true
      → (is_submission_visible d db now (some sub) problem user check_ip ≡ true) ↔ (
          (is_editor (some sub) user ≡ true)
          ⊎ (is_problem_editor db.problem_db user problem ≡ true)
          ⊎ (d.equal (db.max_score (user_id_or_zero user) sub.problem_id) (d.from_int 100) ≡ true))
  unfolding is_submission_visible source_visible
  private_source_iff check_ip off a outside =
      let verdict = whitelist_verdict-outside check_ip outside in
      let everyone = everyone_off d db now sub user problem off in
      let regardless = regardless_iff d db now sub user problem a in
      (
        λ h. regardless.0 (ground (arith, verdict, everyone)),
        λ h. ground (arith, verdict, everyone, regardless.1 h),
      )

  -- While a contest that can be fetched has not ended, a submission sent to it is hidden from
  -- everyone but its author, admins, the problem's editors, the contest's editors and those who
  -- have scored 100 on the problem, also where the platform shows source code to everyone, and
  -- from every address.
  pub contest_source_hidden :
      (cid : ℕ) (c : Contest) (check_ip : Bool)
      → sub.contest_id ≡ some cid
      → db.contest cid ≡ ok c
      → ended now (some c) ≡ false
      → Contest.is_editor (some c) user ≡ false
      → is_editor (some sub) user ≡ false
      → is_problem_editor db.problem_db user problem ≡ false
      → d.equal (db.max_score (user_id_or_zero user) sub.problem_id) (d.from_int 100) ≡ false
      → is_submission_visible d db now (some sub) problem user check_ip ≡ false
  unfolding is_submission_visible
  contest_source_hidden cid c check_ip i q e ce se pe s = elim (Bool-cases (is_authed user)) [
    | inr out ↦ ground arith
    | inl a ↦ rw a (
        source_hidden d db now sub user problem _
          (whitelist_verdict-stranger d db now sub user check_ip a se)
          (everyone_answer-running d db now sub user problem cid c i q e ce se) se pe s)
  ]

  -- Where the platform shows source code to everyone and the address plays no part, a signed-in
  -- user who takes part in a running virtual contest that holds the problem sees, of the
  -- submissions to it, those that he may edit and that belong to a contest, and no others; the
  -- problem is fully visible to him and not on the platform's blacklist.
  pub virtual_contest_hides :
      (pb : Problem d.D) (n : ℕ)
      → problem ≡ some pb
      → is_authed user ≡ true
      → db.sub_for_everyone ≡ true
      → is_problem_fully_visible db.problem_db user (some pb) ≡ true
      → contains db.sub_for_everyone_blacklist sub.problem_id ≡ false
      → db.virtual_contest_count (user_id_or_zero user) pb.id ≡ ok n
      → 0 < n
      → is_submission_visible d db now (some sub) problem user false
        ≡ (is_some sub.contest_id && is_editor (some sub) user)
  unfolding is_submission_visible whitelist_verdict everyone_answer
  virtual_contest_hides pb n p a f v b q l = rw p (ground arith)

  -- Filtering hides the compiler's output and the size of code that may not be seen, and the
  -- compile time from all but the problem's editors, and changes nothing else.
  pub filter_hides :
      let seen = is_submission_visible d db now (some sub) problem user false in
      filter_submission d db now sub problem user ≡ record sub {
        compile_message = if seen then sub.compile_message else none;
        code_size = if seen then sub.code_size else 0;
        compile_time =
            if is_problem_editor db.problem_db user problem then sub.compile_time else none;
      }
  unfolding filter_submission
  filter_hides = ground arith

  -- Code leaves by SubmissionCode for a looking user only if it may be seen.
  pub code_needs_visibility :
      (code : Result (List ℕ)) (pb : Problem d.D) (x : ℕ) (xs : List ℕ)
      → submission_code d db now code (some sub) (some pb) user true ≡ ok (x ∷ xs)
      → is_submission_visible d db now (some sub) (some pb) user true ≡ true
  unfolding submission_code
  code_needs_visibility code pb x xs h = ground arith
