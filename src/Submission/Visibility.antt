-- ===== src/Submission/Visibility.antt =====
-- Whose source code may be seen (sudoapi/submission.go: subVisibleRegardless, isSubmissionVisible,
-- filterSubmission, SubmissionCode).
use kilonova.Prelude.{
  ℕ, Bool, true, false, not, ◌&&◌, Option, none, some, List, [], ◌∷◌, ◌==◌, ltb, if◌then◌else◌, any,
  all, contains, is_value, is_some,
}
use kilonova.Status.{wrapped, Result, ok, err, statusf}
use kilonova.User.{UserBrief, is_authed, user_id_or_zero}
use kilonova.Contest
use kilonova.Contest.{Contest, ended}
use kilonova.Decimal.{Decimal}
use kilonova.Problem.{Problem}
use kilonova.Problem.Access.{ProblemDb, is_problem_editor, is_problem_fully_visible}
use kilonova.Submission.{Submission, is_editor}

-- The queries and flags that the tests read, for one request.
pub record VisibilityDb (d : Decimal) : Type 0 where
  pub problem_db : ProblemDb
  -- s.db.MaxScore, for a user and a problem.
  pub max_score : ℕ → ℕ → d.D
  -- Running official contests whose whitelist holds the address of the request's user; `none` if
  -- the request carries no address.
  pub whitelisted_contests : Option (Result (List Contest))
  -- How many running virtual contests hold the problem with the user as contestant and not editor.
  pub virtual_contest_count : ℕ → ℕ → Result ℕ
  pub contest : ℕ → Result Contest
  -- flags.SubForEveryoneConfig and its blacklist
  pub sub_for_everyone : Bool
  pub sub_for_everyone_blacklist : List ℕ

module _ (d : Decimal) (db : VisibilityDb d) where
  unfoldable pub sub_visible_regardless :
      Option (Submission d.D) → Option UserBrief → Option (Problem d.D) → Bool → Bool
  sub_visible_regardless none user problem check_solved = false
  sub_visible_regardless (some sub) user problem check_solved =
      if not (is_authed user)
      then false
      else if is_editor (some sub) user
      then true
      else if is_some problem && is_problem_editor db.problem_db user problem
      then true
      else if not check_solved
      then false
      else d.equal (db.max_score (user_id_or_zero user) sub.problem_id) (d.from_int 100)

  -- How the IP whitelist ends: with an answer, or with the value of `checkSolved`.
  pub data WhitelistVerdict : Type 0 where
    answer : Bool → WhitelistVerdict
    check_solved : Bool → WhitelistVerdict

  unfoldable pub whitelist_answer :
      Submission d.D → Option UserBrief → List Contest → WhitelistVerdict
  whitelist_answer sub user [] = check_solved true
  whitelist_answer sub user (c ∷ cs) =
      if not (all (λ k. Contest.is_editor (some k) user) (c ∷ cs))
      then if not (any (λ k. is_value sub.contest_id k.id) (c ∷ cs))
        then answer false
        else answer (sub.user_id == user_id_or_zero user)
      else check_solved false

  unfoldable pub whitelist_verdict : Submission d.D → Option UserBrief → Bool → WhitelistVerdict
  whitelist_verdict sub user check_ip =
      if not check_ip then check_solved true else elim db.whitelisted_contests [
        | none ↦ check_solved true
        | some (err e) ↦ check_solved true
        | some (ok cs) ↦ whitelist_answer sub user cs
      ]

  -- What the contest of a submission adds: `some` answer, or fall through.
  unfoldable pub contest_answer : ℕ → Submission d.D → Option UserBrief → Option Bool
  contest_answer now sub user = elim sub.contest_id [
    | none ↦ some true
    | some cid ↦ elim (db.contest cid) [
      | err e ↦ none
      | ok c ↦
          if ended now (some c)
          then some true
          else if Contest.is_editor (some c) user
          then some true
          else none
    ]
  ]

  -- The rule for platforms where everyone sees all source code.
  unfoldable pub everyone_answer :
      ℕ → Submission d.D → Option UserBrief → Option (Problem d.D) → Option Bool
  unfolding contest_answer
  everyone_answer now sub user none = none
  everyone_answer now sub user (some pb) =
      if db.sub_for_everyone
        && is_problem_fully_visible db.problem_db user (some pb)
        && not (contains db.sub_for_everyone_blacklist sub.problem_id)
      then elim (db.virtual_contest_count (user_id_or_zero user) pb.id) [
        | err e ↦ contest_answer now sub user
        | ok n ↦
            if ltb 0 n
            then some (is_some sub.contest_id && is_editor (some sub) user)
            else contest_answer now sub user
      ]
      else none

  unfoldable pub source_visible :
      ℕ → Submission d.D → Option (Problem d.D) → Option UserBrief → WhitelistVerdict → Bool
  source_visible now sub problem user (answer b) = b
  source_visible now sub problem user (check_solved solved) =
      elim (everyone_answer now sub user problem) [
        | some b ↦ b
        | none ↦ sub_visible_regardless (some sub) user problem solved
      ]

  unfoldable pub is_submission_visible :
      ℕ → Option (Submission d.D) → Option (Problem d.D) → Option UserBrief → Bool → Bool
  unfolding source_visible
  is_submission_visible now none problem user check_ip = false
  is_submission_visible now (some sub) problem user check_ip =
      if not (is_authed user)
      then false
      else source_visible now sub problem user (whitelist_verdict sub user check_ip)

  unfoldable pub filter_submission :
      ℕ → Submission d.D → Option (Problem d.D) → Option UserBrief → Submission d.D
  filter_submission now sub problem user =
      let seen =
        (if is_submission_visible now (some sub) problem user false
          then sub
          else record sub { compile_message = none; code_size = 0 }) in
      if is_problem_editor db.problem_db user problem
      then seen
      else record seen { compile_time = none }

  -- SubmissionCode, over the query that fetches the code.
  unfoldable pub submission_code :
      ℕ
      → Result (List ℕ)
      → Option (Submission d.D)
      → Option (Problem d.D)
      → Option UserBrief
      → Bool
      → Result (List ℕ)
  submission_code now code none problem user looking =
      err (statusf 400 "Invalid source code parameters")
  submission_code now code (some sub) none user looking =
      err (statusf 400 "Invalid source code parameters")
  submission_code now code (some sub) (some pb) user looking =
      if not (sub.problem_id == pb.id)
      then err (statusf 400 "Invalid source code parameters")
      else if looking && not (is_submission_visible now (some sub) (some pb) user true)
      then ok []
      else elim code [
        | ok text ↦ ok text
        | err e ↦ err (wrapped "couldn't get submission code: %w" e)
      ]
