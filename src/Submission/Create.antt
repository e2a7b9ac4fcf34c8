-- ===== src/Submission/Create.antt =====
-- Sending a submission: CreateSubmission and RemainingSubmissionCount of sudoapi/submission.go.
-- The queries it makes are parameters; the rows that it writes and the grader's wake-ups are the
-- store.
pub mod Limits
pub mod Effects
use kilonova.Prelude.{
  ℕ, ◌+◌, Bool, true, false, not, ◌&&◌, ◌||◌, Option, none, some, List, [], ◌∷◌, ◌++◌, String, ◌==◌,
  ltb, leb, if◌then◌else◌, any, length, is_empty, str_eq,
}
use kilonova.Prelude.Int.{ℤ, pos, ◌-ℤ◌, is_negative, is_positive}
use kilonova.Status.{
  GoError, plain, wrapped, Result, ok, err, statusf, guard, map_err, ◌>>=◌, ◌>>◌, is_ok,
}
use kilonova.User.{UserBrief, UserFull}
use kilonova.Contest.{Contest, is_tester}
use kilonova.Contest.Access.{ContestDb, is_contest_visible, can_submit_in_contest, contest_problem}
use kilonova.Problem.{Problem}
use kilonova.Problem.Access.{ProblemDb, is_problem_visible, is_problem_fully_visible}

pub record Language : Type 0 where
  pub internal_name : String
  pub default_filename : String

pub record UploadFile : Type 0 where
  pub filename : String
  pub bytes : List ℕ

pub record CreateDb : Type 0 where
  pub problem_db : ProblemDb
  pub contest_db : ContestDb
  -- Submissions of the user that are not finished, and those of the last minute.
  pub waiting_count : ℕ → Result ℕ
  pub recent_count : ℕ → Result ℕ
  pub contest : ℕ → Result Contest
  pub contest_problems : ℕ → Result (List ℕ)
  -- SubmissionCount for contest, problem and user.
  pub submission_count : ℕ → ℕ → ℕ → Result ℕ
  -- LastSubmissionTime for contest and user.
  pub last_submission_time : ℕ → ℕ → Result (Option ℕ)
  pub problem_languages : ℕ → Result (List Language)
  -- flags; 0 switches a limit off.
  pub waiting_sub_limit : ℕ
  pub total_sub_limit : ℕ
  pub unverified_sub_limit : ℕ
  -- What the two writes report; the id is the one that the database gives.
  pub new_id : Result ℕ
  pub init_fault : Option GoError

pub record NewSubmission : Type 0 where
  pub id : ℕ
  pub user_id : ℕ
  pub problem_id : ℕ
  pub language : String
  pub files : List UploadFile
  pub contest_id : Option ℕ

pub record Store : Type 0 where
  pub submissions : List NewSubmission
  pub initialised : List ℕ
  pub wakes : ℕ

unfoldable pub remaining_submission_count : Result ℕ → Contest → Result (ℤ × Bool)
remaining_submission_count count c =
    if is_negative c.max_subs then ok (pos 1, false) else elim count [
      | err e ↦ err (wrapped "couldn't get submission count: %w" e)
      | ok n ↦ ok (c.max_subs -ℤ pos n, true)
    ]

unfoldable pub new_row : ℕ → ℕ → Language → Option ℕ → List UploadFile → ℕ → NewSubmission
new_row uid pid lang contest_id files id = record {
  id = id;
  user_id = uid;
  problem_id = pid;
  language = lang.internal_name;
  files = files;
  contest_id = contest_id;
}

module _ (db : CreateDb) where
  unfoldable pub rate_checks : UserFull → Result (Unit {0})
  rate_checks author = do
    waiting ←
        map_err (λ e. plain "couldn't get unfinished submission count") (db.waiting_count author.id)
    guard (not (ltb 0 db.waiting_sub_limit && leb db.waiting_sub_limit waiting))
        (statusf 400 "You cannot have more than %d submissions to the evaluation queue at once")
    recent ← map_err (λ e. plain "couldn't get recent submission count") (db.recent_count author.id)
    guard (not (ltb 0 db.total_sub_limit && ltb db.total_sub_limit recent))
        (statusf 401 "You cannot submit more than %d submissions in a minute, please wait a bit")
    guard
        (not (
          not author.verified_email
          && ltb 0 db.unverified_sub_limit
          && ltb db.unverified_sub_limit recent))
        (statusf 401 "Users with unverified email cannot submit more than %d times per minute")

  -- The wait between two submissions of one contest; `d := cooldown - time.Since(t); d > 0`.
  unfoldable pub cooldown_check : ℕ → UserFull → Contest → Result (Unit {0})
  cooldown_check now author c =
      if not (is_tester (some c) (some author.user_brief)) && ltb 0 c.submission_cooldown
      then (db.last_submission_time c.id author.id >>= λ last. elim last [
        | none ↦ ok tt
        | some t ↦
            guard (not (ltb now (t + c.submission_cooldown)))
              (statusf 429 "You are going too fast! Please wait %d more second(s)")
      ])
      else ok tt

  unfoldable pub found_contest : UserFull → ℕ → Result Contest
  found_contest author cid = elim (db.contest cid) [
    | err e ↦ err (statusf 404 "Couldn't find contest")
    | ok c ↦
        if is_contest_visible db.contest_db (some author.user_brief) (some c)
        then ok c
        else err (statusf 404 "Couldn't find contest")
  ]

  unfoldable pub contest_checks : ℕ → UserFull → ℕ → ℕ → Result (Unit {0})
  unfolding found_contest
  contest_checks now author pid cid = do
    c ← found_contest author cid
    guard (can_submit_in_contest db.contest_db now (some author.user_brief) (some c))
        (statusf 400 "Submitter cannot submit to contest")
    guard
        (is_ok (
          contest_problem db.contest_db (db.contest_problems c.id) now (some author.user_brief)
            (some c) pid))
        (statusf 400 "Problem is not in contest")
    (left, limited) ← remaining_submission_count (db.submission_count c.id pid author.id) c
    guard (is_positive left) (statusf 429 "Max submission count for problem reached")
    cooldown_check now author c

  unfoldable pub place_checks :
      {D : Type 0} → ℕ → UserFull → Problem D → Option ℕ → Result (Unit {0})
  place_checks now author problem (some cid) = contest_checks now author problem.id cid
  place_checks now author problem none =
      guard (is_problem_fully_visible db.problem_db (some author.user_brief) (some problem))
        (statusf 400 "You cannot submit to a problem outside a contest while it's running")

  unfoldable pub language_check : ℕ → Language → Result (Unit {0})
  language_check pid lang = do
    langs ← map_err (wrapped "could not get problem languages: %w") (db.problem_languages pid)
    guard (any (λ a. str_eq a.internal_name lang.internal_name) langs)
        (statusf 400 "Language not supported by problem")

  unfoldable pub upload_files :
      List ℕ → String → Language → Option (List ℕ) → String → List UploadFile
  upload_files code code_filename lang extra extra_filename =
      let name =
        (if str_eq lang.internal_name "java" && not (str_eq code_filename "")
          then code_filename
          else lang.default_filename) in
      record { filename = name; bytes = code } ∷ elim extra [
        | none ↦ []
        | some more ↦ record { filename = extra_filename; bytes = more } ∷ []
      ]

  -- All tests, in order, before anything is written.
  unfoldable pub create_checks :
      {D : Type 0}
      → ℕ
      → UserFull
      → Problem D
      → List ℕ
      → Language
      → Option ℕ
      → Bool
      → Result (Unit {0})
  create_checks now author problem code lang contest_id bypass = do
    guard (leb (length code) problem.source_size) (statusf 400 "Code exceeds %d characters")
    guard (is_problem_visible db.problem_db (some author.user_brief) (some problem))
        (statusf 400 "Submitter can't see the problem!")
    if bypass then ok tt else rate_checks author
    place_checks now author problem contest_id
    guard (not (is_empty code)) (statusf 400 "Empty code")
    language_check problem.id lang

  -- The two writes and the wake-up.
  unfoldable pub write_submission : Store → (ℕ → NewSubmission) → Store × Result ℕ
  write_submission store row = elim db.new_id [
    | err e ↦ (store, err (plain "couldn't create submission"))
    | ok id ↦
        let store' = record store { submissions = store.submissions ++ row id ∷ [] } in
        elim db.init_fault [
          | some e ↦ (store', err (plain "couldn't initialize submission"))
          | none ↦ (
            record store' { initialised = store.initialised ++ id ∷ []; wakes = store.wakes + 1 },
            ok id,
          )
        ]
  ]

  unfoldable pub create_submission :
      {D : Type 0}
      → ℕ
      → Store
      → Option UserFull
      → Option (Problem D)
      → List ℕ
      → String
      → Language
      → Option ℕ
      → Bool
      → Option (List ℕ)
      → String
      → Store × Result ℕ
  create_submission now store none problem code name lang contest_id bypass extra extra_name =
      (store, err (statusf 400 "Invalid submission author"))
  create_submission now store (some a) none code name lang contest_id bypass extra extra_name =
      (store, err (statusf 400 "Invalid submission problem"))
  create_submission now store (some a) (some pb) code name lang contest_id bypass extra extra_name =
      elim (create_checks now a pb code lang contest_id bypass) [
        | err e ↦ (store, err e)
        | ok u ↦
            write_submission store
              (new_row a.id pb.id lang contest_id (upload_files code name lang extra extra_name))
      ]
