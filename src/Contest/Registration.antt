-- ===== src/Contest/Registration.antt =====
-- Registrations, individual windows and invitations: sudoapi/contest_registrations.go over
-- db/contest_registrations.go, and the handler of an invitation in api/contest.go. The tables are
-- lists of rows; each statement may fail by the fault that it is given, and then changes nothing.
pub mod Rows
pub mod Windows
pub mod Invitations
use kilonova.Prelude.{
  ℕ, ◌+◌, ◌*◌, Bool, true, false, not, ◌&&◌, ◌||◌, Option, none, some, List, [], ◌∷◌, ◌++◌, map,
  String, ◌==◌, leb, if◌then◌else◌, is_some, is_value, str_eq,
}
use kilonova.Status.{
  GoError, plain, wrapped, Result, ok, err, statusf, error_is, err_not_found, not_found_text,
}
use kilonova.Contest.{
  Contest, ContestRegistration, ContestInvitation, started, ended, running, invalid,
}
use kilonova.Contest.Access.{can_join_contest}

-- The columns of `submissions` that a registration's end touches.
pub record ContestSubmission : Type 0 where
  pub id : ℕ
  pub user_id : ℕ
  pub contest_id : Option ℕ

pub record Tables : Type 0 where
  pub registrations : List ContestRegistration
  pub submissions : List ContestSubmission

-- What the driver reports for each kind of statement, `none` for success.
pub record Faults : Type 0 where
  pub read_registration : Option GoError
  pub insert_registration : Option GoError
  pub start_registration : Option GoError
  pub delete_registration : Option GoError
  pub clear_submissions : Option GoError

abbrev pub is_row : ℕ → ℕ → ContestRegistration → Bool
is_row cid uid r = (r.contest_id == cid) && (r.user_id == uid)

-- SELECT * FROM contest_registrations WHERE contest_id = $1 AND user_id = $2 LIMIT 1
unfoldable pub find_registration : ℕ → ℕ → List ContestRegistration → Option ContestRegistration
find_registration cid uid [] = none
find_registration cid uid (r ∷ rs) =
    if is_row cid uid r then some r else find_registration cid uid rs

unfoldable pub db_contest_registration :
    Option GoError → List ContestRegistration → ℕ → ℕ → Result (Option ContestRegistration)
db_contest_registration (some e) rows cid uid = err e
db_contest_registration none rows cid uid = ok (find_registration cid uid rows)

abbrev pub unique_violation : GoError
unique_violation = plain "duplicate key value violates unique constraint"

-- INSERT INTO contest_registrations, under UNIQUE (user_id, contest_id).
unfoldable pub db_insert_contest_registration :
    Option GoError
    → ℕ
    → List ContestRegistration
    → ℕ
    → ℕ
    → Option String
    → Result (List ContestRegistration)
db_insert_contest_registration (some e) now rows cid uid inv = err e
db_insert_contest_registration none now rows cid uid inv =
    if is_some (find_registration cid uid rows)
    then err unique_violation
    else ok (
        rows
        ++ record {
          created_at = now;
          contest_id = cid;
          user_id = uid;
          individual_start_time = none;
          individual_end_time = none;
          invitation_id = inv;
        }
          ∷ [])

-- UPDATE contest_registrations SET individual_start_at = $1, individual_end_at = $2 WHERE …
unfoldable pub set_window : ℕ → ℕ → ℕ → ℕ → List ContestRegistration → List ContestRegistration
set_window cid uid s e [] = []
set_window cid uid s e (r ∷ rs) =
    (if is_row cid uid r
      then record r { individual_start_time = some s; individual_end_time = some e }
      else r)
    ∷ set_window cid uid s e rs

-- DELETE FROM contest_registrations WHERE user_id = $1 AND contest_id = $2
unfoldable pub delete_registration : ℕ → ℕ → List ContestRegistration → List ContestRegistration
delete_registration cid uid [] = []
delete_registration cid uid (r ∷ rs) =
    if is_row cid uid r then delete_registration cid uid rs else r ∷ delete_registration cid uid rs

-- UPDATE submissions SET contest_id = NULL WHERE contest_id = $1 AND user_id = $2
unfoldable pub clear_user_contest_submissions :
    ℕ → ℕ → List ContestSubmission → List ContestSubmission
clear_user_contest_submissions cid uid [] = []
clear_user_contest_submissions cid uid (s ∷ ss) =
    (if is_value s.contest_id cid && (s.user_id == uid) then record s { contest_id = none } else s)
    ∷ clear_user_contest_submissions cid uid ss

unfoldable pub contest_registration : Faults → Tables → ℕ → ℕ → Result ContestRegistration
contest_registration f t cid uid =
    elim (db_contest_registration f.read_registration t.registrations cid uid) [
      | err e ↦ err (wrapped "couldn't get registration: %w" e)
      | ok none ↦ err (wrapped "registration not found: %w" err_not_found)
      | ok (some reg) ↦ ok reg
    ]

-- `err != nil && !errors.Is(err, ErrNotFound)`.
unfoldable pub real_error : Result ContestRegistration → Option GoError
real_error (ok r) = none
real_error (err e) = if error_is e not_found_text then none else some e

unfoldable pub insert_checked :
    Faults → ℕ → Tables → ℕ → ℕ → Option String → Tables × Result (Unit {0})
insert_checked f now t cid uid inv =
    elim (db_insert_contest_registration f.insert_registration now t.registrations cid uid inv) [
      | err e ↦ (t, err (wrapped "couldn't register user for contest: %w" e))
      | ok rows ↦ (record t { registrations = rows }, ok tt)
    ]

unfoldable pub register_contest_user :
    Faults → ℕ → Tables → Contest → ℕ → Option String → Bool → Tables × Result (Unit {0})
unfolding real_error
register_contest_user f now t c uid inv force =
    elim (real_error (contest_registration f t c.id uid)) [
      | some e ↦ (t, err (wrapped "user already registered: %w" e))
      | none ↦
          if not (force || can_join_contest now c || is_some inv)
          then (t, err (statusf 400 "Regular joining is disallowed"))
          else insert_checked f now t c.id uid inv
    ]

-- A handler returns, or stops by a nil dereference.
pub data Outcome {ℓ} (A : Type ℓ) : Type ℓ where
  returns : A → Outcome A
  panics : Outcome A

abbrev pub seconds : ℕ → ℕ
seconds n = n * 1_000_000_000

unfoldable pub start_found :
    Faults → ℕ → Tables → Contest → ℕ → ContestRegistration → Tables × Result (Unit {0})
start_found f now t c uid reg = elim reg.individual_start_time [
  | some s ↦ (t, err (statusf 400 "User already started participation"))
  | none ↦ elim f.start_registration [
    | some e ↦ (t, err (wrapped "couldn't start USACO-style contest participation: %w" e))
    | none ↦ (
      record t {
        registrations = set_window c.id uid now (now + seconds c.per_user_time) t.registrations;
      },
      ok tt,
    )
  ]
]

-- `reg` is nil whenever the lookup has failed, and is dereferenced unless registering fails.
unfoldable pub start_not_found :
    Faults → ℕ → Tables → Contest → ℕ → GoError → Outcome (Tables × Result (Unit {0}))
start_not_found f now t c uid e =
    if error_is e not_found_text
    then panics
    else let (t', r) = register_contest_user f now t c uid none false in
      elim r [ err e' ↦ returns (t', err e') | ok u ↦ panics ]

unfoldable pub start_contest_registration :
    Faults → ℕ → Tables → Contest → ℕ → Outcome (Tables × Result (Unit {0}))
unfolding start_not_found
start_contest_registration f now t c uid =
    if c.per_user_time == 0
    then returns (t, err (statusf 400 "Contest is not USACO-style"))
    else elim (contest_registration f t c.id uid) [
      | ok reg ↦ returns (start_found f now t c uid reg)
      | err e ↦ start_not_found f now t c uid e
    ]

unfoldable pub kick_user_from_contest : Faults → Tables → ℕ → ℕ → Tables × Result (Unit {0})
kick_user_from_contest f t cid uid = elim f.delete_registration [
  | some e ↦ (t, err (wrapped "couldn't kick contestant: %w" e))
  | none ↦
      let t' = record t { registrations = delete_registration cid uid t.registrations } in
      elim f.clear_submissions [
        | some e ↦ (t', err (wrapped "couldn't reset contest submissions: %w" e))
        | none ↦ (
          record t' { submissions = clear_user_contest_submissions cid uid t'.submissions },
          ok tt,
        )
      ]
]

abbrev pub is_text : Option String → String → Bool
is_text none s = false
is_text (some t) s = str_eq t s

-- SELECT COUNT(*) FROM contest_registrations WHERE invitation_id = inv.id
unfoldable pub redeem_count : String → List ContestRegistration → ℕ
redeem_count i [] = 0
redeem_count i (r ∷ rs) = (if is_text r.invitation_id i then 1 else 0) + redeem_count i rs

-- The handler, once the invitation and its contest have been fetched (`inv.redeem_count` is the
-- count above, computed by the query that fetched it).
unfoldable pub accept_contest_invitation :
    Faults → ℕ → Tables → ContestInvitation → Contest → ℕ → Tables × Result (Unit {0})
accept_contest_invitation f now t inv c uid =
    if inv.expired
    then (t, err (statusf 400 "Invite expired"))
    else if elim inv.max_count [ none ↦ false | some m ↦ leb m inv.redeem_count ]
    then (t, err (statusf 400 "Invite limit reached"))
    else if ended now (some c)
    then (t, err (statusf 400 "Contest ended"))
    else if not c.register_during_contest && running now (some c)
    then (t, err (statusf 400 "Cannot register while contest is running"))
    else register_contest_user f now t c uid (some inv.id) true
