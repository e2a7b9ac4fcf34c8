-- ===== src/Contest/Registration/Rows.antt =====
-- What each statement does to the row that a lookup finds.
use kilonova.Prelude.{
  ℕ, ◌+◌, ◌≡◌, refl, ◌&&◌, Option, none, some, List, [], ◌∷◌, ◌++◌, String, arith, ◌==◌,
  if◌then◌else◌, is_value,
}
use kilonova.Contest.{ContestRegistration}
use kilonova.Contest.Registration.{
  ContestSubmission, find_registration, set_window, delete_registration,
  clear_user_contest_submissions, redeem_count,
}

abbrev pub with_window : ℕ → ℕ → Option ContestRegistration → Option ContestRegistration
with_window s e none = none
with_window s e (some r) =
    some (record r { individual_start_time = some s; individual_end_time = some e })

abbrev pub or_else :
    Option ContestRegistration → Option ContestRegistration → Option ContestRegistration
or_else none o = o
or_else (some r) o = some r

pub find-append :
    (cid uid : ℕ) (xs ys : List ContestRegistration)
    → find_registration cid uid (xs ++ ys)
      ≡ or_else (find_registration cid uid xs) (find_registration cid uid ys)
unfolding find_registration
find-append cid uid [] ys = refl
find-append cid uid (x ∷ xs) ys = ground (arith, find-append cid uid xs ys)

pub find-set_window :
    (cid uid c u s e : ℕ) (rs : List ContestRegistration)
    → find_registration cid uid (set_window c u s e rs) ≡ (
        if (c == cid) && (u == uid)
        then with_window s e (find_registration cid uid rs)
        else find_registration cid uid rs)
unfolding find_registration set_window
find-set_window cid uid c u s e [] = ground arith
find-set_window cid uid c u s e (r ∷ rs) = ground (arith, find-set_window cid uid c u s e rs)

pub find-delete :
    (cid uid c u : ℕ) (rs : List ContestRegistration)
    → find_registration cid uid (delete_registration c u rs)
      ≡ (if (c == cid) && (u == uid) then none else find_registration cid uid rs)
unfolding find_registration delete_registration
find-delete cid uid c u [] = ground arith
find-delete cid uid c u (r ∷ rs) = ground (arith, find-delete cid uid c u rs)

-- UNIQUE (user_id, contest_id).
abbrev pub IsUnique : List ContestRegistration → Type 0
IsUnique [] = Unit {0}
IsUnique (r ∷ rs) = (find_registration r.contest_id r.user_id rs ≡ none) × IsUnique rs

pub append-IsUnique :
    (r : ContestRegistration) (rs : List ContestRegistration)
    → IsUnique rs
    → find_registration r.contest_id r.user_id rs ≡ none
    → IsUnique (rs ++ r ∷ [])
unfolding find_registration
append-IsUnique r [] u h = (refl, tt)
append-IsUnique r (x ∷ rs) u h = (
  ground (arith, find-append x.contest_id x.user_id rs (r ∷ [])),
  append-IsUnique r rs u.1 (ground arith),
)

pub set_window-IsUnique :
    (cid uid s e : ℕ) (rs : List ContestRegistration)
    → IsUnique rs
    → IsUnique (set_window cid uid s e rs)
unfolding set_window
set_window-IsUnique cid uid s e [] u = tt
set_window-IsUnique cid uid s e (r ∷ rs) u = ground (
  arith,
  find-set_window r.contest_id r.user_id cid uid s e rs,
  set_window-IsUnique cid uid s e rs u.1,
)

pub delete-IsUnique :
    (cid uid : ℕ) (rs : List ContestRegistration)
    → IsUnique rs
    → IsUnique (delete_registration cid uid rs)
unfolding delete_registration
delete-IsUnique cid uid [] u = tt
delete-IsUnique cid uid (r ∷ rs) u =
    ground (arith, find-delete r.contest_id r.user_id cid uid rs, delete-IsUnique cid uid rs u.1)

pub redeem_count-append :
    (i : String) (xs ys : List ContestRegistration)
    → redeem_count i (xs ++ ys) ≡ redeem_count i xs + redeem_count i ys
unfolding redeem_count
redeem_count-append i [] ys = omega arith
redeem_count-append i (x ∷ xs) ys = omega (arith, redeem_count-append i xs ys)

-- How many submissions the user has in the contest.
pub count_in_contest : ℕ → ℕ → List ContestSubmission → ℕ
count_in_contest cid uid [] = 0
count_in_contest cid uid (s ∷ ss) =
    (if is_value s.contest_id cid && (s.user_id == uid) then 1 else 0) + count_in_contest cid uid ss

pub count-clear :
    (cid uid c u : ℕ) (ss : List ContestSubmission)
    → count_in_contest cid uid (clear_user_contest_submissions c u ss)
      ≡ (if (c == cid) && (u == uid) then 0 else count_in_contest cid uid ss)
unfolding count_in_contest clear_user_contest_submissions
count-clear cid uid c u [] = ground arith
count-clear cid uid c u (s ∷ ss) = ground (arith, count-clear cid uid c u ss)
