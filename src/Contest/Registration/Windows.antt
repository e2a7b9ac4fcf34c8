-- ===== src/Contest/Registration/Windows.antt =====
-- Registering, starting an individual window and kicking, seen through later calls.
use kilonova.Prelude.{
  ℕ, ◌+◌, ◌≡◌, refl, ◌≢◌, ◌⊎◌, inl, inr, Bool, true, false, ◌<◌, Option, none, some, String, arith,
  ◌==◌, eq_refl, ltb, ◌&&◌, if◌then◌else◌,
}
use kilonova.Status.{
  GoError, Result, ok, err, is_ok, statusf, error_is, not_found_text, err_not_found,
}
use kilonova.User.{UserBrief}
use kilonova.Contest.{Contest, ContestRegistration, running, is_tester}
use kilonova.Contest.Access.{ContestDb, registration_admits, can_submit_in_contest}
use kilonova.Contest.Registration.{
  Tables, Faults, returns, panics, seconds, find_registration, db_contest_registration,
  db_insert_contest_registration, contest_registration, insert_checked, register_contest_user,
  start_found, start_not_found, start_contest_registration, kick_user_from_contest,
}
use kilonova.Contest.Registration.Rows.{
  find-set_window, find-delete, IsUnique, append-IsUnique, count_in_contest, count-clear,
}

insert_checked-IsUnique :
    (f : Faults) (now : ℕ) (t : Tables) (cid uid : ℕ) (inv : Option String)
    → IsUnique t.registrations
    → IsUnique (insert_checked f now t cid uid inv).0.registrations
unfolding insert_checked db_insert_contest_registration
insert_checked-IsUnique f now t cid uid inv u = ground (
  arith,
  append-IsUnique
      (record {
        created_at = now;
        contest_id = cid;
        user_id = uid;
        individual_start_time = none;
        individual_end_time = none;
        invitation_id = inv;
      })
      t.registrations u,
)

register-IsUnique :
    (f : Faults) (now : ℕ) (t : Tables) (c : Contest) (uid : ℕ) (inv : Option String) (force : Bool)
    → IsUnique t.registrations
    → IsUnique (register_contest_user f now t c uid inv force).0.registrations
unfolding register_contest_user
register-IsUnique f now t c uid inv force u =
    ground (arith, insert_checked-IsUnique f now t c.id uid inv u)

-- A user who is registered already is never given a second row: the call fails and the tables stay
-- as they are, whether or not the registration is forced and whatever faults there are.
pub register_registered :
    (f : Faults) (now : ℕ) (t : Tables) (c : Contest) (uid : ℕ) (inv : Option String) (force : Bool)
    (reg : ContestRegistration)
    → find_registration c.id uid t.registrations ≡ some reg
    → ((register_contest_user f now t c uid inv force).0 ≡ t)
      × (is_ok (register_contest_user f now t c uid inv force).1 ≡ false)
unfolding register_contest_user insert_checked db_insert_contest_registration
register_registered f now t c uid inv force reg h = (ground arith, ground arith)

contest_registration-ok :
    (f : Faults) (t : Tables) (cid uid : ℕ) (reg : ContestRegistration)
    → contest_registration f t cid uid ≡ ok reg
    → find_registration cid uid t.registrations ≡ some reg
unfolding contest_registration db_contest_registration
contest_registration-ok f t cid uid reg h = ground arith

contest_registration-found :
    (f : Faults) (t : Tables) (cid uid : ℕ) (reg : ContestRegistration)
    → f.read_registration ≡ none
    → find_registration cid uid t.registrations ≡ some reg
    → contest_registration f t cid uid ≡ ok reg
unfolding contest_registration db_contest_registration
contest_registration-found f t cid uid reg q h = ground arith

Result-cases :
    (r : Result ContestRegistration)
    → ((reg : ContestRegistration) × (r ≡ ok reg)) ⊎ ((e : GoError) × (r ≡ err e))
Result-cases (ok reg) = inl (reg, refl)
Result-cases (err e) = inr (e, refl)

opened : ContestRegistration → Contest → ℕ → ContestRegistration
opened reg c now = record reg {
  individual_start_time = some now;
  individual_end_time = some (now + seconds c.per_user_time);
}

start_found-opens :
    (f : Faults) (now : ℕ) (t t' : Tables) (c : Contest) (uid : ℕ) (reg : ContestRegistration)
    → find_registration c.id uid t.registrations ≡ some reg
    → start_found f now t c uid reg ≡ (t', ok tt)
    → find_registration c.id uid t'.registrations ≡ some (opened reg c now)
unfolding start_found opened
start_found-opens f now t t' c uid reg h s =
    ground
      (arith, find-set_window c.id uid c.id uid now (now + seconds c.per_user_time) t.registrations)

start_not_found-fails :
    (f : Faults) (now : ℕ) (t t' : Tables) (c : Contest) (uid : ℕ) (e : GoError)
    → start_not_found f now t c uid e ≢ returns (t', ok tt)
unfolding start_not_found
start_not_found-fails f now t t' c uid e h = ground arith

start_ok-windowed :
    (f : Faults) (now : ℕ) (t t' : Tables) (c : Contest) (uid : ℕ)
    → start_contest_registration f now t c uid ≡ returns (t', ok tt)
    → c.per_user_time ≢ 0
unfolding start_contest_registration
start_ok-windowed f now t t' c uid h z = ground arith

-- A start that succeeds opens the user's window: it begins now and lasts the contest's time per
-- user.
pub start_opens_window :
    (f : Faults) (now : ℕ) (t t' : Tables) (c : Contest) (uid : ℕ)
    → start_contest_registration f now t c uid ≡ returns (t', ok tt)
    → (reg : ContestRegistration) × (find_registration c.id uid t'.registrations ≡ some reg)
      × (reg.individual_start_time ≡ some now)
      × (reg.individual_end_time ≡ some (now + seconds c.per_user_time))
unfolding start_contest_registration
start_opens_window f now t t' c uid h = elim (Result-cases (contest_registration f t c.id uid)) [
  | inl (reg, e) ↦ (
    opened reg c now,
    start_found-opens f now t t' c uid reg (contest_registration-ok f t c.id uid reg e)
        (ground arith),
    unfold opened in refl,
    unfold opened in refl,
  )
  | inr (e, q) ↦ absurd (start_not_found-fails f now t t' c uid e (ground arith))
]

-- Nobody gets a second window: once a start has succeeded, each later one leaves the tables alone
-- and reports that the user has started (while the lookup itself does not fail).
pub start_twice :
    (f g : Faults) (now later : ℕ) (t t' : Tables) (c : Contest) (uid : ℕ)
    → start_contest_registration f now t c uid ≡ returns (t', ok tt)
    → g.read_registration ≡ none
    → start_contest_registration g later t' c uid
      ≡ returns (t', err (statusf 400 "User already started participation"))
unfolding start_contest_registration start_found
start_twice f g now later t t' c uid h q =
    let (reg, found, s, e) = start_opens_window f now t t' c uid h in
    ground (arith, contest_registration-found g t' c.id uid reg q found)

-- Starting without a registration does not register the user: in every contest with windows the
-- handler stops by a nil dereference, when the lookup itself does not fail.
pub start_unregistered_panics :
    (f : Faults) (now : ℕ) (t : Tables) (c : Contest) (uid : ℕ)
    → c.per_user_time ≢ 0
    → f.read_registration ≡ none
    → find_registration c.id uid t.registrations ≡ none
    → start_contest_registration f now t c uid ≡ panics
unfolding start_contest_registration contest_registration db_contest_registration start_not_found
    error_is err_not_found
start_unregistered_panics f now t c uid p q h = ground (arith, eq_refl not_found_text)

-- The tables as the access tests read them.
abbrev pub contest_db : Faults → Tables → ContestDb
contest_db f t = record {
  is_contest_viewer = λ cid uid. ok true;
  contest_registration =
      λ cid uid. db_contest_registration f.read_registration t.registrations cid uid;
}

-- The window that a start opens is the one in which the user may submit: at every later instant
-- of the running contest, a user who is no tester may submit exactly before the window's end,
-- while the lookup of registrations does not fail.
pub start_then_submit :
    (f g : Faults) (now later : ℕ) (t t' : Tables) (c : Contest) (u : UserBrief)
    → start_contest_registration f now t c u.id ≡ returns (t', ok tt)
    → g.read_registration ≡ none
    → now < later
    → running later (some c) ≡ true
    → is_tester (some c) (some u) ≡ false
    → can_submit_in_contest (contest_db g t') later (some u) (some c)
      ≡ ltb later (now + seconds c.per_user_time)
unfolding can_submit_in_contest running registration_admits db_contest_registration
start_then_submit f g now later t t' c u h q l r n =
    let (reg, found, s, e) = start_opens_window f now t t' c u.id h in
    ground (arith, start_ok-windowed f now t t' c u.id h)

-- A kick that succeeds removes the user's row and takes all of his submissions out of the
-- contest, and nobody else's row or submission is touched.
pub kick_removes :
    (f : Faults) (t t' : Tables) (cid uid c u : ℕ)
    → kick_user_from_contest f t cid uid ≡ (t', ok tt)
    → (find_registration c u t'.registrations
        ≡ (if (cid == c) && (uid == u) then none else find_registration c u t.registrations))
      × (count_in_contest c u t'.submissions
          ≡ (if (cid == c) && (uid == u) then 0 else count_in_contest c u t.submissions))
unfolding kick_user_from_contest
kick_removes f t t' cid uid c u h = (
  ground (arith, find-delete c u cid uid t.registrations),
  ground (arith, count-clear c u cid uid t.submissions),
)
