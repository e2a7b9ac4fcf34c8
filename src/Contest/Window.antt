-- ===== src/Contest/Window.antt =====
-- When a contest is open to whom: theorems on Contest/Access.antt and the methods of contest.go.
use kilonova.Prelude.{
  ℕ, ◌≤◌, ◌<◌, ◌≡◌, refl, ◌↔◌, ◌⊎◌, inl, inr, Bool, true, false, Option, none, some, arith, ◌==◌,
  ==→eq, Bool-cases,
}
use kilonova.Status.{Result, ok, err}
use kilonova.User.{UserBrief}
use kilonova.Contest.{Contest, ContestRegistration, started, ended, running, is_editor, is_tester}
use kilonova.Contest.Access.{
  ContestDb, in_window, can_join_contest, registration_admits, can_submit_as_contestant,
  can_submit_in_contest, can_view_contest_problems, user_contest_freeze_time,
}

-- Who may submit, said without the code's order of tests: the contest has not ended, and the user
-- is one of its testers, or the contest has begun and the user is registered; in a contest with
-- individual windows the user must be inside his own.
pub data MaySubmit (db : ContestDb) (now : ℕ) (user : Option UserBrief) (c : Contest) : Type 0 where
  as_tester : now ≤ c.end_time → is_tester (some c) user ≡ true → MaySubmit db now user c
  as_contestant :
      (u : UserBrief) (reg : ContestRegistration)
      → user ≡ some u
      → c.start_time < now
      → now ≤ c.end_time
      → db.contest_registration c.id u.id ≡ ok (some reg)
      → c.per_user_time ≡ 0
      → MaySubmit db now user c
  in_own_window :
      (u : UserBrief) (reg : ContestRegistration) (s e : ℕ)
      → user ≡ some u
      → c.start_time < now
      → now ≤ c.end_time
      → db.contest_registration c.id u.id ≡ ok (some reg)
      → reg.individual_start_time ≡ some s
      → reg.individual_end_time ≡ some e
      → s < now
      → now < e
      → MaySubmit db now user c

registered-MaySubmit :
    (db : ContestDb) (now : ℕ) (u : UserBrief) (c : Contest)
    (r : Result (Option ContestRegistration))
    → db.contest_registration c.id u.id ≡ r
    → c.start_time < now
    → now ≤ c.end_time
    → registration_admits now c r ≡ true
    → MaySubmit db now (some u) c
unfolding registration_admits
registered-MaySubmit db now u c (err e) q b f h = cc
registered-MaySubmit db now u c (ok none) q b f h = cc
registered-MaySubmit db now u c (ok (some reg)) q b f h = elim (Bool-cases (c.per_user_time == 0)) [
  | inl z ↦ as_contestant u reg refl b f q (==→eq _ _ z)
  | inr w ↦ windowed reg.individual_start_time reg.individual_end_time refl refl (ground arith)
]
  where
    windowed :
        (s e : Option ℕ)
        → reg.individual_start_time ≡ s
        → reg.individual_end_time ≡ e
        → in_window now s e ≡ true
        → MaySubmit db now (some u) c
    windowed none e p p' t = cc
    windowed (some s) none p p' t = cc
    windowed (some s) (some e) p p' t =
        in_own_window u reg s e refl b f q p p' (ground arith) (ground arith)

contestant-MaySubmit :
    (db : ContestDb) (now : ℕ) (user : Option UserBrief) (c : Contest)
    → can_submit_as_contestant db now user (some c) ≡ true
    → MaySubmit db now user c
unfolding can_submit_as_contestant running started ended
contestant-MaySubmit db now none c h = cc
contestant-MaySubmit db now (some u) c h =
    registered-MaySubmit db now u c (db.contest_registration c.id u.id) refl (ground arith)
      (ground arith) (ground arith)

can_submit-MaySubmit :
    (db : ContestDb) (now : ℕ) (user : Option UserBrief) (c : Contest)
    → can_submit_in_contest db now user (some c) ≡ true
    → MaySubmit db now user c
unfolding can_submit_in_contest ended
can_submit-MaySubmit db now user c h = elim (Bool-cases (is_tester (some c) user)) [
  | inl t ↦ as_tester (ground arith) t
  | inr n ↦ contestant-MaySubmit db now user c (ground arith)
]

MaySubmit-can_submit :
    (db : ContestDb) (now : ℕ) (user : Option UserBrief) (c : Contest)
    → MaySubmit db now user c
    → can_submit_in_contest db now user (some c) ≡ true
unfolding can_submit_in_contest running started ended
MaySubmit-can_submit db now user c (as_tester h t) = ground arith
MaySubmit-can_submit db now user c (as_contestant u reg e s f r z) = rw e (ground arith)
MaySubmit-can_submit db now user c (in_own_window u reg s e q b f r p p' l l') = rw q (ground arith)

-- The code lets a user submit to a contest exactly when he may: as a tester until the end, as a
-- registered contestant from the start to the end, and inside his own window where the contest has
-- such windows.
pub can_submit_iff :
    (db : ContestDb) (now : ℕ) (user : Option UserBrief) (c : Contest)
    → (can_submit_in_contest db now user (some c) ≡ true) ↔ MaySubmit db now user c
can_submit_iff db now user c =
    (can_submit-MaySubmit db now user c, MaySubmit-can_submit db now user c)

-- Whoever may submit to a contest may see its problems at the same instant.
pub submitter_can_view :
    (db : ContestDb) (now : ℕ) (user : Option UserBrief) (c : Option Contest)
    → can_submit_in_contest db now user c ≡ true
    → can_view_contest_problems db now user c ≡ true
unfolding can_submit_in_contest can_view_contest_problems running started ended is_tester
submitter_can_view db now none none h = cc
submitter_can_view db now (some u) none h = cc
submitter_can_view db now user (some c) h = ground arith

-- The freeze time shown to a user is the contest's, from the freeze on, and for an editor only on
-- request; in every other case the leaderboard is live.
pub freeze_time_iff :
    (now : ℕ) (user : Option UserBrief) (c : Contest) (show_frozen : Bool) (f : ℕ)
    → (user_contest_freeze_time now user c show_frozen ≡ some f) ↔ (
        (c.leaderboard_freeze ≡ some f)
        × (f ≤ now)
        × ((is_editor (some c) user ≡ false) ⊎ (show_frozen ≡ true)))
unfolding user_contest_freeze_time
freeze_time_iff now user c show_frozen f = (λ h. ground arith, λ h. ground arith)

-- Joining closes for good: a contest that can be joined at some instant could be joined at every
-- earlier one.
pub can_join_contest-earlier :
    (now later : ℕ) (c : Contest)
    → now ≤ later
    → can_join_contest later c ≡ true
    → can_join_contest now c ≡ true
unfolding can_join_contest started ended
can_join_contest-earlier now later c h j = ground arith
