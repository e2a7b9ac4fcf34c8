-- ===== src/Contest/Registration/Invitations.antt =====
-- Accepting an invitation: theorems on acceptContestInvitation and RegisterContestUser.
use kilonova.Prelude.{
  ℕ, ◌+◌, ◌≡◌, ◌⊎◌, Bool, true, false, ◌≤◌, none, some, [], ◌∷◌, String, arith, eq_refl,
}
use kilonova.Status.{ok}
use kilonova.Contest.{Contest, ContestInvitation, started, ended, running}
use kilonova.Contest.Registration.{
  Tables, Faults, find_registration, db_insert_contest_registration, insert_checked,
  register_contest_user, redeem_count, accept_contest_invitation,
}
use kilonova.Contest.Registration.Rows.{redeem_count-append}

insert_checked-redeems :
    (f : Faults) (now : ℕ) (t : Tables) (cid uid : ℕ) (i : String)
    → redeem_count i (insert_checked f now t cid uid (some i)).0.registrations
      ≤ redeem_count i t.registrations + 1
unfolding insert_checked db_insert_contest_registration redeem_count
insert_checked-redeems f now t cid uid i = ground (
  arith,
  eq_refl i,
  redeem_count-append i t.registrations (
      record {
        created_at = now;
        contest_id = cid;
        user_id = uid;
        individual_start_time = none;
        individual_end_time = none;
        invitation_id = some i;
      }
      ∷ []),
)

register-redeems :
    (f : Faults) (now : ℕ) (t : Tables) (c : Contest) (uid : ℕ) (i : String) (force : Bool)
    → redeem_count i (register_contest_user f now t c uid (some i) force).0.registrations
      ≤ redeem_count i t.registrations + 1
unfolding register_contest_user
register-redeems f now t c uid i force = ground (arith, insert_checked-redeems f now t c.id uid i)

-- Accepting an invitation whose use is within its limit never takes it past the limit, when the
-- count that was fetched with it is still the table's.
pub accept_within_limit :
    (f : Faults) (now : ℕ) (t : Tables) (inv : ContestInvitation) (c : Contest) (uid m : ℕ)
    → inv.max_count ≡ some m
    → inv.redeem_count ≡ redeem_count inv.id t.registrations
    → redeem_count inv.id t.registrations ≤ m
    → redeem_count inv.id (accept_contest_invitation f now t inv c uid).0.registrations ≤ m
unfolding accept_contest_invitation
accept_within_limit f now t inv c uid m h q l =
    ground (arith, register-redeems f now t c uid inv.id true)

-- An invitation is accepted only while it has not expired and the contest has not ended, and
-- before the start unless the contest registers users while it runs; the user was not registered
-- before, and the invitation counts one use more.
pub accept_admits :
    (f : Faults) (now : ℕ) (t : Tables) (inv : ContestInvitation) (c : Contest) (uid : ℕ)
    → (accept_contest_invitation f now t inv c uid).1 ≡ ok tt
    → (inv.expired ≡ false)
      × (now ≤ c.end_time)
      × ((c.register_during_contest ≡ true) ⊎ (now ≤ c.start_time))
      × (find_registration c.id uid t.registrations ≡ none)
      × (redeem_count inv.id (accept_contest_invitation f now t inv c uid).0.registrations
          ≡ redeem_count inv.id t.registrations + 1)
unfolding accept_contest_invitation running started ended register_contest_user insert_checked
    db_insert_contest_registration redeem_count
accept_admits f now t inv c uid h = ground (
  arith,
  eq_refl inv.id,
  redeem_count-append inv.id t.registrations (
      record {
        created_at = now;
        contest_id = c.id;
        user_id = uid;
        individual_start_time = none;
        individual_end_time = none;
        invitation_id = some inv.id;
      }
      ∷ []),
)
