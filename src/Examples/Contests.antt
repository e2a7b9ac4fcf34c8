-- ===== src/Examples/Contests.antt =====
-- The theorems on contests and registrations at concrete tables.
use kilonova.Prelude.{
  ℕ, ◌+◌, ◌≤◌, ◌<◌, ◌≡◌, ◌↔◌, ◌⊎◌, refl, true, false, none, some, [], ◌∷◌, arith, ltb,
}
use kilonova.Status.{ok, is_ok}
use kilonova.User.{is_admin, is_proposer}
use kilonova.Contest.{ContestType, ContestInvitation, has_id, is_tester, running}
use kilonova.Contest.Access.{can_submit_in_contest}
use kilonova.Prelude.Int.{pos, is_negative}
use kilonova.Contest.Creation.{
  CreationDb, create_contest, created_type, created_contest, inserted_id, is_known_type,
}
use kilonova.Contest.Window.{MaySubmit, can_submit_iff}
use kilonova.Contest.Registration.{
  Tables, Faults, panics, seconds, find_registration, register_contest_user,
  start_contest_registration, redeem_count, accept_contest_invitation, contest_registration,
  db_contest_registration, set_window, start_found,
}
use kilonova.Contest.Registration.Windows.{
  register_registered, start_unregistered_panics, start_then_submit, contest_db,
}
use kilonova.Contest.Registration.Invitations.{accept_within_limit}
use kilonova.Examples.Data.{ana, round_one, registration_of, window_db}

abbrev working_db : Faults
working_db = record {
  read_registration = none;
  insert_registration = none;
  start_registration = none;
  delete_registration = none;
  clear_submissions = none;
}

abbrev tables : Tables
tables = record {
  registrations = registration_of 8 ∷ registration_of 7 ∷ [];
  submissions =
      record { id = 1; user_id = 7; contest_id = some 3 }
      ∷ record { id = 2; user_id = 8; contest_id = some 3 }
      ∷ [];
}

-- The tables after Ana has started at 200.
abbrev started_tables : Tables
started_tables = record tables {
  registrations =
      registration_of 8
      ∷ record (registration_of 7) {
        individual_start_time = some 200;
        individual_end_time = some 60_000_000_200;
      }
      ∷ [];
}

abbrev kicked_tables : Tables
kicked_tables = record {
  registrations = registration_of 8 ∷ [];
  submissions =
      record { id = 1; user_id = 7; contest_id = none }
      ∷ record { id = 2; user_id = 8; contest_id = some 3 }
      ∷ [];
}

abbrev invite : ContestInvitation
invite = record {
  id = "abc";
  created_at = 10;
  contest_id = 3;
  creator_id = some 1;
  redeem_count = 0;
  max_count = some 2;
  expired = false;
}

can_submit_iff_example :
    (can_submit_in_contest window_db 300 (some ana) (some round_one) ≡ true)
    ↔ MaySubmit window_db 300 (some ana) round_one
can_submit_iff_example = can_submit_iff window_db 300 (some ana) round_one

register_registered_example :
    ((register_contest_user working_db 50 tables round_one 7 none true).0 ≡ tables)
    × (is_ok (register_contest_user working_db 50 tables round_one 7 none true).1 ≡ false)
unfolding find_registration
register_registered_example =
    register_registered working_db 50 tables round_one 7 none true (registration_of 7) refl

start_unregistered_panics_example :
    start_contest_registration working_db 200 tables round_one 9 ≡ panics
unfolding find_registration
start_unregistered_panics_example =
    start_unregistered_panics working_db 200 tables round_one 9 (λ e. omega arith) refl refl

start_then_submit_example :
    can_submit_in_contest (contest_db working_db started_tables) 500 (some ana) (some round_one)
    ≡ ltb 500 (200 + seconds 60)
unfolding start_contest_registration contest_registration db_contest_registration find_registration
    start_found set_window running is_tester has_id
start_then_submit_example =
    start_then_submit working_db working_db 200 500 tables started_tables round_one ana refl refl
      (omega arith) refl refl

accept_within_limit_example :
    redeem_count "abc"
      (accept_contest_invitation working_db 200 tables invite round_one 9).0.registrations
    ≤ 2
unfolding redeem_count
accept_within_limit_example =
    accept_within_limit working_db 200 tables invite round_one 9 2 refl refl (omega arith)

abbrev creation_db : CreationDb
creation_db = record {
  contest_count = λ uid. ok 1;
  normal_user_virtual_contests = true;
  normal_user_vc_limit = pos 2;
  new_id = ok 12;
  editor_fault = none;
}

created_contest_example :
    ((create_contest creation_db [] "Mine" ContestType.official (some ana)).0
      ≡ record {
        id = 12;
        name = "Mine";
        contest_type = created_type ana ContestType.official;
        editors = 7 ∷ [];
      }
        ∷ [])
    × ((created_type ana ContestType.official ≡ ContestType.virtual)
        ⊎ ((created_type ana ContestType.official ≡ ContestType.official)
            × (is_admin (some ana) ≡ true)))
    × ((is_proposer (some ana) ≡ true)
        ⊎ ((n : ℕ) × (creation_db.contest_count 7 ≡ ok n)
            × ((is_negative (pos 2) ≡ true) ⊎ ((m : ℕ) × (pos 2 ≡ pos m) × (n < m)))
            × (creation_db.normal_user_virtual_contests ≡ true)))
unfolding create_contest is_known_type is_proposer inserted_id
created_contest_example = created_contest creation_db [] "Mine" ContestType.official ana 12 refl
