-- ===== src/Examples/Accounts.antt =====
-- Sessions and accounts of the examples.
use kilonova.Prelude.{
  ◌≡◌, refl, sym, ap, ◌∙◌, ◌⊎◌, inl, inr, true, false, Option, none, some, [], ◌∷◌, String, ◌==◌,
  str_eq, eq_refl, if◌then◌else◌, arith, Bool-cases,
}
use kilonova.Prelude.Text.{trim_text}
use kilonova.Status.{ok}
use kilonova.User.{UserFull}
use kilonova.Account.{Tables, SessionCache, SessionCacheLaws}
use kilonova.Account.Sessions.{State, session_user, remove_user_sessions}
use kilonova.Account.Coherence.{IsCoherent}
use kilonova.Account.Logout.{Call, Reach, Reach-IsCoherent, remove_user_sessions-logs_out}
use kilonova.Account.Username.{NameChange}
use kilonova.Account.Password.{
  Theme, Account, Comparison, Libraries, LibraryLaws, login, signup, verify_user_password,
  update_user_password,
}
use kilonova.Account.Login.{signup-login, update-verify_user_password}
use kilonova.Examples.Data.{ana, bogdan}

-- A cache that forgets only what it is told to.
abbrev table_cache : SessionCache
table_cache = record {
  C = String → Option (Option UserFull);
  find = λ c sid. c sid;
  load = λ c sid value key. if str_eq sid key then some value else c key;
  delete = λ c sid key. if str_eq sid key then none else c key;
}

find_deleted :
    (c : String → Option (Option UserFull)) (sid : String)
    → (if str_eq sid sid then none else c sid) ≡ none
find_deleted c sid = rw (eq_refl sid) refl

find_other :
    (c : String → Option (Option UserFull)) (sid key : String) (value : Option UserFull)
    → (if str_eq sid key then none else c key) ≡ some value
    → c key ≡ some value
find_other c sid key value h = ground arith

find_loaded :
    (c : String → Option (Option UserFull)) (sid key : String) (loaded value : Option UserFull)
    → (if str_eq sid key then some loaded else c key) ≡ some value
    → ((str_eq sid key ≡ true) × (loaded ≡ value)) ⊎ (c key ≡ some value)
find_loaded c sid key loaded value h = elim (Bool-cases (str_eq sid key)) [
  | inl same ↦ inl (same, ground (arith, same, h))
  | inr other ↦ inr (ground (arith, other, h))
]

table_cache_laws : SessionCacheLaws table_cache
table_cache_laws = record {
  find-delete = find_deleted;
  find-delete_other = find_other;
  find-load = find_loaded;
}

abbrev ana_full : UserFull
ana_full = record { user_brief = ana; verified_email = true }

abbrev bogdan_full : UserFull
bogdan_full = record { user_brief = bogdan; verified_email = true }

abbrev tables : Tables
tables = record {
  users = ana_full ∷ bogdan_full ∷ [];
  sessions =
      record { id = "s1"; user_id = 7; expires_at = 900 }
      ∷ record { id = "s2"; user_id = 8; expires_at = 900 }
      ∷ record { id = "s3"; user_id = 7; expires_at = 100 }
      ∷ [];
}

abbrev fresh_state : State table_cache
fresh_state = record { tables = tables; cached = λ sid. none }

fresh_state-IsCoherent : IsCoherent table_cache table_cache_laws 500 fresh_state
fresh_state-IsCoherent key value h = ground arith

-- Ana's and Bogdan's sessions are looked up.
abbrev after_looks : State table_cache
unfolding session_user
after_looks =
    (session_user table_cache 500 none none
      (session_user table_cache 500 none none fresh_state "s1").0 "s2").0

after_looks-Reach : Reach table_cache table_cache_laws 500 fresh_state after_looks
unfolding after_looks session_user
after_looks-Reach =
    Reach.next (Reach.next Reach.here (Call.looked fresh_state none none "s1"))
      (Call.looked (session_user table_cache 500 none none fresh_state "s1").0 none none "s2")

Reach-IsCoherent_example : IsCoherent table_cache table_cache_laws 500 after_looks
Reach-IsCoherent_example =
    Reach-IsCoherent table_cache table_cache_laws 500 after_looks-Reach fresh_state-IsCoherent

remove_user_sessions-logs_out_example : (bogdan_full.id == 7) ≡ false
unfolding session_user remove_user_sessions
remove_user_sessions-logs_out_example =
    remove_user_sessions-logs_out table_cache table_cache_laws 500 fresh_state 7 "s2" none none
      bogdan_full fresh_state-IsCoherent refl

abbrev change : NameChange
change = record {
  can_change_names = true;
  now = 9_000_000;
  created_at = 1_000_000;
  last_change = ok 2_000_000;
  name_taken = false;
  past_uses = ok 1;
  holders = some (7 ∷ []);
}

-- A hash that shows the password.
abbrev shown : String → String
shown p = if str_eq p "" then "nothing" else p

abbrev plain_libraries : Libraries
plain_libraries = record {
  hash = λ p. ok (shown p);
  compare_hash = λ h p. if str_eq h (shown p) then Comparison.matches else Comparison.mismatched;
  same_lower = str_eq;
  is_existing_email = λ e. true;
}

shown_not_empty : (p : String) → str_eq (shown p) "" ≡ false
shown_not_empty p = elim (Bool-cases (str_eq p "")) [
  | inl nothing ↦ rw nothing refl
  | inr some_text ↦ rw some_text some_text
]

hashed_text : (p h : String) → plain_libraries.hash p ≡ ok h → shown p ≡ h
hashed_text p h e = ground (arith, e)

plain_laws : LibraryLaws plain_libraries
plain_laws = record {
  hash_some = λ p h e. ap (λ t. str_eq t "") (sym (hashed_text p h e)) ∙ shown_not_empty p;
  hash_matches = λ p h e. rw (← hashed_text p h e, eq_refl (shown p)) refl;
  same_lower_refl = eq_refl;
}

abbrev first_account : Account
first_account = record {
  id = 1;
  name = "ana.pop";
  email = "ana@example.org";
  password = "secret7";
  preferred_language = "ro";
  preferred_theme = Theme.dark;
  generated = false;
  verified_email = false;
  admin = true;
  proposer = true;
}

signup-login_example :
    (a : Account) × (login plain_libraries (first_account ∷ []) (trim_text " ana.pop ") "secret7"
      ≡ ok a)
    × (a.id ≡ 1)
    × (a.admin ≡ (1 == 1))
unfolding signup
signup-login_example =
    signup-login plain_libraries plain_laws true "ro" [] (first_account ∷ []) 1 "ana@example.org"
      " ana.pop " "secret7" "" Theme.none_given refl

update-verify_user_password_example :
    verify_user_password plain_libraries
      (record first_account { password = "changed" } ∷ [])
      1
      "changed"
    ≡ ok tt
unfolding update_user_password
update-verify_user_password_example =
    update-verify_user_password plain_libraries plain_laws (first_account ∷ [])
      (record first_account { password = "changed" } ∷ []) 1 "changed" refl refl
