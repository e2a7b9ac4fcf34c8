-- ===== src/Account.antt =====
-- Sessions and accounts: the rows of the users and sessions tables and the cache of session users
-- (sudoapi/session.go, sudoapi/user.go, sudoapi/base.go, sudoapi/auth.go, db/verif_session.go,
-- domain/user/username.go).
pub mod Sessions
pub mod Lookup
pub mod Coherence
pub mod Logout
pub mod Username
pub mod Password
pub mod Login
use kilonova.Prelude.{
  ℕ, ◌+◌, ◌≡◌, ◌⊎◌, Bool, true, false, ◌&&◌, Option, none, some, List, [], ◌∷◌, String, ltb, ◌==◌,
  str_eq, if◌then◌else◌,
}
use kilonova.Status.{GoError}
use kilonova.User.{UserFull}

pub record Session : Type 0 where
  pub id : String
  pub user_id : ℕ
  pub expires_at : ℕ

-- The tables. The view active_sessions leaves out what has expired at the instant `now`.
pub record Tables : Type 0 where
  pub users : List UserFull
  pub sessions : List Session

-- theine.LoadingCache: Get without the loader, what the loader's result does to it, and Delete. An
-- entry may be dropped at any time, so a value that is found is the last one loaded.
pub record SessionCache : Type 1 where
  pub C : Type 0
  pub find : C → String → Option (Option UserFull)
  pub load : C → String → Option UserFull → C
  pub delete : C → String → C

-- What the cache's documentation promises: a deleted key is not found, and an operation on one key
-- leaves the others' values as they are or drops them.
pub record SessionCacheLaws (cache : SessionCache) : Type 0 where
  pub find-delete : (c : cache.C) (sid : String) → cache.find (cache.delete c sid) sid ≡ none
  pub find-delete_other :
      (c : cache.C) (sid key : String) (value : Option UserFull)
      → cache.find (cache.delete c sid) key ≡ some value
      → cache.find c key ≡ some value
  pub find-load :
      (c : cache.C) (sid key : String) (loaded value : Option UserFull)
      → cache.find (cache.load c sid loaded) key ≡ some value
      → ((str_eq sid key ≡ true) × (loaded ≡ value)) ⊎ (cache.find c key ≡ some value)

abbrev pub find_user : ℕ → List UserFull → Option UserFull
find_user id [] = none
find_user id (u ∷ us) = if u.id == id then some u else find_user id us

-- The active session with the id.
abbrev pub find_session : ℕ → String → List Session → Option Session
find_session now sid [] = none
find_session now sid (s ∷ ss) =
    if str_eq s.id sid && ltb now s.expires_at then some s else find_session now sid ss
