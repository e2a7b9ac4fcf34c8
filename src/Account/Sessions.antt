-- ===== src/Account/Sessions.antt =====
-- sudoapi/session.go over db/verif_session.go. One call of the database fails when the error it is
-- given says so.
use kilonova.Prelude.{
  ℕ, ◌+◌, ◌*◌, Bool, false, Option, none, some, List, [], ◌∷◌, ◌++◌, String, ◌==◌, str_eq,
  if◌then◌else◌,
}
use kilonova.Status.{GoError, plain, wrapped, Result, ok, err, statusf, map_err}
use kilonova.User.{UserFull}
use kilonova.Account.{Session, Tables, SessionCache, find_user, find_session}

-- A call that may fail before it does anything.
abbrev pub fallible {ℓ} : {A : Type ℓ} → Option GoError → A → Result A
fallible none a = ok a
fallible (some e) a = err e

-- sessionDuration, in seconds.
abbrev pub session_duration : ℕ
session_duration = 30 * 24 * 3600

-- userRepo.User for a session id: a user with that active session.
abbrev pub owner : List UserFull → Option Session → Option UserFull
owner users none = none
owner users (some s) = find_user s.user_id users

unfoldable pub user_of_session : ℕ → Tables → String → Option UserFull
user_of_session now t sid = owner t.users (find_session now sid t.sessions)

-- db.getSession
unfoldable pub get_active_session : ℕ → Tables → String → Result Session
get_active_session now t sid = elim (find_session now sid t.sessions) [
  | none ↦ err (plain "unauthed")
  | some s ↦ ok s
]

-- error.Error of a plain error.
abbrev pub is_text : GoError → String → Bool
is_text (plain t) text = str_eq t text
is_text other text = false

-- BaseAPI.GetSession; `none` is the user id -1.
unfoldable pub get_session : ℕ → Tables → String → Result (Option ℕ)
unfolding get_active_session
get_session now t sid = elim (get_active_session now t sid) [
  | ok s ↦ ok (some s.user_id)
  | err e ↦ if is_text e "Unauthed" then ok none else err (wrapped "failed to get session: %w" e)
]

abbrev pub set_expiry : String → ℕ → List Session → List Session
set_expiry sid at [] = []
set_expiry sid at (s ∷ ss) =
    (if str_eq s.id sid then record s { expires_at = at } else s) ∷ set_expiry sid at ss

-- BaseAPI.ExtendSession
unfoldable pub extend_session : ℕ → Tables → String → Tables × Result ℕ
unfolding get_active_session statusf
extend_session now t sid = elim (get_active_session now t sid) [
  | ok s ↦ (
    record t { sessions = set_expiry s.id (now + session_duration) t.sessions },
    ok (now + session_duration),
  )
  | err e ↦ (
    t,
    if is_text e "Unauthed"
        then err (statusf 400 "Session already expired")
        else err (wrapped "couldn't extend session: %w" e),
  )
]

-- `DELETE FROM sessions WHERE id = $1`
abbrev pub delete_session : String → List Session → List Session
delete_session sid [] = []
delete_session sid (s ∷ ss) =
    if str_eq s.id sid then delete_session sid ss else s ∷ delete_session sid ss

-- `DELETE FROM sessions WHERE user_id = $1`, and what `RETURNING id` reports.
abbrev pub delete_user_sessions : ℕ → List Session → List Session
delete_user_sessions uid [] = []
delete_user_sessions uid (s ∷ ss) =
    if s.user_id == uid then delete_user_sessions uid ss else s ∷ delete_user_sessions uid ss

abbrev pub user_session_ids : ℕ → List Session → List String
user_session_ids uid [] = []
user_session_ids uid (s ∷ ss) =
    if s.user_id == uid then s.id ∷ user_session_ids uid ss else user_session_ids uid ss

-- The update of a user's row; which columns change is userRepo's.
abbrev pub change_user : ℕ → (UserFull → UserFull) → List UserFull → List UserFull
change_user id change [] = []
change_user id change (u ∷ us) = (if u.id == id then change u else u) ∷ change_user id change us

module _ (cache : SessionCache) where
  pub record State : Type 0 where
    pub tables : Tables
    pub cached : cache.C

  abbrev pub delete_all : List String → cache.C → cache.C
  delete_all [] c = c
  delete_all (sid ∷ sids) c = delete_all sids (cache.delete c sid)

  -- BaseAPI.SessionUser: what is cached, or what the loader reads; when the loader fails, the user is
  -- read once more.
  unfoldable pub session_user :
      ℕ → Option GoError → Option GoError → State → String → State × Result (Option UserFull)
  unfolding user_of_session
  session_user now load_error again_error st sid = elim (cache.find st.cached sid) [
    | some value ↦ (st, ok value)
    | none ↦
        let user = user_of_session now st.tables sid in
        elim load_error [
          | none ↦ (record st { cached = cache.load st.cached sid user }, ok user)
          | some e ↦
              (st, map_err (wrapped "failed to get session user: %w") (fallible again_error user))
        ]
  ]

  -- BaseAPI.RemoveSession
  unfoldable pub remove_session : Option GoError → State → String → State × Result (Unit {0})
  remove_session (some e) st sid = (st, err (wrapped "failed to remove session: %w" e))
  remove_session none st sid = (
    record st {
      tables = record st.tables { sessions = delete_session sid st.tables.sessions };
      cached = cache.delete st.cached sid;
    },
    ok tt,
  )

  -- BaseAPI.RemoveUserSessions
  unfoldable pub remove_user_sessions : Option GoError → State → ℕ → State × Result (Unit {0})
  remove_user_sessions (some e) st uid = (st, err (wrapped "failed to remove sessions: %w" e))
  remove_user_sessions none st uid = (
    record st {
      tables = record st.tables { sessions = delete_user_sessions uid st.tables.sessions };
      cached = delete_all (user_session_ids uid st.tables.sessions) st.cached;
    },
    ok tt,
  )

  -- BaseAPI.updateUser: when the user's sessions cannot be read, the cache stays as it is.
  unfoldable pub update_user :
      Option GoError
      → Option GoError
      → State
      → ℕ
      → (UserFull → UserFull)
      → State × Result (Unit {0})
  update_user (some e) sessions_error st uid change =
      (st, err (wrapped "couldn't update user: %w" e))
  update_user none (some e) st uid change = (
    record st { tables = record st.tables { users = change_user uid change st.tables.users } },
    ok tt,
  )
  update_user none none st uid change = (
    record st {
      tables = record st.tables { users = change_user uid change st.tables.users };
      cached = delete_all (user_session_ids uid st.tables.sessions) st.cached;
    },
    ok tt,
  )

  -- BaseAPI.CreateSession, for the id that RandomSaltedString makes. `keep` is the database's choice of
  -- the user's newest sessions. The DELETE of RemoveOldSessions has no RETURNING, so that CollectRows
  -- reports no rows and the loop over the removed sessions does nothing.
  unfoldable pub create_session :
      ℕ
      → Option GoError
      → Option GoError
      → (List Session → List Session)
      → State
      → String
      → ℕ
      → State × Result String
  create_session now (some e) remove_error keep st sid uid =
      (st, err (wrapped "failed to create session: %w" e))
  create_session now none remove_error keep st sid uid =
      let made : Session = record {
        id = sid;
        user_id = uid;
        expires_at = now + session_duration;
      } in
      let inserted = st.tables.sessions ++ (made ∷ []) in
      elim remove_error [
        | some e ↦ (record st { tables = record st.tables { sessions = inserted } }, ok sid)
        | none ↦ (
          record st {
            tables = record st.tables { sessions = keep inserted };
            cached = delete_all [] st.cached;
          },
          ok sid,
        )
      ]
