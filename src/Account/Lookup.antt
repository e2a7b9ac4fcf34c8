-- ===== src/Account/Lookup.antt =====
-- What the updates of the users and sessions tables leave to be found (sudoapi/session.go).
use kilonova.Prelude.{
  ℕ, ◌≡◌, refl, ap, ◌∙◌, Bool, false, Option, none, some, List, [], ◌∷◌, String, ◌==◌, str_eq,
  eq_iff, arith, Bool-cases, inl, inr, any,
}
use kilonova.User.{UserFull}
use kilonova.Account.{Session, find_user, find_session}
use kilonova.Account.Sessions.{delete_session, delete_user_sessions, user_session_ids, change_user}

abbrev pub is_listed : String → List String → Bool
is_listed key sids = any (λ sid. str_eq sid key) sids

pub find_session-delete_session :
    (now : ℕ) (sid key : String) (ss : List Session)
    → str_eq sid key ≡ false
    → find_session now key (delete_session sid ss) ≡ find_session now key ss
find_session-delete_session now sid key [] h = refl
find_session-delete_session now sid key (s ∷ ss) h =
    let rest = find_session-delete_session now sid key ss h in
    elim (Bool-cases (str_eq s.id sid)) [
      | inl same ↦
          let away : str_eq s.id key ≡ false =
            ap (λ k. str_eq k key) ((eq_iff s.id sid).0 same) ∙ h in
          ground (arith, rest, away)
      | inr other ↦ ground (arith, rest)
    ]

pub find_session-delete_user_sessions :
    (now uid : ℕ) (key : String) (ss : List Session)
    → is_listed key (user_session_ids uid ss) ≡ false
    → find_session now key (delete_user_sessions uid ss) ≡ find_session now key ss
find_session-delete_user_sessions now uid key [] h = refl
find_session-delete_user_sessions now uid key (s ∷ ss) h = elim (Bool-cases (s.user_id == uid)) [
  | inl same ↦
      let rest = find_session-delete_user_sessions now uid key ss (ground (arith, h, same)) in
      ground (arith, rest, h, same)
  | inr other ↦
      let rest = find_session-delete_user_sessions now uid key ss (ground (arith, h, other)) in
      ground (arith, rest, other)
]

abbrev pub belongs : ℕ → Option Session → Bool
belongs uid none = false
belongs uid (some s) = s.user_id == uid

-- The session that is found belongs to another user when the user's sessions are gone.
pub belongs-delete_user_sessions :
    (now uid : ℕ) (key : String) (ss : List Session)
    → belongs uid (find_session now key (delete_user_sessions uid ss)) ≡ false
belongs-delete_user_sessions now uid key [] = refl
belongs-delete_user_sessions now uid key (s ∷ ss) =
    let rest = belongs-delete_user_sessions now uid key ss in
    elim (Bool-cases (s.user_id == uid)) [
      | inl same ↦ ground (arith, rest, same)
      | inr other ↦ ground (arith, rest, other)
    ]

pub find_user-change_user :
    (uid id : ℕ) (change : UserFull → UserFull) (us : List UserFull)
    → ((u : UserFull) → (change u).id ≡ u.id)
    → (id == uid) ≡ false
    → find_user id (change_user uid change us) ≡ find_user id us
find_user-change_user uid id change [] keeps other = refl
find_user-change_user uid id change (u ∷ us) keeps other =
    let rest = find_user-change_user uid id change us keeps other in ground (arith, rest, keeps u)

-- The session that is found is listed among those of its user.
pub belongs-unlisted :
    (now uid : ℕ) (key : String) (ss : List Session)
    → is_listed key (user_session_ids uid ss) ≡ false
    → belongs uid (find_session now key ss) ≡ false
belongs-unlisted now uid key [] away = refl
belongs-unlisted now uid key (s ∷ ss) away = elim (Bool-cases (s.user_id == uid)) [
  | inl same ↦
      let rest = belongs-unlisted now uid key ss (ground (arith, away, same)) in
      ground (arith, rest, away, same)
  | inr other ↦
      let rest = belongs-unlisted now uid key ss (ground (arith, away, other)) in
      ground (arith, rest, other)
]
