-- ===== src/Account/Logout.antt =====
-- Who is logged in after the operations of sudoapi/session.go and sudoapi/user.go.
use kilonova.Prelude.{
  ℕ, ◌≡◌, refl, sym, ap, ◌∙◌, Bool, false, Option, none, some, List, [], ◌∷◌, String, ◌==◌, arith,
  Bool-cases, Option-cases, inl, inr,
}
use kilonova.Status.{GoError, ok}
use kilonova.User.{UserFull}
use kilonova.Account.{Session, SessionCache, SessionCacheLaws, find_user, find_session}
use kilonova.Account.Sessions.{
  owner, State, user_of_session, session_user, remove_session, remove_user_sessions, update_user,
}
use kilonova.Account.Lookup.{belongs, belongs-delete_user_sessions}
use kilonova.Account.Coherence.{
  IsCoherent, session_user-IsCoherent, remove_session-IsCoherent, remove_user_sessions-IsCoherent,
  update_user-IsCoherent,
}

abbrev has_id : ℕ → Option UserFull → Bool
has_id uid none = false
has_id uid (some u) = u.id == uid

find_user-other :
    (id uid : ℕ) (us : List UserFull) → (id == uid) ≡ false → has_id uid (find_user id us) ≡ false
find_user-other id uid [] h = refl
find_user-other id uid (u ∷ us) h =
    let rest = find_user-other id uid us h in
    elim (Bool-cases (u.id == id)) [
      | inl same ↦ ground (arith, same, h)
      | inr other ↦ ground (arith, other, rest)
    ]

owner-other :
    (uid : ℕ) (us : List UserFull) (found : Option Session)
    → belongs uid found ≡ false
    → has_id uid (owner us found) ≡ false
owner-other uid us none h = refl
owner-other uid us (some s) h = find_user-other s.user_id uid us h

module _ (cache : SessionCache) (laws : SessionCacheLaws cache) (now : ℕ) where
  pub data Call : State cache → State cache → Type 1 where
    looked :
        (st : State cache) (load_error again_error : Option GoError) (sid : String)
        → Call st (session_user cache now load_error again_error st sid).0
    removed :
        (st : State cache) (e : Option GoError) (sid : String)
        → Call st (remove_session cache e st sid).0
    removed_all :
        (st : State cache) (e : Option GoError) (uid : ℕ)
        → Call st (remove_user_sessions cache e st uid).0
    updated :
        (st : State cache) (e : Option GoError) (uid : ℕ) (change : UserFull → UserFull)
        → ((u : UserFull) → (change u).id ≡ u.id)
        → Call st (update_user cache e none st uid change).0

  pub data Reach (start : State cache) : State cache → Type 1 where
    here : Reach start start
    next : {s t : State cache} → Reach start s → Call s t → Reach start t

  Call-IsCoherent :
      {s t : State cache} → Call s t → IsCoherent cache laws now s → IsCoherent cache laws now t
  Call-IsCoherent (looked st load_error again_error sid) i =
      session_user-IsCoherent cache laws now load_error again_error st sid i
  Call-IsCoherent (removed st e sid) i = remove_session-IsCoherent cache laws now e st sid i
  Call-IsCoherent (removed_all st e uid) i =
      remove_user_sessions-IsCoherent cache laws now e st uid i
  Call-IsCoherent (updated st e uid change keeps) i =
      update_user-IsCoherent cache laws now e st uid change keeps i

  -- After any sequence of looking up, removing one session, removing all of a user's, and updates of
  -- users that keep their ids and whose sessions could be read, failed calls among them, what the cache
  -- holds for a session is the user whom the tables give for it, if it was so at the start. The clock
  -- stands still, so no session expires on the way.
  pub Reach-IsCoherent :
      {start st : State cache}
      → Reach start st
      → IsCoherent cache laws now start
      → IsCoherent cache laws now st
  Reach-IsCoherent here i = i
  Reach-IsCoherent (next reached step) i = Call-IsCoherent step (Reach-IsCoherent reached i)

  -- SessionUser answers what the tables say, when it answers.
  session_user-value :
      (load_error again_error : Option GoError) (st : State cache) (sid : String)
      (value : Option UserFull)
      → IsCoherent cache laws now st
      → (session_user cache now load_error again_error st sid).1 ≡ ok value
      → user_of_session now st.tables sid ≡ value
  unfolding session_user
  session_user-value load_error again_error st sid value i h =
      elim (Option-cases (cache.find st.cached sid)) [
        | inr (cached, hit) ↦ i sid cached hit ∙ ground (arith, hit, h)
        | inl miss ↦ elim (Option-cases load_error) [
          | inl loaded ↦ ground (arith, miss, loaded, h)
          | inr (e, failed) ↦ elim (Option-cases again_error) [
            | inl again ↦ ground (arith, miss, failed, again, h)
            | inr (e2, lost) ↦ ground (arith, miss, failed, lost, h)
          ]
        ]
      ]

  -- Once RemoveUserSessions has succeeded for a user, SessionUser answers that user for no session
  -- whatever, from the cache or from the tables, when the cache agreed with the tables before.
  pub remove_user_sessions-logs_out :
      (st : State cache) (uid : ℕ) (key : String) (load_error again_error : Option GoError)
      (u : UserFull)
      → IsCoherent cache laws now st
      → (session_user cache now load_error again_error
          (remove_user_sessions cache none st uid).0
          key).1
        ≡ ok (some u)
      → (u.id == uid) ≡ false
  unfolding remove_user_sessions user_of_session
  remove_user_sessions-logs_out st uid key load_error again_error u i h =
      let after = (remove_user_sessions cache none st uid).0 in
      let coherent = remove_user_sessions-IsCoherent cache laws now none st uid i in
      let answer = session_user-value load_error again_error after key (some u) coherent h in
      let found = find_session now key after.tables.sessions in
      let other = belongs-delete_user_sessions now uid key st.tables.sessions in
      ap (has_id uid) (sym answer) ∙ owner-other uid after.tables.users found other
