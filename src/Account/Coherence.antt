-- ===== src/Account/Coherence.antt =====
-- The cache of session users against the tables (sudoapi/session.go, sudoapi/user.go).
use kilonova.Prelude.{
  ℕ, ◌≡◌, refl, sym, ap, ◌∙◌, false, Option, none, some, List, [], ◌∷◌, String, str_eq, eq_iff,
  arith, Bool-cases, Option-cases, ◌⊎◌, inl, inr, subst,
}
use kilonova.Status.{GoError}
use kilonova.User.{UserFull}
use kilonova.Account.{Session, Tables, SessionCache, SessionCacheLaws, find_session}
use kilonova.Account.Sessions.{
  owner, State, user_of_session, session_user, remove_session, remove_user_sessions, update_user,
  delete_all, user_session_ids, change_user,
}
use kilonova.Account.Lookup.{
  is_listed, belongs, find_session-delete_session, find_session-delete_user_sessions,
  find_user-change_user, belongs-unlisted,
}

module _ (cache : SessionCache) (laws : SessionCacheLaws cache) (now : ℕ) where
  -- What is cached for a session is what the tables say.
  abbrev pub IsCoherent : State cache → Type 0
  IsCoherent st =
      (key : String) (value : Option UserFull)
      → cache.find st.cached key ≡ some value
      → user_of_session now st.tables key ≡ value

  -- A key that is deleted is not found, and another is found as before.
  find-delete_key :
      (c : cache.C) (sid key : String) (value : Option UserFull)
      → cache.find (cache.delete c sid) key ≡ some value
      → (str_eq sid key ≡ false) × (cache.find c key ≡ some value)
  find-delete_key c sid key value h = elim (Bool-cases (str_eq sid key)) [
    | inr other ↦ (other, laws.find-delete_other c sid key value h)
    | inl same ↦
        let gone : cache.find (cache.delete c sid) key ≡ none =
          ap (λ k. cache.find (cache.delete c sid) k) (sym ((eq_iff sid key).0 same))
          ∙ laws.find-delete c sid in
        ground (arith, gone, h)
  ]

  find-delete_all :
      (sids : List String) (c : cache.C) (key : String) (value : Option UserFull)
      → cache.find (delete_all cache sids c) key ≡ some value
      → (is_listed key sids ≡ false) × (cache.find c key ≡ some value)
  find-delete_all [] c key value h = (refl, h)
  find-delete_all (sid ∷ sids) c key value h =
      let (unlisted, before) = find-delete_all sids (cache.delete c sid) key value h in
      let (other, first) = find-delete_key c sid key value before in
      (ground (arith, unlisted, other), first)

  -- SessionUser changes nothing, or loads what the tables say.
  session_user-loads :
      (load_error again_error : Option GoError) (st : State cache) (sid : String)
      → ((session_user cache now load_error again_error st sid).0 ≡ st)
        ⊎ ((session_user cache now load_error again_error st sid).0
            ≡ record st { cached = cache.load st.cached sid (user_of_session now st.tables sid) })
  unfolding session_user
  session_user-loads load_error again_error st sid =
      elim (Option-cases (cache.find st.cached sid)) [
        | inr (cached, hit) ↦ inl (ground (arith, hit))
        | inl miss ↦ elim (Option-cases load_error) [
          | inl loaded ↦ inr (ground (arith, miss, loaded))
          | inr (e, failed) ↦ inl (ground (arith, miss, failed))
        ]
      ]

  load-IsCoherent :
      (st : State cache) (sid : String)
      → IsCoherent st
      → IsCoherent
          (record st { cached = cache.load st.cached sid (user_of_session now st.tables sid) })
  load-IsCoherent st sid i key value h =
      elim (laws.find-load st.cached sid key (user_of_session now st.tables sid) value h) [
        | inl (same, loaded) ↦
            ap (λ k. user_of_session now st.tables k) (sym ((eq_iff sid key).0 same)) ∙ loaded
        | inr before ↦ i key value before
      ]

  pub session_user-IsCoherent :
      (load_error again_error : Option GoError) (st : State cache) (sid : String)
      → IsCoherent st
      → IsCoherent (session_user cache now load_error again_error st sid).0
  session_user-IsCoherent load_error again_error st sid i =
      elim (session_user-loads load_error again_error st sid) [
        | inl same ↦ subst IsCoherent (sym same) i
        | inr loads ↦ subst IsCoherent (sym loads) (load-IsCoherent st sid i)
      ]

  pub remove_session-IsCoherent :
      (e : Option GoError) (st : State cache) (sid : String)
      → IsCoherent st
      → IsCoherent (remove_session cache e st sid).0
  unfolding remove_session user_of_session
  remove_session-IsCoherent (some e) st sid i key value h = i key value h
  remove_session-IsCoherent none st sid i key value h =
      let (other, before) = find-delete_key st.cached sid key value h in
      ap (owner st.tables.users) (find_session-delete_session now sid key st.tables.sessions other)
      ∙ i key value before

  pub remove_user_sessions-IsCoherent :
      (e : Option GoError) (st : State cache) (uid : ℕ)
      → IsCoherent st
      → IsCoherent (remove_user_sessions cache e st uid).0
  unfolding remove_user_sessions user_of_session
  remove_user_sessions-IsCoherent (some e) st uid i key value h = i key value h
  remove_user_sessions-IsCoherent none st uid i key value h =
      let ids = user_session_ids uid st.tables.sessions in
      let (unlisted, before) = find-delete_all ids st.cached key value h in
      ap (owner st.tables.users)
        (find_session-delete_user_sessions now uid key st.tables.sessions unlisted)
      ∙ i key value before

  -- The rows of other users' sessions are read as before.
  user_of_session-change_user :
      (t : Tables) (uid : ℕ) (change : UserFull → UserFull) (key : String)
      → ((u : UserFull) → (change u).id ≡ u.id)
      → is_listed key (user_session_ids uid t.sessions) ≡ false
      → user_of_session now (record t { users = change_user uid change t.users }) key
        ≡ user_of_session now t key
  unfolding user_of_session
  user_of_session-change_user t uid change key keeps unlisted =
      let other = belongs-unlisted now uid key t.sessions unlisted in
      owner-change_user (find_session now key t.sessions) other
    where
      owner-change_user :
          (found : Option Session)
          → belongs uid found ≡ false
          → owner (change_user uid change t.users) found ≡ owner t.users found
      owner-change_user none h = refl
      owner-change_user (some s) h = find_user-change_user uid s.user_id change t.users keeps h

  pub update_user-IsCoherent :
      (e : Option GoError) (st : State cache) (uid : ℕ) (change : UserFull → UserFull)
      → ((u : UserFull) → (change u).id ≡ u.id)
      → IsCoherent st
      → IsCoherent (update_user cache e none st uid change).0
  unfolding update_user
  update_user-IsCoherent (some e) st uid change keeps i key value h = i key value h
  update_user-IsCoherent none st uid change keeps i key value h =
      let ids = user_session_ids uid st.tables.sessions in
      let (unlisted, before) = find-delete_all ids st.cached key value h in
      user_of_session-change_user st.tables uid change key keeps unlisted ∙ i key value before
