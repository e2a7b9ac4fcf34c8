-- ===== src/Account/Login.antt =====
-- Logging in after signing up, and checking a password after changing it (sudoapi/auth.go,
-- sudoapi/user.go).
use kilonova.Prelude.{
  ℕ, ◌≡◌, refl, sym, ap, ◌∙◌, Bool, true, false, some, List, [], ◌∷◌, ◌++◌, String, ◌==◌, str_eq,
  any, arith, Bool-cases, inl, inr,
}
use kilonova.Prelude.Text.{trim_text}
use kilonova.Status.{ok, Result-cases}
use kilonova.Account.Username.{valid_username}
use kilonova.Account.Password.{
  Theme, Account, Comparison, Libraries, LibraryLaws, check_valid_password, find_account,
  set_password, has_name, login, verify_user_password, update_user_password, create_user, signup,
  or_default, or_dark,
}

module _ (lib : Libraries) (laws : LibraryLaws lib) where
  find_account-append :
      (p : Account → Bool) (users : List Account) (a : Account)
      → any p users ≡ false
      → p a ≡ true
      → find_account p (users ++ (a ∷ [])) ≡ some a
  find_account-append p [] a none_before here = ground arith
  find_account-append p (u ∷ users) a none_before here =
      let rest = find_account-append p users a (ground arith) here in ground (arith, rest)

  -- The row that set_password leaves.
  find_account-set_password :
      (uid : ℕ) (hash : String) (users : List Account)
      → any (λ a. a.id == uid) users ≡ true
      → (a : Account) × (find_account (λ a. a.id == uid) (set_password uid hash users) ≡ some a)
        × (a.password ≡ hash)
  find_account-set_password uid hash [] known = ground arith
  find_account-set_password uid hash (u ∷ users) known = elim (Bool-cases (u.id == uid)) [
    | inl here ↦ (record u { password = hash }, ground arith, refl)
    | inr away ↦
        let (a, found, is_hash) = find_account-set_password uid hash users (ground arith) in
        (a, ground (arith, found), is_hash)
  ]

  -- What update_user_password did, when it succeeded.
  update_user_password-hash :
      (users changed : List Account) (uid : ℕ) (pwd : String)
      → update_user_password lib users uid pwd ≡ ok changed
      → (h : String) × (lib.hash pwd ≡ ok h) × (set_password uid h users ≡ changed)
  unfolding update_user_password
  update_user_password-hash users changed uid pwd done =
      elim (Result-cases (check_valid_password pwd)) [
        | inl (e, bad) ↦ ground (arith, bad, done)
        | inr (u, good) ↦ elim (Result-cases (lib.hash pwd)) [
          | inl (e, failed) ↦ ground (arith, good, failed, done)
          | inr (h, hashed) ↦ (h, hashed, ground (arith, good, hashed, done))
        ]
      ]

  -- After UpdateUserPassword has succeeded for a user who exists, VerifyUserPassword accepts the new
  -- password of that user.
  pub update-verify_user_password :
      (users changed : List Account) (uid : ℕ) (pwd : String)
      → any (λ a. a.id == uid) users ≡ true
      → update_user_password lib users uid pwd ≡ ok changed
      → verify_user_password lib changed uid pwd ≡ ok tt
  unfolding verify_user_password
  update-verify_user_password users changed uid pwd known done =
      let (h, hashed, same) = update_user_password-hash users changed uid pwd done in
      let (a, found, is_hash) = find_account-set_password uid h users known in
      let found_changed : find_account (λ a. a.id == uid) changed ≡ some a =
        ap (λ l. find_account (λ a. a.id == uid) l) (sym same) ∙ found in
      let not_empty : str_eq a.password "" ≡ false =
        ap (λ p. str_eq p "") is_hash ∙ laws.hash_some pwd h hashed in
      let accepted : lib.compare_hash a.password pwd ≡ Comparison.matches =
        ap (λ p. lib.compare_hash p pwd) is_hash ∙ laws.hash_matches pwd h hashed in
      ground (arith, found_changed, not_empty, accepted)

  -- What signup did, when it succeeded: the account it added, whose name nobody had.
  signup-added :
      (enabled : Bool) (default_language : String) (users added : List Account) (id : ℕ)
      (email uname pwd lang : String) (theme : Theme)
      → signup lib enabled default_language users id email uname pwd lang theme ≡ ok added
      → (h : String) × (lib.hash pwd ≡ ok h)
        × (any (has_name lib (trim_text uname)) users ≡ false)
        × (create_user lib users id
              (trim_text uname)
              email
              pwd
              (or_default default_language lang)
              (or_dark theme)
              false
            ≡ ok added)
  unfolding signup create_user
  signup-added enabled default_language users added id email uname pwd lang theme done =
      elim (Bool-cases enabled) [
        | inr off ↦ ground (arith, off, done)
        | inl on ↦ elim (Result-cases (valid_username (trim_text uname))) [
          | inl (e, bad) ↦ ground (arith, on, bad, done)
          | inr (u, good) ↦ elim (Result-cases (check_valid_password pwd)) [
            | inl (e, short) ↦ ground (arith, on, good, short, done)
            | inr (v, fits) ↦ elim (Result-cases (lib.hash pwd)) [
              | inl (e, failed) ↦ ground (arith, on, good, fits, failed, done)
              | inr (h, hashed) ↦ (
                h,
                hashed,
                ground (arith, on, good, fits, hashed, done),
                ground (arith, on, good, fits, hashed, done),
              )
            ]
          ]
        ]
      ]

  -- After a sign-up has succeeded, logging in with the name that was given, without the white space
  -- around it, and the password answers the new account, and it is an administrator just when it is the
  -- first.
  pub signup-login :
      (enabled : Bool) (default_language : String) (users added : List Account) (id : ℕ)
      (email uname pwd lang : String) (theme : Theme)
      → signup lib enabled default_language users id email uname pwd lang theme ≡ ok added
      → (a : Account) × (login lib added (trim_text uname) pwd ≡ ok a)
        × (a.id ≡ id)
        × (a.admin ≡ (id == 1))
  unfolding login create_user
  signup-login enabled default_language users added id email uname pwd lang theme done =
      let (h, hashed, fresh, made) =
        signup-added enabled default_language users added id email uname pwd lang theme done in
      let a : Account = record {
        id = id;
        name = trim_text uname;
        email = email;
        password = h;
        preferred_language = or_default default_language lang;
        preferred_theme = or_dark theme;
        generated = false;
        verified_email = false;
        admin = id == 1;
        proposer = id == 1;
      } in
      let appended : users ++ (a ∷ []) ≡ added = ground (arith, hashed, made) in
      let found : find_account (has_name lib (trim_text uname)) added ≡ some a =
        ap (λ l. find_account (has_name lib (trim_text uname)) l) (sym appended)
        ∙ find_account-append (has_name lib (trim_text uname)) users a fresh
            (laws.same_lower_refl (trim_text uname)) in
      let accepted : lib.compare_hash a.password pwd ≡ Comparison.matches =
        laws.hash_matches pwd h hashed in
      (a, ground (arith, found, accepted), refl, refl)
