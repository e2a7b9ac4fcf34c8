-- ===== src/Account/Password.antt =====
-- Signing up, logging in and passwords: sudoapi/auth.go and sudoapi/user.go over
-- domain/user/userpg/user.go. No call of the database fails here; bcrypt, govalidator and the
-- database's lower are parameters.
use Prim.Native.String.{len}
use kilonova.Prelude.{
  ℕ, ◌≡◌, Bool, true, false, not, ◌||◌, Option, none, some, List, [], ◌∷◌, ◌++◌, String, ltb, ◌==◌,
  str_eq, if◌then◌else◌, any,
}
use kilonova.Prelude.Text.{trim_text}
use kilonova.Status.{
  GoError, plain, wrapped, Result, ok, err, statusf, guard, ◌>>◌, ◌>>=◌, map_err, err_not_found,
  err_feature_disabled,
}
use kilonova.Account.Username.{valid_username}

pub data Theme : Type 0 where
  none_given light dark : Theme

-- A row of the users table.
pub record Account : Type 0 where
  pub id : ℕ
  pub name : String
  pub email : String
  pub password : String
  pub preferred_language : String
  pub preferred_theme : Theme
  pub generated : Bool
  pub verified_email : Bool
  pub admin : Bool
  pub proposer : Bool

pub data Comparison : Type 0 where
  matches mismatched failed : Comparison

-- bcrypt.GenerateFromPassword (with the salt it draws) and CompareHashAndPassword, the database's
-- comparison of names or addresses by lower, and govalidator.IsExistingEmail.
pub record Libraries : Type 0 where
  pub hash : String → Result String
  pub compare_hash : String → String → Comparison
  pub same_lower : String → String → Bool
  pub is_existing_email : String → Bool

-- What bcrypt hashes, it hashes to a text that is not empty and that the password
-- matches; lower of equal texts is equal.
pub record LibraryLaws (lib : Libraries) : Type 0 where
  pub hash_some : (p h : String) → lib.hash p ≡ ok h → str_eq h "" ≡ false
  pub hash_matches : (p h : String) → lib.hash p ≡ ok h → lib.compare_hash h p ≡ Comparison.matches
  pub same_lower_refl : (s : String) → lib.same_lower s s ≡ true

-- BaseAPI.CheckValidPassword
unfoldable pub check_valid_password : String → Result (Unit {0})
unfolding statusf
check_valid_password pwd =
    if ltb (len pwd) 6 || ltb 72 (len pwd)
    then err (statusf 400 "Invalid password length.")
    else ok tt

-- ErrUnknownError
abbrev pub err_unknown_error : GoError
err_unknown_error = plain "unknown error occured"

abbrev pub invalid_login : GoError
unfolding statusf
invalid_login = statusf 400 "Invalid login details"

-- userRepo.User: the first row with the property.
abbrev pub find_account : (Account → Bool) → List Account → Option Account
find_account p [] = none
find_account p (a ∷ rest) = if p a then some a else find_account p rest

abbrev pub set_password : ℕ → String → List Account → List Account
set_password uid hash [] = []
set_password uid hash (a ∷ rest) =
    (if a.id == uid then record a { password = hash } else a) ∷ set_password uid hash rest

-- `lang` and `theme` after their defaults.
abbrev pub or_default : String → String → String
or_default default_language lang = if str_eq lang "" then default_language else lang

abbrev pub or_dark : Theme → Theme
or_dark Theme.none_given = Theme.dark
or_dark Theme.light = Theme.light
or_dark Theme.dark = Theme.dark

module _ (lib : Libraries) where
  abbrev pub has_name : String → Account → Bool
  has_name name a = lib.same_lower a.name name

  abbrev pub has_email : String → Account → Bool
  has_email email a = lib.same_lower a.email email

  -- The comparison in Login.
  abbrev pub check_login : String → Account → Result Account
  check_login pwd a = elim (lib.compare_hash a.password pwd) [
    | Comparison.matches ↦ ok a
    | Comparison.mismatched ↦ err invalid_login
    | Comparison.failed ↦ err err_unknown_error
  ]

  unfoldable pub login : List Account → String → String → Result Account
  unfolding statusf invalid_login
  login users uname pwd = elim (find_account (has_name uname) users) [
    | some a ↦ check_login pwd a
    | none ↦ elim (find_account (has_email uname) users) [
      | some a ↦ check_login pwd a
      | none ↦ err invalid_login
    ]
  ]

  unfoldable pub verify_user_password : List Account → ℕ → String → Result (Unit {0})
  unfolding statusf err_not_found
  verify_user_password users uid pwd = elim (find_account (λ a. a.id == uid) users) [
    | none ↦ err (wrapped "user not found: %w" err_not_found)
    | some a ↦
        if str_eq a.password ""
        then err (wrapped "user not found: %w" err_not_found)
        else elim (lib.compare_hash a.password pwd) [
          | Comparison.matches ↦ ok tt
          | Comparison.mismatched ↦ err (statusf 400 "Invalid password")
          | Comparison.failed ↦ err err_unknown_error
        ]
  ]

  unfoldable pub update_user_password : List Account → ℕ → String → Result (List Account)
  unfolding check_valid_password
  update_user_password users uid pwd = check_valid_password pwd >>= λ u.
      map_err (wrapped "couldn't generate hash: %w") (lib.hash pwd) >>= λ hash.
      ok (set_password uid hash users)

  -- BaseAPI.createUser for the id that the database gives; the first account is made an administrator.
  unfoldable pub create_user :
      List Account → ℕ → String → String → String → String → Theme → Bool → Result (List Account)
  create_user users id username email password lang theme generated = lib.hash password >>= λ hash.
      ok (
        users
        ++ (record {
          id = id;
          name = username;
          email = email;
          password = hash;
          preferred_language = lang;
          preferred_theme = theme;
          generated = generated;
          verified_email = generated;
          admin = id == 1;
          proposer = id == 1;
        }
            ∷ []))

  -- userRepo.UserExists
  abbrev pub user_exists : List Account → String → String → Bool
  user_exists users name email = any (has_name name) users || any (has_email email) users

  -- BaseAPI.Signup up to the log entry and the e-mail.
  unfoldable pub signup :
      Bool
      → String
      → List Account
      → ℕ
      → String
      → String
      → String
      → String
      → Theme
      → Result (List Account)
  unfolding statusf err_feature_disabled trim_text valid_username check_valid_password create_user
  signup enabled default_language users id email uname_given pwd lang theme =
      let uname = trim_text uname_given in
      guard enabled err_feature_disabled
      >> valid_username uname
      >> check_valid_password pwd
      >> guard (str_eq lang "" || str_eq lang "en" || str_eq lang "ro")
          (statusf 400 "Invalid language.")
      >> guard (lib.is_existing_email email) (statusf 400 "Invalid email.")
      >> guard (not (user_exists users uname email))
          (statusf 400 "User matching email or username already exists!")
      >> map_err (λ e. plain "couldn't create user")
          (create_user users id uname email pwd (or_default default_language lang) (or_dark theme)
            false)
