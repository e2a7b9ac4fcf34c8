-- ===== src/Account/Username.antt =====
-- Changing a user's name: UpdateUsername of sudoapi/user.go and domain/user/username.go. The mutex makes
-- one change wait for the other. Lengths and characters are those of ASCII names.
use Prim.Native.String.{len}
use kilonova.Prelude.{
  ℕ, ◌+◌, ◌*◌, Bool, true, false, not, ◌&&◌, ◌||◌, Option, none, some, List, [], ◌∷◌, String, ltb,
  leb, ◌==◌, if◌then◌else◌,
}
use kilonova.Prelude.Text.{contains_text}
use kilonova.Status.{wrapped, Result, ok, err, statusf, guard, ◌>>◌}

-- A character of the class [a-zA-Z0-9._-].
unfoldable pub is_name_char : String → Bool
is_name_char c = contains_text "abcdefghijklmnopqrstuvwxyzABCDEFGHIJKLMNOPQRSTUVWXYZ0123456789._-" c

unfoldable pub all_name_chars : String → Bool
unfolding is_name_char
all_name_chars String.[] = true
all_name_chars (String.◌∷◌ c s) = is_name_char (String.◌∷◌ c String.[]) && all_name_chars s

unfoldable pub valid_username : String → Result (Unit {0})
unfolding all_name_chars statusf
valid_username name =
    if not (all_name_chars name && ltb 0 (len name))
    then err
        (statusf 400 "Username must contain only letters, digits, underlines, dashes and dots.")
    else if not (leb 3 (len name) && leb (len name) 24)
    then err (statusf 400 "Username must be between 3 and 24 characters long.")
    else ok tt

-- What UpdateUsername reads: the flag, the clock in seconds, the last change of the user's name (their
-- creation when there was none), the user that UserBriefByName finds, and who held the name before.
pub record NameChange : Type 0 where
  pub can_change_names : Bool
  pub now : ℕ
  pub created_at : ℕ
  pub last_change : Result ℕ
  -- A user is found, without an error.
  pub name_taken : Bool
  -- The query of NameUsedBefore: how often the name stands in the history.
  pub past_uses : Result ℕ
  -- `none` for an error that is not a cancelled context.
  pub holders : Option (List ℕ)

abbrev pub two_weeks : ℕ
two_weeks = 14 * 24 * 3600

-- The user ids after `if err != nil { userIDs = []int{-1, -2} }` are those of the target alone.
abbrev pub only_target : ℕ → Option (List ℕ) → Bool
only_target target none = false
only_target target (some []) = true
only_target target (some (id ∷ [])) = id == target
only_target target (some (id ∷ id2 ∷ ids)) = false

-- `if !fromAdmin { ... }`
unfoldable pub check_last_change : NameChange → Bool → Result (Unit {0})
unfolding statusf
check_last_change ch true = ok tt
check_last_change ch false = elim ch.last_change [
  | err e ↦ err (wrapped "couldn't get last change date: %w" e)
  | ok at ↦
      if not (at == ch.created_at) && ltb ch.now (at + two_weeks)
      then err (
          statusf 400
            "You can only change your username at most once every 14 days. You may change it again on %s")
      else ok tt
]

-- NameUsedBefore, whose answer UpdateUsername uses also beside an error.
unfoldable pub name_used_before : Result ℕ → Bool
name_used_before (err e) = true
name_used_before (ok cnt) = ltb 0 cnt

-- `if checkUsed { ... }`
unfoldable pub check_used_name : NameChange → ℕ → Bool → Result (Unit {0})
unfolding statusf name_used_before
check_used_name ch target false = ok tt
check_used_name ch target true =
    if name_used_before ch.past_uses && not (only_target target ch.holders)
    then err (
        statusf 400
          "New name must have never been used by anyone else. Contact us on Discord if you want to take the name for yourself.")
    else ok tt

-- UpdateUsername up to its updateUser, which then writes the name and clears NameChangeRequired.
unfoldable pub update_username : NameChange → ℕ → String → Bool → Bool → Result (Unit {0})
unfolding statusf valid_username check_last_change check_used_name
update_username ch target new_name check_used from_admin =
    guard (ch.can_change_names || from_admin)
      (statusf 401 "Username changes have been disabled by administrator")
    >> valid_username new_name
    >> check_last_change ch from_admin
    >> guard (not ch.name_taken) (statusf 400 "Name must not be used by anyone currently")
    >> check_used_name ch target check_used

-- Whether a name may be taken, in one formula.
abbrev pub may_take : NameChange → ℕ → String → Bool → Bool → Bool
unfolding all_name_chars
may_take ch target new_name check_used from_admin =
    (ch.can_change_names || from_admin)
    && (all_name_chars new_name && leb 3 (len new_name) && leb (len new_name) 24)
    && (from_admin || waited ch ch.last_change)
    && not ch.name_taken
    && (not check_used || unused ch.past_uses || only_target target ch.holders)
  where
    unused : Result ℕ → Bool
    unused (err e) = false
    unused (ok cnt) = cnt == 0

    waited : NameChange → Result ℕ → Bool
    waited ch (err e) = false
    waited ch (ok at) = at == ch.created_at || leb (at + two_weeks) ch.now
