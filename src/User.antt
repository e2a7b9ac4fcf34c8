-- ===== src/User.antt =====
-- Users as the rest of the program sees them (user.go). A nil pointer is `none`; ids are the
-- database's serial numbers, and 0 stands for nobody.
use kilonova.Prelude.{ℕ, Bool, false, not, ◌||◌, Option, none, some, String, ◌==◌}

pub record UserBrief : Type 0 where
  pub id : ℕ
  pub name : String
  pub admin : Bool
  pub proposer : Bool
  pub display_name : String
  pub generated : Bool
  pub discord_id : Option String

-- The fields of UserFull that the modelled code reads.
pub record UserFull : Type 0 where
  pub user_brief : UserBrief
  pub open user_brief use *
  pub verified_email : Bool

unfoldable pub brief : Option UserFull → Option UserBrief
brief none = none
brief (some u) = some u.user_brief

unfoldable pub is_authed : Option UserBrief → Bool
is_authed none = false
is_authed (some u) = not (u.id == 0)

unfoldable pub is_admin : Option UserBrief → Bool
is_admin none = false
is_admin (some u) = elim (not (u.id == 0)) [ Bool.false ↦ false | Bool.true ↦ u.admin ]

unfoldable pub is_proposer : Option UserBrief → Bool
is_proposer none = false
is_proposer (some u) = elim (not (u.id == 0)) [
  | Bool.false ↦ false
  | Bool.true ↦ u.admin || u.proposer
]

-- `userID := 0; if user != nil { userID = user.ID }`.
unfoldable pub user_id_or_zero : Option UserBrief → ℕ
user_id_or_zero none = 0
user_id_or_zero (some u) = u.id
