-- ===== src/Contest.antt =====
-- Contests: the data of contest.go and its methods. Instants are natural numbers; an operation
-- reads the clock once, so all of its tests see the same `now`. A nil contest is `none`.
pub mod Access
pub mod Creation
pub mod Staff
pub mod Window
pub mod Registration
use kilonova.Prelude.{
  ℕ, Bool, true, false, not, ◌&&◌, ◌||◌, Option, none, some, List, String, ltb, leb, ◌==◌,
  if◌then◌else◌, any,
}
use kilonova.Prelude.Int.{ℤ}
use kilonova.User.{UserBrief, is_authed, is_admin, user_id_or_zero}

pub data LeaderboardType : Type 0 where
  unset classic icpc : LeaderboardType

pub data ContestType : Type 0 where
  none_given official virtual : ContestType
  other : String → ContestType

pub record Contest : Type 0 where
  pub id : ℕ
  pub created_at : ℕ
  pub name : String
  pub editors : List UserBrief
  pub testers : List UserBrief
  pub description : String
  pub public_join : Bool
  pub register_during_contest : Bool
  pub visible : Bool
  pub public_leaderboard : Bool
  pub leaderboard_style : LeaderboardType
  pub leaderboard_freeze : Option ℕ
  pub icpc_submission_penalty : ℕ
  pub leaderboard_advanced_filter : Bool
  pub submission_cooldown : ℕ
  pub question_cooldown : ℕ
  pub start_time : ℕ
  pub end_time : ℕ
  pub per_user_time : ℕ
  pub contest_type : ContestType
  pub ip_management_enabled : Bool
  pub whitelist_enabled : Bool
  pub max_subs : ℤ

pub record ContestRegistration : Type 0 where
  pub created_at : ℕ
  pub contest_id : ℕ
  pub user_id : ℕ
  pub individual_start_time : Option ℕ
  pub individual_end_time : Option ℕ
  pub invitation_id : Option String

pub record ContestInvitation : Type 0 where
  pub id : String
  pub created_at : ℕ
  pub contest_id : ℕ
  pub creator_id : Option ℕ
  pub redeem_count : ℕ
  pub max_count : Option ℕ
  pub expired : Bool

unfoldable pub started : ℕ → Option Contest → Bool
started now none = false
started now (some c) = ltb c.start_time now

unfoldable pub ended : ℕ → Option Contest → Bool
ended now none = false
ended now (some c) = ltb c.end_time now

unfoldable pub running : ℕ → Option Contest → Bool
unfolding started ended
running now none = false
running now (some c) = started now (some c) && not (ended now (some c))

-- The loops `for _, editor := range c.Editors { if editor.ID == user.ID { return true } }`.
unfoldable pub has_id : ℕ → List UserBrief → Bool
has_id i us = any (λ u. u.id == i) us

unfoldable pub is_editor : Option Contest → Option UserBrief → Bool
unfolding is_authed is_admin user_id_or_zero
is_editor none user = false
is_editor (some c) user =
    if not (is_authed user)
    then false
    else if is_admin user
    then true
    else has_id (user_id_or_zero user) c.editors

unfoldable pub is_tester : Option Contest → Option UserBrief → Bool
unfolding is_authed is_admin user_id_or_zero
is_tester none user = false
is_tester (some c) user =
    if not (is_authed user)
    then false
    else if is_admin user
    then true
    else if has_id (user_id_or_zero user) c.editors
    then true
    else has_id (user_id_or_zero user) c.testers

unfoldable pub invalid : ContestInvitation → Bool
invalid ci = ci.expired || elim ci.max_count [ none ↦ false | some m ↦ leb m ci.redeem_count ]
