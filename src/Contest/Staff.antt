-- ===== src/Contest/Staff.antt =====
-- A contest's editors and testers: AddContestEditor, AddContestTester and StripContestAccess of
-- sudoapi/contest.go over the table contest_user_access (db/access.go), and the part of
-- CloneContest that copies them. The table holds one row for a contest and a user; rows have no order.
-- The new contest's id is the one that CreateContest returned, with the author as its editor.
pub mod Roles
use kilonova.Prelude.{
  ℕ, ◌≡◌, refl, ap, sym, ◌∙◌, ◌⊎◌, inl, inr, Bool, true, false, not, ◌&&◌, Option, none, some, List,
  [], ◌∷◌, ◌==◌, String, if◌then◌else◌, arith, Bool-cases, contains, map,
}
use kilonova.Status.{GoError, wrapped, Result, ok, err}
use kilonova.User.{UserBrief}

pub data AccessType : Type 0 where
  editor viewer : AccessType

pub record AccessRow : Type 0 where
  pub contest_id : ℕ
  pub user_id : ℕ
  pub access : AccessType

-- What the database reports: a failed DELETE or INSERT, and the INSERT of a second row for a
-- contest and a user.
pub record AccessDb : Type 0 where
  pub delete_fault : ℕ → Option GoError
  pub insert_fault : ℕ → Option GoError
  pub duplicate_key : GoError

unfoldable pub is_row : ℕ → ℕ → AccessRow → Bool
is_row contest uid row = row.contest_id == contest && row.user_id == uid

unfoldable pub role_of : ℕ → ℕ → List AccessRow → Option AccessType
role_of contest uid [] = none
role_of contest uid (row ∷ rows) =
    if is_row contest uid row then some row.access else role_of contest uid rows

unfoldable pub without_rows : ℕ → ℕ → List AccessRow → List AccessRow
without_rows contest uid [] = []
without_rows contest uid (row ∷ rows) =
    let rest = without_rows contest uid rows in if is_row contest uid row then rest else row ∷ rest

unfoldable pub has_row : Option AccessType → Bool
has_row none = false
has_row (some role) = true

unfoldable pub remove_access :
    AccessDb → ℕ → ℕ → List AccessRow → List AccessRow × Result (Unit {0})
unfolding without_rows
remove_access db contest uid rows = elim (db.delete_fault uid) [
  | some e ↦ (rows, err e)
  | none ↦ (without_rows contest uid rows, ok tt)
]

unfoldable pub add_access :
    AccessDb → AccessType → ℕ → ℕ → List AccessRow → List AccessRow × Result (Unit {0})
unfolding role_of has_row
add_access db role contest uid rows = elim (db.insert_fault uid) [
  | some e ↦ (rows, err e)
  | none ↦
      if has_row (role_of contest uid rows)
      then (rows, err db.duplicate_key)
      else (record { contest_id = contest; user_id = uid; access = role } ∷ rows, ok tt)
]

unfoldable pub strip_fault_text : AccessType → String
strip_fault_text editor = "couldn't add contest editor: sanity strip failed: %w"
strip_fault_text viewer = "couldn't add contest tester: sanity strip failed: %w"

unfoldable pub add_fault_text : AccessType → String
add_fault_text editor = "couldn't add contest editor: %w"
add_fault_text viewer = "couldn't add contest tester: %w"

unfoldable pub clone_fault_text : AccessType → String
clone_fault_text editor = "couldn't clone contest editors: %w"
clone_fault_text viewer = "couldn't clone contest testers: %w"

unfoldable pub wrap_fault : String → Result (Unit {0}) → Result (Unit {0})
wrap_fault text (err e) = err (wrapped text e)
wrap_fault text (ok u) = ok u

unfoldable pub strip_contest_access :
    AccessDb → ℕ → ℕ → List AccessRow → List AccessRow × Result (Unit {0})
unfolding remove_access wrap_fault
strip_contest_access db contest uid rows =
    let (rest, result) = remove_access db contest uid rows in
    (rest, wrap_fault "couldn't strip contest access: %w" result)

-- AddContestEditor and AddContestTester.
unfoldable pub add_contest_staff :
    AccessDb → AccessType → ℕ → ℕ → List AccessRow → List AccessRow × Result (Unit {0})
unfolding remove_access add_access strip_fault_text add_fault_text wrap_fault
add_contest_staff db role contest uid rows =
    let (rest, removed) = remove_access db contest uid rows in
    elim removed [
      | err e ↦ (rest, err (wrapped (strip_fault_text role) e))
      | ok u ↦
          let (added, result) = add_access db role contest uid rest in
          (added, wrap_fault (add_fault_text role) result)
    ]

-- `author != nil && editor.ID == author.ID`.
unfoldable pub is_author : Option UserBrief → ℕ → Bool
is_author none uid = false
is_author (some author) uid = uid == author.id

-- `for _, editor := range contest.Editors`, and the same loop over the testers.
unfoldable pub clone_staff :
    AccessDb
    → AccessType
    → Option UserBrief
    → ℕ
    → List ℕ
    → List AccessRow
    → List AccessRow × Result (Unit {0})
unfolding add_contest_staff is_author clone_fault_text
clone_staff db role author contest [] rows = (rows, ok tt)
clone_staff db role author contest (uid ∷ uids) rows =
    let (added, result) = add_contest_staff db role contest uid rows in
    let skipped = clone_staff db role author contest uids rows in
    let continued = clone_staff db role author contest uids added in
    if is_author author uid
    then skipped
    else elim result [ err e ↦ (added, err (wrapped (clone_fault_text role) e)) | ok u ↦ continued ]

-- The ids that a loop over users reads.
unfoldable pub ids_of : List UserBrief → List ℕ
ids_of users = map (λ (u : UserBrief). u.id) users

unfoldable pub clone_access :
    AccessDb
    → Option UserBrief
    → ℕ
    → List UserBrief
    → List UserBrief
    → List AccessRow
    → List AccessRow × Result (Unit {0})
unfolding clone_staff ids_of
clone_access db author contest editors testers rows =
    let (cloned, result) = clone_staff db editor author contest (ids_of editors) rows in
    elim result [
      | err e ↦ (cloned, err e)
      | ok u ↦ clone_staff db viewer author contest (ids_of testers) cloned
    ]
