-- ===== src/Contest/Staff/Roles.antt =====
-- The roles that adding a contest's staff and copying a contest's staff leave
-- (AddContestEditor, AddContestTester and CloneContest of sudoapi/contest.go).
use kilonova.Prelude.{
  ℕ, ◌≡◌, refl, ap, ◌∙◌, inl, inr, true, false, not, ◌&&◌, Option, none, some, List, [], ◌∷◌, ◌==◌,
  if◌then◌else◌, arith, Bool-cases, contains,
}
use kilonova.Status.{Result, ok}
use kilonova.User.{UserBrief}
use kilonova.Contest.Staff.{
  AccessType, editor, viewer, AccessRow, AccessDb, is_row, role_of, without_rows, has_row,
  remove_access, add_access, wrap_fault, add_contest_staff, is_author, clone_staff, clone_access,
  ids_of,
}

role_of-without_rows :
    (contest uid : ℕ) (rows : List AccessRow)
    → role_of contest uid (without_rows contest uid rows) ≡ none
unfolding role_of without_rows
role_of-without_rows contest uid [] = refl
role_of-without_rows contest uid (row ∷ rows) =
    let ih = role_of-without_rows contest uid rows in ground arith

is_row-other :
    (contest uid v : ℕ) (row : AccessRow)
    → (v == uid) ≡ false
    → is_row contest uid row ≡ true
    → is_row contest v row ≡ false
unfolding is_row
is_row-other contest uid v row other h = ground arith

role_of-without_rows-other :
    (contest uid v : ℕ) (rows : List AccessRow)
    → (v == uid) ≡ false
    → role_of contest v (without_rows contest uid rows) ≡ role_of contest v rows
unfolding role_of without_rows
role_of-without_rows-other contest uid v [] other = refl
role_of-without_rows-other contest uid v (row ∷ rows) other =
    let ih = role_of-without_rows-other contest uid v rows other in
    let differs = is_row-other contest uid v row other in ground arith

role_of-added :
    (contest uid v : ℕ) (role : AccessType) (rows : List AccessRow)
    → role_of contest v (
        record { contest_id = contest; user_id = uid; access = role }
        ∷ without_rows contest uid rows)
      ≡ (if v == uid then some role else role_of contest v rows)
unfolding role_of is_row
role_of-added contest uid v role rows = elim (Bool-cases (v == uid)) [
  | inl same ↦ ground arith
  | inr other ↦ let kept = role_of-without_rows-other contest uid v rows other in ground arith
]

add_contest_staff-ok :
    (db : AccessDb) (role : AccessType) (contest uid : ℕ) (rows : List AccessRow)
    → db.delete_fault uid ≡ none
    → db.insert_fault uid ≡ none
    → add_contest_staff db role contest uid rows ≡ (
      record { contest_id = contest; user_id = uid; access = role } ∷ without_rows contest uid rows,
      ok tt,
    )
unfolding add_contest_staff remove_access add_access wrap_fault has_row
add_contest_staff-ok db role contest uid rows deletes inserts =
    let free = role_of-without_rows contest uid rows in ground arith

add_contest_staff-role :
    (db : AccessDb) (role : AccessType) (contest uid v : ℕ) (rows : List AccessRow)
    → (add_contest_staff db role contest uid rows).1 ≡ ok tt
    → role_of contest v (add_contest_staff db role contest uid rows).0
      ≡ (if v == uid then some role else role_of contest v rows)
unfolding add_contest_staff remove_access add_access wrap_fault has_row
add_contest_staff-role db role contest uid v rows h =
    let free = role_of-without_rows contest uid rows in
    let added = role_of-added contest uid v role rows in ground arith

clone_staff-nobody :
    (db : AccessDb) (role : AccessType) (author : Option UserBrief) (contest : ℕ)
    (rows : List AccessRow)
    → clone_staff db role author contest [] rows ≡ (rows, ok tt)
unfolding clone_staff
clone_staff-nobody db role author contest rows = refl

clone_staff-skips :
    (db : AccessDb) (role : AccessType) (author : Option UserBrief) (contest uid : ℕ)
    (uids : List ℕ) (rows : List AccessRow)
    → is_author author uid ≡ true
    → clone_staff db role author contest (uid ∷ uids) rows
      ≡ clone_staff db role author contest uids rows
unfolding clone_staff
clone_staff-skips db role author contest uid uids rows h = simp (h)

clone_staff-adds :
    (db : AccessDb) (role : AccessType) (author : Option UserBrief) (contest uid : ℕ)
    (uids : List ℕ) (rows : List AccessRow)
    → is_author author uid ≡ false
    → (clone_staff db role author contest (uid ∷ uids) rows).1 ≡ ok tt
    → ((add_contest_staff db role contest uid rows).1 ≡ ok tt)
      × (clone_staff db role author contest (uid ∷ uids) rows
          ≡ clone_staff db role author contest uids (add_contest_staff db role contest uid rows).0)
unfolding clone_staff
clone_staff-adds db role author contest uid uids rows h done = (ground arith, ground arith)

is_author-equal :
    (author : Option UserBrief) (uid v : ℕ)
    → (uid == v) ≡ true
    → is_author author uid ≡ is_author author v
unfolding is_author
is_author-equal author uid v h = ground arith

clone_staff-role :
    (db : AccessDb) (role : AccessType) (author : Option UserBrief) (contest : ℕ) (uids : List ℕ)
    (v : ℕ) (rows : List AccessRow)
    → (clone_staff db role author contest uids rows).1 ≡ ok tt
    → role_of contest v (clone_staff db role author contest uids rows).0
      ≡ (if contains uids v && not (is_author author v) then some role else role_of contest v rows)
clone_staff-role db role author contest [] v rows h =
    ap (λ (r : List AccessRow × Result (Unit {0})). role_of contest v r.0)
      (clone_staff-nobody db role author contest rows)
clone_staff-role db role author contest (uid ∷ uids) v rows h =
    elim (Bool-cases (is_author author uid)) [
      | inl skipped ↦
          let same = clone_staff-skips db role author contest uid uids rows skipped in
          let ih = clone_staff-role db role author contest uids v rows in
          let equal = is_author-equal author uid v in ground arith
      | inr kept ↦
          let (first, same) = clone_staff-adds db role author contest uid uids rows kept h in
          let rest = (add_contest_staff db role contest uid rows).0 in
          let ih = clone_staff-role db role author contest uids v rest in
          let added = add_contest_staff-role db role contest uid v rows first in
          let equal = is_author-equal author uid v in ground arith
    ]

clone_staff-ok :
    (db : AccessDb) (role : AccessType) (author : Option UserBrief) (contest : ℕ) (uids : List ℕ)
    (rows : List AccessRow)
    → ((u : ℕ) → db.delete_fault u ≡ none)
    → ((u : ℕ) → db.insert_fault u ≡ none)
    → (clone_staff db role author contest uids rows).1 ≡ ok tt
unfolding clone_staff
clone_staff-ok db role author contest [] rows deletes inserts = refl
clone_staff-ok db role author contest (uid ∷ uids) rows deletes inserts =
    let skipped = clone_staff-ok db role author contest uids rows deletes inserts in
    let rest = (add_contest_staff db role contest uid rows).0 in
    let continued = clone_staff-ok db role author contest uids rest deletes inserts in
    let added = add_contest_staff-ok db role contest uid rows (deletes uid) (inserts uid) in
    ground arith

-- The role a user has in the copy: a tester's, an editor's, or the one he had before. The author
-- of the copy keeps what creating it gave him.
unfoldable pub cloned_role :
    Option UserBrief → List UserBrief → List UserBrief → ℕ → Option AccessType → Option AccessType
cloned_role author editors testers v before =
    if is_author author v
    then before
    else if contains (ids_of testers) v
    then some viewer
    else if contains (ids_of editors) v
    then some editor
    else before

clone_access-parts :
    (db : AccessDb) (author : Option UserBrief) (contest : ℕ) (editors testers : List UserBrief)
    (rows : List AccessRow)
    → (clone_staff db editor author contest (ids_of editors) rows).1 ≡ ok tt
    → clone_access db author contest editors testers rows
      ≡ clone_staff db viewer author contest
          (ids_of testers)
          (clone_staff db editor author contest (ids_of editors) rows).0
unfolding clone_access
clone_access-parts db author contest editors testers rows h = ground arith

-- When no write to the table fails, copying a contest's staff succeeds: no insertion meets a row that
-- is there already. In the copy a tester of the contest is a tester, any other editor is an editor,
-- and everybody else, as well as the author of the copy, has the role he had before.
pub clone_access-roles :
    (db : AccessDb) (author : Option UserBrief) (contest : ℕ) (editors testers : List UserBrief)
    (rows : List AccessRow) (v : ℕ)
    → ((u : ℕ) → db.delete_fault u ≡ none)
    → ((u : ℕ) → db.insert_fault u ≡ none)
    → ((clone_access db author contest editors testers rows).1 ≡ ok tt)
      × (role_of contest v (clone_access db author contest editors testers rows).0
          ≡ cloned_role author editors testers v (role_of contest v rows))
unfolding cloned_role
clone_access-roles db author contest editors testers rows v deletes inserts =
    let first = clone_staff-ok db editor author contest (ids_of editors) rows deletes inserts in
    let rest = (clone_staff db editor author contest (ids_of editors) rows).0 in
    let second = clone_staff-ok db viewer author contest (ids_of testers) rest deletes inserts in
    let parts = clone_access-parts db author contest editors testers rows first in
    let edits = clone_staff-role db editor author contest (ids_of editors) v rows first in
    let tests = clone_staff-role db viewer author contest (ids_of testers) v rest second in
    (ap (λ (r : List AccessRow × Result (Unit {0})). r.1) parts ∙ second, ground arith)
