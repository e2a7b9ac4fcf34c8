-- ===== src/Contest/Creation.antt =====
-- Creating a contest (CreateContest of sudoapi/contest.go and db/contest.go). A failure to add the author as an editor
-- is reported with the new contest's id, which is dropped here; the row stays.
use kilonova.Prelude.{
  ℕ, ◌≡◌, refl, ◌⊎◌, inl, inr, Bool, true, false, not, Option, none, some, List, [], ◌∷◌, ◌++◌,
  String, leb, ◌<◌, if◌then◌else◌, arith, Bool-cases, str_eq, ap, sym, ◌∙◌,
}
use kilonova.Prelude.Int.{ℤ, pos, negsuc, is_negative}
use kilonova.Status.{GoError, wrapped, Result, ok, err, statusf, err_missing_required, Result-cases}
use kilonova.User.{UserBrief, is_admin, is_proposer}
use kilonova.Contest.{ContestType}

pub record ContestRow : Type 0 where
  pub id : ℕ
  pub name : String
  pub contest_type : ContestType
  pub editors : List ℕ

pub record CreationDb : Type 0 where
  -- How many contests of the last day the user edits.
  pub contest_count : ℕ → Result ℕ
  -- flags
  pub normal_user_virtual_contests : Bool
  pub normal_user_vc_limit : ℤ
  -- What the two writes report.
  pub new_id : Result ℕ
  pub editor_fault : Option GoError

unfoldable pub is_known_type : ContestType → Bool
is_known_type ContestType.none_given = true
is_known_type ContestType.official = true
is_known_type ContestType.virtual = true
is_known_type (ContestType.other t) = false

unfoldable pub created_type : UserBrief → ContestType → ContestType
created_type author ContestType.none_given = ContestType.virtual
created_type author ContestType.official =
    if is_admin (some author) then ContestType.official else ContestType.virtual
created_type author ContestType.virtual = ContestType.virtual
created_type author (ContestType.other t) = ContestType.other t

-- `cnt >= limit && limit >= 0`.
unfoldable pub limit_reached : ℤ → ℕ → Bool
limit_reached (pos limit) cnt = leb limit cnt
limit_reached (negsuc n) cnt = false

unfoldable pub may_create : CreationDb → UserBrief → Result (Unit {0})
unfolding limit_reached
may_create db author =
    if is_proposer (some author)
    then ok tt
    else if not db.normal_user_virtual_contests
    then err (statusf 403 "Creation of contests by non-proposers has been disabled")
    else elim (db.contest_count author.id) [
      | err e ↦ err (statusf 400 "You can create at most %d contests per day")
      | ok cnt ↦
          if limit_reached db.normal_user_vc_limit cnt
          then err (statusf 400 "You can create at most %d contests per day")
          else ok tt
    ]

-- The database's CreateContest refuses an empty name.
unfoldable pub inserted_id : CreationDb → String → Result ℕ
inserted_id db name = if str_eq name "" then err err_missing_required else db.new_id

unfoldable pub write_contest :
    CreationDb → List ContestRow → String → ContestType → UserBrief → List ContestRow × Result ℕ
write_contest db rows name kind author = elim (inserted_id db name) [
  | err e ↦ (rows, err (wrapped "couldn't create contest: %w" e))
  | ok id ↦
      let row : ContestRow = record { id = id; name = name; contest_type = kind; editors = [] } in
      elim db.editor_fault [
        | some e ↦ (rows ++ row ∷ [], err (wrapped "couldn't add author to contest editors: %w" e))
        | none ↦ (rows ++ record row { editors = author.id ∷ [] } ∷ [], ok id)
      ]
]

unfoldable pub create_contest :
    CreationDb
    → List ContestRow
    → String
    → ContestType
    → Option UserBrief
    → List ContestRow × Result ℕ
unfolding may_create write_contest
create_contest db rows name kind none = (rows, err err_missing_required)
create_contest db rows name kind (some author) =
    if not (is_known_type kind)
    then (rows, err (statusf 400 "Invalid contest type"))
    else elim (may_create db author) [
      | err e ↦ (rows, err e)
      | ok u ↦ write_contest db rows name (created_type author kind) author
    ]

created_type-cases :
    (author : UserBrief) (kind : ContestType)
    → is_known_type kind ≡ true
    → (created_type author kind ≡ ContestType.virtual)
      ⊎ ((created_type author kind ≡ ContestType.official) × (is_admin (some author) ≡ true))
unfolding created_type is_known_type
created_type-cases author ContestType.none_given h = inl refl
created_type-cases author ContestType.official h = ground arith
created_type-cases author ContestType.virtual h = inl refl
created_type-cases author (ContestType.other t) h = cc

below_limit :
    (limit : ℤ) (n : ℕ)
    → limit_reached limit n ≡ false
    → (is_negative limit ≡ true) ⊎ ((m : ℕ) × (limit ≡ pos m) × (n < m))
unfolding limit_reached
below_limit (pos m) n h = inr (m, refl, ground arith)
below_limit (negsuc m) n h = inl refl

may_create-cases :
    (db : CreationDb) (author : UserBrief)
    → may_create db author ≡ ok tt
    → (is_proposer (some author) ≡ true)
      ⊎ ((n : ℕ) × (db.contest_count author.id ≡ ok n)
          × ((is_negative db.normal_user_vc_limit ≡ true)
              ⊎ ((m : ℕ) × (db.normal_user_vc_limit ≡ pos m) × (n < m)))
          × (db.normal_user_virtual_contests ≡ true))
unfolding may_create
may_create-cases db author h = elim (Result-cases (db.contest_count author.id)) [
  | inl (e, q) ↦ inl (ground arith)
  | inr (n, q) ↦ elim (Bool-cases (is_proposer (some author))) [
    | inl proposer ↦ inl proposer
    | inr other ↦ inr (n, q, below_limit db.normal_user_vc_limit n (ground arith), ground arith)
  ]
]

write_contest-row :
    (db : CreationDb) (rows : List ContestRow) (name : String) (kind : ContestType)
    (author : UserBrief) (id : ℕ)
    → (write_contest db rows name kind author).1 ≡ ok id
    → (write_contest db rows name kind author).0
      ≡ rows ++ record { id = id; name = name; contest_type = kind; editors = author.id ∷ [] } ∷ []
unfolding write_contest
write_contest-row db rows name kind author id h = ground arith

create_contest-parts :
    (db : CreationDb) (rows : List ContestRow) (name : String) (kind : ContestType)
    (author : UserBrief) (id : ℕ)
    → (create_contest db rows name kind (some author)).1 ≡ ok id
    → (is_known_type kind ≡ true)
      × (may_create db author ≡ ok tt)
      × (create_contest db rows name kind (some author)
          ≡ write_contest db rows name (created_type author kind) author)
unfolding create_contest
create_contest-parts db rows name kind author id h = (ground arith, ground arith, ground arith)

-- A contest that has been created is one new row that its author edits. It is a virtual contest, or
-- an official one of an admin. Its author is a proposer, or users may create virtual contests and he
-- is under the daily limit, which a negative number switches off.
pub created_contest :
    (db : CreationDb) (rows : List ContestRow) (name : String) (kind : ContestType)
    (author : UserBrief) (id : ℕ)
    → (create_contest db rows name kind (some author)).1 ≡ ok id
    → ((create_contest db rows name kind (some author)).0
        ≡ rows
          ++ record {
            id = id;
            name = name;
            contest_type = created_type author kind;
            editors = author.id ∷ [];
          }
            ∷ [])
      × ((created_type author kind ≡ ContestType.virtual)
          ⊎ ((created_type author kind ≡ ContestType.official) × (is_admin (some author) ≡ true)))
      × ((is_proposer (some author) ≡ true)
          ⊎ ((n : ℕ) × (db.contest_count author.id ≡ ok n)
              × ((is_negative db.normal_user_vc_limit ≡ true)
                  ⊎ ((m : ℕ) × (db.normal_user_vc_limit ≡ pos m) × (n < m)))
              × (db.normal_user_virtual_contests ≡ true)))
created_contest db rows name kind author id h =
    let (known, allowed, same) = create_contest-parts db rows name kind author id h in
    (
      ap (λ (r : List ContestRow × Result ℕ). r.0) same
          ∙ write_contest-row db rows name (created_type author kind) author id
              (sym (ap (λ (r : List ContestRow × Result ℕ). r.1) same) ∙ h),
      created_type-cases author kind known,
      may_create-cases db author allowed,
    )
