-- ===== src/Examples/Tables.antt =====
-- The theorems on tables of access and of ordered children at concrete tables.
use kilonova.Prelude.{◌≡◌, refl, true, none, some, [], ◌∷◌, List}
use kilonova.Status.{plain, ok}
use kilonova.User.{UserBrief}
use kilonova.Contest.Staff.{
  editor, viewer, AccessRow, AccessDb, clone_access, role_of, ids_of, is_author,
}
use kilonova.Contest.Staff.Roles.{clone_access-roles, cloned_role}
use kilonova.Query.Associations.{Association, AssociationDb, update_many_to_many, children_of}
use kilonova.Query.Associations.Copy.{update_many_to_many-children, is_distinct}
use kilonova.Examples.Data.{ana, bogdan}

abbrev access_db : AccessDb
access_db = record {
  delete_fault = λ u. none;
  insert_fault = λ u. none;
  duplicate_key = plain "duplicate key value violates unique constraint";
}

abbrev carla : UserBrief
carla = record ana { id = 9; name = "carla"; display_name = "Carla" }

-- Ana has created contest 4 as a copy of contest 3, which Ana and Bogdan edit.
abbrev access_rows : List AccessRow
access_rows =
    record { contest_id = 4; user_id = 7; access = editor }
    ∷ record { contest_id = 3; user_id = 8; access = editor }
    ∷ record { contest_id = 3; user_id = 7; access = editor }
    ∷ []

clone_access-roles_example :
    ((clone_access access_db
        (some ana)
        4
        (ana ∷ bogdan ∷ [])
        (ana ∷ carla ∷ bogdan ∷ [])
        access_rows).1
      ≡ ok tt)
    × (role_of 4 8
          (clone_access access_db
            (some ana)
            4
            (ana ∷ bogdan ∷ [])
            (ana ∷ carla ∷ bogdan ∷ [])
            access_rows).0
        ≡ some viewer)
unfolding cloned_role is_author ids_of
clone_access-roles_example =
    clone_access-roles access_db (some ana) 4 (ana ∷ bogdan ∷ []) (ana ∷ carla ∷ bogdan ∷ [])
      access_rows 8 (λ u. refl) (λ u. refl)

abbrev association_db : AssociationDb
association_db = record {
  delete_fault = none;
  copy_fault = none;
  duplicate_key = plain "duplicate key value violates unique constraint";
}

abbrev problem_rows : List Association
problem_rows =
    record { parent = 3; child = 11; position = 1 }
    ∷ record { parent = 4; child = 11; position = 0 }
    ∷ record { parent = 3; child = 10; position = 0 }
    ∷ []

update_many_to_many-children_example :
    ((update_many_to_many association_db 3 (12 ∷ 10 ∷ 11 ∷ []) true problem_rows).1 ≡ ok tt)
    × (children_of 3 (update_many_to_many association_db 3 (12 ∷ 10 ∷ 11 ∷ []) true problem_rows).0
        ≡ 12 ∷ 10 ∷ 11 ∷ [])
unfolding is_distinct
update_many_to_many-children_example =
    update_many_to_many-children association_db 3 3 (12 ∷ 10 ∷ 11 ∷ []) problem_rows refl refl
