-- ===== src/Submission.antt =====
-- Submissions: the data and methods of submission.go.
pub mod Visibility
pub mod Hiding
pub mod Create
use kilonova.Prelude.{
  ℕ, Bool, true, false, not, ◌&&◌, ◌||◌, Option, none, some, List, String, ◌==◌, if◌then◌else◌,
}
use kilonova.User.{UserBrief, is_authed, is_admin, user_id_or_zero}

pub data Status : Type 0 where
  none_given creating waiting working finished reevaling : Status

pub data EvalType : Type 0 where
  none_given classic icpc : EvalType
  other : String → EvalType

pub record Submission (D : Type 0) : Type 0 where
  pub id : ℕ
  pub created_at : ℕ
  pub user_id : ℕ
  pub problem_id : ℕ
  pub language : String
  pub code_size : ℕ
  pub status : Status
  pub compile_error : Option Bool
  pub compile_message : Option String
  pub contest_id : Option ℕ
  pub max_time : ℕ
  pub max_memory : ℕ
  pub score : D
  pub score_precision : ℕ
  pub score_scale : D
  pub compile_time : Option ℕ
  pub submission_type : EvalType
  pub icpc_verdict : Option String

pub record SubTest (D : Type 0) : Type 0 where
  pub id : ℕ
  pub done : Bool
  pub skipped : Bool
  pub verdict : String
  pub time : ℕ
  pub memory : ℕ
  pub percentage : D
  pub test_id : Option ℕ
  pub submission_id : ℕ
  pub visible_id : ℕ
  pub score : D

pub record SubmissionSubTask (D : Type 0) : Type 0 where
  pub id : ℕ
  pub submission_id : ℕ
  pub score : D
  pub final_percentage : Option D
  pub subtests : List ℕ

pub record SubmissionUpdate (D : Type 0) : Type 0 where
  pub status : Status
  pub score : Option D
  pub compile_error : Option Bool
  pub compile_message : Option String
  pub compile_time : Option ℕ
  pub max_time : Option ℕ
  pub max_memory : Option ℕ
  pub change_verdict : Bool
  pub icpc_verdict : Option String

pub record SubTestUpdate (D : Type 0) : Type 0 where
  pub memory : Option ℕ
  pub time : Option ℕ
  pub percentage : Option D
  pub verdict : Option String
  pub done : Option Bool
  pub skipped : Option Bool

unfoldable pub is_editor : {D : Type 0} → Option (Submission D) → Option UserBrief → Bool
is_editor none user = false
is_editor (some sub) user =
    if not (is_authed user) then false else is_admin user || user_id_or_zero user == sub.user_id

pub record SubmissionPaste (D : Type 0) : Type 0 where
  pub id : String
  pub submission : Option (Submission D)
  pub author : UserBrief

unfoldable pub paste_is_editor : {D : Type 0} → Option (SubmissionPaste D) → Option UserBrief → Bool
unfolding is_editor
paste_is_editor none user = false
paste_is_editor (some paste) user =
    if not (is_authed user)
    then false
    else is_editor paste.submission user || user_id_or_zero user == paste.author.id

-- FullSubmission.CanDelete, on the field `problem_editor` that it reads.
unfoldable pub can_delete : Bool → Option UserBrief → Bool
can_delete problem_editor user = is_admin user || problem_editor
