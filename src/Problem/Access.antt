-- ===== src/Problem/Access.antt =====
-- Who may see and edit a problem or a blog post (sudoapi/filters.go). The SQL functions that decide
-- on a problem's access list are parameters.
use kilonova.Prelude.{
  ℕ, ◌≡◌, Bool, true, false, not, ◌&&◌, Option, none, some, arith, ◌==◌, if◌then◌else◌,
}
use kilonova.Status.{Result}
use kilonova.User.{UserBrief, is_authed, is_admin, user_id_or_zero}
use kilonova.Contest.Access.{or_false}
use kilonova.Problem.{Problem}

pub record ProblemDb : Type 0 where
  pub is_problem_editor : ℕ → ℕ → Result Bool
  pub is_problem_viewer : ℕ → ℕ → Result Bool
  pub is_full_problem_viewer : ℕ → ℕ → Result Bool
  -- flags.LockdownProblemEditor
  pub lockdown_problem_editor : Bool

pub record BlogPost : Type 0 where
  pub id : ℕ
  pub author_id : ℕ
  pub visible : Bool

unfoldable pub is_blog_post_visible : Option UserBrief → Option BlogPost → Bool
is_blog_post_visible user none = false
is_blog_post_visible user (some post) =
    if post.visible
    then true
    else if is_admin user
    then true
    else user_id_or_zero user == post.author_id

unfoldable pub is_blog_post_editor : Option UserBrief → Option BlogPost → Bool
is_blog_post_editor user post =
    if not (is_authed user)
    then false
    else if is_admin user
    then true
    else elim post [ none ↦ false | some p ↦ p.author_id == user_id_or_zero user ]

module _ (db : ProblemDb) {D : Type 0} where
  unfoldable pub is_problem_editor : Option UserBrief → Option (Problem D) → Bool
  is_problem_editor user problem =
      if not (is_authed user) then false else if is_admin user then true else elim problem [
        | none ↦ false
        | some pb ↦
            if db.lockdown_problem_editor && pb.visible
            then false
            else or_false (db.is_problem_editor pb.id (user_id_or_zero user))
      ]

  unfoldable pub is_problem_visible : Option UserBrief → Option (Problem D) → Bool
  is_problem_visible user none = false
  is_problem_visible user (some pb) =
      if pb.visible then true else or_false (db.is_problem_viewer pb.id (user_id_or_zero user))

  unfoldable pub is_problem_fully_visible : Option UserBrief → Option (Problem D) → Bool
  is_problem_fully_visible user none = false
  is_problem_fully_visible user (some pb) =
      if pb.visible then true else or_false (db.is_full_problem_viewer pb.id (user_id_or_zero user))

  unfoldable pub can_view_tests : Option UserBrief → Option (Problem D) → Bool
  unfolding is_problem_fully_visible is_problem_editor
  can_view_tests user none = false
  can_view_tests user (some pb) =
      if not (is_authed user)
      then false
      else if pb.visible_tests && is_problem_fully_visible user (some pb)
      then true
      else is_problem_editor user (some pb)

-- Whoever may edit a blog post may see it.
pub blog_editor_sees :
    (user : Option UserBrief) (post : BlogPost)
    → is_blog_post_editor user (some post) ≡ true
    → is_blog_post_visible user (some post) ≡ true
unfolding is_blog_post_editor is_blog_post_visible
blog_editor_sees user post h = ground arith

-- While published problems are locked down, the tests of a published problem whose tests are not
-- public are shown to admins alone.
pub lockdown_tests :
    (db : ProblemDb) {D : Type 0} (user : Option UserBrief) (pb : Problem D)
    → db.lockdown_problem_editor ≡ true
    → pb.visible ≡ true
    → pb.visible_tests ≡ false
    → can_view_tests db user (some pb) ≡ is_admin user
unfolding can_view_tests is_admin is_authed
lockdown_tests db none pb l v t = ground arith
lockdown_tests db (some u) pb l v t = ground arith
