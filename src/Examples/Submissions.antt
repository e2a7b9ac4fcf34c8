-- ===== src/Examples/Submissions.antt =====
-- The theorems on access to source code and on sending a submission, at concrete requests.
use kilonova.Prelude.{
  ℕ, ◌+◌, ◌≤◌, ◌<◌, ◌≡◌, ◌↔◌, ◌⊎◌, ◌&&◌, refl, true, false, none, some, [], ◌∷◌, arith, length, any,
  is_value, ◌==◌, if◌then◌else◌,
}
use kilonova.Prelude.Int.{pos, is_negative, ◌-ℤ◌}
use kilonova.Status.{ok, is_ok}
use kilonova.User.{is_admin, user_id_or_zero, is_authed}
use kilonova.Contest.{is_tester, ended, has_id, running, started}
use kilonova.Contest.Access.{
  can_submit_in_contest, is_contest_visible, contest_problem, can_view_contest_problems,
  can_submit_as_contestant, registration_admits,
}
use kilonova.Problem.Access.{BlogPost, is_problem_editor, is_problem_visible}
use kilonova.Submission.{is_editor}
use kilonova.Submission.Visibility.{VisibilityDb, is_submission_visible}
use kilonova.Submission.Hiding.{
  exam_lockdown, private_source_iff, is_outside, contest_source_hidden,
}
use kilonova.Submission.Create.{
  Language, CreateDb, Store, rate_checks, create_checks, create_submission, language_check,
  place_checks, write_submission, contest_checks, remaining_submission_count, cooldown_check,
  found_contest, new_row, upload_files,
}
use kilonova.Submission.Create.Effects.{create_effects, passes}
use kilonova.Submission.Create.Limits.{rate_checks_iff, created_in_contest}
use kilonova.Examples.Data.{
  fixed_point, ana, ana_full, round_one, window_db, closed_problems, sums, sent,
}

abbrev access : VisibilityDb fixed_point
access = record {
  problem_db = closed_problems;
  max_score = λ uid pid. 0;
  whitelisted_contests = some (ok (round_one ∷ []));
  virtual_contest_count = λ uid pid. ok 1;
  contest = λ cid. ok round_one;
  sub_for_everyone = true;
  sub_for_everyone_blacklist = [];
}

abbrev private_access : VisibilityDb fixed_point
private_access = record access { sub_for_everyone = false; whitelisted_contests = none }

abbrev cpp : Language
cpp = record { internal_name = "cpp17"; default_filename = "main.cpp" }

abbrev queries : CreateDb
queries = record {
  problem_db = closed_problems;
  contest_db = window_db;
  waiting_count = λ uid. ok 0;
  recent_count = λ uid. ok 1;
  contest = λ cid. ok round_one;
  contest_problems = λ cid. ok (40 ∷ []);
  submission_count = λ cid pid uid. ok 4;
  last_submission_time = λ cid uid. ok (some 290);
  problem_languages = λ pid. ok (cpp ∷ []);
  waiting_sub_limit = 2;
  total_sub_limit = 4;
  unverified_sub_limit = 1;
  new_id = ok 501;
  init_fault = none;
}

abbrev store : Store
store = record { submissions = []; initialised = []; wakes = 0 }

abbrev post : BlogPost
post = record { id = 1; author_id = 7; visible = false }

exam_lockdown_example :
    is_submission_visible fixed_point access 300 (some sent) (some sums) (some ana) true ≡ (
      any (λ k. is_value sent.contest_id k.id) (round_one ∷ [])
      && sent.user_id == user_id_or_zero (some ana))
unfolding is_authed kilonova.Contest.is_editor has_id
exam_lockdown_example =
    exam_lockdown fixed_point access 300 sent (some sums) (some ana) (round_one ∷ []) refl refl refl

private_source_iff_example :
    (is_submission_visible fixed_point private_access 300 (some sent) (some sums) (some ana) true
      ≡ true)
    ↔ ((is_editor (some sent) (some ana) ≡ true)
        ⊎ (is_problem_editor closed_problems (some ana) (some sums) ≡ true)
        ⊎ (fixed_point.equal (private_access.max_score 7 40) (fixed_point.from_int 100) ≡ true))
unfolding is_authed is_outside
private_source_iff_example =
    private_source_iff fixed_point private_access 300 sent (some sums) (some ana) true refl refl
      refl

contest_source_hidden_example :
    is_submission_visible fixed_point access 300 (some sent) (some sums) (some ana) false ≡ false
unfolding ended kilonova.Contest.is_editor has_id is_editor is_problem_editor
contest_source_hidden_example =
    contest_source_hidden fixed_point access 300 sent (some sums) (some ana) 3 round_one false refl
      refl refl refl refl refl refl

rate_checks_iff_example :
    (rate_checks queries ana_full ≡ ok tt)
    ↔ ((0 < 2) × (1 ≤ 4) × ((ana_full.verified_email ≡ true) ⊎ (1 ≤ 1)))
rate_checks_iff_example =
    rate_checks_iff queries ana_full 0 1 refl refl (omega arith) (omega arith) (omega arith)

created_in_contest_example :
    (can_submit_in_contest window_db 300 (some ana) (some round_one) ≡ true)
    × ((is_negative round_one.max_subs ≡ true)
        ⊎ ((n : ℕ) × (m : ℕ) × (round_one.max_subs ≡ pos m)
            × (queries.submission_count 3 40 7 ≡ ok n)
            × (n < m)))
    × ((is_tester (some round_one) (some ana) ≡ true)
        ⊎ (round_one.submission_cooldown ≡ 0)
        ⊎ (queries.last_submission_time 3 7 ≡ ok none)
        ⊎ ((t : ℕ) × (queries.last_submission_time 3 7 ≡ ok (some t))
            × (t + round_one.submission_cooldown ≤ 300)))
unfolding create_submission create_checks is_problem_visible rate_checks place_checks contest_checks
    is_contest_visible is_admin can_submit_in_contest ended is_tester has_id running contest_problem
    can_view_contest_problems remaining_submission_count ◌-ℤ◌ can_submit_as_contestant
    registration_admits started cooldown_check found_contest language_check new_row upload_files
    write_submission is_authed user_id_or_zero
created_in_contest_example =
    created_in_contest queries 300 store ana_full sums (9 ∷ []) "" cpp false none "" 501 3 round_one
      refl refl

create_effects_example :
    let (store', r) =
      create_submission queries 300 store
        (some ana_full)
        (some sums)
        (9 ∷ [])
        ""
        cpp
        (some 3)
        false
        none
        "" in
    let passed = passes queries 300 (some ana_full) (some sums) (9 ∷ []) cpp (some 3) false in
    (length store'.submissions
      ≡ length store.submissions + (if passed && is_ok queries.new_id then 1 else 0))
    × (store'.wakes ≡ store.wakes + (if is_ok r then 1 else 0))
create_effects_example =
    create_effects queries 300 store (some ana_full) (some sums) (9 ∷ []) "" cpp (some 3) false none
      ""
