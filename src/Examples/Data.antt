-- ===== src/Examples/Data.antt =====
-- The data of the examples: a decimal type, users, a contest, a problem and a submission.
use kilonova.Prelude.{
  ℕ, ◌+◌, ◌*◌, ◌/◌, ◌^◌, ◌-◌, ◌≤◌, min, ◌≡◌, ◌⊎◌, true, false, none, some, [], arith, ◌==◌, ==_refl,
  leb, if◌then◌else◌,
}
use kilonova.Prelude.Int.{ℤ, pos, negsuc}
use kilonova.Status.{ok}
use kilonova.User.{UserBrief, UserFull}
use kilonova.Contest.{Contest, ContestRegistration, LeaderboardType, ContestType}
use kilonova.Contest.Access.{ContestDb}
use kilonova.Decimal.{Decimal, DecimalLaws}
use kilonova.Problem.{Problem, ScoringType, TaskType}
use kilonova.Problem.Access.{ProblemDb}
use kilonova.Submission.{Submission, SubTest, Status, EvalType}

-- Numbers with four decimal places, in ten-thousandths.
abbrev pub shift_fixed : ℕ → ℤ → ℕ
shift_fixed a (pos k) = a * 10 ^ k
shift_fixed a (negsuc k) = a / 10 ^ (k + 1)

abbrev pub fixed_point : Decimal
fixed_point = record {
  D = ℕ;
  from_int = λ n. n * 10_000;
  add = λ a b. a + b;
  mul = λ a b. a * b / 10_000;
  shift = shift_fixed;
  round = λ a places. if leb 4 places then a else a / 10 ^ (4 - places) * 10 ^ (4 - places);
  min = min;
  equal = λ a b. a == b;
}

pub min-eq_lem : (a b : ℕ) → (min a b ≡ a) ⊎ (min a b ≡ b)
min-eq_lem a b = omega arith

abbrev pub fixed_point_laws : DecimalLaws fixed_point
fixed_point_laws = record {
  Le = λ a b. a ≤ b;
  le_refl = λ a. omega arith;
  le_trans = λ a b c p q. omega arith;
  min-le_left = λ a b. omega arith;
  min-le_right = λ a b. omega arith;
  min-eq = min-eq_lem;
  equal_refl = ==_refl;
}

abbrev pub ana : UserBrief
ana = record {
  id = 7;
  name = "ana";
  admin = false;
  proposer = false;
  display_name = "Ana";
  generated = false;
  discord_id = none;
}

abbrev pub bogdan : UserBrief
bogdan = record ana { id = 8; name = "bogdan"; display_name = "Bogdan" }

abbrev pub ana_full : UserFull
ana_full = record { user_brief = ana; verified_email = true }

-- A contest from 100 to 10^12, with windows of 60 seconds.
abbrev pub round_one : Contest
round_one = record {
  id = 3;
  created_at = 1;
  name = "Round 1";
  editors = [];
  testers = [];
  description = "";
  public_join = true;
  register_during_contest = true;
  visible = true;
  public_leaderboard = true;
  leaderboard_style = LeaderboardType.classic;
  leaderboard_freeze = some 900;
  icpc_submission_penalty = 20;
  leaderboard_advanced_filter = false;
  submission_cooldown = 10;
  question_cooldown = 0;
  start_time = 100;
  end_time = 1_000_000_000_000;
  per_user_time = 60;
  contest_type = ContestType.official;
  ip_management_enabled = false;
  whitelist_enabled = false;
  max_subs = pos 5;
}

abbrev pub registration_of : ℕ → ContestRegistration
registration_of uid = record {
  created_at = 50;
  contest_id = 3;
  user_id = uid;
  individual_start_time = none;
  individual_end_time = none;
  invitation_id = none;
}

-- Ana's window is open from 200 to 800.
abbrev pub window_db : ContestDb
window_db = record {
  is_contest_viewer = λ cid uid. ok true;
  contest_registration = λ cid uid. ok (
      some (record (registration_of 7) {
        individual_start_time = some 200;
        individual_end_time = some 800;
      }));
}

abbrev pub closed_problems : ProblemDb
closed_problems = record {
  is_problem_editor = λ pid uid. ok false;
  is_problem_viewer = λ pid uid. ok true;
  is_full_problem_viewer = λ pid uid. ok true;
  lockdown_problem_editor = true;
}

abbrev pub sums : Problem ℕ
sums = record {
  id = 40;
  name = "sums";
  test_name = "sums";
  default_points = 0;
  visible = true;
  visible_tests = false;
  time_limit = 1000;
  memory_limit = 65536;
  source_size = 30000;
  score_scale = 1_000_000;
  console_input = true;
  score_precision = 2;
  published_at = some 5;
  scoring_strategy = ScoringType.sum_subtasks;
  task_type = TaskType.batch;
  communication_processes = 1;
  review_requested_at = none;
  review_requested_by = none;
}

-- Bogdan's submission to the contest.
abbrev pub sent : Submission ℕ
sent = record {
  id = 500;
  created_at = 300;
  user_id = 8;
  problem_id = 40;
  language = "cpp17";
  code_size = 120;
  status = Status.working;
  compile_error = none;
  compile_message = some "warning: unused";
  contest_id = some 3;
  max_time = 0;
  max_memory = 0;
  score = 0;
  score_precision = 2;
  score_scale = 1_000_000;
  compile_time = some 2;
  submission_type = EvalType.classic;
  icpc_verdict = none;
}

abbrev pub test_row : ℕ → ℕ → SubTest ℕ
test_row id percentage = record {
  id = id;
  done = false;
  skipped = false;
  verdict = "";
  time = 0;
  memory = 0;
  percentage = percentage;
  test_id = some (id + 1000);
  submission_id = 500;
  visible_id = id;
  score = 500_000;
}
