-- ===== src/Problem.antt =====
-- Problems: the data of problem.go that the modelled code reads. Times and memory limits are natural
-- numbers (the program's float64 seconds are compared and passed on, never computed with).
pub mod Access
use kilonova.Prelude.{ℕ, Bool, Option, String}

pub data ScoringType : Type 0 where
  none_given max_sub sum_subtasks icpc : ScoringType
  other : String → ScoringType

pub data TaskType : Type 0 where
  none_given batch communication ai : TaskType
  other : String → TaskType

pub record Problem (D : Type 0) : Type 0 where
  pub id : ℕ
  pub name : String
  pub test_name : String
  pub default_points : D
  pub visible : Bool
  pub visible_tests : Bool
  pub time_limit : ℕ
  pub memory_limit : ℕ
  pub source_size : ℕ
  pub score_scale : D
  pub console_input : Bool
  pub score_precision : ℕ
  pub published_at : Option ℕ
  pub scoring_strategy : ScoringType
  pub task_type : TaskType
  pub communication_processes : ℕ
  pub review_requested_at : Option ℕ
  pub review_requested_by : Option ℕ
