-- ===== src/Query/Values.antt =====
-- The arguments of the queries: the values that pgx sends beside their text.
use kilonova.Prelude.{ℕ, Bool, Option, none, some, List, String, ltb, ◌&&◌, if◌then◌else◌}
use kilonova.Prelude.Text.{itoa, ◌⧺◌}
use kilonova.Submission.{Status}
use kilonova.Contest.{LeaderboardType, ContestType}

-- `null` is a nil pointer. D stands for decimals.
pub data Value (D : Type 0) : Type 0 where
  int : ℕ → Value D
  ints : List ℕ → Value D
  string : String → Value D
  bool : Bool → Value D
  time : ℕ → Value D
  decimal : D → Value D
  sub_status : Status → Value D
  style : LeaderboardType → Value D
  contest_type : ContestType → Value D
  null : Value D

abbrev pub int_or_null : {D : Type 0} → Option ℕ → Value D
int_or_null none = null
int_or_null (some n) = int n

abbrev pub time_or_null : {D : Type 0} → Option ℕ → Value D
time_or_null none = null
time_or_null (some t) = time t

abbrev pub string_or_null : {D : Type 0} → Option String → Value D
string_or_null none = null
string_or_null (some s) = string s

-- FormatLimitOffset of db/db.go.
unfoldable pub format_limit_offset : ℕ → ℕ → String
unfolding itoa
format_limit_offset limit offset =
    if ltb 0 limit && ltb 0 offset
    then "LIMIT " ⧺ itoa limit ⧺ " OFFSET " ⧺ itoa offset
    else if ltb 0 limit
    then "LIMIT " ⧺ itoa limit
    else if ltb 0 offset
    then "OFFSET " ⧺ itoa offset
    else ""
