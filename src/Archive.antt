-- ===== src/Archive.antt =====
-- The groups of tests in a problem archive's properties: domain/archive/test/generator.go writes them,
-- domain/archive/test/properties_file.go reads them. A text is the list of its bytes.
pub mod Numbers
pub mod Groups
pub mod Dependencies
pub mod Sorting
pub mod Params
pub mod Uniform
use kilonova.Prelude.{
  ℕ, zero, suc, ◌+◌, ◌-◌, ◌*◌, ◌/◌, ◌%◌, ◌^◌, Bool, true, false, not, ◌&&◌, ◌||◌, Option, none,
  some, List, [], ◌∷◌, ◌++◌, ltb, leb, ◌==◌, if◌then◌else◌, all, is_empty, length,
}
use kilonova.Status.{Result, ok, err, statusf, ◌>>=◌, ◌>>◌, guard, plain, GoError}

abbrev pub Text : Type 0
Text = List ℕ

abbrev pub semicolon : ℕ
semicolon = 59

abbrev pub dash : ℕ
dash = 45

abbrev pub comma : ℕ
comma = 44

abbrev pub is_digit : ℕ → Bool
is_digit c = leb 48 c && leb c 57

-- The digits of `n` before `acc`.
abbrev pub digits_from : ℕ → ℕ → Text → Text
digits_from zero n acc = acc
digits_from (suc fuel) n acc =
    let rest = digits_from fuel (n / 10) ((48 + n % 10) ∷ acc) in
    if ltb n 10 then (48 + n) ∷ acc else rest

-- strconv.Itoa of a number that is not negative.
abbrev pub itoa : ℕ → Text
itoa n = digits_from (suc n) n []

abbrev pub value_from : ℕ → Text → ℕ
value_from v [] = v
value_from v (c ∷ cs) = value_from (v * 10 + (c - 48)) cs

abbrev pub unsigned : Text → Option ℕ
unsigned cs =
    if not (is_empty cs) && all is_digit cs && ltb (value_from 0 cs) (2 ^ 63)
    then some (value_from 0 cs)
    else none

-- strconv.Atoi of a text with no dash.
abbrev pub atoi : Text → Option ℕ
atoi [] = none
atoi (c ∷ cs) = if c == 43 then unsigned cs else unsigned (c ∷ cs)

-- A byte before the first of the parts.
abbrev pub extend : ℕ → List Text → List Text
extend c [] = (c ∷ []) ∷ []
extend c (t ∷ ts) = (c ∷ t) ∷ ts

-- strings.Split and strings.Join, for a separator of one byte.
abbrev pub split : ℕ → Text → List Text
split sep [] = [] ∷ []
split sep (c ∷ cs) = let rest = split sep cs in if c == sep then [] ∷ rest else extend c rest

abbrev pub join : ℕ → List Text → Text
join sep [] = []
join sep (t ∷ []) = t
join sep (t ∷ u ∷ ts) = t ++ (sep ∷ join sep (u ∷ ts))

abbrev pub from_to : ℕ → ℕ → List ℕ
from_to start zero = []
from_to start (suc n) = start ∷ from_to (suc start) n

abbrev pub expected_int : GoError
unfolding statusf
expected_int = statusf 400 "Invalid %q string in properties, expected int"

abbrev pub some_or : Option ℕ → Result ℕ
unfolding expected_int
some_or none = err expected_int
some_or (some n) = ok n

-- The numbers of one part of parsePropListItem, by its pieces between dashes.
abbrev pub part_numbers : List Text → Result (List ℕ)
unfolding some_or statusf
part_numbers [] = ok []
part_numbers (v ∷ []) = if is_empty v then ok [] else some_or (atoi v) >>= λ n. ok (n ∷ [])
part_numbers (v ∷ w ∷ []) =
    some_or (atoi v) >>= λ start. some_or (atoi w) >>= λ end. ok (from_to start (suc end - start))
part_numbers (v ∷ w ∷ x ∷ rest) =
    err (statusf 400 "Invalid %q string in properties, too many dashes")

abbrev pub numbers_of_parts : List Text → Result (List ℕ)
unfolding part_numbers
numbers_of_parts [] = ok []
numbers_of_parts (g ∷ gs) =
    part_numbers (split dash g) >>= λ first. numbers_of_parts gs >>= λ rest. ok (first ++ rest)

-- parsePropListItem
unfoldable pub parse_prop_list_item : Text → Result (List ℕ)
unfolding numbers_of_parts
parse_prop_list_item item = numbers_of_parts (split semicolon item)

abbrev pub parse_each : List Text → Result (List (List ℕ))
unfolding parse_prop_list_item
parse_each [] = ok []
parse_each (g ∷ gs) =
    parse_prop_list_item g >>= λ first. parse_each gs >>= λ rest. ok (first ∷ rest)

-- `if rawProps.Groups != "" { ... }`: the tests of the groups as ProcessPropertiesFile reads them; the
-- weights are only counted here. `has_score_parameters` is `len(ctx.scoreParameters) > 0`.
unfoldable pub parse_groups : Bool → Text → Text → Result (List (List ℕ))
unfolding parse_each statusf
parse_groups has_score_parameters groups weights =
    if is_empty groups
    then ok []
    else if has_score_parameters
    then err (
        statusf 400
          "Properties file cannot contain group parameters if you specified CMS-style score parameters")
    else guard (length (split comma groups) == length (split comma weights))
        (statusf 400 "Number of weights must match number of groups")
      >> parse_each (split comma groups)

abbrev pub texts : List ℕ → List Text
texts [] = []
texts (n ∷ ns) = itoa n ∷ texts ns

-- One group as addGraderProperties writes it, by the visible ids of its tests.
unfoldable pub group_text : List ℕ → Text
group_text tests = join semicolon (texts tests)

abbrev pub group_texts : List (List ℕ) → List Text
unfolding group_text
group_texts [] = []
group_texts (g ∷ gs) = group_text g ∷ group_texts gs

-- The value of the property `groups`.
unfoldable pub groups_text : List (List ℕ) → Text
unfolding group_texts
groups_text groups = join comma (group_texts groups)
