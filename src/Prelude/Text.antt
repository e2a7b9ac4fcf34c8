-- ===== src/Prelude/Text.antt =====
-- The functions of Go's strings and strconv packages that the modelled code calls, on ASCII texts.
use Prim.Native.Nat.{ℕ, zero, suc, ◌-◌, ◌/◌, ◌%◌}
use Prim.Native.String.{String, len}
use Prim.Native.String
use text.Mathlib.Text.{starts_with, find?}
use mathlib.Core.Bool.{Bool, true, false, ◌&&◌}
use mathlib.Core.List.{List, [], ◌∷◌}
use kilonova.Prelude.Lists.{any}
use kilonova.Prelude.Tests.{◌==◌, ltb, if◌then◌else◌, is_some}

infixr 65 ◌⧺◌
abbrev pub ◌⧺◌ : String → String → String
s ⧺ t = String.◌++◌ s t

-- strings.Contains
abbrev pub contains_text : String → String → Bool
contains_text s t = is_some (find? s t)

-- strings.ReplaceAll for an `old` that is not empty: `skip` characters of a match are left to drop.
replace_from : String → String → ℕ → String → String
replace_from old new skip String.[] = String.[]
replace_from old new (suc skip) (String.◌∷◌ c s) = replace_from old new skip s
replace_from old new zero (String.◌∷◌ c s) = elim (starts_with (String.◌∷◌ c s) old) [
  | true ↦ new ⧺ replace_from old new (len old - 1) s
  | false ↦ String.◌∷◌ c (replace_from old new zero s)
]

unfoldable pub replace_all : String → String → String → String
unfolding replace_from
replace_all s old new = replace_from old new zero s

digit_text : ℕ → String
digit_text d =
    if d == 0
    then "0"
    else if d == 1
    then "1"
    else if d == 2
    then "2"
    else if d == 3
    then "3"
    else if d == 4
    then "4"
    else if d == 5
    then "5"
    else if d == 6
    then "6"
    else if d == 7
    then "7"
    else if d == 8
    then "8"
    else "9"

-- The digits of `n` before those of `acc`; `fuel` above `n` is enough.
itoa_from : ℕ → ℕ → String → String
unfolding digit_text
itoa_from zero n acc = acc
itoa_from (suc fuel) n acc =
    let acc' = digit_text (n % 10) ⧺ acc in
    elim (ltb n 10) [ true ↦ acc' | false ↦ itoa_from fuel (n / 10) acc' ]

-- strconv.Itoa of a number that is not negative.
unfoldable pub itoa : ℕ → String
unfolding itoa_from
itoa n = itoa_from (suc n) n String.[]

-- The characters of unicode.IsSpace.
abbrev spaces : List String
spaces =
    " " ∷ "\t" ∷ "\n" ∷ "\r" ∷ "\u{b}" ∷ "\u{c}" ∷ "\u{85}" ∷ "\u{a0}" ∷ "\u{1680}" ∷ "\u{2000}"
    ∷ "\u{2001}" ∷ "\u{2002}" ∷ "\u{2003}" ∷ "\u{2004}" ∷ "\u{2005}" ∷ "\u{2006}" ∷ "\u{2007}"
    ∷ "\u{2008}" ∷ "\u{2009}" ∷ "\u{200a}" ∷ "\u{2028}" ∷ "\u{2029}" ∷ "\u{202f}" ∷ "\u{205f}"
    ∷ "\u{3000}" ∷ []

-- unicode.IsSpace of the first character.
unfoldable pub is_space : String → Bool
is_space s = any (starts_with s) spaces

unfoldable pub is_empty_text : String → Bool
is_empty_text String.[] = true
is_empty_text (String.◌∷◌ c s) = false

unfoldable pub trim_left_text : String → String
unfolding is_space
trim_left_text String.[] = String.[]
trim_left_text (String.◌∷◌ c s) =
    let rest = trim_left_text s in
    elim (is_space (String.◌∷◌ c s)) [ true ↦ rest | false ↦ String.◌∷◌ c s ]

unfoldable pub trim_right_text : String → String
unfolding is_space is_empty_text
trim_right_text String.[] = String.[]
trim_right_text (String.◌∷◌ c s) =
    let rest = trim_right_text s in
    elim (is_empty_text rest && is_space (String.◌∷◌ c String.[])) [
      | true ↦ String.[]
      | false ↦ String.◌∷◌ c rest
    ]

-- strings.TrimSpace
unfoldable pub trim_text : String → String
unfolding trim_left_text trim_right_text
trim_text s = trim_right_text (trim_left_text s)
