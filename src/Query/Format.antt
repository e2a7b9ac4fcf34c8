-- ===== src/Query/Format.antt =====
-- What db/querybuilder.go uses of Go's fmt.Sprintf, strings.Join and strings.TrimSpace. A text with
-- %s verbs, or with placeholders $1, $2, ... in their place, is a list of pieces.
use text.Mathlib.Text.{starts_with}
use Prim.Native.String
use kilonova.Prelude.Text.{is_empty_text, trim_left_text, trim_right_text}
use kilonova.Prelude.{ℕ, zero, suc, Bool, true, false, List, [], ◌∷◌, ◌++◌, String}

-- `missing` is %!s(MISSING), a verb with no argument, and `extra` is %!(EXTRA ...), an argument with no
-- verb.
pub data Piece {ℓ} (A : Type ℓ) : Type ℓ where
  literal : String → Piece A
  slot : A → Piece A
  missing : Piece A
  extra : A → Piece A

abbrev pub Format : Type 0
Format = List (Piece (Unit {0}))

-- A character before the first piece, in that piece when it is a text.
unfoldable pub push_char : String → Format → Format
push_char c (literal s ∷ rest) = literal (String.◌++◌ c s) ∷ rest
push_char c [] = literal c ∷ []
push_char c (slot x ∷ rest) = literal c ∷ slot x ∷ rest
push_char c (missing ∷ rest) = literal c ∷ missing ∷ rest
push_char c (extra x ∷ rest) = literal c ∷ extra x ∷ rest

-- The verbs of a format string: %s, and %% for a percent sign. `skip` characters are left to drop.
unfoldable pub parse_from : String → ℕ → Format
unfolding push_char
parse_from String.[] skip = []
parse_from (String.◌∷◌ c s) (suc skip) = parse_from s skip
parse_from (String.◌∷◌ c s) zero =
    let skipped = parse_from s 1 in
    let rest = parse_from s 0 in
    elim (starts_with (String.◌∷◌ c s) "%s") [
      | true ↦ slot tt ∷ skipped
      | false ↦ elim (starts_with (String.◌∷◌ c s) "%%") [
        | true ↦ push_char "%" skipped
        | false ↦ push_char (String.◌∷◌ c String.[]) rest
      ]
    ]

unfoldable pub parse_format : String → Format
unfolding parse_from
parse_format s = parse_from s 0

module _ {ℓ} {A : Type ℓ} where
  -- The arguments that a text shows at its verbs, in order.
  abbrev pub slots : List (Piece A) → List A
  slots [] = []
  slots (literal s ∷ rest) = slots rest
  slots (slot x ∷ rest) = x ∷ slots rest
  slots (missing ∷ rest) = slots rest
  slots (extra x ∷ rest) = slots rest

  -- No argument was missing and none was left over.
  abbrev pub is_clean : List (Piece A) → Bool
  is_clean [] = true
  is_clean (literal s ∷ rest) = is_clean rest
  is_clean (slot x ∷ rest) = is_clean rest
  is_clean (missing ∷ rest) = false
  is_clean (extra x ∷ rest) = false

  -- A text piece unless it is empty.
  unfoldable pub text_piece : String → List (Piece A) → List (Piece A)
  unfolding is_empty_text
  text_piece s rest = elim (is_empty_text s) [ true ↦ rest | false ↦ literal s ∷ rest ]

  unfoldable pub trim_left : List (Piece A) → List (Piece A)
  unfolding trim_left_text
  trim_left [] = []
  trim_left (literal s ∷ rest) =
      let further = trim_left rest in
      let t = trim_left_text s in
      elim (is_empty_text t) [ true ↦ further | false ↦ literal t ∷ rest ]
  trim_left (slot x ∷ rest) = slot x ∷ rest
  trim_left (missing ∷ rest) = missing ∷ rest
  trim_left (extra x ∷ rest) = extra x ∷ rest

  -- A text piece before pieces that are trimmed already.
  unfoldable pub text_before : String → List (Piece A) → List (Piece A)
  unfolding trim_right_text text_piece
  text_before s [] = text_piece (trim_right_text s) []
  text_before s (p ∷ rest) = literal s ∷ p ∷ rest

  unfoldable pub trim_right : List (Piece A) → List (Piece A)
  unfolding text_before
  trim_right [] = []
  trim_right (literal s ∷ rest) = text_before s (trim_right rest)
  trim_right (slot x ∷ rest) = slot x ∷ trim_right rest
  trim_right (missing ∷ rest) = missing ∷ trim_right rest
  trim_right (extra x ∷ rest) = extra x ∷ trim_right rest

  -- strings.TrimSpace
  unfoldable pub trim_space : List (Piece A) → List (Piece A)
  unfolding trim_left trim_right
  trim_space t = trim_right (trim_left t)

  -- fmt.Sprintf
  abbrev pub sprintf : Format → List A → List (Piece A)
  sprintf [] [] = []
  sprintf [] (x ∷ xs) = extra x ∷ sprintf [] xs
  sprintf (literal s ∷ rest) xs = literal s ∷ sprintf rest xs
  sprintf (slot u ∷ rest) [] = missing ∷ sprintf rest []
  sprintf (slot u ∷ rest) (x ∷ xs) = slot x ∷ sprintf rest xs
  sprintf (missing ∷ rest) xs = missing ∷ sprintf rest xs
  sprintf (extra u ∷ rest) xs = missing ∷ sprintf rest xs

  -- strings.Join
  abbrev pub join : List (List (Piece A)) → String → List (Piece A)
  join [] separator = []
  join (t ∷ []) separator = t
  join (t ∷ u ∷ rest) separator = t ++ (literal separator ∷ join (u ∷ rest) separator)
