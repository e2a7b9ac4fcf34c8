-- ===== src/Status.antt =====
-- Errors with an HTTP status (status.go), and the results of fallible calls.
pub mod Codes
use kilonova.Prelude.{
  ℕ, ◌≡◌, refl, ◌⊎◌, inl, inr, Bool, true, false, ◌||◌, Option, none, some, String, ◌==◌,
  if◌then◌else◌, str_eq,
}

-- A Go error. `plain` is errors.New, fmt.Errorf with no %w, or an error of a library; `wrapped` is
-- fmt.Errorf with one %w; `joined` is errors.Join of two. Texts are the format strings.
pub data GoError : Type 0 where
  plain : String → GoError
  status : ℕ → String → GoError
  wrapped : String → GoError → GoError
  joined : GoError → GoError → GoError

pub data Result {ℓ} (A : Type ℓ) : Type ℓ where
  ok : A → Result A
  err : GoError → Result A

infixl 5 ◌>>=◌ ◌>>◌
-- `v, err := call; if err != nil { return err }; rest`
abbrev pub ◌>>=◌ {ℓ κ} : {S : Type ℓ} {T : Type κ} → Result S → (S → Result T) → Result T
err failure >>= rest = err failure
ok value >>= rest = rest value

abbrev pub ◌>>◌ {ℓ} : {T : Type ℓ} → Result (Unit {0}) → Result T → Result T
err failure >> rest = err failure
ok u >> rest = rest

-- `if !test { return e }`.
abbrev pub guard : Bool → GoError → Result (Unit {0})
guard false failure = err failure
guard true failure = ok tt

-- `if err != nil { return f(err) }`.
abbrev pub map_err {ℓ} : {A : Type ℓ} → (GoError → GoError) → Result A → Result A
map_err f (ok a) = ok a
map_err f (err e) = err (f e)

abbrev pub is_ok {ℓ} : {A : Type ℓ} → Result A → Bool
is_ok (ok a) = true
is_ok (err e) = false

unfoldable pub statusf : ℕ → String → GoError
statusf code text = if code == 500 then plain text else status code text

-- errors.AsType[*statusError]: the first status error of the chain, depth first.
unfoldable pub as_status : GoError → Option (ℕ × String)
as_status (plain t) = none
as_status (status code t) = some (code, t)
as_status (wrapped t e) = as_status e
as_status (joined a b) = first_of_two (as_status a) (as_status b)
  where
    first_of_two : Option (ℕ × String) → Option (ℕ × String) → Option (ℕ × String)
    first_of_two none o = o
    first_of_two (some s) o = some s

unfoldable pub maybe_error_code : Option GoError → ℕ × Bool
maybe_error_code none = (200, false)
maybe_error_code (some e) = elim (as_status e) [
  | none ↦ (500, false)
  | some (code, t) ↦ (code, true)
]

unfoldable pub error_code : Option GoError → ℕ
unfolding maybe_error_code
error_code e = (maybe_error_code e).0

-- statusError.Is, for a target that is a status error of the given text.
unfoldable pub status_is : String → String → Bool
status_is text target = str_eq target text

-- errors.Is(e, target) for such a target, along the chain.
unfoldable pub error_is : GoError → String → Bool
unfolding status_is
error_is (plain t) target = false
error_is (status code t) target = status_is t target
error_is (wrapped t e) target = error_is e target
error_is (joined a b) target = error_is a target || error_is b target

abbrev pub not_found_text : String
not_found_text = "Not found"

unfoldable pub err_not_found : GoError
unfolding statusf
err_not_found = statusf 404 not_found_text

unfoldable pub err_no_updates : GoError
unfolding statusf
err_no_updates = statusf 400 "No updates specified"

unfoldable pub err_missing_required : GoError
unfolding statusf
err_missing_required = statusf 400 "Missing required fields"

unfoldable pub err_feature_disabled : GoError
unfolding statusf
err_feature_disabled = statusf 400 "Feature disabled by administrator"

pub Result-cases {ℓ} :
    {A : Type ℓ} (r : Result A) → ((e : GoError) × (r ≡ err e)) ⊎ ((a : A) × (r ≡ ok a))
Result-cases (err e) = inl (e, refl)
Result-cases (ok a) = inr (a, refl)
