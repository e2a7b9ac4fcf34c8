-- ===== src/Status/Codes.antt =====
-- What a caller reads back from an error of status.go.
use kilonova.Prelude.{ℕ, ◌≡◌, refl, true, List, [], ◌∷◌, some, String, arith, eq_refl}
use kilonova.Status.{
  GoError, wrapped, statusf, as_status, error_code, error_is, err_not_found, not_found_text,
}

-- The error that fmt.Errorf's %w puts around `e`, once for each context.
abbrev pub in_contexts : List String → GoError → GoError
in_contexts [] e = e
in_contexts (t ∷ ts) e = wrapped t (in_contexts ts e)

as_status-in_contexts :
    (ts : List String) (e : GoError) → as_status (in_contexts ts e) ≡ as_status e
unfolding as_status
as_status-in_contexts [] e = refl
as_status-in_contexts (t ∷ ts) e = as_status-in_contexts ts e

-- The code of an error made by Statusf is the code it was made with, however many contexts
-- fmt.Errorf has put around it. (A code of 500 is read back too, though no status error is made.)
pub error_code-statusf :
    (ts : List String) (code : ℕ) (text : String)
    → error_code (some (in_contexts ts (statusf code text))) ≡ code
unfolding error_code statusf as_status
error_code-statusf ts code text = ground (arith, as_status-in_contexts ts (statusf code text))

-- ErrNotFound is recognised by errors.Is under any contexts.
pub error_is-not_found :
    (ts : List String) → error_is (in_contexts ts err_not_found) not_found_text ≡ true
unfolding error_is err_not_found
error_is-not_found [] = eq_refl not_found_text
error_is-not_found (t ∷ ts) = error_is-not_found ts
