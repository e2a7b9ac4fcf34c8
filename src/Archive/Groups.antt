-- ===== src/Archive/Groups.antt =====
-- Groups of tests written and read back (domain/archive/test/generator.go, properties_file.go).
use kilonova.Prelude.{ℕ, ◌^◌, ◌<◌, List, All}

-- Test ids that Go's int holds.
abbrev pub Fits : List ℕ → Type 0
Fits tests = All (λ n. n < 2 ^ 63) tests
