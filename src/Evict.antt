-- ===== src/Evict.antt =====
-- Clearing a cache directory (internal/fsevict/fsevict.go: Sweep). The directory is the list of its
-- files; removing one may fail. Times are nanoseconds; the order of two files of one microsecond,
-- which the source's sort leaves open, is the listing's.
pub mod Sweeping
use kilonova.Prelude.{
  ℕ, ◌+◌, ◌-◌, ◌/◌, Bool, true, false, not, ◌&&◌, ◌||◌, Option, none, some, List, [], ◌∷◌, String,
  ltb, leb, if◌then◌else◌, length,
}
use kilonova.Status.{GoError, Result, ok, err}

pub record Entry : Type 0 where
  pub name : String
  pub mod_time : ℕ
  pub size : ℕ

pub record Report : Type 0 where
  pub deleted : ℕ
  pub remaining : ℕ
  pub deleted_size : ℕ
  pub remaining_size : ℕ

abbrev pub unix_micro : Entry → ℕ
unix_micro e = e.mod_time / 1000

abbrev pub second : ℕ
second = 1_000_000_000

-- slices.SortFunc by the microsecond of the change, oldest first.
unfoldable pub insert_entry : Entry → List Entry → List Entry
insert_entry e [] = e ∷ []
insert_entry e (x ∷ xs) =
    let rest = insert_entry e xs in
    if leb (unix_micro e) (unix_micro x) then e ∷ x ∷ xs else x ∷ rest

unfoldable pub sort_entries : List Entry → List Entry
unfolding insert_entry
sort_entries [] = []
sort_entries (e ∷ es) = insert_entry e (sort_entries es)

unfoldable pub total_size : List Entry → ℕ
total_size [] = 0
total_size (e ∷ es) = e.size + total_size es

unfoldable pub ttl_expired : ℕ → ℕ → Entry → Bool
ttl_expired now max_ttl e = ltb second max_ttl && ltb (e.mod_time + max_ttl) now

unfoldable pub over_size : ℕ → ℕ → Bool
over_size max_size dir_size = ltb 1024 max_size && ltb max_size dir_size

-- What is left, with `remaining` and `remaining_size` filled in.
abbrev pub report_left : Report → ℕ → List Entry → Report
report_left res dir_size es = record res { remaining = length es; remaining_size = dir_size }

unfoldable pub sweep_loop :
    (String → Option GoError)
    → ℕ
    → ℕ
    → ℕ
    → ℕ
    → Report
    → List Entry
    → List Entry × Report × Option GoError
unfolding ttl_expired over_size
sweep_loop remove now max_size max_ttl dir_size res [] = ([], report_left res dir_size [], none)
sweep_loop remove now max_size max_ttl dir_size res (e ∷ es) =
    let rest =
      sweep_loop remove now max_size max_ttl (dir_size - e.size)
        (record res { deleted = res.deleted + 1; deleted_size = res.deleted_size + e.size }) es in
    if not (ttl_expired now max_ttl e) && not (over_size max_size dir_size)
    then (e ∷ es, report_left res dir_size (e ∷ es), none)
    else elim (remove e.name) [
      | some failure ↦ (e ∷ es, report_left res dir_size (e ∷ es), some failure)
      | none ↦ rest
    ]

abbrev pub no_report : Report
no_report = record { deleted = 0; remaining = 0; deleted_size = 0; remaining_size = 0 }

-- The files left, the report and the error. When the listing fails no file is known.
unfoldable pub sweep :
    Result (List Entry)
    → (String → Option GoError)
    → ℕ
    → ℕ
    → ℕ
    → List Entry × Report × Option GoError
unfolding sort_entries total_size sweep_loop
sweep (err e) remove now max_size max_ttl = ([], no_report, some e)
sweep (ok files) remove now max_size max_ttl =
    sweep_loop remove now max_size max_ttl (total_size files) no_report (sort_entries files)
