-- ===== src/Evict/Sweeping.antt =====
-- What a sweep leaves: theorems on Evict.antt.
use kilonova.Prelude.{
  ℕ, ◌+◌, ◌-◌, ◌≤◌, ◌<◌, ◌≡◌, refl, sym, inl, inr, Bool, false, not, ◌&&◌, Option, none, List, [],
  ◌∷◌, String, leb, length, arith, All, Bool-cases, Option-cases,
}
use kilonova.Status.{GoError, ok}
use kilonova.Evict.{
  Entry, Report, unix_micro, second, insert_entry, sort_entries, total_size, ttl_expired, over_size,
  sweep_loop, sweep, no_report,
}

length-insert_entry : (e : Entry) (es : List Entry) → length (insert_entry e es) ≡ length es + 1
unfolding insert_entry
length-insert_entry e [] = refl
length-insert_entry e (x ∷ xs) = ground (arith, length-insert_entry e xs)

length-sort_entries : (es : List Entry) → length (sort_entries es) ≡ length es
unfolding sort_entries
length-sort_entries [] = refl
length-sort_entries (e ∷ es) =
    omega (arith, length-insert_entry e (sort_entries es), length-sort_entries es)

total_size-insert_entry :
    (e : Entry) (es : List Entry) → total_size (insert_entry e es) ≡ e.size + total_size es
unfolding insert_entry total_size
total_size-insert_entry e [] = refl
total_size-insert_entry e (x ∷ xs) = ground (arith, total_size-insert_entry e xs)

total_size-sort_entries : (es : List Entry) → total_size (sort_entries es) ≡ total_size es
unfolding sort_entries total_size
total_size-sort_entries [] = refl
total_size-sort_entries (e ∷ es) =
    omega (arith, total_size-insert_entry e (sort_entries es), total_size-sort_entries es)

-- No file is older than the given microsecond.
abbrev pub From : ℕ → List Entry → Type 0
From m es = All (λ x. m ≤ unix_micro x) es

-- Oldest first, by microseconds.
abbrev pub Ordered : List Entry → Type 0
Ordered [] = Unit {0}
Ordered (e ∷ es) = From (unix_micro e) es × Ordered es

From-weaken : (m n : ℕ) (es : List Entry) → m ≤ n → From n es → From m es
From-weaken m n [] h f = tt
From-weaken m n (x ∷ xs) h f = (omega (arith, f.0), From-weaken m n xs h f.1)

insert_entry-From :
    (m : ℕ) (e : Entry) (es : List Entry)
    → m ≤ unix_micro e
    → From m es
    → From m (insert_entry e es)
unfolding insert_entry
insert_entry-From m e [] h f = (h, tt)
insert_entry-From m e (x ∷ xs) h f = elim (Bool-cases (leb (unix_micro e) (unix_micro x))) [
  | inl first ↦ rw first (h, f)
  | inr later ↦ rw later (f.0, insert_entry-From m e xs h f.1)
]

insert_entry-Ordered : (e : Entry) (es : List Entry) → Ordered es → Ordered (insert_entry e es)
unfolding insert_entry
insert_entry-Ordered e [] o = (tt, tt)
insert_entry-Ordered e (x ∷ xs) o = elim (Bool-cases (leb (unix_micro e) (unix_micro x))) [
  | inl first ↦
      let le : unix_micro e ≤ unix_micro x = ground arith in
      rw first ((le, From-weaken (unix_micro e) (unix_micro x) xs le o.0), o)
  | inr later ↦
      let le : unix_micro x ≤ unix_micro e = ground arith in
      rw later (insert_entry-From (unix_micro x) e xs le o.0, insert_entry-Ordered e xs o.1)
]

sort_entries-Ordered : (es : List Entry) → Ordered (sort_entries es)
unfolding sort_entries
sort_entries-Ordered [] = tt
sort_entries-Ordered (e ∷ es) = insert_entry-Ordered e (sort_entries es) (sort_entries-Ordered es)

-- The report agrees with the files, given what has been deleted before.
pub record Accounts (count size : ℕ) (left : List Entry) (res : Report) : Type 0 where
  pub remaining : res.remaining ≡ length left
  pub remaining_size : res.remaining_size ≡ total_size left
  pub files : res.deleted + res.remaining ≡ count
  pub bytes : res.deleted_size + res.remaining_size ≡ size

module _ (remove : String → Option GoError) (now max_size max_ttl : ℕ) where
  sweep_loop-Accounts :
      (es : List Entry) (dir_size : ℕ) (res : Report)
      → dir_size ≡ total_size es
      → let (left, report, error) = sweep_loop remove now max_size max_ttl dir_size res es in
        Accounts (res.deleted + length es) (res.deleted_size + dir_size) left report
  unfolding sweep_loop total_size
  sweep_loop-Accounts [] dir_size res h = record {
    remaining = refl;
    remaining_size = h;
    files = omega arith;
    bytes = omega arith;
  }
  sweep_loop-Accounts (e ∷ es) dir_size res h =
      let next = record res {
        deleted = res.deleted + 1;
        deleted_size = res.deleted_size + e.size;
      } in
      let rest = sweep_loop-Accounts es (dir_size - e.size) next (ground arith) in
      record {
        remaining = ground (arith, rest.remaining);
        remaining_size = ground (arith, rest.remaining_size);
        files = ground (arith, rest.files);
        bytes = ground (arith, rest.bytes);
      }

  -- No file that stays has expired, up to the microsecond of the order.
  abbrev pub Fresh : List Entry → Type 0
  Fresh es = All (λ x. now < x.mod_time + max_ttl + 1000) es

  From-Fresh :
      (e : Entry) (es : List Entry)
      → second < max_ttl
      → ttl_expired now max_ttl e ≡ false
      → From (unix_micro e) es
      → Fresh es
  unfolding ttl_expired
  From-Fresh e [] s h f = tt
  From-Fresh e (x ∷ xs) s h f = (ground (arith, f.0), From-Fresh e xs s h f.1)

  abbrev stays : Entry → ℕ → Bool
  stays e dir_size = not (ttl_expired now max_ttl e) && not (over_size max_size dir_size)

  sweep_loop-Fresh :
      (es : List Entry) (dir_size : ℕ) (res : Report)
      → second < max_ttl
      → Ordered es
      → (sweep_loop remove now max_size max_ttl dir_size res es).2 ≡ none
      → Fresh (sweep_loop remove now max_size max_ttl dir_size res es).0
  unfolding sweep_loop
  sweep_loop-Fresh [] dir_size res s o h = tt
  sweep_loop-Fresh (e ∷ es) dir_size res s o h = elim (Bool-cases (stays e dir_size)) [
    | inl stop ↦ rw stop (ground (arith), From-Fresh e es s (ground arith) o.0)
    | inr go ↦ elim (Option-cases (remove e.name)) [
      | inl gone ↦ rw (go, gone) (sweep_loop-Fresh es _ _ s o.1 (ground arith))
      | inr (failure, f) ↦ absurd (ground arith)
    ]
  ]

  sweep_loop-fits :
      (es : List Entry) (dir_size : ℕ) (res : Report)
      → 1024 < max_size
      → dir_size ≡ total_size es
      → (sweep_loop remove now max_size max_ttl dir_size res es).2 ≡ none
      → (sweep_loop remove now max_size max_ttl dir_size res es).1.remaining_size ≤ max_size
  unfolding sweep_loop over_size total_size
  sweep_loop-fits [] dir_size res s t h = omega arith
  sweep_loop-fits (e ∷ es) dir_size res s t h =
      let next = record res {
        deleted = res.deleted + 1;
        deleted_size = res.deleted_size + e.size;
      } in
      let rest = sweep_loop-fits es (dir_size - e.size) next s (ground arith) in ground arith

  -- The report of a sweep agrees with the directory on every path, a failed removal included: it
  -- names the files that are left and their size, and these and the deleted ones add up to what was
  -- listed.
  pub sweep-Accounts :
      (files : List Entry)
      → let (left, report, error) = sweep (ok files) remove now max_size max_ttl in
        Accounts (length files) (total_size files) left report
  unfolding sweep
  sweep-Accounts files =
      let sorted = sort_entries files in
      let size = total_size-sort_entries files in
      let counts = sweep_loop-Accounts sorted (total_size files) no_report (sym size) in
      record {
        remaining = counts.remaining;
        remaining_size = counts.remaining_size;
        files = omega (arith, counts.files, length-sort_entries files);
        bytes = omega (arith, counts.bytes);
      }

  -- With both limits set, a sweep of a listed directory that ends without an error leaves at most
  -- the size limit, and no file that has expired by a microsecond or more.
  pub sweep_within_limits :
      (files : List Entry)
      → 1024 < max_size
      → second < max_ttl
      → (sweep (ok files) remove now max_size max_ttl).2 ≡ none
      → (total_size (sweep (ok files) remove now max_size max_ttl).0 ≤ max_size)
        × Fresh (sweep (ok files) remove now max_size max_ttl).0
  unfolding sweep
  sweep_within_limits files big long h =
      let sorted = sort_entries files in
      let size = sym (total_size-sort_entries files) in
      let counts = sweep_loop-Accounts sorted (total_size files) no_report size in
      let fits = sweep_loop-fits sorted (total_size files) no_report big size h in
      (
        omega (arith, counts.remaining_size, fits),
        sweep_loop-Fresh sorted (total_size files) no_report long (sort_entries-Ordered files) h,
      )
