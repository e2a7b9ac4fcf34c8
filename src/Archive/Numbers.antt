-- ===== src/Archive/Numbers.antt =====
-- Numbers and separators in the texts of domain/archive/test.
use kilonova.Prelude.{
  ℕ, zero, suc, ◌+◌, ◌-◌, ◌*◌, ◌/◌, ◌%◌, ◌^◌, ◌<◌, ◌≤◌, ◌≡◌, refl, sym, ap, ◌∙◌, Bool, true, false,
  not, ◌&&◌, some, List, [], ◌∷◌, ◌++◌, ltb, ◌==◌, arith, all, Bool-cases, inl, inr, is_empty,
  lt→ltb, ltb→lt, ==_refl,
}
use kilonova.Archive.{Text, is_digit, digits_from, itoa, value_from, atoi, split, join}

value_from-digits_from :
    (fuel n : ℕ) (acc : Text) → n < fuel → value_from 0 (digits_from fuel n acc) ≡ value_from n acc
value_from-digits_from zero n acc h = ground arith
value_from-digits_from (suc fuel) n acc h = elim (Bool-cases (ltb n 10)) [
  | inl last ↦
      let digit : 0 * 10 + (48 + n - 48) ≡ n = omega arith in
      rw last (ap (λ v. value_from v acc) digit)
  | inr more ↦
      let big : 10 ≤ n = ground arith in
      let smaller : n / 10 < fuel = omega (arith, big, h) in
      let digit : n / 10 * 10 + (48 + n % 10 - 48) ≡ n = omega arith in
      rw more (
        value_from-digits_from fuel (n / 10) ((48 + n % 10) ∷ acc) smaller
        ∙ ap (λ v. value_from v acc) digit)
]

digit_char : (k : ℕ) → k < 10 → is_digit (48 + k) ≡ true
digit_char k h = ground arith

pub all-digits_from :
    (fuel n : ℕ) (acc : Text)
    → all is_digit acc ≡ true
    → all is_digit (digits_from fuel n acc) ≡ true
all-digits_from zero n acc h = h
all-digits_from (suc fuel) n acc h = elim (Bool-cases (ltb n 10)) [
  | inl last ↦ rw (last, digit_char n (ltb→lt n 10 last)) h
  | inr more ↦
      let digit : n % 10 < 10 = omega arith in
      rw more
        (all-digits_from fuel (n / 10) ((48 + n % 10) ∷ acc) (rw (digit_char (n % 10) digit) h))
]

-- A text without a byte.
abbrev pub lacks : ℕ → Text → Bool
lacks sep [] = true
lacks sep (c ∷ cs) = not (c == sep) && lacks sep cs

pub digits-lacks :
    (sep : ℕ) (t : Text) → is_digit sep ≡ false → all is_digit t ≡ true → lacks sep t ≡ true
digits-lacks sep [] h d = refl
digits-lacks sep (c ∷ cs) h d = ground (arith, digits-lacks sep cs h (ground arith))

pub lacks-append :
    (sep : ℕ) (t u : Text) → lacks sep t ≡ true → lacks sep u ≡ true → lacks sep (t ++ u) ≡ true
lacks-append sep [] u h k = k
lacks-append sep (c ∷ cs) u h k = ground (arith, lacks-append sep cs u (ground arith) k)

pub split-lacks : (sep : ℕ) (t : Text) → lacks sep t ≡ true → split sep t ≡ t ∷ []
split-lacks sep [] h = refl
split-lacks sep (c ∷ cs) h = let rest = split-lacks sep cs (ground arith) in ground (arith, rest)

pub split-append :
    (sep : ℕ) (t rest : Text)
    → lacks sep t ≡ true
    → split sep (t ++ (sep ∷ rest)) ≡ t ∷ split sep rest
split-append sep [] rest h = rw (==_refl sep) refl
split-append sep (c ∷ cs) rest h =
    let later = split-append sep cs rest (ground arith) in ground (arith, later)

-- strings.Split undoes strings.Join of parts that do not hold the separator.
pub split-join :
    (sep : ℕ) (t : Text) (ts : List Text)
    → all (lacks sep) (t ∷ ts) ≡ true
    → split sep (join sep (t ∷ ts)) ≡ t ∷ ts
split-join sep t [] h = split-lacks sep t (ground arith)
split-join sep t (u ∷ us) h =
    split-append sep t (join sep (u ∷ us)) (ground arith)
    ∙ ap (λ r. t ∷ r) (split-join sep u us (ground arith))

pub itoa-digits : (n : ℕ) → all is_digit (itoa n) ≡ true
itoa-digits n = all-digits_from (suc n) n [] refl

-- The digits of a number start with a digit.
first_digit :
    (fuel n : ℕ) (c : ℕ) (cs : Text)
    → (d : ℕ) × (ds : Text) × (digits_from fuel n (c ∷ cs) ≡ d ∷ ds)
first_digit zero n c cs = (c, cs, refl)
first_digit (suc fuel) n c cs = elim (Bool-cases (ltb n 10)) [
  | inl last ↦ (48 + n, c ∷ cs, rw last refl)
  | inr more ↦
      let (d, ds, e) = first_digit fuel (n / 10) (48 + n % 10) (c ∷ cs) in (d, ds, rw more e)
]

itoa_first : (n : ℕ) → (d : ℕ) × (ds : Text) × (itoa n ≡ d ∷ ds)
itoa_first n = elim (Bool-cases (ltb n 10)) [
  | inl last ↦ (48 + n, [], rw last refl)
  | inr more ↦ let (d, ds, e) = first_digit n (n / 10) (48 + n % 10) [] in (d, ds, rw more e)
]

pub is_empty-itoa : (n : ℕ) → is_empty (itoa n) ≡ false
is_empty-itoa n = let (d, ds, e) = itoa_first n in ap is_empty e

atoi_digits :
    (d : ℕ) (ds : Text)
    → all is_digit (d ∷ ds) ≡ true
    → ltb (value_from 0 (d ∷ ds)) (2 ^ 63) ≡ true
    → atoi (d ∷ ds) ≡ some (value_from 0 (d ∷ ds))
atoi_digits d ds digits fits =
    let no_sign : (d == 43) ≡ false = ground arith in rw (no_sign, digits, fits) refl

-- strconv.Atoi undoes strconv.Itoa below 2^63.
pub atoi-itoa : (n : ℕ) → n < 2 ^ 63 → atoi (itoa n) ≡ some n
atoi-itoa n h =
    let (d, ds, e) = itoa_first n in
    let digits : all is_digit (d ∷ ds) ≡ true = ap (λ t. all is_digit t) (sym e) ∙ itoa-digits n in
    let value : value_from 0 (d ∷ ds) ≡ n =
      ap (value_from 0) (sym e) ∙ value_from-digits_from (suc n) n [] (omega arith) in
    let fits : ltb (value_from 0 (d ∷ ds)) (2 ^ 63) ≡ true = rw value (lt→ltb n (2 ^ 63) h) in
    ap atoi e ∙ atoi_digits d ds digits fits ∙ ap some value
