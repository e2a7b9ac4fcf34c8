-- ===== src/Query/Slots.antt =====
-- The placeholders of the texts that the functions of Query/Format.antt make.
use kilonova.Prelude.{
  ℕ, zero, suc, ◌+◌, ◌≡◌, refl, sym, ap, ◌∙◌, Bool, true, ◌&&◌, List, [], ◌∷◌, ◌++◌, String, length,
  arith, ◌==◌, all,
}
use kilonova.Prelude.Text.{}
use kilonova.Query.Format.{
  Piece, literal, slot, missing, extra, Format, slots, is_clean, trim_left, trim_right, text_before,
  text_piece, trim_space, sprintf, join,
}
use kilonova.Query.Builder.{count_from}

module _ {ℓ} {A : Type ℓ} where
  abbrev pub all_slots : List (List (Piece A)) → List A
  all_slots [] = []
  all_slots (t ∷ ts) = slots t ++ all_slots ts

  pub append_nil : (xs : List A) → xs ++ [] ≡ xs
  append_nil [] = refl
  append_nil (x ∷ xs) = ap (λ r. x ∷ r) (append_nil xs)

  pub append_assoc : (xs ys zs : List A) → (xs ++ ys) ++ zs ≡ xs ++ (ys ++ zs)
  append_assoc [] ys zs = refl
  append_assoc (x ∷ xs) ys zs = ap (λ r. x ∷ r) (append_assoc xs ys zs)

  pub slots-append : (t u : List (Piece A)) → slots (t ++ u) ≡ slots t ++ slots u
  slots-append [] u = refl
  slots-append (literal s ∷ t) u = slots-append t u
  slots-append (slot x ∷ t) u = ap (λ r. x ∷ r) (slots-append t u)
  slots-append (missing ∷ t) u = slots-append t u
  slots-append (extra x ∷ t) u = slots-append t u

  pub is_clean-append : (t u : List (Piece A)) → is_clean (t ++ u) ≡ is_clean t && is_clean u
  is_clean-append [] u = refl
  is_clean-append (literal s ∷ t) u = is_clean-append t u
  is_clean-append (slot x ∷ t) u = is_clean-append t u
  is_clean-append (missing ∷ t) u = refl
  is_clean-append (extra x ∷ t) u = refl

  -- What a text shows does not change when white space goes.
  trim_left_lem :
      (t : List (Piece A)) → (slots (trim_left t) ≡ slots t) × (is_clean (trim_left t) ≡ is_clean t)
  unfolding trim_left
  trim_left_lem [] = (refl, refl)
  trim_left_lem (literal s ∷ t) =
      let rest = trim_left_lem t in (ground (arith, rest.0), ground (arith, rest.1))
  trim_left_lem (slot x ∷ t) = (refl, refl)
  trim_left_lem (missing ∷ t) = (refl, refl)
  trim_left_lem (extra x ∷ t) = (refl, refl)

  text_before_lem :
      (s : String) (t : List (Piece A))
      → (slots (text_before s t) ≡ slots t) × (is_clean (text_before s t) ≡ is_clean t)
  unfolding text_before text_piece
  text_before_lem s [] = (ground arith, ground arith)
  text_before_lem s (p ∷ t) = (refl, refl)

  trim_right_lem :
      (t : List (Piece A))
      → (slots (trim_right t) ≡ slots t) × (is_clean (trim_right t) ≡ is_clean t)
  unfolding trim_right
  trim_right_lem [] = (refl, refl)
  trim_right_lem (literal s ∷ t) =
      let first = text_before_lem s (trim_right t) in
      let rest = trim_right_lem t in (first.0 ∙ rest.0, first.1 ∙ rest.1)
  trim_right_lem (slot x ∷ t) = let rest = trim_right_lem t in (ap (λ r. x ∷ r) rest.0, rest.1)
  trim_right_lem (missing ∷ t) = ((trim_right_lem t).0, refl)
  trim_right_lem (extra x ∷ t) = ((trim_right_lem t).0, refl)

  pub slots-trim_space : (t : List (Piece A)) → slots (trim_space t) ≡ slots t
  unfolding trim_space
  slots-trim_space t = (trim_right_lem (trim_left t)).0 ∙ (trim_left_lem t).0

  pub is_clean-trim_space : (t : List (Piece A)) → is_clean (trim_space t) ≡ is_clean t
  unfolding trim_space
  is_clean-trim_space t = (trim_right_lem (trim_left t)).1 ∙ (trim_left_lem t).1

  -- As many verbs as arguments.
  abbrev pub fits : Format → List A → Bool
  fits t xs = is_clean t && (length (slots t) == length xs)

  pub sprintf_lem :
      (t : Format) (xs : List A)
      → fits t xs ≡ true
      → (slots (sprintf t xs) ≡ xs) × (is_clean (sprintf t xs) ≡ true)
  sprintf_lem [] [] h = (refl, refl)
  sprintf_lem [] (x ∷ xs) h = ground arith
  sprintf_lem (literal s ∷ t) xs h = sprintf_lem t xs h
  sprintf_lem (slot u ∷ t) [] h = ground arith
  sprintf_lem (slot u ∷ t) (x ∷ xs) h =
      let rest = sprintf_lem t xs (ground arith) in (ap (λ r. x ∷ r) rest.0, rest.1)
  sprintf_lem (missing ∷ t) xs h = ground arith
  sprintf_lem (extra u ∷ t) xs h = ground arith

  pub slots-join :
      (ts : List (List (Piece A))) (separator : String) → slots (join ts separator) ≡ all_slots ts
  slots-join [] separator = refl
  slots-join (t ∷ []) separator = sym (append_nil (slots t))
  slots-join (t ∷ u ∷ ts) separator =
      slots-append t (literal separator ∷ join (u ∷ ts) separator)
      ∙ ap (λ r. slots t ++ r) (slots-join (u ∷ ts) separator)

  pub is_clean-join :
      (ts : List (List (Piece A))) (separator : String)
      → is_clean (join ts separator) ≡ all is_clean ts
  is_clean-join [] separator = refl
  is_clean-join (t ∷ []) separator = ground arith
  is_clean-join (t ∷ u ∷ ts) separator =
      is_clean-append t (literal separator ∷ join (u ∷ ts) separator)
      ∙ ap (λ r. is_clean t && r) (is_clean-join (u ∷ ts) separator)

  pub all_slots-append :
      (ts : List (List (Piece A))) (t : List (Piece A))
      → all_slots (ts ++ (t ∷ [])) ≡ all_slots ts ++ slots t
  all_slots-append [] t = append_nil (slots t)
  all_slots-append (u ∷ ts) t =
      ap (λ r. slots u ++ r) (all_slots-append ts t)
      ∙ sym (append_assoc (slots u) (all_slots ts) (slots t))

  pub all-append :
      (ts : List (List (Piece A))) (t : List (Piece A))
      → all is_clean ts ≡ true
      → is_clean t ≡ true
      → all is_clean (ts ++ (t ∷ [])) ≡ true
  all-append [] t h c = ground arith
  all-append (u ∷ ts) t h c = ground (arith, all-append ts t (ground arith) c)

pub count_from-append :
    (first m n : ℕ) → count_from first m ++ count_from (first + m) n ≡ count_from first (m + n)
count_from-append first zero n =
    let same : first + 0 ≡ first = omega arith in
    let none_before : 0 + n ≡ n = omega arith in
    ap (λ k. count_from k n) same ∙ ap (λ k. count_from first k) (sym none_before)
count_from-append first (suc m) n =
    let step : first + suc m ≡ suc first + m = omega arith in
    let total : suc m + n ≡ suc (m + n) = omega arith in
    ap (λ r. first ∷ r)
      (ap (λ k. count_from (suc first) m ++ count_from k n) step
        ∙ count_from-append (suc first) m n)
    ∙ ap (λ k. count_from first k) (sym total)

pub length-count_from : (first n : ℕ) → length (count_from first n) ≡ n
length-count_from first zero = refl
length-count_from first (suc n) = ap suc (length-count_from (suc first) n)
