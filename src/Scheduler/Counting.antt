-- ===== src/Scheduler/Counting.antt =====
-- Counting ids, boxes and quotas, for the theorems on the pool of sandboxes.
use kilonova.Prelude.{
  ℕ, zero, suc, ◌+◌, ◌≤◌, ◌<◌, ◌≡◌, refl, inl, inr, Bool, List, [], ◌∷◌, ◌++◌, arith, ◌==◌, ==→eq,
  length, sum, if◌then◌else◌, Bool-cases,
}
use kilonova.Scheduler.{Box, id_range}

abbrev pub one_if : Bool → ℕ
one_if b = if b then 1 else 0

-- How often an id stands in the channel, and how many boxes in use have it.
unfoldable pub occurrences : ℕ → List ℕ → ℕ
occurrences i [] = 0
occurrences i (k ∷ ks) = one_if (k == i) + occurrences i ks

unfoldable pub holders : ℕ → List Box → ℕ
holders i [] = 0
holders i (b ∷ bs) = one_if (b.id == i) + holders i bs

unfoldable pub total_quota : List Box → ℕ
total_quota [] = 0
total_quota (b ∷ bs) = b.memory_quota + total_quota bs

pub occurrences-snoc :
    (i k : ℕ) (ks : List ℕ) → occurrences i (ks ++ k ∷ []) ≡ occurrences i ks + one_if (k == i)
unfolding occurrences
occurrences-snoc i k [] = omega arith
occurrences-snoc i k (x ∷ xs) = omega (arith, occurrences-snoc i k xs)

occurrences-id_range-below : (i next n : ℕ) → i < next → occurrences i (id_range next n) ≡ 0
unfolding occurrences id_range
occurrences-id_range-below i next zero h = refl
occurrences-id_range-below i next (suc n) h =
    ground (arith, occurrences-id_range-below i (suc next) n (omega arith))

pub occurrences-id_range : (i next n : ℕ) → occurrences i (id_range next n) ≤ 1
unfolding occurrences id_range
occurrences-id_range i next zero = omega arith
occurrences-id_range i next (suc n) = elim (Bool-cases (next == i)) [
  | inl here ↦
      let none_later =
        occurrences-id_range-below i (suc next) n (ground (arith, ==→eq next i here)) in
      ground arith
  | inr later ↦ ground (arith, occurrences-id_range i (suc next) n)
]

pub length-id_range : (next n : ℕ) → length (id_range next n) ≡ n
unfolding id_range
length-id_range next zero = refl
length-id_range next (suc n) = omega (arith, length-id_range (suc next) n)

pub holders-split :
    (i : ℕ) (before after : List Box) (b : Box)
    → holders i (before ++ b ∷ after) ≡ one_if (b.id == i) + holders i (before ++ after)
unfolding holders
holders-split i [] after b = refl
holders-split i (x ∷ before) after b = omega (arith, holders-split i before after b)

pub total_quota-split :
    (before after : List Box) (b : Box)
    → total_quota (before ++ b ∷ after) ≡ b.memory_quota + total_quota (before ++ after)
unfolding total_quota
total_quota-split [] after b = refl
total_quota-split (x ∷ before) after b = omega (arith, total_quota-split before after b)

pub sum-split :
    (before after : List ℕ) (q : ℕ) → sum (before ++ q ∷ after) ≡ q + sum (before ++ after)
sum-split [] after q = refl
sum-split (x ∷ before) after q = omega (arith, sum-split before after q)

pub length-split {ℓ} :
    {A : Type ℓ} (before after : List A) (x : A)
    → length (before ++ x ∷ after) ≡ suc (length (before ++ after))
length-split [] after x = refl
length-split (y ∷ before) after x = omega (arith, length-split before after x)
