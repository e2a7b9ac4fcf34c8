-- ===== src/Decimal.antt =====
-- The decimal numbers of github.com/shopspring/decimal, which scores are made of. The package is not
-- part of the repository: its type and the operations that the program calls are a parameter, and
-- what the program relies on are named laws.
use kilonova.Prelude.{ℕ, ◌≡◌, ◌⊎◌, Bool, true}
use kilonova.Prelude.Int.{ℤ}

pub record Decimal : Type 1 where
  pub D : Type 0
  -- decimal.NewFromInt; decimal.Zero is `from_int 0`.
  pub from_int : ℕ → D
  pub add : D → D → D
  pub mul : D → D → D
  -- d.Shift(places): d * 10 ^ places.
  pub shift : D → ℤ → D
  -- d.Round(places).
  pub round : D → ℕ → D
  -- decimal.Min of two.
  pub min : D → D → D
  pub equal : D → D → Bool

-- What Min and Equal are documented to do, over the order of the numbers.
pub record DecimalLaws (d : Decimal) : Type 1 where
  pub Le : d.D → d.D → Type 0
  pub le_refl : (a : d.D) → Le a a
  pub le_trans : (a b c : d.D) → Le a b → Le b c → Le a c
  pub min-le_left : (a b : d.D) → Le (d.min a b) a
  pub min-le_right : (a b : d.D) → Le (d.min a b) b
  pub min-eq : (a b : d.D) → (d.min a b ≡ a) ⊎ (d.min a b ≡ b)
  pub equal_refl : (a : d.D) → d.equal a a ≡ true
