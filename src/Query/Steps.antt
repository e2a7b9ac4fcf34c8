-- ===== src/Query/Steps.antt =====
-- The sequences of `if v := filter.F; v != nil { fb.AddConstraint(...) }` that fill a builder.
use kilonova.Prelude.{Bool, true, false, Option, none, some, if◌then◌else◌}

module _ {ℓ κ} {S : Type ℓ} {B : Type κ} where
  -- `if v := field; v != nil { step(v) }`
  unfoldable pub for_some : Option B → (B → S → S) → S → S
  for_some none step s = s
  for_some (some b) step s = step b s

module _ {ℓ} {S : Type ℓ} where
  -- `if test { step }`
  unfoldable pub when : Bool → (S → S) → S → S
  when true step s = step s
  when false step s = s

  -- One statement after another.
  infixr 40 ◌▷◌
  unfoldable pub ◌▷◌ : (S → S) → (S → S) → S → S
  first ▷ second = λ s. second (first s)

module _ {ℓ κ} {S : Type ℓ} (I : S → Type κ) where
  pub record Keeps (step : S → S) : Type (ℓ ⊔ κ) where
    pub keep : (s : S) → I s → I (step s)

  pub for_some-Keeps {μ} :
      {B : Type μ} (o : Option B) (step : B → S → S)
      → ((b : B) → Keeps (step b))
      → Keeps (for_some o step)
  unfolding for_some
  for_some-Keeps none step k = record { keep = λ s i. i }
  for_some-Keeps (some b) step k = k b

  pub when-Keeps : (test : Bool) (step : S → S) → Keeps step → Keeps (when test step)
  unfolding when
  when-Keeps true step k = k
  when-Keeps false step k = record { keep = λ s i. i }

  pub then-Keeps : (first second : S → S) → Keeps first → Keeps second → Keeps (first ▷ second)
  unfolding ◌▷◌
  then-Keeps first second k ks = record { keep = λ s i. ks.keep (first s) (k.keep s i) }

  pub if-Keeps :
      (test : Bool) (first second : S → S)
      → Keeps first
      → Keeps second
      → Keeps (if test then first else second)
  if-Keeps true first second k ks = k
  if-Keeps false first second k ks = ks
