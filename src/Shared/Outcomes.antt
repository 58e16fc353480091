-- ===== src/Shared/Outcomes.antt =====
-- How a call of the program can end: with a value, in `exit(-1)`, or by reading through a null pointer.

pub data Outcome {ℓ} (A : Type ℓ) : Type ℓ where
  value : A → Outcome A
  exited crashed : Outcome A

infixl 2 ◌>>=◌
unfoldable pub ◌>>=◌ {ℓ κ} : {A : Type ℓ} {B : Type κ} → Outcome A → (A → Outcome B) → Outcome B
value a >>= next = next a
exited >>= next = exited
crashed >>= next = crashed

-- The call ends with a value that has the property.
abbrev pub Returns {ℓ} : {A : Type ℓ} → (A → Type 0) → Outcome A → Type 0
Returns P (value a) = P a
Returns P exited = ⊥
Returns P crashed = ⊥

module _ {ℓ κ} {A : Type ℓ} {B : Type κ} (P : A → Type 0) (Q : B → Type 0) where
  pub Returns-bind :
      (m : Outcome A) (next : A → Outcome B)
      → Returns P m
      → ((a : A) → P a → Returns Q (next a))
      → Returns Q (m >>= next)
  unfolding ◌>>=◌
  Returns-bind (value a) next h k = k a h
  Returns-bind exited next h k = absurd h
  Returns-bind crashed next h k = absurd h

pub Returns-mono {ℓ} :
    {A : Type ℓ} (P Q : A → Type 0) (m : Outcome A)
    → ((a : A) → P a → Q a)
    → Returns P m
    → Returns Q m
Returns-mono P Q (value a) k h = k a h
Returns-mono P Q exited k h = absurd h
Returns-mono P Q crashed k h = absurd h
