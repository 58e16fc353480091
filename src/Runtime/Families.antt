-- ===== src/Runtime/Families.antt =====
-- The static arrays of binaryinstrumentation.c, and the values of a thread-local key: families by index.
use dinamite.Shared.{
  ℕ, ◌≡◌, ◌≢◌, refl, sym, ap, subst, ◌==◌, ==_iff, if◌then◌else◌, ==_refl, Bool-cases, inl, inr,
  arith,
}

abbrev pub update {ℓ} : {A : Type ℓ} → (ℕ → A) → ℕ → A → ℕ → A
update f i a j = if i == j then a else f j

pub update_self {ℓ} : {A : Type ℓ} (f : ℕ → A) (i : ℕ) (a : A) → update f i a i ≡ a
update_self f i a = rw (==_refl i) refl

pub update-other {ℓ} : {A : Type ℓ} (f : ℕ → A) (i j : ℕ) (a : A) → i ≢ j → update f i a j ≡ f j
update-other f i j a h = ground arith

-- What holds of two families at each index holds after both are updated at one.
pub update-both {ℓ κ μ} :
    {A : Type ℓ} {B : Type κ} (P : ℕ → A → B → Type μ) (f : ℕ → A) (g : ℕ → B) (i : ℕ) (a : A)
    (b : B)
    → P i a b
    → (j : ℕ) → (i ≢ j → P j (f j) (g j))
    → P j (update f i a j) (update g i b j)
update-both P f g i a b h j k = elim (Bool-cases (i == j)) [
  | inl at ↦ rw at (subst (λ n. P n a b) ((==_iff i j).0 at) h)
  | inr off ↦ rw off (k (λ e. ground (arith, ==_iff i j)))
]

pub update-same {ℓ} : {A : Type ℓ} (f : ℕ → A) (i j : ℕ) → f j ≡ update f i (f i) j
update-same f i j = elim (Bool-cases (i == j)) [
  | inl at ↦ rw at (ap f (sym ((==_iff i j).0 at)))
  | inr off ↦ rw off refl
]

pub update-twice {ℓ} :
    {A : Type ℓ} (f : ℕ → A) (i : ℕ) (a b : A) (j : ℕ)
    → update (update f i a) i b j ≡ update f i b j
update-twice f i a b j = elim (Bool-cases (i == j)) [ inl at ↦ rw at refl | inr off ↦ rw off refl ]

-- A property of one index and of the others holds of all.
pub by_index {ℓ} : (P : ℕ → Type ℓ) (i : ℕ) → P i → ((j : ℕ) → i ≢ j → P j) → (j : ℕ) → P j
by_index P i h k j = elim (Bool-cases (i == j)) [
  | inl at ↦ subst P ((==_iff i j).0 at) h
  | inr off ↦ k j (λ e. ground (arith, ==_iff i j))
]
