-- ===== src/IdMap/Ownership.antt =====
-- Which process holds which chunk of a pool, and which ids were given to new names: the bookkeeping
-- that the chunk pool of IdMap.hpp is there to keep right.
use dinamite.Shared.{
  ℕ, suc, ◌+◌, ◌*◌, ◌<◌, ◌≤◌, ◌≡◌, ◌≢◌, inl, inr, refl, subst, arith, ℤ, pos, List, [], ◌∷◌, Option,
  none, some, ◌==◌, ==_iff, if◌then◌else◌, All, Some, Bool-cases,
}
use dinamite.IdMap.Pool.{Cell, cell, set_cell}
use dinamite.IdMap.Reserve.{closed_cell}

abbrev pub update {ℓ} : {A : Type ℓ} → (ℕ → A) → ℕ → A → ℕ → A
update f p a q = if p == q then a else f q

-- The id was given out from chunk `k`.
abbrev pub GivenBy : ℕ → (ℕ → ℕ) → ℕ → ℤ → Type 0
GivenBy size next k x = (i : ℕ) × (x ≡ pos i) × (k * size ≤ i) × (i < next k)

abbrev pub Given : ℕ → ℕ → (ℕ → ℕ) → ℤ → Type 0
Given n size next x = (k : ℕ) × (k < n) × GivenBy size next k x

-- No two of the ids are equal.
abbrev pub AllDistinct : List ℤ → Type 0
AllDistinct [] = Unit
AllDistinct (x ∷ xs) = (¬ Some (λ y. y ≡ x) xs) × AllDistinct xs

-- `next k` is the first id of chunk `k` that was not given out, `holder p` the chunk of process `p`.
pub record Owned (n size : ℕ) (cells : ℕ → Cell) (next : ℕ → ℕ) (holder : ℕ → Option ℕ)
    (issued : List ℤ) : Type 0 where
  pub used : (p k : ℕ) → holder p ≡ some k → (k < n) × ((cells k).state ≡ 2)
  pub distinct : (p q k : ℕ) → holder p ≡ some k → holder q ≡ some k → p ≡ q
  pub saved : (k : ℕ) → k < n → (cells k).state ≢ 2 → (cells k).free ≡ next k
  pub room : (k : ℕ) → k < n → (cells k).state ≡ 1 → next k < k * size + size
  pub low : (k : ℕ) → k < n → k * size ≤ next k
  pub high : (k : ℕ) → k < n → next k ≤ k * size + size
  pub given : All (Given n size next) issued
  pub unique : AllDistinct issued

pub Owned-empty : (size : ℕ) (cells : ℕ → Cell) → Owned 0 size cells (λ _. 0) (λ _. none) []
Owned-empty size cells = record {
  used = λ p k e. cc;
  distinct = λ p q k e. cc;
  saved = λ k h. absurd (omega arith);
  room = λ k h. absurd (omega arith);
  low = λ k h. absurd (omega arith);
  high = λ k h. absurd (omega arith);
  given = tt;
  unique = tt;
}

-- Ids stay given where no chunk's next id goes down.
Given-mono :
    (n n' size : ℕ) (next next' : ℕ → ℕ) (xs : List ℤ)
    → n ≤ n'
    → ((k : ℕ) → k < n → next k ≤ next' k)
    → All (Given n size next) xs
    → All (Given n' size next') xs
Given-mono n n' size next next' [] h up a = tt
Given-mono n n' size next next' (x ∷ xs) h up ((k, lt, (i, e, lo, hi)), rest) =
    let more = up k lt in
    ((k, omega arith, (i, e, lo, omega arith)), Given-mono n n' size next next' xs h up rest)

-- Two chunks share no id.
same_chunk :
    (j k i size : ℕ)
    → j * size ≤ i
    → i < j * size + size
    → k * size ≤ i
    → i < k * size + size
    → j ≡ k
same_chunk j k i size a b c d = grind arith

not-Given :
    (n size : ℕ) (next : ℕ → ℕ) (k : ℕ) (xs : List ℤ)
    → ((j : ℕ) → j < n → next j ≤ j * size + size)
    → k * size ≤ next k
    → next k < k * size + size
    → All (Given n size next) xs
    → ¬ Some (λ y. y ≡ pos (next k)) xs
not-Given n size next k [] high lo hi a m = m
not-Given n size next k (x ∷ xs) high lo hi ((j, lt, (i, e, below, above)), rest) (inl same) =
    let number : i ≡ next k = cc in
    let bound = high j lt in
    let chunk = same_chunk j k i size below (omega arith) (omega arith) (omega arith) in
    let past : i < next k = subst (λ c. i < next c) chunk above in omega arith
not-Given n size next k (x ∷ xs) high lo hi (g, rest) (inr m) =
    not-Given n size next k xs high lo hi rest m

module _ (n size : ℕ) (cells : ℕ → Cell) (next : ℕ → ℕ) (holder : ℕ → Option ℕ) (issued : List ℤ)
    (o : Owned n size cells next holder issued) where
  -- A process gives the next id of its chunk to a new name.
  pub Owned-take :
      (p k : ℕ)
      → holder p ≡ some k
      → next k < k * size + size
      → Owned n size cells (update next k (suc (next k))) holder (pos (next k) ∷ issued)
  Owned-take p k e room =
      let (lt, in_use) = o.used p k e in
      let lo = o.low k lt in
      record {
        used = o.used;
        distinct = o.distinct;
        saved = λ j h s. elim (Bool-cases (k == j)) [
          | inl here ↦ absurd (s (subst (λ c. (cells c).state ≡ 2) ((==_iff k j).0 here) in_use))
          | inr other ↦ rw other (o.saved j h s)
        ];
        room = λ j h s. elim (Bool-cases (k == j)) [
          | inl here ↦
              let both : (cells j).state ≡ 2 =
                subst (λ c. (cells c).state ≡ 2) ((==_iff k j).0 here) in_use in
              absurd (omega arith)
          | inr other ↦ rw other (o.room j h s)
        ];
        low = λ j h. ground (arith, o.low j h);
        high = λ j h. ground (arith, o.high j h);
        given = (
          (k, lt, (next k, refl, lo, ground arith)),
          Given-mono n n size next (update next k (suc (next k))) issued (omega arith)
              (λ j h. ground arith) o.given,
        );
        unique = (not-Given n size next k issued o.high lo room o.given, o.unique);
      }

  -- A process that holds no chunk takes an opened one.
  pub Owned-open :
      (p j : ℕ)
      → holder p ≡ none
      → j < n
      → (cells j).state ≡ 1
      → Owned n size
          (set_cell cells j (cell 2 (cells j).free))
          next
          (update holder p (some j))
          issued
  Owned-open p j e lt open_ = record {
    used = λ q k h. ground (arith, o.used q k);
    distinct = λ q r k h h'. ground (arith, o.distinct q r k, o.used q k, o.used r k);
    saved = λ k h s. ground (arith, o.saved k h);
    room = λ k h s. ground (arith, o.room k h);
    low = o.low;
    high = o.high;
    given = o.given;
    unique = o.unique;
  }

  -- A process that holds no chunk makes the next one.
  pub Owned-make :
      (p : ℕ)
      → 0 < size
      → holder p ≡ none
      → Owned
          (suc n)
          size
          (set_cell cells n (cell 2 (n * size)))
          (update next n (n * size))
          (update holder p (some n))
          issued
  Owned-make p size_pos e = record {
    used = λ q k h. ground (arith, o.used q k);
    distinct = λ q r k h h'. ground (arith, o.distinct q r k, o.used q k, o.used r k);
    saved = λ k h s. ground (arith, o.saved k);
    room = λ k h s. ground (arith, o.room k);
    low = λ k h. ground (arith, o.low k);
    high = λ k h. ground (arith, o.high k);
    given =
        Given-mono n (suc n) size next (update next n (n * size)) issued (omega arith)
          (λ k h. ground arith) o.given;
    unique = o.unique;
  }

  -- A process gives its chunk back.
  pub Owned-close :
      (p k : ℕ)
      → 0 < size
      → holder p ≡ some k
      → Owned n size
          (set_cell cells k (closed_cell size k (next k)))
          next
          (update holder p none)
          issued
  Owned-close p k size_pos e = record {
    used = λ q j h. ground (arith, o.used q j, o.distinct p q j);
    distinct = λ q r j h h'. ground (arith, o.distinct q r j);
    saved = λ j h s. ground (arith, o.saved j h);
    room = λ j h s. ground (arith, o.room j h);
    low = o.low;
    high = o.high;
    given = o.given;
    unique = o.unique;
  }

  -- A process ends and gives nothing back.
  pub Owned-crash : (p : ℕ) → Owned n size cells next (update holder p none) issued
  Owned-crash p = record {
    used = λ q j h. ground (arith, o.used q j);
    distinct = λ q r j h h'. ground (arith, o.distinct q r j);
    saved = o.saved;
    room = o.room;
    low = o.low;
    high = o.high;
    given = o.given;
    unique = o.unique;
  }
