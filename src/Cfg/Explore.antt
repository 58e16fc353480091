-- ===== src/Cfg/Explore.antt =====
-- The sets that `explorePath` leaves in `visits`.
use dinamite.Shared.{
  ℕ, zero, suc, ◌+◌, ◌≤◌, ◌<◌, ◌≡◌, ◌≢◌, ◌⊎◌, inl, inr, refl, subst, ◌∙◌, ap, arith, List, [], ◌∷◌,
  Option, none, some, Option-cases, Bool-cases, ltb, ◌==◌, ==_iff, length, get_elem?, Some, All,
}
use dinamite.Shared.IntSets.{IntSet, union, size, Increasing}
use dinamite.Shared.IntSets.Subset.{union-nil}
use dinamite.Cfg.{
  Block, Blocks, Terminator, missing, returns, goes_to, calculate_block, lines_of, terminator_at,
  Visits, visit, visited_lines, larger, explore_successors, explore_terminator, block_lines,
  terminator_of, explore_path, successors, Walk, stop, step, walk_lines, IsClosed,
}
use dinamite.Cfg.Lines.{add_lines-Increasing}

-- The blocks below `n` that are not visited.
abbrev pub unseen : ℕ → Visits → ℕ
unseen zero v = 0
unseen (suc n) v = (elim (v n) [ none ↦ 1 | some _ ↦ 0 ]) + unseen n v

-- What is visited stays visited.
abbrev pub Extends : Visits → Visits → Type 0
Extends v v' = (c : ℕ) → v' c ≡ none → v c ≡ none

unseen-visit_above :
    (n b : ℕ) (s : IntSet) (v : Visits) → n ≤ b → unseen n (visit v b s) ≡ unseen n v
unseen-visit_above zero b s v h = refl
unseen-visit_above (suc n) b s v h = ground (arith, unseen-visit_above n b s v)

unseen-visit :
    (n b : ℕ) (s : IntSet) (v : Visits)
    → b < n
    → v b ≡ none
    → suc (unseen n (visit v b s)) ≡ unseen n v
unseen-visit zero b s v h e = elim h [ ]
unseen-visit (suc n) b s v h e = elim (Bool-cases (b == n)) [
  | inl here ↦ let same : b ≡ n = (==_iff b n).0 here in ground (arith, unseen-visit_above n b s v)
  | inr other ↦ ground (arith, unseen-visit n b s v)
]

unseen-le : (n : ℕ) (v v' : Visits) → Extends v v' → unseen n v' ≤ unseen n v
unseen-le zero v v' x = omega arith
unseen-le (suc n) v v' x = ground (arith, unseen-le n v v' x, x n)

lines_of-Increasing : (block : Option Block) → Increasing (lines_of block)
unfolding lines_of calculate_block
lines_of-Increasing none = tt
lines_of-Increasing (some block) = add_lines-Increasing [] block.lines tt

-- In a closed function the successors of a block are blocks.
successors-lt :
    (n b : ℕ) (bs : Blocks)
    → All (λ (block : Block). All (λ c. c < n) (successors block.terminator)) bs
    → All (λ c. c < n) (successors (terminator_of bs b))
unfolding terminator_of terminator_at successors
successors-lt n b [] h = tt
successors-lt n zero (block ∷ bs) h = h.0
successors-lt n (suc b) (block ∷ bs) h = successors-lt n b bs h.1

module _ (blocks : Blocks) where
  block_lines-Increasing : (b : ℕ) → Increasing (block_lines blocks b)
  unfolding block_lines
  block_lines-Increasing b = lines_of-Increasing (get_elem? blocks b)

  -- Empty, or the lines of a walk that begins at the block.
  abbrev pub IsWalkSet : ℕ → IntSet → Type 0
  IsWalkSet b s = (s ≡ []) ⊎ ((w : Walk blocks b) × (s ≡ walk_lines blocks w))

  abbrev pub HoldsWalks : Visits → Type 0
  HoldsWalks v = (b : ℕ) (s : IntSet) → v b ≡ some s → IsWalkSet b s

  -- What a call on block `b` promises.
  abbrev pub Explored : Visits → ℕ → Option Visits → Type 0
  Explored v b r = (v' : Visits) × (r ≡ some v') × Extends v v' × (v' b ≢ none) × HoldsWalks v'

  abbrev pub Explores : ℕ → (Visits → ℕ → Option Visits) → Type 0
  Explores k explore =
      (v : Visits) (b : ℕ)
      → b < length blocks
      → unseen (length blocks) v < k
      → HoldsWalks v
      → Explored v b (explore v b)

  HoldsWalks-visit :
      (v : Visits) (b : ℕ) (s : IntSet) → HoldsWalks v → IsWalkSet b s → HoldsWalks (visit v b s)
  HoldsWalks-visit v b s h w c t e = elim (Bool-cases (b == c)) [
    | inl here ↦
        subst (λ d. IsWalkSet d t) ((==_iff b c).0 here) (subst (IsWalkSet b) (ground arith) w)
    | inr other ↦ h c t (ground arith)
  ]

  Extends-visit : (v : Visits) (b : ℕ) (s : IntSet) → Extends v (visit v b s)
  Extends-visit v b s c e = ground arith

  IsWalkSet-union :
      (b c : ℕ) (s : IntSet)
      → Some (λ d. d ≡ c) (successors (terminator_of blocks b))
      → IsWalkSet c s
      → IsWalkSet b (union s (block_lines blocks b))
  unfolding walk_lines
  IsWalkSet-union b c s m (inl e) = inr (
    stop b,
    ap (λ t. union t (block_lines blocks b)) e
        ∙ union-nil (block_lines blocks b) (block_lines-Increasing b),
  )
  IsWalkSet-union b c s m (inr (w, e)) =
      inr (step b m w, ap (λ t. union t (block_lines blocks b)) e)

  IsWalkSet-larger :
      (b : ℕ) (s t : IntSet) → IsWalkSet b s → IsWalkSet b t → IsWalkSet b (larger s t)
  unfolding larger
  IsWalkSet-larger b s t hs ht = elim (Bool-cases (ltb (size s) (size t))) [
    | inl e ↦ rw e ht
    | inr e ↦ rw e hs
  ]

  -- What the loop over successors promises.
  abbrev Looped : Visits → ℕ → Option (Visits × IntSet) → Type 0
  Looped v b r =
      (v' : Visits) × (m : IntSet) × (r ≡ some (v', m))
      × Extends v v'
      × HoldsWalks v'
      × IsWalkSet b m

  explore_successors_ends :
      (k : ℕ) (explore : Visits → ℕ → Option Visits) (b : ℕ) (cs : List ℕ) (v : Visits) (m : IntSet)
      → Explores k explore
      → All (λ c. c < length blocks) cs
      → ((c : ℕ) → Some (λ d. d ≡ c) cs → Some (λ d. d ≡ c) (successors (terminator_of blocks b)))
      → unseen (length blocks) v < k
      → HoldsWalks v
      → IsWalkSet b m
      → Looped v b (explore_successors explore (block_lines blocks b) cs v m)
  unfolding explore_successors
  explore_successors_ends k explore b [] v m ex cl sub lt h w = (v, m, refl, λ c e. e, h, w)
  explore_successors_ends k explore b (c ∷ cs) v m ex cl sub lt h w =
      let (v1, e1, ext1, seen, h1) = ex v c cl.0 lt h in
      elim (Option-cases (v1 c)) [
        | inl e ↦ absurd (seen e)
        | inr (s, e) ↦
            let read : visited_lines v1 c ≡ s = rw (e, visited_lines) in
            let now : IsWalkSet b (union (visited_lines v1 c) (block_lines blocks b)) =
              rw read (IsWalkSet-union b c s (sub c (inl refl)) (h1 c s e)) in
            let next = larger m (union (visited_lines v1 c) (block_lines blocks b)) in
            let fewer = unseen-le (length blocks) v v1 ext1 in
            let (v2, m2, e2, ext2, h2, w2) =
              explore_successors_ends k explore b cs v1 next ex cl.1 (λ d q. sub d (inr q))
                (omega arith) h1 (IsWalkSet-larger b m _ w now) in
            (v2, m2, rw (e1, explore_successors) e2, λ d q. ext1 d (ext2 d q), h2, w2)
      ]

  -- The part of a call after the block was entered in `visits`.
  explore_terminator_ends :
      (k : ℕ) (explore : Visits → ℕ → Option Visits) (b : ℕ) (t : Terminator) (v : Visits)
      → Explores k explore
      → All (λ c. c < length blocks) (successors t)
      → ((c : ℕ)
          → Some (λ d. d ≡ c) (successors t)
          → Some (λ d. d ≡ c) (successors (terminator_of blocks b)))
      → unseen (length blocks) v < k
      → v b ≢ none
      → HoldsWalks v
      → Explored v b (explore_terminator explore b (block_lines blocks b) t v)
  unfolding explore_terminator successors
  explore_terminator_ends k explore b missing v ex cl sub lt seen h = (v, refl, λ c e. e, seen, h)
  explore_terminator_ends k explore b returns v ex cl sub lt seen h = (v, refl, λ c e. e, seen, h)
  explore_terminator_ends k explore b (goes_to cs) v ex cl sub lt seen h =
      let (v1, m, e1, ext1, h1, w) =
        explore_successors_ends k explore b cs v [] ex cl sub lt h (inl refl) in
      (
        visit v1 b m,
        rw (e1, explore_terminator),
        λ c e. ext1 c (Extends-visit v1 b m c e),
        λ e. ground arith,
        HoldsWalks-visit v1 b m h1 w,
      )

  pub explore_path_ends : (fuel : ℕ) → IsClosed blocks → Explores fuel (explore_path blocks fuel)
  unfolding explore_path
  explore_path_ends zero closed v b b_lt lt h = absurd (omega arith)
  explore_path_ends (suc fuel) closed v b b_lt lt h = elim (Option-cases (v b)) [
    | inr (s, e) ↦ (v, rw (e, explore_path), λ c q. q, λ q. cc, h)
    | inl e ↦
        let fewer = unseen-visit (length blocks) b (block_lines blocks b) v b_lt e in
        let v1 = visit v b (block_lines blocks b) in
        let (v2, e2, ext2, seen, h2) =
          explore_terminator_ends fuel (explore_path blocks fuel) b (terminator_of blocks b) v1
            (explore_path_ends fuel closed) (successors-lt (length blocks) b blocks closed)
            (λ c q. q) (omega arith) (λ q. ground arith)
            (HoldsWalks-visit v b (block_lines blocks b) h
              (inr (stop b, unfold walk_lines in refl))) in
        (
          v2,
          rw (e, explore_path) e2,
          λ c q. Extends-visit v b (block_lines blocks b) c (ext2 c q),
          seen,
          h2,
        )
  ]
