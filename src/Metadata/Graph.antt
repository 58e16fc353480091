-- ===== src/Metadata/Graph.antt =====
-- The nodes of the debug metadata as a graph, and what of it was visited.
use dinamite.Shared.{
  ℕ, zero, suc, ◌+◌, ◌<◌, ◌≤◌, ◌≡◌, inl, inr, refl, arith, Bool, true, false, List, [], ◌∷◌, Option,
  none, some, Bool-cases, ◌==◌, ==_iff, any, All, Some, length, if◌then◌else◌,
}
use dinamite.Metadata.{Operand, Nodes, operands, as_node, MetadataCrawler}
use dinamite.Metadata.Crawl.{walk_operands}

abbrev pub seen : List ℕ → ℕ → Bool
seen visited mdn = any (λ n. n == mdn) visited

-- The nodes below `n` that are not visited.
abbrev pub unseen : ℕ → List ℕ → ℕ
unseen zero v = 0
unseen (suc n) v = (if seen v n then 0 else 1) + unseen n v

pub unseen_above : (n b : ℕ) (v : List ℕ) → n ≤ b → unseen n (b ∷ v) ≡ unseen n v
unseen_above zero b v h = refl
unseen_above (suc n) b v h = ground (arith, unseen_above n b v)

pub unseen-enter :
    (n b : ℕ) (v : List ℕ) → b < n → seen v b ≡ false → suc (unseen n (b ∷ v)) ≡ unseen n v
unseen-enter zero b v h e = absurd (omega arith)
unseen-enter (suc n) b v h e = elim (Bool-cases (b == n)) [
  | inl here ↦ let same : b ≡ n = (==_iff b n).0 here in ground (arith, unseen_above n b v)
  | inr other ↦ ground (arith, unseen-enter n b v)
]

pub unseen-le :
    (n : ℕ) (v v' : List ℕ)
    → ((m : ℕ) → seen v m ≡ true → seen v' m ≡ true)
    → unseen n v' ≤ unseen n v
unseen-le zero v v' x = omega arith
unseen-le (suc n) v v' x = ground (arith, unseen-le n v v' x, x n)

-- The operand is no node, or a node of the module.
abbrev pub Below : ℕ → Option Operand → Type 0
Below n op = (k : ℕ) → as_node op ≡ some k → k < n

-- The node is one of the operands.
abbrev pub Among : List (Option Operand) → ℕ → Type 0
Among ops k = Some (λ op. as_node op ≡ some k) ops

-- Every operand that is a node is a node of the module.
abbrev pub IsGraph : Nodes → Type 0
IsGraph nodes = All (λ ops. All (Below (length nodes)) ops) nodes

-- What can be reached from the nodes among the roots.
pub data Reaches (nodes : Nodes) (roots : List (Option Operand)) : ℕ → Type 0 where
  root : {m : ℕ} → Among roots m → Reaches nodes roots m
  child : {m k : ℕ} → Reaches nodes roots m → Among (operands nodes m) k → Reaches nodes roots k

pub Among-Below : (n k : ℕ) (ops : List (Option Operand)) → All (Below n) ops → Among ops k → k < n
Among-Below n k [] a h = absurd h
Among-Below n k (op ∷ ops) a (inl e) = a.0 k e
Among-Below n k (op ∷ ops) a (inr h) = Among-Below n k ops a.1 h

pub operands-Below :
    (n m : ℕ) (nodes : Nodes)
    → All (λ ops. All (Below n) ops) nodes
    → All (Below n) (operands nodes m)
operands-Below n m [] h = tt
operands-Below n zero (ops ∷ nodes) h = h.0
operands-Below n (suc m) (ops ∷ nodes) h = operands-Below n m nodes h.1

pub walk_operands-none :
    (walk : MetadataCrawler → ℕ → Option MetadataCrawler) (op : Option Operand)
    (ops : List (Option Operand)) (c : MetadataCrawler)
    → as_node op ≡ none
    → walk_operands walk (op ∷ ops) c ≡ walk_operands walk ops c
unfolding walk_operands
walk_operands-none walk op ops c e = rw (e, walk_operands) refl

pub walk_operands-some :
    (walk : MetadataCrawler → ℕ → Option MetadataCrawler) (op : Option Operand)
    (ops : List (Option Operand)) (c c1 : MetadataCrawler) (m : ℕ)
    → as_node op ≡ some m
    → walk c m ≡ some c1
    → walk_operands walk (op ∷ ops) c ≡ walk_operands walk ops c1
unfolding walk_operands
walk_operands-some walk op ops c c1 m e h = rw (e, walk_operands) (rw h refl)
