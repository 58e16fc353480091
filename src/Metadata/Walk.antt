-- ===== src/Metadata/Walk.antt =====
-- `traverseMetadata` and the loops that call it: the nodes that they enter.
use dinamite.Shared.{
  ℕ, zero, suc, ◌<◌, ◌≤◌, ◌≡◌, ◌↔◌, ◌⊎◌, inl, inr, refl, sym, subst, ap, ◌∙◌, arith, true, false,
  ◌||◌, List, [], ◌∷◌, Option, some, Option-cases, Bool-cases, ◌==◌, ==_iff, ==_refl, All, length,
  Bytes,
}
use dinamite.Metadata.{
  Operand, Nodes, operands, as_node, Traversal, typedef_traversal, field_name_traversal,
  MetadataCrawler, Tags, name_struct, traverse_typedef,
}
use dinamite.Metadata.Crawl.{
  traverse_field_names, traverse, enter, walk_operands, traverse_metadata, walk_from,
}
use dinamite.Metadata.Graph.{
  Among, Below, IsGraph, Reaches, operands-Below, root, seen, unseen, unseen-enter, unseen-le,
  walk_operands-none, walk_operands-some, child,
}

module _ (demangle : Bytes → Bytes) (tags : Tags) (nodes : Nodes) (t : Traversal) where
  traverse-visited :
      (u : Traversal) (m : ℕ) (c : MetadataCrawler)
      → (traverse demangle tags nodes u m c).visited ≡ c.visited
  unfolding traverse traverse_typedef traverse_field_names name_struct
  traverse-visited typedef_traversal m c = ground arith
  traverse-visited field_name_traversal m c = ground arith

  enter-visited :
      (m : ℕ) (c : MetadataCrawler) → (enter demangle tags nodes t m c).visited ≡ m ∷ c.visited
  unfolding enter
  enter-visited m c = traverse-visited t m (record c { visited = m ∷ c.visited })

  traverse_metadata-seen :
      (fuel : ℕ) (c : MetadataCrawler) (m : ℕ)
      → seen c.visited m ≡ true
      → traverse_metadata demangle tags nodes t (suc fuel) c m ≡ some c
  unfolding traverse_metadata
  traverse_metadata-seen fuel c m e = rw (e, traverse_metadata) refl

  traverse_metadata-new :
      (fuel : ℕ) (c : MetadataCrawler) (m : ℕ)
      → seen c.visited m ≡ false
      → traverse_metadata demangle tags nodes t (suc fuel) c m
        ≡ walk_operands
            (traverse_metadata demangle tags nodes t fuel)
            (operands nodes m)
            (enter demangle tags nodes t m c)
  unfolding traverse_metadata
  traverse_metadata-new fuel c m e = rw (e, traverse_metadata) refl

  module _ (roots : List (Option Operand)) where
    -- The second state comes from the first by entering nodes, each when it was not visited yet.
    pub data Entered (c : MetadataCrawler) : MetadataCrawler → Type 0 where
      unchanged : Entered c c
      entered :
          {c1 : MetadataCrawler} (m : ℕ)
          → Entered c c1
          → seen c1.visited m ≡ false
          → Reaches nodes roots m
          → Entered c (enter demangle tags nodes t m c1)

    seen-enter :
        (m k : ℕ) (c : MetadataCrawler)
        → seen (enter demangle tags nodes t m c).visited k ≡ ((m == k) || seen c.visited k)
    seen-enter m k c = ap (λ v. seen v k) (enter-visited m c)

    Entered-seen :
        {c c' : MetadataCrawler} (k : ℕ)
        → Entered c c'
        → seen c.visited k ≡ true
        → seen c'.visited k ≡ true
    Entered-seen k unchanged h = h
    Entered-seen k (entered {c1} m e n r) h = ground (arith, seen-enter m k c1, Entered-seen k e h)

    pub Entered-Reaches :
        {c c' : MetadataCrawler} (k : ℕ)
        → Entered c c'
        → seen c'.visited k ≡ true
        → (seen c.visited k ≡ true) ⊎ Reaches nodes roots k
    Entered-Reaches k unchanged h = inl h
    Entered-Reaches k (entered {c1} m e n r) h = elim (Bool-cases (m == k)) [
      | inl same ↦ inr (subst (Reaches nodes roots) ((==_iff m k).0 same) r)
      | inr other ↦ Entered-Reaches k e (sym (seen-enter m k c1 ∙ rw other refl) ∙ h)
    ]

    Entered-trans : {c c1 c2 : MetadataCrawler} → Entered c c1 → Entered c1 c2 → Entered c c2
    Entered-trans e unchanged = e
    Entered-trans e (entered m f n r) = entered m (Entered-trans e f) n r

    -- What was visited in between has its children visited.
    abbrev pub Closed : MetadataCrawler → MetadataCrawler → Type 0
    Closed c c' =
        (m : ℕ)
        → seen c'.visited m ≡ true
        → (seen c.visited m ≡ true)
          ⊎ ((k : ℕ) → Among (operands nodes m) k → seen c'.visited k ≡ true)

    Closed-trans :
        (c c1 c2 : MetadataCrawler) → Entered c1 c2 → Closed c c1 → Closed c1 c2 → Closed c c2
    Closed-trans c c1 c2 e h h2 m s = elim (h2 m s) [
      | inr all ↦ inr all
      | inl s1 ↦ elim (h m s1) [
        | inl s0 ↦ inl s0
        | inr all ↦ inr (λ k a. Entered-seen k e (all k a))
      ]
    ]

    abbrev pub Walked : MetadataCrawler → ℕ → Option MetadataCrawler → Type 0
    Walked c m r =
        (c' : MetadataCrawler) × (r ≡ some c')
        × Entered c c'
        × (seen c'.visited m ≡ true)
        × Closed c c'

    abbrev pub Walks : ℕ → (MetadataCrawler → ℕ → Option MetadataCrawler) → Type 0
    Walks fuel walk =
        (c : MetadataCrawler) (m : ℕ)
        → m < length nodes
        → Reaches nodes roots m
        → unseen (length nodes) c.visited < fuel
        → Walked c m (walk c m)

    abbrev pub Looped : MetadataCrawler → List (Option Operand) → Option MetadataCrawler → Type 0
    Looped c ops r =
        (c' : MetadataCrawler) × (r ≡ some c')
        × Entered c c'
        × ((k : ℕ) → Among ops k → seen c'.visited k ≡ true)
        × Closed c c'

    pub loop-Looped :
        (fuel : ℕ) (walk : MetadataCrawler → ℕ → Option MetadataCrawler)
        (ops : List (Option Operand)) (c : MetadataCrawler)
        → Walks fuel walk
        → All (Below (length nodes)) ops
        → ((k : ℕ) → Among ops k → Reaches nodes roots k)
        → unseen (length nodes) c.visited < fuel
        → Looped c ops (walk_operands walk ops c)
    unfolding walk_operands
    loop-Looped fuel walk [] c w b r u = (c, refl, unchanged, λ k h. absurd h, λ m s. inl s)
    loop-Looped fuel walk (op ∷ ops) c w b r u = elim (Option-cases (as_node op)) [
      | inl e ↦
          let (c', eq, en, all, closed) =
            loop-Looped fuel walk ops c w b.1 (λ k a. r k (inr a)) u in
          (
            c',
            walk_operands-none walk op ops c e ∙ eq,
            en,
            λ k a. (elim a [ inl q ↦ absurd (ground arith) | inr a' ↦ all k a' ]),
            closed,
          )
      | inr (m, e) ↦
          let (c1, eq1, en1, seen1, closed1) = w c m (b.0 m e) (r m (inl e)) u in
          let fewer = unseen-le (length nodes) c.visited c1.visited (λ k. Entered-seen k en1) in
          let (c2, eq2, en2, all, closed2) =
            loop-Looped fuel walk ops c1 w b.1 (λ k a. r k (inr a)) (omega arith) in
          (
            c2,
            walk_operands-some walk op ops c c1 m e eq1 ∙ eq2,
            Entered-trans en1 en2,
            λ k a. (elim a [
              | inl q ↦
                  Entered-seen k en2 (subst (λ x. seen c1.visited x ≡ true) (ground arith) seen1)
              | inr a' ↦ all k a'
            ]),
            Closed-trans c c1 c2 en2 closed1 closed2,
          )
    ]

    pub traverse_metadata-Walks :
        (fuel : ℕ) → IsGraph nodes → Walks fuel (traverse_metadata demangle tags nodes t fuel)
    unfolding traverse_metadata
    traverse_metadata-Walks zero g c m lt r u = absurd (omega arith)
    traverse_metadata-Walks (suc fuel) g c m lt r u = elim (Bool-cases (seen c.visited m)) [
      | inl s ↦ (c, traverse_metadata-seen fuel c m s, unchanged, s, λ k h. inl h)
      | inr n ↦
          let c1 = enter demangle tags nodes t m c in
          let fewer : suc (unseen (length nodes) c1.visited) ≡ unseen (length nodes) c.visited =
            ap (λ v. suc (unseen (length nodes) v)) (enter-visited m c)
            ∙ unseen-enter (length nodes) m c.visited lt n in
          let (c2, eq, en, all, closed) =
            loop-Looped fuel (traverse_metadata demangle tags nodes t fuel) (operands nodes m) c1
              (traverse_metadata-Walks fuel g) (operands-Below (length nodes) m nodes g)
              (λ k a. child r a) (omega arith) in
          let seen1 : seen c1.visited m ≡ true = seen-enter m m c ∙ rw (==_refl m) refl in
          (
            c2,
            traverse_metadata-new fuel c m n ∙ eq,
            Entered-trans (entered m unchanged n r) en,
            Entered-seen m en seen1,
            λ k s. elim (closed k s) [
              | inr children ↦ inr children
              | inl s1 ↦ elim (Bool-cases (m == k)) [
                | inl same ↦ inr (
                    subst (λ x. (j : ℕ) → Among (operands nodes x) j → seen c2.visited j ≡ true)
                      ((==_iff m k).0 same) all)
                | inr other ↦ inl (sym (seen-enter m k c ∙ rw other refl) ∙ s1)
              ]
            ],
          )
    ]

    -- What the loop over the roots leaves, from no visited node.
    pub roots-Reaches :
        (c c' : MetadataCrawler)
        → c.visited ≡ []
        → Entered c c'
        → ((k : ℕ) → Among roots k → seen c'.visited k ≡ true)
        → Closed c c'
        → (m : ℕ) → (seen c'.visited m ≡ true) ↔ Reaches nodes roots m
    roots-Reaches c c' empty e all closed m = (there, back)
      where
        there : seen c'.visited m ≡ true → Reaches nodes roots m
        there s = elim (Entered-Reaches m e s) [ inl s0 ↦ absurd (ground arith) | inr r ↦ r ]

        back : {k : ℕ} → Reaches nodes roots k → seen c'.visited k ≡ true
        back (root a) = all _ a
        back (child {m = j} r a) = elim (closed j (back r)) [
          | inl s0 ↦ absurd (ground arith)
          | inr children ↦ children _ a
        ]

    unseen_below : (n : ℕ) (v : List ℕ) → unseen n v ≤ n
    unseen_below zero v = omega arith
    unseen_below (suc n) v = ground (arith, unseen_below n v)

    -- The loop over the roots with more fuel than there are nodes.
    pub roots-Looped :
        (c : MetadataCrawler)
        → IsGraph nodes
        → All (Below (length nodes)) roots
        → Looped c roots (walk_operands (walk_from demangle tags nodes t) roots c)
    roots-Looped c g b =
        loop-Looped (suc (length nodes)) (walk_from demangle tags nodes t) roots c
          (traverse_metadata-Walks (suc (length nodes)) g) b (λ k a. root a)
          (omega (arith, unseen_below (length nodes) c.visited))
