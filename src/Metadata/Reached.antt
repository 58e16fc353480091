-- ===== src/Metadata/Reached.antt =====
-- `crawlModule`: what the two crawls reach.
use dinamite.Shared.{
  ℕ, ◌≡◌, ◌↔◌, refl, sym, ap, ◌∙◌, true, List, inl, inr, [], ◌∷◌, ◌++◌, Option, none, some,
  Option-cases, All, length, Bytes,
}
use dinamite.Metadata.{
  Operand, Nodes, as_node, Traversal, typedef_traversal, field_name_traversal, MetadataCrawler,
  Tags,
}
use dinamite.Metadata.Crawl.{
  walk_operands, walk_from, Instruction, crawl_nmd, crawl_all_instructions, crawl_with,
  crawl_module,
}
use dinamite.Metadata.Graph.{seen, Below, IsGraph, Reaches, walk_operands-some, walk_operands-none}
use dinamite.Metadata.Walk.{Entered, roots-Looped, roots-Reaches}

-- The operands that a crawl begins at, in order.
abbrev pub instruction_roots : List Instruction → List (Option Operand)
instruction_roots [] = []
instruction_roots (i ∷ is) = i.intrinsic_operands ++ (i.attached ++ instruction_roots is)

abbrev pub all_roots : Option (List (Option Operand)) → List Instruction → List (Option Operand)
all_roots none is = instruction_roots is
all_roots (some ops) is = ops ++ instruction_roots is

abbrev next :
    (MetadataCrawler → Option MetadataCrawler) → Option MetadataCrawler → Option MetadataCrawler
next f o = elim o [ none ↦ none | some c ↦ f c ]

walk_operands-out :
    (walk : MetadataCrawler → ℕ → Option MetadataCrawler) (op : Option Operand)
    (ops : List (Option Operand)) (c : MetadataCrawler) (m : ℕ)
    → as_node op ≡ some m
    → walk c m ≡ none
    → walk_operands walk (op ∷ ops) c ≡ none
unfolding walk_operands
walk_operands-out walk op ops c m e h = rw (e, walk_operands) (rw h refl)

next-eq :
    (f g : MetadataCrawler → Option MetadataCrawler) (o : Option MetadataCrawler)
    → ((c : MetadataCrawler) → f c ≡ g c)
    → next f o ≡ next g o
next-eq f g none h = refl
next-eq f g (some c) h = h c

walk_operands-append :
    (walk : MetadataCrawler → ℕ → Option MetadataCrawler) (xs ys : List (Option Operand))
    (c : MetadataCrawler)
    → walk_operands walk (xs ++ ys) c ≡ next (walk_operands walk ys) (walk_operands walk xs c)
unfolding walk_operands
walk_operands-append walk [] ys c = refl
walk_operands-append walk (op ∷ xs) ys c = elim (Option-cases (as_node op)) [
  | inl e ↦
      walk_operands-none walk op (xs ++ ys) c e
      ∙ walk_operands-append walk xs ys c
      ∙ ap (next (walk_operands walk ys)) (sym (walk_operands-none walk op xs c e))
  | inr (m, e) ↦ elim (Option-cases (walk c m)) [
    | inl h ↦
        walk_operands-out walk op (xs ++ ys) c m e h
        ∙ ap (next (walk_operands walk ys)) (sym (walk_operands-out walk op xs c m e h))
    | inr (c1, h) ↦
        walk_operands-some walk op (xs ++ ys) c c1 m e h
        ∙ walk_operands-append walk xs ys c1
        ∙ ap (next (walk_operands walk ys)) (sym (walk_operands-some walk op xs c c1 m e h))
  ]
]

module _ (demangle : Bytes → Bytes) (tags : Tags) (nodes : Nodes) where
  crawl_all_instructions-roots :
      (t : Traversal) (is : List Instruction) (c : MetadataCrawler)
      → crawl_all_instructions demangle tags nodes t is c
        ≡ walk_operands (walk_from demangle tags nodes t) (instruction_roots is) c
  unfolding crawl_all_instructions walk_operands
  crawl_all_instructions-roots t [] c = refl
  crawl_all_instructions-roots t (i ∷ is) c =
      let walk = walk_from demangle tags nodes t in
      next-eq _ (λ c1. walk_operands walk (i.attached ++ instruction_roots is) c1)
        (walk_operands walk i.intrinsic_operands c)
        (λ c1.
          next-eq _ (λ c2. walk_operands walk (instruction_roots is) c2)
            (walk_operands walk i.attached c1) (λ c2. crawl_all_instructions-roots t is c2)
          ∙ sym (walk_operands-append walk i.attached (instruction_roots is) c1))
      ∙ sym (walk_operands-append walk i.intrinsic_operands (i.attached ++ instruction_roots is) c)

  crawl_with-roots :
      (t : Traversal) (nmd : Option (List (Option Operand))) (is : List Instruction)
      (c : MetadataCrawler)
      → crawl_with demangle tags nodes t nmd is c
        ≡ walk_operands (walk_from demangle tags nodes t) (all_roots nmd is) c
  unfolding crawl_with crawl_nmd
  crawl_with-roots t none is c = crawl_all_instructions-roots t is c
  crawl_with-roots t (some ops) is c =
      let walk = walk_from demangle tags nodes t in
      next-eq _ (λ c1. walk_operands walk (instruction_roots is) c1) (walk_operands walk ops c)
        (λ c1. crawl_all_instructions-roots t is c1)
      ∙ sym (walk_operands-append walk ops (instruction_roots is) c)

  -- One crawl from no visited node: it ends, and visits exactly what can be reached.
  crawl_with-reached :
      (t : Traversal) (nmd : Option (List (Option Operand))) (is : List Instruction)
      (c : MetadataCrawler)
      → IsGraph nodes
      → All (Below (length nodes)) (all_roots nmd is)
      → c.visited ≡ []
      → (c' : MetadataCrawler) × (crawl_with demangle tags nodes t nmd is c ≡ some c')
        × Entered demangle tags nodes t (all_roots nmd is) c c'
        × ((m : ℕ) → (seen c'.visited m ≡ true) ↔ Reaches nodes (all_roots nmd is) m)
  crawl_with-reached t nmd is c g b empty =
      let roots = all_roots nmd is in
      let (c', e, en, all, closed) = roots-Looped demangle tags nodes t roots c g b in
      (
        c',
        crawl_with-roots t nmd is c ∙ e,
        en,
        roots-Reaches demangle tags nodes t roots c c' empty en all closed,
      )

  -- In a module whose operands that are nodes are among its nodes, `crawlModule` on a new crawler ends. Each of its two crawls enters nodes only, each when the crawl has not visited it yet, and visits exactly the nodes that can be reached from the compile units and the instructions.
  pub crawl_module-reached :
      (nmd : Option (List (Option Operand))) (is : List Instruction) (c : MetadataCrawler)
      → IsGraph nodes
      → All (Below (length nodes)) (all_roots nmd is)
      → c.visited ≡ []
      → (c1 c2 : MetadataCrawler) × (crawl_module demangle tags nodes nmd is c ≡ some c2)
        × Entered demangle tags nodes typedef_traversal (all_roots nmd is) c c1
        × Entered demangle tags nodes field_name_traversal
            (all_roots nmd is)
            (record c1 { visited = [] })
            c2
        × ((m : ℕ) → (seen c1.visited m ≡ true) ↔ Reaches nodes (all_roots nmd is) m)
        × ((m : ℕ) → (seen c2.visited m ≡ true) ↔ Reaches nodes (all_roots nmd is) m)
  unfolding crawl_module
  crawl_module-reached nmd is c g b empty =
      let (c1, e1, en1, r1) = crawl_with-reached typedef_traversal nmd is c g b empty in
      let (c2, e2, en2, r2) =
        crawl_with-reached field_name_traversal nmd is (record c1 { visited = [] }) g b refl in
      (c1, c2, rw (e1, crawl_module) e2, en1, en2, r1, r2)
