-- ===== src/Metadata/Crawl.antt =====
-- MetadataCrawler.cpp: the traversals of the debug metadata, and the crawls of a module.
use dinamite.Shared.{
  ℕ, zero, suc, Bytes, codes, same, true, false, ◌||◌, List, [], ◌∷◌, Option, none, some, ◌==◌,
  length, any, if◌then◌else◌,
}
use dinamite.Metadata.{
  Operand, Nodes, operands, as_node, as_number, name_of, operand, Traversal, MetadataCrawler, Tags,
  check_tag, tag_of, holds_text, drop, traverse_typedef, get_fields, typedef_traversal,
  field_name_traversal,
}

-- What LLVM says of an instruction: the operands of a call of a function whose name starts with
-- "llvm.", and the nodes attached to it.
pub record Instruction : Type 0 where
  pub intrinsic_operands : List (Option Operand)
  pub attached : List (Option Operand)

-- The loop over operands, with `walk` for the recursive call.
unfoldable pub walk_operands :
    (MetadataCrawler → ℕ → Option MetadataCrawler)
    → List (Option Operand)
    → MetadataCrawler
    → Option MetadataCrawler
walk_operands walk [] c = some c
walk_operands walk (op ∷ ops) c = elim (as_node op) [
  | none ↦ walk_operands walk ops c
  | some child ↦ elim (walk c child) [ none ↦ none | some c' ↦ walk_operands walk ops c' ]
]

module _ (demangle : Bytes → Bytes) (tags : Tags) (nodes : Nodes) where
  -- The name of a class whose own name is empty. The text taken from `dmangleClass` is read after
  -- that string's end of life; its bytes are taken as they were.
  unfoldable pub unnamed_class : ℕ → List (Option Operand) → MetadataCrawler → Bytes
  unnamed_class mdn ops c = elim (c.typedef_map mdn) [
    | some name ↦ name
    | none ↦ elim (name_of (operand ops 14)) [
      | none ↦ codes "<unknown>"
      | some name ↦
          let dmangled = demangle name in
          if holds_text (codes "typeinfo name for ") dmangled
          then drop (length (codes "typeinfo name for ")) dmangled
          else dmangled
    ]
  ]

  -- `FieldNameTraversal::traverse`
  unfoldable pub traverse_field_names :
      ℕ → List (Option Operand) → MetadataCrawler → MetadataCrawler
  traverse_field_names mdn ops c = elim (as_number (operand ops 0)) [
    | none ↦ c
    | some n ↦
        if check_tag (tag_of n) tags.dw_tag_class_type
          || check_tag (tag_of n) tags.dw_tag_structure_type
        then (elim (name_of (operand ops 3)) [
          | none ↦ c
          | some name ↦
              let class_name = (if same name [] then unnamed_class mdn ops c else name) in
              elim (as_node (operand ops 10)) [
                | none ↦ c
                | some fields ↦ record c {
                  field_map = get_fields nodes class_name (operands nodes fields) c.field_map;
                }
              ]
        ])
        else c
  ]

  -- `traversal->traverse(mdn)`
  unfoldable pub traverse : Traversal → ℕ → MetadataCrawler → MetadataCrawler
  traverse typedef_traversal mdn c = traverse_typedef tags (operands nodes mdn) c
  traverse field_name_traversal mdn c = traverse_field_names mdn (operands nodes mdn) c

  -- `visited.insert(mdn); traversal->traverse(mdn)`
  unfoldable pub enter : Traversal → ℕ → MetadataCrawler → MetadataCrawler
  enter t mdn c = traverse t mdn (record c { visited = mdn ∷ c.visited })

  -- `traverseMetadata` on a pointer that is not null; `none` means that the fuel, a bound on the
  -- depth of the recursion, ran out.
  unfoldable pub traverse_metadata : Traversal → ℕ → MetadataCrawler → ℕ → Option MetadataCrawler
  traverse_metadata t zero c mdn = none
  traverse_metadata t (suc fuel) c mdn = elim (any (λ n. n == mdn) c.visited) [
    | true ↦ some c
    | false ↦ walk_operands (traverse_metadata t fuel) (operands nodes mdn) (enter t mdn c)
  ]

  -- More fuel than there are nodes.
  abbrev pub walk_from : Traversal → MetadataCrawler → ℕ → Option MetadataCrawler
  walk_from t = traverse_metadata t (suc (length nodes))

  -- `crawlNMD`; the named node may be missing.
  unfoldable pub crawl_nmd :
      Traversal → Option (List (Option Operand)) → MetadataCrawler → Option MetadataCrawler
  crawl_nmd t none c = some c
  crawl_nmd t (some ops) c = walk_operands (walk_from t) ops c

  -- `crawlAllInstructions`, over the instructions of the blocks of the functions in their order.
  unfoldable pub crawl_all_instructions :
      Traversal → List Instruction → MetadataCrawler → Option MetadataCrawler
  crawl_all_instructions t [] c = some c
  crawl_all_instructions t (i ∷ is) c = elim (walk_operands (walk_from t) i.intrinsic_operands c) [
    | none ↦ none
    | some c1 ↦ elim (walk_operands (walk_from t) i.attached c1) [
      | none ↦ none
      | some c2 ↦ crawl_all_instructions t is c2
    ]
  ]

  -- Both crawls of `crawlModule` with one traversal.
  unfoldable pub crawl_with :
      Traversal
      → Option (List (Option Operand))
      → List Instruction
      → MetadataCrawler
      → Option MetadataCrawler
  crawl_with t nmd is c = elim (crawl_nmd t nmd c) [
    | none ↦ none
    | some c' ↦ crawl_all_instructions t is c'
  ]

  -- `crawlModule`
  unfoldable pub crawl_module :
      Option (List (Option Operand)) → List Instruction → MetadataCrawler → Option MetadataCrawler
  crawl_module nmd is c = elim (crawl_with typedef_traversal nmd is c) [
    | none ↦ none
    | some c' ↦ crawl_with field_name_traversal nmd is (record c' { visited = [] })
  ]
