-- ===== src/AllocDefs.antt =====
-- AllocDefs.hpp and AllocDefs.cpp: the allocation functions that alloc.in names, with the places of
-- their arguments. The reads from a stream (`getline`, `>>`) are the standard library's.
pub mod Stream
pub mod Numbers
pub mod FileText
pub mod Load
use dinamite.Shared.{
  ℕ, Bytes, codes, same, ℤ, pos, negsuc, Bool, true, false, List, [], ◌∷◌, ◌++◌, Option, none, some,
  ◌==◌, if◌then◌else◌,
}
use dinamite.Environment.{env_value}
use dinamite.AllocDefs.Stream.{read_word, read_int, split_lines}

pub record AllocDefinition : Type 0 where
  pub name : Bytes
  pub size_idx : ℤ
  pub num_idx : ℤ
  pub addr_idx : ℤ

-- `getAllocDef`: the first definition with the function's name, or NULL.
unfoldable pub get_alloc_def : List AllocDefinition → Bytes → Option AllocDefinition
get_alloc_def [] f = none
get_alloc_def (def ∷ defs) f = if same def.name f then some def else get_alloc_def defs f

-- `getAllocInPath`
unfoldable pub get_alloc_in_path : Option Bytes → Bytes
get_alloc_in_path alloc_in = elim (env_value alloc_in) [
  | none ↦ codes "./alloc.in"
  | some dir ↦ dir ++ codes "/alloc.in"
]

-- The definitions that are used where the file does not open.
abbrev pub fallback_defs : List AllocDefinition
fallback_defs =
    record { name = codes "malloc"; size_idx = pos 0; num_idx = negsuc 0; addr_idx = negsuc 0 }
    ∷ record { name = codes "calloc"; size_idx = pos 1; num_idx = pos 0; addr_idx = negsuc 0 }
    ∷ []

-- `iss >> allocDef.name >> allocDef.numIdx >> allocDef.sizeIdx >> allocDef.addrIdx`
unfoldable pub parse_line : Bytes → Option AllocDefinition
parse_line line = elim (read_word line) [
  | none ↦ none
  | some (name, rest1) ↦ elim (read_int rest1) [
    | none ↦ none
    | some (num, rest2) ↦ elim (read_int rest2) [
      | none ↦ none
      | some (size, rest3) ↦ elim (read_int rest3) [
        | none ↦ none
        | some (addr, rest4) ↦
            some (record { name = name; size_idx = size; num_idx = num; addr_idx = addr })
      ]
    ]
  ]
]

-- `line[0] == '#'`; the first character of an empty line is NUL.
unfoldable pub is_comment : Bytes → Bool
is_comment [] = false
is_comment (c ∷ line) = c == b'#'

-- The loop over the lines; `none` is `exit(-1)`.
unfoldable pub load_lines : List AllocDefinition → List Bytes → Option (List AllocDefinition)
load_lines defs [] = some defs
load_lines defs (line ∷ lines) =
    let skipped = load_lines defs lines in
    let parsed : Option (List AllocDefinition) = elim (parse_line line) [
      | none ↦ none
      | some def ↦ load_lines (defs ++ def ∷ []) lines
    ] in
    if is_comment line then skipped else parsed

-- `loadAllocDefs`, given the text of the file where it opens.
unfoldable pub load_alloc_defs : List AllocDefinition → Option Bytes → Option (List AllocDefinition)
load_alloc_defs defs none = some (defs ++ fallback_defs)
load_alloc_defs defs (some text) = load_lines defs (split_lines text)
