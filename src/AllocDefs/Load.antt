-- ===== src/AllocDefs/Load.antt =====
-- `loadAllocDefs` on a well-formed file, on an empty line and on a missing file; `getAllocDef`.
use dinamite.Shared.{
  ◌≡◌, ◌≢◌, ◌⊎◌, inl, inr, refl, sym, ap, ◌∙◌, arith, Bytes, same, same_iff, false, List, [], ◌∷◌,
  ◌++◌, append_assoc, append-nil, none, some, All, Bool-cases,
}
use dinamite.AllocDefs.{
  AllocDefinition, get_alloc_def, fallback_defs, parse_line, is_comment, load_lines,
  load_alloc_defs,
}
use dinamite.AllocDefs.Stream.{skip_spaces, take_word, some_word, read_word, split_lines}
use dinamite.AllocDefs.FileText.{
  IsWell, Line, comment, definition, line_text, file_text, definitions, definition_line,
  split_lines-append, OneLine-line_text, is_comment-name, parse_line-definition_line,
}

-- The definition found is the first with the name; if none is found, no definition has the name.
pub get_alloc_def_lem :
    (defs : List AllocDefinition) (f : Bytes)
    → ((d : AllocDefinition) × (before after : List AllocDefinition) × (get_alloc_def defs f
          ≡ some d)
        × (defs ≡ before ++ d ∷ after)
        × (d.name ≡ f)
        × All (λ (c : AllocDefinition). c.name ≢ f) before)
      ⊎ (get_alloc_def defs f ≡ none) × All (λ (c : AllocDefinition). c.name ≢ f) defs
unfolding get_alloc_def
get_alloc_def_lem [] f = inr (refl, tt)
get_alloc_def_lem (c ∷ defs) f = elim (Bool-cases (same c.name f)) [
  | inl e ↦ inl (c, [], defs, rw e, refl, (same_iff c.name f).0 e, tt)
  | inr e ↦
      let other : c.name ≢ f = λ q. ground (arith, same_iff c.name f) in
      elim (get_alloc_def_lem defs f) [
        | inl (d, before, after, found, split, named, earlier) ↦
            inl (d, c ∷ before, after, rw e found, ap (λ l. c ∷ l) split, named, (other, earlier))
        | inr (missing, earlier) ↦ inr (rw e missing, (other, earlier))
      ]
]

load_lines-definition :
    (defs : List AllocDefinition) (d : AllocDefinition) (line : Bytes) (lines : List Bytes)
    → is_comment line ≡ false
    → parse_line line ≡ some d
    → load_lines defs (line ∷ lines) ≡ load_lines (defs ++ d ∷ []) lines
unfolding load_lines
load_lines-definition defs d line lines c p = rw c (rw p)

load_lines-text :
    (defs : List AllocDefinition) (ls : List Line)
    → All IsWell ls
    → load_lines defs (split_lines (file_text ls)) ≡ some (defs ++ definitions ls)
unfolding load_lines split_lines is_comment
load_lines-text defs [] h = ap some (sym (append-nil defs))
load_lines-text defs (comment s ∷ ls) h =
    rw (split_lines-append (b'#' ∷ s) (file_text ls) (OneLine-line_text (comment s) h.0))
      (load_lines-text defs ls h.1)
load_lines-text defs (definition g d ∷ ls) h =
    let line =
      split_lines-append (definition_line g d) (file_text ls)
        (OneLine-line_text (definition g d) h.0) in
    let kept =
      load_lines-definition defs d (definition_line g d) (split_lines (file_text ls))
        (is_comment-name d.name _ h.0.named) (parse_line-definition_line g d h.0) in
    let rest =
      load_lines-text (defs ++ d ∷ []) ls h.1
      ∙ ap some (append_assoc defs (d ∷ []) (definitions ls)) in
    ap (load_lines defs) line ∙ (kept ∙ rest)

-- A file of lines that begin with `#` and of lines of a name and three numbers, with one or more blanks between them and any blanks at the end, the name without a space and not beginning with `#` and the numbers in the range of an int, is loaded as exactly the definitions of the latter, in order, behind those loaded before (a name that begins with `!` is a name like any other); a missing file gives malloc and calloc.
pub load_alloc_defs-file_text :
    (defs : List AllocDefinition) (ls : List Line)
    → All IsWell ls
    → (load_alloc_defs defs (some (file_text ls)) ≡ some (defs ++ definitions ls))
      × (load_alloc_defs defs none ≡ some (defs ++ fallback_defs))
unfolding load_alloc_defs
load_alloc_defs-file_text defs ls h = (load_lines-text defs ls h, refl)

load_lines-blank :
    (defs : List AllocDefinition) (lines : List Bytes) → load_lines defs ([] ∷ lines) ≡ none
unfolding load_lines is_comment parse_line read_word some_word take_word skip_spaces
load_lines-blank defs lines = refl

first_line :
    (l : Line) (ls : List Line) (text : Bytes)
    → IsWell l
    → split_lines (file_text (l ∷ ls) ++ 10 ∷ text)
      ≡ line_text l ∷ split_lines (file_text ls ++ 10 ∷ text)
first_line l ls text h =
    ap split_lines (append_assoc (line_text l) (10 ∷ file_text ls) (10 ∷ text))
    ∙ split_lines-append (line_text l) (file_text ls ++ 10 ∷ text) (OneLine-line_text l h)

load_lines-blank_after :
    (defs : List AllocDefinition) (ls : List Line) (text : Bytes)
    → All IsWell ls
    → load_lines defs (split_lines (file_text ls ++ 10 ∷ text)) ≡ none
unfolding load_lines split_lines is_comment
load_lines-blank_after defs [] text h = load_lines-blank defs (split_lines text)
load_lines-blank_after defs (comment s ∷ ls) text h =
    ap (load_lines defs) (first_line (comment s) ls text h.0)
    ∙ load_lines-blank_after defs ls text h.1
load_lines-blank_after defs (definition g d ∷ ls) text h =
    let kept =
      load_lines-definition defs d (definition_line g d) (split_lines (file_text ls ++ 10 ∷ text))
        (is_comment-name d.name _ h.0.named) (parse_line-definition_line g d h.0) in
    ap (load_lines defs) (first_line (definition g d) ls text h.0)
    ∙ (kept ∙ load_lines-blank_after (defs ++ d ∷ []) ls text h.1)

-- An empty line behind any number of well-formed lines makes loading the file exit, whatever follows.
pub load_alloc_defs-blank_line :
    (defs : List AllocDefinition) (ls : List Line) (text : Bytes)
    → All IsWell ls
    → load_alloc_defs defs (some (file_text ls ++ 10 ∷ text)) ≡ none
unfolding load_alloc_defs
load_alloc_defs-blank_line = load_lines-blank_after
