-- ===== src/IdMap/Chunks.antt =====
-- The entries of the chunk pool: what `putChunk` and `getChunk` do to a pool that holds `n` chunks.
use dinamite.Shared.{
  ℕ, ◌≡◌, refl, arith, Bytes, codes, same, same_iff, StdMap, ℤ, pos, Bool, true, false, [], ◌∷◌,
  ◌++◌, some, ◌==◌, if◌then◌else◌, lookup, lookup-assign, decimal_injective,
}
use dinamite.IdMap.{Chunk, chunk_key, put_chunk}

-- The words behind a chunk's number.
pub data Field : Type 0 where
  status start stop : Field

abbrev pub field_word : Field → Bytes
field_word status = codes "status"
field_word start = codes "start"
field_word stop = codes "end"

abbrev pub chunk_field : ℕ → Field → Bytes
chunk_field k f = chunk_key (pos k) (b'_' ∷ field_word f)

append_cancel : (p a b : Bytes) → p ++ a ≡ p ++ b → a ≡ b
append_cancel [] a b e = e
append_cancel (c ∷ p) a b e = append_cancel p a b (cc)

abbrev pub same_field : Field → Field → Bool
same_field status status = true
same_field start start = true
same_field stop stop = true
same_field _ _ = false

field_word_injective : (f g : Field) → field_word f ≡ field_word g → same_field f g ≡ true
field_word_injective status status e = refl
field_word_injective status start e = ground arith
field_word_injective status stop e = ground arith
field_word_injective start status e = ground arith
field_word_injective start start e = refl
field_word_injective start stop e = ground arith
field_word_injective stop status e = ground arith
field_word_injective stop start e = ground arith
field_word_injective stop stop e = refl

same_field-eq : (f g : Field) → same_field f g ≡ true → f ≡ g
same_field-eq f g h = ground arith

chunk_field-injective :
    (i j : ℕ) (f g : Field) → chunk_field i f ≡ chunk_field j g → (i ≡ j) × (same_field f g ≡ true)
unfolding chunk_key
chunk_field-injective i j f g e =
    let (number, word) =
      decimal_injective i j (field_word f) (field_word g) (append_cancel (codes "chunk_") _ _ e) in
    (number, field_word_injective f g word)

chunk_field-eq : (i j : ℕ) (f g : Field) → i ≡ j → f ≡ g → chunk_field i f ≡ chunk_field j g
chunk_field-eq i j f g ei ef = cc

-- Two chunk keys are the same exactly for the same chunk and the same field.
pub same-chunk_field :
    (i j : ℕ) (f g : Field)
    → same (chunk_field i f) (chunk_field j g) ≡ (if i == j then same_field f g else false)
same-chunk_field i j f g = ground (
  arith,
  same_iff (chunk_field i f) (chunk_field j g),
  chunk_field-injective i j f g,
  chunk_field-eq i j f g,
  same_field-eq f g,
)

abbrev pub size_key : Bytes
size_key = codes "size_of_each_chunk"

abbrev pub latest_key : Bytes
latest_key = codes "latest_chunk_id"

pub same-latest_chunk_field : (i : ℕ) (f : Field) → same latest_key (chunk_field i f) ≡ false
unfolding same chunk_key
same-latest_chunk_field i f = refl

-- The chunk `i` with a status, a start and an end.
abbrev pub chunk_at : ℕ → ℤ → ℤ → ℤ → Chunk
chunk_at i st from to = record { id = pos i; status = st; start = from; stop = to }

abbrev pub pick : Field → ℤ → ℤ → ℤ → ℤ
pick status st from to = st
pick start st from to = from
pick stop st from to = to

-- `putChunk` sets the three entries of its chunk, and no entry of another.
pub lookup-put_chunk :
    (pool : StdMap ℤ) (i k : ℕ) (f : Field) (st from to : ℤ)
    → lookup (chunk_field k f) (put_chunk pool (chunk_at i st from to))
      ≡ (if i == k then some (pick f st from to) else lookup (chunk_field k f) pool)
unfolding put_chunk
lookup-put_chunk pool i k status st from to =
    simp
      (
        lookup-assign,
        same-chunk_field i k stop status,
        same-chunk_field i k start status,
        same-chunk_field i k status status,
      )
      (ground arith)
lookup-put_chunk pool i k start st from to =
    simp
      (
        lookup-assign,
        same-chunk_field i k stop start,
        same-chunk_field i k start start,
        same-chunk_field i k status start,
      )
      (ground arith)
lookup-put_chunk pool i k stop st from to =
    simp
      (
        lookup-assign,
        same-chunk_field i k stop stop,
        same-chunk_field i k start stop,
        same-chunk_field i k status stop,
      )
      (ground arith)

pub lookup-put_chunk_latest :
    (pool : StdMap ℤ) (i : ℕ) (st from to : ℤ)
    → lookup latest_key (put_chunk pool (chunk_at i st from to)) ≡ lookup latest_key pool
unfolding put_chunk same chunk_key
lookup-put_chunk_latest pool i st from to = simp lookup-assign

pub lookup-put_chunk_size :
    (pool : StdMap ℤ) (i : ℕ) (st from to : ℤ)
    → lookup size_key (put_chunk pool (chunk_at i st from to)) ≡ lookup size_key pool
unfolding put_chunk same chunk_key
lookup-put_chunk_size pool i st from to = simp lookup-assign
