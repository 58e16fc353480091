-- ===== src/Runtime/TextLog.antt =====
-- library/textinstrumentation.c: one file of lines. What `%p`, `%f` and `%s` print is given with the
-- calls; `%s` reads the text at an address, which is `none` where nothing can be read.
use dinamite.Shared.{
  ℕ, Bytes, codes, ℤ, pos, Bool, true, false, List, [], ◌∷◌, ◌++◌, Option, none, some,
  if◌then◌else◌, Outcome, value, crashed, ◌>>=◌, decimal,
}
use dinamite.Runtime.Records.{to_char}
use dinamite.Runtime.Binary.{Access, Alloc}
use dinamite.Runtime.Calls.{
  AccessFunction, to_ptr, to_static_string, to_i8, to_i16, to_i32, to_i64, to_f8, to_f16, to_f32,
  to_f64, Call, init, exit, begin, end, alloc, access,
}

-- `out`, and the contents of access.trace.
pub record TextLog : Type 0 where
  pub out : Bool
  pub file : Bytes

-- `fopen` says whether access.trace can be opened.
pub record Printing : Type 0 where
  pub fopen : Bool
  pub pointer : ℕ → Bytes
  pub float : ℕ → Bytes
  pub string : ℕ → Option Bytes

abbrev pub space : Bytes
space = codes " "

abbrev pub newline : Bytes
newline = 10 ∷ []

-- Integers with a space before each.
abbrev pub numbers : List ℤ → Bytes
numbers [] = newline
numbers (i ∷ more) = space ++ (decimal i ++ numbers more)

module _ (io : Printing) where
  -- `OPEN_LOG`; "w" empties the file.
  unfoldable pub log_init : ℤ → TextLog → Outcome TextLog
  log_init f log =
      value (if log.out then log else (if io.fopen then record { out = true; file = [] } else log))

  unfoldable pub log_exit : ℤ → TextLog → Outcome TextLog
  log_exit f log = value (record log { out = false })

  -- `fprintf(out, ...)` and `fflush(out)`, on a null pointer if the file is not open.
  unfoldable pub print : Bytes → TextLog → Outcome TextLog
  print line log = if log.out then value (record log { file = log.file ++ line }) else crashed

  unfoldable pub log_fn_begin : ℤ → TextLog → Outcome TextLog
  log_fn_begin f = print (codes "fb" ++ numbers (f ∷ []))

  unfoldable pub log_fn_end : ℤ → TextLog → Outcome TextLog
  log_fn_end f = print (codes "fe" ++ numbers (f ∷ []))

  unfoldable pub log_alloc : Alloc → TextLog → Outcome TextLog
  log_alloc x = print (
      io.pointer x.addr ++ numbers (pos x.size ∷ pos x.num ∷ x.type ∷ x.file ∷ x.line ∷ x.col ∷ []))

  -- "%p", the value, "%c" and the numbers.
  unfoldable pub access_line : Bytes → Access → Bytes
  access_line shown x =
      io.pointer x.address
      ++ (space
          ++ (shown
              ++ (space
                  ++ (to_char x.type
                      ∷ numbers (x.file ∷ x.line ∷ x.col ∷ x.type_id ∷ x.var_id ∷ [])))))

  unfoldable pub log_access_ptr : ℕ → Access → TextLog → Outcome TextLog
  log_access_ptr v x = print (access_line (io.pointer v) x)

  unfoldable pub log_access_static_string : ℕ → Access → TextLog → Outcome TextLog
  log_access_static_string v x log = elim (io.string v) [
    | none ↦ crashed
    | some text ↦ print (access_line text x) log
  ]

  unfoldable pub log_access_i8 : ℕ → Access → TextLog → Outcome TextLog
  log_access_i8 v x = print (access_line (decimal (pos v)) x)

  unfoldable pub log_access_i16 : ℕ → Access → TextLog → Outcome TextLog
  log_access_i16 v x = print (access_line (decimal (pos v)) x)

  unfoldable pub log_access_i32 : ℕ → Access → TextLog → Outcome TextLog
  log_access_i32 v x = print (access_line (decimal (pos v)) x)

  unfoldable pub log_access_i64 : ℕ → Access → TextLog → Outcome TextLog
  log_access_i64 v x = print (access_line (decimal (pos v)) x)

  -- The value as a character.
  unfoldable pub log_access_f8 : ℕ → Access → TextLog → Outcome TextLog
  log_access_f8 v x = print (access_line (v ∷ []) x)

  unfoldable pub log_access_f16 : ℕ → Access → TextLog → Outcome TextLog
  log_access_f16 v x = print (access_line (decimal (pos v)) x)

  unfoldable pub log_access_f32 : ℕ → Access → TextLog → Outcome TextLog
  log_access_f32 v x = print (access_line (io.float v) x)

  unfoldable pub log_access_f64 : ℕ → Access → TextLog → Outcome TextLog
  log_access_f64 v x = print (access_line (io.float v) x)

  unfoldable pub text_access : AccessFunction → ℕ → Access → TextLog → Outcome TextLog
  text_access to_ptr = log_access_ptr
  text_access to_static_string = log_access_static_string
  text_access to_i8 = log_access_i8
  text_access to_i16 = log_access_i16
  text_access to_i32 = log_access_i32
  text_access to_i64 = log_access_i64
  text_access to_f8 = log_access_f8
  text_access to_f16 = log_access_f16
  text_access to_f32 = log_access_f32
  text_access to_f64 = log_access_f64

  unfoldable pub text_call : Call → TextLog → Outcome TextLog
  text_call (init f) = log_init f
  text_call (exit f) = log_exit f
  text_call (begin f) = log_fn_begin f
  text_call (end f) = log_fn_end f
  text_call (alloc x) = log_alloc x
  text_call (access function v x) = text_access function v x

  unfoldable pub run_calls : List Call → TextLog → Outcome TextLog
  run_calls [] log = value log
  run_calls (c ∷ calls) log = do log' ← text_call c log; run_calls calls log'
