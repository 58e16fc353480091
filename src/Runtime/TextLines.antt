-- ===== src/Runtime/TextLines.antt =====
-- textinstrumentation.c: the lines that a run of calls leaves in access.trace.
use mathlib.Core.List.{map}
use mathlib.Core.Option.{some-injective}
use dinamite.Shared.{
  ◌%◌, ◌-◌, negsuc, ℕ, ◌≡◌, refl, sym, ap, ◌∙◌, Bytes, codes, ℤ, pos, true, false, List, [], ◌∷◌,
  ◌++◌, append_assoc, append-nil, Option, none, some, if◌then◌else◌, value, crashed, ◌>>=◌, All,
  decimal,
}
use dinamite.Runtime.Records.{to_char}
use dinamite.Runtime.Binary.{Access}
use dinamite.Runtime.Calls.{
  AccessFunction, to_ptr, to_static_string, to_i8, to_i16, to_i32, to_i64, to_f8, to_f16, to_f32,
  to_f64, Call, init, exit, begin, end, alloc, access,
}
use dinamite.Runtime.TextLog.{
  TextLog, Printing, numbers, log_init, log_exit, print, log_fn_begin, log_fn_end, log_alloc,
  access_line, log_access_ptr, log_access_static_string, log_access_i8, log_access_i16,
  log_access_i32, log_access_i64, log_access_f8, log_access_f16, log_access_f32, log_access_f64,
  text_access, text_call, run_calls,
}

-- Words with a space between two of them, and a newline at the end.
abbrev pub spaced : List Bytes → Bytes
spaced [] = 10 ∷ []
spaced (w ∷ []) = w ++ 10 ∷ []
spaced (w ∷ v ∷ ws) = w ++ b' ' ∷ spaced (v ∷ ws)

-- The character of a code, as an `unsigned char`.
abbrev pub char_code : ℤ → ℕ
char_code (pos n) = n % 256
char_code (negsuc n) = 255 - n % 256

to_char-eq : (c : ℤ) → to_char c ≡ char_code c
unfolding to_char
to_char-eq (pos n) = refl
to_char-eq (negsuc n) = refl

numbers-spaced : (w : Bytes) (is : List ℤ) → w ++ numbers is ≡ spaced (w ∷ map decimal is)
numbers-spaced w [] = refl
numbers-spaced w (i ∷ is) = ap (λ t. w ++ b' ' ∷ t) (numbers-spaced (decimal i) is)

module _ (io : Printing) where
  -- The text of the value of an access.
  abbrev pub shown : AccessFunction → ℕ → Option Bytes
  shown to_ptr v = some (io.pointer v)
  shown to_static_string v = io.string v
  shown to_i8 v = some (decimal (pos v))
  shown to_i16 v = some (decimal (pos v))
  shown to_i32 v = some (decimal (pos v))
  shown to_i64 v = some (decimal (pos v))
  shown to_f8 v = some (v ∷ [])
  shown to_f16 v = some (decimal (pos v))
  shown to_f32 v = some (io.float v)
  shown to_f64 v = some (io.float v)

  -- The address, the value, the kind of the access, and the ids and places.
  abbrev pub access_words : Bytes → Access → Bytes
  access_words text x = spaced (
      io.pointer x.address
      ∷ text
      ∷ (char_code x.type ∷ [])
      ∷ map decimal (x.file ∷ x.line ∷ x.col ∷ x.type_id ∷ x.var_id ∷ []))

  access_line-words : (text : Bytes) (x : Access) → access_line io text x ≡ access_words text x
  unfolding access_line
  access_line-words text x =
      ap (λ t. io.pointer x.address ++ b' ' ∷ (text ++ b' ' ∷ t))
        (numbers-spaced (to_char x.type ∷ []) (x.file ∷ x.line ∷ x.col ∷ x.type_id ∷ x.var_id ∷ []))
      ∙ ap
          (λ c.
            io.pointer x.address
            ++ b' '
              ∷ (text
                  ++ b' '
                    ∷ spaced (
                        (c ∷ [])
                        ∷ map decimal (x.file ∷ x.line ∷ x.col ∷ x.type_id ∷ x.var_id ∷ []))))
          (to_char-eq x.type)

  -- The line of a call; logInit, logExit, and a string that cannot be read, have none.
  abbrev pub line_of : Call → Option Bytes
  line_of (init f) = none
  line_of (exit f) = none
  line_of (begin f) = some (spaced (codes "fb" ∷ decimal f ∷ []))
  line_of (end f) = some (spaced (codes "fe" ∷ decimal f ∷ []))
  line_of (alloc x) = some (
      spaced (
        io.pointer x.addr
        ∷ map decimal (pos x.size ∷ pos x.num ∷ x.type ∷ x.file ∷ x.line ∷ x.col ∷ [])))
  line_of (access function v x) = elim (shown function v) [
    | none ↦ none
    | some text ↦ some (access_words text x)
  ]

  abbrev pub HasLine : Call → Type 0
  HasLine c = (l : Bytes) × (line_of c ≡ some l)

  unfoldable pub lines : List Call → Bytes
  lines [] = []
  lines (c ∷ calls) =
      let rest = lines calls in elim (line_of c) [ none ↦ rest | some l ↦ l ++ rest ]

  print-shown :
      (s text : Bytes) (x : Access) (log : TextLog)
      → some s ≡ some text
      → print io (access_line io s x) log ≡ print io (access_line io text x) log
  print-shown s text x log e = ap (λ t. print io (access_line io t x) log) (some-injective s text e)

  text_access-print :
      (function : AccessFunction) (v : ℕ) (x : Access) (text : Bytes) (log : TextLog)
      → shown function v ≡ some text
      → text_access io function v x log ≡ print io (access_line io text x) log
  unfolding text_access log_access_ptr log_access_static_string log_access_i8 log_access_i16
      log_access_i32 log_access_i64 log_access_f8 log_access_f16 log_access_f32 log_access_f64
  text_access-print to_static_string v x text log e =
      ap (λ o. elim o [ none ↦ crashed | some t ↦ print io (access_line io t x) log ]) e
  text_access-print to_ptr v x text log e = print-shown _ text x log e
  text_access-print to_i8 v x text log e = print-shown _ text x log e
  text_access-print to_i16 v x text log e = print-shown _ text x log e
  text_access-print to_i32 v x text log e = print-shown _ text x log e
  text_access-print to_i64 v x text log e = print-shown _ text x log e
  text_access-print to_f8 v x text log e = print-shown _ text x log e
  text_access-print to_f16 v x text log e = print-shown _ text x log e
  text_access-print to_f32 v x text log e = print-shown _ text x log e
  text_access-print to_f64 v x text log e = print-shown _ text x log e

  -- A call with a line prints it.
  text_call-print :
      (c : Call) (l : Bytes) (log : TextLog)
      → line_of c ≡ some l
      → text_call io c log ≡ print io l log
  unfolding text_call log_fn_begin log_fn_end log_alloc
  text_call-print (init f) l log e = cc
  text_call-print (exit f) l log e = cc
  text_call-print (begin f) l log e =
      ap (λ t. print io t log) (numbers-spaced (codes "fb") (f ∷ []) ∙ some-injective _ _ e)
  text_call-print (end f) l log e =
      ap (λ t. print io t log) (numbers-spaced (codes "fe") (f ∷ []) ∙ some-injective _ _ e)
  text_call-print (alloc x) l log e =
      ap (λ t. print io t log)
        (numbers-spaced (io.pointer x.addr)
            (pos x.size ∷ pos x.num ∷ x.type ∷ x.file ∷ x.line ∷ x.col ∷ [])
          ∙ some-injective _ _ e)
  text_call-print (access function v x) l log e =
      reading (shown function v) (λ text q. text_access-print function v x text log q) e
    where
      reading :
          (o : Option Bytes)
          → ((text : Bytes)
              → o ≡ some text
              → text_access io function v x log ≡ print io (access_line io text x) log)
          → (elim o [ none ↦ none | some text ↦ some (access_words text x) ]) ≡ some l
          → text_access io function v x log ≡ print io l log
      reading none k q = cc
      reading (some text) k q =
          k text refl ∙ ap (λ t. print io t log) (access_line-words text x ∙ some-injective _ _ q)

  abbrev pub opened : Bytes → TextLog
  opened file = record { out = true; file = file }

  abbrev pub closed : Bytes → TextLog
  closed file = record { out = false; file = file }

  run_calls-opened :
      (calls : List Call) (g : ℤ) (file : Bytes)
      → All HasLine calls
      → run_calls io (calls ++ exit g ∷ []) (opened file) ≡ value (closed (file ++ lines calls))
  unfolding run_calls text_call log_exit lines ◌>>=◌
  run_calls-opened [] g file h = ap (λ t. value (closed t)) (sym (append-nil file))
  run_calls-opened (c ∷ calls) g file ((l, e), h) =
      ap (λ o. o >>= run_calls io (calls ++ exit g ∷ [])) (text_call-print c l (opened file) e)
      ∙ printed
      ∙ run_calls-opened calls g (file ++ l) h
      ∙ ap (λ t. value (closed t))
          (append_assoc file l (lines calls)
            ∙ ap (λ o. file ++ (elim o [ none ↦ lines calls | some k ↦ k ++ lines calls ])) (sym e))
    where
      printed :
          (print io l (opened file) >>= run_calls io (calls ++ exit g ∷ []))
          ≡ run_calls io (calls ++ exit g ∷ []) (opened (file ++ l))
      printed = unfold print in unfold ◌>>=◌ in refl

  -- Where access.trace can be opened, a call of logInit, calls that have lines, and a call of logExit leave exactly these lines in it, in order, each of its words with a space between them, whatever it held before; without the call of logInit, the first of the calls writes through a null pointer.
  pub run_calls-lines :
      (f g : ℤ) (c : Call) (calls : List Call) (before : Bytes)
      → io.fopen ≡ true
      → All HasLine (c ∷ calls)
      → (run_calls io (init f ∷ ((c ∷ calls) ++ exit g ∷ [])) (closed before)
          ≡ value (closed (lines (c ∷ calls))))
        × (run_calls io ((c ∷ calls) ++ exit g ∷ []) (closed before) ≡ crashed)
  unfolding run_calls text_call log_init print ◌>>=◌
  run_calls-lines f g c calls before can ((l, e), h) = (
    ap (λ b. run_calls io ((c ∷ calls) ++ exit g ∷ []) (if b then opened [] else closed before)) can
        ∙ run_calls-opened (c ∷ calls) g [] ((l, e), h),
    ap (λ o. o >>= run_calls io (calls ++ exit g ∷ [])) (text_call-print c l (closed before) e),
  )
