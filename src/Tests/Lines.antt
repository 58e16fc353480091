-- ===== src/Tests/Lines.antt =====
-- Runs of the library that writes lines.
use dinamite.Shared.{
  ◌≡◌, refl, codes, pos, negsuc, true, false, List, [], ◌∷◌, ◌++◌, some, value, crashed,
}
use dinamite.Runtime.Binary.{Access}
use dinamite.Runtime.Calls.{Call, begin, access, init, exit, to_static_string}
use dinamite.Runtime.TextLog.{Printing, run_calls}
use dinamite.Runtime.TextLines.{lines, run_calls-lines}

abbrev printing : Printing
printing = record {
  fopen = true;
  pointer = λ n. codes "0x10";
  float = λ n. codes "1.500000";
  string = λ n. some (codes "ready");
}

abbrev written_state : Access
written_state = record {
  address = 16;
  type = pos 119;
  file = pos 1;
  line = pos 20;
  col = pos 3;
  type_id = pos 4;
  var_id = negsuc 0;
}

abbrev one_more : List Call
one_more = access to_static_string 64 written_state ∷ []

run_calls-lines_example :
    (run_calls printing
        (init (pos 0) ∷ ((begin (pos 1) ∷ one_more) ++ exit (pos 0) ∷ []))
        (record { out = false; file = codes "old" })
      ≡ value (record { out = false; file = lines printing (begin (pos 1) ∷ one_more) }))
    × (run_calls printing
          ((begin (pos 1) ∷ one_more) ++ exit (pos 0) ∷ [])
          (record { out = false; file = codes "old" })
        ≡ crashed)
run_calls-lines_example =
    run_calls-lines printing (pos 0) (pos 0) (begin (pos 1)) one_more (codes "old") refl
      ((_, refl), ((_, refl), tt))
