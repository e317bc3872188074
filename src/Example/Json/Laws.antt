-- ===== src/Example/Json/Laws.antt =====
-- The JSON library of the examples keeps what the program relies on.
use httpserver_demo.Prelude.{
  ℕ, ◌+◌, List, [], ◌∷◌, ◌++◌, Option, some, arith, Bytes, ℤ, pos, negsuc, All-append, NoNul,
  lookup, ◌≡◌, refl, ap, subst, ◌∙◌,
}
use httpserver_demo.Json.{IsJson}
use httpserver_demo.Example.Json.{
  Tree, no_field, no_item, str, int, field, item, object, array, value_string, value_integer,
  at_key, with_rest, elements, code_text, encode, put_number, step, run, only, json,
}

run-append : (a b : Bytes) (st : List Tree) → run (a ++ b) st ≡ run b (run a st)
run-append [] b st = refl
run-append (c ∷ a) b st = run-append a b (step c st)

step_number : (c : ℕ) (st : List Tree) → step (c + 9) st ≡ put_number c st
step_number c st = ground arith

run-code_text : (s : Bytes) (st : List Tree) → run (code_text s) st ≡ str s ∷ st
run-code_text [] st = refl
run-code_text (c ∷ s) st =
    run-append (code_text s) _ st
    ∙ ap (step (c + 9)) (run-code_text s st)
    ∙ step_number c (str s ∷ st)

run-encode : (t : Tree) (st : List Tree) → run (encode t) st ≡ t ∷ st
run-encode (str s) st = run-code_text s st
run-encode (int (pos n)) st = step_number n (step 2 st)
run-encode (int (negsuc n)) st = step_number n (step 3 st)
run-encode no_field st = refl
run-encode no_item st = refl
run-encode (field k v rest) st =
    rw
      (
        run-append (encode rest) (code_text k ++ (encode v ++ 6 ∷ [])) st,
        run-encode rest st,
        run-append (code_text k) (encode v ++ 6 ∷ []) (rest ∷ st),
        run-code_text k (rest ∷ st),
        run-append (encode v) (6 ∷ []) (str k ∷ rest ∷ st),
        run-encode v (str k ∷ rest ∷ st),
      )
      refl
run-encode (item v rest) st =
    rw
      (
        run-append (encode rest) (encode v ++ 7 ∷ []) st,
        run-encode rest st,
        run-append (encode v) (7 ∷ []) (rest ∷ st),
        run-encode v (rest ∷ st),
      )
      refl

code_text-NoNul : (s : Bytes) → NoNul (code_text s)
code_text-NoNul [] = (omega arith, tt)
code_text-NoNul (c ∷ s) = All-append _ (code_text s) _ (code_text-NoNul s) (omega arith, tt)

encode-NoNul : (t : Tree) → NoNul (encode t)
encode-NoNul (str s) = code_text-NoNul s
encode-NoNul (int (pos n)) = (omega arith, (omega arith, tt))
encode-NoNul (int (negsuc n)) = (omega arith, (omega arith, tt))
encode-NoNul no_field = (omega arith, tt)
encode-NoNul no_item = (omega arith, tt)
encode-NoNul (field k v rest) = All-append _ (encode rest) _ (encode-NoNul rest) (
    All-append _ (code_text k) _ (code_text-NoNul k)
      (All-append _ (encode v) _ (encode-NoNul v) (omega arith, tt)))
encode-NoNul (item v rest) =
    All-append _ (encode rest) _ (encode-NoNul rest)
      (All-append _ (encode v) _ (encode-NoNul v) (omega arith, tt))

text_of_dump :
    (t : Tree) (s : Bytes) → ◌≡◌ {A = Option Bytes} (some (encode t)) (some s) → encode t ≡ s
text_of_dump t s e = cc

dump-parse :
    (t : Tree) (s : Bytes)
    → ◌≡◌ {A = Option Bytes} (some (encode t)) (some s)
    → only (run s []) ≡ some t
dump-parse t s e =
    subst (λ x. only (run x []) ≡ some t) (text_of_dump t s e) (ap only (run-encode t []))

value_string-object :
    (fs : List (Bytes × Tree)) (k v d : Bytes)
    → lookup k fs ≡ some (str v)
    → value_string (object fs) k d ≡ some v
value_string-object [] k v d h = cc
value_string-object ((j, str s) ∷ fs) k v d h = ground (arith, value_string-object fs k v d)
value_string-object ((j, int s) ∷ fs) k v d h = ground (arith, value_string-object fs k v d)
value_string-object ((j, no_field) ∷ fs) k v d h = ground (arith, value_string-object fs k v d)
value_string-object ((j, no_item) ∷ fs) k v d h = ground (arith, value_string-object fs k v d)
value_string-object ((j, field a b c) ∷ fs) k v d h = ground (arith, value_string-object fs k v d)
value_string-object ((j, item a b) ∷ fs) k v d h = ground (arith, value_string-object fs k v d)

value_integer-object :
    (fs : List (Bytes × Tree)) (k : Bytes) (v d : ℤ)
    → lookup k fs ≡ some (int v)
    → value_integer (object fs) k d ≡ some v
value_integer-object [] k v d h = cc
value_integer-object ((j, str s) ∷ fs) k v d h = ground (arith, value_integer-object fs k v d)
value_integer-object ((j, int s) ∷ fs) k v d h = ground (arith, value_integer-object fs k v d)
value_integer-object ((j, no_field) ∷ fs) k v d h = ground (arith, value_integer-object fs k v d)
value_integer-object ((j, no_item) ∷ fs) k v d h = ground (arith, value_integer-object fs k v d)
value_integer-object ((j, field a b c) ∷ fs) k v d h = ground (arith, value_integer-object fs k v d)
value_integer-object ((j, item a b) ∷ fs) k v d h = ground (arith, value_integer-object fs k v d)

at_key-object :
    (fs : List (Bytes × Tree)) (k : Bytes) (j : Tree)
    → lookup k fs ≡ some j
    → at_key (object fs) k ≡ some j
at_key-object [] k j h = cc
at_key-object ((i, v) ∷ fs) k j h = ground (arith, at_key-object fs k j)

elements-array : (js : List Tree) → elements (array js) ≡ js
elements-array [] = refl
elements-array (v ∷ js) = ap (◌∷◌ v) (elements-array js)

pub json_laws : IsJson json
json_laws = record {
  parse-dump = dump-parse;
  IsText = λ s. Unit;
  IsWell = λ t. Unit;
  ascii-IsText = λ s h. tt;
  append-IsText = λ s t h k. tt;
  string-IsWell = λ s h. tt;
  integer-IsWell = λ n. tt;
  object-IsWell = λ fs h. tt;
  array-IsWell = λ js h. tt;
  dump_well = λ j h. (encode j, refl);
  dump-NoNul = λ j s h. subst NoNul (text_of_dump j s h) (encode-NoNul j);
  value_string-object = value_string-object;
  value_integer-object = value_integer-object;
  index-object = λ fs k j h. ap (with_rest (object fs)) (at_key-object fs k j h);
  elements-array = elements-array;
}
