-- ===== src/Example/Json.antt =====
-- A JSON library that stands for nlohmann::json: a dump is a program for a stack machine.
pub mod Laws
use httpserver_demo.Prelude.{
  ℕ, ◌+◌, ◌-◌, List, [], ◌∷◌, ◌++◌, Option, none, some, arith, leb, ◌==◌, if◌then◌else◌, Bytes, beq,
  ℤ, pos, negsuc, All-append, NoNul, lookup, ◌≡◌, refl, ap, subst, ◌∙◌,
}
use httpserver_demo.Json.{JsonLib, IsJson}

pub data Tree : Type 0 where
  str : Bytes → Tree
  int : ℤ → Tree
  no_field no_item : Tree
  field : Bytes → Tree → Tree → Tree
  item : Tree → Tree → Tree

abbrev pub object : List (Bytes × Tree) → Tree
object [] = no_field
object ((k, v) ∷ fs) = field k v (object fs)

abbrev pub array : List Tree → Tree
array [] = no_item
array (v ∷ js) = item v (array js)

abbrev pub value_string : Tree → Bytes → Bytes → Option Bytes
value_string no_field k d = some d
value_string (field j (str s) rest) k d = if beq j k then some s else value_string rest k d
value_string (field j v rest) k d = if beq j k then none else value_string rest k d
value_string t k d = none

abbrev pub value_integer : Tree → Bytes → ℤ → Option ℤ
value_integer no_field k d = some d
value_integer (field j (int n) rest) k d = if beq j k then some n else value_integer rest k d
value_integer (field j v rest) k d = if beq j k then none else value_integer rest k d
value_integer t k d = none

abbrev pub at_key : Tree → Bytes → Option Tree
at_key (field j v rest) k = if beq j k then some v else at_key rest k
at_key t k = none

abbrev pub with_rest : Tree → Option Tree → Option (Tree × Tree)
with_rest t (some v) = some (v, t)
with_rest t none = none

abbrev pub elements : Tree → List Tree
elements (item v rest) = v ∷ elements rest
elements t = []

abbrev pub code_text : Bytes → Bytes
code_text [] = 1 ∷ []
code_text (c ∷ s) = code_text s ++ (c + 9) ∷ []

abbrev pub encode : Tree → Bytes
encode (str s) = code_text s
encode (int (pos n)) = 2 ∷ (n + 9) ∷ []
encode (int (negsuc n)) = 3 ∷ (n + 9) ∷ []
encode no_field = 4 ∷ []
encode no_item = 5 ∷ []
encode (field k v rest) = encode rest ++ (code_text k ++ (encode v ++ 6 ∷ []))
encode (item v rest) = encode rest ++ (encode v ++ 7 ∷ [])

abbrev pub put_number : ℕ → List Tree → List Tree
put_number c (str s ∷ st) = str (c ∷ s) ∷ st
put_number c (int (pos n) ∷ st) = int (pos c) ∷ st
put_number c (int (negsuc n) ∷ st) = int (negsuc c) ∷ st
put_number c st = st

abbrev put_field : List Tree → List Tree
put_field (v ∷ str k ∷ rest ∷ st) = field k v rest ∷ st
put_field st = st

abbrev put_item : List Tree → List Tree
put_item (v ∷ rest ∷ st) = item v rest ∷ st
put_item st = st

abbrev pub step : ℕ → List Tree → List Tree
step c st =
    if leb 9 c
    then put_number (c - 9) st
    else if c == 1
    then str [] ∷ st
    else if c == 2
    then int (pos 0) ∷ st
    else if c == 3
    then int (negsuc 0) ∷ st
    else if c == 4
    then no_field ∷ st
    else if c == 5
    then no_item ∷ st
    else if c == 6
    then put_field st
    else put_item st

abbrev pub run : Bytes → List Tree → List Tree
run [] st = st
run (c ∷ s) st = run s (step c st)

abbrev pub only : List Tree → Option Tree
only (t ∷ []) = some t
only st = none

abbrev pub json : JsonLib
json = record {
  Json = Tree;
  string = str;
  integer = int;
  object = object;
  array = array;
  dump = λ t. some (encode t);
  parse = λ s. only (run s []);
  value_string = value_string;
  value_integer = value_integer;
  index = λ t k. with_rest t (at_key t k);
  elements = elements;
}
