-- ===== src/Config/Laws.antt =====
-- What the programs read from a command line.
use httpserver_demo.Prelude.{
  ◌≡◌, refl, Option-cases, inl, inr, ◌≢◌, List, [], ◌∷◌, ◌++◌, Option, none, some, arith,
  if◌then◌else◌, Bytes, codes, lookup, insert, beq, eq_of_beq, beq_refl, All,
}
use httpserver_demo.Config.{
  Args, starts_dashes, cut_eq, behind_dashes, parse_arg, parse_rest, parse_args, get_arg, or_else,
}

-- The argument that sets a key.
abbrev pub assignment : Bytes × Bytes → Bytes
assignment (k, v) = b'-' ∷ b'-' ∷ (k ++ b'=' ∷ v)

abbrev pub NoEq : Bytes → Type 0
NoEq = All (λ c. c ≢ b'=')

cut_eq-append : (k v : Bytes) → NoEq k → cut_eq (k ++ b'=' ∷ v) ≡ (k, v)
unfolding cut_eq
cut_eq-append [] v h = refl
cut_eq-append (c ∷ k) v h = ground (arith, cut_eq-append k v h.1)

lookup-insert :
    (k j v : Bytes) (m : Args) → lookup j (insert k v m) ≡ (if beq k j then some v else lookup j m)
lookup-insert k j v [] = refl
lookup-insert k j v ((i, w) ∷ m) = ground (
  arith,
  lookup-insert k j v m,
  eq_of_beq i k,
  eq_of_beq i j,
  eq_of_beq k j,
  beq_refl j,
  beq_refl k,
)

-- The value of a key's last assignment among the pairs, else the one before them.
abbrev pub last_value : List (Bytes × Bytes) → Bytes → Option Bytes → Option Bytes
last_value [] j before = before
last_value ((k, v) ∷ more) j before = last_value more j (if beq k j then some v else before)

abbrev pub assignments : List (Bytes × Bytes) → List Bytes
assignments [] = []
assignments (kv ∷ more) = assignment kv ∷ assignments more

parse_rest-assignments :
    (kvs : List (Bytes × Bytes)) (args : Args) (j : Bytes)
    → All (λ kv. NoEq kv.0) kvs
    → lookup j (parse_rest args (assignments kvs)) ≡ last_value kvs j (lookup j args)
unfolding parse_rest parse_arg starts_dashes behind_dashes
parse_rest-assignments [] args j h = refl
parse_rest-assignments ((k, v) ∷ kvs) args j h = ground (
  arith,
  cut_eq-append k v h.0,
  lookup-insert k j v args,
  parse_rest-assignments kvs (insert k v args) j h.1,
)

-- A command line of `--key=value` arguments, with no `=` in a key, gives each key the value of
-- its last assignment; a value may hold any bytes. A key that is not assigned is not in the map.
pub lookup-parse_args :
    (program : Bytes) (kvs : List (Bytes × Bytes)) (j : Bytes)
    → All (λ kv. NoEq kv.0) kvs
    → lookup j (parse_args (program ∷ assignments kvs)) ≡ last_value kvs j none
unfolding parse_args
lookup-parse_args program kvs j h = parse_rest-assignments kvs [] j h

abbrev pub first_of : Option Bytes → Option Bytes → Bytes → Bytes
first_of (some v) e d = v
first_of none (some v) d = v
first_of none none d = d

get_arg_lem :
    (getenv : Bytes → Option Bytes) (args : Args) (key def : Bytes) (o : Option Bytes)
    → lookup key args ≡ o
    → get_arg getenv args key def ≡ first_of o (getenv (codes "HTTP_SERVER_DEMO_" ++ key)) def
unfolding get_arg or_else
get_arg_lem getenv args key def (some v) e = ground arith
get_arg_lem getenv args key def none e =
    elim (Option-cases (getenv (codes "HTTP_SERVER_DEMO_" ++ key))) [
      | inl f ↦ ground arith
      | inr (v, f) ↦ ground arith
    ]

-- With a command line of `--key=value` arguments, with no `=` in a key, `GetArg` gives the value of
-- the key's last assignment; where it has none, the environment's; and where that has none, the
-- default.
pub get_arg-parse_args :
    (getenv : Bytes → Option Bytes) (program : Bytes) (kvs : List (Bytes × Bytes)) (key def : Bytes)
    → All (λ kv. NoEq kv.0) kvs
    → get_arg getenv (parse_args (program ∷ assignments kvs)) key def
      ≡ first_of (last_value kvs key none) (getenv (codes "HTTP_SERVER_DEMO_" ++ key)) def
get_arg-parse_args getenv program kvs key def h =
    get_arg_lem getenv _ key def _ (lookup-parse_args program kvs key h)
