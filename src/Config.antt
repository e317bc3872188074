-- ===== src/Config.antt =====
-- src/common/config.cpp: the command line and the lookup of an argument. `argv` is a list of byte
-- strings with the program's name first; `std::getenv` is an argument.
pub mod Laws
use httpserver_demo.Prelude.{
  ℕ, ◌≡◌, refl, Bool, true, false, ◌&&◌, List, [], ◌∷◌, ◌++◌, Option, none, some, ◌==◌,
  if◌then◌else◌, Bytes, codes, lookup, insert,
}

abbrev pub Args : Type 0
Args = List (Bytes × Bytes)

-- `a.find("--") == 0`
starts_dashes : Bytes → Bool
starts_dashes (x ∷ y ∷ s) = x == b'-' && y == b'-'
starts_dashes _ = false

-- The text behind the two dashes, cut at the first `=`; the second part is empty if there is none.
-- The position of the first `=` in the whole argument is 2 or more, since dashes stand before it.
cut_eq : Bytes → Bytes × Bytes
cut_eq [] = ([], [])
cut_eq (c ∷ s) = let (k, v) = cut_eq s in if c == b'=' then ([], s) else (c ∷ k, v)

behind_dashes : Bytes → Bytes
behind_dashes (x ∷ y ∷ s) = s
behind_dashes _ = []

-- One round of the loop of `ParseArgs`.
parse_arg : Args → Bytes → Args
parse_arg args a =
    let (k, v) = cut_eq (behind_dashes a) in if starts_dashes a then insert k v args else args

parse_rest : Args → List Bytes → Args
parse_rest args [] = args
parse_rest args (a ∷ more) = parse_rest (parse_arg args a) more

-- The loop starts at `argv[1]`.
unfoldable pub parse_args : List Bytes → Args
unfolding parse_rest parse_arg starts_dashes behind_dashes cut_eq
parse_args [] = []
parse_args (program ∷ more) = parse_rest [] more

or_else : Option Bytes → Bytes → Bytes
or_else (some v) d = v
or_else none d = d

unfoldable pub get_arg : (Bytes → Option Bytes) → Args → Bytes → Bytes → Bytes
unfolding or_else
get_arg getenv args key def = elim (lookup key args) [
  | some v ↦ v
  | none ↦ or_else (getenv (codes "HTTP_SERVER_DEMO_" ++ key)) def
]

parse_args_test :
    parse_args
      (codes "grpc_server" ∷ codes "--port=1=2" ∷ codes "x" ∷ codes "--id" ∷ codes "--port=3" ∷ [])
    ≡ (codes "port", codes "3") ∷ (codes "id", []) ∷ []
unfolding parse_args
parse_args_test = refl
