-- ===== src/Prelude/Text.antt =====
-- `std::string` as a list of bytes: comparison, the C string of it, and dictionaries keyed by it.
use Prim.Native.Nat.{ℕ}
use Prim.Native.Char.{code}
use Prim.Native.String.{String}
use mathlib.Core.Path.{◌≡◌, refl}
use mathlib.Core.Logic.{◌≢◌}
use mathlib.Core.Bool.{Bool, true, false, ◌&&◌}
use mathlib.Core.List.{List, [], ◌∷◌}
use mathlib.Core.Option.{Option, none, some}
use native.Mathlib.Omega.{arith}
use httpserver_demo.Prelude.Tests.{◌==◌, if◌then◌else◌}
use httpserver_demo.Prelude.Lists.{All}

abbrev pub Bytes : Type 0
Bytes = List ℕ

-- The bytes of a literal.
abbrev pub codes : String → Bytes
codes String.[] = []
codes (String.◌∷◌ c s) = code c ∷ codes s

abbrev pub beq : Bytes → Bytes → Bool
beq [] [] = true
beq (x ∷ xs) (y ∷ ys) = x == y && beq xs ys
beq _ _ = false

pub eq_of_beq : (xs ys : Bytes) → beq xs ys ≡ true → xs ≡ ys
eq_of_beq [] [] h = refl
eq_of_beq [] (y ∷ ys) h = cc
eq_of_beq (x ∷ xs) [] h = cc
eq_of_beq (x ∷ xs) (y ∷ ys) h = ground (arith, eq_of_beq xs ys)

pub beq_refl : (xs : Bytes) → beq xs xs ≡ true
beq_refl [] = refl
beq_refl (x ∷ xs) = ground (arith, beq_refl xs)

abbrev pub is_empty : Bytes → Bool
is_empty [] = true
is_empty (x ∷ xs) = false

-- What `s.c_str()` is to a reader of C strings: the bytes before the first NUL.
abbrev pub c_str : Bytes → Bytes
c_str [] = []
c_str (x ∷ xs) = if x == 0 then [] else x ∷ c_str xs

abbrev pub NoNul : Bytes → Type 0
NoNul = All (λ b. b ≢ 0)

pub c_str_of_NoNul : (s : Bytes) → NoNul s → c_str s ≡ s
c_str_of_NoNul [] h = refl
c_str_of_NoNul (x ∷ xs) h = ground (arith, c_str_of_NoNul xs h.1)

module _ {ℓ} {V : Type ℓ} where
  abbrev pub lookup : Bytes → List (Bytes × V) → Option V
  lookup k [] = none
  lookup k ((j, v) ∷ m) = if beq j k then some v else lookup k m

  -- A map's write: the pair at the key is replaced, or a new one is added.
  abbrev pub insert : Bytes → V → List (Bytes × V) → List (Bytes × V)
  insert k v [] = (k, v) ∷ []
  insert k v ((j, w) ∷ m) = if beq j k then (k, v) ∷ m else (j, w) ∷ insert k v m
