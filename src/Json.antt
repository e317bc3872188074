-- ===== src/Json.antt =====
-- src/common/json_utils.h: the JSON of a user. nlohmann::json is an argument, `JsonLib`: a type of
-- values with the calls that the sources make, `none` where the library throws.
pub mod Laws
use httpserver_demo.Prelude.{
  ℕ, List, [], ◌∷◌, ◌++◌, Option, none, some, Bytes, codes, ℤ, pos, ◌≡◌, lookup, NoNul, All, ◌<◌,
}

pub record JsonLib : Type 1 where
  pub Json : Type 0
  pub string : Bytes → Json
  pub integer : ℤ → Json
  -- an initializer list of pairs, and the object that assignments to its keys in turn build
  pub object : List (Bytes × Json) → Json
  pub array : List Json → Json
  pub dump : Json → Option Bytes
  pub parse : Bytes → Option Json
  -- `j.value(key, default)` at the type of the default
  pub value_string : Json → Bytes → Bytes → Option Bytes
  pub value_integer : Json → Bytes → ℤ → Option ℤ
  -- `j[key]` on a `j` that is not const: the element, and `j` after the call
  pub index : Json → Bytes → Option (Json × Json)
  -- the values of a range-based `for`
  pub elements : Json → List Json

-- What the sources rely on in nlohmann::json, as its documentation states it.
pub record IsJson (L : JsonLib) : Type 1 where
  pub parse-dump : (j : L.Json) (s : Bytes) → L.dump j ≡ some s → L.parse s ≡ some j
  -- a dump succeeds if all the texts in the value are well-formed UTF-8
  pub IsText : Bytes → Type 0
  pub IsWell : L.Json → Type 0
  pub ascii-IsText : (s : Bytes) → All (λ c. c < 128) s → IsText s
  pub append-IsText : (s t : Bytes) → IsText s → IsText t → IsText (s ++ t)
  pub string-IsWell : (s : Bytes) → IsText s → IsWell (L.string s)
  pub integer-IsWell : (n : ℤ) → IsWell (L.integer n)
  pub object-IsWell :
      (fs : List (Bytes × L.Json)) → All (λ f. IsText f.0 × IsWell f.1) fs → IsWell (L.object fs)
  pub array-IsWell : (js : List L.Json) → All IsWell js → IsWell (L.array js)
  pub dump_well : (j : L.Json) → IsWell j → (s : Bytes) × (L.dump j ≡ some s)
  -- control characters are escaped in a dump
  pub dump-NoNul : (j : L.Json) (s : Bytes) → L.dump j ≡ some s → NoNul s
  pub value_string-object :
      (fs : List (Bytes × L.Json)) (k v d : Bytes)
      → lookup k fs ≡ some (L.string v)
      → L.value_string (L.object fs) k d ≡ some v
  pub value_integer-object :
      (fs : List (Bytes × L.Json)) (k : Bytes) (v d : ℤ)
      → lookup k fs ≡ some (L.integer v)
      → L.value_integer (L.object fs) k d ≡ some v
  pub index-object :
      (fs : List (Bytes × L.Json)) (k : Bytes) (j : L.Json)
      → lookup k fs ≡ some j
      → L.index (L.object fs) k ≡ some (j, L.object fs)
  pub elements-array : (js : List L.Json) → L.elements (L.array js) ≡ js

-- The message `User` of the protocol; `created_at` is an int64.
pub record User : Type 0 where
  pub id : Bytes
  pub name : Bytes
  pub email : Bytes
  pub created_at : ℤ

-- A message that is constructed and not filled.
abbrev pub empty_user : User
empty_user = record { id = []; name = []; email = []; created_at = pos 0 }

infixl 5 ◌>>=◌
abbrev pub ◌>>=◌ {ℓ κ} : {A : Type ℓ} {B : Type κ} → Option A → (A → Option B) → Option B
none >>= f = none
some a >>= f = f a

module _ (L : JsonLib) where
  unfoldable pub user_to_json : User → L.Json
  user_to_json u = L.object (
      (codes "id", L.string u.id)
      ∷ (codes "name", L.string u.name)
      ∷ (codes "email", L.string u.email)
      ∷ (codes "created_at", L.integer u.created_at)
      ∷ [])

  unfoldable pub user_to_json_string : User → Option Bytes
  user_to_json_string u = L.dump (user_to_json u)

  -- The fields are set in this order; an exception leaves the function.
  unfoldable pub json_to_user : L.Json → Option User
  json_to_user j = do
    id ← L.value_string j (codes "id") []
    name ← L.value_string j (codes "name") []
    email ← L.value_string j (codes "email") []
    created_at ← L.value_integer j (codes "created_at") (pos 0)
    some (record { id = id; name = name; email = email; created_at = created_at })
