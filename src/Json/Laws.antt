-- ===== src/Json/Laws.antt =====
-- Users survive the way into JSON and back.
use httpserver_demo.Prelude.{[], some, arith, Bytes, codes, pos, ◌≡◌, refl}
use httpserver_demo.Json.{
  JsonLib, IsJson, User, ◌>>=◌, user_to_json, user_to_json_string, json_to_user,
}

module _ (L : JsonLib) (lib : IsJson L) where
  -- Reading the JSON object of a user gives the user back.
  pub json_to_user-user_to_json : (u : User) → json_to_user L (user_to_json L u) ≡ some u
  unfolding json_to_user user_to_json
  json_to_user-user_to_json u = rw (
    lib.value_string-object _ (codes "id") u.id [] refl,
    lib.value_string-object _ (codes "name") u.name [] refl,
    lib.value_string-object _ (codes "email") u.email [] refl,
    lib.value_integer-object _ (codes "created_at") u.created_at (pos 0) refl,
  )

  -- A user that is dumped to a text is read back from it.
  pub user_round_trip :
      (u : User) (s : Bytes)
      → user_to_json_string L u ≡ some s
      → (L.parse s >>= json_to_user L) ≡ some u
  unfolding user_to_json_string
  user_round_trip u s h = rw (lib.parse-dump _ s h) (json_to_user-user_to_json u)

  pub user_to_json-IsWell :
      (u : User)
      → lib.IsText u.id
      → lib.IsText u.name
      → lib.IsText u.email
      → lib.IsWell (user_to_json L u)
  unfolding user_to_json
  user_to_json-IsWell u i n e = lib.object-IsWell _ (
    (lib.ascii-IsText (codes "id") (omega arith), lib.string-IsWell u.id i),
    (
      (lib.ascii-IsText (codes "name") (omega arith), lib.string-IsWell u.name n),
      (
        (lib.ascii-IsText (codes "email") (omega arith), lib.string-IsWell u.email e),
        (
          (lib.ascii-IsText (codes "created_at") (omega arith), lib.integer-IsWell u.created_at),
          tt,
        ),
      ),
    ),
  )

  -- A user whose texts are well-formed has a dump.
  pub user_to_json_string_total :
      (u : User)
      → lib.IsText u.id
      → lib.IsText u.name
      → lib.IsText u.email
      → (s : Bytes) × (user_to_json_string L u ≡ some s)
  unfolding user_to_json_string
  user_to_json_string_total u i n e = lib.dump_well _ (user_to_json-IsWell u i n e)
