-- ===== src/Redis.antt =====
-- src/store/redis_client.h and src/store/redis_client.cpp. The hiredis calls and the server behind
-- them are an argument, `RedisApi`; a command is handed to it as the source writes it, with its
-- format string. A reply of hiredis is a value, `none` for a null pointer.
pub mod Failures
pub mod Outage
pub mod Opening
pub mod Server
pub mod Commands
use httpserver_demo.Prelude.{
  ℕ, suc, Bool, true, false, ◌&&◌, List, [], ◌∷◌, Option, none, some, String, ◌==◌, ltb_ℤ,
  if◌then◌else◌, Bytes, codes, is_empty, c_str, ℤ, pos,
}

-- `redisReply` by its tag. The elements of an array are replies.
mutual
  pub data Reply : Type 0 where
    str : Bytes → Reply
    array : Replies → Reply
    integer : ℤ → Reply
    nil : Reply
    status : Bytes → Reply
    error : Bytes → Reply

  pub data Replies : Type 0 where
    end : Replies
    more : Reply → Replies → Replies

-- An argument behind the format string, for `%s` and for `%d`.
pub data Arg : Type 0 where
  s : Bytes → Arg
  d : ℤ → Arg

pub record RedisApi : Type 1 where
  -- the server, and the contexts that the client holds open
  pub Server : Type 0
  pub Context : Type 0
  -- `redisConnectWithTimeout` with host, port and seconds
  pub connect : Bytes → ℤ → ℤ → Server → Option Context × Server
  -- `ctx->errstr`, `none` where `ctx->err` is zero
  pub context_error : Context → Server → Option Bytes
  pub free_context : Context → Server → Server
  -- `redisvCommand`, on a context that may be null
  pub command : Option Context → String → List Arg → Server → Option Reply × Server
  pub free_reply : Reply → Server → Server

-- `RedisReply::ok`
abbrev pub ok : Option Reply → Bool
ok none = false
ok (some (error e)) = false
ok (some r) = true

-- `RedisReply::error`
abbrev pub error_text : Option Reply → Bytes
error_text (some (error e)) = e
error_text r = []

abbrev pub is_nil : Option Reply → Bool
is_nil (some nil) = true
is_nil r = false

abbrev pub integer_of : Option Reply → Option ℤ
integer_of (some (integer n)) = some n
integer_of r = none

abbrev pub string_of : Option Reply → Option Bytes
string_of (some (str v)) = some v
string_of r = none

-- The loop of `smembers`: elements that are no strings are passed over.
abbrev pub strings : Replies → List Bytes
strings end = []
strings (more (str v) rs) = v ∷ strings rs
strings (more r rs) = strings rs

abbrev pub strings_of : Option Reply → Option (List Bytes)
strings_of (some (array rs)) = some (strings rs)
strings_of r = none

-- `r.error().empty() ? what : r.error()`
abbrev pub error_or : Option Reply → Bytes → Bytes
error_or r what = if is_empty (error_text r) then what else error_text r

module _ (api : RedisApi) where
  -- A client object, with the server that it talks to.
  pub record RedisClient : Type 0 where
    pub ctx : Option api.Context
    pub err : Bytes
    pub server : api.Server

  abbrev free_opt : Option Reply → api.Server → api.Server
  free_opt none sv = sv
  free_opt (some r) sv = api.free_reply r sv

  -- `RedisReply r(Command(fmt, args))` with the end of its scope: the reply is freed if there is one.
  unfoldable pub run : String → List Arg → RedisClient → Option Reply × RedisClient
  run fmt args c =
      let (r, sv) = api.command c.ctx fmt args c.server in (r, record c { server = free_opt r sv })

  abbrev pub with_err : Bool → Bytes → RedisClient → RedisClient
  with_err true e c = c
  with_err false e c = record c { err = e }

  unfoldable pub close : RedisClient → RedisClient
  close c = elim c.ctx [
    | none ↦ c
    | some x ↦ record c { ctx = none; server = api.free_context x c.server }
  ]

  abbrev pub is_connected : RedisClient → Bool
  is_connected c = elim c.ctx [ none ↦ false | some x ↦ true ]

  -- What `connect` does with the context that hiredis returns.
  checked : Option api.Context → RedisClient → Bool × RedisClient
  unfolding close
  checked none c =
      (false, record c { ctx = none; err = codes "redisConnectWithTimeout returned null" })
  checked (some x) c = elim (api.context_error x c.server) [
    | none ↦ (true, record c { ctx = some x; err = [] })
    | some e ↦ (false, close (record c { ctx = some x; err = e }))
  ]

  unfoldable pub connect : Bytes → ℤ → ℤ → RedisClient → Bool × RedisClient
  unfolding close checked
  connect host port timeout_sec c =
      let c₀ = close c in
      let (ctx, sv) = api.connect (c_str host) port timeout_sec c₀.server in
      checked ctx (record c₀ { server = sv })

  unfoldable pub set : Bytes → Bytes → ℤ → RedisClient → Bool × RedisClient
  set key value ttl_sec c =
      let with_ttl = run "SET %s %s EX %d" (s (c_str key) ∷ s (c_str value) ∷ d ttl_sec ∷ []) c in
      let plain = run "SET %s %s" (s (c_str key) ∷ s (c_str value) ∷ []) c in
      let (r, c') = if ltb_ℤ (pos 0) ttl_sec then with_ttl else plain in
      (ok r, with_err (ok r) (error_or r (codes "SET failed")) c')

  unfoldable pub get : Bytes → RedisClient → Option Bytes × RedisClient
  get key c =
      let (r, c') = run "GET %s" (s (c_str key) ∷ []) c in
      (
        if ok r then if is_nil r then none else string_of r else none,
        with_err (ok r) (error_or r (codes "GET failed")) c',
      )

  unfoldable pub del : Bytes → RedisClient → Bool × RedisClient
  del key c = let (r, c') = run "DEL %s" (s (c_str key) ∷ []) c in (ok r, c')

  abbrev is_one : Option ℤ → Bool
  is_one (some (pos n)) = n == 1
  is_one n = false

  unfoldable pub exists : Bytes → RedisClient → Bool × RedisClient
  exists key c =
      let (r, c') = run "EXISTS %s" (s (c_str key) ∷ []) c in (ok r && is_one (integer_of r), c')

  abbrev is_some {ℓ} : {A : Type ℓ} → Option A → Bool
  is_some none = false
  is_some (some a) = true

  unfoldable pub incr : Bytes → RedisClient → Option ℤ × RedisClient
  incr key c =
      let (r, c') = run "INCR %s" (s (c_str key) ∷ []) c in
      (
        integer_of r,
        with_err (ok r && is_some (integer_of r)) (error_or r (codes "INCR failed")) c',
      )

  unfoldable pub sadd : Bytes → Bytes → RedisClient → Bool × RedisClient
  sadd key member c =
      let (r, c') = run "SADD %s %s" (s (c_str key) ∷ s (c_str member) ∷ []) c in (ok r, c')

  unfoldable pub srem : Bytes → Bytes → RedisClient → Bool × RedisClient
  srem key member c =
      let (r, c') = run "SREM %s %s" (s (c_str key) ∷ s (c_str member) ∷ []) c in (ok r, c')

  unfoldable pub smembers : Bytes → RedisClient → Option (List Bytes) × RedisClient
  smembers key c = let (r, c') = run "SMEMBERS %s" (s (c_str key) ∷ []) c in (strings_of r, c')

  unfoldable pub scard : Bytes → RedisClient → Option ℤ × RedisClient
  scard key c = let (r, c') = run "SCARD %s" (s (c_str key) ∷ []) c in (integer_of r, c')
