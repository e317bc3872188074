-- ===== src/Redis/Server.antt =====
-- What the sources rely on in a Redis server that answers, as its documentation states it. A
-- server is seen as the entries that its keys hold.
use httpserver_demo.Prelude.{
  ℕ, suc, ◌+◌, ◌<◌, Bool, false, ◌||◌, List, [], ◌∷◌, Option, none, some, Bytes, codes, beq,
  if◌then◌else◌, ℤ, pos, max_int64, ◌≡◌, ◌⊎◌,
}
use httpserver_demo.Decimal.{nat_to_string}
use httpserver_demo.Redis.{RedisApi, Reply, Replies, RedisClient, s, d}

pub data Entry : Type 0 where
  text : Bytes → Entry
  members : List Bytes → Entry

abbrev pub View : Type 0
View = Bytes → Option Entry

abbrev pub update : View → Bytes → Option Entry → View
update v k e j = if beq k j then e else v j

abbrev pub contains : List Bytes → Bytes → Bool
contains [] x = false
contains (m ∷ ms) x = beq m x || contains ms x

-- A key that is not there is an empty set to the set commands; a text is an error.
abbrev pub as_members : Option Entry → Option (List Bytes)
as_members none = some []
as_members (some (members ms)) = some ms
as_members (some (text t)) = none

abbrev pub text_of : Option Entry → Option Bytes
text_of (some (text t)) = some t
text_of e = none

abbrev pub IsCount : Option Entry → ℕ → Type 0
IsCount e n = ((e ≡ none) × (n ≡ 0)) ⊎ (e ≡ some (text (nat_to_string n)))

abbrev pub get_reply : Option Entry → Reply
get_reply none = Reply.nil
get_reply (some (text t)) = Reply.str t
get_reply (some (members ms)) = Reply.error (codes "WRONGTYPE")

abbrev pub replies : List Bytes → Replies
replies [] = Replies.end
replies (m ∷ ms) = Replies.more (Reply.str m) (replies ms)

pub record IsRedis (api : RedisApi) : Type 0 where
  pub view : api.Server → View
  -- the members of a set after one was added, in the server's order
  pub add_member : List Bytes → Bytes → List Bytes
  pub contains-add_member :
      (ms : List Bytes) (m x : Bytes) → contains (add_member ms m) x ≡ (beq m x || contains ms x)
  pub view-free_reply : (r : Reply) (sv : api.Server) → view (api.free_reply r sv) ≡ view sv
  pub set_ex :
      (x : api.Context) (k v : Bytes) (t : ℕ) (sv : api.Server)
      → let out = api.command (some x) "SET %s %s EX %d" (s k ∷ s v ∷ d (pos (suc t)) ∷ []) sv in
        (out.0 ≡ some (Reply.status (codes "OK")))
        × (view out.1 ≡ update (view sv) k (some (text v)))
  pub get :
      (x : api.Context) (k : Bytes) (sv : api.Server)
      → let out = api.command (some x) "GET %s" (s k ∷ []) sv in
        (out.0 ≡ some (get_reply (view sv k))) × (view out.1 ≡ view sv)
  pub del :
      (x : api.Context) (k : Bytes) (sv : api.Server)
      → let out = api.command (some x) "DEL %s" (s k ∷ []) sv in
        (n : ℤ) × (out.0 ≡ some (Reply.integer n)) × (view out.1 ≡ update (view sv) k none)
  pub incr :
      (x : api.Context) (k : Bytes) (n : ℕ) (sv : api.Server)
      → IsCount (view sv k) n
      → n < max_int64
      → let out = api.command (some x) "INCR %s" (s k ∷ []) sv in
        (out.0 ≡ some (Reply.integer (pos (n + 1))))
        × (view out.1 ≡ update (view sv) k (some (text (nat_to_string (n + 1)))))
  pub sadd :
      (x : api.Context) (k m : Bytes) (ms : List Bytes) (sv : api.Server)
      → as_members (view sv k) ≡ some ms
      → let out = api.command (some x) "SADD %s %s" (s k ∷ s m ∷ []) sv in
        (n : ℤ) × (out.0 ≡ some (Reply.integer n))
        × (view out.1 ≡ update (view sv) k (some (members (add_member ms m))))
  pub smembers :
      (x : api.Context) (k : Bytes) (ms : List Bytes) (sv : api.Server)
      → as_members (view sv k) ≡ some ms
      → let out = api.command (some x) "SMEMBERS %s" (s k ∷ []) sv in
        (out.0 ≡ some (Reply.array (replies ms))) × (view out.1 ≡ view sv)

-- The client is connected, and its server shows these entries.
pub record Shows {api : RedisApi} (laws : IsRedis api) (c : RedisClient api) (v : View)
    : Type 0 where
  pub context : api.Context
  pub connected : c.ctx ≡ some context
  pub shown : laws.view c.server ≡ v
