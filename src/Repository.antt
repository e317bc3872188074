-- ===== src/Repository.antt =====
-- src/store/user_repository.h and src/store/user_repository.cpp: MySQL behind the pool, and Redis as
-- a cache in front of it. The clock is an argument of `create_user`; a result in an out parameter
-- is a value, `none` where the source returns false or nullopt.
pub mod Connections
pub mod Fits
pub mod Reads
pub mod History
pub mod Expiry
pub mod Creation
pub mod Publication
pub mod Pages
pub mod Counts
pub mod Stats
pub mod Coherence
pub mod Scopes
pub mod Outage
pub mod Refusal
pub mod Walk
pub mod Session
pub mod Threads
pub mod Steps
pub mod Statements
pub mod Insertion
pub mod Keys
use mathlib.Core.Option
use httpserver_demo.Prelude.{
  ℕ, Bool, true, false, List, [], ◌∷◌, ◌++◌, map, Option, none, some, Bytes, codes, c_str, ℤ, pos,
  get_or, bind_option,
}
use httpserver_demo.Decimal.{to_string, nat_to_string, strtoll}
use httpserver_demo.Effects.{ret, ◌>>=◌, ◌>>◌, or_throw, for_each}
use httpserver_demo.Json.{User, user_to_json, user_to_json_string, json_to_user}
use httpserver_demo.Redis
use httpserver_demo.Mysql
use httpserver_demo.Mysql.{Row}
use httpserver_demo.Sql.{insert_sql, select_sql, count_sql, page_sql}
use httpserver_demo.World.{
  Outside, Call, on_cache, on_conn, read_conn, with_guard, with_result, on_rows, first_some,
}

abbrev pub user_cache_ttl : ℕ
user_cache_ttl = 60

abbrev pub list_cache_ttl : ℕ
list_cache_ttl = 10

abbrev pub stats_cache_ttl : ℕ
stats_cache_ttl = 30

abbrev pub list_cache_index : Bytes
list_cache_index = codes "cache:users:list"

abbrev pub user_key : Bytes → Bytes
user_key id = codes "user:" ++ id

abbrev pub total_users_key : Bytes
total_users_key = codes "stats:total_users"

abbrev pub request_count_key : Bytes
request_count_key = codes "stats:request_count"

unfoldable pub list_cache_key : ℤ → ℤ → Bytes
list_cache_key limit offset =
    codes "users:list:" ++ (to_string limit ++ (codes ":" ++ to_string offset))

-- The user that was inserted: its id is the one that the database gave.
abbrev pub new_user : ℕ → Bytes → Bytes → ℤ → User
new_user id name email now = record {
  id = nat_to_string id;
  name = name;
  email = email;
  created_at = now;
}

-- The cells are C strings.
unfoldable pub user_of_row : Row → User
user_of_row row = record {
  id = c_str (get_or row 0 []);
  name = c_str (get_or row 1 []);
  email = c_str (get_or row 2 []);
  created_at = strtoll (c_str (get_or row 3 []));
}

-- `row ? std::strtoll(row[0], nullptr, 10) : 0`
unfoldable pub count_of_rows : List Row → ℤ
count_of_rows [] = pos 0
count_of_rows (row ∷ more) = strtoll (c_str (get_or row 0 []))

-- `strtoll(text->c_str(), nullptr, 10)`
abbrev pub number_of_text : Bytes → ℤ
number_of_text text = strtoll (c_str text)

abbrev pub count_or_zero : Option Bytes → ℤ
count_or_zero none = pos 0
count_or_zero (some text) = number_of_text text

module _ (E : Outside) where
  unfoldable pub count_request : Call E (Unit {0})
  count_request = do on_cache E (Redis.incr E.redis request_count_key); ret tt

  abbrev pub del_key : Bytes → Call E (Unit {0})
  del_key k = do on_cache E (Redis.del E.redis k); ret tt

  abbrev pub del_keys : Option (List Bytes) → Call E (Unit {0})
  del_keys none = ret tt
  del_keys (some keys) = for_each del_key keys

  unfoldable pub invalidate_list_cache : Call E (Unit {0})
  invalidate_list_cache = do
    keys ← on_cache E (Redis.smembers E.redis list_cache_index)
    del_keys keys
    del_key list_cache_index

  -- The cache after an insertion.
  unfoldable pub publish : User → Call E (Option User)
  publish user = do
    text ← or_throw (user_to_json_string E.json user)
    on_cache E (Redis.set E.redis (user_key user.id) text (pos user_cache_ttl))
    invalidate_list_cache
    del_key total_users_key
    ret (some user)

  unfoldable pub after_insert : Bool → ℤ → Bytes → Bytes → ℕ → Call E (Option User)
  after_insert false now name email i = ret none
  after_insert true now name email i = do
    id ← read_conn E i (Mysql.last_insert_id E.mysql)
    publish (new_user id name email now)

  unfoldable pub create_on : ℤ → Bytes → Bytes → ℕ → Call E (Option User)
  create_on now name email i = do
    name_sql ← read_conn E i (Mysql.escape E.mysql name)
    email_sql ← read_conn E i (Mysql.escape E.mysql email)
    done ← on_conn E i (Mysql.execute E.mysql (insert_sql name_sql email_sql now))
    after_insert done now name email i

  unfoldable pub create_user : ℤ → Bytes → Bytes → Call E (Option User)
  create_user now name email = with_guard E (create_on now name email)

  -- The third step of `GetUser`, for the first row.
  unfoldable pub fill_user : Bytes → List Row → Call E (Option User)
  fill_user id [] = ret none
  fill_user id (row ∷ more) = do
    text ← or_throw (user_to_json_string E.json (user_of_row row))
    on_cache E (Redis.set E.redis (user_key id) text (pos user_cache_ttl))
    ret (some (user_of_row row))

  unfoldable pub select_user : Bytes → ℕ → Call E (Option User)
  select_user id i = do
    id_sql ← read_conn E i (Mysql.escape E.mysql id)
    res ← on_conn E i (Mysql.query E.mysql (select_sql id_sql))
    with_result E res (on_rows E res (fill_user id))

  -- What `GetUser` makes of a cached text; `none` where it goes on to the database.
  unfoldable pub decode_user : Bytes → Option User
  decode_user text = bind_option (E.json.parse text) (json_to_user E.json)

  unfoldable pub get_user : Bytes → Call E (Option User)
  get_user id = do
    cached ← on_cache E (Redis.get E.redis (user_key id))
    first_some E (bind_option cached decode_user) (with_guard E (select_user id))

  unfoldable pub users_of_json : List E.json.Json → Option (List User)
  users_of_json [] = some []
  users_of_json (j ∷ more) =
      bind_option (json_to_user E.json j) (λ u. Option.map (◌∷◌ u) (users_of_json more))

  -- What `ListUsers` makes of a cached text.
  unfoldable pub decode_page : Bytes → Option (List User × ℤ)
  decode_page text = bind_option (E.json.parse text) λ j.
      bind_option (E.json.index j (codes "users")) λ (ju, j').
        bind_option (users_of_json (E.json.elements ju)) λ users.
          bind_option (E.json.value_integer j' (codes "total") (pos 0)) λ total. some (users, total)

  unfoldable pub page_to_json : List User → ℤ → E.json.Json
  page_to_json users total = E.json.object (
      (codes "total", E.json.integer total)
      ∷ (codes "users", E.json.array (map (user_to_json E.json) users))
      ∷ [])

  -- The third step of `ListUsers`.
  unfoldable pub fill_page : Bytes → ℤ → List Row → Call E (Option (List User × ℤ))
  fill_page key total rows = do
    text ← or_throw (E.json.dump (page_to_json (map user_of_row rows) total))
    on_cache E (Redis.set E.redis key text (pos list_cache_ttl))
    on_cache E (Redis.sadd E.redis list_cache_index key)
    ret (some (map user_of_row rows, total))

  unfoldable pub select_page : ℤ → ℤ → ℕ → List Row → Call E (Option (List User × ℤ))
  select_page limit offset i counted = do
    res ← on_conn E i (Mysql.query E.mysql (page_sql limit offset))
    with_result E res
        (on_rows E res (fill_page (list_cache_key limit offset) (count_of_rows counted)))

  unfoldable pub count_and_select : ℤ → ℤ → ℕ → Call E (Option (List User × ℤ))
  count_and_select limit offset i = do
    res ← on_conn E i (Mysql.query E.mysql count_sql)
    with_result E res (on_rows E res (select_page limit offset i))

  unfoldable pub list_users : ℤ → ℤ → Call E (Option (List User × ℤ))
  list_users limit offset = do
    cached ← on_cache E (Redis.get E.redis (list_cache_key limit offset))
    first_some E (bind_option cached decode_page) (with_guard E (count_and_select limit offset))

  unfoldable pub fill_total : List Row → Call E (Option ℤ)
  fill_total rows = do
    let total = count_of_rows rows
    on_cache E (Redis.set E.redis total_users_key (to_string total) (pos stats_cache_ttl))
    ret (some total)

  unfoldable pub count_users : ℕ → Call E (Option ℤ)
  count_users i = do
    res ← on_conn E i (Mysql.query E.mysql count_sql)
    with_result E res (on_rows E res fill_total)

  unfoldable pub with_requests : Option ℤ → Call E (Option (ℤ × ℤ))
  with_requests none = ret none
  with_requests (some total) = do
    count ← on_cache E (Redis.get E.redis request_count_key)
    ret (some (total, count_or_zero count))

  unfoldable pub get_stats : Call E (Option (ℤ × ℤ))
  get_stats = do
    cached ← on_cache E (Redis.get E.redis total_users_key)
    total ← first_some E (Option.map number_of_text cached) (with_guard E count_users)
    with_requests total
