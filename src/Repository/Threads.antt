-- ===== src/Repository/Threads.antt =====
-- The calls of src/store/user_repository.cpp by many threads at once. A step is one command to Redis
-- or one statement to MySQL of one call, in the order of the source; between two steps of a call
-- any other call may take steps, and a key may expire. The two servers are seen as the entries and
-- the rows that they hold. MySQL answers every statement; a command to Redis may fail at any time. The id of an insertion is read on the
-- connection that made it, with which no other thread interferes, and so belongs to the insertion.
-- A command is atomic: what goes wrong inside hiredis when threads share one context, of which
-- src/store/redis_client.h warns, is outside of this.
pub mod Truth
pub mod Solo
pub mod Failures
pub mod Moves
pub mod Answers
pub mod Stale
pub mod Requests
use httpserver_demo.Prelude.{
  ℕ, Bool, ◌<◌, ◌≤◌, false, List, [], ◌∷◌, ◌++◌, map, Option, none, some, Bytes, c_str, NoNul, All,
  beq, ℤ, pos, length, take, drop, max_int64, bind_option, ◌≡◌, ◌⊎◌,
}
use httpserver_demo.Decimal.{to_string}
use httpserver_demo.Json.{User, user_to_json_string}
use httpserver_demo.Redis.Server.{text, members, View, update, as_members, text_of}
use httpserver_demo.Mysql.Server.{Account, Table, find}
use httpserver_demo.World.{Outside}
use httpserver_demo.Repository.{
  user_key, list_cache_key, list_cache_index, total_users_key, request_count_key, decode_user,
  decode_page, page_to_json, number_of_text, count_or_zero,
}
use httpserver_demo.Repository.Fits.{user_of}

-- A call by what it does next, with its arguments and what it has read so far.
pub data Task : Type 0 where
  -- `GetUser`
  get_cached : Bytes → Task
  get_select : Bytes → Task
  get_fill : Bytes → User → Task
  got : Bytes → Option User → Task
  -- `ListUsers`
  list_cached : ℕ → ℕ → Task
  list_count : ℕ → ℕ → Task
  list_select : ℕ → ℕ → ℤ → Task
  list_fill : ℕ → ℕ → List User × ℤ → Task
  list_index : ℕ → ℕ → List User × ℤ → Task
  listed : ℕ → ℕ → List User × ℤ → Task
  -- `CreateUser`, with the clock's reading
  create_insert : ℤ → Bytes → Bytes → Task
  create_fill : User → Task
  create_index : User → Task
  create_delete : Bytes → List Bytes → User → Task
  create_drop : User → Task
  create_total : User → Task
  created : Option User → Task
  -- `GetStats`
  stats_cached : Task
  stats_count : Task
  stats_fill : ℤ → Task
  stats_requests : ℤ → Task
  stats_read : ℤ → ℤ → Task
  -- left by an exception
  failed : Task

abbrev pub key_of_page : ℕ → ℕ → Bytes
key_of_page limit offset = list_cache_key (pos limit) (pos offset)

-- A call that starts, with texts that hold no NUL.
abbrev pub IsCall : Task → Type 0
IsCall (get_cached id) = NoNul id
IsCall (list_cached limit offset) = Unit
IsCall (create_insert now name email) = NoNul name × NoNul email
IsCall stats_cached = Unit
IsCall k = ⊥

abbrev pub user_hit : Bytes → Option User → Task
user_hit id none = get_select id
user_hit id (some u) = got id (some u)

abbrev pub user_row : Bytes → Option Account → Task
user_row id none = got id none
user_row id (some a) = get_fill id (user_of a)

abbrev pub page_hit : ℕ → ℕ → Option (List User × ℤ) → Task
page_hit limit offset none = list_count limit offset
page_hit limit offset (some page) = listed limit offset page

abbrev pub total_hit : Option Bytes → Task
total_hit none = stats_count
total_hit (some x) = stats_requests (number_of_text x)

-- A text is written, unless making it threw.
abbrev pub put_text : Task → Bytes → Option Bytes → View → Task × View
put_text next key none v = (failed, v)
put_text next key (some x) v = (next, update v key (some (text x)))

-- The same where the write fails.
abbrev pub put_failed : Task → Option Bytes → Task
put_failed next none = failed
put_failed next (some x) = next

-- The loop over the keys of the index.
abbrev pub deleting : Option (List Bytes) → User → Task
deleting none u = create_drop u
deleting (some []) u = create_drop u
deleting (some (k ∷ ks)) u = create_delete k ks u

-- The servers, and the calls that were made since the start, those that ended among them.
pub record State : Type 0 where
  pub cache : View
  pub table : Table
  pub tasks : List Task

-- A state in which one call has gone on to `k'`, and the cache shows `v`.
abbrev pub moved : List Task → Task × View → List Task → State → State
moved xs (k', v) ys s = record s { cache = v; tasks = xs ++ k' ∷ ys }

-- A row was added by a call, which goes on.
abbrev pub inserted : List Task → Account → List Task → State → State
inserted xs b ys s = record s {
  table = s.table ++ b ∷ [];
  tasks = xs ++ create_fill (user_of b) ∷ ys;
}

module _ (E : Outside) (matches : Bytes → ℕ → Bool)
    (add_member : List Bytes → Bytes → List Bytes) where
  -- `SADD`, which an entry of another type refuses.
  abbrev pub added : Bytes → Option (List Bytes) → View → View
  added key none v = v
  added key (some ms) v = update v list_cache_index (some (members (add_member ms key)))

  -- The next command or statement of a call, other than the insertion.
  unfoldable pub advance : Task → View → Table → Task × View
  advance (get_cached id) v t =
      (user_hit id (bind_option (text_of (v (user_key id))) (decode_user E)), v)
  advance (get_select id) v t = (user_row id (find (matches id) t), v)
  advance (get_fill id u) v t =
      put_text (got id (some u)) (user_key id) (user_to_json_string E.json u) v
  advance (list_cached l o) v t =
      (page_hit l o (bind_option (text_of (v (key_of_page l o))) (decode_page E)), v)
  advance (list_count l o) v t = (list_select l o (pos (length t)), v)
  advance (list_select l o total) v t = (list_fill l o (map user_of (take l (drop o t)), total), v)
  advance (list_fill l o (users, total)) v t =
      put_text (list_index l o (users, total)) (key_of_page l o)
        (E.json.dump (page_to_json E users total)) v
  advance (list_index l o page) v t =
      (listed l o page, added (key_of_page l o) (as_members (v list_cache_index)) v)
  advance (create_fill u) v t =
      put_text (create_index u) (user_key u.id) (user_to_json_string E.json u) v
  advance (create_index u) v t = (deleting (as_members (v list_cache_index)) u, v)
  advance (create_delete k ks u) v t = (deleting (some ks) u, update v (c_str k) none)
  advance (create_drop u) v t = (create_total u, update v list_cache_index none)
  advance (create_total u) v t = (created (some u), update v total_users_key none)
  advance stats_cached v t = (total_hit (text_of (v total_users_key)), v)
  advance stats_count v t = (stats_fill (pos (length t)), v)
  advance (stats_fill total) v t =
      (stats_requests total, update v total_users_key (some (text (to_string total))))
  advance (stats_requests total) v t =
      (stats_read total (count_or_zero (text_of (v request_count_key))), v)
  advance (create_insert now name email) v t = (create_insert now name email, v)
  advance (got id u) v t = (got id u, v)
  advance (listed l o page) v t = (listed l o page, v)
  advance (created u) v t = (created u, v)
  advance (stats_read total requests) v t = (stats_read total requests, v)
  advance failed v t = (failed, v)

  -- How a call goes on after a command to Redis that fails: a read is a miss, and a write is not
  -- looked after.
  unfoldable pub fail_over : Task → Task
  fail_over (get_cached id) = get_select id
  fail_over (get_fill id u) = put_failed (got id (some u)) (user_to_json_string E.json u)
  fail_over (list_cached l o) = list_count l o
  fail_over (list_fill l o (users, total)) =
      put_failed (list_index l o (users, total)) (E.json.dump (page_to_json E users total))
  fail_over (list_index l o page) = listed l o page
  fail_over (create_fill u) = put_failed (create_index u) (user_to_json_string E.json u)
  fail_over (create_index u) = create_drop u
  fail_over (create_delete k ks u) = deleting (some ks) u
  fail_over (create_drop u) = create_total u
  fail_over (create_total u) = created (some u)
  fail_over stats_cached = stats_count
  fail_over (stats_fill total) = stats_requests total
  fail_over (stats_requests total) = stats_read total (pos 0)
  fail_over k = k

  pub data Step (s q : State) : Type 0 where
    -- a thread makes a call
    calls : (k : Task) → IsCall k → q ≡ record s { tasks = k ∷ s.tasks } → Step s q
    -- a call sends its next command or statement
    moves :
        (xs ys : List Task) (k : Task)
        → s.tasks ≡ xs ++ k ∷ ys
        → q ≡ moved xs (advance k s.cache s.table) ys s
        → Step s q
    -- a command to Redis fails, whether or not the server has carried it out
    fails :
        (xs ys : List Task) (k : Task) (v : View)
        → s.tasks ≡ xs ++ k ∷ ys
        → (v ≡ s.cache) ⊎ (v ≡ (advance k s.cache s.table).1)
        → q ≡ moved xs (fail_over k, v) ys s
        → Step s q
    -- the server takes a row, under a new id that is larger than all others
    inserts :
        (xs ys : List Task) (b : Account)
        → s.tasks ≡ xs ++ create_insert b.created_at b.name b.email ∷ ys
        → All (λ a. a.id < b.id) s.table
        → length (s.table ++ b ∷ []) ≤ max_int64
        → q ≡ inserted xs b ys s
        → Step s q
    -- the server refuses a row
    refuses :
        (xs ys : List Task) (now : ℤ) (name email : Bytes)
        → s.tasks ≡ xs ++ create_insert now name email ∷ ys
        → q ≡ record s { tasks = xs ++ created none ∷ ys }
        → Step s q
    -- a time to live ends; the index has none
    expires :
        (k : Bytes)
        → beq k list_cache_index ≡ false
        → q ≡ record s { cache = update s.cache k none }
        → Step s q

  pub data Reach (s : State) : State → Type 0 where
    here : Reach s s
    next : {q u : State} → Reach s q → Step q u → Reach s u
