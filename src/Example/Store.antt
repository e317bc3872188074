-- ===== src/Example/Store.antt =====
-- Runs of the repository of src/store/user_repository.cpp on the small servers.
use httpserver_demo.Prelude.{
  ℕ, [], ◌∷◌, ◌++◌, none, some, arith, codes, pos, All, length, ◌≡◌, ◌≢◌, refl, true, ◌⊎◌, inl, ◌∙◌,
  ap, sym, Bytes, ℤ, ◌≤◌, ◌<◌, map, NoNul,
}
use httpserver_demo.Effects.{returned, blocked}
use httpserver_demo.Json.{User}
use httpserver_demo.Redis.Server.{update, View, text_of, IsCount}
use httpserver_demo.Mysql.{default_config}
use httpserver_demo.Mysql.Server.{Account, Table, RowRefused}
use httpserver_demo.World.{Outside, World}
use httpserver_demo.Repository.{
  create_user, get_user, list_users, get_stats, new_user, count_or_zero, request_count_key,
  page_to_json, decode_page,
}
use httpserver_demo.Repository.Fits.{page_of, Fits, user_of}
use httpserver_demo.Repository.Coherence.{IsPlain, Coherent, dump_of_page, decode_page-dump}
use httpserver_demo.Repository.Connections.{calls_return_connections}
use httpserver_demo.Repository.Reads.{get_user-Coherent}
use httpserver_demo.Repository.Reads.Path.{user_at}
use httpserver_demo.Repository.Pages.{list_users-Coherent}
use httpserver_demo.Repository.Stats.{get_stats-Coherent}
use httpserver_demo.Repository.Creation.{create_user-Coherent}
use httpserver_demo.Repository.History.{Operation, after, create_user-read_back}
use httpserver_demo.Repository.Expiry.{Past, now, calls, expires, with_server, Past-Coherent}
use httpserver_demo.Repository.Threads.Requests.{IsClean}
use httpserver_demo.Example.Json.{json}
use httpserver_demo.Example.Json.Laws.{json_laws}
use httpserver_demo.Example.Redis.{redis, redis_laws, redis_laws-view}
use httpserver_demo.Example.Mysql.{mysql}
use httpserver_demo.Example.Mysql.Laws.{mysql_laws, mysql_laws-view, used}

abbrev pub outside : Outside
outside = record { json = json; mysql = mysql; redis = redis }

abbrev pub ann : Account
ann = record { id = 1; name = codes "Ann"; email = codes "a@b.c"; created_at = pos 1700000000 }

-- A pool of one connection, a table with one row, and an empty cache.
abbrev pub start : World outside
start = record {
  pool = record {
    cfg = default_config;
    conns = record { mysql = some tt; err = [] } ∷ [];
    idle = 0 ∷ [];
    err = [];
  };
  db = record { made = true; rows = ann ∷ []; last = 0; answer = none };
  cache = record { ctx = some tt; err = []; server = λ k. none };
}

abbrev pub empty_view : View
empty_view k = none

pub start-Fits : Fits outside mysql_laws.matches empty_view (ann ∷ [])
start-Fits = record {
  users = λ id s h. absurd (cc h);
  pages = λ l o s h. absurd (cc h);
  total = λ s h. absurd (cc h);
  index = [];
  indexed = refl;
  complete = λ l o s h. absurd (cc h);
}

pub ann-IsPlain : All (IsPlain outside json_laws) (ann ∷ [])
ann-IsPlain = (
  record {
    name = omega arith;
    email = omega arith;
    name_text = json_laws.ascii-IsText (codes "Ann") (omega arith);
    email_text = json_laws.ascii-IsText (codes "a@b.c") (omega arith);
    created_at = omega arith;
  },
  tt,
)

dumped_page :
    (s : Bytes) × (json.dump (page_to_json outside (map user_of (ann ∷ [])) (pos 1)) ≡ some s)
dumped_page = dump_of_page outside json_laws (ann ∷ []) (pos 1) ann-IsPlain

decode_page-dump_example :
    (decode_page outside dumped_page.0 ≡ some (map user_of (ann ∷ []), pos 1)) × NoNul dumped_page.0
decode_page-dump_example =
    decode_page-dump outside json_laws (map user_of (ann ∷ [])) (pos 1) dumped_page.0 dumped_page.1

pub start-Coherent : Coherent outside json_laws redis_laws mysql_laws start (ann ∷ [])
start-Coherent = record {
  view = empty_view;
  count = 1;
  state = record {
    shows = record { context = tt; connected = refl; shown = redis_laws-view empty_view };
    table = mysql_laws-view start.db refl;
    connected = ((tt, refl, used tt start.db), tt);
    size = refl;
  };
  fits = start-Fits;
  plain = ann-IsPlain;
  small = omega arith;
  idle = (omega arith, tt);
  some_idle = λ e. cc;
}

pub start-requests : IsCount (start-Coherent.view request_count_key) 0
unfolding start-Coherent
start-requests = inl (refl, refl)

pub start-IsClean : IsClean start-Coherent.view
unfolding start-Coherent
start-IsClean ms held k h = absurd (cc (held, h))

get_user_example :
    ((get_user outside (codes "1") start).0 ≡ returned (user_at mysql_laws (ann ∷ []) (codes "1")))
    × Coherent outside json_laws redis_laws mysql_laws
        (get_user outside (codes "1") start).1
        (ann ∷ [])
get_user_example =
    get_user-Coherent outside json_laws redis_laws mysql_laws start (ann ∷ []) (codes "1")
      start-Coherent (omega arith)

list_users_example :
    ((list_users outside (pos 10) (pos 0) start).0 ≡ returned (some (page_of (ann ∷ []) 10 0)))
    × Coherent outside json_laws redis_laws mysql_laws
        (list_users outside (pos 10) (pos 0) start).1
        (ann ∷ [])
list_users_example =
    list_users-Coherent outside json_laws redis_laws mysql_laws start (ann ∷ []) 10 0 start-Coherent
      (omega arith) (omega arith)

get_stats_example :
    ((get_stats outside start).0
      ≡ returned (some (pos 1, count_or_zero (text_of (start-Coherent.view request_count_key)))))
    × Coherent outside json_laws redis_laws mysql_laws (get_stats outside start).1 (ann ∷ [])
get_stats_example =
    get_stats-Coherent outside json_laws redis_laws mysql_laws start (ann ∷ []) start-Coherent

create_user_example :
    let out = create_user outside (pos 1700000001) (codes "Bob") (codes "b@b.c") start in
    ((out.0 ≡ returned none)
      × RowRefused mysql_laws start.db out.1.db (codes "Bob") (codes "b@b.c") (pos 1700000001)
      × Coherent outside json_laws redis_laws mysql_laws out.1 (ann ∷ []))
    ⊎ ((id : ℕ) × All (λ a. a.id < id) (ann ∷ [])
        × (out.0 ≡ returned (some (new_user id (codes "Bob") (codes "b@b.c") (pos 1700000001))))
        × Coherent outside json_laws redis_laws mysql_laws out.1 (
            (ann ∷ [])
            ++ record {
              id = id;
              name = codes "Bob";
              email = codes "b@b.c";
              created_at = pos 1700000001;
            }
              ∷ []))
create_user_example =
    create_user-Coherent outside json_laws redis_laws mysql_laws start (ann ∷ []) (pos 1700000001)
      (codes "Bob") (codes "b@b.c") start-Coherent (omega arith) (omega arith)
      (json_laws.ascii-IsText (codes "Bob") (omega arith))
      (json_laws.ascii-IsText (codes "b@b.c") (omega arith)) (omega arith) (omega arith)

create_user-read_back_example :
    let out = create_user outside (pos 1700000001) (codes "Bob") (codes "b@b.c") start in
    (out.0 ≡ returned none)
    ⊎ ((u : User) × (out.0 ≡ returned (some u))
        × ((get_user outside u.id out.1).0 ≡ returned (some u))
        × ((list_users outside (pos 1) (pos 1) out.1).0 ≡ returned (some (u ∷ [], pos 2)))
        × ((requests : ℤ) × ((get_stats outside out.1).0 ≡ returned (some (pos 2, requests)))))
create_user-read_back_example =
    create_user-read_back outside json_laws redis_laws mysql_laws start (ann ∷ []) (pos 1700000001)
      (codes "Bob") (codes "b@b.c") start-Coherent
      (
        omega arith,
        omega arith,
        json_laws.ascii-IsText (codes "Bob") (omega arith),
        json_laws.ascii-IsText (codes "b@b.c") (omega arith),
        omega arith,
      )
      (omega arith)

-- A page is cached, its key expires, and a user is made.
abbrev page_key : Bytes
page_key = codes "users:list:10:0"

abbrev cached : World outside
cached = after outside (Operation.page 10 0) start

abbrev expired : World outside
expired = with_server cached (update cached.cache.server page_key none)

abbrev made : World outside
made = after outside (Operation.create (pos 1700000001) (codes "Bob") (codes "b@b.c")) expired

past : Past outside json_laws redis_laws mysql_laws start made 2
past =
    calls (Operation.create (pos 1700000001) (codes "Bob") (codes "b@b.c"))
      (expires page_key (update cached.cache.server page_key none)
        (calls (Operation.page 10 0) now (omega arith, omega arith)) refl
        (redis_laws-view (update cached.cache.server page_key none)
          ∙ ap (λ v. update v page_key none) (sym (redis_laws-view cached.cache.server))))
      (
        omega arith,
        omega arith,
        json_laws.ascii-IsText (codes "Bob") (omega arith),
        json_laws.ascii-IsText (codes "b@b.c") (omega arith),
        omega arith,
      )

Past-Coherent_example :
    (more : Table) × Coherent outside json_laws redis_laws mysql_laws made ((ann ∷ []) ++ more)
    × (length more ≤ 2)
Past-Coherent_example =
    Past-Coherent outside json_laws redis_laws mysql_laws (ann ∷ []) start-Coherent (omega arith)
      past

calls_return_connections_example :
    (((create_user outside (pos 0) (codes "A") (codes "B") start).1.pool.idle ≡ 0 ∷ [])
      × ((create_user outside (pos 0) (codes "A") (codes "B") start).0 ≢ blocked))
    × (((get_user outside (codes "1") start).1.pool.idle ≡ 0 ∷ [])
        × ((get_user outside (codes "1") start).0 ≢ blocked))
    × (((list_users outside (pos 10) (pos 0) start).1.pool.idle ≡ 0 ∷ [])
        × ((list_users outside (pos 10) (pos 0) start).0 ≢ blocked))
    × (((get_stats outside start).1.pool.idle ≡ 0 ∷ []) × ((get_stats outside start).0 ≢ blocked))
calls_return_connections_example =
    calls_return_connections outside start (pos 0) (pos 10) (pos 0) (codes "A") (codes "B")
      (codes "1") start-Coherent.some_idle
