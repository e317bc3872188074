-- ===== src/Example/Outage.antt =====
-- Runs of the repository of src/store/user_repository.cpp on a Redis server that has gone away.
use httpserver_demo.Prelude.{
  false, [], ◌∷◌, ◌++◌, Option, none, some, arith, List, String, codes, pos, All, ◌<◌, ◌≡◌, refl,
  ◌⊎◌, inl,
}
use httpserver_demo.Effects.{returned}
use httpserver_demo.Redis.{Arg, RedisApi}
use httpserver_demo.Redis.Failures.{NoAnswer}
use httpserver_demo.Redis.Outage.{StaysDown}
use httpserver_demo.Redis.Server.{text, View, update}
use httpserver_demo.Decimal.{strtoll}
use httpserver_demo.Mysql.{MysqlApi, default_config}
use httpserver_demo.Mysql.Server.{RowRefused}
use httpserver_demo.World.{Outside, World}
use httpserver_demo.Repository.{
  create_user, get_user, list_users, get_stats, new_user, list_cache_key, total_users_key,
}
use httpserver_demo.Repository.Fits.{page_of}
use httpserver_demo.Repository.Reads.Path.{user_at}
use httpserver_demo.Repository.Refusal.{calls_of_refusal}
use httpserver_demo.Repository.Outage.{Degraded}
use httpserver_demo.Repository.Outage.Answers.{reads-Degraded}
use httpserver_demo.Repository.Outage.Creation.{create_user-Degraded}
use httpserver_demo.Example.Json.{json}
use httpserver_demo.Example.Json.Laws.{json_laws}
use httpserver_demo.Example.Redis.{redis, redis_laws, redis_laws-view}
use httpserver_demo.Example.Mysql.{mysql}
use httpserver_demo.Example.Mysql.Laws.{mysql_laws, mysql_laws-view, used}
use httpserver_demo.Example.Store.{ann, start}

-- A server that answers until it is `none`.
abbrev fragile : RedisApi
fragile = record {
  Server = Option View;
  Context = Unit;
  connect = λ host port seconds sv. (some tt, sv);
  context_error = λ x sv. none;
  free_context = λ x sv. sv;
  command = λ x fmt args sv. elim sv [
    | none ↦ (none, none)
    | some v ↦ let (r, v') = redis.command x fmt args v in (r, some v')
  ];
  free_reply = λ r sv. sv;
}

abbrev IsNone : Option View → Type 0
IsNone none = Unit
IsNone (some v) = ⊥

silent :
    (x : Option (Unit {0})) (fmt : String) (args : List Arg) (sv : Option View)
    → IsNone sv
    → NoAnswer (fragile.command x fmt args sv).0
silent x fmt args none h = inl refl
silent x fmt args (some v) h = elim h [ ]

stays :
    (x : Option (Unit {0})) (fmt : String) (args : List Arg) (sv : Option View)
    → IsNone sv
    → IsNone (fragile.command x fmt args sv).1
stays x fmt args none h = tt
stays x fmt args (some v) h = elim h [ ]

gone : StaysDown fragile IsNone
gone = record { silent = silent; stays = stays; stays_freed = λ r sv h. h }

abbrev cut_off : Outside
cut_off = record { json = json; mysql = mysql; redis = fragile }

-- The table has one row, and Redis is gone.
abbrev stranded : World cut_off
stranded = record {
  pool = start.pool;
  db = start.db;
  cache = record { ctx = some tt; err = []; server = none };
}

stranded-Degraded : Degraded cut_off json_laws mysql_laws gone stranded (ann ∷ [])
stranded-Degraded = record {
  count = 1;
  state = record {
    shows = tt;
    table = mysql_laws-view start.db refl;
    connected = ((tt, refl, used tt start.db), tt);
    size = refl;
  };
  plain = (
    record {
      name = omega arith;
      email = omega arith;
      name_text = json_laws.ascii-IsText (codes "Ann") (omega arith);
      email_text = json_laws.ascii-IsText (codes "a@b.c") (omega arith);
      created_at = omega arith;
    },
    tt,
  );
  small = omega arith;
  idle = (omega arith, tt);
  some_idle = λ e. cc;
}

reads-Degraded_example :
    (((get_user cut_off (codes "1") stranded).0
        ≡ returned (user_at mysql_laws (ann ∷ []) (codes "1")))
      × Degraded cut_off json_laws mysql_laws gone
          (get_user cut_off (codes "1") stranded).1
          (ann ∷ []))
    × (((list_users cut_off (pos 10) (pos 0) stranded).0
          ≡ returned (some (page_of (ann ∷ []) 10 0)))
        × Degraded cut_off json_laws mysql_laws gone
            (list_users cut_off (pos 10) (pos 0) stranded).1
            (ann ∷ []))
    × (((get_stats cut_off stranded).0 ≡ returned (some (pos 1, pos 0)))
        × Degraded cut_off json_laws mysql_laws gone (get_stats cut_off stranded).1 (ann ∷ []))
reads-Degraded_example =
    reads-Degraded cut_off json_laws mysql_laws gone stranded (ann ∷ []) stranded-Degraded
      (codes "1") 10 0 (omega arith) (omega arith) (omega arith)

create_user-Degraded_example :
    let out = create_user cut_off (pos 1700000001) (codes "Bob") (codes "b@b.c") stranded in
    ((out.0 ≡ returned none)
      × RowRefused mysql_laws stranded.db out.1.db (codes "Bob") (codes "b@b.c") (pos 1700000001)
      × Degraded cut_off json_laws mysql_laws gone out.1 (ann ∷ []))
    ⊎ ((id : _) × All (λ a. a.id < id) (ann ∷ [])
        × (out.0 ≡ returned (some (new_user id (codes "Bob") (codes "b@b.c") (pos 1700000001))))
        × Degraded cut_off json_laws mysql_laws gone out.1 (
            (ann ∷ [])
            ++ record {
              id = id;
              name = codes "Bob";
              email = codes "b@b.c";
              created_at = pos 1700000001;
            }
              ∷ []))
create_user-Degraded_example =
    create_user-Degraded cut_off json_laws mysql_laws gone stranded (ann ∷ []) (pos 1700000001)
      (codes "Bob") (codes "b@b.c") stranded-Degraded (omega arith) (omega arith)
      (json_laws.ascii-IsText (codes "Bob") (omega arith))
      (json_laws.ascii-IsText (codes "b@b.c") (omega arith)) (omega arith) (omega arith)

-- A MySQL that executes no statement, behind a Redis that has one user cached.
abbrev mute : MysqlApi
mute = record mysql { query = λ h sql db. (false, db) }

abbrev half : Outside
half = record { json = json; mysql = mute; redis = redis }

abbrev cached_total : View
cached_total = update (λ k. none) total_users_key (some (text (codes "1")))

abbrev silenced : World half
silenced = record {
  pool = record {
    cfg = default_config;
    conns = record { mysql = some tt; err = [] } ∷ [];
    idle = 0 ∷ [];
    err = [];
  };
  db = start.db;
  cache = record { ctx = some tt; err = []; server = cached_total };
}

calls_of_refusal_example :
    ((get_user half (codes "1") silenced).0 ≡ returned none)
    × ((list_users half (pos 10) (pos 0) silenced).0 ≡ returned none)
    × ((get_stats half silenced).0 ≡ returned (some (pos 1, pos 0)))
    × ((create_user half (pos 1700000001) (codes "Bob") (codes "b@b.c") silenced).0 ≡ returned none)
unfolding list_cache_key strtoll
calls_of_refusal_example =
    calls_of_refusal half (λ h sql db. refl) redis_laws cached_total silenced 0 [] (codes "1")
      (codes "Bob") (codes "b@b.c") (pos 10) (pos 0) (pos 1700000001)
      (record { context = tt; connected = refl; shown = redis_laws-view cached_total }) refl
      (omega arith)
