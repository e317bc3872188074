-- ===== src/Example/Parts.antt =====
-- Runs of the command line, the JSON of a user, the Redis client and the connection pool.
use mathlib.Core.List.{Nodup, Nodup-cons, Nodup-nil, not-mem-nil}
use httpserver_demo.Prelude.{
  ℕ, [], ◌∷◌, none, some, arith, Bytes, codes, pos, length, ◌≡◌, ◌≤◌, refl, ◌⊎◌, true, false, List,
  inl, is_empty, ◌++◌,
}
use httpserver_demo.Config.{parse_args, get_arg}
use httpserver_demo.Config.Laws.{assignments, get_arg-parse_args}
use httpserver_demo.Json.{User, ◌>>=◌, user_to_json_string, json_to_user}
use httpserver_demo.Json.Laws.{user_round_trip, user_to_json_string_total}
use httpserver_demo.Redis
use httpserver_demo.Redis.{RedisClient}
use httpserver_demo.Redis.Failures.{down_reports}
use httpserver_demo.Mysql.{MysqlConfig, default_config, fresh_conn, connect, execute}
use httpserver_demo.Mysql.Pool.{
  MysqlPool, fresh_pool, create_database, fill, make_table, init, acquire, drop_guard, move,
}
use httpserver_demo.Mysql.Pool.Init.{IsReady, init-IsReady}
use httpserver_demo.Mysql.Pool.Empty.{init_empty_blocks}
use httpserver_demo.Mysql.Pool.Guards.{moves, drop_all, drop_all-moves}
use httpserver_demo.Mysql.Pool.Threads.{Room, look, acquires, releases_to, Reach, here, next, start}
use httpserver_demo.Mysql.Pool.Threads.Ownership.{owned, Reach-Nodup}
use httpserver_demo.Mysql.Pool.Threads.Wakeups.{Reach-start-NoLostWakeup}
use httpserver_demo.Mysql.Pool.Threads.Service.{CanServe, Reach-CanServe}
use httpserver_demo.Startup.{main, server_settings}
use httpserver_demo.Startup.Serving.{Served, main-Served}
use httpserver_demo.Example.Json.{json}
use httpserver_demo.Example.Json.Laws.{json_laws}
use httpserver_demo.Example.Redis.{redis}
use httpserver_demo.Example.Mysql.{mysql, Db}

abbrev settings : List (Bytes × Bytes)
settings = (codes "port", codes "1") ∷ (codes "id", codes "a=b") ∷ (codes "port", codes "2") ∷ []

get_arg-parse_args_example :
    get_arg
      (λ k. some (codes "env"))
      (parse_args (codes "gateway" ∷ assignments settings))
      (codes "host")
      []
    ≡ codes "env"
get_arg-parse_args_example =
    get_arg-parse_args (λ k. some (codes "env")) (codes "gateway") settings (codes "host") []
      (omega arith, (omega arith, (omega arith, tt)))

abbrev ann : User
ann = record { id = codes "1"; name = codes "Ann"; email = []; created_at = pos 17 }

dumped_ann : (s : Bytes) × (user_to_json_string json ann ≡ some s)
dumped_ann =
    user_to_json_string_total json json_laws ann (json_laws.ascii-IsText (codes "1") (omega arith))
      (json_laws.ascii-IsText (codes "Ann") (omega arith)) (json_laws.ascii-IsText [] (omega arith))

user_round_trip_example : (json.parse dumped_ann.0 >>= json_to_user json) ≡ some ann
user_round_trip_example = user_round_trip json json_laws ann dumped_ann.0 dumped_ann.1

-- A client that is not connected.
abbrev cut_off : RedisClient redis
cut_off = record { ctx = none; err = []; server = λ k. none }

down_reports_example :
    ((Redis.set redis (codes "k") (codes "v") (pos 1) cut_off).0 ≡ false)
    × ((Redis.get redis (codes "k") cut_off).0 ≡ none)
    × ((Redis.del redis (codes "k") cut_off).0 ≡ false)
    × ((Redis.exists redis (codes "k") cut_off).0 ≡ false)
    × ((Redis.incr redis (codes "k") cut_off).0 ≡ none)
    × ((Redis.sadd redis (codes "k") (codes "v") cut_off).0 ≡ false)
    × ((Redis.srem redis (codes "k") (codes "v") cut_off).0 ≡ false)
    × ((Redis.smembers redis (codes "k") cut_off).0 ≡ none)
    × ((Redis.scard redis (codes "k") cut_off).0 ≡ none)
    × (is_empty (Redis.set redis (codes "k") (codes "v") (pos 1) cut_off).1.err ≡ false)
    × (is_empty (Redis.get redis (codes "k") cut_off).1.err ≡ false)
    × (is_empty (Redis.incr redis (codes "k") cut_off).1.err ≡ false)
down_reports_example =
    down_reports redis cut_off (λ fmt args. inl refl) (codes "k") (codes "v") (pos 1)

abbrev empty_db : Db
empty_db = record { made = false; rows = []; last = 0; answer = none }

init_done : (init mysql default_config (fresh_pool mysql default_config) empty_db).0 ≡ true
unfolding init create_database connect execute fill make_table
init_done = refl

init-IsReady_example :
    IsReady mysql 8 (init mysql default_config (fresh_pool mysql default_config) empty_db).1
init-IsReady_example = init-IsReady mysql default_config empty_db init_done

abbrev no_conns : MysqlConfig
no_conns = record default_config { pool_size = pos 0 }

-- A thread sleeps in the pool without connections.
abbrev lonely : Room
lonely = record { idle = []; lent = []; asleep = 7 ∷ []; woken = [] }

to_lonely : Reach (start (init mysql no_conns (fresh_pool mysql no_conns) empty_db).1.idle) lonely
unfolding init create_database connect execute fill
to_lonely = next here (acquires 7 refl)

init_empty_blocks_example :
    (init mysql no_conns (fresh_pool mysql no_conns) empty_db
      ≡ create_database mysql (fresh_pool mysql no_conns) empty_db)
    × (acquire mysql (init mysql no_conns (fresh_pool mysql no_conns) empty_db).1 ≡ none)
    × (lonely.lent ≡ [])
    × (look 8 lonely ≡ record lonely { asleep = 8 ∷ 7 ∷ [] })
init_empty_blocks_example = init_empty_blocks mysql no_conns empty_db 8 lonely refl to_lonely

abbrev pool : List ℕ → MysqlPool mysql
pool idle = record {
  cfg = default_config;
  conns = fresh_conn mysql ∷ fresh_conn mysql ∷ [];
  idle = idle;
  err = [];
}

-- Moved twice; the last guard ends between the two others.
drop_all-moves_example :
    let (last, olds) = moves mysql 2 (record { conn = some 1 }) in
    drop_all mysql ((record { conn = none } ∷ []) ++ last ∷ record { conn = none } ∷ []) (pool [])
    ≡ drop_guard mysql (record { conn = some 1 }) (pool [])
unfolding move
drop_all-moves_example =
    drop_all-moves mysql 2 (record { conn = some 1 }) (pool []) (record { conn = none } ∷ [])
      (record { conn = none } ∷ []) refl

-- Thread 7 takes the only connection, thread 8 sleeps, and 7 gives the connection back.
abbrev crowded : Room
crowded = record { idle = []; lent = (7, 0) ∷ []; asleep = 8 ∷ []; woken = [] }

abbrev woken : Room
woken = record { idle = 0 ∷ []; lent = []; asleep = []; woken = 8 ∷ [] }

to_crowded : Reach (start (0 ∷ [])) crowded
to_crowded = next (next here (acquires 7 refl)) (acquires 8 refl)

to_woken : Reach (start (0 ∷ [])) woken
to_woken = next to_crowded (releases_to 7 0 8 [] [] [] [] refl refl refl)

one_Nodup : Nodup {A = ℕ} (0 ∷ [])
one_Nodup = Nodup-cons.1 (not-mem-nil, Nodup-nil)

Reach-Nodup_example : Nodup (owned woken)
Reach-Nodup_example = Reach-Nodup (0 ∷ []) one_Nodup to_woken

Reach-start-NoLostWakeup_example :
    (crowded.asleep ≡ []) ⊎ (length crowded.idle ≤ length crowded.woken)
Reach-start-NoLostWakeup_example = Reach-start-NoLostWakeup (0 ∷ []) to_crowded

Reach-CanServe_example : CanServe crowded 8
Reach-CanServe_example = Reach-CanServe (0 ∷ []) 8 [] [] (omega arith) refl to_crowded

main-Served_example :
    Served mysql redis
      (main mysql redis
        (λ k. none)
        (codes "grpc_server" ∷ codes "--port=90" ∷ [])
        empty_db
        (λ k. none))
      (server_settings (λ k. none) (parse_args (codes "grpc_server" ∷ codes "--port=90" ∷ [])))
main-Served_example =
    main-Served mysql redis (λ k. none) (codes "grpc_server" ∷ codes "--port=90" ∷ []) empty_db
      (λ k. none)
