-- ===== src/World.antt =====
-- The objects that a `UserRepository` of src/store/user_repository.cpp holds, the guards and results
-- of its functions' scopes, and the calls that it makes of the two clients.
pub mod Steady
use httpserver_demo.Prelude.{ℕ, List, Option, none, some, get_or, set}
use httpserver_demo.Effects.{Outcome, returned, threw, blocked, Run, ret}
use httpserver_demo.Json.{JsonLib}
use httpserver_demo.Redis.{RedisApi, RedisClient}
use httpserver_demo.Mysql.{MysqlApi, MysqlConn, Row, fresh_conn, free_opt}
use httpserver_demo.Mysql.Pool.{MysqlPool, acquire, release}

-- Everything outside the program.
pub record Outside : Type 1 where
  pub json : JsonLib
  pub mysql : MysqlApi
  pub redis : RedisApi

-- The objects of a repository, and the MySQL server.
pub record World (E : Outside) : Type 0 where
  pub pool : MysqlPool E.mysql
  pub db : E.mysql.Db
  pub cache : RedisClient E.redis

module _ (E : Outside) where
  abbrev pub Call : Type 0 → Type 0
  Call A = Run (World E) A

  -- A call of the Redis client.
  abbrev pub on_cache : {A : Type 0} → (RedisClient E.redis → A × RedisClient E.redis) → Call A
  on_cache f w = let (a, c) = f w.cache in (returned a, record w { cache = c })

  -- A call of a connection of the pool.
  abbrev pub on_conn :
      {A : Type 0}
      → ℕ
      → (MysqlConn E.mysql → E.mysql.Db → A × MysqlConn E.mysql × E.mysql.Db)
      → Call A
  on_conn i f w =
      let (a, c, db) = f (get_or w.pool.conns i (fresh_conn E.mysql)) w.db in
      (returned a, record w { pool = record w.pool { conns = set w.pool.conns i c }; db = db })

  abbrev pub read_conn : {A : Type 0} → ℕ → (MysqlConn E.mysql → E.mysql.Db → A) → Call A
  read_conn i f w = (returned (f (get_or w.pool.conns i (fresh_conn E.mysql)) w.db), w)

  -- The end of a guard's scope, however it is left; a call that waits for ever does not leave it.
  abbrev pub end_guard : {A : Type 0} → ℕ → Outcome A × World E → Outcome A × World E
  end_guard i (blocked, w) = (blocked, w)
  end_guard i (threw, w) = (threw, record w { pool = release E.mysql i w.pool })
  end_guard i (returned a, w) = (returned a, record w { pool = release E.mysql i w.pool })

  abbrev pub start_guard : {A : Type 0} → Option (ℕ × MysqlPool E.mysql) → (ℕ → Call A) → Call A
  start_guard none body w = (blocked, w)
  start_guard (some (i, p)) body w = end_guard i (body i (record w { pool = p }))

  -- `auto guard = pool_->acquire();` and the rest of the scope.
  unfoldable pub with_guard : {A : Type 0} → (ℕ → Call A) → Call A
  with_guard body w = start_guard (acquire E.mysql w.pool) body w

  -- The rest of the scope of a `MysqlResult`, which is freed at its end.
  unfoldable pub with_result : {A : Type 0} → Option E.mysql.Result → Call A → Call A
  with_result r body w = let (o, w') = body w in (o, record w' { db = free_opt E.mysql r w'.db })

  abbrev pub on_rows :
      {A : Type 0} → Option E.mysql.Result → (List Row → Call (Option A)) → Call (Option A)
  on_rows none f = ret none
  on_rows (some r) f = f (E.mysql.rows r)

  abbrev pub first_some : {A : Type 0} → Option A → Call (Option A) → Call (Option A)
  first_some none other = other
  first_some (some a) other = ret (some a)
