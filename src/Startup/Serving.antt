-- ===== src/Startup/Serving.antt =====
-- What the service has when it starts to serve.
use httpserver_demo.Prelude.{
  Bool, true, false, List, Option, none, some, Bytes, pos, ◌≡◌, ◌∙◌, refl, sym, Bool-cases, inl,
  inr,
}
use httpserver_demo.Config.{parse_args}
use httpserver_demo.Redis
use httpserver_demo.Redis.{RedisApi, RedisClient}
use httpserver_demo.Redis.Failures
use httpserver_demo.Mysql.{MysqlApi}
use httpserver_demo.Mysql.Pool.{MysqlPool, fresh_pool, init, rounds}
use httpserver_demo.Mysql.Pool.Init.{IsReady, init-IsReady}
use httpserver_demo.Startup.{
  Settings, Start, aborted, failed, ready, server_settings, fresh_client, with_pool, start_with,
  main,
}

module _ (M : MysqlApi) (R : RedisApi) where
  -- What a start that came through has.
  abbrev pub Served : Start M R → Option Settings → Type 0
  Served aborted read = Unit
  Served (failed e) read = Unit
  Served (ready settings pool db client) read =
      (read ≡ some settings)
      × IsReady M (rounds settings.mysql.pool_size) pool
      × (Redis.is_connected R client ≡ true)

  with_pool-Served :
      (settings : Settings) (done : Bool) (pool : MysqlPool M) (db : M.Db) (server : R.Server)
      → (done ≡ true → IsReady M (rounds settings.mysql.pool_size) pool)
      → Served (with_pool M R settings (done, pool, db) server) (some settings)
  unfolding with_pool
  with_pool-Served settings false pool db server h = tt
  with_pool-Served settings true pool db server h =
      let out =
        Redis.connect R settings.redis_host settings.redis_port (pos 2) (fresh_client M R server) in
      elim (Bool-cases out.0) [
        | inr e ↦ rw e tt
        | inl e ↦ rw e (
          refl,
          h refl,
          sym (
                Failures.connect-is_connected R settings.redis_host settings.redis_port (pos 2)
                  (fresh_client M R server))
              ∙ e,
        )
      ]

  start_with-Served :
      (read : Option Settings) (db : M.Db) (server : R.Server)
      → Served (start_with M R read db server) read
  unfolding start_with
  start_with-Served none db server = tt
  start_with-Served (some settings) db server =
      let out = init M settings.mysql (fresh_pool M settings.mysql) db in
      with_pool-Served settings out.0 out.1 out.2 server (λ e. init-IsReady M settings.mysql db e)

  -- Whatever MySQL and Redis answer: a service that comes to serve does so with the settings of its
  -- command line and environment, with as many MySQL connections as the pool size says, all of
  -- them connected and idle, and with a Redis client that is connected.
  pub main-Served :
      (getenv : Bytes → Option Bytes) (argv : List Bytes) (db : M.Db) (server : R.Server)
      → Served (main M R getenv argv db server) (server_settings getenv (parse_args argv))
  unfolding main
  main-Served getenv argv db server =
      start_with-Served (server_settings getenv (parse_args argv)) db server
