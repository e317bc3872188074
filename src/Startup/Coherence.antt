-- ===== src/Startup/Coherence.antt =====
-- The state in which the service of src/grpc_server/main.cpp starts to serve.
use httpserver_demo.Prelude.{some, All, ◌≡◌}
use httpserver_demo.Json.{IsJson}
use httpserver_demo.Redis
use httpserver_demo.Redis.{RedisApi}
use httpserver_demo.Redis.Server.{View, IsRedis, Shows}
use httpserver_demo.Mysql.{MysqlApi}
use httpserver_demo.Mysql.Server.{Table, IsMysql, Live}
use httpserver_demo.World.{Outside, World}
use httpserver_demo.Repository.Fits.{Fits}
use httpserver_demo.Startup.{
  Settings, Start, aborted, failed, ready, Exit, terminated, exited, serving,
}

module _ {M : MysqlApi} {A : RedisApi} (R : IsRedis A) (S : IsMysql M) where
  -- What the servers of a start that came through show.
  abbrev Kept : Start M A → View → Table → Type 0
  Kept aborted v t = Unit
  Kept (failed e) v t = Unit
  Kept (ready settings pool db client) v t =
      (S.view db ≡ some t) × Shows R client v × All (Live S db) pool.conns

module _ (E : Outside) (J : IsJson E.json) (R : IsRedis E.redis) (S : IsMysql E.mysql) where
  -- A run that waits for requests has the objects of its start.
  abbrev Begun : Exit E → Start E.mysql E.redis → Type 0
  Begun terminated start = Unit
  Begun (exited code) start = Unit
  Begun (serving address w) start =
      (settings : Settings) × (start ≡ ready settings w.pool w.db w.cache)
