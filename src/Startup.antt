-- ===== src/Startup.antt =====
-- src/grpc_server/main.cpp and src/gateway/main.cpp: the settings of the two programs, and their runs
-- up to the point where they wait for requests. `std::getenv` is an argument, and so is whether gRPC
-- can listen on an address. The log is left out, and an exception that nothing catches ends the
-- program.
pub mod Serving
pub mod Bounds
pub mod Coherence
use httpserver_demo.Prelude.{
  ℕ, ◌++◌, Bool, true, false, List, Option, none, some, if◌then◌else◌, Bytes, codes, ℤ, pos,
  bind_option,
}
use httpserver_demo.Decimal.{to_string, Stoi, parsed, invalid_argument, out_of_range, stoi}
use httpserver_demo.Config.{Args, parse_args, get_arg}
use httpserver_demo.Redis
use httpserver_demo.Redis.{RedisApi, RedisClient}
use httpserver_demo.Mysql.{MysqlConfig, MysqlApi}
use httpserver_demo.Mysql.Pool.{MysqlPool, fresh_pool, init}
use httpserver_demo.World.{Outside, World}
use httpserver_demo.Gateway
use httpserver_demo.Gateway.{GatewayConfig, Rpc, GatewayContext, default_gateway}

pub record Settings : Type 0 where
  pub port : ℤ
  pub mysql : MysqlConfig
  pub redis_host : Bytes
  pub redis_port : ℤ

-- `std::stoi`, none where it throws
abbrev number : Stoi → Option ℤ
number (parsed n) = some n
number invalid_argument = none
number out_of_range = none

module _ (getenv : Bytes → Option Bytes) (args : Args) where
  abbrev text_of : Bytes → Bytes → Bytes
  text_of key def = get_arg getenv args key def

  abbrev number_of : Bytes → Bytes → Option ℤ
  number_of key def = number (stoi (text_of key def))

  -- The settings of the service.
  unfoldable pub server_settings : Option Settings
  server_settings = bind_option (number_of (codes "port") (codes "9090")) λ port.
      bind_option (number_of (codes "mysql-port") (codes "3306")) λ mysql_port.
        bind_option (number_of (codes "mysql-pool-size") (codes "8")) λ pool_size.
          bind_option (number_of (codes "redis-port") (codes "6379")) λ redis_port. some (record {
            port = port;
            mysql = record {
              host = text_of (codes "mysql-host") (codes "127.0.0.1");
              port = mysql_port;
              user = text_of (codes "mysql-user") (codes "root");
              password = text_of (codes "mysql-password") (codes "");
              database = text_of (codes "mysql-database") (codes "http_server_demo");
              pool_size = pool_size;
            };
            redis_host = text_of (codes "redis-host") (codes "127.0.0.1");
            redis_port = redis_port;
          })

  -- The settings of a gateway.
  unfoldable pub gateway_settings : Option GatewayConfig
  gateway_settings = bind_option (number_of (codes "port") (codes "8080")) λ port. some (record {
    port = port;
    grpc_addr = text_of (codes "grpc-addr") (codes "127.0.0.1:9090");
    instance_id = text_of (codes "id") (codes "gateway-unknown");
  })

-- How far the start of the service comes.
pub data Start (M : MysqlApi) (R : RedisApi) : Type 0 where
  -- an exception that nothing catches
  aborted : Start M R
  -- `return 1`, with the pool's or the client's last error
  failed : Bytes → Start M R
  -- the pool and the client that the repository is made of
  ready : Settings → MysqlPool M → M.Db → RedisClient R → Start M R

module _ (M : MysqlApi) (R : RedisApi) where
  -- A client that is constructed, on a Redis server.
  abbrev pub fresh_client : R.Server → RedisClient R
  fresh_client server = record { ctx = none; err = codes ""; server = server }

  -- The second step, with the pool that the first has left.
  unfoldable pub with_pool : Settings → Bool × MysqlPool M × M.Db → R.Server → Start M R
  with_pool settings (false, pool, db) server = failed pool.err
  with_pool settings (true, pool, db) server =
      let (up, client) =
        Redis.connect R settings.redis_host settings.redis_port (pos 2) (fresh_client server) in
      if up then ready settings pool db client else failed client.err

  unfoldable pub start_with : Option Settings → M.Db → R.Server → Start M R
  start_with none db server = aborted
  start_with (some settings) db server =
      with_pool settings (init M settings.mysql (fresh_pool M settings.mysql) db) server

  unfoldable pub main : (Bytes → Option Bytes) → List Bytes → M.Db → R.Server → Start M R
  main getenv argv db server = start_with (server_settings getenv (parse_args argv)) db server

-- How a run of the service goes on behind its start.
pub data Exit (E : Outside) : Type 0 where
  -- an exception that nothing catches
  terminated : Exit E
  exited : ℕ → Exit E
  -- `server->Wait()`: the address, and the objects that the service works on
  serving : Bytes → World E → Exit E

-- The address that the service listens on.
abbrev pub listening_address : ℤ → Bytes
listening_address port = codes "0.0.0.0:" ++ to_string port

module _ (E : Outside) (build_and_start : Bytes → Bool) where
  unfoldable pub serve : Start E.mysql E.redis → Exit E
  serve aborted = terminated
  serve (failed err) = exited 1
  serve (ready settings pool db client) =
      if build_and_start (listening_address settings.port)
      then serving (listening_address settings.port)
          (record { pool = pool; db = db; cache = client })
      else exited 1

  -- `main` of the service
  unfoldable pub run_server :
      (Bytes → Option Bytes) → List Bytes → E.mysql.Db → E.redis.Server → Exit E
  run_server getenv argv db server = serve (main E.mysql E.redis getenv argv db server)

module _ (R : Rpc) where
  -- The context of `GatewayContext::instance()` before `init`.
  abbrev pub fresh_context : R.Net → GatewayContext R
  fresh_context net = record {
    cfg = default_gateway;
    grpc = record { stub = none; err = codes ""; net = net };
  }

  -- `main` of a gateway, none where it ends by an exception: the address and the port that it
  -- listens on, and the context of its handlers.
  unfoldable pub run_gateway :
      (Bytes → Option Bytes) → List Bytes → R.Net → Option (Bytes × ℤ × GatewayContext R)
  run_gateway getenv argv net =
      bind_option (gateway_settings getenv (parse_args argv))
        λ cfg. some (codes "0.0.0.0", cfg.port, Gateway.init R cfg (fresh_context net))
