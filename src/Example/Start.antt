-- ===== src/Example/Start.antt =====
-- The start of the service of src/grpc_server/main.cpp on the small servers.
use httpserver_demo.Prelude.{
  Bool, true, List, [], ◌∷◌, Option, none, some, Bytes, codes, pos, ◌≡◌, refl, false,
}
use httpserver_demo.Decimal.{stoi}
use httpserver_demo.Config.{get_arg, parse_args}
use httpserver_demo.Mysql.{MysqlConn, connect}
use httpserver_demo.Mysql.Pool.{init}
use httpserver_demo.Redis
use httpserver_demo.World.{World}
use httpserver_demo.Repository.Fits.{Fits}
use httpserver_demo.Service.{Status, failure, internal}
use httpserver_demo.Gateway
use httpserver_demo.Gateway.{default_gateway}
use httpserver_demo.Gateway.EndToEnd.{direct}
use httpserver_demo.Startup.{Settings, server_settings, run_gateway, gateway_settings}
use httpserver_demo.Startup.Bounds.{IsNumberOf, server_settings_bounds}
use httpserver_demo.Example.Mysql.{mysql, Db}
use httpserver_demo.Example.Store.{outside}

abbrev nothing_set : Bytes → Option Bytes
nothing_set key = none

abbrev lost : Status
lost = failure internal (codes "lost")

abbrev argv : List Bytes
argv = codes "grpc-server" ∷ codes "--mysql-pool-size=2" ∷ []

-- A server without the table, and after the start.
abbrev before : Db
before = record { made = false; rows = []; last = 0; answer = none }

abbrev made : Db
made = record { made = true; rows = []; last = 0; answer = none }

abbrev settings : Settings
settings = record {
  port = pos 9090;
  mysql = record {
    host = codes "127.0.0.1";
    port = pos 3306;
    user = codes "root";
    password = [];
    database = codes "http_server_demo";
    pool_size = pos 2;
  };
  redis_host = codes "127.0.0.1";
  redis_port = pos 6379;
}

abbrev conn : MysqlConn mysql
conn = record { mysql = some tt; err = [] }

abbrev begun : World outside
begun = record {
  pool = record { cfg = settings.mysql; conns = conn ∷ conn ∷ []; idle = 1 ∷ 0 ∷ []; err = [] };
  db = made;
  cache = record { ctx = some tt; err = []; server = λ k. none };
}

can_listen : Bytes → Bool
can_listen address = true

read : server_settings nothing_set (parse_args argv) ≡ some settings
unfolding server_settings stoi get_arg parse_args
read = refl

server_settings_bounds_example :
    IsNumberOf nothing_set (parse_args argv) (codes "port") (codes "9090") (pos 9090)
    × IsNumberOf nothing_set (parse_args argv) (codes "mysql-port") (codes "3306") (pos 3306)
    × IsNumberOf nothing_set (parse_args argv) (codes "mysql-pool-size") (codes "8") (pos 2)
    × IsNumberOf nothing_set (parse_args argv) (codes "redis-port") (codes "6379") (pos 6379)
server_settings_bounds_example = server_settings_bounds nothing_set (parse_args argv) settings read

-- A gateway with nothing set, and one whose port is no number.
started :
    run_gateway (direct outside lost (pos 0)) nothing_set (codes "gateway" ∷ []) begun
    ≡ some (
      codes "0.0.0.0",
      pos 8080,
      record { cfg = default_gateway; grpc = record { stub = some tt; err = []; net = begun } },
    )
unfolding run_gateway gateway_settings stoi get_arg parse_args Gateway.init Gateway.connect
started = refl

no_number :
    run_gateway
      (direct outside lost (pos 0))
      nothing_set
      (codes "gateway" ∷ codes "--port=x" ∷ [])
      begun
    ≡ none
unfolding run_gateway gateway_settings stoi get_arg parse_args
no_number = refl
