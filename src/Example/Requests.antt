-- ===== src/Example/Requests.antt =====
-- Requests to the handlers of src/grpc_server/user_service.cpp on the small servers.
use httpserver_demo.Prelude.{List, [], ◌∷◌, ◌++◌, arith, codes, pos, length, ◌≤◌, ◌≡◌}
use httpserver_demo.Effects.{returned}
use httpserver_demo.Mysql.Server.{Table}
use httpserver_demo.Service.{get_stats}
use httpserver_demo.Service.Counts.{Rpc, create, get, stats, handle_all, Counted}
use httpserver_demo.Service.Stats.{stats_answer, get_stats_after}
use httpserver_demo.Example.Json.Laws.{json_laws}
use httpserver_demo.Example.Redis.{redis_laws}
use httpserver_demo.Example.Mysql.Laws.{mysql_laws}
use httpserver_demo.Example.Store.{
  outside, ann, start, start-Coherent, start-requests, start-IsClean,
}

-- Three requests that are counted, an unnamed user's creation among them, and one that is not.
abbrev requests : List Rpc
requests =
    create (pos 1700000001) (codes "Bob") (codes "b@b.c")
    ∷ stats
    ∷ get (codes "1")
    ∷ create (pos 1700000002) [] (codes "c@c.d")
    ∷ []

get_stats_after_example :
    (more : Table) × ((get_stats outside (handle_all outside requests start)).0
      ≡ returned (stats_answer ((ann ∷ []) ++ more) 3))
    × Counted outside json_laws redis_laws mysql_laws
        ((ann ∷ []) ++ more)
        3
        (handle_all outside requests start)
    × (length more ≤ 4)
get_stats_after_example =
    get_stats_after outside json_laws redis_laws mysql_laws requests start (ann ∷ []) 0
      (record { coherent = start-Coherent; count = start-requests; clean = start-IsClean })
      (
        (
          omega arith,
          omega arith,
          json_laws.ascii-IsText (codes "Bob") (omega arith),
          json_laws.ascii-IsText (codes "b@b.c") (omega arith),
          omega arith,
        ),
        (
          tt,
          (
            omega arith,
            (
              (
                omega arith,
                omega arith,
                json_laws.ascii-IsText [] (omega arith),
                json_laws.ascii-IsText (codes "c@c.d") (omega arith),
                omega arith,
              ),
              tt,
            ),
          ),
        ),
      )
      (omega arith) (omega arith)
