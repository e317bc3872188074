-- ===== src/Example/Http.antt =====
-- Runs of the HTTP handlers of src/gateway, before a service that gives fixed answers.
use httpserver_demo.Prelude.{true, [], ◌∷◌, none, some, arith, Bytes, codes, pos, refl}
use httpserver_demo.Json.{User}
use httpserver_demo.Service.{ok, internal, failure, status_ok}
use httpserver_demo.Gateway.{Rpc, GatewayContext, default_gateway}
use httpserver_demo.Gateway.Controller
use httpserver_demo.Gateway.Controller.{JsonCpp, HttpRequest}
use httpserver_demo.Gateway.Controller.Responses.{Responds}
use httpserver_demo.Gateway.Controller.Listing.{ListBody, list_users-Responds}
use httpserver_demo.Gateway.Controller.Counts.{StatsBody, get_stats-Responds}
use httpserver_demo.Gateway.Controller.Statuses.{
  GetBody, CreateBody, get_after, get_user-Responds, create_user-Responds,
}
use httpserver_demo.Example.Json.{json}
use httpserver_demo.Example.Json.Laws.{json_laws}

-- A service that knows one user and makes none.
abbrev eve : User
eve = record { id = codes "9"; name = codes "Eve"; email = []; created_at = pos 3 }

abbrev rpc : Rpc
rpc = record {
  Net = Unit;
  Stub = Unit;
  new_stub = λ addr. some tt;
  create_user = λ stub seconds request net. ((failure internal (codes "full"), none), net);
  get_user = λ stub seconds request net. ((status_ok, some eve), net);
  list_users =
      λ stub seconds request net. ((status_ok, record { users = eve ∷ []; total = pos 1 }), net);
  get_stats =
      λ stub seconds net. ((status_ok, record { total_users = pos 1; request_count = pos 0 }), net);
}

-- A value is a name and an email.
abbrev pub values : JsonCpp
values = record {
  Value = Bytes × Bytes;
  is_object = λ v. true;
  is_member = λ v key. true;
  as_string = λ v key. some v.0;
}

abbrev gateway : GatewayContext rpc
gateway = record { cfg = default_gateway; grpc = record { stub = some tt; err = []; net = tt } }

abbrev pub request : HttpRequest values
request = record {
  json = some (codes "Bob", codes "b@b.c");
  routing_parameters = codes "9" ∷ [];
  parameter = λ key. none;
}

get_user-Responds_example :
    Responds json json_laws rpc
      (Controller.get_user json rpc values request)
      gateway
      (get_after json json_laws rpc ok gateway [] tt)
      200
      (GetBody json json_laws rpc ok [] eve)
get_user-Responds_example =
    get_user-Responds json json_laws rpc values request gateway (codes "9") [] ok [] (some eve) tt
      refl refl
      (
        json_laws.ascii-IsText (codes "9") (omega arith),
        json_laws.ascii-IsText (codes "Eve") (omega arith),
        json_laws.ascii-IsText [] (omega arith),
      )
      (json_laws.ascii-IsText [] (omega arith))

create_user-Responds_example :
    Responds json json_laws rpc
      (Controller.create_user json rpc values request)
      gateway
      (get_after json json_laws rpc internal gateway (codes "full") tt)
      502
      (CreateBody json json_laws rpc internal
        (codes "full")
        (record { id = []; name = []; email = []; created_at = pos 0 }))
create_user-Responds_example =
    create_user-Responds json json_laws rpc values request gateway (codes "Bob", codes "b@b.c")
      (codes "Bob") (codes "Bob") internal (codes "full") none tt refl refl refl refl refl
      (
        json_laws.ascii-IsText [] (omega arith),
        json_laws.ascii-IsText [] (omega arith),
        json_laws.ascii-IsText [] (omega arith),
      )
      (json_laws.ascii-IsText (codes "full") (omega arith))

list_users-Responds_example :
    Responds json json_laws rpc
      (Controller.list_users json rpc values request)
      gateway
      (get_after json json_laws rpc ok gateway [] tt)
      200
      (ListBody json json_laws rpc ok [] (record { users = eve ∷ []; total = pos 1 }))
list_users-Responds_example =
    list_users-Responds json json_laws rpc values request gateway (pos 10) (pos 0) ok []
      (record { users = eve ∷ []; total = pos 1 }) tt refl refl refl
      (
        (
          json_laws.ascii-IsText (codes "9") (omega arith),
          json_laws.ascii-IsText (codes "Eve") (omega arith),
          json_laws.ascii-IsText [] (omega arith),
        ),
        tt,
      )
      (json_laws.ascii-IsText [] (omega arith))

get_stats-Responds_example :
    Responds json json_laws rpc
      (Controller.get_stats json rpc)
      gateway
      (get_after json json_laws rpc ok gateway [] tt)
      200
      (StatsBody json json_laws rpc ok [] (record { total_users = pos 1; request_count = pos 0 }))
get_stats-Responds_example =
    get_stats-Responds json json_laws rpc gateway ok []
      (record { total_users = pos 1; request_count = pos 0 }) tt refl
      (json_laws.ascii-IsText [] (omega arith))
