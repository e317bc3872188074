-- ===== src/Example/Front.antt =====
-- Runs of the service of src/grpc_server and of the gateway of src/gateway.
use httpserver_demo.Prelude.{
  ℕ, [], ◌∷◌, ◌++◌, map, none, some, arith, codes, pos, negsuc, All, ◌<◌, ◌≡◌, ◌≢◌, refl, ◌⊎◌,
}
use httpserver_demo.Effects.{returned}
use httpserver_demo.Json.{User}
use httpserver_demo.Mysql.Server.{RowRefused}
use httpserver_demo.Repository.{new_user}
use httpserver_demo.Repository.Fits.{user_of, page_of}
use httpserver_demo.Repository.Coherence.{Coherent}
use httpserver_demo.Repository.Reads.Path.{user_at}
use httpserver_demo.Service.{
  Status, internal, invalid_argument, failure, status_ok, create_user, get_user, list_users,
}
use httpserver_demo.Service.Answers.{
  user_answer, page_answer, get_user-answers, list_users-answers, create_user-answers,
}
use httpserver_demo.Gateway.{Rpc, GatewayContext, default_gateway}
use httpserver_demo.Gateway.Controller
use httpserver_demo.Gateway.Controller.{JsonCpp, HttpRequest}
use httpserver_demo.Gateway.EndToEnd.{direct, get_user_end_to_end, create_user_end_to_end}
use httpserver_demo.Gateway.EndToEnd.Queries.{list_users_end_to_end, get_stats_end_to_end}
use httpserver_demo.Gateway.Controller.Listing.{PageIsRead}
use httpserver_demo.Gateway.Controller.Counts.{CountsAreRead}
use httpserver_demo.Service.Counts.{Counted}
use httpserver_demo.Gateway.Controller.Responses.{Denotes, Reports, Responds}
use httpserver_demo.Example.Http.{values, request}
use httpserver_demo.Example.Json.{json}
use httpserver_demo.Example.Json.Laws.{json_laws}
use httpserver_demo.Example.Redis.{redis_laws}
use httpserver_demo.Example.Mysql.Laws.{mysql_laws}
use httpserver_demo.Example.Store.{
  outside, ann, start, start-Coherent, start-requests, start-IsClean,
}

get_user-answers_example :
    let out = get_user outside (record { id = codes "7" }) start in
    (out.0 ≡ returned (user_answer (codes "7") (user_at mysql_laws (ann ∷ []) (codes "7"))))
    × Coherent outside json_laws redis_laws mysql_laws out.1 (ann ∷ [])
get_user-answers_example =
    get_user-answers outside json_laws redis_laws mysql_laws start (ann ∷ []) 0 (codes "7")
      start-Coherent start-requests (omega arith) (omega arith)

list_users-answers_example :
    let out = list_users outside (record { limit = pos 0; offset = negsuc 2 }) start in
    (out.0 ≡ returned (page_answer (page_of (ann ∷ []) 10 0)))
    × Coherent outside json_laws redis_laws mysql_laws out.1 (ann ∷ [])
list_users-answers_example =
    list_users-answers outside json_laws redis_laws mysql_laws start (ann ∷ []) 0 (pos 0) (negsuc 2)
      start-Coherent start-requests (omega arith) (omega arith) (omega arith)

create_user-answers_example :
    let out = create_user outside (pos 5) (record { name = codes "Bob"; email = [] }) start in
    ((codes "Bob" ≡ [])
      × (out.0 ≡ returned (failure invalid_argument (codes "name is required"), none))
      × (out.1.db ≡ start.db)
      × Coherent outside json_laws redis_laws mysql_laws out.1 (ann ∷ []))
    ⊎ ((codes "Bob" ≢ [])
        × (((out.0 ≡ returned (failure internal (codes "create user failed"), none))
              × RowRefused mysql_laws start.db out.1.db (codes "Bob") [] (pos 5)
              × Coherent outside json_laws redis_laws mysql_laws out.1 (ann ∷ []))
            ⊎ ((id : ℕ) × All (λ a. a.id < id) (ann ∷ [])
                × (out.0 ≡ returned (status_ok, some (new_user id (codes "Bob") [] (pos 5))))
                × Coherent outside json_laws redis_laws mysql_laws out.1 (
                    (ann ∷ [])
                    ++ record { id = id; name = codes "Bob"; email = []; created_at = pos 5 }
                      ∷ []))))
create_user-answers_example =
    create_user-answers outside json_laws redis_laws mysql_laws start (ann ∷ []) 0 (pos 5)
      (codes "Bob") [] start-Coherent start-requests (omega arith) (omega arith) (omega arith)
      (json_laws.ascii-IsText (codes "Bob") (omega arith)) (json_laws.ascii-IsText [] (omega arith))
      (omega arith) (omega arith)

-- The gateway in front of the small servers.
abbrev lost : Status
lost = failure internal (codes "lost")

abbrev linked : Rpc
linked = direct outside lost (pos 1700000001)

abbrev front : GatewayContext linked
front = record { cfg = default_gateway; grpc = record { stub = some tt; err = []; net = start } }

get_user_end_to_end_example :
    (g' : GatewayContext linked) × Coherent outside json_laws redis_laws mysql_laws g'.grpc.net
      (ann ∷ [])
    × (((u : User) × (user_at mysql_laws (ann ∷ []) (codes "9") ≡ some u)
          × Responds json json_laws linked
              (Controller.get_user json linked values request)
              front
              g'
              200
              (λ b. Denotes json json_laws linked b u))
        ⊎ ((user_at mysql_laws (ann ∷ []) (codes "9") ≡ none)
            × Responds json json_laws linked
                (Controller.get_user json linked values request)
                front
                g'
                404
                (λ b. Reports json json_laws linked b (codes "user not found"))))
get_user_end_to_end_example =
    get_user_end_to_end outside lost (pos 1700000001) json_laws redis_laws mysql_laws values request
      front (ann ∷ []) 0 b'9' [] [] start-Coherent refl start-requests (omega arith) (omega arith)

create_user_end_to_end_example :
    (g' : GatewayContext linked) × (((codes "Bob" ≡ [])
        × Responds json json_laws linked
            (Controller.create_user json linked values request)
            front
            g'
            502
            (λ b.
              Reports json json_laws linked b
                (codes "grpc CreateUser failed: " ++ codes "name is required"))
        × (g'.grpc.net.db ≡ start.db)
        × Coherent outside json_laws redis_laws mysql_laws g'.grpc.net (ann ∷ []))
      ⊎ ((codes "Bob" ≢ [])
          × ((Responds json json_laws linked
                  (Controller.create_user json linked values request)
                  front
                  g'
                  502
                  (λ b.
                    Reports json json_laws linked b
                      (codes "grpc CreateUser failed: " ++ codes "create user failed"))
                × RowRefused mysql_laws start.db g'.grpc.net.db
                    (codes "Bob")
                    (codes "Bob")
                    (pos 1700000001)
                × Coherent outside json_laws redis_laws mysql_laws g'.grpc.net (ann ∷ []))
              ⊎ ((id : ℕ) × All (λ a. a.id < id) (ann ∷ [])
                  × Responds json json_laws linked
                      (Controller.create_user json linked values request)
                      front
                      g'
                      201
                      (λ b.
                        Denotes json json_laws linked b
                          (new_user id (codes "Bob") (codes "Bob") (pos 1700000001)))
                  × Coherent outside json_laws redis_laws mysql_laws g'.grpc.net (
                      (ann ∷ [])
                      ++ record {
                        id = id;
                        name = codes "Bob";
                        email = codes "Bob";
                        created_at = pos 1700000001;
                      }
                        ∷ [])))))
create_user_end_to_end_example =
    create_user_end_to_end outside lost (pos 1700000001) json_laws redis_laws mysql_laws values
      request front (ann ∷ []) 0 (codes "Bob") (codes "Bob") (codes "Bob", codes "b@b.c")
      start-Coherent refl refl refl refl start-requests (omega arith) (omega arith) (omega arith)
      (json_laws.ascii-IsText (codes "Bob") (omega arith))
      (json_laws.ascii-IsText (codes "Bob") (omega arith)) (omega arith) (omega arith)

list_users_end_to_end_example :
    (g' : GatewayContext linked) × Coherent outside json_laws redis_laws mysql_laws g'.grpc.net
      (ann ∷ [])
    × Responds json json_laws linked
        (Controller.list_users json linked values request)
        front
        g'
        200
        (PageIsRead json json_laws linked (map user_of (ann ∷ [])) (pos 1))
list_users_end_to_end_example =
    list_users_end_to_end outside lost (pos 1700000001) json_laws redis_laws mysql_laws values
      request front (ann ∷ []) 0 (pos 10) (pos 0) start-Coherent refl refl (omega arith)
      (omega arith) start-requests (omega arith)

get_stats_end_to_end_example :
    (g' : GatewayContext linked) × Counted outside json_laws redis_laws mysql_laws
      (ann ∷ [])
      0
      g'.grpc.net
    × Responds json json_laws linked
        (Controller.get_stats json linked)
        front
        g'
        200
        (CountsAreRead json json_laws linked (pos 1) (pos 0))
get_stats_end_to_end_example =
    get_stats_end_to_end outside lost (pos 1700000001) json_laws redis_laws mysql_laws front
      (ann ∷ []) 0
      (record { coherent = start-Coherent; count = start-requests; clean = start-IsClean })
      (omega arith)
