-- ===== src/Gateway/Controller/Statuses.antt =====
-- The HTTP responses of the gateway, by what the service answered.
use httpserver_demo.Prelude.{
  ℕ, true, List, ◌∷◌, ◌++◌, some, arith, Bytes, codes, ◌≡◌, refl, ap, ◌&&◌,
}
use httpserver_demo.Effects.{Outcome}
use httpserver_demo.Json.{JsonLib, IsJson, User, empty_user}
use httpserver_demo.Service.{
  StatusCode, ok, invalid_argument, not_found, internal, other, Status, UserReply,
}
use httpserver_demo.Gateway
use httpserver_demo.Gateway.{Rpc, GatewayContext, k_error, user_of_reply, rpc_timeout}
use httpserver_demo.Gateway.Controller.{
  JsonCpp, HttpRequest, HttpResponse, found, created, get_user, create_user, create_named,
}
use httpserver_demo.Gateway.Controller.Responses.{
  Denotes, Reports, Responds, UserIsText, error_response-Responds, user_response-Responds, failed,
  passed, bad_gateway-Responds, via,
}

-- The HTTP status of a user that was asked for.
abbrev pub get_status : StatusCode → ℕ
get_status ok = 200
get_status not_found = 404
get_status code = 502

-- The HTTP status of a user that was to be made.
abbrev pub create_status : StatusCode → ℕ
create_status ok = 201
create_status code = 502

module _ (L : JsonLib) (J : IsJson L) (R : Rpc) where
  -- The body of the response to a request for a user.
  abbrev pub GetBody : StatusCode → Bytes → User → Bytes → Type 0
  GetBody ok message u body = Denotes L J R body u
  GetBody not_found message u body = Reports L J R body (codes "user not found")
  GetBody code message u body = Reports L J R body (codes "grpc GetUser failed: " ++ message)

  abbrev pub get_after : StatusCode → GatewayContext R → Bytes → R.Net → GatewayContext R
  get_after ok g message net = passed L J R g net
  get_after code g message net = failed L J R g message net

  -- The rest of `getUser` behind the answer of the service.
  abbrev get_rest :
      GatewayContext R → (Status × UserReply) × R.Net → Outcome HttpResponse × GatewayContext R
  get_rest g ((s, reply), net) =
      let (st, c) = Gateway.reported_found R s (record g.grpc { net = net }) in
      found L R (st, Gateway.written R s (user_of_reply reply) empty_user) (record g { grpc = c })

  get_rest-Responds :
      (code : StatusCode) (message : Bytes) (reply : UserReply) (g : GatewayContext R) (net : R.Net)
      → UserIsText L J R (user_of_reply reply)
      → J.IsText message
      → Responds L J R
          (λ h. get_rest h ((record { code = code; message = message }, reply), net))
          g
          (get_after code g message net)
          (get_status code)
          (GetBody code message (user_of_reply reply))
  unfolding found
  get_rest-Responds ok message reply g net h m =
      via L J R refl (user_response-Responds L J R 200 (user_of_reply reply) (passed L J R g net) h)
  get_rest-Responds not_found message reply g net h m = via L J R refl (
      error_response-Responds L J R 404 (codes "user not found") (failed L J R g message net)
        (J.ascii-IsText _ (omega arith)))
  get_rest-Responds invalid_argument message reply g net h m =
      via L J R refl
        (bad_gateway-Responds L J R (codes "grpc GetUser failed: ") message g net (omega arith) m)
  get_rest-Responds internal message reply g net h m =
      via L J R refl
        (bad_gateway-Responds L J R (codes "grpc GetUser failed: ") message g net (omega arith) m)
  get_rest-Responds (other x) message reply g net h m =
      via L J R refl
        (bad_gateway-Responds L J R (codes "grpc GetUser failed: ") message g net (omega arith) m)

  -- The handler of `GET` for an id makes one RPC and responds: with 200 and the JSON of the user
  -- where the service answers OK, with 404 and an error where it answers NOT_FOUND, and with 502 and
  -- an error that repeats the service's message on every other status. The response names the
  -- gateway's instance. The texts that the service sends are well-formed.
  pub get_user-Responds :
      (V : JsonCpp) (req : HttpRequest V) (g : GatewayContext R) (id : Bytes) (more : List Bytes)
      (code : StatusCode) (message : Bytes) (reply : UserReply) (net : R.Net)
      → req.routing_parameters ≡ id ∷ more
      → R.get_user g.grpc.stub rpc_timeout (record { id = id }) g.grpc.net
        ≡ ((record { code = code; message = message }, reply), net)
      → UserIsText L J R (user_of_reply reply)
      → J.IsText message
      → Responds L J R
          (get_user L R V req)
          g
          (get_after code g message net)
          (get_status code)
          (GetBody code message (user_of_reply reply))
  unfolding get_user Gateway.get_user
  get_user-Responds V req g id more code message reply net asked answered h m =
      via L J R (rw asked (ap (get_rest g) answered))
        (get_rest-Responds code message reply g net h m)

  -- The body of the response to a request for a new user.
  abbrev pub CreateBody : StatusCode → Bytes → User → Bytes → Type 0
  CreateBody ok message u body = Denotes L J R body u
  CreateBody code message u body = Reports L J R body (codes "grpc CreateUser failed: " ++ message)

  abbrev create_rest :
      GatewayContext R → (Status × UserReply) × R.Net → Outcome HttpResponse × GatewayContext R
  create_rest g ((s, reply), net) =
      let (st, c) = Gateway.reported R s (record g.grpc { net = net }) in
      created L R (st, Gateway.written R s (user_of_reply reply) empty_user) (record g { grpc = c })

  create_failed :
      (message : Bytes) (u : User) (g : GatewayContext R) (net : R.Net)
      → J.IsText message
      → Responds L J R
          (created L R (k_error, u))
          (failed L J R g message net)
          (failed L J R g message net)
          502
          (λ b. Reports L J R b (codes "grpc CreateUser failed: " ++ message))
  unfolding created
  create_failed message u g net m =
      bad_gateway-Responds L J R (codes "grpc CreateUser failed: ") message g net (omega arith) m

  create_rest-Responds :
      (code : StatusCode) (message : Bytes) (reply : UserReply) (g : GatewayContext R) (net : R.Net)
      → UserIsText L J R (user_of_reply reply)
      → J.IsText message
      → Responds L J R
          (λ h. create_rest h ((record { code = code; message = message }, reply), net))
          g
          (get_after code g message net)
          (create_status code)
          (CreateBody code message (user_of_reply reply))
  unfolding created
  create_rest-Responds ok message reply g net h m =
      via L J R refl (user_response-Responds L J R 201 (user_of_reply reply) (passed L J R g net) h)
  create_rest-Responds not_found message reply g net h m =
      via L J R refl (create_failed message empty_user g net m)
  create_rest-Responds invalid_argument message reply g net h m =
      via L J R refl (create_failed message empty_user g net m)
  create_rest-Responds internal message reply g net h m =
      via L J R refl (create_failed message empty_user g net m)
  create_rest-Responds (other x) message reply g net h m =
      via L J R refl (create_failed message empty_user g net m)

  -- The handler of `POST`, given an object with a name and texts that jsoncpp can read, makes one
  -- RPC and responds: with 201 and the JSON of the new user where the service answers OK, and with
  -- 502 and an error that repeats the service's message on every other status, INVALID_ARGUMENT
  -- included. The response names the gateway's instance. The texts that the service sends are
  -- well-formed.
  pub create_user-Responds :
      (V : JsonCpp) (req : HttpRequest V) (g : GatewayContext R) (body : V.Value)
      (name email : Bytes) (code : StatusCode) (message : Bytes) (reply : UserReply) (net : R.Net)
      → req.json ≡ some body
      → V.is_object body && V.is_member body (codes "name") ≡ true
      → V.as_string body (codes "name") ≡ some name
      → V.as_string body (codes "email") ≡ some email
      → R.create_user g.grpc.stub rpc_timeout (record { name = name; email = email }) g.grpc.net
        ≡ ((record { code = code; message = message }, reply), net)
      → UserIsText L J R (user_of_reply reply)
      → J.IsText message
      → Responds L J R
          (create_user L R V req)
          g
          (get_after code g message net)
          (create_status code)
          (CreateBody code message (user_of_reply reply))
  unfolding create_user create_named Gateway.create_user
  create_user-Responds V req g body name email code message reply net sent object n e answered h m =
      via L J R (rw (sent, object, n, e) (ap (create_rest g) answered))
        (create_rest-Responds code message reply g net h m)
