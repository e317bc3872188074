-- ===== src/Gateway/Controller.antt =====
-- src/gateway/user_controller.cpp: the HTTP handlers of a gateway. What Drogon and jsoncpp make of
-- a request is an argument. A handler calls its callback once, as the last thing that it does: its
-- result is the response that it hands over.
pub mod Responses
pub mod Statuses
pub mod Listing
pub mod Counts
use httpserver_demo.Prelude.{
  ℕ, Bool, true, false, ◌&&◌, List, [], ◌∷◌, ◌++◌, map, Option, none, some, if◌then◌else◌, Bytes,
  codes, ℤ, pos,
}
use httpserver_demo.Effects.{Run, returned, ret, ◌>>=◌, or_throw}
use httpserver_demo.Json.{JsonLib, User, empty_user, user_to_json, user_to_json_string}
use httpserver_demo.Gateway
use httpserver_demo.Gateway.{Rpc, GrpcClient, GatewayContext, RpcStatus, k_ok, k_not_found, k_error}

-- `Json::Value`
pub record JsonCpp : Type 1 where
  pub Value : Type 0
  pub is_object : Value → Bool
  pub is_member : Value → Bytes → Bool
  -- `v[key].asString()` on an object, `none` where it throws; a missing key reads as null
  pub as_string : Value → Bytes → Option Bytes

-- What a handler asks of its request.
pub record HttpRequest (V : JsonCpp) : Type 0 where
  -- `getJsonObject`, none for a null pointer
  pub json : Option V.Value
  pub routing_parameters : List Bytes
  -- `getOptionalParameter<int>`
  pub parameter : Bytes → Option ℤ

pub record HttpResponse : Type 0 where
  pub status : ℕ
  -- the header X-Gateway-Instance
  pub instance_header : Bytes
  pub body : Bytes

abbrev pub value_or : Option ℤ → ℤ → ℤ
value_or none d = d
value_or (some n) d = n

module _ (L : JsonLib) (R : Rpc) where
  abbrev pub Handler : Type 0
  Handler = Run (GatewayContext R) HttpResponse

  -- A call of the gateway's client.
  abbrev on_grpc : {A : Type 0} → (GrpcClient R → A × GrpcClient R) → Run (GatewayContext R) A
  on_grpc f g = let (a, c) = f g.grpc in (returned a, record g { grpc = c })

  abbrev pub make_json_response : ℕ → Bytes → Handler
  make_json_response code body g =
      ret (record { status = code; instance_header = g.cfg.instance_id; body = body }) g

  abbrev pub error_json : Bytes → L.Json
  error_json msg = L.object ((codes "error", L.string msg) ∷ [])

  unfoldable pub error_response : ℕ → Bytes → Handler
  error_response code msg = do
    body ← or_throw (L.dump (error_json msg))
    make_json_response code body

  -- 502 with the client's last error behind a text.
  unfoldable pub bad_gateway : Bytes → Handler
  bad_gateway what g = error_response 502 (what ++ g.grpc.err) g

  unfoldable pub created : RpcStatus × User → Handler
  created (k_ok, user) = do
    body ← or_throw (user_to_json_string L user)
    make_json_response 201 body
  created (st, user) = bad_gateway (codes "grpc CreateUser failed: ")

  unfoldable pub create_named : Option Bytes → Option Bytes → Handler
  create_named name email = do
    n ← or_throw name
    e ← or_throw email
    out ← on_grpc (Gateway.create_user R n e empty_user)
    created out

  -- `createUser`
  unfoldable pub create_user : (V : JsonCpp) → HttpRequest V → Handler
  create_user V req = elim req.json [
    | none ↦ error_response 400 (codes "name is required")
    | some body ↦
        if V.is_object body && V.is_member body (codes "name")
        then create_named (V.as_string body (codes "name")) (V.as_string body (codes "email"))
        else error_response 400 (codes "name is required")
  ]

  unfoldable pub found : RpcStatus × User → Handler
  found (k_ok, user) = do body ← or_throw (user_to_json_string L user); make_json_response 200 body
  found (k_not_found, user) = error_response 404 (codes "user not found")
  found (k_error, user) = bad_gateway (codes "grpc GetUser failed: ")

  -- `getUser`
  unfoldable pub get_user : (V : JsonCpp) → HttpRequest V → Handler
  get_user V req = elim req.routing_parameters [
    | [] ↦ error_response 400 (codes "id is required")
    | id ∷ more ↦ do out ← on_grpc (Gateway.get_user R id empty_user); found out
  ]

  abbrev pub list_json : List User → ℤ → L.Json
  list_json users total = L.object (
      (codes "total", L.integer total) ∷ (codes "users", L.array (map (user_to_json L) users)) ∷ [])

  unfoldable pub listed : RpcStatus × List User × ℤ → Handler
  listed (k_ok, users, total) = do
    body ← or_throw (L.dump (list_json users total))
    make_json_response 200 body
  listed (st, users, total) = bad_gateway (codes "grpc ListUsers failed: ")

  -- `listUsers`
  unfoldable pub list_users : (V : JsonCpp) → HttpRequest V → Handler
  list_users V req = do
    out ← on_grpc (
        Gateway.list_users R (value_or (req.parameter (codes "limit")) (pos 10))
          (value_or (req.parameter (codes "offset")) (pos 0)) ([], pos 0))
    listed out

  unfoldable pub counted : RpcStatus × ℤ × ℤ → Handler
  counted (k_ok, total_users, request_count) = do
    body ← or_throw (
        L.dump (
          L.object (
            (codes "total_users", L.integer total_users)
            ∷ (codes "request_count", L.integer request_count)
            ∷ [])))
    make_json_response 200 body
  counted (st, total_users, request_count) = bad_gateway (codes "grpc GetStats failed: ")

  -- `getStats`
  unfoldable pub get_stats : Handler
  get_stats = do out ← on_grpc (Gateway.get_stats R (pos 0, pos 0)); counted out

  -- `health`
  unfoldable pub health : Handler
  health g =
      (or_throw (
            L.dump (
              L.object (
                (codes "status", L.string (codes "ok"))
                ∷ (codes "instance", L.string g.cfg.instance_id)
                ∷ [])))
          >>= make_json_response 200)
        g
