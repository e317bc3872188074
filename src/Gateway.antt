-- ===== src/Gateway.antt =====
-- src/gateway/grpc_client.h, src/gateway/grpc_client.cpp and src/gateway/gateway_context.h: the
-- client of the gRPC service that a gateway holds, and the gateway's context. The stub, and the
-- network and the service behind it, are an argument, `Rpc`.
pub mod Controller
pub mod EndToEnd
use httpserver_demo.Prelude.{
  ℕ, Bool, true, false, List, [], ◌∷◌, Option, none, some, Bytes, codes, ℤ, pos,
}
use httpserver_demo.Json.{User, empty_user}
use httpserver_demo.Service.{
  StatusCode, ok, not_found, Status, CreateUserRequest, UserReply, GetUserRequest, ListUsersRequest,
  ListUsersReply, GetStatsReply,
}

-- A call takes the seconds that it may last and leaves the world behind the stub changed.
pub record Rpc : Type 1 where
  pub Net : Type 0
  pub Stub : Type 0
  -- `CreateChannel` and `NewStub`, none for a null pointer
  pub new_stub : Bytes → Option Stub
  pub create_user : Option Stub → ℕ → CreateUserRequest → Net → (Status × UserReply) × Net
  pub get_user : Option Stub → ℕ → GetUserRequest → Net → (Status × UserReply) × Net
  pub list_users : Option Stub → ℕ → ListUsersRequest → Net → (Status × ListUsersReply) × Net
  pub get_stats : Option Stub → ℕ → Net → (Status × GetStatsReply) × Net

-- `kRpcTimeout`
abbrev pub rpc_timeout : ℕ
rpc_timeout = 3

pub data RpcStatus : Type 0 where
  k_ok k_not_found k_error : RpcStatus

-- `reply.user()`: a message that is not set reads as an empty one.
abbrev pub user_of_reply : UserReply → User
user_of_reply none = empty_user
user_of_reply (some user) = user

module _ (R : Rpc) where
  -- A client object, with the world behind its stub.
  pub record GrpcClient : Type 0 where
    pub stub : Option R.Stub
    pub err : Bytes
    pub net : R.Net

  abbrev is_some : Option R.Stub → Bool
  is_some none = false
  is_some (some s) = true

  unfoldable pub connect : Bytes → GrpcClient → Bool × GrpcClient
  connect server_addr c =
      (is_some (R.new_stub server_addr), record c { stub = R.new_stub server_addr })

  -- The status that a call is reported with, and `err_` afterwards.
  abbrev pub reported : Status → GrpcClient → RpcStatus × GrpcClient
  reported s c = elim s.code [ ok ↦ (k_ok, c) | _ ↦ (k_error, record c { err = s.message }) ]

  -- The same in `GetUser`, which tells NOT_FOUND from the other errors.
  abbrev pub reported_found : Status → GrpcClient → RpcStatus × GrpcClient
  reported_found s c = elim s.code [
    | ok ↦ (k_ok, c)
    | not_found ↦ (k_not_found, record c { err = s.message })
    | _ ↦ (k_error, record c { err = s.message })
  ]

  -- The value that a call leaves in its out parameter, beside the status: `given` if it is not
  -- written.
  abbrev pub written {ℓ} : {A : Type ℓ} → Status → A → A → A
  written s new given = elim s.code [ ok ↦ new | _ ↦ given ]

  unfoldable pub create_user : Bytes → Bytes → User → GrpcClient → (RpcStatus × User) × GrpcClient
  create_user name email out c =
      let request : CreateUserRequest = record { name = name; email = email } in
      let ((s, reply), net) = R.create_user c.stub rpc_timeout request c.net in
      let (st, c') = reported s (record c { net = net }) in
      ((st, written s (user_of_reply reply) out), c')

  unfoldable pub get_user : Bytes → User → GrpcClient → (RpcStatus × User) × GrpcClient
  get_user id out c =
      let request : GetUserRequest = record { id = id } in
      let ((s, reply), net) = R.get_user c.stub rpc_timeout request c.net in
      let (st, c') = reported_found s (record c { net = net }) in
      ((st, written s (user_of_reply reply) out), c')

  unfoldable pub list_users :
      ℤ → ℤ → List User × ℤ → GrpcClient → (RpcStatus × List User × ℤ) × GrpcClient
  list_users limit offset out c =
      let request : ListUsersRequest = record { limit = limit; offset = offset } in
      let ((s, reply), net) = R.list_users c.stub rpc_timeout request c.net in
      let (st, c') = reported s (record c { net = net }) in
      let (users, total) = written s (reply.users, reply.total) out in ((st, users, total), c')

  unfoldable pub get_stats : ℤ × ℤ → GrpcClient → (RpcStatus × ℤ × ℤ) × GrpcClient
  get_stats out c =
      let ((s, reply), net) = R.get_stats c.stub rpc_timeout c.net in
      let (st, c') = reported s (record c { net = net }) in
      let (total_users, request_count) = written s (reply.total_users, reply.request_count) out in
      ((st, total_users, request_count), c')

-- `GatewayConfig` with its defaults.
pub record GatewayConfig : Type 0 where
  pub port : ℤ
  pub grpc_addr : Bytes
  pub instance_id : Bytes

abbrev pub default_gateway : GatewayConfig
default_gateway = record {
  port = pos 8080;
  grpc_addr = codes "127.0.0.1:9090";
  instance_id = codes "gateway-unknown";
}

module _ (R : Rpc) where
  pub record GatewayContext : Type 0 where
    pub cfg : GatewayConfig
    pub grpc : GrpcClient R

  -- What `connect` returns is not looked at.
  unfoldable pub init : GatewayConfig → GatewayContext → GatewayContext
  init cfg g = record { cfg = cfg; grpc = (connect R cfg.grpc_addr g.grpc).1 }
