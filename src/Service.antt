-- ===== src/Service.antt =====
-- src/grpc_server/user_service.cpp: the handlers of the gRPC service. A handler's reply is the
-- message that it fills in; the context is not used by the source.
pub mod Answers
pub mod Counts
pub mod Stats
use httpserver_demo.Prelude.{
  Bool, List, [], ◌∷◌, Option, none, some, Bytes, codes, is_empty, if◌then◌else◌, ℤ, pos, ltb_ℤ,
}
use httpserver_demo.Effects.{ret, ◌>>=◌, ◌>>◌}
use httpserver_demo.Json.{User}
use httpserver_demo.World.{Outside, Call}
use httpserver_demo.Repository.{count_request}
use httpserver_demo.Repository

-- The codes of `grpc::StatusCode` that the program names, and the others.
pub data StatusCode : Type 0 where
  ok invalid_argument not_found internal : StatusCode
  other : Bytes → StatusCode

pub record Status : Type 0 where
  pub code : StatusCode
  pub message : Bytes

-- `grpc::Status::OK`
abbrev pub status_ok : Status
status_ok = record { code = ok; message = [] }

abbrev pub failure : StatusCode → Bytes → Status
failure code message = record { code = code; message = message }

pub record CreateUserRequest : Type 0 where
  pub name : Bytes
  pub email : Bytes

-- `CreateUserReply` and `GetUserReply`: a user that may not be set.
abbrev pub UserReply : Type 0
UserReply = Option User

pub record GetUserRequest : Type 0 where
  pub id : Bytes

-- The numbers are int32.
pub record ListUsersRequest : Type 0 where
  pub limit : ℤ
  pub offset : ℤ

pub record ListUsersReply : Type 0 where
  pub users : List User
  pub total : ℤ

pub record GetStatsReply : Type 0 where
  pub total_users : ℤ
  pub request_count : ℤ

abbrev pub empty_list : ListUsersReply
empty_list = record { users = []; total = pos 0 }

abbrev pub empty_stats : GetStatsReply
empty_stats = record { total_users = pos 0; request_count = pos 0 }

abbrev pub created : Option User → Status × UserReply
created none = (failure internal (codes "create user failed"), none)
created (some user) = (status_ok, some user)

abbrev pub found : Option User → Status × UserReply
found none = (failure not_found (codes "user not found"), none)
found (some user) = (status_ok, some user)

abbrev pub listed : Option (List User × ℤ) → Status × ListUsersReply
listed none = (failure internal (codes "list users failed"), empty_list)
listed (some (users, total)) = (status_ok, record { users = users; total = total })

abbrev pub counted : Option (ℤ × ℤ) → Status × GetStatsReply
counted none = (failure internal (codes "get stats failed"), empty_stats)
counted (some (total, requests)) =
    (status_ok, record { total_users = total; request_count = requests })

-- `request->limit() > 0 ? request->limit() : 10`
abbrev pub limit_of : ListUsersRequest → ℤ
limit_of request = if ltb_ℤ (pos 0) request.limit then request.limit else pos 10

-- `request->offset() > 0 ? request->offset() : 0`
abbrev pub offset_of : ListUsersRequest → ℤ
offset_of request = if ltb_ℤ (pos 0) request.offset then request.offset else pos 0

module _ (E : Outside) where
  abbrev checked_create : ℤ → CreateUserRequest → Bool → Call E (Status × UserReply)
  checked_create now request empty =
      if empty
      then ret (failure invalid_argument (codes "name is required"), none)
      else Repository.create_user E now request.name request.email >>= λ user. ret (created user)

  unfoldable pub create_user : ℤ → CreateUserRequest → Call E (Status × UserReply)
  create_user now request = do count_request E; checked_create now request (is_empty request.name)

  abbrev checked_get : GetUserRequest → Bool → Call E (Status × UserReply)
  checked_get request empty =
      if empty
      then ret (failure invalid_argument (codes "id is required"), none)
      else Repository.get_user E request.id >>= λ user. ret (found user)

  unfoldable pub get_user : GetUserRequest → Call E (Status × UserReply)
  get_user request = do count_request E; checked_get request (is_empty request.id)

  unfoldable pub list_users : ListUsersRequest → Call E (Status × ListUsersReply)
  list_users request = do
    count_request E
    page ← Repository.list_users E (limit_of request) (offset_of request)
    ret (listed page)

  -- `GetStats` is not counted as a request.
  unfoldable pub get_stats : Call E (Status × GetStatsReply)
  get_stats = do stats ← Repository.get_stats E; ret (counted stats)
