-- ===== src/Gateway/EndToEnd.antt =====
-- From a request to src/gateway/user_controller.cpp to the table behind src/grpc_server: the stub
-- hands a call to the service's handler and its answer back, as gRPC documents it.
pub mod Queries
use mathlib.Core.Option
use httpserver_demo.Prelude.{
  IsInt64, All, length, ◌++◌, ◌&&◌, true, ℕ, ◌<◌, List, [], ◌∷◌, none, some, arith, Bytes, codes, ℤ,
  NoNul, max_int64, ◌≡◌, ◌≢◌, ◌∙◌, ap, ◌⊎◌, inl, inr, Option-cases,
}
use httpserver_demo.Effects.{Outcome, returned, threw, blocked}
use httpserver_demo.Json.{IsJson, User}
use httpserver_demo.Redis.Server.{IsRedis, IsCount}
use httpserver_demo.Mysql.Server.{Table, IsMysql, RowRefused, find}
use httpserver_demo.World.{Outside, World}
use httpserver_demo.Repository.{request_count_key, new_user}
use httpserver_demo.Repository.Fits.{user_of}
use httpserver_demo.Repository.Coherence.{Coherent, id-IsText}
use httpserver_demo.Repository.Reads.Path.{find-IsPlain, user_at}
use httpserver_demo.Service.{
  internal, invalid_argument, Status, StatusCode, ok, not_found, failure, status_ok, UserReply,
  empty_list, empty_stats,
}
use httpserver_demo.Service
use httpserver_demo.Service.Answers.{create_user-answers, get_user-answers, user_answer}
use httpserver_demo.Gateway.{Rpc, GatewayContext}
use httpserver_demo.Gateway.Controller
use httpserver_demo.Gateway.Controller.{JsonCpp, HttpRequest}
use httpserver_demo.Gateway.Controller.Responses.{Responds, Denotes, Reports, UserIsText}
use httpserver_demo.Gateway.Controller.Statuses.{get_user-Responds, create_user-Responds}

-- What the caller of an RPC gets: the handler's answer, and `lost` where it throws or does not end.
abbrev pub delivered : {A W : Type 0} → Status → A → Outcome (Status × A) × W → (Status × A) × W
delivered lost default (returned answer, w) = (answer, w)
delivered lost default (threw, w) = ((lost, default), w)
delivered lost default (blocked, w) = ((lost, default), w)

module _ (E : Outside) (lost : Status) (now : ℤ) where
  -- A stub whose calls reach the service; `now` is the clock of the service.
  abbrev pub direct : Rpc
  direct = record {
    Net = World E;
    Stub = Unit;
    new_stub = λ addr. some tt;
    create_user =
        λ stub seconds request w. delivered lost none (Service.create_user E now request w);
    get_user = λ stub seconds request w. delivered lost none (Service.get_user E request w);
    list_users =
        λ stub seconds request w. delivered lost empty_list (Service.list_users E request w);
    get_stats = λ stub seconds w. delivered lost empty_stats (Service.get_stats E w);
  }

  module _ (J : IsJson E.json) (R : IsRedis E.redis) (S : IsMysql E.mysql) where
    user-IsText :
        (t : Table) (id : Bytes) (w : World E)
        → Coherent E J R S w t
        → (a : _) → find (S.matches id) t ≡ some a
        → UserIsText E.json J direct (user_of a)
    user-IsText t id w c a e =
        let p = find-IsPlain E J (S.matches id) t a c.plain e in
        (id-IsText E J a.id, p.name_text, p.email_text)

    -- An HTTP request for an id that is not empty, at a gateway whose service is coherent with a
    -- table and counts its requests: if the table has a user under the id, the response is 200 with
    -- JSON that is read as this user, and else 404 with an error; the service stays coherent with
    -- the same table.
    pub get_user_end_to_end :
        (V : JsonCpp) (req : HttpRequest V) (g : GatewayContext direct) (t : Table) (n x : ℕ)
        (s : Bytes) (more : List Bytes) (c : Coherent E J R S g.grpc.net t)
        → req.routing_parameters ≡ (x ∷ s) ∷ more
        → IsCount (c.view request_count_key) n
        → n < max_int64
        → NoNul (x ∷ s)
        → (g' : GatewayContext direct) × Coherent E J R S g'.grpc.net t
          × (((u : User) × (user_at S t (x ∷ s) ≡ some u)
                × Responds E.json J direct
                    (Controller.get_user E.json direct V req)
                    g
                    g'
                    200
                    (λ b. Denotes E.json J direct b u))
              ⊎ ((user_at S t (x ∷ s) ≡ none)
                  × Responds E.json J direct
                      (Controller.get_user E.json direct V req)
                      g
                      g'
                      404
                      (λ b. Reports E.json J direct b (codes "user not found"))))
    get_user_end_to_end V req g t n x s more c asked counted small plain =
        let w : World E = g.grpc.net in
        let (out, after) = get_user-answers E J R S w t n (x ∷ s) c counted small plain in
        let w' : World E = (Service.get_user E (record { id = x ∷ s }) w).1 in
        let answered : delivered lost none (Service.get_user E (record { id = x ∷ s }) w)
            ≡ (user_answer (x ∷ s) (user_at S t (x ∷ s)), w') =
          ap (λ o. delivered lost none (o, w')) out in
        elim (Option-cases (find (S.matches (x ∷ s)) t)) [
          | inr (a, e) ↦
              let same : user_at S t (x ∷ s) ≡ some (user_of a) = ap (Option.map user_of) e in
              let r =
                get_user-Responds E.json J direct V req g (x ∷ s) more ok [] (some (user_of a)) w'
                  asked (answered ∙ ap (λ u. (user_answer (x ∷ s) u, w')) same)
                  (user-IsText t (x ∷ s) w c a e) (J.ascii-IsText [] tt) in
              (_, after, inl (user_of a, same, r))
          | inl e ↦
              let same : user_at S t (x ∷ s) ≡ none = ap (Option.map user_of) e in
              let r =
                get_user-Responds E.json J direct V req g (x ∷ s) more not_found
                  (codes "user not found") none w' asked
                  (answered ∙ ap (λ u. (user_answer (x ∷ s) u, w')) same)
                  (J.ascii-IsText [] tt, J.ascii-IsText [] tt, J.ascii-IsText [] tt)
                  (J.ascii-IsText (codes "user not found") (omega arith)) in
              (_, after, inr (same, r))
        ]

    -- An HTTP request for a new user, with a name and an email that are well-formed texts without
    -- NUL, which jsoncpp can read. To the empty name the response is 502 with an error, and table and
    -- server of the table stay as they are. To any other name it is 502, in which case MySQL was
    -- sent the insertion of this name, email and time and refused it, and the service stays coherent
    -- with the same table; or it is 201 with JSON that is read as the new user, whose id is larger
    -- than all ids before, and the service is coherent with the table that has the user's row at
    -- its end. The table has room for a row.
    pub create_user_end_to_end :
        (V : JsonCpp) (req : HttpRequest V) (g : GatewayContext direct) (t : Table) (n : ℕ)
        (name email : Bytes) (body : V.Value) (c : Coherent E J R S g.grpc.net t)
        → req.json ≡ some body
        → V.is_object body && V.is_member body (codes "name") ≡ true
        → V.as_string body (codes "name") ≡ some name
        → V.as_string body (codes "email") ≡ some email
        → IsCount (c.view request_count_key) n
        → n < max_int64
        → NoNul name
        → NoNul email
        → J.IsText name
        → J.IsText email
        → IsInt64 now
        → length t < max_int64
        → (g' : GatewayContext direct) × (((name ≡ [])
              × Responds E.json J direct (Controller.create_user E.json direct V req) g g' 502 (λ b.
                Reports E.json J direct b
                  (codes "grpc CreateUser failed: " ++ codes "name is required"))
              × (g'.grpc.net.db ≡ g.grpc.net.db)
              × Coherent E J R S g'.grpc.net t)
            ⊎ ((name ≢ [])
                × ((Responds E.json J direct
                        (Controller.create_user E.json direct V req)
                        g
                        g'
                        502
                        (λ b.
                          Reports E.json J direct b
                            (codes "grpc CreateUser failed: " ++ codes "create user failed"))
                      × RowRefused S g.grpc.net.db g'.grpc.net.db name email now
                      × Coherent E J R S g'.grpc.net t)
                    ⊎ ((id : ℕ) × All (λ a. a.id < id) t
                        × Responds E.json J direct
                            (Controller.create_user E.json direct V req)
                            g
                            g'
                            201
                            (λ b. Denotes E.json J direct b (new_user id name email now))
                        × Coherent E J R S g'.grpc.net (
                            t
                            ++ record { id = id; name = name; email = email; created_at = now }
                              ∷ [])))))
    create_user_end_to_end V req g t n name email body c sent object name_read email_read counted
          small np ep nt et in_range room =
        let w : World E = g.grpc.net in
        let call : Outcome (Status × UserReply) × World E =
          Service.create_user E now (record { name = name; email = email }) w in
        elim (create_user-answers E J R S w t n now name email c counted small np ep nt et in_range
          room) [
            | inl (empty, out, same, after) ↦
                let r =
                  create_user-Responds E.json J direct V req g body name email invalid_argument
                    (codes "name is required") none call.1 sent object name_read email_read
                    (ap (λ o. delivered lost none (o, call.1)) out)
                    (J.ascii-IsText [] tt, J.ascii-IsText [] tt, J.ascii-IsText [] tt)
                    (J.ascii-IsText (codes "name is required") (omega arith)) in
                (_, inl (empty, r, same, after))
            | inr (some_name, inl (out, row, after)) ↦
                let r =
                  create_user-Responds E.json J direct V req g body name email internal
                    (codes "create user failed") none call.1 sent object name_read email_read
                    (ap (λ o. delivered lost none (o, call.1)) out)
                    (J.ascii-IsText [] tt, J.ascii-IsText [] tt, J.ascii-IsText [] tt)
                    (J.ascii-IsText (codes "create user failed") (omega arith)) in
                (_, inr (some_name, inl (r, row, after)))
            | inr (some_name, inr (id, fresh, out, after)) ↦
                let r =
                  create_user-Responds E.json J direct V req g body name email ok []
                    (some (new_user id name email now)) call.1 sent object name_read email_read
                    (ap (λ o. delivered lost none (o, call.1)) out) (id-IsText E J id, nt, et)
                    (J.ascii-IsText [] tt) in
                (_, inr (some_name, inr (id, fresh, r, after)))
          ]
