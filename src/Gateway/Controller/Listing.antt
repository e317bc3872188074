-- ===== src/Gateway/Controller/Listing.antt =====
-- The HTTP response of the gateway to a request for a page of users.
use httpserver_demo.Prelude.{
  All, List, [], ◌∷◌, ◌++◌, map, some, arith, Bytes, codes, ◌≡◌, refl, ap, ◌∙◌, ℤ, pos,
}
use httpserver_demo.Effects.{Outcome}
use httpserver_demo.Json.{JsonLib, IsJson, User, user_to_json, json_to_user}
use httpserver_demo.Json.Laws.{json_to_user-user_to_json, user_to_json-IsWell}
use httpserver_demo.Service.{
  StatusCode, ok, invalid_argument, not_found, internal, other, Status, ListUsersReply,
}
use httpserver_demo.Gateway
use httpserver_demo.Gateway.{Rpc, GatewayContext, k_error, rpc_timeout}
use httpserver_demo.Gateway.Controller.{
  JsonCpp, HttpRequest, HttpResponse, list_json, listed, list_users, value_or,
}
use httpserver_demo.Gateway.Controller.Responses.{
  Reports, Responds, UserIsText, passed, failed, bad_gateway-Responds, via, json_response-Responds,
  of_body, list_status,
}
use httpserver_demo.Gateway.Controller.Statuses.{get_after}

module _ (L : JsonLib) (J : IsJson L) (R : Rpc) where
  -- A text of JSON with a total and an array of users, which are read back as these.
  pub record PageIsRead (users : List User) (total : ℤ) (body : Bytes) : Type 0 where
    pub json : L.Json
    pub array : L.Json
    pub parsed : L.parse body ≡ some json
    pub total_is : L.value_integer json (codes "total") (pos 0) ≡ some total
    pub array_is : L.index json (codes "users") ≡ some (array, json)
    pub users_are : map (json_to_user L) (L.elements array) ≡ map some users

  read_back :
      (users : List User) → map (json_to_user L) (map (user_to_json L) users) ≡ map some users
  read_back [] = refl
  read_back (u ∷ us) = rw (json_to_user-user_to_json L J u, read_back us) refl

  users-IsWell :
      (users : List User) → All (UserIsText L J R) users → All J.IsWell (map (user_to_json L) users)
  users-IsWell [] tt = tt
  users-IsWell (u ∷ us) ((i, n, e), h) = (user_to_json-IsWell L J u i n e, users-IsWell us h)

  page_of_json :
      (users : List User) (total : ℤ) (body : Bytes)
      → L.parse body ≡ some (list_json L R users total)
      → PageIsRead users total body
  page_of_json users total body h = record {
    json = list_json L R users total;
    array = L.array (map (user_to_json L) users);
    parsed = h;
    total_is = J.value_integer-object _ (codes "total") total (pos 0) refl;
    array_is = J.index-object _ (codes "users") (L.array (map (user_to_json L) users)) refl;
    users_are = ap (map (json_to_user L)) (J.elements-array _) ∙ read_back users;
  }

  list-IsWell :
      (users : List User) (total : ℤ)
      → All (UserIsText L J R) users
      → J.IsWell (list_json L R users total)
  list-IsWell users total h = J.object-IsWell _ (
    (J.ascii-IsText (codes "total") (omega arith), J.integer-IsWell total),
    ((J.ascii-IsText (codes "users") (omega arith), J.array-IsWell _ (users-IsWell users h)), tt),
  )

  listed-Responds :
      (users : List User) (total : ℤ) (g : GatewayContext R)
      → All (UserIsText L J R) users
      → Responds L J R (listed L R (Gateway.k_ok, users, total)) g g 200 (PageIsRead users total)
  unfolding listed
  listed-Responds users total g h =
      of_body L J R (page_of_json users total)
        (json_response-Responds L J R 200 (list_json L R users total) g (list-IsWell users total h))

  -- The body of the response to a request for a page of users.
  abbrev pub ListBody : StatusCode → Bytes → ListUsersReply → Bytes → Type 0
  ListBody ok message reply body = PageIsRead reply.users reply.total body
  ListBody code message reply body = Reports L J R body (codes "grpc ListUsers failed: " ++ message)

  abbrev list_rest :
      GatewayContext R → (Status × ListUsersReply) × R.Net → Outcome HttpResponse × GatewayContext R
  list_rest g ((s, reply), net) =
      let (st, c) = Gateway.reported R s (record g.grpc { net = net }) in
      let (users, total) = Gateway.written R s (reply.users, reply.total) ([], pos 0) in
      listed L R (st, users, total) (record g { grpc = c })

  list_failed :
      (message : Bytes) (g : GatewayContext R) (net : R.Net)
      → J.IsText message
      → Responds L J R
          (listed L R (k_error, [], pos 0))
          (failed L J R g message net)
          (failed L J R g message net)
          502
          (λ b. Reports L J R b (codes "grpc ListUsers failed: " ++ message))
  unfolding listed
  list_failed message g net m =
      bad_gateway-Responds L J R (codes "grpc ListUsers failed: ") message g net (omega arith) m

  list_rest-Responds :
      (code : StatusCode) (message : Bytes) (reply : ListUsersReply) (g : GatewayContext R)
      (net : R.Net)
      → All (UserIsText L J R) reply.users
      → J.IsText message
      → Responds L J R
          (λ h. list_rest h ((record { code = code; message = message }, reply), net))
          g
          (get_after L J R code g message net)
          (list_status code)
          (ListBody code message reply)
  list_rest-Responds ok message reply g net h m =
      via L J R refl (listed-Responds reply.users reply.total (passed L J R g net) h)
  list_rest-Responds not_found message reply g net h m =
      via L J R refl (list_failed message g net m)
  list_rest-Responds invalid_argument message reply g net h m =
      via L J R refl (list_failed message g net m)
  list_rest-Responds internal message reply g net h m = via L J R refl (list_failed message g net m)
  list_rest-Responds (other x) message reply g net h m =
      via L J R refl (list_failed message g net m)

  -- The handler of `GET` for a page makes one RPC, with the limit and offset of the query or else
  -- 10 and 0, and responds: with 200 and a JSON text from which the total and the users of the reply
  -- are read back, in order, where the service answers OK, and with 502 and an error that repeats
  -- the service's message on every other status. The response names the gateway's instance. The
  -- texts that the service sends are well-formed.
  pub list_users-Responds :
      (V : JsonCpp) (req : HttpRequest V) (g : GatewayContext R) (limit offset : ℤ)
      (code : StatusCode) (message : Bytes) (reply : ListUsersReply) (net : R.Net)
      → value_or (req.parameter (codes "limit")) (pos 10) ≡ limit
      → value_or (req.parameter (codes "offset")) (pos 0) ≡ offset
      → R.list_users g.grpc.stub rpc_timeout (record { limit = limit; offset = offset }) g.grpc.net
        ≡ ((record { code = code; message = message }, reply), net)
      → All (UserIsText L J R) reply.users
      → J.IsText message
      → Responds L J R
          (list_users L R V req)
          g
          (get_after L J R code g message net)
          (list_status code)
          (ListBody code message reply)
  unfolding list_users Gateway.list_users
  list_users-Responds V req g limit offset code message reply net l o answered h m =
      via L J R (rw (l, o) (ap (list_rest g) answered))
        (list_rest-Responds code message reply g net h m)
