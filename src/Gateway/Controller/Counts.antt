-- ===== src/Gateway/Controller/Counts.antt =====
-- The HTTP response of the gateway to a request for the statistics.
use httpserver_demo.Prelude.{[], ◌∷◌, ◌++◌, some, arith, Bytes, codes, ◌≡◌, refl, ap, ℤ, pos}
use httpserver_demo.Effects.{Outcome}
use httpserver_demo.Json.{JsonLib, IsJson}
use httpserver_demo.Service.{
  StatusCode, ok, invalid_argument, not_found, internal, other, Status, GetStatsReply,
}
use httpserver_demo.Gateway
use httpserver_demo.Gateway.{Rpc, GatewayContext, k_error, rpc_timeout}
use httpserver_demo.Gateway.Controller.{HttpResponse, counted, get_stats}
use httpserver_demo.Gateway.Controller.Responses.{
  Reports, Responds, passed, failed, bad_gateway-Responds, via, json_response-Responds, of_body,
  list_status,
}
use httpserver_demo.Gateway.Controller.Statuses.{get_after}

module _ (L : JsonLib) (J : IsJson L) (R : Rpc) where
  -- A text of JSON with the two counts of the statistics.
  pub record CountsAreRead (total_users request_count : ℤ) (body : Bytes) : Type 0 where
    pub json : L.Json
    pub parsed : L.parse body ≡ some json
    pub total_is : L.value_integer json (codes "total_users") (pos 0) ≡ some total_users
    pub requests_are : L.value_integer json (codes "request_count") (pos 0) ≡ some request_count

  counts_of_json :
      (total requests : ℤ) (body : Bytes)
      → L.parse body
        ≡ some (
            L.object (
              (codes "total_users", L.integer total)
              ∷ (codes "request_count", L.integer requests)
              ∷ []))
      → CountsAreRead total requests body
  counts_of_json total requests body h = record {
    json = _;
    parsed = h;
    total_is = J.value_integer-object _ (codes "total_users") total (pos 0) refl;
    requests_are = J.value_integer-object _ (codes "request_count") requests (pos 0) refl;
  }

  counted-Responds :
      (total requests : ℤ) (g : GatewayContext R)
      → Responds L J R
          (counted L R (Gateway.k_ok, total, requests))
          g
          g
          200
          (CountsAreRead total requests)
  unfolding counted
  counted-Responds total requests g = of_body L J R (counts_of_json total requests) (
      json_response-Responds L J R 200 _ g (
        J.object-IsWell _ (
          (J.ascii-IsText (codes "total_users") (omega arith), J.integer-IsWell total),
          ((J.ascii-IsText (codes "request_count") (omega arith), J.integer-IsWell requests), tt),
        )))

  -- The body of the response to a request for the statistics.
  abbrev pub StatsBody : StatusCode → Bytes → GetStatsReply → Bytes → Type 0
  StatsBody ok message reply body = CountsAreRead reply.total_users reply.request_count body
  StatsBody code message reply body = Reports L J R body (codes "grpc GetStats failed: " ++ message)

  abbrev stats_rest :
      GatewayContext R → (Status × GetStatsReply) × R.Net → Outcome HttpResponse × GatewayContext R
  stats_rest g ((s, reply), net) =
      let (st, c) = Gateway.reported R s (record g.grpc { net = net }) in
      let (total, requests) =
        Gateway.written R s (reply.total_users, reply.request_count) (pos 0, pos 0) in
      counted L R (st, total, requests) (record g { grpc = c })

  stats_failed :
      (message : Bytes) (g : GatewayContext R) (net : R.Net)
      → J.IsText message
      → Responds L J R
          (counted L R (k_error, pos 0, pos 0))
          (failed L J R g message net)
          (failed L J R g message net)
          502
          (λ b. Reports L J R b (codes "grpc GetStats failed: " ++ message))
  unfolding counted
  stats_failed message g net m =
      bad_gateway-Responds L J R (codes "grpc GetStats failed: ") message g net (omega arith) m

  stats_rest-Responds :
      (code : StatusCode) (message : Bytes) (reply : GetStatsReply) (g : GatewayContext R)
      (net : R.Net)
      → J.IsText message
      → Responds L J R
          (λ h. stats_rest h ((record { code = code; message = message }, reply), net))
          g
          (get_after L J R code g message net)
          (list_status code)
          (StatsBody code message reply)
  stats_rest-Responds ok message reply g net m =
      via L J R refl (counted-Responds reply.total_users reply.request_count (passed L J R g net))
  stats_rest-Responds not_found message reply g net m =
      via L J R refl (stats_failed message g net m)
  stats_rest-Responds invalid_argument message reply g net m =
      via L J R refl (stats_failed message g net m)
  stats_rest-Responds internal message reply g net m = via L J R refl (stats_failed message g net m)
  stats_rest-Responds (other x) message reply g net m =
      via L J R refl (stats_failed message g net m)

  -- The handler of `GET` for the statistics makes one RPC and responds: with 200 and a JSON text from
  -- which the two counts of the reply are read back where the service answers OK, and with 502 and
  -- an error that repeats the service's message on every other status. The response names the
  -- gateway's instance. The message that the service sends is well-formed.
  pub get_stats-Responds :
      (g : GatewayContext R) (code : StatusCode) (message : Bytes) (reply : GetStatsReply)
      (net : R.Net)
      → R.get_stats g.grpc.stub rpc_timeout g.grpc.net
        ≡ ((record { code = code; message = message }, reply), net)
      → J.IsText message
      → Responds L J R
          (get_stats L R)
          g
          (get_after L J R code g message net)
          (list_status code)
          (StatsBody code message reply)
  unfolding get_stats Gateway.get_stats
  get_stats-Responds g code message reply net answered m =
      via L J R (ap (stats_rest g) answered) (stats_rest-Responds code message reply g net m)
