-- ===== src/Gateway/EndToEnd/Queries.antt =====
-- From a request for a page or for the statistics to src/gateway/user_controller.cpp to the table
-- behind src/grpc_server.
use httpserver_demo.Prelude.{
  ℕ, ◌<◌, ◌≤◌, List, [], ◌∷◌, map, codes, ℤ, pos, IsInt64, All, All-take, All-drop, length, take,
  drop, max_int64, ◌≡◌, ap,
}
use httpserver_demo.Json.{IsJson}
use httpserver_demo.Redis.Server.{IsRedis, IsCount}
use httpserver_demo.Mysql.Server.{Account, Table, IsMysql}
use httpserver_demo.World.{Outside, World}
use httpserver_demo.Repository.{request_count_key}
use httpserver_demo.Repository.Fits.{user_of, page_of}
use httpserver_demo.Repository.Coherence.{IsPlain, Coherent, id-IsText}
use httpserver_demo.Service.{Status, ok, empty_list, empty_stats}
use httpserver_demo.Service
use httpserver_demo.Service.Answers.{list_users-answers, page_limit, page_offset, page_answer}
use httpserver_demo.Service.Counts.{Counted}
use httpserver_demo.Service.Stats.{get_stats-answers, stats_answer}
use httpserver_demo.Gateway.{GatewayContext}
use httpserver_demo.Gateway.EndToEnd.{delivered, direct}
use httpserver_demo.Gateway.Controller
use httpserver_demo.Gateway.Controller.{JsonCpp, HttpRequest, value_or}
use httpserver_demo.Gateway.Controller.Responses.{Responds, UserIsText}
use httpserver_demo.Gateway.Controller.Listing.{PageIsRead, list_users-Responds}
use httpserver_demo.Gateway.Controller.Counts.{CountsAreRead, get_stats-Responds}

module _ (E : Outside) (lost : Status) (now : ℤ) (J : IsJson E.json) (R : IsRedis E.redis)
    (S : IsMysql E.mysql) where
  users-IsText :
      (xs : List Account)
      → All (IsPlain E J) xs
      → All (UserIsText E.json J (direct E lost now)) (map user_of xs)
  users-IsText [] h = tt
  users-IsText (a ∷ xs) (p, h) =
      ((id-IsText E J a.id, p.name_text, p.email_text), users-IsText xs h)

  -- An HTTP request for a page, at a gateway whose service is coherent with a table and counts its
  -- requests: the response is 200 with JSON from which the number of all rows is read back, and the
  -- users of the rows from the offset on, at most as many as the limit, in the order of the table. A
  -- limit that is missing or not positive stands for 10, an offset that is missing or negative for
  -- 0. The service stays coherent with the same table.
  pub list_users_end_to_end :
      (V : JsonCpp) (req : HttpRequest V) (g : GatewayContext (direct E lost now)) (t : Table)
      (n : ℕ) (limit offset : ℤ) (c : Coherent E J R S g.grpc.net t)
      → value_or (req.parameter (codes "limit")) (pos 10) ≡ limit
      → value_or (req.parameter (codes "offset")) (pos 0) ≡ offset
      → IsInt64 limit
      → IsInt64 offset
      → IsCount (c.view request_count_key) n
      → n < max_int64
      → (g' : GatewayContext (direct E lost now)) × Coherent E J R S g'.grpc.net t
        × Responds E.json J
            (direct E lost now)
            (Controller.list_users E.json (direct E lost now) V req)
            g
            g'
            200
            (PageIsRead E.json J
              (direct E lost now)
              (map user_of (take (page_limit limit) (drop (page_offset offset) t)))
              (pos (length t)))
  list_users_end_to_end V req g t n limit offset c l o lh oh counted small =
      let w : World E = g.grpc.net in
      let (out, after) = list_users-answers E J R S w t n limit offset c counted small lh oh in
      let w' : World E = (Service.list_users E (record { limit = limit; offset = offset }) w).1 in
      let page = page_answer (page_of t (page_limit limit) (page_offset offset)) in
      let plain =
        All-take (IsPlain E J) (page_limit limit) (drop (page_offset offset) t)
          (All-drop (IsPlain E J) (page_offset offset) t c.plain) in
      let r =
        list_users-Responds E.json J (direct E lost now) V req g limit offset ok [] page.1 w' l o
          (ap (λ o. delivered lost empty_list (o, w')) out) (users-IsText _ plain)
          (J.ascii-IsText [] tt) in
      (_, after, r)

  -- An HTTP request for the statistics, at a gateway whose service is coherent with a table and has
  -- counted `n` requests: the response is 200 with JSON from which the number of rows and `n` are
  -- read back, and nothing of this changes.
  pub get_stats_end_to_end :
      (g : GatewayContext (direct E lost now)) (t : Table) (n : ℕ)
      → Counted E J R S t n g.grpc.net
      → n ≤ max_int64
      → (g' : GatewayContext (direct E lost now)) × Counted E J R S t n g'.grpc.net
        × Responds E.json J
            (direct E lost now)
            (Controller.get_stats E.json (direct E lost now))
            g
            g'
            200
            (CountsAreRead E.json J (direct E lost now) (pos (length t)) (pos n))
  get_stats_end_to_end g t n c small =
      let w : World E = g.grpc.net in
      let (out, after) = get_stats-answers E J R S w t n c small in
      let w' : World E = (Service.get_stats E w).1 in
      let r =
        get_stats-Responds E.json J (direct E lost now) g ok [] (stats_answer t n).1 w'
          (ap (λ o. delivered lost empty_stats (o, w')) out) (J.ascii-IsText [] tt) in
      (_, after, r)
