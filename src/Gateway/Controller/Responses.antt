-- ===== src/Gateway/Controller/Responses.antt =====
-- What a response of the gateway is: its status, the instance it names, and a body of JSON.
use httpserver_demo.Prelude.{ℕ, ◌<◌, All, ◌++◌, some, arith, Bytes, codes, ◌≡◌, ◌∙◌, refl, ap}
use httpserver_demo.Service.{StatusCode, ok}
use httpserver_demo.Effects.{returned, continue, ◌>>=◌, or_throw}
use httpserver_demo.Json
use httpserver_demo.Json.{JsonLib, IsJson, User, empty_user, user_to_json_string, json_to_user}
use httpserver_demo.Json.Laws.{user_round_trip, user_to_json_string_total}
use httpserver_demo.Gateway.{Rpc, GatewayContext}
use httpserver_demo.Gateway.Controller.{
  HttpResponse, Handler, make_json_response, error_json, error_response, bad_gateway,
}

-- The HTTP status of a request that the service has no error of its own for.
abbrev pub list_status : StatusCode → ℕ
list_status ok = 200
list_status code = 502

module _ (L : JsonLib) (J : IsJson L) (R : Rpc) where
  -- A text of JSON that is read as this user.
  abbrev pub Denotes : Bytes → User → Type 0
  Denotes body user = Json.◌>>=◌ (L.parse body) (json_to_user L) ≡ some user

  -- A text of JSON that is an object with this error.
  abbrev pub Reports : Bytes → Bytes → Type 0
  Reports body msg = L.parse body ≡ some (error_json L R msg)

  -- A handler's call that returns a response with this status and such a body; the response names
  -- the gateway's instance, and the gateway is left as `g'`.
  pub record Responds (m : Handler L R) (g g' : GatewayContext R) (status : ℕ)
      (Body : Bytes → Type 0) : Type 0 where
    pub response : HttpResponse
    pub run : m g ≡ (returned response, g')
    pub status_is : response.status ≡ status
    pub instance_is : response.instance_header ≡ g'.cfg.instance_id
    pub body_is : Body response.body

  abbrev pub UserIsText : User → Type 0
  UserIsText u = J.IsText u.id × J.IsText u.name × J.IsText u.email

  pub error_response-Responds :
      (code : ℕ) (msg : Bytes) (g : GatewayContext R)
      → J.IsText msg
      → Responds (error_response L R code msg) g g code (λ b. Reports b msg)
  unfolding error_response
  error_response-Responds code msg g h =
      let (b, dumped) = J.dump_well (error_json L R msg) (
        J.object-IsWell _
          ((J.ascii-IsText (codes "error") (omega arith), J.string-IsWell msg h), tt)) in
      record {
        response = record { status = code; instance_header = g.cfg.instance_id; body = b };
        run = ap (λ o. continue (make_json_response L R code) (or_throw o g)) dumped;
        status_is = refl;
        instance_is = refl;
        body_is = J.parse-dump _ b dumped;
      }

  pub user_response-Responds :
      (code : ℕ) (u : User) (g : GatewayContext R)
      → UserIsText u
      → Responds
          (or_throw (user_to_json_string L u) >>= make_json_response L R code)
          g
          g
          code
          (λ b. Denotes b u)
  user_response-Responds code u g (i, n, e) =
      let (b, dumped) = user_to_json_string_total L J u i n e in
      record {
        response = record { status = code; instance_header = g.cfg.instance_id; body = b };
        run = ap (λ o. continue (make_json_response L R code) (or_throw o g)) dumped;
        status_is = refl;
        instance_is = refl;
        body_is = user_round_trip L J u b dumped;
      }

  -- The gateway after a call that failed, or did not.
  abbrev pub failed : GatewayContext R → Bytes → R.Net → GatewayContext R
  failed g message net = record g { grpc = record g.grpc { err = message; net = net } }

  abbrev pub passed : GatewayContext R → R.Net → GatewayContext R
  passed g net = record g { grpc = record g.grpc { net = net } }

  what-IsText :
      (what message : Bytes)
      → All (λ c. c < 128) what
      → J.IsText message
      → J.IsText (what ++ message)
  what-IsText what message h m = J.append-IsText what message (J.ascii-IsText what h) m

  pub bad_gateway-Responds :
      (what message : Bytes) (g : GatewayContext R) (net : R.Net)
      → All (λ c. c < 128) what
      → J.IsText message
      → Responds
          (bad_gateway L R what)
          (failed g message net)
          (failed g message net)
          502
          (λ b. Reports b (what ++ message))
  unfolding bad_gateway
  bad_gateway-Responds what message g net h m =
      let r =
        error_response-Responds 502 (what ++ message) (failed g message net)
          (what-IsText what message h m) in
      record {
        response = r.response;
        run = r.run;
        status_is = r.status_is;
        instance_is = r.instance_is;
        body_is = r.body_is;
      }

  pub via :
      {m₀ m : Handler L R} {g h h' : GatewayContext R} {status : ℕ} {Body : Bytes → Type 0}
      → m₀ g ≡ m h
      → Responds m h h' status Body
      → Responds m₀ g h' status Body
  via e r = record {
    response = r.response;
    run = e ∙ r.run;
    status_is = r.status_is;
    instance_is = r.instance_is;
    body_is = r.body_is;
  }

  pub json_response-Responds :
      (code : ℕ) (j : L.Json) (g : GatewayContext R)
      → J.IsWell j
      → Responds
          (or_throw (L.dump j) >>= make_json_response L R code)
          g
          g
          code
          (λ b. L.parse b ≡ some j)
  json_response-Responds code j g well =
      let (b, dumped) = J.dump_well j well in
      record {
        response = record { status = code; instance_header = g.cfg.instance_id; body = b };
        run = ap (λ o. continue (make_json_response L R code) (or_throw o g)) dumped;
        status_is = refl;
        instance_is = refl;
        body_is = J.parse-dump j b dumped;
      }

  pub of_body :
      {m : Handler L R} {g g' : GatewayContext R} {status : ℕ} {B C : Bytes → Type 0}
      → ((b : Bytes) → B b → C b)
      → Responds m g g' status B
      → Responds m g g' status C
  of_body f r = record {
    response = r.response;
    run = r.run;
    status_is = r.status_is;
    instance_is = r.instance_is;
    body_is = f r.response.body r.body_is;
  }
