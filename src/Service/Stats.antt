-- ===== src/Service/Stats.antt =====
-- What `GetStats` of src/grpc_server/user_service.cpp answers after other requests.
use httpserver_demo.Prelude.{
  ℕ, ◌+◌, ◌≤◌, List, [], ◌∷◌, ◌++◌, Option, arith, c_str_of_NoNul, pos, All, max_int64, length,
  length-append, append_assoc, append-nil, ◌≡◌, ◌∙◌, sym, ap, subst, inl, inr,
}
use httpserver_demo.Decimal.{nat_to_string, to_string, strtoll}
use httpserver_demo.Decimal.RoundTrip.{strtoll-to_string}
use httpserver_demo.Effects.{returned, ret, then_ends}
use httpserver_demo.Json.{IsJson}
use httpserver_demo.Redis.Server.{Entry, text_of, IsRedis, IsCount}
use httpserver_demo.Mysql.Server.{Table, IsMysql}
use httpserver_demo.World.{Outside, World}
use httpserver_demo.Repository
use httpserver_demo.Repository.{request_count_key, count_request, count_or_zero, number_of_text}
use httpserver_demo.Repository.Keys.{nat_to_string-NoNul}
use httpserver_demo.Repository.Stats.{get_stats-Coherent}
use httpserver_demo.Service.{get_stats, counted, Status, status_ok}
use httpserver_demo.Service.{GetStatsReply}
use httpserver_demo.Service.Counts.{
  Rpc, cost, cost_bound, cost_of_all, handle, handle_all, IsRpc, Counted,
}
use httpserver_demo.Service.Counts.Handlers.{handle-Handled, handle_stats}

number_of_count :
    (e : Option Entry) (n : ℕ) → IsCount e n → n ≤ max_int64 → count_or_zero (text_of e) ≡ pos n
unfolding to_string
number_of_count e n (inl (none_held, zero)) h = rw none_held (ap pos (sym zero))
number_of_count e n (inr held) h =
    let back : strtoll (to_string (pos n)) ≡ pos n = strtoll-to_string (pos n) h in
    rw held (ap strtoll (c_str_of_NoNul (nat_to_string n) (nat_to_string-NoNul n)) ∙ back)

-- The answer to `GetStats`.
abbrev pub stats_answer : Table → ℕ → Status × GetStatsReply
stats_answer t n = (status_ok, record { total_users = pos (length t); request_count = pos n })

module _ (E : Outside) (J : IsJson E.json) (R : IsRedis E.redis) (S : IsMysql E.mysql) where
  pub get_stats-answers :
      (w : World E) (t : Table) (n : ℕ)
      → Counted E J R S t n w
      → n ≤ max_int64
      → ((get_stats E w).0 ≡ returned (stats_answer t n)) × Counted E J R S t n (get_stats E w).1
  unfolding get_stats
  get_stats-answers w t n c small =
      let (done, after) = get_stats-Coherent E J R S w t c.coherent in
      (
        ap (λ out. out.0) (then_ends (Repository.get_stats E) (λ x. ret (counted x)) w _ done)
            ∙ ap
                (λ k.
                  returned (status_ok, record { total_users = pos (length t); request_count = k }))
                (number_of_count _ n c.count small),
        handle_stats E J R S w t n c,
      )

  -- After any sequence of requests to the four handlers, on a coherent state whose counter holds
  -- `n`, the handler of `GetStats` answers OK with the number of rows of the table, those that the
  -- requests added included, and with `n` and one for each request before it that was not a
  -- `GetStats` itself, whether it was answered with OK or not. The texts and numbers of the requests
  -- are such that the program takes them, and there is room for the rows and in the counter.
  pub get_stats_after :
      (rs : List Rpc) (w : World E) (t : Table) (n : ℕ)
      → Counted E J R S t n w
      → All (IsRpc E J R S) rs
      → n + length rs ≤ max_int64
      → length t + length rs ≤ max_int64
      → (more : Table) × ((get_stats E (handle_all E rs w)).0
          ≡ returned (stats_answer (t ++ more) (n + cost_of_all rs)))
        × Counted E J R S (t ++ more) (n + cost_of_all rs) (handle_all E rs w)
        × (length more ≤ length rs)
  get_stats_after [] w t n c h small room =
      let same : n ≡ n + 0 = omega arith in
      (
        [],
        subst (λ l. (get_stats E w).0 ≡ returned (stats_answer l (n + 0))) (sym (append-nil t))
            (subst (λ m. (get_stats E w).0 ≡ returned (stats_answer t m)) same
              (get_stats-answers w t n c (omega arith)).0),
        subst (λ l. Counted E J R S l (n + 0) w) (sym (append-nil t))
            (subst (λ m. Counted E J R S t m w) same c),
        omega arith,
      )
  get_stats_after (r ∷ rs) w t n c (h, hs) small room =
      let (one, c₁, few) = handle-Handled E J R S r w t n c (omega arith) (omega arith) h in
      let spent : cost r ≤ 1 = cost_bound r in
      let (more, out, c₂, last) =
        get_stats_after rs (handle E r w) (t ++ one) (n + cost r) c₁ hs (omega arith)
          (omega (arith, length-append t one)) in
      let sum : n + cost r + cost_of_all rs ≡ n + (cost r + cost_of_all rs) = omega arith in
      let w' : World E = handle_all E rs (handle E r w) in
      (
        one ++ more,
        subst (λ l. (get_stats E w').0 ≡ returned (stats_answer l (n + (cost r + cost_of_all rs))))
            (append_assoc t one more)
            (subst (λ m. (get_stats E w').0 ≡ returned (stats_answer ((t ++ one) ++ more) m)) sum
              out),
        subst (λ l. Counted E J R S l (n + (cost r + cost_of_all rs)) w') (append_assoc t one more)
            (subst (λ m. Counted E J R S ((t ++ one) ++ more) m w') sum c₂),
        omega (arith, length-append one more),
      )
