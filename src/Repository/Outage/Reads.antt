-- ===== src/Repository/Outage/Reads.antt =====
-- The statements of the reads, and what is written behind them, while Redis is gone.
use httpserver_demo.Prelude.{
  ℕ, ◌<◌, ◌≤◌, List, [], ◌∷◌, map, none, some, Bytes, ℤ, pos, All, All-take, All-drop, length, take,
  drop, max_int64, refl, ap, sym, subst, Option-cases, inl, inr,
}
use httpserver_demo.Decimal.{nat_to_string, to_string}
use httpserver_demo.Effects.{ret, ◌>>=◌, or_throw}
use httpserver_demo.Json.{IsJson, User, user_to_json_string}
use httpserver_demo.Redis
use httpserver_demo.Redis.Outage.{StaysDown, set_stays, sadd_stays}
use httpserver_demo.Mysql
use httpserver_demo.Mysql.{Row}
use httpserver_demo.Mysql.Server.{Account, Table, IsMysql, cells, find, row_list}
use httpserver_demo.Sql.{select_sql, count_sql, page_sql}
use httpserver_demo.World.{Outside, World, Call, on_cache, on_conn, read_conn, with_result, on_rows}
use httpserver_demo.Repository.{
  fill_user, select_user, user_key, user_cache_ttl, fill_page, select_page, count_and_select,
  list_cache_key, list_cache_ttl, list_cache_index, page_to_json, count_or_zero, fill_total,
  count_users, with_requests, total_users_key, request_count_key, stats_cache_ttl,
}
use httpserver_demo.Repository.Fits.{user_of, page_of}
use httpserver_demo.Repository.Coherence.{
  IsPlain, user_of_row-cells, map-user_of_row-cells, dump_of_plain, dump_of_page,
}
use httpserver_demo.Repository.Reads.Path.{user_at, find-IsPlain, select_sql-NoNul}
use httpserver_demo.Repository.Pages.Path.{page_sql-NoNul}
use httpserver_demo.Repository.Counts.{count_step, count_of_count}
use httpserver_demo.Repository.Steps.{Ready}
use httpserver_demo.Repository.Statements.{escape_step, query_step}
use httpserver_demo.Repository.Scopes.{Ends, with_result_step, then_step, ret_step}
use httpserver_demo.Repository.Outage.{Gone, gone_then, get_then}

module _ (E : Outside) (J : IsJson E.json) (S : IsMysql E.mysql) {Dead : E.redis.Server → Type 0}
    (D : StaysDown E.redis Dead) where
  -- The call returns `a`, the table stays, and Redis is gone.
  abbrev pub Reads : {A : Type 0} → ℕ → Table → Call E A → World E → A → Type 0
  Reads n t m w a = Ends S (Gone E J S D) n m w a t

  -- At a state with `n` connections and the table `t`.
  abbrev pub On : ℕ → Table → World E → Type 0
  On n t w = Ready S (Gone E J S D) n w t

  module _ (n : ℕ) (t : Table) (p : All (IsPlain E J) t) where
    found_row :
        (id : Bytes) (w : World E) (a : Account)
        → On n t w
        → IsPlain E J a
        → Reads n t (fill_user E id (cells a ∷ [])) w (some (user_of a))
    unfolding fill_user
    found_row id w a at_w plain =
        let (s, dumped) = dump_of_plain E J a plain in
        rw (user_of_row-cells E J a plain) (
          then_step S (or_throw (user_to_json_string E.json (user_of a))) _ w w
            (ap (λ o. or_throw o w) dumped)
            (gone_then E J S D n (Redis.set E.redis (user_key id) s (pos user_cache_ttl)) _
              (λ _. ret (some (user_of a))) w at_w refl
              (set_stays D w.cache at_w.shows (user_key id) s (pos user_cache_ttl))
              (λ w' same at_w'. ret_step S (some (user_of a)) w' at_w')))

    no_row : (id : Bytes) (w : World E) → On n t w → Reads n t (fill_user E id []) w none
    unfolding fill_user
    no_row id w at_w = ret_step S none w at_w

    rows :
        (id : Bytes) (w : World E)
        → On n t w
        → Reads n t (fill_user E id (row_list (find (S.matches id) t))) w (user_at S t id)
    rows id w at_w = elim (Option-cases (find (S.matches id) t)) [
      | inl e ↦ rw e (no_row id w at_w)
      | inr (a, e) ↦ rw e (found_row id w a at_w (find-IsPlain E J (S.matches id) t a p e))
    ]

    pub selected :
        (id : Bytes) (w : World E) (i : ℕ)
        → i < n
        → On n t w
        → Reads n t (select_user E id i) w (user_at S t id)
    unfolding select_user
    selected id w i within at_w =
        let (q, escaped, denotes, plain) = escape_step S n i w at_w within id in
        let (r, w₁, run, same, at_w₁) =
          query_step S n i w at_w within (select_sql q) (row_list (find (S.matches id) t))
            (select_sql-NoNul q plain) (λ h db used same. S.select h q id db t used same denotes) in
        let filled =
          subst (λ l. Reads n t (fill_user E id l) w₁ (user_at S t id)) (sym same)
            (rows id w₁ at_w₁) in
        then_step S (read_conn E i (Mysql.escape E.mysql id))
          (λ q. on_conn E i (Mysql.query E.mysql (select_sql q)) >>= λ res.
            with_result E res (on_rows E res (fill_user E id)))
          w w escaped
          (then_step S (on_conn E i (Mysql.query E.mysql (select_sql q)))
            (λ res. with_result E res (on_rows E res (fill_user E id))) w w₁ run
            (with_result_step S r (fill_user E id (E.mysql.rows r)) w₁ filled))

    module _ (l o : ℕ) (l_max : l ≤ max_int64) (o_max : o ≤ max_int64)
        (small : length t ≤ max_int64) where
      abbrev key : Bytes
      key = list_cache_key (pos l) (pos o)

      abbrev accounts : List Account
      accounts = take l (drop o t)

      page_rows :
          (w : World E)
          → On n t w
          → Reads n t
              (fill_page E key (pos (length t)) (map cells accounts))
              w
              (some (page_of t l o))
      unfolding fill_page
      page_rows w at_w =
          let plain = All-take (IsPlain E J) l (drop o t) (All-drop (IsPlain E J) o t p) in
          let page : List User × ℤ = page_of t l o in
          let (s, dumped) = dump_of_page E J accounts (pos (length t)) plain in
          rw (map-user_of_row-cells E J accounts plain) (
            then_step S (or_throw (E.json.dump (page_to_json E (map user_of accounts) page.1))) _ w
              w (ap (λ d. or_throw d w) dumped)
              (gone_then E J S D n (Redis.set E.redis key s (pos list_cache_ttl)) _
                (λ _. on_cache E (Redis.sadd E.redis list_cache_index key) >>= λ _. ret (some page))
                w at_w refl (set_stays D w.cache at_w.shows key s (pos list_cache_ttl))
                (λ w₁ _ at_w₁.
                  gone_then E J S D n (Redis.sadd E.redis list_cache_index key) _
                    (λ _. ret (some page)) w₁ at_w₁ refl
                    (sadd_stays D w₁.cache at_w₁.shows list_cache_index key)
                    (λ w₂ _ at_w₂. ret_step S (some page) w₂ at_w₂))))

      page_selected :
          (w : World E) (i : ℕ)
          → i < n
          → On n t w
          → Reads n t
              (select_page E (pos l) (pos o) i ((nat_to_string (length t) ∷ []) ∷ []))
              w
              (some (page_of t l o))
      unfolding select_page
      page_selected w i within at_w =
          let sql : Bytes = page_sql (pos l) (pos o) in
          let (r, w₁, run, same, at_w₁) =
            query_step S n i w at_w within sql (map cells accounts) (page_sql-NoNul (pos l) (pos o))
              (λ h db used same. S.page h l o db t used same l_max o_max) in
          let filled =
            subst (λ x. Reads n t (fill_page E key (pos (length t)) x) w₁ (some (page_of t l o)))
              (sym same) (page_rows w₁ at_w₁) in
          rw (count_of_count (length t) small) (
            then_step S (on_conn E i (Mysql.query E.mysql sql))
              (λ res. with_result E res (on_rows E res (fill_page E key (pos (length t))))) w w₁ run
              (with_result_step S r (fill_page E key (pos (length t)) (E.mysql.rows r)) w₁ filled))

      pub page_counted :
          (w : World E) (i : ℕ)
          → i < n
          → On n t w
          → Reads n t (count_and_select E (pos l) (pos o) i) w (some (page_of t l o))
      unfolding count_and_select
      page_counted w i within at_w =
          let (r, w₁, run, same, at_w₁) = count_step S n i w at_w within in
          let found =
            subst (λ x. Reads n t (select_page E (pos l) (pos o) i x) w₁ (some (page_of t l o)))
              (sym same) (page_selected w₁ i within at_w₁) in
          then_step S (on_conn E i (Mysql.query E.mysql count_sql))
            (λ res. with_result E res (on_rows E res (select_page E (pos l) (pos o) i))) w w₁ run
            (with_result_step S r (select_page E (pos l) (pos o) i (E.mysql.rows r)) w₁ found)

    total_rows :
        (w : World E)
        → length t ≤ max_int64
        → On n t w
        → Reads n t (fill_total E ((nat_to_string (length t) ∷ []) ∷ [])) w (some (pos (length t)))
    unfolding fill_total
    total_rows w small at_w =
        let s : Bytes = to_string (pos (length t)) in
        rw (count_of_count (length t) small) (
          gone_then E J S D n (Redis.set E.redis total_users_key s (pos stats_cache_ttl)) _
            (λ _. ret (some (pos (length t)))) w at_w refl
            (set_stays D w.cache at_w.shows total_users_key s (pos stats_cache_ttl))
            (λ w' _ at_w'. ret_step S (some (pos (length t))) w' at_w'))

    pub total_counted :
        (w : World E) (i : ℕ)
        → length t ≤ max_int64
        → i < n
        → On n t w
        → Reads n t (count_users E i) w (some (pos (length t)))
    unfolding count_users
    total_counted w i small within at_w =
        let (r, w₁, run, same, at_w₁) = count_step S n i w at_w within in
        let filled =
          subst (λ l. Reads n t (fill_total E l) w₁ (some (pos (length t)))) (sym same)
            (total_rows w₁ small at_w₁) in
        then_step S (on_conn E i (Mysql.query E.mysql count_sql))
          (λ res. with_result E res (on_rows E res (fill_total E))) w w₁ run
          (with_result_step S r (fill_total E (E.mysql.rows r)) w₁ filled)

    pub no_requests :
        (w : World E) (total : ℤ)
        → On n t w
        → Reads n t (with_requests E (some total)) w (some (total, pos 0))
    unfolding with_requests
    no_requests w total at_w =
        get_then E J S D n request_count_key (λ c. ret (some (total, count_or_zero c))) w at_w
          (λ w' _ at_w'. ret_step S (some (total, pos 0)) w' at_w')
