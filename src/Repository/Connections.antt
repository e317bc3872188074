-- ===== src/Repository/Connections.antt =====
-- The calls of a repository and the connections of its pool.
use httpserver_demo.Prelude.{
  ℕ, Bool, true, false, List, [], ◌∷◌, Option, none, some, Bytes, ℤ, pos, ◌≡◌, ◌≢◌, map,
  bind_option,
}
use mathlib.Core.Option
use httpserver_demo.Decimal.{to_string}
use httpserver_demo.Effects.{blocked, or_throw}
use httpserver_demo.Json.{User, user_to_json_string}
use httpserver_demo.Mysql
use httpserver_demo.Mysql.{Row}
use httpserver_demo.Redis
use httpserver_demo.Sql.{insert_sql, select_sql, count_sql, page_sql}
use httpserver_demo.World.{Outside, World, first_some, with_guard}
use httpserver_demo.World.Steady.{
  IsSteady, IsFair, IsFair-of_IsSteady, ret-IsSteady, or_throw-IsSteady, cache_then, conn_then,
  read_then, cache_then-IsFair, >>=-IsSteady, >>=-IsFair, for_each-IsSteady, with_result-IsSteady,
  on_rows-IsSteady, first_some-IsFair, with_guard-IsFair,
}
use httpserver_demo.Repository.{
  del_key, del_keys, invalidate_list_cache, publish, after_insert, create_on, create_user,
  fill_user, select_user, get_user, decode_user, fill_page, select_page, count_and_select,
  list_users, decode_page, fill_total, count_users, with_requests, get_stats, number_of_text,
  list_cache_key, count_of_rows, count_or_zero, user_of_row, new_user, user_key, total_users_key,
  request_count_key, user_cache_ttl, list_cache_ttl, stats_cache_ttl, list_cache_index,
  page_to_json,
}

module _ (E : Outside) where
  del_key-IsSteady : (k : Bytes) → IsSteady (del_key E k)
  del_key-IsSteady k = cache_then (Redis.del E.redis k) _ (λ _. ret-IsSteady tt)

  del_keys-IsSteady : (o : Option (List Bytes)) → IsSteady (del_keys E o)
  del_keys-IsSteady none = ret-IsSteady tt
  del_keys-IsSteady (some ks) = for_each-IsSteady _ ks del_key-IsSteady

  invalidate-IsSteady : IsSteady (invalidate_list_cache E)
  unfolding invalidate_list_cache
  invalidate-IsSteady = cache_then (Redis.smembers E.redis list_cache_index) _ λ o.
      >>=-IsSteady (del_keys E o) _ (del_keys-IsSteady o) (λ _. del_key-IsSteady list_cache_index)

  publish-IsSteady : (u : User) → IsSteady (publish E u)
  unfolding publish
  publish-IsSteady u =
      >>=-IsSteady (or_throw (user_to_json_string E.json u)) _ (or_throw-IsSteady _) λ text.
        cache_then (Redis.set E.redis (user_key u.id) text (pos user_cache_ttl)) _ λ _.
          >>=-IsSteady (invalidate_list_cache E) _ invalidate-IsSteady λ _.
            >>=-IsSteady (del_key E total_users_key) _ (del_key-IsSteady total_users_key)
              (λ _. ret-IsSteady (some u))

  after_insert-IsSteady :
      (done : Bool) (now : ℤ) (name email : Bytes) (i : ℕ)
      → IsSteady (after_insert E done now name email i)
  unfolding after_insert
  after_insert-IsSteady false now name email i = ret-IsSteady none
  after_insert-IsSteady true now name email i =
      read_then i (Mysql.last_insert_id E.mysql) _
        (λ id. publish-IsSteady (new_user id name email now))

  create_on-IsSteady :
      (now : ℤ) (name email : Bytes) (i : ℕ) → IsSteady (create_on E now name email i)
  unfolding create_on
  create_on-IsSteady now name email i = read_then i (Mysql.escape E.mysql name) _ λ q.
      read_then i (Mysql.escape E.mysql email) _ λ e.
        conn_then i (Mysql.execute E.mysql (insert_sql q e now)) _
          λ done. after_insert-IsSteady done now name email i

  fill_user-IsSteady : (id : Bytes) (rows : List Row) → IsSteady (fill_user E id rows)
  unfolding fill_user
  fill_user-IsSteady id [] = ret-IsSteady none
  fill_user-IsSteady id (row ∷ more) =
      >>=-IsSteady (or_throw (user_to_json_string E.json (user_of_row row))) _ (or_throw-IsSteady _)
        λ text.
          cache_then (Redis.set E.redis (user_key id) text (pos user_cache_ttl)) _
            (λ _. ret-IsSteady (some (user_of_row row)))

  select_user-IsSteady : (id : Bytes) (i : ℕ) → IsSteady (select_user E id i)
  unfolding select_user
  select_user-IsSteady id i = read_then i (Mysql.escape E.mysql id) _ λ q.
      conn_then i (Mysql.query E.mysql (select_sql q)) _ λ res.
        with_result-IsSteady res _ (on_rows-IsSteady res (fill_user E id) (fill_user-IsSteady id))

  fill_page-IsSteady :
      (key : Bytes) (total : ℤ) (rows : List Row) → IsSteady (fill_page E key total rows)
  unfolding fill_page
  fill_page-IsSteady key total rows =
      >>=-IsSteady (or_throw (E.json.dump (page_to_json E (map user_of_row rows) total))) _
        (or_throw-IsSteady _)
        λ text. cache_then (Redis.set E.redis key text (pos list_cache_ttl)) _ λ _.
          cache_then (Redis.sadd E.redis list_cache_index key) _
            (λ _. ret-IsSteady (some (map user_of_row rows, total)))

  select_page-IsSteady :
      (limit offset : ℤ) (i : ℕ) (counted : List Row)
      → IsSteady (select_page E limit offset i counted)
  unfolding select_page
  select_page-IsSteady limit offset i counted =
      conn_then i (Mysql.query E.mysql (page_sql limit offset)) _ λ res.
        with_result-IsSteady res _ (
          on_rows-IsSteady res _
            (fill_page-IsSteady (list_cache_key limit offset) (count_of_rows counted)))

  count_and_select-IsSteady :
      (limit offset : ℤ) (i : ℕ) → IsSteady (count_and_select E limit offset i)
  unfolding count_and_select
  count_and_select-IsSteady limit offset i = conn_then i (Mysql.query E.mysql count_sql) _ λ res.
      with_result-IsSteady res _ (on_rows-IsSteady res _ (select_page-IsSteady limit offset i))

  fill_total-IsSteady : (rows : List Row) → IsSteady (fill_total E rows)
  unfolding fill_total
  fill_total-IsSteady rows =
      cache_then
        (Redis.set E.redis total_users_key (to_string (count_of_rows rows)) (pos stats_cache_ttl)) _
        (λ _. ret-IsSteady (some (count_of_rows rows)))

  count_users-IsSteady : (i : ℕ) → IsSteady (count_users E i)
  unfolding count_users
  count_users-IsSteady i =
      conn_then i (Mysql.query E.mysql count_sql) _
        λ res. with_result-IsSteady res _ (on_rows-IsSteady res _ fill_total-IsSteady)

  with_requests-IsSteady : (o : Option ℤ) → IsSteady (with_requests E o)
  unfolding with_requests
  with_requests-IsSteady none = ret-IsSteady none
  with_requests-IsSteady (some total) =
      cache_then (Redis.get E.redis request_count_key) _
        (λ count. ret-IsSteady (some (total, count_or_zero count)))

  pub create_user-IsFair : (now : ℤ) (name email : Bytes) → IsFair (create_user E now name email)
  unfolding create_user
  create_user-IsFair now name email = with_guard-IsFair _ (create_on-IsSteady now name email)

  pub get_user-IsFair : (id : Bytes) → IsFair (get_user E id)
  unfolding get_user
  get_user-IsFair id = cache_then-IsFair (Redis.get E.redis (user_key id)) _ λ cached.
      first_some-IsFair (bind_option cached (decode_user E)) _
        (with_guard-IsFair _ (select_user-IsSteady id))

  pub list_users-IsFair : (limit offset : ℤ) → IsFair (list_users E limit offset)
  unfolding list_users
  list_users-IsFair limit offset =
      cache_then-IsFair (Redis.get E.redis (list_cache_key limit offset)) _ λ cached.
        first_some-IsFair (bind_option cached (decode_page E)) _
          (with_guard-IsFair _ (count_and_select-IsSteady limit offset))

  pub get_stats-IsFair : IsFair (get_stats E)
  unfolding get_stats
  get_stats-IsFair = cache_then-IsFair (Redis.get E.redis total_users_key) _ λ cached.
      >>=-IsFair (first_some E (Option.map number_of_text cached) (with_guard E (count_users E))) _
        (first_some-IsFair (Option.map number_of_text cached) _
          (with_guard-IsFair _ count_users-IsSteady))
        (λ total. IsFair-of_IsSteady _ (with_requests-IsSteady total))

  -- Whatever MySQL, Redis and the JSON library answer, and also where an exception leaves the
  -- call: with an idle connection in the pool none of the four calls waits for ever, and each
  -- leaves the idle connections exactly as it found them.
  pub calls_return_connections :
      (w : World E) (now limit offset : ℤ) (name email id : Bytes)
      → w.pool.idle ≢ []
      → (((create_user E now name email w).1.pool.idle ≡ w.pool.idle)
          × ((create_user E now name email w).0 ≢ blocked))
        × (((get_user E id w).1.pool.idle ≡ w.pool.idle) × ((get_user E id w).0 ≢ blocked))
        × (((list_users E limit offset w).1.pool.idle ≡ w.pool.idle)
            × ((list_users E limit offset w).0 ≢ blocked))
        × (((get_stats E w).1.pool.idle ≡ w.pool.idle) × ((get_stats E w).0 ≢ blocked))
  calls_return_connections w now limit offset name email id p = (
    ((create_user-IsFair now name email).idle w p, (create_user-IsFair now name email).ends w p),
    ((get_user-IsFair id).idle w p, (get_user-IsFair id).ends w p),
    ((list_users-IsFair limit offset).idle w p, (list_users-IsFair limit offset).ends w p),
    (get_stats-IsFair.idle w p, get_stats-IsFair.ends w p),
  )
