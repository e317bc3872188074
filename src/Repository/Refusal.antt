-- ===== src/Repository/Refusal.antt =====
-- The calls of src/store/user_repository.cpp while MySQL executes no statement.
use mathlib.Core.Option
use httpserver_demo.Prelude.{
  ℕ, false, List, ◌∷◌, Option, none, some, arith, Bytes, c_str, c_str_of_NoNul, NoNul, ℤ, get_or,
  bind_option, ◌≡◌, refl, ap, ◌∙◌,
}
use httpserver_demo.Effects.{returned, ret, ◌>>=◌, then_ends}
use httpserver_demo.Redis
use httpserver_demo.Redis.Server.{View, IsRedis, Shows, text_of}
use httpserver_demo.Redis.Commands.{get-Shows}
use httpserver_demo.Mysql
use httpserver_demo.Mysql.{MysqlApi, fresh_conn}
use httpserver_demo.Mysql.Pool.{acquire}
use httpserver_demo.Sql.{insert_sql, select_sql, count_sql}
use httpserver_demo.World.{
  Outside, World, Call, on_cache, on_conn, on_rows, with_result, with_guard, first_some, end_guard,
}
use httpserver_demo.Repository.{
  user_key, list_cache_key, total_users_key, request_count_key, number_of_text, count_or_zero,
  decode_user, decode_page, select_user, count_and_select, count_users, create_on, after_insert,
  with_requests, get_user, list_users, get_stats, create_user,
}
use httpserver_demo.Repository.Keys.{user_key-NoNul, list_cache_key-NoNul}

-- `mysql_query` fails for every statement, on every connection.
abbrev pub Refuses : MysqlApi → Type 0
Refuses M = (h : Option M.Handle) (sql : Bytes) (db : M.Db) → (M.query h sql db).0 ≡ false

-- The statistics by the total, which may not be cached.
abbrev pub stats_by : Option Bytes → Option Bytes → Option (ℤ × ℤ)
stats_by none requests = none
stats_by (some total) requests = some (number_of_text total, count_or_zero requests)

module _ (E : Outside) where
  abbrev Gives : {A : Type 0} → Call E A → World E → A → Type 0
  Gives m w a = (m w).0 ≡ returned a

  then_gives :
      {A B : Type 0} (m : Call E A) (f : A → Call E B) (w : World E) (a : A) (b : B)
      → Gives m w a
      → Gives (f a) (m w).1 b
      → Gives (m >>= f) w b
  then_gives m f w a b e h = ap (λ out. out.0) (then_ends m f w a e) ∙ h

  guard_gives :
      {A : Type 0} (body : ℕ → Call E A) (w : World E) (i : ℕ) (rest : List ℕ) (a : A)
      → w.pool.idle ≡ i ∷ rest
      → ((w : World E) → Gives (body i) w a)
      → Gives (with_guard E body) w a
  unfolding with_guard acquire
  guard_gives body w i rest a top h =
      let inside : World E = record w { pool = record w.pool { idle = rest } } in
      rw top (ap (λ o. (end_guard E i (o, (body i inside).1)).0) (h inside))

  module _ (down : Refuses E.mysql) where
    query_fails :
        (i : ℕ) (sql : Bytes) (w : World E) → Gives (on_conn E i (Mysql.query E.mysql sql)) w none
    unfolding Mysql.query
    query_fails i sql w =
        rw (down (get_or w.pool.conns i (fresh_conn E.mysql)).mysql (c_str sql) w.db) refl

    execute_fails :
        (i : ℕ) (sql : Bytes) (w : World E)
        → Gives (on_conn E i (Mysql.execute E.mysql sql)) w false
    unfolding Mysql.execute
    execute_fails i sql w = ap returned (down _ _ w.db)

    select_fails :
        {A : Type 0} (i : ℕ) (sql : Bytes) (f : List _ → Call E (Option A)) (w : World E)
        → Gives
            (on_conn E i (Mysql.query E.mysql sql) >>= λ res. with_result E res (on_rows E res f))
            w
            none
    unfolding with_result
    select_fails i sql f w =
        then_gives (on_conn E i (Mysql.query E.mysql sql))
          (λ res. with_result E res (on_rows E res f)) w none none (query_fails i sql w) refl

    user_fails : (id : Bytes) (i : ℕ) (w : World E) → Gives (select_user E id i) w none
    unfolding select_user
    user_fails id i w = select_fails i (select_sql _) _ w

    create_fails :
        (now : ℤ) (name email : Bytes) (i : ℕ) (w : World E)
        → Gives (create_on E now name email i) w none
    unfolding create_on after_insert
    create_fails now name email i w =
        then_gives (on_conn E i (Mysql.execute E.mysql (insert_sql _ _ now)))
          (λ done. after_insert E done now name email i) w false none (execute_fails i _ w) refl

    first_gives :
        {A : Type 0} (o : Option A) (body : ℕ → Call E (Option A)) (w : World E) (i : ℕ)
        (rest : List ℕ)
        → w.pool.idle ≡ i ∷ rest
        → ((w : World E) → Gives (body i) w none)
        → Gives (first_some E o (with_guard E body)) w o
    first_gives none body w i rest top h = guard_gives body w i rest none top h
    first_gives (some a) body w i rest top h = refl

    module _ (R : IsRedis E.redis) (v : View) (i : ℕ) (rest : List ℕ) where
      got :
          (k : Bytes) (w : World E)
          → NoNul k
          → Shows R w.cache v
          → Gives (on_cache E (Redis.get E.redis k)) w (text_of (v k))
            × Shows R (on_cache E (Redis.get E.redis k) w).1.cache v
      got k w plain shows =
          let (out, after) = get-Shows R k w.cache shows in
          (ap returned (out ∙ ap (λ x. text_of (v x)) (c_str_of_NoNul k plain)), after)

      get_user-gives :
          (w : World E) (id : Bytes)
          → Shows R w.cache v
          → w.pool.idle ≡ i ∷ rest
          → NoNul id
          → Gives (get_user E id) w (bind_option (text_of (v (user_key id))) (decode_user E))
      unfolding get_user
      get_user-gives w id shows top plain =
          then_gives (on_cache E (Redis.get E.redis (user_key id)))
            (λ cached.
              first_some E (bind_option cached (decode_user E)) (with_guard E (select_user E id)))
            w (text_of (v (user_key id))) _ (got (user_key id) w (user_key-NoNul id plain) shows).0
            (first_gives (bind_option (text_of (v (user_key id))) (decode_user E))
              (select_user E id) _ i rest top (user_fails id i))

      list_users-gives :
          (w : World E) (limit offset : ℤ)
          → Shows R w.cache v
          → w.pool.idle ≡ i ∷ rest
          → Gives
              (list_users E limit offset)
              w
              (bind_option (text_of (v (list_cache_key limit offset))) (decode_page E))
      unfolding list_users count_and_select
      list_users-gives w limit offset shows top =
          let key : Bytes = list_cache_key limit offset in
          then_gives (on_cache E (Redis.get E.redis key))
            (λ cached.
              first_some E (bind_option cached (decode_page E))
                (with_guard E (count_and_select E limit offset)))
            w (text_of (v key)) _ (got key w (list_cache_key-NoNul limit offset) shows).0
            (first_gives (bind_option (text_of (v key)) (decode_page E))
              (count_and_select E limit offset) _ i rest top (λ w. select_fails i count_sql _ w))

      requests_give :
          (total : Option Bytes) (w : World E)
          → Shows R w.cache v
          → w.pool.idle ≡ i ∷ rest
          → Gives
              (first_some E (Option.map number_of_text total) (with_guard E (count_users E))
                >>= with_requests E)
              w
              (stats_by total (text_of (v request_count_key)))
      unfolding with_requests count_users
      requests_give none w shows top =
          then_gives (with_guard E (count_users E)) (with_requests E) w none none
            (guard_gives (count_users E) w i rest none top (λ w. select_fails i count_sql _ w)) refl
      requests_give (some total) w shows top =
          then_gives (on_cache E (Redis.get E.redis request_count_key))
            (λ count. ret (some (number_of_text total, count_or_zero count))) w
            (text_of (v request_count_key)) _ (got request_count_key w (omega arith) shows).0 refl

      get_stats-gives :
          (w : World E)
          → Shows R w.cache v
          → w.pool.idle ≡ i ∷ rest
          → Gives
              (get_stats E)
              w
              (stats_by (text_of (v total_users_key)) (text_of (v request_count_key)))
      unfolding get_stats
      get_stats-gives w shows top =
          let (first, after) = got total_users_key w (omega arith) shows in
          then_gives (on_cache E (Redis.get E.redis total_users_key))
            (λ cached.
              first_some E (Option.map number_of_text cached) (with_guard E (count_users E))
              >>= with_requests E)
            w (text_of (v total_users_key)) _ first
            (requests_give (text_of (v total_users_key)) _ after top)

  -- While MySQL executes no statement, and Redis answers and shows `v`, and a connection is idle:
  -- `GetUser` and `ListUsers` return what is in the cache under their key, if it can be read, and else
  -- none, and `GetStats` none unless the total is cached; `CreateUser` returns none. None of them
  -- throws or waits for ever. So a `GetUser` that cannot ask MySQL returns what it returns for an id
  -- that no user has.
  pub calls_of_refusal :
      (down : Refuses E.mysql) (R : IsRedis E.redis) (v : View) (w : World E) (i : ℕ)
      (rest : List ℕ) (id name email : Bytes) (limit offset now : ℤ)
      → Shows R w.cache v
      → w.pool.idle ≡ i ∷ rest
      → NoNul id
      → ((get_user E id w).0 ≡ returned (bind_option (text_of (v (user_key id))) (decode_user E)))
        × ((list_users E limit offset w).0
            ≡ returned (bind_option (text_of (v (list_cache_key limit offset))) (decode_page E)))
        × ((get_stats E w).0
            ≡ returned (stats_by (text_of (v total_users_key)) (text_of (v request_count_key))))
        × ((create_user E now name email w).0 ≡ returned none)
  unfolding create_user
  calls_of_refusal down R v w i rest id name email limit offset now shows top plain = (
    get_user-gives down R v i rest w id shows top plain,
    list_users-gives down R v i rest w limit offset shows top,
    get_stats-gives down R v i rest w shows top,
    guard_gives (create_on E now name email) w i rest none top (create_fails down now name email i),
  )
