-- ===== src/Repository/Counts.antt =====
-- The count of the rows, which `ListUsers` and `GetStats` of src/store/user_repository.cpp ask for.
use httpserver_demo.Prelude.{
  ℕ, ◌<◌, ◌≤◌, [], ◌∷◌, some, arith, pos, length, max_int64, ◌≡◌, ◌∙◌, ap, c_str_of_NoNul,
}
use httpserver_demo.Decimal.{nat_to_string, to_string, strtoll}
use httpserver_demo.Decimal.RoundTrip.{strtoll-to_string}
use httpserver_demo.Effects.{returned}
use httpserver_demo.Redis.{RedisClient}
use httpserver_demo.Mysql
use httpserver_demo.Mysql.Server.{Table, IsMysql}
use httpserver_demo.Sql.{count_sql}
use httpserver_demo.World.{Outside, World, on_conn}
use httpserver_demo.Repository.{count_of_rows}
use httpserver_demo.Repository.Keys.{nat_to_string-NoNul}
use httpserver_demo.Repository.Steps.{Ready}
use httpserver_demo.Repository.Statements.{query_step}

-- What the server answers to the count is read as the number of rows.
pub count_of_count : (n : ℕ) → n ≤ max_int64 → count_of_rows ((nat_to_string n ∷ []) ∷ []) ≡ pos n
unfolding count_of_rows to_string
count_of_count n h =
    let back : strtoll (to_string (pos n)) ≡ pos n = strtoll-to_string (pos n) h in
    ap strtoll (c_str_of_NoNul (nat_to_string n) (nat_to_string-NoNul n)) ∙ back

module _ {E : Outside} (S : IsMysql E.mysql) where
  -- `mysql_query` and the rows of the count, on an idle connection's scope.
  pub count_step :
      (n i : ℕ) (w : World E) {C : RedisClient E.redis → Type 0} {t : Table}
      → Ready S C n w t
      → i < n
      → (r : E.mysql.Result) × (w' : World E) × (on_conn E i (Mysql.query E.mysql count_sql) w
          ≡ (returned (some r), w'))
        × (E.mysql.rows r ≡ (nat_to_string (length t) ∷ []) ∷ [])
        × Ready S C n w' t
  count_step n i w {t = t} at_w within =
      query_step S n i w at_w within count_sql ((nat_to_string (length t) ∷ []) ∷ []) (omega arith)
        (λ h db used same. S.count h db t used same)
