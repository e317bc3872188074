-- ===== src/Repository/Statements.antt =====
-- The steps of the repository's statements on a connection, on a MySQL server that answers.
use httpserver_demo.Prelude.{
  ℕ, ◌<◌, IsInt64, true, false, List, [], ◌∷◌, ◌++◌, some, Bytes, ℤ, NoNul, All, All-set,
  All-get_or, length-set, get_or, set, get_or-set_self, ◌≡◌, refl, sym, ap, ◌∙◌, subst, ◌⊎◌, inl,
  inr,
}
use httpserver_demo.Effects.{returned}
use httpserver_demo.Redis.{RedisClient}
use httpserver_demo.Mysql
use httpserver_demo.Mysql.{MysqlConn, is_connected, fresh_conn, Row}
use httpserver_demo.Mysql.Server.{Table, Answers, IsMysql, RowRefused, Keeps, Live, Live-Keeps}
use httpserver_demo.Mysql.Answers.{query_answered, execute_done, execute_refused, escape_plain}
use httpserver_demo.Sql.{insert_sql}
use httpserver_demo.World.{Outside, World, on_conn, read_conn}
use httpserver_demo.Repository.Steps.{Ready}

module _ {E : Outside} (S : IsMysql E.mysql) where
  module _ (n i : ℕ) (w : World E) {C : RedisClient E.redis → Type 0} {t : Table}
      (at_w : Ready S C n w t) (within : i < n) where
    abbrev conn : MysqlConn E.mysql
    conn = get_or w.pool.conns i (fresh_conn E.mysql)

    handle : Live S w.db conn
    handle =
        All-get_or (Live S w.db) w.pool.conns i (fresh_conn E.mysql) at_w.connected
          (subst (λ k. i < k) (sym at_w.size) within)

    abbrev with_conn : MysqlConn E.mysql → E.mysql.Db → World E
    with_conn c db = record w { pool = record w.pool { conns = set w.pool.conns i c }; db = db }

    conn_run :
        {A : Type 0} (f : MysqlConn E.mysql → E.mysql.Db → A × MysqlConn E.mysql × E.mysql.Db)
        (a : A) (c : MysqlConn E.mysql) (db : E.mysql.Db)
        → f conn w.db ≡ (a, c, db)
        → on_conn E i f w ≡ (returned a, with_conn c db)
    conn_run f a c db = ap (λ out. (returned out.0, with_conn out.1 out.2))

    conn_At :
        (c : MysqlConn E.mysql) (db : E.mysql.Db) {t' : Table}
        → Keeps S.Uses w.db db
        → c.mysql ≡ conn.mysql
        → S.view db ≡ some t'
        → Ready S C n (with_conn c db) t'
    conn_At c db keeps same table = record {
      shows = at_w.shows;
      table = table;
      connected =
          let (h, held, used) = handle in
          All-set (Live S db) w.pool.conns i c
            (Live-Keeps S w.db db w.pool.conns keeps at_w.connected) (h, same ∙ held, keeps h used);
      size = length-set w.pool.conns i c ∙ at_w.size;
    }

    -- A literal that denotes the text, with no NUL in it.
    pub escape_step :
        (s : Bytes)
        → (q : Bytes) × (read_conn E i (Mysql.escape E.mysql s) w ≡ (returned q, w))
          × (S.literal q ≡ some s)
          × NoNul q
    escape_step s =
        let (h, held, used) = handle in
        let plain = S.escape-NoNul h s w.db in
        (
          E.mysql.real_escape_string (some h) s w.db,
          ap (λ q. (returned q, w)) (escape_plain h conn w.db held s plain),
          S.literal-escape h s w.db,
          plain,
        )

    -- A statement that the server answers.
    pub query_step :
        (sql : Bytes) (rows : List Row)
        → NoNul sql
        → ((h : E.mysql.Handle) (db : E.mysql.Db)
            → S.Uses h db
            → S.view db ≡ some t
            → Answers E.mysql S.view S.Uses h sql db rows)
        → (r : E.mysql.Result) × (w' : World E) × (on_conn E i (Mysql.query E.mysql sql) w
            ≡ (returned (some r), w'))
          × (E.mysql.rows r ≡ rows)
          × Ready S C n w' t
    query_step sql rows plain answers =
        let (h, held, used) = handle in
        let (r, done, stored, same, kept, keeps) = answers h w.db used at_w.table in
        let db = (E.mysql.store_result (some h) (E.mysql.query (some h) sql w.db).1).1 in
        (
          r,
          with_conn conn db,
          conn_run (Mysql.query E.mysql sql) (some r) conn db
              (query_answered h conn w.db held sql r plain done stored),
          same,
          conn_At conn db keeps refl (kept ∙ at_w.table),
        )

    -- The id that the last insertion gave, where the connection was put back as it was.
    insert_id_step :
        (h : E.mysql.Handle) (db : E.mysql.Db)
        → conn.mysql ≡ some h
        → read_conn E i (Mysql.last_insert_id E.mysql) (with_conn conn db)
          ≡ (returned (E.mysql.insert_id (some h) db), with_conn conn db)
    insert_id_step h db held =
        ap (λ (c : MysqlConn E.mysql). (returned (E.mysql.insert_id c.mysql db), with_conn conn db))
          (get_or-set_self w.pool.conns i conn (fresh_conn E.mysql)
            (subst (λ k. i < k) (sym at_w.size) within))
        ∙ ap (λ m. (returned (E.mysql.insert_id m db), with_conn conn db)) held

    pub insert_step :
        (q e name email : Bytes) (now : ℤ)
        → S.literal q ≡ some name
        → S.literal e ≡ some email
        → IsInt64 now
        → NoNul (insert_sql q e now)
        → ((w' : World E) × (on_conn E i (Mysql.execute E.mysql (insert_sql q e now)) w
              ≡ (returned false, w'))
            × Ready S C n w' t
            × RowRefused S w.db w'.db name email now)
          ⊎ ((id : ℕ) × (w' : World E) × (on_conn E i (Mysql.execute E.mysql (insert_sql q e now)) w
                ≡ (returned true, w'))
              × (read_conn E i (Mysql.last_insert_id E.mysql) w' ≡ (returned id, w'))
              × All (λ a. a.id < id) t
              × Ready S C n w'
                  (t ++ record { id = id; name = name; email = email; created_at = now } ∷ []))
    insert_step q e name email now hq he in_range plain =
        let (h, held, used) = handle in
        let sql = insert_sql q e now in
        let db = (E.mysql.query (some h) sql w.db).1 in
        let id = E.mysql.insert_id (some h) db in
        let (keeps, outcome) =
          S.insert h q e name email now w.db t used at_w.table hq he in_range in
        elim outcome [
          | inl (refused, same) ↦
              let (c, kept, out) = execute_refused h conn w.db held sql plain refused in
              inl (
                with_conn c db,
                conn_run (Mysql.execute E.mysql sql) false c db out,
                conn_At c db keeps kept same,
                (h, q, e, hq, he, ap (λ b. (b, db)) refused),
              )
          | inr (done, fresh, grown) ↦ inr (
            id,
            with_conn conn db,
            conn_run (Mysql.execute E.mysql sql) true conn db
                (execute_done h conn w.db held sql plain done),
            insert_id_step h db held,
            fresh,
            conn_At conn db keeps refl grown,
          )
        ]
