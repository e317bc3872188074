-- ===== src/Mysql/Answers.antt =====
-- The methods of a connection where the client library gives these answers.
use mathlib.Core.Bool.{false≢true}
use httpserver_demo.Prelude.{
  true, false, some, arith, Bytes, c_str_of_NoNul, NoNul, ◌≡◌, refl, Option-cases, inl, inr,
}
use httpserver_demo.Mysql.{MysqlApi, MysqlConn, is_connected, execute, query, escape}

module _ {api : MysqlApi} where
  pub handle_of_connected :
      (c : MysqlConn api) → is_connected api c ≡ true → (h : api.Handle) × (c.mysql ≡ some h)
  handle_of_connected c up = elim (Option-cases c.mysql) [
    | inl e ↦ absurd (false≢true (rw e at up))
    | inr (h, e) ↦ (h, e)
  ]

  module _ (h : api.Handle) (c : MysqlConn api) (db : api.Db) (held : c.mysql ≡ some h) where
    pub query_answered :
        (sql : Bytes) (r : api.Result)
        → NoNul sql
        → (api.query (some h) sql db).0 ≡ true
        → (api.store_result (some h) (api.query (some h) sql db).1).0 ≡ some r
        → query api sql c db
          ≡ (some r, c, (api.store_result (some h) (api.query (some h) sql db).1).1)
    unfolding query
    query_answered sql r plain done stored =
        rw (c_str_of_NoNul sql plain) (rw held (rw done (rw stored refl)))

    pub execute_done :
        (sql : Bytes)
        → NoNul sql
        → (api.query (some h) sql db).0 ≡ true
        → execute api sql c db ≡ (true, c, (api.query (some h) sql db).1)
    unfolding execute
    execute_done sql plain done = ground (arith, c_str_of_NoNul sql plain)

    pub execute_refused :
        (sql : Bytes)
        → NoNul sql
        → (api.query (some h) sql db).0 ≡ false
        → (c' : MysqlConn api) × (c'.mysql ≡ c.mysql)
          × (execute api sql c db ≡ (false, c', (api.query (some h) sql db).1))
    unfolding execute
    execute_refused sql plain done = (
      record c { err = api.error c.mysql (api.query (some h) sql db).1 },
      refl,
      ground (arith, c_str_of_NoNul sql plain),
    )

    pub escape_plain :
        (s : Bytes)
        → NoNul (api.real_escape_string (some h) s db)
        → escape api s c db ≡ api.real_escape_string (some h) s db
    unfolding escape
    escape_plain s plain = rw held (c_str_of_NoNul _ plain)
