-- ===== src/Mysql/Pool/Opening.antt =====
-- The initialisation of the pool of src/store/mysql_pool.cpp makes the table where there is none,
-- and leaves its rows alone.
pub mod Handles
use mathlib.Core.Bool.{false≢true}
use httpserver_demo.Prelude.{
  false, Bool, ◌∷◌, codes, All, All-append, subst, ap, ◌<◌, ℕ, zero, suc, true, [], Option, none,
  some, arith, Bytes, c_str, ℤ, if◌then◌else◌, is_empty, Bool-cases, Option-cases, ◌≡◌, refl, sym,
  ◌∙◌, inl, inr,
}
use httpserver_demo.Mysql.{
  MysqlConfig, MysqlApi, MysqlConn, fresh_conn, close, connect, log_in, execute, is_connected,
}
use httpserver_demo.Mysql.Answers.{handle_of_connected}
use httpserver_demo.Mysql.Pool.{
  MysqlPool, fresh_pool, rounds, create_database, make_table, keep, fill, init, create_table_sql,
  create_database_sql,
}
use httpserver_demo.Mysql.Pool.Init.{connect-is_connected, create_database-keeps}
use httpserver_demo.Mysql.Server.{Table, IsMysql, Keeps, Live, Live-Keeps}

-- The rows of a table that is made where there is none.
abbrev pub rows_or_empty : Option Table → Table
rows_or_empty none = []
rows_or_empty (some t) = t

-- What the documentation of MySQL says of the calls that open and close a connection, and of the
-- statements that make a database or a table where there is none.
pub record Opens (M : MysqlApi) (S : IsMysql M) : Type 0 where
  pub init-view : (db : M.Db) → S.view (M.init db).1 ≡ S.view db
  pub real_connect-view :
      (h : M.Handle) (host user password : Bytes) (name : Option Bytes) (port : ℤ) (db : M.Db)
      → S.view (M.real_connect h host user password name port db).1 ≡ S.view db
  pub set_character_set-view :
      (h : M.Handle) (name : Bytes) (db : M.Db) → S.view (M.set_character_set h name db) ≡ S.view db
  pub close-view : (h : M.Handle) (db : M.Db) → S.view (M.close h db) ≡ S.view db
  pub create_database-view :
      (h : M.Handle) (name : Bytes) (db : M.Db)
      → S.view (M.query (some h) (c_str (create_database_sql name)) db).1 ≡ S.view db
  -- where the statement succeeds there is a table, with the rows of before
  pub create_table-view :
      (h : M.Handle) (db : M.Db)
      → let out = M.query (some h) (c_str create_table_sql) db in
        out.0 ≡ true → S.view out.1 ≡ some (rows_or_empty (S.view db))
  -- the name of the database that has the table
  pub database : Bytes
  pub real_connect-Uses :
      (h : M.Handle) (host user password : Bytes) (port : ℤ) (db : M.Db)
      → let out = M.real_connect h host user password (some database) port db in
        out.0 ≡ true → S.Uses h out.1
  pub init-Keeps : (db : M.Db) → Keeps S.Uses db (M.init db).1
  pub real_connect-Keeps :
      (h : M.Handle) (host user password : Bytes) (name : Option Bytes) (port : ℤ) (db : M.Db)
      → Keeps S.Uses db (M.real_connect h host user password name port db).1
  pub set_character_set-Keeps :
      (h : M.Handle) (name : Bytes) (db : M.Db) → Keeps S.Uses db (M.set_character_set h name db)
  pub create_table-Keeps :
      (h : M.Handle) (db : M.Db) → Keeps S.Uses db (M.query (some h) (c_str create_table_sql) db).1

module _ (M : MysqlApi) (S : IsMysql M) (O : Opens M S) where
  close_lem : (c : MysqlConn M) (db : M.Db) → S.view (close M c db).1 ≡ S.view db
  unfolding close
  close_lem c db = elim (Option-cases c.mysql) [
    | inl e ↦ rw e refl
    | inr (h, e) ↦ rw e (O.close-view h db)
  ]

  log_in_lem :
      (cfg : MysqlConfig) (h : M.Handle) (db : M.Db) → S.view (log_in M cfg h db).2 ≡ S.view db
  unfolding log_in
  log_in_lem cfg h db =
      let name = if is_empty cfg.database then none else some (c_str cfg.database) in
      let (done, db₁) =
        M.real_connect h (c_str cfg.host) (c_str cfg.user) (c_str cfg.password) name cfg.port db in
      let opened : S.view db₁ ≡ S.view db = O.real_connect-view h _ _ _ name _ db in
      elim (Bool-cases done) [
        | inl e ↦ rw e (O.set_character_set-view h _ db₁ ∙ opened)
        | inr e ↦
            rw e (close_lem (record { mysql = some h; err = M.error (some h) db₁ }) db₁ ∙ opened)
      ]

  connect_lem :
      (cfg : MysqlConfig) (c : MysqlConn M) (db : M.Db) → S.view (connect M cfg c db).2 ≡ S.view db
  unfolding connect
  connect_lem cfg c db =
      let opened = O.init-view (close M c db).1 ∙ close_lem c db in
      elim (Option-cases (M.init (close M c db).1).0) [
        | inl e ↦ rw (e, connect) opened
        | inr (h, e) ↦ rw (e, connect) (log_in_lem cfg h _ ∙ opened)
      ]

  -- A statement that changes no row, on a connection that is connected.
  Quiet : Bytes → Type 0
  Quiet sql = (h : M.Handle) (db : M.Db) → S.view (M.query (some h) (c_str sql) db).1 ≡ S.view db

  execute_lem :
      (sql : Bytes) (c : MysqlConn M) (db : M.Db)
      → Quiet sql
      → is_connected M c ≡ true
      → S.view (execute M sql c db).2 ≡ S.view db
  unfolding execute Quiet
  execute_lem sql c db quiet up = let (h, held) = handle_of_connected c up in rw held (quiet h db)

  create_database_lem :
      (p : MysqlPool M) (db : M.Db) → S.view (create_database M p db).2 ≡ S.view db
  unfolding create_database Quiet
  create_database_lem p db =
      let cfg = record p.cfg { database = [] } in
      let out = connect M cfg (fresh_conn M) db in
      let sql = create_database_sql p.cfg.database in
      elim (Bool-cases out.0) [
        | inl e ↦ rw e (
            close_lem (execute M sql out.1 out.2).1 (execute M sql out.1 out.2).2
            ∙ execute_lem sql out.1 out.2 (λ h db. O.create_database-view h p.cfg.database db)
                (sym (connect-is_connected M cfg (fresh_conn M) db) ∙ e)
            ∙ connect_lem cfg (fresh_conn M) db)
        | inr e ↦ rw e (close_lem out.1 out.2 ∙ connect_lem cfg (fresh_conn M) db)
      ]

  -- The first connection makes the table.
  make_table_first :
      (c : MysqlConn M) (db : M.Db)
      → is_connected M c ≡ true
      → (make_table M 0 c db).0 ≡ true
      → S.view (make_table M 0 c db).2 ≡ some (rows_or_empty (S.view db))
  unfolding make_table execute
  make_table_first c db up done =
      let (h, held) = handle_of_connected c up in
      elim (Bool-cases (M.query (some h) (c_str create_table_sql) db).0) [
        | inl e ↦ rw held (O.create_table-view h db e)
        | inr e ↦ absurd (false≢true (rw (held, e) at done))
      ]

  pub make_table_later :
      (i : ℕ) (c : MysqlConn M) (db : M.Db) → make_table M (suc i) c db ≡ (true, c, db)
  unfolding make_table
  make_table_later i c db = ground arith

  fill_later :
      (n i : ℕ) (p : MysqlPool M) (db : M.Db) → S.view (fill M n (suc i) p db).2 ≡ S.view db
  unfolding fill
  fill_later zero i p db = refl
  fill_later (suc n) i p db =
      let (up, c, db₁) = connect M p.cfg (fresh_conn M) db in
      let opened : S.view db₁ ≡ S.view db = connect_lem p.cfg (fresh_conn M) db in
      elim (Bool-cases up) [
        | inr e ↦ rw e (close_lem c db₁ ∙ opened)
        | inl e ↦ rw (e, make_table_later i c db₁) (fill_later n (suc i) (keep M c p) db₁ ∙ opened)
      ]

  fill_from_first :
      (n : ℕ) (p : MysqlPool M) (db : M.Db)
      → (fill M (suc n) 0 p db).0 ≡ true
      → S.view (fill M (suc n) 0 p db).2 ≡ some (rows_or_empty (S.view db))
  unfolding fill
  fill_from_first n p db done =
      let (up, c, db₁) = connect M p.cfg (fresh_conn M) db in
      let (made, c', db₂) = make_table M 0 c db₁ in
      let opened : S.view db₁ ≡ S.view db = connect_lem p.cfg (fresh_conn M) db in
      elim (Bool-cases up) [
        | inr e ↦ absurd (false≢true (rw e at done))
        | inl e ↦ elim (Bool-cases made) [
          | inr f ↦ absurd (false≢true (rw (e, f) at done))
          | inl f ↦
              let held = sym (connect-is_connected M p.cfg (fresh_conn M) db) ∙ e in
              rw (e, f)
                (fill_later n 0 (keep M c' p) db₂
                  ∙ make_table_first c db₁ held f
                  ∙ ap (λ x. some (rows_or_empty x)) opened)
        ]
      ]

  fill_table :
      (n : ℕ) (p : MysqlPool M) (db : M.Db)
      → 0 < n
      → (fill M n 0 p db).0 ≡ true
      → S.view (fill M n 0 p db).2 ≡ some (rows_or_empty (S.view db))
  fill_table zero p db size done = absurd (omega arith)
  fill_table (suc n) p db size done = fill_from_first n p db done

  -- With a positive size, an initialisation that reports success leaves a table, with the rows of
  -- before.
  pub init_lem :
      (cfg : MysqlConfig) (p : MysqlPool M) (db : M.Db)
      → 0 < rounds cfg.pool_size
      → (init M cfg p db).0 ≡ true
      → S.view (init M cfg p db).2 ≡ some (rows_or_empty (S.view db))
  unfolding init
  init_lem cfg p db size done =
      let (made, p₁, db₁) = create_database M (record p { cfg = cfg }) db in
      let kept : S.view db₁ ≡ S.view db = create_database_lem (record p { cfg = cfg }) db in
      elim (Bool-cases made) [
        | inr e ↦ absurd (false≢true (rw e at done))
        | inl e ↦ rw e (
            fill_table (rounds cfg.pool_size) p₁ db₁ size (rw e at done)
            ∙ ap (λ x. some (rows_or_empty x)) kept)
      ]
