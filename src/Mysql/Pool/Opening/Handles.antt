-- ===== src/Mysql/Pool/Opening/Handles.antt =====
-- The connections that the initialisation of the pool of src/store/mysql_pool.cpp leaves are logged in
-- with the database of the settings.
use mathlib.Core.Bool.{false≢true}
use httpserver_demo.Prelude.{
  false, Bool, ◌∷◌, codes, All, All-append, subst, ap, ℕ, zero, suc, true, [], Option, none, some,
  Bytes, c_str, if◌then◌else◌, is_empty, Bool-cases, Option-cases, ◌≡◌, refl, sym, ◌∙◌, inl, inr,
}
use httpserver_demo.Mysql.{
  MysqlConfig, MysqlApi, MysqlConn, fresh_conn, close, connect, log_in, execute,
}
use httpserver_demo.Mysql.Pool.{
  MysqlPool, fresh_pool, rounds, create_database, make_table, keep, fill, init, create_table_sql,
}
use httpserver_demo.Mysql.Pool.Init.{create_database-keeps}
use httpserver_demo.Mysql.Server.{IsMysql, Keeps, Live, Live-Keeps}
use httpserver_demo.Mysql.Pool.Opening.{Opens, make_table_later}

module _ (M : MysqlApi) (S : IsMysql M) (O : Opens M S) where
  -- The settings name the database that has the table.
  abbrev pub Names : MysqlConfig → Type 0
  Names cfg = (is_empty cfg.database ≡ false) × (c_str cfg.database ≡ O.database)

  log_in-Live :
      (cfg : MysqlConfig) (h : M.Handle) (db : M.Db)
      → Names cfg
      → (log_in M cfg h db).0 ≡ true
      → Live S (log_in M cfg h db).2 (log_in M cfg h db).1 × Keeps S.Uses db (log_in M cfg h db).2
  unfolding log_in
  log_in-Live cfg h db (named, same) up =
      let name : Option Bytes = if is_empty cfg.database then none else some (c_str cfg.database) in
      let is : name ≡ some O.database = rw named (ap some same) in
      let host = c_str cfg.host in
      let user = c_str cfg.user in
      let password = c_str cfg.password in
      let out : Option Bytes → Bool × M.Db =
        λ n. M.real_connect h host user password n cfg.port db in
      let later = O.set_character_set-Keeps h (codes "utf8mb4") (out name).1 in
      let kept = O.real_connect-Keeps h host user password name cfg.port db in
      elim (Bool-cases (out name).0) [
        | inr e ↦ absurd (false≢true (rw e at up))
        | inl e ↦
            let used =
              subst (λ n. (out n).0 ≡ true → S.Uses h (out n).1) (sym is)
                (O.real_connect-Uses h host user password cfg.port db) e in
            rw e ((h, refl, later h used), λ k u. later k (kept k u))
      ]

  connect-Live :
      (cfg : MysqlConfig) (db : M.Db)
      → Names cfg
      → let out = connect M cfg (fresh_conn M) db in
        out.0 ≡ true → Live S out.2 out.1 × Keeps S.Uses db out.2
  unfolding connect close
  connect-Live cfg db named up = elim (Option-cases (M.init db).0) [
    | inl e ↦ absurd (false≢true (rw (e, connect) at up))
    | inr (h, e) ↦
        let (live, kept) = log_in-Live cfg h (M.init db).1 named (rw (e, connect) at up) in
        rw (e, connect) (live, λ k u. kept k (O.init-Keeps db k u))
  ]

  make_table-Keeps :
      (i : ℕ) (c : MysqlConn M) (db : M.Db)
      → Live S db c
      → let out = make_table M i c db in
        out.0 ≡ true → (out.1.mysql ≡ c.mysql) × Keeps S.Uses db out.2
  unfolding make_table execute
  make_table-Keeps zero c db (h, held, used) done = (
    rw done refl,
    subst (λ m. Keeps S.Uses db (M.query m (c_str create_table_sql) db).1) (sym held)
        (O.create_table-Keeps h db),
  )
  make_table-Keeps (suc i) c db live done = rw (make_table_later M S O i c db) (refl, λ k u. u)

  fill-Live :
      (n i : ℕ) (p : MysqlPool M) (db : M.Db)
      → Names p.cfg
      → All (Live S db) p.conns
      → let out = fill M n i p db in out.0 ≡ true → All (Live S out.2) out.1.conns
  unfolding fill keep
  fill-Live zero i p db named live done = live
  fill-Live (suc n) i p db named live done =
      let (up, c, db₁) = connect M p.cfg (fresh_conn M) db in
      let (made, c', db₂) = make_table M i c db₁ in
      elim (Bool-cases up) [
        | inr e ↦ absurd (false≢true (rw e at done))
        | inl e ↦ elim (Bool-cases made) [
          | inr f ↦ absurd (false≢true (rw (e, f) at done))
          | inl f ↦
              let ((h, held, used), kept) = connect-Live p.cfg db named e in
              let (same, kept') = make_table-Keeps i c db₁ (h, held, used) f in
              let old = Live-Keeps S db db₂ p.conns (λ k u. kept' k (kept k u)) live in
              rw (e, f)
                (fill-Live n (suc i) (keep M c' p) db₂ named
                  (All-append (Live S db₂) p.conns (c' ∷ []) old
                    ((h, same ∙ held, kept' h used), tt))
                  (rw (e, f) at done))
        ]
      ]

  -- An initialisation that reports success leaves connections that are logged in with the database
  -- that the settings name.
  pub init-Live :
      (cfg : MysqlConfig) (db : M.Db)
      → Names cfg
      → let out = init M cfg (fresh_pool M cfg) db in out.0 ≡ true → All (Live S out.2) out.1.conns
  unfolding init
  init-Live cfg db named done =
      let (made, p, db₁) = create_database M (fresh_pool M cfg) db in
      elim (Bool-cases made) [
        | inr e ↦ absurd (false≢true (rw e at done))
        | inl e ↦
            let same = create_database-keeps M (fresh_pool M cfg) db e in
            rw e (
              fill-Live (rounds cfg.pool_size) 0 p db₁ (subst (λ x. Names x.cfg) (sym same) named)
                (subst (λ x. All (Live S db₁) x.conns) (sym same) tt) (rw e at done))
      ]
