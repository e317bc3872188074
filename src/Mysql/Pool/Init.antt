-- ===== src/Mysql/Pool/Init.antt =====
-- What a pool holds after its initialisation.
use httpserver_demo.Prelude.{
  ℕ, zero, suc, ◌+◌, true, List, [], ◌∷◌, arith, Bool-cases, Option-cases, subst, zero, inl, inr,
  Bytes, length, length-append, All, All-append, ◌≡◌, refl, sym, ◌∙◌,
}
use mathlib.Core.Bool.{false≢true}
use httpserver_demo.Mysql.{
  MysqlConfig, MysqlApi, MysqlConn, fresh_conn, close, connect, log_in, execute, is_connected,
}
use httpserver_demo.Mysql.Pool.{
  MysqlPool, fresh_pool, rounds, create_database, make_table, keep, fill, init, create_table_sql,
}

-- n - 1, …, 1, 0
abbrev pub below : ℕ → List ℕ
below zero = []
below (suc n) = n ∷ below n

module _ (api : MysqlApi) where
  -- The connections that the pool owns are all connected, and all of them are idle, each once, the
  -- last one on top.
  pub record IsReady (n : ℕ) (p : MysqlPool api) : Type 0 where
    pub count : length p.conns ≡ n
    pub connected : All (λ c. is_connected api c ≡ true) p.conns
    pub idle : p.idle ≡ below n

  log_in-is_connected :
      (cfg : MysqlConfig) (h : api.Handle) (db : api.Db)
      → (log_in api cfg h db).0 ≡ is_connected api (log_in api cfg h db).1
  unfolding log_in
  log_in-is_connected cfg h db = ground arith

  -- `connect` returns true exactly when the connection holds a handle afterwards.
  pub connect-is_connected :
      (cfg : MysqlConfig) (c : MysqlConn api) (db : api.Db)
      → (connect api cfg c db).0 ≡ is_connected api (connect api cfg c db).1
  unfolding connect
  connect-is_connected cfg c db = elim (Option-cases (api.init (close api c db).1).0) [
    | inl e ↦ rw (e, connect) refl
    | inr (h, e) ↦ rw (e, connect) (log_in-is_connected cfg h _)
  ]

  execute-is_connected :
      (sql : Bytes) (c : MysqlConn api) (db : api.Db)
      → is_connected api (execute api sql c db).1 ≡ is_connected api c
  unfolding execute
  execute-is_connected sql c db = ground arith

  make_table-is_connected :
      (i : ℕ) (c : MysqlConn api) (db : api.Db)
      → is_connected api (make_table api i c db).1 ≡ is_connected api c
  unfolding make_table
  make_table-is_connected i c db = ground (arith, execute-is_connected create_table_sql c db)

  keep-IsReady :
      (n : ℕ) (c : MysqlConn api) (p : MysqlPool api)
      → is_connected api c ≡ true
      → IsReady n p
      → IsReady (suc n) (keep api c p)
  unfolding keep
  keep-IsReady n c p up h = record {
    count = omega (arith, length-append p.conns (c ∷ []), h.count);
    connected = All-append _ p.conns (c ∷ []) h.connected (up, tt);
    idle = ground (arith, h.count, h.idle);
  }

  fill-IsReady :
      (n i : ℕ) (p : MysqlPool api) (db : api.Db)
      → IsReady i p
      → (fill api n i p db).0 ≡ true
      → IsReady (n + i) (fill api n i p db).1
  unfolding fill
  fill-IsReady zero i p db h done = subst (λ k. IsReady k p) (omega arith) h
  fill-IsReady (suc n) i p db h done =
      let (up, c, db₁) = connect api p.cfg (fresh_conn api) db in
      let (made, c', db₂) = make_table api i c db₁ in
      let more : n + suc i ≡ suc n + i = omega arith in
      elim (Bool-cases up) [
        | inr e ↦ absurd (false≢true (rw e at done))
        | inl e ↦ elim (Bool-cases made) [
          | inr f ↦ absurd (false≢true (rw (e, f) at done))
          | inl f ↦
              let held =
                make_table-is_connected i c db₁ ∙ sym (connect-is_connected p.cfg _ db) ∙ e in
              rw (e, f)
                (subst (λ k. IsReady k (fill api n (suc i) (keep api c' p) db₂).1) more
                  (fill-IsReady n (suc i) _ db₂ (keep-IsReady i c' p held h) (rw (e, f) at done)))
        ]
      ]

  pub create_database-keeps :
      (p : MysqlPool api) (db : api.Db)
      → (create_database api p db).0 ≡ true
      → (create_database api p db).1 ≡ p
  unfolding create_database
  create_database-keeps p db h = ground arith

  -- An initialisation that reports success leaves `pool_size` connections (none if the size is
  -- negative), all of them connected and idle.
  pub init-IsReady :
      (cfg : MysqlConfig) (db : api.Db)
      → (init api cfg (fresh_pool api cfg) db).0 ≡ true
      → IsReady (rounds cfg.pool_size) (init api cfg (fresh_pool api cfg) db).1
  unfolding init
  init-IsReady cfg db done =
      let p = fresh_pool api cfg in
      elim (Bool-cases (create_database api p db).0) [
        | inr e ↦ absurd (false≢true (rw e at done))
        | inl e ↦
            let same = create_database-keeps p db e in
            let start : IsReady 0 p = record { count = refl; connected = tt; idle = refl } in
            let db₁ = (create_database api p db).2 in
            rw e (
              rw same (
                subst (λ k. IsReady k (fill api (rounds cfg.pool_size) 0 p db₁).1) (omega arith)
                  (fill-IsReady (rounds cfg.pool_size) 0 p db₁ start (rw (e, same) at done))))
      ]
