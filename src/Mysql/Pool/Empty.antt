-- ===== src/Mysql/Pool/Empty.antt =====
-- A pool of size zero or less.

use mathlib.Core.List.Perm
use httpserver_demo.Prelude.{
  [], ◌++◌, none, arith, Bool-cases, subst, ap, ◌∙◌, ◌≡◌, refl, inl, inr, List-cases, List, ◌∷◌, ℕ,
}
use httpserver_demo.Mysql.{MysqlConfig, MysqlApi}
use httpserver_demo.Mysql.Pool.{fresh_pool, rounds, create_database, fill, init, acquire, MysqlPool}
use httpserver_demo.Mysql.Pool.Threads.{Room, Reach, start, look, look_empty, lent_conns}
use httpserver_demo.Mysql.Pool.Threads.Ownership.{Reach-perm}

empty_append : (xs ys : List ℕ) → xs ++ ys ≡ [] → (xs ≡ []) × (ys ≡ [])
empty_append [] ys e = (refl, e)
empty_append (x ∷ xs) ys e = absurd (cc e)

-- A room that has no connection lends none.
owned_nothing : {q : Room} → Reach (start []) q → (q.idle ≡ []) × (q.lent ≡ [])
owned_nothing {q} r =
    let (idle, lent) = empty_append q.idle (lent_conns q) (Perm.eq-nil (Reach-perm r)) in
    (idle, elim (List-cases q.lent) [ inl e ↦ e | inr (b, bs, e) ↦ absurd (cc (lent, e)) ])

module _ (api : MysqlApi) where
  init_empty :
      (cfg : MysqlConfig) (db : api.Db)
      → rounds cfg.pool_size ≡ 0
      → init api cfg (fresh_pool api cfg) db ≡ create_database api (fresh_pool api cfg) db
  unfolding init fill
  init_empty cfg db size = elim (Bool-cases (create_database api (fresh_pool api cfg) db).0) [
    | inl e ↦ rw (e, size) refl
    | inr e ↦ rw e refl
  ]

  create_database-idle :
      (p : MysqlPool api) (db : api.Db) → (create_database api p db).1.idle ≡ p.idle
  unfolding create_database
  create_database-idle p db = ground arith

  -- With a pool size of zero or less the initialisation is no more than the making of the database,
  -- and succeeds where that does. From the pool that it leaves no thread ever gets a connection:
  -- `acquire` waits, and whatever other threads do, none has a connection, and a thread that looks
  -- goes to sleep.
  pub init_empty_blocks :
      (cfg : MysqlConfig) (db : api.Db) (t : ℕ) (q : Room)
      → rounds cfg.pool_size ≡ 0
      → Reach (start (init api cfg (fresh_pool api cfg) db).1.idle) q
      → (init api cfg (fresh_pool api cfg) db ≡ create_database api (fresh_pool api cfg) db)
        × (acquire api (init api cfg (fresh_pool api cfg) db).1 ≡ none)
        × (q.lent ≡ [])
        × (look t q ≡ record q { asleep = t ∷ q.asleep })
  unfolding acquire
  init_empty_blocks cfg db t q size r =
      let same = init_empty cfg db size in
      let idle = ap (λ out. out.1.idle) same ∙ create_database-idle (fresh_pool api cfg) db in
      let (waits, lent) = owned_nothing (subst (λ l. Reach (start l) q) idle r) in
      (same, ground (arith, idle), lent, look_empty t q waits)
