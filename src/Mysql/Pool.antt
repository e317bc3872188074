-- ===== src/Mysql/Pool.antt =====
-- `MysqlPool` and its `Guard`, of src/store/mysql_pool.h and src/store/mysql_pool.cpp. A pointer to
-- a connection is its position in `conns_`; the head of `idle` is the back of `idle_`. One thread
-- at a time is modelled here: what the lock and the condition variable add is in Threads.
pub mod Init
pub mod Empty
pub mod Opening
pub mod Guards
pub mod Threads
use httpserver_demo.Prelude.{
  ℕ, zero, suc, Bool, true, false, List, [], ◌∷◌, ◌++◌, Option, none, some, ◌==◌, if◌then◌else◌,
  Bytes, codes, ℤ, pos, negsuc, length,
}
use httpserver_demo.Mysql.{MysqlConfig, MysqlApi, MysqlConn, fresh_conn, close, connect, execute}

-- The texts of the source, in UTF-8.
abbrev pub create_database_connect_failed : Bytes
create_database_connect_failed =
    229 ∷ 187 ∷ 186 ∷ 229 ∷ 186 ∷ 147 ∷ 232 ∷ 191 ∷ 158 ∷ 230 ∷ 142 ∷ 165 ∷ 229 ∷ 164 ∷ 177 ∷ 232
    ∷ 180 ∷ 165 ∷ 58 ∷ 32 ∷ []

abbrev pub create_database_failed : Bytes
create_database_failed =
    67 ∷ 82 ∷ 69 ∷ 65 ∷ 84 ∷ 69 ∷ 32 ∷ 68 ∷ 65 ∷ 84 ∷ 65 ∷ 66 ∷ 65 ∷ 83 ∷ 69 ∷ 32 ∷ 229 ∷ 164 ∷ 177
    ∷ 232 ∷ 180 ∷ 165 ∷ 58 ∷ 32 ∷ []

abbrev pub init_failed : Bytes
init_failed =
    232 ∷ 191 ∷ 158 ∷ 230 ∷ 142 ∷ 165 ∷ 230 ∷ 177 ∷ 160 ∷ 229 ∷ 136 ∷ 157 ∷ 229 ∷ 167 ∷ 139 ∷ 229
    ∷ 140 ∷ 150 ∷ 229 ∷ 164 ∷ 177 ∷ 232 ∷ 180 ∷ 165 ∷ 58 ∷ 32 ∷ []

abbrev pub create_table_failed : Bytes
create_table_failed =
    67 ∷ 82 ∷ 69 ∷ 65 ∷ 84 ∷ 69 ∷ 32 ∷ 84 ∷ 65 ∷ 66 ∷ 76 ∷ 69 ∷ 32 ∷ 229 ∷ 164 ∷ 177 ∷ 232 ∷ 180
    ∷ 165 ∷ 58 ∷ 32 ∷ []

abbrev pub create_table_sql : Bytes
create_table_sql =
    codes "CREATE TABLE IF NOT EXISTS users ("
    ++ codes "  id BIGINT AUTO_INCREMENT PRIMARY KEY,"
    ++ codes "  name VARCHAR(128) NOT NULL,"
    ++ codes "  email VARCHAR(256) NOT NULL,"
    ++ codes "  created_at BIGINT NOT NULL"
    ++ codes ") ENGINE=InnoDB DEFAULT CHARSET=utf8mb4"

abbrev pub create_database_sql : Bytes → Bytes
create_database_sql name =
    codes "CREATE DATABASE IF NOT EXISTS `" ++ name ++ codes "` DEFAULT CHARACTER SET utf8mb4"

-- `pop_back` of `idle_`, if it is not empty.
abbrev pub pop_idle : List ℕ → Option (ℕ × List ℕ)
pop_idle [] = none
pop_idle (i ∷ rest) = some (i, rest)

-- The rounds of a `for` up to an `int`.
abbrev pub rounds : ℤ → ℕ
rounds (pos n) = n
rounds (negsuc n) = 0

module _ (api : MysqlApi) where
  pub record MysqlPool : Type 0 where
    pub cfg : MysqlConfig
    pub conns : List (MysqlConn api)
    pub idle : List ℕ
    pub err : Bytes

  abbrev pub fresh_pool : MysqlConfig → MysqlPool
  fresh_pool cfg = record { cfg = cfg; conns = []; idle = []; err = [] }

  -- The block of the first step: a connection of its own, which is closed on every way out.
  unfoldable pub create_database : MysqlPool → api.Db → Bool × MysqlPool × api.Db
  create_database p db =
      let (up, tmp, db₁) = connect api (record p.cfg { database = [] }) (fresh_conn api) db in
      let (made, tmp', db₂) = execute api (create_database_sql p.cfg.database) tmp db₁ in
      if up
      then (
        made,
        if made then p else record p { err = create_database_failed ++ tmp'.err },
        (close api tmp' db₂).1,
      )
      else (
        false,
        record p { err = create_database_connect_failed ++ tmp.err },
        (close api tmp db₁).1,
      )

  -- What a connection of the second step does once it is connected: the first makes the table.
  unfoldable pub make_table : ℕ → MysqlConn api → api.Db → Bool × MysqlConn api × api.Db
  make_table i c db =
      let out = execute api create_table_sql c db in if i == 0 then out else (true, c, db)

  unfoldable pub keep : MysqlConn api → MysqlPool → MysqlPool
  keep c p = record p { conns = p.conns ++ c ∷ []; idle = length p.conns ∷ p.idle }

  -- The loop of the second step, with the rounds that are left and the round's number.
  unfoldable pub fill : ℕ → ℕ → MysqlPool → api.Db → Bool × MysqlPool × api.Db
  fill zero i p db = (true, p, db)
  fill (suc n) i p db =
      let (up, c, db₁) = connect api p.cfg (fresh_conn api) db in
      let (made, c', db₂) = make_table i c db₁ in
      let rest = fill n (suc i) (keep c' p) db₂ in
      if up
      then if made
        then rest
        else (false, record p { err = create_table_failed ++ c'.err }, (close api c' db₂).1)
      else (false, record p { err = init_failed ++ c.err }, (close api c db₁).1)

  unfoldable pub init : MysqlConfig → MysqlPool → api.Db → Bool × MysqlPool × api.Db
  init cfg p db =
      let (made, p₁, db₁) = create_database (record p { cfg = cfg }) db in
      if made then fill (rounds cfg.pool_size) 0 p₁ db₁ else (false, p₁, db₁)

  -- The destructors of the connections run in turn.
  close_all : List (MysqlConn api) → api.Db → api.Db
  close_all [] db = db
  close_all (c ∷ cs) db = close_all cs (close api c db).1

  unfoldable pub shutdown : MysqlPool → api.Db → MysqlPool × api.Db
  unfolding close_all
  shutdown p db = (record p { conns = []; idle = [] }, close_all p.conns db)

  -- `none` where the thread has to wait for a connection.
  unfoldable pub acquire : MysqlPool → Option (ℕ × MysqlPool)
  acquire p = elim (pop_idle p.idle) [
    | none ↦ none
    | some (i, rest) ↦ some (i, record p { idle = rest })
  ]

  unfoldable pub release : ℕ → MysqlPool → MysqlPool
  release i p = record p { idle = i ∷ p.idle }

  -- A guard's pool is the pool that it is used with.
  pub record Guard : Type 0 where
    pub conn : Option ℕ

  -- The move constructor: the new guard, and what is left of the old one.
  unfoldable pub move : Guard → Guard × Guard
  move other = (record { conn = other.conn }, record { conn = none })

  unfoldable pub drop_guard : Guard → MysqlPool → MysqlPool
  unfolding release
  drop_guard g p = elim g.conn [ none ↦ p | some i ↦ release i p ]
