-- ===== src/Mysql.antt =====
-- `MysqlResult` and `MysqlConn` of src/store/mysql_pool.h and src/store/mysql_pool.cpp. The calls
-- of libmysqlclient and the server behind them are an argument, `MysqlApi`.
pub mod Pool
pub mod Server
pub mod Answers
use httpserver_demo.Prelude.{
  ℕ, Bool, true, false, List, [], ◌∷◌, ◌++◌, Option, none, some, ltb, if◌then◌else◌, Bytes, codes,
  is_empty, c_str, ℤ, pos,
}

-- `MysqlConfig` with its defaults.
pub record MysqlConfig : Type 0 where
  pub host : Bytes
  pub port : ℤ
  pub user : Bytes
  pub password : Bytes
  pub database : Bytes
  pub pool_size : ℤ

abbrev pub default_config : MysqlConfig
default_config = record {
  host = codes "127.0.0.1";
  port = pos 3306;
  user = codes "root";
  password = [];
  database = codes "http_server_demo";
  pool_size = pos 8;
}

-- A row is its cells, `row[i]`.
abbrev pub Row : Type 0
Row = List Bytes

pub record MysqlApi : Type 1 where
  -- the server, and what the client library holds open
  pub Db : Type 0
  pub Handle : Type 0
  pub Result : Type 0
  pub init : Db → Option Handle × Db
  -- `mysql_real_connect` with host, user, password, database or null, and port
  pub real_connect : Handle → Bytes → Bytes → Bytes → Option Bytes → ℤ → Db → Bool × Db
  pub set_character_set : Handle → Bytes → Db → Db
  pub close : Handle → Db → Db
  -- `mysql_query` on a handle that may be null; true where it returns 0
  pub query : Option Handle → Bytes → Db → Bool × Db
  pub store_result : Option Handle → Db → Option Result × Db
  pub field_count : Option Handle → Db → ℕ
  pub insert_id : Option Handle → Db → ℕ
  pub error : Option Handle → Db → Bytes
  -- `mysql_real_escape_string`, as the text that it writes before the closing NUL
  pub real_escape_string : Option Handle → Bytes → Db → Bytes
  -- the rows that `mysql_fetch_row` returns one after the other, before it returns null
  pub rows : Result → List Row
  pub free_result : Result → Db → Db

module _ (api : MysqlApi) where
  pub record MysqlConn : Type 0 where
    pub mysql : Option api.Handle
    pub err : Bytes

  -- `std::make_unique<MysqlConn>()`
  abbrev pub fresh_conn : MysqlConn
  fresh_conn = record { mysql = none; err = [] }

  unfoldable pub close : MysqlConn → api.Db → MysqlConn × api.Db
  close c db = elim c.mysql [
    | none ↦ (c, db)
    | some h ↦ (record c { mysql = none }, api.close h db)
  ]

  abbrev pub is_connected : MysqlConn → Bool
  is_connected c = elim c.mysql [ none ↦ false | some h ↦ true ]

  -- The second and the third step of `connect`, on a handle that was just made.
  log_in : MysqlConfig → api.Handle → api.Db → Bool × MysqlConn × api.Db
  unfolding close
  log_in cfg h db =
      let name = if is_empty cfg.database then none else some (c_str cfg.database) in
      let (done, db₁) =
        api.real_connect h (c_str cfg.host) (c_str cfg.user) (c_str cfg.password) name cfg.port
          db in
      if done
      then (
        true,
        record { mysql = some h; err = [] },
        api.set_character_set h (codes "utf8mb4") db₁,
      )
      else let (c, db₂) = close (record { mysql = some h; err = api.error (some h) db₁ }) db₁ in
        (false, c, db₂)

  unfoldable pub connect : MysqlConfig → MysqlConn → api.Db → Bool × MysqlConn × api.Db
  unfolding close log_in
  connect cfg c db =
      let (c₁, db₁) = close c db in
      let (made, db₂) = api.init db₁ in
      elim made [
        | none ↦ (false, record { mysql = none; err = codes "mysql_init failed" }, db₂)
        | some h ↦ log_in cfg h db₂
      ]

  unfoldable pub execute : Bytes → MysqlConn → api.Db → Bool × MysqlConn × api.Db
  execute sql c db =
      let (done, db₁) = api.query c.mysql (c_str sql) db in
      (done, if done then c else record c { err = api.error c.mysql db₁ }, db₁)

  abbrev note_missing : Option api.Result → MysqlConn → api.Db → MysqlConn
  note_missing (some r) c db = c
  note_missing none c db =
      if ltb 0 (api.field_count c.mysql db) then record c { err = api.error c.mysql db } else c

  unfoldable pub query : Bytes → MysqlConn → api.Db → Option api.Result × MysqlConn × api.Db
  query sql c db =
      let (done, db₁) = api.query c.mysql (c_str sql) db in
      let (r, db₂) = api.store_result c.mysql db₁ in
      if done
      then (r, note_missing r c db₂, db₂)
      else (none, record c { err = api.error c.mysql db₁ }, db₁)

  abbrev pub last_insert_id : MysqlConn → api.Db → ℕ
  last_insert_id c db = api.insert_id c.mysql db

  -- The text goes through a C string on its way out.
  unfoldable pub escape : Bytes → MysqlConn → api.Db → Bytes
  escape s c db = c_str (api.real_escape_string c.mysql s db)

  -- The end of a `MysqlResult`.
  abbrev pub free_opt : Option api.Result → api.Db → api.Db
  free_opt none db = db
  free_opt (some r) db = api.free_result r db
