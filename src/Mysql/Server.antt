-- ===== src/Mysql/Server.antt =====
-- What the sources rely on in a MySQL server that runs the statements of the repository, as its
-- documentation states it. A server is seen as the rows of the table `users`, in the order of
-- their ids, or as having no such table yet. It runs in strict mode (a value that does not fit its
-- column is an error), and nothing but the program writes to the table.
use httpserver_demo.Prelude.{
  ℕ, ◌<◌, ◌≤◌, IsInt64, max_int64, Bool, true, false, List, [], ◌∷◌, ◌++◌, map, Option, none, some,
  Bytes, ◌==◌, if◌then◌else◌, ℤ, pos, NoNul, All, length, take, drop, ◌≡◌, ◌⊎◌,
}
use httpserver_demo.Decimal.{nat_to_string, to_string}
use httpserver_demo.Sql.{insert_sql, select_sql, count_sql, page_sql}
use httpserver_demo.Mysql.{MysqlApi, MysqlConn, Row}

pub record Account : Type 0 where
  pub id : ℕ
  pub name : Bytes
  pub email : Bytes
  pub created_at : ℤ

abbrev pub Table : Type 0
Table = List Account

-- The cells of a row, as the server sends them.
abbrev pub cells : Account → Row
cells a = nat_to_string a.id ∷ a.name ∷ a.email ∷ to_string a.created_at ∷ []

abbrev pub find : (ℕ → Bool) → Table → Option Account
find matches [] = none
find matches (a ∷ rest) = if matches a.id then some a else find matches rest

abbrev pub row_list : Option Account → List Row
row_list none = []
row_list (some a) = cells a ∷ []

-- Every handle that uses the database still does.
abbrev pub Keeps : {H D : Type 0} → (H → D → Type 0) → D → D → Type 0
Keeps {H} Uses db db' = (h : H) → Uses h db → Uses h db'

-- The statement succeeds with a result that has these rows, and leaves the table alone.
abbrev pub Answers :
    (api : MysqlApi)
    → (api.Db → Option Table)
    → (api.Handle → api.Db → Type 0)
    → api.Handle
    → Bytes
    → api.Db
    → List Row
    → Type 0
Answers api view Uses h sql db rows =
    let out = api.query (some h) sql db in
    let res = api.store_result (some h) out.1 in
    (r : api.Result) × (out.0 ≡ true)
    × (res.0 ≡ some r)
    × (api.rows r ≡ rows)
    × (view res.1 ≡ view db)
    × Keeps Uses db res.1

pub record IsMysql (api : MysqlApi) : Type 1 where
  -- `none` where there is no table `users`
  pub view : api.Db → Option Table
  -- the handle is logged in with the database that has the table
  pub Uses : api.Handle → api.Db → Type 0
  -- the value of a literal between single quotes
  pub literal : Bytes → Option Bytes
  -- the comparison of a text with a number
  pub matches : Bytes → ℕ → Bool
  pub matches-nat_to_string : (n m : ℕ) → matches (nat_to_string n) m ≡ (m == n)
  pub literal-escape :
      (h : api.Handle) (s : Bytes) (db : api.Db)
      → literal (api.real_escape_string (some h) s db) ≡ some s
  pub escape-NoNul :
      (h : api.Handle) (s : Bytes) (db : api.Db) → NoNul (api.real_escape_string (some h) s db)
  -- an insertion is refused and changes nothing, or adds a row under a new id that is larger than
  -- all others
  pub insert :
      (h : api.Handle) (q e name email : Bytes) (now : ℤ) (db : api.Db) (t : Table)
      → Uses h db
      → view db ≡ some t
      → literal q ≡ some name
      → literal e ≡ some email
      → IsInt64 now
      → let out = api.query (some h) (insert_sql q e now) db in
        Keeps Uses db out.1
        × (((out.0 ≡ false) × (view out.1 ≡ some t))
            ⊎ ((out.0 ≡ true)
                × All (λ a. a.id < api.insert_id (some h) out.1) t
                × (view out.1
                    ≡ some (
                        t
                        ++ record {
                          id = api.insert_id (some h) out.1;
                          name = name;
                          email = email;
                          created_at = now;
                        }
                          ∷ []))))
  pub select :
      (h : api.Handle) (q id : Bytes) (db : api.Db) (t : Table)
      → Uses h db
      → view db ≡ some t
      → literal q ≡ some id
      → Answers api view Uses h (select_sql q) db (row_list (find (matches id) t))
  pub count :
      (h : api.Handle) (db : api.Db) (t : Table)
      → Uses h db
      → view db ≡ some t
      → Answers api view Uses h count_sql db ((nat_to_string (length t) ∷ []) ∷ [])
  pub page :
      (h : api.Handle) (limit offset : ℕ) (db : api.Db) (t : Table)
      → Uses h db
      → view db ≡ some t
      → limit ≤ max_int64
      → offset ≤ max_int64
      → Answers api view Uses h
          (page_sql (pos limit) (pos offset))
          db
          (map cells (take limit (drop offset t)))
  pub view-free_result : (r : api.Result) (db : api.Db) → view (api.free_result r db) ≡ view db
  pub free_result-Keeps : (r : api.Result) (db : api.Db) → Keeps Uses db (api.free_result r db)

-- The connection has a handle that is logged in with the database.
abbrev pub Live : {api : MysqlApi} → IsMysql api → api.Db → MysqlConn api → Type 0
Live {api} S db c = (h : api.Handle) × (c.mysql ≡ some h) × S.Uses h db

pub Live-Keeps :
    {api : MysqlApi} (S : IsMysql api) (db db' : api.Db) (cs : List (MysqlConn api))
    → Keeps S.Uses db db'
    → All (Live S db) cs
    → All (Live S db') cs
Live-Keeps S db db' [] keeps h = tt
Live-Keeps S db db' (c ∷ cs) keeps ((h, held, used), more) =
    ((h, held, keeps h used), Live-Keeps S db db' cs keeps more)

-- The server was sent the insertion of a row with this name, email and time, and refused it; `db'`
-- is the server afterwards.
abbrev pub RowRefused :
    {api : MysqlApi} → IsMysql api → api.Db → api.Db → Bytes → Bytes → ℤ → Type 0
RowRefused {api} S db db' name email now =
    (h : api.Handle) × (q : Bytes) × (e : Bytes) × (S.literal q ≡ some name)
    × (S.literal e ≡ some email)
    × (api.query (some h) (insert_sql q e now) db ≡ (false, db'))
