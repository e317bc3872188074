-- ===== src/Example/Mysql.antt =====
-- A MySQL server that runs the statements of the repository on a list of rows. An escaped text is
-- the text with every code moved up by 40, so that it holds no quote and no NUL.
pub mod Statements
pub mod Laws
use httpserver_demo.Prelude.{
  ℕ, ◌+◌, ◌-◌, ◌<◌, ◌≤◌, Bool, true, false, ◌&&◌, List, [], ◌∷◌, ◌++◌, map, Option, none, some,
  arith, leb, ◌==◌, if◌then◌else◌, Bytes, codes, beq, beq_refl, eq_of_beq, ℤ, pos, negsuc, IsInt64,
  max_int64, All, length, take, drop, ◌≡◌, refl, ap, inl, inr, NoNul, Bool-cases, ==_iff,
}
use httpserver_demo.Decimal.{nat_to_string, to_string, strtoll}
use httpserver_demo.Decimal.Shape.{IsDigit, nat_to_string-IsDigit}
use httpserver_demo.Decimal.RoundTrip.{strtoll-to_string, nat_to_string_injective}
use httpserver_demo.Sql.{insert_sql, select_sql, count_sql, page_sql}
use httpserver_demo.Mysql.{MysqlApi, Row}
use httpserver_demo.Mysql.Pool.{create_table_sql}
use httpserver_demo.Mysql.Server.{Table, cells, find, row_list, Answers, IsMysql}

pub record Db : Type 0 where
  -- whether there is a table `users`
  pub made : Bool
  pub rows : Table
  pub last : ℕ
  pub answer : Option (List Row)

abbrev pub escape : Bytes → Bytes
escape [] = []
escape (c ∷ s) = (c + 40) ∷ escape s

abbrev pub plain : Bytes → Bytes
plain [] = []
plain (c ∷ s) = (c - 40) ∷ plain s

-- The codes of 40 and more at the front, and the rest.
abbrev pub high : Bytes → Bytes
high [] = []
high (c ∷ s) = if leb 40 c then c ∷ high s else []

abbrev pub behind : Bytes → Bytes
behind [] = []
behind (c ∷ s) = if leb 40 c then behind s else c ∷ s

abbrev pub is_high : Bytes → Bool
is_high [] = true
is_high (c ∷ s) = leb 40 c && is_high s

abbrev pub literal : Bytes → Option Bytes
literal q = if is_high q then some (plain q) else none

abbrev pub but_last : Bytes → Bytes
but_last [] = []
but_last (c ∷ []) = []
but_last (c ∷ d ∷ s) = c ∷ but_last (d ∷ s)

-- The text behind a prefix.
abbrev strip : Bytes → Bytes → Option Bytes
strip [] s = some s
strip (c ∷ p) [] = none
strip (c ∷ p) (d ∷ s) = if c == d then strip p s else none

abbrev pub matches : Bytes → ℕ → Bool
matches id n = beq id (nat_to_string n)

abbrev pub next_id : Table → ℕ
next_id [] = 1
next_id (a ∷ t) = if leb (next_id t) a.id then a.id + 1 else next_id t

abbrev pub natural : ℤ → ℕ
natural (pos n) = n
natural (negsuc n) = 0

abbrev pub number : Bytes → ℕ
number s = natural (strtoll s)

abbrev pub add_row : Bytes → Bytes → ℤ → Db → Bool × Db
add_row name email now db = (
  true,
  record db {
    rows =
        db.rows
        ++ record { id = next_id db.rows; name = name; email = email; created_at = now } ∷ [];
    last = next_id db.rows;
    answer = none;
  },
)

-- Behind `VALUES('`.
abbrev run_insert : Bytes → Db → Bool × Db
run_insert s db =
    let t = drop 3 (behind s) in
    add_row (plain (high s)) (plain (high t)) (strtoll (but_last (drop 2 (behind t)))) db

abbrev pub answered : List Row → Db → Bool × Db
answered rows db = (true, record db { answer = some rows })

-- Behind `LIMIT `.
abbrev run_page : Bytes → Db → Bool × Db
run_page s db =
    answered (map cells (take (number (high s)) (drop (number (drop 8 (behind s))) db.rows))) db

abbrev or_run : Option Bytes → (Bytes → Db → Bool × Db) → (Db → Bool × Db) → Db → Bool × Db
or_run none f other db = other db
or_run (some s) f other db = f s db

abbrev pub perform : Bytes → Db → Bool × Db
perform sql =
    or_run (strip (codes "INSERT INTO users(name, email, created_at) VALUES('") sql) run_insert (
      or_run (strip (codes "SELECT id, name, email, created_at FROM users WHERE id='") sql)
        (λ s db. answered (row_list (find (matches (plain (but_last s))) db.rows)) db)
        (or_run
          (strip (codes "SELECT id, name, email, created_at FROM users ORDER BY id LIMIT ") sql)
          run_page
          (or_run (strip count_sql sql)
            (λ s db. answered ((nat_to_string (length db.rows) ∷ []) ∷ []) db)
            (λ db. (true, record db { answer = none })))))

-- Without a table, only these two statements succeed.
abbrev pub prepare : Bytes → Db → Bool × Db
prepare sql =
    or_run (strip create_table_sql sql)
      (λ s db. (true, record db { made = true; rows = []; answer = none }))
      (or_run (strip (codes "CREATE DATABASE IF NOT EXISTS ") sql) (λ s db. (true, db))
        (λ db. (false, db)))

abbrev pub dispatch : Bool → Bytes → Db → Bool × Db
dispatch true sql db = perform sql db
dispatch false sql db = prepare sql db

abbrev query : Option (Unit {0}) → Bytes → Db → Bool × Db
query none sql db = (false, db)
query (some h) sql db = dispatch db.made sql db

abbrev pub mysql : MysqlApi
mysql = record {
  Db = Db;
  Handle = Unit;
  Result = List Row;
  init = λ db. (some tt, db);
  real_connect = λ h host user password name port db. (true, db);
  set_character_set = λ h name db. db;
  close = λ h db. db;
  query = query;
  store_result = λ h db. (db.answer, db);
  field_count = λ h db. 0;
  insert_id = λ h db. db.last;
  error = λ h db. codes "no connection";
  real_escape_string = λ h s db. escape s;
  rows = λ r. r;
  free_result = λ r db. db;
}
