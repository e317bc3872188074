-- ===== src/Example/Mysql/Laws.antt =====
-- The MySQL server of the examples keeps what the repository relies on.
use httpserver_demo.Prelude.{
  none, Option, false, Bool, sym, subst, ◌∙◌, c_str, length, ◌<◌, true, List, [], ◌∷◌, ◌++◌, map,
  some, Bytes, codes, ℤ, pos, All, take, drop, ◌≡◌, refl, ap, inl, inr, Bool-cases,
}
use httpserver_demo.Decimal.{nat_to_string}
use httpserver_demo.Sql.{insert_sql, select_sql, count_sql, page_sql}
use httpserver_demo.Mysql.{Row}
use httpserver_demo.Mysql.Pool.{create_table_sql, create_database_sql}
use httpserver_demo.Mysql.Pool.Opening.{Opens, rows_or_empty}
use httpserver_demo.Mysql.Server.{Account, Table, cells, find, row_list, Answers, IsMysql}
use httpserver_demo.Example.Mysql.{
  Db, literal, matches, next_id, add_row, answered, perform, dispatch, mysql,
}
use httpserver_demo.Example.Mysql.Statements.{
  literal-escape, escape-NoNul, next_id-above, matches-own, insert_law, select_law, page_law,
}

abbrev table_if : Bool → Table → Option Table
table_if true t = some t
table_if false t = none

abbrev table_of : Db → Option Table
table_of db = table_if db.made db.rows

shown_lem :
    (made : Bool) (rows t : Table) → table_if made rows ≡ some t → (made ≡ true) × (rows ≡ t)
shown_lem true rows t h = (refl, cc h)
shown_lem false rows t h = absurd (cc h)

shown : (db : Db) (t : Table) → table_of db ≡ some t → (db.made ≡ true) × (db.rows ≡ t)
shown db t h = shown_lem db.made db.rows t h

answers :
    (sql : Bytes) (db : Db) (rows : List Row)
    → db.made ≡ true
    → perform sql db ≡ answered rows db
    → Answers mysql table_of (λ h db. Unit) tt sql db rows
answers sql db rows made e =
    let done : dispatch db.made sql db ≡ answered rows db = ap (λ b. dispatch b sql db) made ∙ e in
    (
      rows,
      ap (λ out. out.0) done,
      ap (λ out. out.1.answer) done,
      refl,
      ap (λ out. table_of out.1) done,
      (λ k u. u),
    )

inserted :
    (q e name email : Bytes) (now : ℤ) (db : Db) (t : Table)
    → db.made ≡ true
    → db.rows ≡ t
    → perform (insert_sql q e now) db ≡ add_row name email now db
    → let out = dispatch db.made (insert_sql q e now) db in
      (out.0 ≡ true)
      × All (λ a. a.id < out.1.last) t
      × (table_of out.1
          ≡ some
              (t ++ record { id = out.1.last; name = name; email = email; created_at = now } ∷ []))
inserted q e name email now db t made rows h =
    let id = next_id db.rows in
    let a : Account = record { id = id; name = name; email = email; created_at = now } in
    let done : dispatch db.made (insert_sql q e now) db ≡ add_row name email now db =
      ap (λ b. dispatch b (insert_sql q e now) db) made ∙ h in
    subst
      (λ out.
        (out.0 ≡ true)
        × All (λ a. a.id < out.1.last) t
        × (table_of out.1
            ≡ some (
                t
                ++ record { id = out.1.last; name = name; email = email; created_at = now } ∷ [])))
      (sym done)
      (
        refl,
        subst (λ l. All (λ a. a.id < id) l) rows (next_id-above db.rows),
        ap (λ b. table_if b (db.rows ++ a ∷ [])) made ∙ ap (λ l. some (l ++ a ∷ [])) rows,
      )

pub mysql_laws : IsMysql mysql
mysql_laws = record {
  view = table_of;
  Uses = λ h db. Unit;
  literal = literal;
  matches = matches;
  matches-nat_to_string = matches-own;
  literal-escape = λ h s db. literal-escape s;
  escape-NoNul = λ h s db. escape-NoNul s;
  insert = λ h q e name email now db t used seen hq he hn.
      let (made, rows) = shown db t seen in
      (
        (λ k u. u),
        inr (
            inserted q e name email now db t made rows (insert_law q e name email now db hq he hn)),
      );
  select = λ h q id db t used seen hq.
      let (made, rows) = shown db t seen in
      answers (select_sql q) db _ made (
        subst (λ l. perform (select_sql q) db ≡ answered (row_list (find (matches id) l)) db) rows
          (select_law q id db hq));
  count = λ h db t used seen.
      let (made, rows) = shown db t seen in
      answers count_sql db _ made
        (ap (λ l. answered ((nat_to_string (length l) ∷ []) ∷ []) db) rows);
  page = λ h l o db t used seen hl ho.
      let (made, rows) = shown db t seen in
      answers (page_sql (pos l) (pos o)) db _ made (
        subst
          (λ x. perform (page_sql (pos l) (pos o)) db ≡ answered (map cells (take l (drop o x))) db)
          rows (page_law l o db hl ho));
  view-free_result = λ r db. refl;
  free_result-Keeps = λ r db k u. u;
}

pub mysql_laws-view : (db : Db) → db.made ≡ true → mysql_laws.view db ≡ some db.rows
unfolding mysql_laws
mysql_laws-view db made = ap (λ b. table_if b db.rows) made

pub used : (h : Unit {0}) (db : Db) → mysql_laws.Uses h db
unfolding mysql_laws
used h db = tt

pub mysql_laws-empty : (db : Db) → db.made ≡ false → mysql_laws.view db ≡ none
unfolding mysql_laws
mysql_laws-empty db made = ap (λ b. table_if b db.rows) made

create_database_law :
    (name : Bytes) (db : Db)
    → table_of (dispatch db.made (c_str (create_database_sql name)) db).1 ≡ table_of db
create_database_law name db =
    let run : Bool → Bool × Db = λ b. dispatch b (c_str (create_database_sql name)) db in
    elim (Bool-cases db.made) [
      | inl e ↦ ap (λ b. table_of (run b).1) e
      | inr e ↦ ap (λ b. table_of (run b).1) e
    ]

create_table_law :
    (db : Db)
    → table_of (dispatch db.made (c_str create_table_sql) db).1 ≡ some (rows_or_empty (table_of db))
create_table_law db =
    let run : Bool → Bool × Db = λ b. dispatch b (c_str create_table_sql) db in
    elim (Bool-cases db.made) [
      | inl e ↦
          ap (λ b. table_of (run b).1) e
          ∙ ap (λ b. table_if b db.rows) e
          ∙ sym (ap (λ b. some (rows_or_empty (table_if b db.rows))) e)
      | inr e ↦
          ap (λ b. table_of (run b).1) e
          ∙ sym (ap (λ b. some (rows_or_empty (table_if b db.rows))) e)
    ]

pub mysql-Opens : Opens mysql mysql_laws
unfolding mysql_laws
mysql-Opens = record {
  init-view = λ db. refl;
  real_connect-view = λ h host user password name port db. refl;
  set_character_set-view = λ h name db. refl;
  close-view = λ h db. refl;
  create_database-view = λ h name db. create_database_law name db;
  create_table-view = λ h db done. create_table_law db;
  database = codes "http_server_demo";
  real_connect-Uses = λ h host user password port db up. tt;
  init-Keeps = λ db k u. u;
  real_connect-Keeps = λ h host user password name port db k u. u;
  set_character_set-Keeps = λ h name db k u. u;
  create_table-Keeps = λ h db k u. u;
}

pub mysql-Opens-database : mysql-Opens.database ≡ codes "http_server_demo"
unfolding mysql-Opens
mysql-Opens-database = refl
