-- ===== src/Sql.antt =====
-- The SQL texts of src/store/user_repository.cpp, from literals that are escaped already.
use httpserver_demo.Prelude.{◌++◌, Bytes, codes, ℤ}
use httpserver_demo.Decimal.{to_string}

unfoldable pub insert_sql : Bytes → Bytes → ℤ → Bytes
insert_sql name email now =
    codes "INSERT INTO users(name, email, created_at) VALUES('"
    ++ (name ++ (codes "','" ++ (email ++ (codes "'," ++ (to_string now ++ codes ")")))))

unfoldable pub select_sql : Bytes → Bytes
select_sql id =
    codes "SELECT id, name, email, created_at FROM users WHERE id='" ++ (id ++ codes "'")

abbrev pub count_sql : Bytes
count_sql = codes "SELECT COUNT(*) FROM users"

unfoldable pub page_sql : ℤ → ℤ → Bytes
page_sql limit offset =
    codes "SELECT id, name, email, created_at FROM users ORDER BY id LIMIT "
    ++ (to_string limit ++ (codes " OFFSET " ++ to_string offset))
