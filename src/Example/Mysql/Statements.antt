-- ===== src/Example/Mysql/Statements.antt =====
-- What the MySQL server of the examples makes of the statements of the repository.
use httpserver_demo.Prelude.{
  ℕ, ◌<◌, ◌≤◌, true, [], ◌∷◌, ◌++◌, map, some, arith, ◌==◌, Bytes, codes, beq, beq_refl, eq_of_beq,
  ℤ, pos, IsInt64, max_int64, All, take, drop, ◌≡◌, refl, ap, inl, inr, NoNul, Bool-cases, ==_iff,
}
use httpserver_demo.Decimal.{nat_to_string, to_string, strtoll}
use httpserver_demo.Decimal.Shape.{IsDigit, nat_to_string-IsDigit}
use httpserver_demo.Decimal.RoundTrip.{strtoll-to_string, nat_to_string_injective}
use httpserver_demo.Sql.{insert_sql, select_sql, page_sql}
use httpserver_demo.Mysql.Server.{Table, cells, find, row_list}
use httpserver_demo.Example.Mysql.{
  Db, escape, plain, high, behind, is_high, literal, but_last, matches, next_id, natural, number,
  add_row, answered, perform,
}

is_high-escape : (s : Bytes) → is_high (escape s) ≡ true
is_high-escape [] = refl
is_high-escape (c ∷ s) = ground (arith, is_high-escape s)

plain-escape : (s : Bytes) → plain (escape s) ≡ s
plain-escape [] = refl
plain-escape (c ∷ s) = ground (arith, plain-escape s)

pub literal-escape : (s : Bytes) → literal (escape s) ≡ some s
literal-escape s = rw (is_high-escape s, plain-escape s) refl

pub escape-NoNul : (s : Bytes) → NoNul (escape s)
escape-NoNul [] = tt
escape-NoNul (c ∷ s) = (omega arith, escape-NoNul s)

literal_parts : (q name : Bytes) → literal q ≡ some name → (is_high q ≡ true) × (plain q ≡ name)
literal_parts q name h = ground arith

high-append : (q s : Bytes) (c : ℕ) → is_high q ≡ true → c < 40 → high (q ++ c ∷ s) ≡ q
high-append [] s c h lt = ground arith
high-append (d ∷ q) s c h lt = ground (arith, high-append q s c)

behind-append : (q s : Bytes) (c : ℕ) → is_high q ≡ true → c < 40 → behind (q ++ c ∷ s) ≡ c ∷ s
behind-append [] s c h lt = ground arith
behind-append (d ∷ q) s c h lt = ground (arith, behind-append q s c)

but_last-append : (s : Bytes) (c : ℕ) → but_last (s ++ c ∷ []) ≡ s
but_last-append [] c = refl
but_last-append (d ∷ []) c = refl
but_last-append (d ∷ e ∷ s) c = ap (◌∷◌ d) (but_last-append (e ∷ s) c)

is_high_of_digits : (s : Bytes) → All IsDigit s → is_high s ≡ true
is_high_of_digits [] h = refl
is_high_of_digits (c ∷ s) h = ground (arith, is_high_of_digits s h.1)

number-to_string : (n : ℕ) → n ≤ max_int64 → number (nat_to_string n) ≡ n
unfolding to_string
number-to_string n le =
    let back : strtoll (nat_to_string n) ≡ pos n = strtoll-to_string (pos n) le in ap natural back

weaken_below : (m n : ℕ) (t : Table) → m ≤ n → All (λ a. a.id < m) t → All (λ a. a.id < n) t
weaken_below m n [] le h = tt
weaken_below m n (a ∷ t) le h = (omega arith, weaken_below m n t le h.1)

pub next_id-above : (t : Table) → All (λ a. a.id < next_id t) t
next_id-above [] = tt
next_id-above (a ∷ t) =
    (ground arith, weaken_below (next_id t) (next_id (a ∷ t)) t (ground arith) (next_id-above t))

pub matches-own : (n m : ℕ) → matches (nat_to_string n) m ≡ (m == n)
matches-own n m = elim (Bool-cases (m == n)) [
  | inl e ↦ let same : m ≡ n = (==_iff m n).0 e in rw (e, same) (beq_refl (nat_to_string n))
  | inr e ↦ elim (Bool-cases (beq (nat_to_string n) (nat_to_string m))) [
    | inr f ↦ rw (e, f) refl
    | inl f ↦ absurd (ground (arith, nat_to_string_injective n m (eq_of_beq _ _ f)))
  ]
]

pub insert_law :
    (q e name email : Bytes) (now : ℤ) (db : Db)
    → literal q ≡ some name
    → literal e ≡ some email
    → IsInt64 now
    → perform (insert_sql q e now) db ≡ add_row name email now db
unfolding insert_sql
insert_law q e name email now db hq he h =
    let (q_high, q_plain) = literal_parts q name hq in
    let (e_high, e_plain) = literal_parts e email he in
    rw
      (
        high-append q (codes ",'" ++ (e ++ (codes "'," ++ (to_string now ++ codes ")")))) 39 q_high
            (omega arith),
        behind-append q (codes ",'" ++ (e ++ (codes "'," ++ (to_string now ++ codes ")")))) 39
            q_high (omega arith),
        high-append e (codes "," ++ (to_string now ++ codes ")")) 39 e_high (omega arith),
        behind-append e (codes "," ++ (to_string now ++ codes ")")) 39 e_high (omega arith),
        but_last-append (to_string now) 41,
        q_plain,
        e_plain,
        strtoll-to_string now h,
      )
      refl

pub select_law :
    (q id : Bytes) (db : Db)
    → literal q ≡ some id
    → perform (select_sql q) db ≡ answered (row_list (find (matches id) db.rows)) db
unfolding select_sql
select_law q id db hq =
    let (q_high, q_plain) = literal_parts q id hq in rw (but_last-append q 39, q_plain) refl

pub page_law :
    (l o : ℕ) (db : Db)
    → l ≤ max_int64
    → o ≤ max_int64
    → perform (page_sql (pos l) (pos o)) db ≡ answered (map cells (take l (drop o db.rows))) db
unfolding page_sql to_string
page_law l o db hl ho =
    let digits = is_high_of_digits (nat_to_string l) (nat_to_string-IsDigit l) in
    rw
      (
        high-append (nat_to_string l) (codes "OFFSET " ++ nat_to_string o) 32 digits (omega arith),
        behind-append (nat_to_string l) (codes "OFFSET " ++ nat_to_string o) 32 digits
            (omega arith),
        number-to_string l hl,
        number-to_string o ho,
      )
      refl
