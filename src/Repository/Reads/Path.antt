-- ===== src/Repository/Reads/Path.antt =====
-- The steps of `GetUser` of src/store/user_repository.cpp on a coherent cache, one for one those of
-- its task.
use mathlib.Core.Option
use httpserver_demo.Prelude.{
  ℕ, Bool, ◌<◌, List, [], ◌∷◌, Option, none, some, arith, Bytes, codes, pos, NoNul, All, All-append,
  List-cases, bind_option, Option-cases, ◌≡◌, ◌≢◌, refl, sym, ap, subst, inl, inr,
}
use httpserver_demo.Effects.{ret, ◌>>=◌, or_throw}
use httpserver_demo.Json.{IsJson, User, user_to_json_string}
use httpserver_demo.Redis
use httpserver_demo.Redis.Server.{text, View, update, text_of, IsRedis}
use httpserver_demo.Mysql
use httpserver_demo.Mysql.{MysqlApi}
use httpserver_demo.Mysql.Server.{Account, Table, IsMysql, cells, find, row_list}
use httpserver_demo.Sql.{select_sql}
use httpserver_demo.World.{
  Outside, World, Call, on_cache, on_conn, read_conn, on_rows, with_result, with_guard, first_some,
}
use httpserver_demo.Repository.{user_key, user_cache_ttl, fill_user, select_user, decode_user}
use httpserver_demo.Repository.Keys.{user_key-NoNul}
use httpserver_demo.Repository.Fits.{user_of, Fits, Fits-user}
use httpserver_demo.Repository.Coherence.{
  IsPlain, user_of_row-cells, dump_of_plain, decode_user-dump,
}
use httpserver_demo.Repository.Steps.{At, entry_of_text, set_step}
use httpserver_demo.Repository.Statements.{escape_step, query_step}
use httpserver_demo.Repository.Threads.{
  Task, get_select, get_fill, got, user_hit, user_row, advance,
}
use httpserver_demo.Repository.Threads.Solo.{Solo, stop, go, go_to}
use httpserver_demo.Repository.Scopes.{
  Returns, inside, inside-At, with_result_step, with_guard_step, then_step, ret_step,
}

pub select_sql-NoNul : (q : Bytes) → NoNul q → NoNul (select_sql q)
unfolding select_sql
select_sql-NoNul q h =
    All-append _ (codes "SELECT id, name, email, created_at FROM users WHERE id='") _ (omega arith)
      (All-append _ q (codes "'") h (omega arith))

-- The user under an id.
abbrev pub user_at : {api : MysqlApi} → IsMysql api → Table → Bytes → Option User
user_at S t id = Option.map user_of (find (S.matches id) t)

pub find-IsPlain :
    (E : Outside) (J : IsJson E.json) (matches : ℕ → Bool) (t : Table) (a : Account)
    → All (IsPlain E J) t
    → find matches t ≡ some a
    → IsPlain E J a
find-IsPlain E J matches [] a h e = absurd (cc e)
find-IsPlain E J matches (b ∷ t) a h e = ground (arith, find-IsPlain E J matches t a h.1)

module _ (E : Outside) (J : IsJson E.json) (R : IsRedis E.redis) (S : IsMysql E.mysql) where
  module _ (n : ℕ) {v : View} {t : Table} (id : Bytes) (id_plain : NoNul id)
      (f : Fits E S.matches v t) where
    -- What the rest of the call returns, and leaves, as the steps of a task do.
    abbrev pub Read : Task → Call E (Option User) → World E → Option User → Type 0
    Read k m w u =
        (v' : View) × Returns R S n m w u v' t
        × Fits E S.matches v' t
        × Solo E S.matches R.add_member (got id u) v' t k v t

    fill_found :
        (w : World E) (a : Account)
        → At R S n w v t
        → IsPlain E J a
        → find (S.matches id) t ≡ some a
        → Read (get_fill id (user_of a)) (fill_user E id (cells a ∷ [])) w (some (user_of a))
    unfolding fill_user advance
    fill_found w a at_w p found =
        let (s, dumped) = dump_of_plain E J a p in
        let (back, plain) = decode_user-dump E J (user_of a) s dumped in
        let (w', run, at_w') =
          set_step R S n w at_w (user_key id) s 59 (user_key-NoNul id id_plain) plain in
        rw (user_of_row-cells E J a p) (
          update v (user_key id) (some (text s)),
          then_step S (or_throw (user_to_json_string E.json (user_of a))) _ w w
              (ap (λ o. or_throw o w) dumped)
              (then_step S (on_cache E (Redis.set E.redis (user_key id) s (pos user_cache_ttl)))
                (λ _. ret (some (user_of a))) w w' run (ret_step S (some (user_of a)) w' at_w')),
          Fits-user E S.matches v t id s (a, found, back) f,
          go_to E S.matches R.add_member (get_fill id (user_of a)) (got id (some (user_of a))) v
              (update v (user_key id) (some (text s))) t (rw dumped refl) stop,
        )

    fill_missing : (w : World E) → At R S n w v t → Read (got id none) (fill_user E id []) w none
    unfolding fill_user
    fill_missing w at_w = (v, ret_step S none w at_w, f, stop)

    fill_rows :
        (w : World E)
        → At R S n w v t
        → All (IsPlain E J) t
        → Read
            (user_row id (find (S.matches id) t))
            (fill_user E id (row_list (find (S.matches id) t)))
            w
            (user_at S t id)
    fill_rows w at_w p = elim (Option-cases (find (S.matches id) t)) [
      | inl e ↦ rw e (fill_missing w at_w)
      | inr (a, e) ↦ rw e (fill_found w a at_w (find-IsPlain E J (S.matches id) t a p e) e)
    ]

    select_found :
        (w : World E) (i : ℕ)
        → At R S n w v t
        → i < n
        → All (IsPlain E J) t
        → Read (get_select id) (select_user E id i) w (user_at S t id)
    unfolding select_user advance
    select_found w i at_w within p =
        let (q, escaped, denotes, plain) = escape_step S n i w at_w within id in
        let (r, w₁, run, rows, at_w₁) =
          query_step S n i w at_w within (select_sql q) (row_list (find (S.matches id) t))
            (select_sql-NoNul q plain) (λ h db used same. S.select h q id db t used same denotes) in
        let (v', filled, fits, path) =
          subst
            (λ l. Read (user_row id (find (S.matches id) t)) (fill_user E id l) w₁ (user_at S t id))
            (sym rows) (fill_rows w₁ at_w₁ p) in
        (
          v',
          then_step S (read_conn E i (Mysql.escape E.mysql id))
              (λ q. on_conn E i (Mysql.query E.mysql (select_sql q)) >>= λ res.
                with_result E res (on_rows E res (fill_user E id)))
              w w escaped
              (then_step S (on_conn E i (Mysql.query E.mysql (select_sql q)))
                (λ res. with_result E res (on_rows E res (fill_user E id))) w w₁ run
                (with_result_step S r (fill_user E id (E.mysql.rows r)) w₁ filled)),
          fits,
          go path,
        )

    cached_user :
        (w : World E) (s : Bytes) (other : Call E (Option User))
        → At R S n w v t
        → text_of (v (user_key id)) ≡ some s
        → Read
            (user_hit id (decode_user E s))
            (first_some E (decode_user E s) other)
            w
            (user_at S t id)
    cached_user w s other at_w e =
        let (a, found, decoded) = f.users id s (entry_of_text _ s e) in
        rw (decoded, found) (v, ret_step S (some (user_of a)) w at_w, f, stop)

    missed_user :
        (w : World E) (i : ℕ) (rest : List ℕ)
        → At R S n w v t
        → All (IsPlain E J) t
        → All (λ i. i < n) w.pool.idle
        → w.pool.idle ≡ i ∷ rest
        → Read (get_select id) (with_guard E (select_user E id)) w (user_at S t id)
    missed_user w i rest at_w p within top =
        let (v', selected, fits, path) =
          select_found (inside w rest) i (inside-At w rest at_w)
            (subst (All (λ i. i < n)) top within).0 p in
        (v', with_guard_step S (select_user E id) w i rest top selected, fits, path)

    pub after_get :
        (w : World E)
        → At R S n w v t
        → All (IsPlain E J) t
        → All (λ i. i < n) w.pool.idle
        → w.pool.idle ≢ []
        → Read
            (user_hit id (bind_option (text_of (v (user_key id))) (decode_user E)))
            (first_some E
              (bind_option (text_of (v (user_key id))) (decode_user E))
              (with_guard E (select_user E id)))
            w
            (user_at S t id)
    after_get w at_w p within some_idle = elim (Option-cases (text_of (v (user_key id)))) [
      | inr (s, e) ↦ rw e (cached_user w s _ at_w e)
      | inl e ↦ rw e (elim (List-cases w.pool.idle) [
        | inl none_idle ↦ absurd (some_idle none_idle)
        | inr (i, rest, top) ↦ missed_user w i rest at_w p within top
      ])
    ]
