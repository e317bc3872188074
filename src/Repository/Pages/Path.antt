-- ===== src/Repository/Pages/Path.antt =====
-- The steps of `ListUsers` of src/store/user_repository.cpp on a coherent cache, one for one those of
-- its task.
use httpserver_demo.Prelude.{
  ℕ, ◌<◌, ◌≤◌, List, [], ◌∷◌, map, Option, some, arith, Bytes, codes, pos, ℤ, NoNul, All,
  All-append, All-take, All-drop, List-cases, length, take, drop, max_int64, bind_option,
  Option-cases, ◌≡◌, ◌≢◌, refl, sym, ap, subst, inl, inr,
}
use httpserver_demo.Decimal.{nat_to_string, to_string}
use httpserver_demo.Effects.{ret, ◌>>=◌, or_throw}
use httpserver_demo.Json.{IsJson, User}
use httpserver_demo.Redis
use httpserver_demo.Redis.Server.{text, members, View, update, text_of, as_members, IsRedis}
use httpserver_demo.Mysql
use httpserver_demo.Mysql.Server.{Account, Table, IsMysql, cells}
use httpserver_demo.Sql.{count_sql, page_sql}
use httpserver_demo.World.{
  Outside, World, Call, on_cache, on_conn, on_rows, with_result, with_guard, first_some,
}
use httpserver_demo.Repository.{
  list_cache_key, list_cache_index, list_cache_ttl, page_to_json, decode_page, fill_page,
  select_page, count_and_select,
}
use httpserver_demo.Repository.Keys.{list_cache_key-NoNul, to_string-NoNul, page-index}
use httpserver_demo.Repository.Fits.{user_of, page_of, Fits, Fits-page}
use httpserver_demo.Repository.Coherence.{
  IsPlain, map-user_of_row-cells, dump_of_page, decode_page-dump,
}
use httpserver_demo.Repository.Counts.{count_of_count, count_step}
use httpserver_demo.Repository.Steps.{At, entry_of_text, set_step, sadd_step}
use httpserver_demo.Repository.Statements.{query_step}
use httpserver_demo.Repository.Threads.{
  Task, list_count, list_select, list_fill, list_index, listed, page_hit, advance,
}
use httpserver_demo.Repository.Threads.Solo.{Solo, stop, go, go_to}
use httpserver_demo.Repository.Scopes.{
  Returns, inside, inside-At, with_result_step, with_guard_step, then_step, ret_step,
}

pub page_sql-NoNul : (l o : ℤ) → NoNul (page_sql l o)
unfolding page_sql
page_sql-NoNul l o =
    All-append _ (codes "SELECT id, name, email, created_at FROM users ORDER BY id LIMIT ") _
      (omega arith)
      (All-append _ (to_string l) _ (to_string-NoNul l)
        (All-append _ (codes " OFFSET ") _ (omega arith) (to_string-NoNul o)))

module _ (E : Outside) (J : IsJson E.json) (R : IsRedis E.redis) (S : IsMysql E.mysql) where
  module _ (n : ℕ) {v : View} {t : Table} (l o : ℕ) (l_max : l ≤ max_int64) (o_max : o ≤ max_int64)
      (small : length t ≤ max_int64) (p : All (IsPlain E J) t) (f : Fits E S.matches v t) where
    abbrev key : Bytes
    key = list_cache_key (pos l) (pos o)

    abbrev accounts : List Account
    accounts = take l (drop o t)

    -- The call returns the page, as the steps of a task do.
    abbrev pub Page : Task → Call E (Option (List User × ℤ)) → World E → Type 0
    Page k m w =
        (v' : View) × Returns R S n m w (some (page_of t l o)) v' t
        × Fits E S.matches v' t
        × Solo E S.matches R.add_member (listed l o (page_of t l o)) v' t k v t

    fill_step :
        (w : World E)
        → At R S n w v t
        → Page
            (list_fill l o (page_of t l o))
            (fill_page E key (pos (length t)) (map cells accounts))
            w
    unfolding fill_page advance
    fill_step w at_w =
        let plain = All-take (IsPlain E J) l (drop o t) (All-drop (IsPlain E J) o t p) in
        let total : ℤ = pos (length t) in
        let (s, dumped) = dump_of_page E J accounts total plain in
        let (back, s_plain) = decode_page-dump E J (map user_of accounts) total s dumped in
        let key_plain = list_cache_key-NoNul (pos l) (pos o) in
        let (w₁, run, at_w₁) = set_step R S n w at_w key s 9 key_plain s_plain in
        let held : as_members (update v key (some (text s)) list_cache_index) ≡ some f.index =
          rw (page-index (pos l) (pos o)) f.indexed in
        let (w₂, run₂, at_w₂) =
          sadd_step R S n w₁ at_w₁ list_cache_index key f.index (omega arith) key_plain held in
        rw (map-user_of_row-cells E J accounts plain) (
          update (update v key (some (text s))) list_cache_index
              (some (members (R.add_member f.index key))),
          then_step S (or_throw (E.json.dump (page_to_json E (map user_of accounts) total))) _ w w
              (ap (λ d. or_throw d w) dumped)
              (then_step S (on_cache E (Redis.set E.redis key s (pos list_cache_ttl)))
                (λ _. on_cache E (Redis.sadd E.redis list_cache_index key) >>= λ _.
                  ret (some (map user_of accounts, total)))
                w w₁ run
                (then_step S (on_cache E (Redis.sadd E.redis list_cache_index key))
                  (λ _. ret (some (map user_of accounts, total))) w₁ w₂ run₂
                  (ret_step S (some (map user_of accounts, total)) w₂ at_w₂))),
          Fits-page E S.matches v t l o s (R.add_member f.index key) f
              (λ x. R.contains-add_member f.index key x) back,
          go_to E S.matches R.add_member (list_fill l o (page_of t l o))
              (list_index l o (page_of t l o)) v (update v key (some (text s))) t (rw dumped refl)
              (go_to E S.matches R.add_member (list_index l o (page_of t l o))
                (listed l o (page_of t l o)) (update v key (some (text s)))
                (update (update v key (some (text s))) list_cache_index
                  (some (members (R.add_member f.index key))))
                t (rw held refl) stop),
        )

    select_step :
        (w : World E) (i : ℕ)
        → At R S n w v t
        → i < n
        → Page
            (list_select l o (pos (length t)))
            (select_page E (pos l) (pos o) i ((nat_to_string (length t) ∷ []) ∷ []))
            w
    unfolding select_page advance
    select_step w i at_w within =
        let sql : Bytes = page_sql (pos l) (pos o) in
        let (r, w₁, run, rows, at_w₁) =
          query_step S n i w at_w within sql (map cells accounts) (page_sql-NoNul (pos l) (pos o))
            (λ h db used same. S.page h l o db t used same l_max o_max) in
        let (v', filled, fits, path) =
          subst (λ x. Page (list_fill l o (page_of t l o)) (fill_page E key (pos (length t)) x) w₁)
            (sym rows) (fill_step w₁ at_w₁) in
        rw (count_of_count (length t) small) (
          v',
          then_step S (on_conn E i (Mysql.query E.mysql sql))
              (λ res. with_result E res (on_rows E res (fill_page E key (pos (length t))))) w w₁ run
              (with_result_step S r (fill_page E key (pos (length t)) (E.mysql.rows r)) w₁ filled),
          fits,
          go path,
        )

    count_found :
        (w : World E) (i : ℕ)
        → At R S n w v t
        → i < n
        → Page (list_count l o) (count_and_select E (pos l) (pos o) i) w
    unfolding count_and_select advance
    count_found w i at_w within =
        let (r, w₁, run, rows, at_w₁) = count_step S n i w at_w within in
        let (v', found, fits, path) =
          subst
            (λ x. Page (list_select l o (pos (length t))) (select_page E (pos l) (pos o) i x) w₁)
            (sym rows) (select_step w₁ i at_w₁ within) in
        (
          v',
          then_step S (on_conn E i (Mysql.query E.mysql count_sql))
              (λ res. with_result E res (on_rows E res (select_page E (pos l) (pos o) i))) w w₁ run
              (with_result_step S r (select_page E (pos l) (pos o) i (E.mysql.rows r)) w₁ found),
          fits,
          go path,
        )

    missed-Page :
        (w : World E) (i : ℕ) (rest : List ℕ)
        → At R S n w v t
        → All (λ i. i < n) w.pool.idle
        → w.pool.idle ≡ i ∷ rest
        → Page (list_count l o) (with_guard E (count_and_select E (pos l) (pos o))) w
    missed-Page w i rest at_w within top =
        let (v', found, fits, path) =
          count_found (inside w rest) i (inside-At w rest at_w)
            (subst (All (λ i. i < n)) top within).0 in
        (v', with_guard_step S (count_and_select E (pos l) (pos o)) w i rest top found, fits, path)

    pub Page-read :
        (w : World E)
        → At R S n w v t
        → All (λ i. i < n) w.pool.idle
        → w.pool.idle ≢ []
        → Page
            (page_hit l o (bind_option (text_of (v key)) (decode_page E)))
            (first_some E
              (bind_option (text_of (v key)) (decode_page E))
              (with_guard E (count_and_select E (pos l) (pos o))))
            w
    Page-read w at_w within some_idle = elim (Option-cases (text_of (v key))) [
      | inr (s, e) ↦
          rw (e, f.pages l o s (entry_of_text _ s e))
            (v, ret_step S (some (page_of t l o)) w at_w, f, stop)
      | inl e ↦ rw e (elim (List-cases w.pool.idle) [
        | inl none_idle ↦ absurd (some_idle none_idle)
        | inr (i, rest, top) ↦ missed-Page w i rest at_w within top
      ])
    ]
