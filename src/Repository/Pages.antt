-- ===== src/Repository/Pages.antt =====
-- `ListUsers` answers the page of the table, whatever is in a coherent cache.
pub mod Path
use httpserver_demo.Prelude.{
  ℕ, ◌<◌, ◌≤◌, List, [], ◌∷◌, map, Option, some, arith, Bytes, codes, pos, ℤ, NoNul, All,
  All-append, All-take, All-drop, List-cases, length, take, drop, max_int64, bind_option,
  Option-cases, ◌≡◌, ◌≢◌, ◌∙◌, refl, sym, ap, subst, inl, inr,
}
use httpserver_demo.Decimal.{nat_to_string, to_string}
use httpserver_demo.Effects.{ret, returned, ◌>>=◌, or_throw}
use httpserver_demo.Json.{IsJson, User}
use httpserver_demo.Redis
use httpserver_demo.Redis.Server.{text, members, View, update, text_of, as_members, IsRedis}
use httpserver_demo.Mysql
use httpserver_demo.Mysql.Server.{Account, Table, IsMysql, Answers, cells}
use httpserver_demo.Sql.{count_sql, page_sql}
use httpserver_demo.World.{
  Outside, World, Call, on_cache, on_conn, on_rows, with_result, with_guard, first_some,
}
use httpserver_demo.Repository.{
  list_cache_key, list_cache_index, list_cache_ttl, page_to_json, decode_page, fill_page,
  select_page, count_and_select, list_users,
}
use httpserver_demo.Repository.Keys.{list_cache_key-NoNul, to_string-NoNul, page-index}
use httpserver_demo.Repository.Fits.{user_of, page_of, Fits, Fits-page}
use httpserver_demo.Repository.Coherence.{
  IsPlain, map-user_of_row-cells, dump_of_page, decode_page-dump, Coherent, ends_coherent,
}
use httpserver_demo.Repository.Connections.{list_users-IsFair}
use httpserver_demo.Repository.Counts.{count_of_count, count_step}
use httpserver_demo.Repository.Steps.{At, entry_of_text, get_step, set_step, sadd_step}
use httpserver_demo.Repository.Statements.{query_step}
use httpserver_demo.Repository.Threads.{
  Task, list_cached, list_count, list_select, list_fill, list_index, listed, page_hit, advance,
}
use httpserver_demo.Repository.Threads.Solo.{Solo, stop, go, go_to}
use httpserver_demo.Repository.Scopes.{
  Returns, inside, inside-At, with_result_step, with_guard_step, then_step, ret_step,
}
use httpserver_demo.Repository.Pages.Path.{Page-read}

module _ (E : Outside) (J : IsJson E.json) (R : IsRedis E.redis) (S : IsMysql E.mysql) where
  -- The call returns the page, and does what its task does by itself.
  pub list_users-Solo :
      (w : World E) (t : Table) (l o : ℕ) (c : Coherent E J R S w t)
      → l ≤ max_int64
      → o ≤ max_int64
      → ((list_users E (pos l) (pos o) w).0 ≡ returned (some (page_of t l o)))
        × (c' : Coherent E J R S (list_users E (pos l) (pos o) w).1 t) × Solo E S.matches
            R.add_member
            (listed l o (page_of t l o))
            c'.view
            t
            (list_cached l o)
            c.view
            t
  unfolding list_users advance
  list_users-Solo w t l o c l_max o_max =
      let key_plain = list_cache_key-NoNul (pos l) (pos o) in
      let (w₁, run, at_w₁) =
        get_step R S c.count w c.state (list_cache_key (pos l) (pos o)) key_plain in
      let same_idle : w.pool.idle ≡ w₁.pool.idle = ap (λ out. out.1.pool.idle) run in
      let (v', reads, fits, path) =
        Page-read E J R S c.count l o l_max o_max c.small c.plain c.fits w₁ at_w₁
          (subst (All (λ i. i < c.count)) same_idle c.idle) (λ e. c.some_idle (same_idle ∙ e)) in
      let (out, c', shown) =
        ends_coherent E J R S (list_users E (pos l) (pos o)) w c refl
          (list_users-IsFair E (pos l) (pos o))
          (then_step S (on_cache E (Redis.get E.redis (list_cache_key (pos l) (pos o))))
            (λ cached.
              first_some E (bind_option cached (decode_page E))
                (with_guard E (count_and_select E (pos l) (pos o))))
            w w₁ run reads)
          fits c.plain c.small in
      (
        out,
        c',
        subst
            (λ x.
              Solo E S.matches R.add_member (listed l o (page_of t l o)) x t (list_cached l o)
                c.view t)
            (sym shown) (go path),
      )

  -- On a coherent state, `ListUsers` returns the rows of the table from the offset on, at most as
  -- many as the limit, and the number of rows in all, and leaves the state coherent with the same
  -- table. Limit and offset are not negative.
  pub list_users-Coherent :
      (w : World E) (t : Table) (l o : ℕ)
      → Coherent E J R S w t
      → l ≤ max_int64
      → o ≤ max_int64
      → ((list_users E (pos l) (pos o) w).0 ≡ returned (some (page_of t l o)))
        × Coherent E J R S (list_users E (pos l) (pos o) w).1 t
  list_users-Coherent w t l o c l_max o_max =
      let (out, c', path) = list_users-Solo w t l o c l_max o_max in (out, c')
