-- ===== src/Repository/Reads.antt =====
-- `GetUser` answers what the table says, whatever is in a coherent cache.
pub mod Path
use mathlib.Core.Option
use httpserver_demo.Prelude.{
  ℕ, Bool, ◌<◌, List, [], ◌∷◌, Option, none, some, arith, Bytes, codes, pos, NoNul, All, All-append,
  List-cases, bind_option, Option-cases, ◌≡◌, ◌≢◌, ◌∙◌, refl, sym, ap, subst, inl, inr,
}
use httpserver_demo.Effects.{ret, returned, ◌>>=◌, or_throw}
use httpserver_demo.Json.{IsJson, User, user_to_json_string}
use httpserver_demo.Redis
use httpserver_demo.Redis.Server.{text, View, update, text_of, IsRedis}
use httpserver_demo.Mysql
use httpserver_demo.Mysql.{MysqlApi}
use httpserver_demo.Mysql.Server.{Account, Table, IsMysql, cells, find, row_list, Answers}
use httpserver_demo.Sql.{select_sql}
use httpserver_demo.World.{
  Outside, World, Call, on_cache, on_conn, read_conn, on_rows, with_result, with_guard, first_some,
}
use httpserver_demo.Repository.{
  user_key, user_cache_ttl, fill_user, select_user, decode_user, get_user,
}
use httpserver_demo.Repository.Keys.{user_key-NoNul}
use httpserver_demo.Repository.Fits.{user_of, Fits, Fits-user}
use httpserver_demo.Repository.Coherence.{
  IsPlain, user_of_row-cells, dump_of_plain, decode_user-dump, Coherent, ends_coherent,
}
use httpserver_demo.Repository.Connections.{get_user-IsFair}
use httpserver_demo.Repository.Steps.{At, entry_of_text, get_step, set_step}
use httpserver_demo.Repository.Statements.{escape_step, query_step}
use httpserver_demo.Repository.Threads.{
  Task, get_cached, get_select, get_fill, got, user_hit, user_row, advance,
}
use httpserver_demo.Repository.Threads.Solo.{Solo, stop, go, go_to}
use httpserver_demo.Repository.Scopes.{
  Returns, inside, inside-At, with_result_step, with_guard_step, then_step, ret_step,
}
use httpserver_demo.Repository.Reads.Path.{user_at, after_get}

module _ (E : Outside) (J : IsJson E.json) (R : IsRedis E.redis) (S : IsMysql E.mysql) where
  -- The call returns what the table has, and does what its task does by itself.
  pub get_user-Solo :
      (w : World E) (t : Table) (id : Bytes) (c : Coherent E J R S w t)
      → NoNul id
      → ((get_user E id w).0 ≡ returned (user_at S t id))
        × (c' : Coherent E J R S (get_user E id w).1 t) × Solo E S.matches R.add_member
            (got id (user_at S t id))
            c'.view
            t
            (get_cached id)
            c.view
            t
  unfolding get_user advance
  get_user-Solo w t id c plain =
      let (w₁, run, at_w₁) =
        get_step R S c.count w c.state (user_key id) (user_key-NoNul id plain) in
      let same_idle : w.pool.idle ≡ w₁.pool.idle = ap (λ out. out.1.pool.idle) run in
      let (v', reads, fits, path) =
        after_get E J R S c.count id plain c.fits w₁ at_w₁ c.plain
          (subst (All (λ i. i < c.count)) same_idle c.idle) (λ e. c.some_idle (same_idle ∙ e)) in
      let (out, c', shown) =
        ends_coherent E J R S (get_user E id) w c refl (get_user-IsFair E id)
          (then_step S (on_cache E (Redis.get E.redis (user_key id)))
            (λ cached.
              first_some E (bind_option cached (decode_user E)) (with_guard E (select_user E id)))
            w w₁ run reads)
          fits c.plain c.small in
      (
        out,
        c',
        subst
            (λ x.
              Solo E S.matches R.add_member (got id (user_at S t id)) x t (get_cached id) c.view t)
            (sym shown) (go path),
      )

  -- On a coherent state, `GetUser` returns the user that the table has under the id, or none where
  -- it has none, and leaves the state coherent with the same table.
  pub get_user-Coherent :
      (w : World E) (t : Table) (id : Bytes)
      → Coherent E J R S w t
      → NoNul id
      → ((get_user E id w).0 ≡ returned (user_at S t id)) × Coherent E J R S (get_user E id w).1 t
  get_user-Coherent w t id c plain = let (out, c', path) = get_user-Solo w t id c plain in (out, c')
