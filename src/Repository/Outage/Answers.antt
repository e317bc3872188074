-- ===== src/Repository/Outage/Answers.antt =====
-- What the reads return while Redis is gone.
use mathlib.Core.Option
use httpserver_demo.Prelude.{
  ℕ, ◌<◌, ◌≤◌, some, Bytes, pos, NoNul, All, length, max_int64, ◌≡◌, ap, sym, subst, ◌∙◌,
  bind_option,
}
use httpserver_demo.Effects.{returned, ◌>>=◌}
use httpserver_demo.Json.{IsJson}
use httpserver_demo.Redis.Outage.{StaysDown}
use httpserver_demo.Mysql.Server.{Table, IsMysql}
use httpserver_demo.World.{Outside, World, Call, first_some, with_guard}
use httpserver_demo.Repository.{
  decode_user, decode_page, number_of_text, select_user, get_user, user_key, count_and_select,
  list_users, list_cache_key, count_users, with_requests, get_stats, total_users_key,
}
use httpserver_demo.Repository.Fits.{page_of}
use httpserver_demo.Repository.Connections.{get_user-IsFair, list_users-IsFair, get_stats-IsFair}
use httpserver_demo.Repository.Reads.Path.{user_at}
use httpserver_demo.Repository.Scopes.{then_step}
use httpserver_demo.Repository.Outage.{Degraded, Ends-Degraded, get_then, guard_then}
use httpserver_demo.Repository.Outage.Reads.{
  Reads, On, selected, page_counted, total_counted, no_requests,
}

module _ (E : Outside) (J : IsJson E.json) (S : IsMysql E.mysql) {Dead : E.redis.Server → Type 0}
    (D : StaysDown E.redis Dead) where
  module _ (w : World E) (t : Table) (c : Degraded E J S D w t) where
    -- The scope of a guard, after a read of the cache that found nothing.
    missed :
        {A : Type 0} (body : ℕ → Call E A) (a : A) (w' : World E)
        → w'.pool ≡ w.pool
        → On E J S D c.count t w'
        → ((w₁ : World E) (i : ℕ)
            → i < c.count
            → On E J S D c.count t w₁
            → Reads E J S D c.count t (body i) w₁ a)
        → Reads E J S D c.count t (with_guard E body) w' a
    missed body a w' same at_w' rest =
        guard_then E J S D c.count body w' at_w'
          (subst (λ p. All (λ i. i < c.count) p.idle) (sym same) c.idle)
          (λ e. c.some_idle (ap (λ p. p.idle) (sym same) ∙ e)) rest

    -- While Redis is gone, with a pool whose connections are logged in and one of them idle:
    -- `GetUser` returns the user that the table has under the id, or none; `ListUsers` returns the
    -- page and the number of rows; and `GetStats` the number of rows and 0 requests. The table
    -- stays, Redis stays gone and the connections are given back. Ids hold no NUL, limit and offset
    -- are not negative, and the rows are plain texts.
    pub reads-Degraded :
        (id : Bytes) (l o : ℕ)
        → NoNul id
        → l ≤ max_int64
        → o ≤ max_int64
        → (((get_user E id w).0 ≡ returned (user_at S t id))
            × Degraded E J S D (get_user E id w).1 t)
          × (((list_users E (pos l) (pos o) w).0 ≡ returned (some (page_of t l o)))
              × Degraded E J S D (list_users E (pos l) (pos o) w).1 t)
          × (((get_stats E w).0 ≡ returned (some (pos (length t), pos 0)))
              × Degraded E J S D (get_stats E w).1 t)
    unfolding get_user list_users get_stats
    reads-Degraded id l o plain l_max o_max = (
      Ends-Degraded E J S D (get_user E id) w c (get_user-IsFair E id)
          (get_then E J S D c.count (user_key id)
            (λ cached.
              first_some E (bind_option cached (decode_user E)) (with_guard E (select_user E id)))
            w c.state
            (λ w' same at_w'.
              missed (select_user E id) (user_at S t id) w' same at_w'
                (λ w₁ i within at_w₁. selected E J S D c.count t c.plain id w₁ i within at_w₁)))
          c.plain c.small,
      Ends-Degraded E J S D (list_users E (pos l) (pos o)) w c (list_users-IsFair E (pos l) (pos o))
          (get_then E J S D c.count (list_cache_key (pos l) (pos o))
            (λ cached.
              first_some E (bind_option cached (decode_page E))
                (with_guard E (count_and_select E (pos l) (pos o))))
            w c.state
            (λ w' same at_w'.
              missed (count_and_select E (pos l) (pos o)) (some (page_of t l o)) w' same at_w'
                (page_counted E J S D c.count t c.plain l o l_max o_max c.small)))
          c.plain c.small,
      Ends-Degraded E J S D (get_stats E) w c (get_stats-IsFair E)
          (get_then E J S D c.count total_users_key
            (λ cached.
              first_some E (Option.map number_of_text cached) (with_guard E (count_users E))
              >>= with_requests E)
            w c.state
            (λ w' same at_w'.
              let counted =
                missed (count_users E) (some (pos (length t))) w' same at_w' (λ w₁ i within at_w₁.
                  total_counted E J S D c.count t c.plain w₁ i c.small within at_w₁) in
              then_step S (with_guard E (count_users E)) (with_requests E) w' counted.after
                counted.run
                (no_requests E J S D c.count t c.plain counted.after (pos (length t))
                  counted.at_end)))
          c.plain c.small,
    )
