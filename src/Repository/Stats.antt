-- ===== src/Repository/Stats.antt =====
-- `GetStats` counts what the table says, whatever is in a coherent cache.
use mathlib.Core.Option
use httpserver_demo.Prelude.{
  ℕ, ◌<◌, ◌≤◌, List, [], ◌∷◌, Option, some, arith, Bytes, pos, ℤ, All, List-cases, length,
  max_int64, Option-cases, ◌≡◌, ◌≢◌, ◌∙◌, refl, sym, ap, subst, inl, inr, c_str_of_NoNul,
}
use httpserver_demo.Decimal.{nat_to_string, to_string, strtoll}
use httpserver_demo.Decimal.RoundTrip.{strtoll-to_string}
use httpserver_demo.Effects.{ret, returned, ◌>>=◌}
use httpserver_demo.Json.{IsJson}
use httpserver_demo.Redis
use httpserver_demo.Redis.{RedisClient}
use httpserver_demo.Redis.Server.{text, View, update, text_of, IsRedis}
use httpserver_demo.Mysql
use httpserver_demo.Mysql.Server.{Table, IsMysql}
use httpserver_demo.Sql.{count_sql}
use httpserver_demo.World.{
  Outside, World, Call, on_cache, on_conn, on_rows, with_result, with_guard, first_some,
}
use httpserver_demo.Repository.{
  total_users_key, request_count_key, stats_cache_ttl, fill_total, count_users, number_of_text,
  count_or_zero, with_requests, get_stats,
}
use httpserver_demo.Repository.Keys.{to_string-NoNul}
use httpserver_demo.Repository.Fits.{Fits, Fits-total}
use httpserver_demo.Repository.Coherence.{Coherent, ends_coherent}
use httpserver_demo.Repository.Connections.{get_stats-IsFair}
use httpserver_demo.Repository.Steps.{At, entry_of_text, get_step, set_step}
use httpserver_demo.Repository.Threads.{
  Task, stats_cached, stats_count, stats_fill, stats_requests, stats_read, total_hit, advance,
}
use httpserver_demo.Repository.Threads.Solo.{Solo, stop, go, go_to, Solo-trans}
use httpserver_demo.Repository.Scopes.{
  Returns, inside, inside-At, with_result_step, with_guard_step, then_step, ret_step,
}
use httpserver_demo.Repository.Counts.{count_of_count, count_step}

module _ (E : Outside) (J : IsJson E.json) (R : IsRedis E.redis) (S : IsMysql E.mysql) where
  module _ (n : ℕ) {v : View} {t : Table} (small : length t ≤ max_int64)
      (f : Fits E S.matches v t) where
    -- The call returns the number of rows, as the steps of a task do.
    Total : Task → Call E (Option ℤ) → World E → Type 0
    Total k m w =
        (v' : View) × Returns R S n m w (some (pos (length t))) v' t
        × Fits E S.matches v' t
        × (v' request_count_key ≡ v request_count_key)
        × Solo E S.matches R.add_member (stats_requests (pos (length t))) v' t k v t

    fill_step :
        (w : World E)
        → At R S n w v t
        → Total
            (stats_fill (pos (length t)))
            (fill_total E ((nat_to_string (length t) ∷ []) ∷ []))
            w
    unfolding Total fill_total advance
    fill_step w at_w =
        let s : Bytes = to_string (pos (length t)) in
        let (w', run, at_w') =
          set_step R S n w at_w total_users_key s 29 (omega arith)
            (to_string-NoNul (pos (length t))) in
        rw (count_of_count (length t) small) (
          update v total_users_key (some (text s)),
          then_step S (on_cache E (Redis.set E.redis total_users_key s (pos stats_cache_ttl)))
              (λ _. ret (some (pos (length t)))) w w' run
              (ret_step S (some (pos (length t))) w' at_w'),
          Fits-total E S.matches v t s
              (ap strtoll (c_str_of_NoNul s (to_string-NoNul (pos (length t))))
                ∙ strtoll-to_string (pos (length t)) small)
              f,
          refl,
          go stop,
        )

    count_found :
        (w : World E) (i : ℕ) → At R S n w v t → i < n → Total stats_count (count_users E i) w
    unfolding Total count_users advance
    count_found w i at_w within =
        let (r, w₁, run, rows, at_w₁) = count_step S n i w at_w within in
        let (v', filled, fits, kept, path) =
          subst (λ l. Total (stats_fill (pos (length t))) (fill_total E l) w₁) (sym rows)
            (fill_step w₁ at_w₁) in
        (
          v',
          then_step S (on_conn E i (Mysql.query E.mysql count_sql))
              (λ res. with_result E res (on_rows E res (fill_total E))) w w₁ run
              (with_result_step S r (fill_total E (E.mysql.rows r)) w₁ filled),
          fits,
          kept,
          go path,
        )

    missed-Total :
        (w : World E) (i : ℕ) (rest : List ℕ)
        → At R S n w v t
        → All (λ i. i < n) w.pool.idle
        → w.pool.idle ≡ i ∷ rest
        → Total stats_count (with_guard E (count_users E)) w
    unfolding Total
    missed-Total w i rest at_w within top =
        let (v', found, fits, kept, path) =
          count_found (inside w rest) i (inside-At w rest at_w)
            (subst (All (λ i. i < n)) top within).0 in
        (v', with_guard_step S (count_users E) w i rest top found, fits, kept, path)

    Total-read :
        (w : World E)
        → At R S n w v t
        → All (λ i. i < n) w.pool.idle
        → w.pool.idle ≢ []
        → Total
            (total_hit (text_of (v total_users_key)))
            (first_some E
              (Option.map number_of_text (text_of (v total_users_key)))
              (with_guard E (count_users E)))
            w
    unfolding Total
    Total-read w at_w within some_idle = elim (Option-cases (text_of (v total_users_key))) [
      | inr (s, e) ↦
          rw (e, f.total s (entry_of_text _ s e))
            (v, ret_step S (some (pos (length t))) w at_w, f, refl, stop)
      | inl e ↦ rw e (elim (List-cases w.pool.idle) [
        | inl none_idle ↦ absurd (some_idle none_idle)
        | inr (i, rest, top) ↦ missed-Total w i rest at_w within top
      ])
    ]

  requests_step :
      (n : ℕ) (w : World E) {v : View} {t : Table}
      → At R S n w v t
      → (total : ℤ)
      → Returns R S n
          (with_requests E (some total))
          w
          (some (total, count_or_zero (text_of (v request_count_key))))
          v
          t
  unfolding with_requests
  requests_step n w {v = v} at_w total =
      let (w₁, run, at_w₁) = get_step R S n w at_w request_count_key (omega arith) in
      then_step S (on_cache E (Redis.get E.redis request_count_key))
        (λ count. ret (some (total, count_or_zero count))) w w₁ run
        (ret_step S (some (total, count_or_zero (text_of (v request_count_key)))) w₁ at_w₁)

  -- The call returns the number of rows, and does what its task does by itself.
  pub get_stats-Solo :
      (w : World E) (t : Table) (c : Coherent E J R S w t)
      → let requests = count_or_zero (text_of (c.view request_count_key)) in
        ((get_stats E w).0 ≡ returned (some (pos (length t), requests)))
        × (c' : Coherent E J R S (get_stats E w).1 t) × Solo E S.matches R.add_member
            (stats_read (pos (length t)) requests)
            c'.view
            t
            stats_cached
            c.view
            t
  unfolding Total get_stats advance
  get_stats-Solo w t c =
      let (w₁, run, at_w₁) = get_step R S c.count w c.state total_users_key (omega arith) in
      let same_idle : w.pool.idle ≡ w₁.pool.idle = ap (λ out. out.1.pool.idle) run in
      let (v', reads, fits, kept, path) =
        Total-read c.count c.small c.fits w₁ at_w₁ (subst (All (λ i. i < c.count)) same_idle c.idle)
          (λ e. c.some_idle (same_idle ∙ e)) in
      let last = requests_step c.count reads.after reads.at_end (pos (length t)) in
      let (out, c', shown) =
        ends_coherent E J R S (get_stats E) w c refl (get_stats-IsFair E)
          (subst
            (λ e.
              Returns R S c.count (get_stats E) w (some (pos (length t), count_or_zero (text_of e)))
                v' t)
            kept
            (then_step S (on_cache E (Redis.get E.redis total_users_key))
              (λ cached.
                first_some E (Option.map number_of_text cached) (with_guard E (count_users E))
                >>= with_requests E)
              w w₁ run
              (then_step S
                (first_some E (Option.map number_of_text (text_of (c.view total_users_key)))
                  (with_guard E (count_users E)))
                (with_requests E) w₁ reads.after reads.run last)))
          fits c.plain c.small in
      (
        out,
        c',
        subst
            (λ x.
              Solo E S.matches R.add_member
                (stats_read (pos (length t)) (count_or_zero (text_of (c.view request_count_key)))) x
                t stats_cached c.view t)
            (sym shown)
            (go (
              Solo-trans E S.matches R.add_member path (
                go_to E S.matches R.add_member (stats_requests (pos (length t)))
                  (stats_read (pos (length t)) (count_or_zero (text_of (c.view request_count_key))))
                  v' v' t
                  (ap (λ e. (stats_read (pos (length t)) (count_or_zero (text_of e)), v')) kept)
                  stop))),
      )

  -- On a coherent state, `GetStats` returns the number of rows of the table and the number of
  -- requests that Redis holds, 0 where it holds none, and leaves the state coherent with the same
  -- table.
  pub get_stats-Coherent :
      (w : World E) (t : Table) (c : Coherent E J R S w t)
      → ((get_stats E w).0
          ≡ returned (some (pos (length t), count_or_zero (text_of (c.view request_count_key)))))
        × Coherent E J R S (get_stats E w).1 t
  get_stats-Coherent w t c = let (out, c', path) = get_stats-Solo w t c in (out, c')
