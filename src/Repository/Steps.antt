-- ===== src/Repository/Steps.antt =====
-- The steps of the repository's commands to the cache, on a Redis server that answers.
use httpserver_demo.Prelude.{
  ℕ, suc, ◌+◌, max_int64, ◌<◌, true, List, Option, arith, none, some, Bytes, c_str, c_str_of_NoNul,
  pos, NoNul, All, length, ◌≡◌, sym, ap, ◌∙◌, subst,
}
use httpserver_demo.Decimal.{nat_to_string}
use httpserver_demo.Effects.{returned}
use httpserver_demo.Redis
use httpserver_demo.Redis.Server.{
  Entry, text, members, View, update, as_members, text_of, IsCount, IsRedis, Shows,
}
use httpserver_demo.Redis.Commands.{
  set-Shows, incr-Shows, get-Shows, del-Shows, sadd-Shows, smembers-Shows,
}
use httpserver_demo.Mysql.Server.{Table, IsMysql, Live}
use httpserver_demo.World.{Outside, World, on_cache}

pub entry_of_text : (o : Option Entry) (t : Bytes) → text_of o ≡ some t → o ≡ some (text t)
entry_of_text none t e = absurd (cc e)
entry_of_text (some (text x)) t e = ground arith
entry_of_text (some (members ms)) t e = absurd (cc e)

-- The cache is as it is said to be, the table is `t`, and the `n` connections of the pool are
-- logged in with its database.
pub record Ready {E : Outside} (S : IsMysql E.mysql) (C : Redis.RedisClient E.redis → Type 0)
    (n : ℕ) (w : World E) (t : Table) : Type 0 where
  pub shows : C w.cache
  pub table : S.view w.db ≡ some t
  pub connected : All (Live S w.db) w.pool.conns
  pub size : length w.pool.conns ≡ n

module _ {E : Outside} (R : IsRedis E.redis) (S : IsMysql E.mysql) where
  -- The cache shows `v`.
  abbrev pub At : ℕ → World E → View → Table → Type 0
  At n w v t = Ready S (λ c. Shows R c v) n w t

  module _ (n : ℕ) (w : World E) {v : View} {t : Table} (at_w : At n w v t) where
    cache_step :
        {A : Type 0} (f : Redis.RedisClient E.redis → A × Redis.RedisClient E.redis) (a : A)
        {v' : View}
        → (f w.cache).0 ≡ a
        → Shows R (f w.cache).1 v'
        → (w' : World E) × (on_cache E f w ≡ (returned a, w')) × At n w' v' t
    cache_step f a same shows = (
      record w { cache = (f w.cache).1 },
      ap (λ x. (returned x, record w { cache = (f w.cache).1 })) same,
      record { shows = shows; table = at_w.table; connected = at_w.connected; size = at_w.size },
    )

    pub set_step :
        (k s : Bytes) (ttl : ℕ)
        → NoNul k
        → NoNul s
        → (w' : World E) × (on_cache E (Redis.set E.redis k s (pos (suc ttl))) w
            ≡ (returned true, w'))
          × At n w' (update v k (some (text s))) t
    set_step k s ttl hk hs =
        let (same, shows) = set-Shows R k s ttl w.cache at_w.shows in
        cache_step (Redis.set E.redis k s (pos (suc ttl))) true same (
          subst (Shows R _)
            (ap (λ j. update v j (some (text (c_str s)))) (c_str_of_NoNul k hk)
              ∙ ap (λ x. update v k (some (text x))) (c_str_of_NoNul s hs))
            shows)

    pub get_step :
        (k : Bytes)
        → NoNul k
        → (w' : World E) × (on_cache E (Redis.get E.redis k) w ≡ (returned (text_of (v k)), w'))
          × At n w' v t
    get_step k hk =
        let (same, shows) = get-Shows R k w.cache at_w.shows in
        cache_step (Redis.get E.redis k) (text_of (v k))
          (same ∙ ap (λ j. text_of (v j)) (c_str_of_NoNul k hk)) shows

    pub del_step :
        (k : Bytes)
        → NoNul k
        → (w' : World E) × (on_cache E (Redis.del E.redis k) w ≡ (returned true, w'))
          × At n w' (update v k none) t
    del_step k hk =
        let (same, shows) = del-Shows R k w.cache at_w.shows in
        cache_step (Redis.del E.redis k) true same
          (subst (Shows R _) (ap (λ j. update v j none) (c_str_of_NoNul k hk)) shows)

    -- A deletion of a key that may hold a NUL.
    pub del_any_step :
        (k : Bytes)
        → (w' : World E) × (on_cache E (Redis.del E.redis k) w ≡ (returned true, w'))
          × At n w' (update v (c_str k) none) t
    del_any_step k =
        let (same, shows) = del-Shows R k w.cache at_w.shows in
        cache_step (Redis.del E.redis k) true same shows

    pub incr_step :
        (k : Bytes) (m : ℕ)
        → NoNul k
        → IsCount (v k) m
        → m < max_int64
        → (w' : World E) × (on_cache E (Redis.incr E.redis k) w
            ≡ (returned (some (pos (m + 1))), w'))
          × At n w' (update v k (some (text (nat_to_string (m + 1))))) t
    incr_step k m hk counted small =
        let same_key = c_str_of_NoNul k hk in
        let (same, shows) =
          incr-Shows R k m w.cache (subst (λ j. IsCount (v j) m) (sym same_key) counted) small
            at_w.shows in
        cache_step (Redis.incr E.redis k) (some (pos (m + 1))) same (
          subst (Shows R _) (ap (λ j. update v j (some (text (nat_to_string (m + 1))))) same_key)
            shows)

    pub sadd_step :
        (k m : Bytes) (ms : List Bytes)
        → NoNul k
        → NoNul m
        → as_members (v k) ≡ some ms
        → (w' : World E) × (on_cache E (Redis.sadd E.redis k m) w ≡ (returned true, w'))
          × At n w' (update v k (some (members (R.add_member ms m)))) t
    sadd_step k m ms hk hm held =
        let (same, shows) =
          sadd-Shows R k m ms w.cache (ap (λ j. as_members (v j)) (c_str_of_NoNul k hk) ∙ held)
            at_w.shows in
        cache_step (Redis.sadd E.redis k m) true same (
          subst (Shows R _)
            (ap (λ j. update v j (some (members (R.add_member ms (c_str m))))) (c_str_of_NoNul k hk)
              ∙ ap (λ x. update v k (some (members (R.add_member ms x)))) (c_str_of_NoNul m hm))
            shows)

    pub smembers_step :
        (k : Bytes) (ms : List Bytes)
        → NoNul k
        → as_members (v k) ≡ some ms
        → (w' : World E) × (on_cache E (Redis.smembers E.redis k) w ≡ (returned (some ms), w'))
          × At n w' v t
    smembers_step k ms hk held =
        let (same, shows) =
          smembers-Shows R k ms w.cache (ap (λ j. as_members (v j)) (c_str_of_NoNul k hk) ∙ held)
            at_w.shows in
        cache_step (Redis.smembers E.redis k) (some ms) same shows
