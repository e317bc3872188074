-- ===== src/Repository/Outage.antt =====
-- The calls of src/store/user_repository.cpp while Redis is gone: the states in which they run, and
-- their steps.
pub mod Reads
pub mod Answers
pub mod Creation
use httpserver_demo.Prelude.{
  ℕ, ◌<◌, ◌≤◌, List, [], ◌∷◌, Option, none, some, Bytes, ℤ, All, length, max_int64, ◌≡◌, ◌≢◌, refl,
  ap, sym, subst, ◌∙◌, List-cases, inl, inr,
}
use httpserver_demo.Effects.{returned, ret, ◌>>=◌}
use httpserver_demo.Json.{IsJson}
use httpserver_demo.Redis
use httpserver_demo.Redis.{RedisClient}
use httpserver_demo.Redis.Outage.{StaysDown, get_fails, get_stays}
use httpserver_demo.Mysql.Server.{Table, IsMysql}
use httpserver_demo.World.{Outside, World, Call, on_cache, with_guard}
use httpserver_demo.World.Steady.{IsFair}
use httpserver_demo.Repository.Coherence.{IsPlain}
use httpserver_demo.Repository.Steps.{Ready}
use httpserver_demo.Repository.Scopes.{Ends, inside, inside-At, with_guard_step, then_step}

module _ (E : Outside) (J : IsJson E.json) (S : IsMysql E.mysql) {Dead : E.redis.Server → Type 0}
    (D : StaysDown E.redis Dead) where
  abbrev pub Gone : RedisClient E.redis → Type 0
  Gone c = Dead c.server

  -- Redis is gone, the table is `t`, and the pool has an idle connection, all of them
  -- logged in with its database.
  pub record Degraded (w : World E) (t : Table) : Type 0 where
    pub count : ℕ
    pub state : Ready S Gone count w t
    pub plain : All (IsPlain E J) t
    pub small : length t ≤ max_int64
    pub idle : All (λ i. i < count) w.pool.idle
    pub some_idle : w.pool.idle ≢ []

  pub Ends-Degraded :
      {A : Type 0} (m : Call E A) (w : World E) {t t' : Table} {a : A} (c : Degraded w t)
      → IsFair m
      → Ends S Gone c.count m w a t'
      → All (IsPlain E J) t'
      → length t' ≤ max_int64
      → ((m w).0 ≡ returned a) × Degraded (m w).1 t'
  Ends-Degraded m w {t' = t'} c fair h plain small = (
    ap (λ out. out.0) h.run,
    record {
      count = c.count;
      state = subst (λ x. Ready S Gone c.count x t') (sym (ap (λ out. out.1) h.run)) h.at_end;
      plain = plain;
      small = small;
      idle = subst (All (λ i. i < c.count)) (sym (fair.idle w c.some_idle)) c.idle;
      some_idle = λ e. c.some_idle (sym (fair.idle w c.some_idle) ∙ e);
    },
  )

  module _ (n : ℕ) {t : Table} where
    pub gone_step :
        {A : Type 0} (f : RedisClient E.redis → A × RedisClient E.redis) (a : A) (w : World E)
        → Ready S Gone n w t
        → (f w.cache).0 ≡ a
        → Dead (f w.cache).1.server
        → (w' : World E) × (on_cache E f w ≡ (returned a, w')) × Ready S Gone n w' t
    gone_step f a w at_w same gone = (
      record w { cache = (f w.cache).1 },
      ap (λ x. (returned x, record w { cache = (f w.cache).1 })) same,
      record { shows = gone; table = at_w.table; connected = at_w.connected; size = at_w.size },
    )

    -- A command whose answer the call does not look at, or that is known, and what follows it.
    pub gone_then :
        {A B : Type 0} {b : B} {t' : Table} (f : RedisClient E.redis → A × RedisClient E.redis)
        (a : A) (k : A → Call E B) (w : World E)
        → Ready S Gone n w t
        → (f w.cache).0 ≡ a
        → Dead (f w.cache).1.server
        → ((w' : World E) → w'.pool ≡ w.pool → Ready S Gone n w' t → Ends S Gone n (k a) w' b t')
        → Ends S Gone n (on_cache E f >>= k) w b t'
    unfolding gone_step
    gone_then f a k w at_w same gone rest =
        let w' : World E = record w { cache = (f w.cache).1 } in
        let (_, run, at_w') = gone_step f a w at_w same gone in
        then_step S (on_cache E f) k w w' run (rest w' refl at_w')

    -- A read of the cache finds nothing.
    pub get_then :
        {B : Type 0} {b : B} {t' : Table} (key : Bytes) (k : Option Bytes → Call E B) (w : World E)
        → Ready S Gone n w t
        → ((w' : World E) → w'.pool ≡ w.pool → Ready S Gone n w' t → Ends S Gone n (k none) w' b t')
        → Ends S Gone n (on_cache E (Redis.get E.redis key) >>= k) w b t'
    get_then key k w at_w =
        gone_then (Redis.get E.redis key) none k w at_w (get_fails D w.cache at_w.shows key)
          (get_stays D w.cache at_w.shows key)

    -- A scope on an idle connection.
    pub guard_then :
        {B : Type 0} {b : B} {t' : Table} (body : ℕ → Call E B) (w : World E)
        → Ready S Gone n w t
        → All (λ i. i < n) w.pool.idle
        → w.pool.idle ≢ []
        → ((w' : World E) (i : ℕ) → i < n → Ready S Gone n w' t → Ends S Gone n (body i) w' b t')
        → Ends S Gone n (with_guard E body) w b t'
    guard_then body w at_w within some_idle rest = elim (List-cases w.pool.idle) [
      | inl none_idle ↦ absurd (some_idle none_idle)
      | inr (i, others, top) ↦ with_guard_step S body w i others top (
          rest (inside w others) i (subst (All (λ i. i < n)) top within).0
            (inside-At w others at_w))
    ]
