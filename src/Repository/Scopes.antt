-- ===== src/Repository/Scopes.antt =====
-- The scopes of guards and results, on a MySQL server and a Redis server that answer.
use httpserver_demo.Prelude.{ℕ, List, ◌∷◌, some, ◌≡◌, refl, ap, ◌∙◌}
use httpserver_demo.Effects.{returned, ret, continue, ◌>>=◌}
use httpserver_demo.Redis.{RedisClient}
use httpserver_demo.Redis.Server.{View, IsRedis, Shows}
use httpserver_demo.Mysql.Server.{Table, IsMysql, Live-Keeps}
use httpserver_demo.Mysql.Pool.{release}
use httpserver_demo.World.{Outside, World, Call, with_guard, with_result, end_guard, start_guard}
use httpserver_demo.World.Steady.{acquire_top}
use httpserver_demo.Repository.Steps.{Ready}

-- The world in which the scope of a guard runs.
abbrev pub inside : {E : Outside} → World E → List ℕ → World E
inside w rest = record w { pool = record w.pool { idle = rest } }

module _ {E : Outside} {S : IsMysql E.mysql} {C : RedisClient E.redis → Type 0} where
  pub inside-At :
      {n : ℕ} {t : Table} (w : World E) (rest : List ℕ)
      → Ready S C n w t
      → Ready S C n (inside w rest) t
  inside-At w rest h = record {
    shows = h.shows;
    table = h.table;
    connected = h.connected;
    size = h.size;
  }

module _ {E : Outside} (S : IsMysql E.mysql) {A : Type 0} where
  -- A call that returns `a` and leaves this table and such a cache.
  pub record Ends (C : RedisClient E.redis → Type 0) (n : ℕ) (m : Call E A) (w : World E) (a : A)
      (t : Table) : Type 0 where
    pub after : World E
    pub run : m w ≡ (returned a, after)
    pub at_end : Ready S C n after t

  module _ {C : RedisClient E.redis → Type 0} {n : ℕ} {a : A} {t : Table} where
    pub with_result_step :
        (r : E.mysql.Result) (m : Call E A) (w : World E)
        → Ends C n m w a t
        → Ends C n (with_result E (some r) m) w a t
    unfolding with_result
    with_result_step r m w h = record {
      after = record h.after { db = E.mysql.free_result r h.after.db };
      run = ap (λ out. (out.0, record out.1 { db = E.mysql.free_result r out.1.db })) h.run;
      at_end = record {
        shows = h.at_end.shows;
        table = S.view-free_result r h.after.db ∙ h.at_end.table;
        connected =
            Live-Keeps S h.after.db (E.mysql.free_result r h.after.db) h.after.pool.conns
              (S.free_result-Keeps r h.after.db) h.at_end.connected;
        size = h.at_end.size;
      };
    }

    unfoldable pub with_guard_step :
        (body : ℕ → Call E A) (w : World E) (i : ℕ) (rest : List ℕ)
        → w.pool.idle ≡ i ∷ rest
        → Ends C n (body i) (inside w rest) a t
        → Ends C n (with_guard E body) w a t
    unfolding with_guard release
    with_guard_step body w i rest top h = record {
      after = record h.after { pool = release E.mysql i h.after.pool };
      run = ap (λ p. start_guard E p body w) (acquire_top w i rest top) ∙ ap (end_guard E i) h.run;
      at_end = record {
        shows = h.at_end.shows;
        table = h.at_end.table;
        connected = h.at_end.connected;
        size = h.at_end.size;
      };
    }

module _ {E : Outside} (S : IsMysql E.mysql) {A B : Type 0} where
  -- A step that returns, and what follows it.
  unfoldable pub then_step :
      {n : ℕ} {a : A} {b : B} {C : RedisClient E.redis → Type 0} {t : Table} (m : Call E A)
      (f : A → Call E B) (w w₁ : World E)
      → m w ≡ (returned a, w₁)
      → Ends S C n (f a) w₁ b t
      → Ends S C n (m >>= f) w b t
  then_step m f w w₁ e h = record {
    after = h.after;
    run = ap (continue f) e ∙ h.run;
    at_end = h.at_end;
  }

module _ {E : Outside} (S : IsMysql E.mysql) {A : Type 0} where
  unfoldable pub ret_step :
      {n : ℕ} {C : RedisClient E.redis → Type 0} {t : Table} (a : A) (w : World E)
      → Ready S C n w t
      → Ends S C n (ret a) w a t
  ret_step a w h = record { after = w; run = refl; at_end = h }

module _ {E : Outside} (R : IsRedis E.redis) (S : IsMysql E.mysql) {A : Type 0} where
  -- A call that returns `a` and leaves this view and this table.
  abbrev pub Returns : ℕ → Call E A → World E → A → View → Table → Type 0
  Returns n m w a v t = Ends S (λ c. Shows R c v) n m w a t
