-- ===== src/World/Steady.antt =====
-- Calls that give every connection back and do not wait for ever, whatever MySQL, Redis and the
-- JSON library do.
use httpserver_demo.Prelude.{
  ℕ, List, [], ◌∷◌, Option, none, some, arith, ◌≡◌, ◌≢◌, refl, sym, ap, ◌∙◌, List-cases, inl, inr,
}
use httpserver_demo.Effects.{
  Outcome, returned, threw, blocked, ret, continue, ◌>>=◌, or_throw, for_each,
}
use httpserver_demo.Mysql.{MysqlConn}
use httpserver_demo.Mysql.Pool.{acquire, release}
use httpserver_demo.Redis.{RedisClient}
use httpserver_demo.World.{
  Outside, World, Call, on_cache, on_conn, read_conn, end_guard, with_guard, with_result, on_rows,
  first_some,
}

module _ {E : Outside} where
  -- The call leaves the idle connections as they were, and ends.
  pub record IsSteady {A : Type 0} (m : Call E A) : Type 0 where
    pub idle : (w : World E) → (m w).1.pool.idle ≡ w.pool.idle
    pub ends : (w : World E) → (m w).0 ≢ blocked

  -- So it does where there is an idle connection.
  pub record IsFair {A : Type 0} (m : Call E A) : Type 0 where
    pub idle : (w : World E) → w.pool.idle ≢ [] → (m w).1.pool.idle ≡ w.pool.idle
    pub ends : (w : World E) → w.pool.idle ≢ [] → (m w).0 ≢ blocked

  pub IsFair-of_IsSteady : {A : Type 0} (m : Call E A) → IsSteady m → IsFair m
  IsFair-of_IsSteady m h = record { idle = λ w p. h.idle w; ends = λ w p. h.ends w }

  pub ret-IsSteady : {A : Type 0} (a : A) → IsSteady (ret a)
  ret-IsSteady a = record { idle = λ w. refl; ends = λ w e. cc }

  pub or_throw-IsSteady : {A : Type 0} (o : Option A) → IsSteady (or_throw o)
  or_throw-IsSteady none = record { idle = λ w. refl; ends = λ w e. cc }
  or_throw-IsSteady (some a) = record { idle = λ w. refl; ends = λ w e. cc }

  on_cache-IsSteady :
      {A : Type 0} (f : RedisClient E.redis → A × RedisClient E.redis) → IsSteady (on_cache E f)
  on_cache-IsSteady f = record { idle = λ w. refl; ends = λ w e. cc }

  on_conn-IsSteady :
      {A : Type 0} (i : ℕ) (f : MysqlConn E.mysql → E.mysql.Db → A × MysqlConn E.mysql × E.mysql.Db)
      → IsSteady (on_conn E i f)
  on_conn-IsSteady i f = record { idle = λ w. refl; ends = λ w e. cc }

  read_conn-IsSteady :
      {A : Type 0} (i : ℕ) (f : MysqlConn E.mysql → E.mysql.Db → A) → IsSteady (read_conn E i f)
  read_conn-IsSteady i f = record { idle = λ w. refl; ends = λ w e. cc }

  module _ {A B : Type 0} where
    continue-idle :
        (f : A → Call E B) (o : Outcome A) (w : World E)
        → ((a : A) → IsSteady (f a))
        → (continue f (o, w)).1.pool.idle ≡ w.pool.idle
    continue-idle f (returned a) w h = (h a).idle w
    continue-idle f threw w h = refl
    continue-idle f blocked w h = refl

    continue-ends :
        (f : A → Call E B) (o : Outcome A) (w : World E)
        → ((a : A) → IsSteady (f a))
        → o ≢ blocked
        → (continue f (o, w)).0 ≢ blocked
    continue-ends f (returned a) w h k = (h a).ends w
    continue-ends f threw w h k = λ e. cc
    continue-ends f blocked w h k = absurd (k refl)

    pub >>=-IsSteady :
        (m : Call E A) (f : A → Call E B)
        → IsSteady m
        → ((a : A) → IsSteady (f a))
        → IsSteady (m >>= f)
    >>=-IsSteady m f h k = record {
      idle = λ w. continue-idle f (m w).0 (m w).1 k ∙ h.idle w;
      ends = λ w. continue-ends f (m w).0 (m w).1 k (h.ends w);
    }

    continue-fair_idle :
        (f : A → Call E B) (o : Outcome A) (w : World E)
        → ((a : A) → IsFair (f a))
        → w.pool.idle ≢ []
        → (continue f (o, w)).1.pool.idle ≡ w.pool.idle
    continue-fair_idle f (returned a) w h p = (h a).idle w p
    continue-fair_idle f threw w h p = refl
    continue-fair_idle f blocked w h p = refl

    continue-fair_ends :
        (f : A → Call E B) (o : Outcome A) (w : World E)
        → ((a : A) → IsFair (f a))
        → w.pool.idle ≢ []
        → o ≢ blocked
        → (continue f (o, w)).0 ≢ blocked
    continue-fair_ends f (returned a) w h p k = (h a).ends w p
    continue-fair_ends f threw w h p k = λ e. cc
    continue-fair_ends f blocked w h p k = absurd (k refl)

    pub >>=-IsFair :
        (m : Call E A) (f : A → Call E B) → IsFair m → ((a : A) → IsFair (f a)) → IsFair (m >>= f)
    >>=-IsFair m f h k = record {
      idle = λ w p.
          continue-fair_idle f (m w).0 (m w).1 k (λ e. p (sym (h.idle w p) ∙ e)) ∙ h.idle w p;
      ends = λ w p.
          continue-fair_ends f (m w).0 (m w).1 k (λ e. p (sym (h.idle w p) ∙ e)) (h.ends w p);
    }

  pub for_each-IsSteady :
      {A : Type 0} (f : A → Call E (Unit {0})) (xs : List A)
      → ((a : A) → IsSteady (f a))
      → IsSteady (for_each f xs)
  unfolding for_each
  for_each-IsSteady f [] h = ret-IsSteady tt
  for_each-IsSteady f (x ∷ xs) h =
      >>=-IsSteady (f x) (λ _. for_each f xs) (h x) (λ _. for_each-IsSteady f xs h)

  pub acquire_top :
      (w : World E) (i : ℕ) (rest : List ℕ)
      → w.pool.idle ≡ i ∷ rest
      → acquire E.mysql w.pool ≡ some (i, record w.pool { idle = rest })
  unfolding acquire
  acquire_top w i rest e = ground arith

  -- A call of a client, and what follows.
  module _ {A B : Type 0} where
    pub cache_then :
        (f : RedisClient E.redis → A × RedisClient E.redis) (k : A → Call E B)
        → ((a : A) → IsSteady (k a))
        → IsSteady (on_cache E f >>= k)
    cache_then f k h = >>=-IsSteady (on_cache E f) k (on_cache-IsSteady f) h

    pub cache_then-IsFair :
        (f : RedisClient E.redis → A × RedisClient E.redis) (k : A → Call E B)
        → ((a : A) → IsFair (k a))
        → IsFair (on_cache E f >>= k)
    cache_then-IsFair f k h =
        >>=-IsFair (on_cache E f) k (IsFair-of_IsSteady _ (on_cache-IsSteady f)) h

    pub conn_then :
        (i : ℕ) (f : MysqlConn E.mysql → E.mysql.Db → A × MysqlConn E.mysql × E.mysql.Db)
        (k : A → Call E B)
        → ((a : A) → IsSteady (k a))
        → IsSteady (on_conn E i f >>= k)
    conn_then i f k h = >>=-IsSteady (on_conn E i f) k (on_conn-IsSteady i f) h

    pub read_then :
        (i : ℕ) (f : MysqlConn E.mysql → E.mysql.Db → A) (k : A → Call E B)
        → ((a : A) → IsSteady (k a))
        → IsSteady (read_conn E i f >>= k)
    read_then i f k h = >>=-IsSteady (read_conn E i f) k (read_conn-IsSteady i f) h

  module _ {A : Type 0} where
    pub with_result-IsSteady :
        (r : Option E.mysql.Result) (m : Call E A) → IsSteady m → IsSteady (with_result E r m)
    unfolding with_result
    with_result-IsSteady r m h = record { idle = λ w. h.idle w; ends = λ w. h.ends w }

    pub on_rows-IsSteady :
        (r : Option E.mysql.Result) (f : List (List (List ℕ)) → _)
        → ((rows : _) → IsSteady {A = Option A} (f rows))
        → IsSteady (on_rows E r f)
    on_rows-IsSteady none f h = ret-IsSteady none
    on_rows-IsSteady (some r) f h = h (E.mysql.rows r)

    pub first_some-IsFair :
        (o : Option A) (m : Call E (Option A)) → IsFair m → IsFair (first_some E o m)
    first_some-IsFair none m h = h
    first_some-IsFair (some a) m h = IsFair-of_IsSteady (ret (some a)) (ret-IsSteady (some a))

    end_guard-idle :
        (i : ℕ) (o : Outcome A) (w : World E)
        → o ≢ blocked
        → (end_guard E i (o, w)).1.pool.idle ≡ i ∷ w.pool.idle
    unfolding release
    end_guard-idle i (returned a) w k = refl
    end_guard-idle i threw w k = refl
    end_guard-idle i blocked w k = absurd (k refl)

    end_guard-ends :
        (i : ℕ) (o : Outcome A) (w : World E) → o ≢ blocked → (end_guard E i (o, w)).0 ≢ blocked
    end_guard-ends i (returned a) w k = λ e. cc
    end_guard-ends i threw w k = λ e. cc
    end_guard-ends i blocked w k = k

    guard_idle :
        (body : ℕ → Call E A) (w : World E) (i : ℕ) (rest : List ℕ)
        → ((i : ℕ) → IsSteady (body i))
        → w.pool.idle ≡ i ∷ rest
        → ((with_guard E body w).1.pool.idle ≡ w.pool.idle) × ((with_guard E body w).0 ≢ blocked)
    unfolding with_guard
    guard_idle body w i rest h e =
        let w' : World E = record w { pool = record w.pool { idle = rest } } in
        let out = body i w' in
        rw (acquire_top w i rest e) (
          end_guard-idle i out.0 out.1 ((h i).ends w') ∙ ap (◌∷◌ i) ((h i).idle w') ∙ sym e,
          end_guard-ends i out.0 out.1 ((h i).ends w'),
        )

    -- A scope that starts by acquiring a connection.
    pub with_guard-IsFair :
        (body : ℕ → Call E A) → ((i : ℕ) → IsSteady (body i)) → IsFair (with_guard E body)
    with_guard-IsFair body h = record {
      idle = λ w p. elim (List-cases w.pool.idle) [
        | inl e ↦ absurd (p e)
        | inr (i, rest, e) ↦ (guard_idle body w i rest h e).0
      ];
      ends = λ w p. elim (List-cases w.pool.idle) [
        | inl e ↦ absurd (p e)
        | inr (i, rest, e) ↦ (guard_idle body w i rest h e).1
      ];
    }
