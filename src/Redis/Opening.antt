-- ===== src/Redis/Opening.antt =====
-- A connection that the client of src/store/redis_client.cpp opens to a Redis server that answers.
use httpserver_demo.Prelude.{
  Option, none, some, true, Bytes, c_str, ℤ, Option-cases, ◌≡◌, refl, inl, inr,
}
use mathlib.Core.Bool.{false≢true}
use httpserver_demo.Redis.{RedisApi, RedisClient, connect, close, checked}
use httpserver_demo.Redis.Server.{View, IsRedis, Shows}

module _ {api : RedisApi} (R : IsRedis api) where
  checked-Shows :
      (x : Option api.Context) (c : RedisClient api) (v : View)
      → R.view c.server ≡ v
      → (checked api x c).0 ≡ true
      → Shows R (checked api x c).1 v
  unfolding checked
  checked-Shows none c v same up = absurd (false≢true up)
  checked-Shows (some x) c v same up = elim (Option-cases (api.context_error x c.server)) [
    | inl e ↦ rw (e, checked) (record { context = x; connected = refl; shown = same })
    | inr (s, e) ↦ absurd (false≢true (rw (e, checked) at up))
  ]

  -- A fresh client that connects shows the entries of before.
  pub connect-Shows :
      ((host : Bytes) (port timeout : ℤ) (sv : api.Server)
        → R.view (api.connect host port timeout sv).1 ≡ R.view sv)
      → (host : Bytes) (port timeout : ℤ) (err : Bytes) (sv : api.Server)
      → let out = connect api host port timeout (record { ctx = none; err = err; server = sv }) in
        out.0 ≡ true → Shows R out.1 (R.view sv)
  unfolding connect close
  connect-Shows connect-view host port timeout err sv up =
      let (ctx, sv₁) = api.connect (c_str host) port timeout sv in
      checked-Shows ctx (record { ctx = none; err = err; server = sv₁ }) (R.view sv)
        (connect-view (c_str host) port timeout sv) up
