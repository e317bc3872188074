-- ===== src/Redis/Outage.antt =====
-- The client of a Redis server that has gone away: the connection is broken, and the program does
-- not connect again.
use httpserver_demo.Prelude.{
  Bool, true, false, List, Option, none, some, String, Bytes, pos, ℤ, ltb_ℤ, ◌≡◌, Bool-cases, inl,
  inr,
}
use httpserver_demo.Redis.{
  Reply, Arg, RedisApi, ok, with_err, free_opt, RedisClient, run, set, get, del, sadd, smembers,
}
use httpserver_demo.Redis.Failures.{NoAnswer, ok_of_NoAnswer, strings_of_error}

-- As hiredis documents it: once a context is in error, no command on it is answered.
pub record StaysDown (api : RedisApi) (Dead : api.Server → Type 0) : Type 0 where
  pub silent :
      (x : Option api.Context) (fmt : String) (args : List Arg) (sv : api.Server)
      → Dead sv
      → NoAnswer (api.command x fmt args sv).0
  pub stays :
      (x : Option api.Context) (fmt : String) (args : List Arg) (sv : api.Server)
      → Dead sv
      → Dead (api.command x fmt args sv).1
  pub stays_freed : (r : Reply) (sv : api.Server) → Dead sv → Dead (api.free_reply r sv)

module _ {api : RedisApi} {Dead : api.Server → Type 0} (D : StaysDown api Dead)
    (c : RedisClient api) (down : Dead c.server) where
  freed : (r : Option Reply) (sv : api.Server) → Dead sv → Dead (free_opt api r sv)
  freed none sv h = h
  freed (some r) sv h = D.stays_freed r sv h

  run_fails : (fmt : String) (args : List Arg) → ok (run api fmt args c).0 ≡ false
  unfolding run
  run_fails fmt args = ok_of_NoAnswer _ (D.silent c.ctx fmt args c.server down)

  run_stays : (fmt : String) (args : List Arg) → Dead (run api fmt args c).1.server
  unfolding run
  run_stays fmt args = freed _ _ (D.stays c.ctx fmt args c.server down)

  with_err_stays :
      (b : Bool) (e : Bytes) (c' : RedisClient api)
      → Dead c'.server
      → Dead (with_err api b e c').server
  with_err_stays true e c' h = h
  with_err_stays false e c' h = h

  pub get_fails : (k : Bytes) → (get api k c).0 ≡ none
  unfolding get
  get_fails k = rw (run_fails _ _)

  pub get_stays : (k : Bytes) → Dead (get api k c).1.server
  unfolding get
  get_stays k = with_err_stays _ _ _ (run_stays _ _)

  pub smembers_fails : (k : Bytes) → (smembers api k c).0 ≡ none
  unfolding smembers
  smembers_fails k = strings_of_error _ (run_fails _ _)

  pub smembers_stays : (k : Bytes) → Dead (smembers api k c).1.server
  unfolding smembers
  smembers_stays k = run_stays _ _

  pub del_stays : (k : Bytes) → Dead (del api k c).1.server
  unfolding del
  del_stays k = run_stays _ _

  pub sadd_stays : (k m : Bytes) → Dead (sadd api k m c).1.server
  unfolding sadd
  sadd_stays k m = run_stays _ _

  pub set_stays : (k v : Bytes) (t : ℤ) → Dead (set api k v t c).1.server
  unfolding set
  set_stays k v t = elim (Bool-cases (ltb_ℤ (pos 0) t)) [
    | inl e ↦ rw e (with_err_stays _ _ _ (run_stays _ _))
    | inr e ↦ rw e (with_err_stays _ _ _ (run_stays _ _))
  ]
