-- ===== src/Redis/Commands.antt =====
-- The client's operations on a server that answers.
use httpserver_demo.Prelude.{
  ℕ, suc, ◌+◌, ◌<◌, Bool, true, false, List, [], ◌∷◌, Option, none, some, Bytes, ltb_ℤ, arith,
  c_str, String, if◌then◌else◌, subst, sym, pos, max_int64, ◌≡◌, refl, ap, ◌∙◌,
}
use httpserver_demo.Decimal.{nat_to_string}
use httpserver_demo.Redis.{
  RedisApi, Reply, ok, is_nil, string_of, with_err, RedisClient, strings, run, set, get, del, incr,
  sadd, smembers, Arg,
}
use httpserver_demo.Redis.Server.{
  Entry, text, members, View, update, as_members, text_of, IsCount, replies, get_reply, IsRedis,
  Shows,
}

module _ {api : RedisApi} (laws : IsRedis api) where
  run-Shows :
      (fmt : String) (args : List Arg) (r : Reply) (c : RedisClient api) {e e' : View}
      → (h : Shows laws c e) → (api.command (some h.context) fmt args c.server).0 ≡ some r
      → laws.view (api.command (some h.context) fmt args c.server).1 ≡ e'
      → ((run api fmt args c).0 ≡ some r) × Shows laws (run api fmt args c).1 e'
  unfolding run
  run-Shows fmt args r c h answer after =
      rw (h.connected, answer)
        (
          refl,
          record {
            context = h.context;
            connected = refl;
            shown = laws.view-free_reply _ _ ∙ after;
          },
        )

  write-Shows :
      (fmt : String) (args : List Arg) (r : Reply) (k : Bytes) (x : Option Entry)
      (c : RedisClient api) {e : View}
      → (h : Shows laws c e) → (api.command (some h.context) fmt args c.server).0 ≡ some r
      → laws.view (api.command (some h.context) fmt args c.server).1
        ≡ update (laws.view c.server) k x
      → ((run api fmt args c).0 ≡ some r) × Shows laws (run api fmt args c).1 (update e k x)
  write-Shows fmt args r k x c h answer after =
      run-Shows fmt args r c h answer (after ∙ ap (λ w. update w k x) h.shown)

  positive : (t : ℕ) → ltb_ℤ (pos 0) (pos (suc t)) ≡ true
  positive t = ground arith

  -- `set` with a positive time to live writes the entry and no other.
  pub set-Shows :
      (k v : Bytes) (t : ℕ) (c : RedisClient api) {e : View}
      → Shows laws c e
      → ((set api k v (pos (suc t)) c).0 ≡ true)
        × Shows laws (set api k v (pos (suc t)) c).1 (update e (c_str k) (some (text (c_str v))))
  unfolding set
  set-Shows k v t c h =
      let law = laws.set_ex h.context (c_str k) (c_str v) t c.server in
      let (answer, shows) = write-Shows _ _ _ (c_str k) _ c h law.0 law.1 in
      rw (positive t) (rw answer (refl, shows))

  strings-replies : (ms : List Bytes) → strings (replies ms) ≡ ms
  strings-replies [] = refl
  strings-replies (m ∷ ms) = ap (◌∷◌ m) (strings-replies ms)

  get_entry :
      (o : Option Entry) (r : Option Reply)
      → r ≡ some (get_reply o)
      → (if ok r then if is_nil r then none else string_of r else none) ≡ text_of o
  get_entry none r h = rw h
  get_entry (some (text t)) r h = rw h
  get_entry (some (members ms)) r h = rw h

  with_err-Shows :
      (b : Bool) (t : Bytes) (c : RedisClient api) {e : View}
      → Shows laws c e
      → Shows laws (with_err api b t c) e
  with_err-Shows true t c h = h
  with_err-Shows false t c h = record {
    context = h.context;
    connected = h.connected;
    shown = h.shown;
  }

  -- `get` returns the text at the key, and changes no entry.
  pub get-Shows :
      (k : Bytes) (c : RedisClient api) {e : View}
      → Shows laws c e
      → ((get api k c).0 ≡ text_of (e (c_str k))) × Shows laws (get api k c).1 e
  unfolding get
  get-Shows k c h =
      let law = laws.get h.context (c_str k) c.server in
      let (answer, shows) = run-Shows _ _ _ c h law.0 (law.1 ∙ h.shown) in
      (get_entry _ _ answer ∙ ap (λ w. text_of (w (c_str k))) h.shown, with_err-Shows _ _ _ shows)

  pub del-Shows :
      (k : Bytes) (c : RedisClient api) {e : View}
      → Shows laws c e
      → ((del api k c).0 ≡ true) × Shows laws (del api k c).1 (update e (c_str k) none)
  unfolding del
  del-Shows k c h =
      let law = laws.del h.context (c_str k) c.server in
      let (answer, shows) = write-Shows _ _ _ (c_str k) _ c h law.1 law.2 in rw answer (refl, shows)

  pub incr-Shows :
      (k : Bytes) (n : ℕ) (c : RedisClient api) {e : View}
      → IsCount (e (c_str k)) n
      → n < max_int64
      → Shows laws c e
      → ((incr api k c).0 ≡ some (pos (n + 1)))
        × Shows laws (incr api k c).1 (update e (c_str k) (some (text (nat_to_string (n + 1)))))
  unfolding incr
  incr-Shows k n c counted small h =
      let law =
        laws.incr h.context (c_str k) n c.server
          (subst (λ (w : View). IsCount (w (c_str k)) n) (sym h.shown) counted) small in
      let (answer, shows) = write-Shows _ _ _ (c_str k) _ c h law.0 law.1 in rw answer (refl, shows)

  pub sadd-Shows :
      (k m : Bytes) (ms : List Bytes) (c : RedisClient api) {e : View}
      → as_members (e (c_str k)) ≡ some ms
      → Shows laws c e
      → ((sadd api k m c).0 ≡ true)
        × Shows laws
            (sadd api k m c).1
            (update e (c_str k) (some (members (laws.add_member ms (c_str m)))))
  unfolding sadd
  sadd-Shows k m ms c held h =
      let law =
        laws.sadd h.context (c_str k) (c_str m) ms c.server
          (ap (λ w. as_members (w (c_str k))) h.shown ∙ held) in
      let (answer, shows) = write-Shows _ _ _ (c_str k) _ c h law.1 law.2 in rw answer (refl, shows)

  pub smembers-Shows :
      (k : Bytes) (ms : List Bytes) (c : RedisClient api) {e : View}
      → as_members (e (c_str k)) ≡ some ms
      → Shows laws c e
      → ((smembers api k c).0 ≡ some ms) × Shows laws (smembers api k c).1 e
  unfolding smembers
  smembers-Shows k ms c held h =
      let law =
        laws.smembers h.context (c_str k) ms c.server
          (ap (λ w. as_members (w (c_str k))) h.shown ∙ held) in
      let (answer, shows) = run-Shows _ _ _ c h law.0 (law.1 ∙ h.shown) in
      rw answer (ap some (strings-replies ms), shows)
