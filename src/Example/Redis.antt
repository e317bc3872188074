-- ===== src/Example/Redis.antt =====
-- A Redis server whose state is the entries of its keys.
use httpserver_demo.Prelude.{
  ℕ, ◌+◌, ◌<◌, List, [], ◌∷◌, Option, none, some, arith, String, if◌then◌else◌, Bytes, codes, beq,
  ◌≡◌, refl, sym, ap, inl, inr, pos, ℤ, negsuc, max_int64,
}
use httpserver_demo.Decimal.{nat_to_string, to_string, strtoll}
use httpserver_demo.Decimal.RoundTrip.{strtoll-to_string}
use httpserver_demo.Redis.{Reply, Arg, s, d, RedisApi}
use httpserver_demo.Redis.Server.{
  Entry, text, members, View, update, as_members, IsCount, get_reply, replies, IsRedis,
}

abbrev done : Option Reply
done = some (Reply.integer (pos 1))

abbrev wrong_type : Option Reply
wrong_type = some (Reply.error (codes "WRONGTYPE"))

abbrev incr_number : Bytes → ℤ → View → Option Reply × View
incr_number k (pos n) v =
    (some (Reply.integer (pos (n + 1))), update v k (some (text (nat_to_string (n + 1)))))
incr_number k (negsuc n) v = (wrong_type, v)

abbrev incr : Bytes → Option Entry → View → Option Reply × View
incr k none v = incr_number k (pos 0) v
incr k (some (text t)) v = incr_number k (strtoll t) v
incr k (some (members ms)) v = (wrong_type, v)

abbrev sadd : Bytes → Bytes → Option (List Bytes) → View → Option Reply × View
sadd k m (some ms) v = (done, update v k (some (members (m ∷ ms))))
sadd k m none v = (wrong_type, v)

abbrev smembers : Option (List Bytes) → View → Option Reply × View
smembers (some ms) v = (some (Reply.array (replies ms)), v)
smembers none v = (wrong_type, v)

-- A command by its name; one that is not known is an error.
abbrev perform : Bytes → List Arg → View → Option Reply × View
perform name (s k ∷ []) v =
    if beq name (codes "GET %s")
    then (some (get_reply (v k)), v)
    else if beq name (codes "DEL %s")
    then (done, update v k none)
    else if beq name (codes "INCR %s")
    then incr k (v k) v
    else if beq name (codes "SMEMBERS %s")
    then smembers (as_members (v k)) v
    else (wrong_type, v)
perform name (s k ∷ s m ∷ []) v =
    if beq name (codes "SADD %s %s") then sadd k m (as_members (v k)) v else (wrong_type, v)
perform name (s k ∷ s x ∷ d t ∷ []) v =
    (some (Reply.status (codes "OK")), update v k (some (text x)))
perform name args v = (wrong_type, v)

abbrev answer : Option (Unit {0}) → String → List Arg → View → Option Reply × View
answer none fmt args v = (none, v)
answer (some c) fmt args v = perform (codes fmt) args v

abbrev pub redis : RedisApi
redis = record {
  Server = View;
  Context = Unit;
  connect = λ host port seconds v. (some tt, v);
  context_error = λ x v. none;
  free_context = λ x v. v;
  command = answer;
  free_reply = λ r v. v;
}

number_of_count : (n : ℕ) → n < max_int64 → strtoll (nat_to_string n) ≡ pos n
unfolding to_string
number_of_count n lt =
    let back : strtoll (to_string (pos n)) ≡ pos n = strtoll-to_string (pos n) (omega arith) in back

incr_law :
    (k : Bytes) (n : ℕ) (v : View)
    → IsCount (v k) n
    → n < max_int64
    → incr k (v k) v ≡ incr_number k (pos n) v
incr_law k n v (inl (e, z)) lt = rw e (ap (λ m. incr_number k (pos m) v) (sym z))
incr_law k n v (inr e) lt = rw e (ap (λ m. incr_number k m v) (number_of_count n lt))

pub redis_laws : IsRedis redis
redis_laws = record {
  view = λ v. v;
  add_member = λ ms m. m ∷ ms;
  contains-add_member = λ ms m x. refl;
  view-free_reply = λ r v. refl;
  set_ex = λ x k v t sv. (refl, refl);
  get = λ x k sv. (refl, refl);
  del = λ x k sv. (pos 1, refl, refl);
  incr = λ x k n sv h lt.
      (ap (λ out. out.0) (incr_law k n sv h lt), ap (λ out. out.1) (incr_law k n sv h lt));
  sadd = λ x k m ms sv h. rw h (pos 1, refl, refl);
  smembers = λ x k ms sv h. rw h (refl, refl);
}

pub redis_laws-view : (v : View) → redis_laws.view v ≡ v
unfolding redis_laws
redis_laws-view v = refl

pub redis_connect-view :
    (host : Bytes) (port timeout : ℤ) (sv : View)
    → redis_laws.view (redis.connect host port timeout sv).1 ≡ redis_laws.view sv
unfolding redis_laws
redis_connect-view host port timeout sv = refl
