-- ===== src/Repository/Publication.antt =====
-- What `CreateUser` does to the cache after an insertion.
use httpserver_demo.Prelude.{
  ℕ, true, List, [], ◌∷◌, map, none, some, arith, Bytes, codes, pos, ℤ, NoNul, All-append, ◌≡◌,
  refl, sym, ap, subst, inl, inr, c_str, c_str_of_NoNul, beq, beq_refl, eq_of_beq, Bool-cases,
}
use httpserver_demo.Decimal.{nat_to_string, to_string}
use httpserver_demo.Effects.{ret, returned, ◌>>=◌, or_throw, for_each}
use httpserver_demo.Json.{IsJson, user_to_json_string}
use httpserver_demo.Redis
use httpserver_demo.Redis.Server.{Entry, text, members, View, update, contains, IsRedis}
use httpserver_demo.Mysql.Server.{Account, Table, IsMysql}
use httpserver_demo.Sql.{insert_sql}
use httpserver_demo.World.{Outside, World, on_cache}
use httpserver_demo.Repository.{
  user_key, user_cache_ttl, list_cache_index, total_users_key, del_key, del_keys,
  invalidate_list_cache, publish,
}
use httpserver_demo.Repository.Keys.{user_key-NoNul, nat_to_string-NoNul, to_string-NoNul}
use httpserver_demo.Repository.Fits.{user_of, Fits, without}
use httpserver_demo.Repository.Insertion.{published}
use httpserver_demo.Repository.Steps.{At, set_step, smembers_step, del_step, del_any_step}
use httpserver_demo.Repository.Scopes.{Returns, then_step, ret_step}

pub insert_sql-NoNul : (q e : Bytes) (now : ℤ) → NoNul q → NoNul e → NoNul (insert_sql q e now)
unfolding insert_sql
insert_sql-NoNul q e now hq he =
    All-append _ (codes "INSERT INTO users(name, email, created_at) VALUES('") _ (omega arith) (
      All-append _ q _ hq (
        All-append _ (codes "','") _ (omega arith) (
          All-append _ e _ he (
            All-append _ (codes "',") _ (omega arith)
              (All-append _ (to_string now) _ (to_string-NoNul now) (omega arith))))))

-- A key without NULs is deleted by its C string.
pub contains-c_str :
    (ms : List Bytes) (k : Bytes)
    → NoNul k
    → contains ms k ≡ true
    → contains (map c_str ms) k ≡ true
contains-c_str [] k plain h = cc
contains-c_str (m ∷ ms) k plain h = elim (Bool-cases (beq m k)) [
  | inl e ↦
      let same : c_str m ≡ k =
        subst (λ x. c_str x ≡ k) (sym (eq_of_beq m k e)) (c_str_of_NoNul k plain) in
      rw same (rw (beq_refl k) refl)
  | inr e ↦ ground (arith, contains-c_str ms k plain (rw e at h))
]

module _ (E : Outside) (J : IsJson E.json) (R : IsRedis E.redis) (S : IsMysql E.mysql) where
  -- The deletions of a list of keys.
  del_each :
      (n : ℕ) (ks : List Bytes) (w : World E) {v : View} {t : Table}
      → At R S n w v t
      → Returns R S n (for_each (del_key E) ks) w tt (without E S.matches (map c_str ks) v) t
  unfolding for_each
  del_each n [] w at_w = ret_step S tt w at_w
  del_each n (k ∷ ks) w at_w =
      let (w₁, run, at_w₁) = del_any_step R S n w at_w k in
      let rest = del_each n ks w₁ at_w₁ in
      then_step S (del_key E k) (λ _. for_each (del_key E) ks) w w₁
        (ap (λ out. out) (deleted w w₁ k run)) rest
    where
      deleted :
          (w w₁ : World E) (k : Bytes)
          → on_cache E (Redis.del E.redis k) w ≡ (returned true, w₁)
          → del_key E k w ≡ (returned tt, w₁)
      deleted w w₁ k e = ap (λ out. (returned tt, out.1)) e

  del_key_step :
      (n : ℕ) (k : Bytes) (w : World E) {v : View} {t : Table}
      → NoNul k
      → At R S n w v t
      → Returns R S n (del_key E k) w tt (update v k none) t
  del_key_step n k w plain at_w =
      let (w₁, run, at_w₁) = del_step R S n w at_w k plain in
      then_step S (on_cache E (Redis.del E.redis k)) (λ _. ret tt) w w₁ run (ret_step S tt w₁ at_w₁)

  invalidate_step :
      (n : ℕ) (ks : List Bytes) (w : World E) {v : View} {t : Table}
      → At R S n w v t
      → Redis.Server.as_members (v list_cache_index) ≡ some ks
      → Returns R S n
          (invalidate_list_cache E)
          w
          tt
          (update (without E S.matches (map c_str ks) v) list_cache_index none)
          t
  unfolding invalidate_list_cache
  invalidate_step n ks w at_w held =
      let (w₁, run, at_w₁) = smembers_step R S n w at_w list_cache_index ks (omega arith) held in
      let loop = del_each n ks w₁ at_w₁ in
      let last = del_key_step n list_cache_index loop.after (omega arith) loop.at_end in
      then_step S (on_cache E (Redis.smembers E.redis list_cache_index))
        (λ keys. del_keys E keys >>= λ _. del_key E list_cache_index) w w₁ run
        (then_step S (for_each (del_key E) ks) (λ _. del_key E list_cache_index) w₁ loop.after
          loop.run last)

  pub publish_step :
      (n : ℕ) (w : World E) {v : View} {t : Table} (b : Account) (s : Bytes)
      (f : Fits E S.matches v t) {t' : Table}
      → At R S n w v t'
      → user_to_json_string E.json (user_of b) ≡ some s
      → NoNul s
      → Returns R S n
          (publish E (user_of b))
          w
          (some (user_of b))
          (published E S.matches (map c_str f.index) (nat_to_string b.id) s v)
          t'
  unfolding publish
  publish_step n w b s f at_w dumped plain =
      let key : Bytes = user_key (nat_to_string b.id) in
      let (w₁, run, at_w₁) =
        set_step R S n w at_w key s 59
          (user_key-NoNul (nat_to_string b.id) (nat_to_string-NoNul b.id)) plain in
      let gone = invalidate_step n f.index w₁ at_w₁ f.indexed in
      let last = del_key_step n total_users_key gone.after (omega arith) gone.at_end in
      then_step S (or_throw (user_to_json_string E.json (user_of b))) _ w w
        (ap (λ o. or_throw o w) dumped)
        (then_step S (on_cache E (Redis.set E.redis key s (pos user_cache_ttl)))
          (λ _. invalidate_list_cache E >>= λ _.
            del_key E total_users_key >>= λ _. ret (some (user_of b)))
          w w₁ run
          (then_step S (invalidate_list_cache E)
            (λ _. del_key E total_users_key >>= λ _. ret (some (user_of b))) w₁ gone.after gone.run
            (then_step S (del_key E total_users_key) (λ _. ret (some (user_of b))) gone.after
              last.after last.run (ret_step S (some (user_of b)) last.after last.at_end))))
