-- ===== src/Repository/Coherence.antt =====
-- When the state of a repository is coherent, and what is read back from rows and cached texts.
use httpserver_demo.Prelude.{
  ℕ, ◌<◌, ◌≤◌, List, [], ◌∷◌, map, some, arith, Bytes, codes, c_str_of_NoNul, ℤ, pos, NoNul,
  IsInt64, All, length, max_int64, ◌≡◌, subst, sym, ap, ◌∙◌, ◌≢◌, refl,
}
use httpserver_demo.Decimal.{nat_to_string, to_string}
use httpserver_demo.Decimal.Shape.{IsDigit, nat_to_string-IsDigit}
use httpserver_demo.Decimal.RoundTrip.{strtoll-to_string}
use httpserver_demo.Json.{IsJson, User, user_to_json, user_to_json_string}
use httpserver_demo.Json.Laws.{
  json_to_user-user_to_json, user_to_json-IsWell, user_to_json_string_total,
}
use httpserver_demo.Redis.Server.{View, IsRedis}
use httpserver_demo.Mysql.Server.{Account, Table, IsMysql, cells}
use httpserver_demo.Effects.{returned}
use httpserver_demo.World.{Outside, World, Call}
use httpserver_demo.World.Steady.{IsFair}
use httpserver_demo.Repository.Scopes.{Returns}
use httpserver_demo.Repository.{user_of_row, decode_user, decode_page, users_of_json, page_to_json}
use httpserver_demo.Repository.Fits.{user_of, Fits}
use httpserver_demo.Repository.Keys.{nat_to_string-NoNul, to_string-NoNul}
use httpserver_demo.Repository.Steps.{At}

module _ (E : Outside) (J : IsJson E.json) where
  -- Texts that go through C strings, JSON and an int64 unharmed.
  pub record IsPlain (a : Account) : Type 0 where
    pub name : NoNul a.name
    pub email : NoNul a.email
    pub name_text : J.IsText a.name
    pub email_text : J.IsText a.email
    pub created_at : IsInt64 a.created_at

  pub user_of_row-cells : (a : Account) → IsPlain a → user_of_row (cells a) ≡ user_of a
  unfolding user_of_row
  user_of_row-cells a p = rw (
    c_str_of_NoNul (nat_to_string a.id) (nat_to_string-NoNul a.id),
    c_str_of_NoNul a.name p.name,
    c_str_of_NoNul a.email p.email,
    c_str_of_NoNul (to_string a.created_at) (to_string-NoNul a.created_at),
    strtoll-to_string a.created_at p.created_at,
  )

  pub map-user_of_row-cells :
      (xs : List Account) → All IsPlain xs → map user_of_row (map cells xs) ≡ map user_of xs
  map-user_of_row-cells [] h = refl
  map-user_of_row-cells (a ∷ more) h = cc (user_of_row-cells a h.0, map-user_of_row-cells more h.1)

  digits-IsText : (s : Bytes) → All IsDigit s → All (λ c. c < 128) s
  digits-IsText [] h = tt
  digits-IsText (c ∷ s) h = (omega arith, digits-IsText s h.1)

  pub id-IsText : (n : ℕ) → J.IsText (nat_to_string n)
  id-IsText n = J.ascii-IsText _ (digits-IsText _ (nat_to_string-IsDigit n))

  pub dump_of_plain :
      (a : Account) → IsPlain a → (s : Bytes) × (user_to_json_string E.json (user_of a) ≡ some s)
  dump_of_plain a p =
      user_to_json_string_total E.json J (user_of a) (id-IsText a.id) p.name_text p.email_text

  -- A user's dump is read back.
  pub decode_user-dump :
      (u : User) (s : Bytes)
      → user_to_json_string E.json u ≡ some s
      → (decode_user E s ≡ some u) × NoNul s
  unfolding decode_user user_to_json_string
  decode_user-dump u s h =
      (rw (J.parse-dump _ s h) (json_to_user-user_to_json E.json J u), J.dump-NoNul _ s h)

  users_of_json-map : (us : List User) → users_of_json E (map (user_to_json E.json) us) ≡ some us
  unfolding users_of_json
  users_of_json-map [] = refl
  users_of_json-map (u ∷ us) =
      rw (json_to_user-user_to_json E.json J u) (rw (users_of_json-map us) refl)

  -- The JSON that `ListUsers` caches for a page is read back by a later call as the same users and
  -- total, and holds no NUL that would cut it short.
  pub decode_page-dump :
      (us : List User) (total : ℤ) (s : Bytes)
      → E.json.dump (page_to_json E us total) ≡ some s
      → (decode_page E s ≡ some (us, total)) × NoNul s
  unfolding decode_page page_to_json
  decode_page-dump us total s h = (
    rw (J.parse-dump _ s h) (
        rw (J.index-object _ (codes "users") _ refl) (
          rw (J.elements-array (map (user_to_json E.json) us)) (
            rw (users_of_json-map us)
              (rw (J.value_integer-object _ (codes "total") total (pos 0) refl) refl)))),
    J.dump-NoNul _ s h,
  )

  users-IsWell :
      (xs : List Account)
      → All IsPlain xs
      → All J.IsWell (map (user_to_json E.json) (map user_of xs))
  users-IsWell [] h = tt
  users-IsWell (a ∷ more) (p, h) = (
    user_to_json-IsWell E.json J (user_of a) (id-IsText a.id) p.name_text p.email_text,
    users-IsWell more h,
  )

  pub dump_of_page :
      (xs : List Account) (total : ℤ)
      → All IsPlain xs
      → (s : Bytes) × (E.json.dump (page_to_json E (map user_of xs) total) ≡ some s)
  unfolding page_to_json
  dump_of_page xs total h = J.dump_well _ (
      J.object-IsWell _ (
        (J.ascii-IsText (codes "total") (omega arith), J.integer-IsWell total),
        ((J.ascii-IsText (codes "users") (omega arith), J.array-IsWell _ (users-IsWell xs h)), tt),
      ))

module _ (E : Outside) (J : IsJson E.json) (R : IsRedis E.redis) (S : IsMysql E.mysql) where
  -- The table is `t`; the cache agrees with it; every connection is logged in with the table's
  -- database, every idle one is a connection of the pool, and one is idle.
  pub record Coherent (w : World E) (t : Table) : Type 0 where
    pub view : View
    pub count : ℕ
    pub state : At R S count w view t
    pub fits : Fits E S.matches view t
    pub plain : All (IsPlain E J) t
    pub small : length t ≤ max_int64
    pub idle : All (λ i. i < count) w.pool.idle
    pub some_idle : w.pool.idle ≢ []

  -- A call that ends in a state that agrees with a table makes the world coherent with it.
  pub ends_coherent :
      {A : Type 0} (m : Call E A) (w : World E) {t t' : Table} {n : ℕ} {a : A} {v' : View}
      (c : Coherent w t)
      → n ≡ c.count
      → IsFair m
      → Returns R S n m w a v' t'
      → Fits E S.matches v' t'
      → All (IsPlain E J) t'
      → length t' ≤ max_int64
      → ((m w).0 ≡ returned a) × (c' : Coherent (m w).1 t') × (c'.view ≡ v')
  ends_coherent m w {n = n} {v' = v'} c same fair h fits plain small = (
    ap (λ out. out.0) h.run,
    record {
      view = v';
      count = n;
      state = subst (λ x. At R S n x v' _) (sym (ap (λ out. out.1) h.run)) h.at_end;
      fits = fits;
      plain = plain;
      small = small;
      idle =
          subst (All (λ i. i < n)) (sym (fair.idle w c.some_idle))
            (subst (λ k. All (λ i. i < k) w.pool.idle) (sym same) c.idle);
      some_idle = λ e. c.some_idle (sym (fair.idle w c.some_idle) ∙ e);
    },
    refl,
  )
