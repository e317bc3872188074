-- ===== src/Redis/Failures.antt =====
-- What the client's operations return when the server does not answer, or answers with an error,
-- and how connecting can end.
use httpserver_demo.Prelude.{
  c_str, [], ◌∷◌, false, List, Option, none, some, arith, String, Bytes, codes, is_empty, ℤ, pos,
  ◌≡◌, refl, ap, ltb_ℤ, Bool-cases, ◌⊎◌, inl, inr,
}
use httpserver_demo.Redis.{
  s, d, Reply, Arg, RedisApi, ok, error_or, error_text, integer_of, strings_of, RedisClient, run,
  connect, checked, set, get, del, exists, incr, sadd, srem, smembers, scard, is_connected,
}

-- A null pointer, or a reply whose type is REDIS_REPLY_ERROR.
abbrev pub NoAnswer : Option Reply → Type 0
NoAnswer r = (r ≡ none) ⊎ ((e : Bytes) × (r ≡ some (Reply.error e)))

-- No command that this client sends is answered, or the answer is an error.
abbrev pub IsDown : (api : RedisApi) → RedisClient api → Type 0
IsDown api c = (fmt : String) (args : List Arg) → NoAnswer (api.command c.ctx fmt args c.server).0

pub ok_of_NoAnswer : (r : Option Reply) → NoAnswer r → ok r ≡ false
ok_of_NoAnswer r (inl e) = ap ok e
ok_of_NoAnswer r (inr (x, e)) = ap ok e

error_or_lem :
    (r : Option Reply) (what : Bytes) → is_empty what ≡ false → is_empty (error_or r what) ≡ false
error_or_lem r what h = elim (Bool-cases (is_empty (error_text r))) [
  | inl e ↦ rw e h
  | inr e ↦ rw e e
]

integer_of_error : (r : Option Reply) → ok r ≡ false → integer_of r ≡ none
integer_of_error none h = refl
integer_of_error (some (Reply.error e)) h = refl
integer_of_error (some (Reply.str e)) h = cc
integer_of_error (some (Reply.array e)) h = cc
integer_of_error (some (Reply.integer e)) h = cc
integer_of_error (some Reply.nil) h = cc
integer_of_error (some (Reply.status e)) h = cc

pub strings_of_error : (r : Option Reply) → ok r ≡ false → strings_of r ≡ none
strings_of_error none h = refl
strings_of_error (some (Reply.error e)) h = refl
strings_of_error (some (Reply.str e)) h = cc
strings_of_error (some (Reply.array e)) h = cc
strings_of_error (some (Reply.integer e)) h = cc
strings_of_error (some Reply.nil) h = cc
strings_of_error (some (Reply.status e)) h = cc

module _ (api : RedisApi) (c : RedisClient api) (down : IsDown api c) where
  run_down : (fmt : String) (args : List Arg) → ok (run api fmt args c).0 ≡ false
  unfolding run
  run_down fmt args = ok_of_NoAnswer _ (down fmt args)

  pub set_down : (k v : Bytes) (t : ℤ) → (set api k v t c).0 ≡ false
  unfolding set
  set_down k v t = elim (Bool-cases (ltb_ℤ (pos 0) t)) [
    | inl e ↦ rw e (run_down _ _)
    | inr e ↦ rw e (run_down _ _)
  ]

  pub get_down : (k : Bytes) → (get api k c).0 ≡ none
  unfolding get
  get_down k = rw (run_down _ _)

  pub exists_down : (k : Bytes) → (exists api k c).0 ≡ false
  unfolding exists
  exists_down k = rw (run_down _ _)

  pub incr_down : (k : Bytes) → (incr api k c).0 ≡ none
  unfolding incr
  incr_down k = integer_of_error _ (run_down _ _)

  pub smembers_down : (k : Bytes) → (smembers api k c).0 ≡ none
  unfolding smembers
  smembers_down k = strings_of_error _ (run_down _ _)

  set_err : (k v : Bytes) (t : ℤ) → is_empty (set api k v t c).1.err ≡ false
  unfolding set
  set_err k v t = elim (Bool-cases (ltb_ℤ (pos 0) t)) [
    | inl e ↦
        let sent = run api "SET %s %s EX %d" (s (c_str k) ∷ s (c_str v) ∷ d t ∷ []) c in
        rw (e, run_down _ _) (error_or_lem sent.0 (codes "SET failed") refl)
    | inr e ↦
        let sent = run api "SET %s %s" (s (c_str k) ∷ s (c_str v) ∷ []) c in
        rw (e, run_down _ _) (error_or_lem sent.0 (codes "SET failed") refl)
  ]

  get_err : (k : Bytes) → is_empty (get api k c).1.err ≡ false
  unfolding get
  get_err k =
      let sent = run api "GET %s" (s (c_str k) ∷ []) c in
      rw (run_down _ _) (error_or_lem sent.0 (codes "GET failed") refl)

  incr_err : (k : Bytes) → is_empty (incr api k c).1.err ≡ false
  unfolding incr
  incr_err k =
      let sent = run api "INCR %s" (s (c_str k) ∷ []) c in
      rw (run_down _ _) (error_or_lem sent.0 (codes "INCR failed") refl)

  -- While the client's commands get no reply, or a reply of type ERROR, every operation reports
  -- failure: no value is returned, no write is reported as done, and `set`, `get` and `incr` leave
  -- an error text that is not empty.
  pub down_reports :
      (k v : Bytes) (t : ℤ)
      → ((set api k v t c).0 ≡ false)
        × ((get api k c).0 ≡ none)
        × ((del api k c).0 ≡ false)
        × ((exists api k c).0 ≡ false)
        × ((incr api k c).0 ≡ none)
        × ((sadd api k v c).0 ≡ false)
        × ((srem api k v c).0 ≡ false)
        × ((smembers api k c).0 ≡ none)
        × ((scard api k c).0 ≡ none)
        × (is_empty (set api k v t c).1.err ≡ false)
        × (is_empty (get api k c).1.err ≡ false)
        × (is_empty (incr api k c).1.err ≡ false)
  unfolding del sadd srem scard
  down_reports k v t = (
    set_down k v t,
    get_down k,
    run_down _ _,
    exists_down k,
    incr_down k,
    run_down _ _,
    run_down _ _,
    smembers_down k,
    integer_of_error _ (run_down _ _),
    set_err k v t,
    get_err k,
    incr_err k,
  )

module _ (api : RedisApi) where
  checked-is_connected :
      (x : Option api.Context) (c : RedisClient api)
      → (checked api x c).0 ≡ is_connected api (checked api x c).1
  unfolding checked
  checked-is_connected none c = refl
  checked-is_connected (some x) c = ground arith

  -- `connect` returns true exactly when the client holds a context afterwards: a context that
  -- carries an error is freed and forgotten.
  pub connect-is_connected :
      (host : Bytes) (port timeout : ℤ) (c : RedisClient api)
      → (connect api host port timeout c).0 ≡ is_connected api (connect api host port timeout c).1
  unfolding connect
  connect-is_connected host port timeout c = checked-is_connected _ _
