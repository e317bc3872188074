-- ===== src/Repository/Outage/Creation.antt =====
-- `CreateUser` while Redis is gone.
use httpserver_demo.Prelude.{
  ℕ, Bool, true, false, ◌<◌, List, [], ◌∷◌, ◌++◌, Option, none, some, arith, Bytes, ℤ, pos, NoNul,
  IsInt64, All, All-append, length, length-append, max_int64, ◌≡◌, refl, ap, sym, ◌⊎◌, inl, inr,
  List-cases, subst,
}
use httpserver_demo.Effects.{returned, ret, ◌>>=◌, or_throw}
use httpserver_demo.Json.{IsJson, User, user_to_json_string}
use httpserver_demo.Redis
use httpserver_demo.Redis.Outage.{StaysDown, set_stays, smembers_fails, smembers_stays, del_stays}
use httpserver_demo.Mysql
use httpserver_demo.Mysql.Server.{Account, Table, IsMysql, RowRefused}
use httpserver_demo.Sql.{insert_sql}
use httpserver_demo.World.{Outside, World, Call, on_conn, read_conn}
use httpserver_demo.Repository.{
  del_key, del_keys, invalidate_list_cache, publish, after_insert, create_on, create_user, new_user,
  user_key, user_cache_ttl, list_cache_index, total_users_key,
}
use httpserver_demo.Repository.Fits.{user_of}
use httpserver_demo.Repository.Coherence.{IsPlain, dump_of_plain}
use httpserver_demo.Repository.Connections.{create_user-IsFair}
use httpserver_demo.Repository.Publication.{insert_sql-NoNul}
use httpserver_demo.Repository.Statements.{escape_step, insert_step}
use httpserver_demo.Repository.Scopes.{inside, inside-At, with_guard_step, then_step, ret_step}
use httpserver_demo.Repository.Outage.{Degraded, Ends-Degraded, gone_then}
use httpserver_demo.Repository.Outage.Reads.{Reads, On}

module _ (E : Outside) (J : IsJson E.json) (S : IsMysql E.mysql) {Dead : E.redis.Server → Type 0}
    (D : StaysDown E.redis Dead) where
  module _ (n : ℕ) (t : Table) where
    -- A deletion, and what follows it.
    deleted :
        (key : Bytes) (w : World E) → On E J S D n t w → Reads E J S D n t (del_key E key) w tt
    deleted key w at_w =
        gone_then E J S D n (Redis.del E.redis key) _ (λ _. ret tt) w at_w refl
          (del_stays D w.cache at_w.shows key) (λ w' _ at_w'. ret_step S tt w' at_w')

    -- No key of a page is known.
    invalidated :
        (w : World E) → On E J S D n t w → Reads E J S D n t (invalidate_list_cache E) w tt
    unfolding invalidate_list_cache
    invalidated w at_w =
        gone_then E J S D n (Redis.smembers E.redis list_cache_index) none
          (λ keys. del_keys E keys >>= λ _. del_key E list_cache_index) w at_w
          (smembers_fails D w.cache at_w.shows list_cache_index)
          (smembers_stays D w.cache at_w.shows list_cache_index)
          (λ w' _ at_w'. deleted list_cache_index w' at_w')

    published :
        (w : World E) (b : Account)
        → On E J S D n t w
        → IsPlain E J b
        → Reads E J S D n t (publish E (user_of b)) w (some (user_of b))
    unfolding publish
    published w b at_w p =
        let (s, dumped) = dump_of_plain E J b p in
        let u : User = user_of b in
        then_step S (or_throw (user_to_json_string E.json u)) _ w w (ap (λ o. or_throw o w) dumped)
          (gone_then E J S D n (Redis.set E.redis (user_key u.id) s (pos user_cache_ttl)) _
            (λ _. invalidate_list_cache E >>= λ _. del_key E total_users_key >>= λ _. ret (some u))
            w at_w refl (set_stays D w.cache at_w.shows (user_key u.id) s (pos user_cache_ttl))
            (λ w₁ _ at_w₁.
              let gone = invalidated w₁ at_w₁ in
              let last = deleted total_users_key gone.after gone.at_end in
              then_step S (invalidate_list_cache E)
                (λ _. del_key E total_users_key >>= λ _. ret (some u)) w₁ gone.after gone.run
                (then_step S (del_key E total_users_key) (λ _. ret (some u)) gone.after last.after
                  last.run (ret_step S (some u) last.after last.at_end))))

  module _ (n : ℕ) (t : Table) (name email : Bytes) (now : ℤ) where
    abbrev row : ℕ → Account
    row id = record { id = id; name = name; email = email; created_at = now }

    -- The call is refused, or adds a row under a new id.
    abbrev Made : Call E (Option User) → World E → Type 0
    Made m w =
        ((h : Reads E J S D n t m w none) × RowRefused S w.db h.after.db name email now)
        ⊎ ((id : ℕ) × All (λ a. a.id < id) t
            × Reads E J S D n (t ++ row id ∷ []) m w (some (user_of (row id))))

    made_on :
        (w : World E) (i : ℕ)
        → On E J S D n t w
        → i < n
        → ((id : ℕ) → IsPlain E J (row id))
        → IsInt64 now
        → Made (create_on E now name email i) w
    unfolding create_on after_insert then_step ret_step
    made_on w i at_w within p in_range =
        let (q, q_run, q_denotes, q_plain) = escape_step S n i w at_w within name in
        let (e, e_run, e_denotes, e_plain) = escape_step S n i w at_w within email in
        let body : Bool → Call E (Option User) = λ done. after_insert E done now name email i in
        let run_insert : Bytes → Bytes → Call E (Option User) =
          λ q e. on_conn E i (Mysql.execute E.mysql (insert_sql q e now)) >>= body in
        let before : (x : Option User) (w' : World E) (t' : Table) (done : Bool)
            → on_conn E i (Mysql.execute E.mysql (insert_sql q e now)) w ≡ (returned done, w')
            → Reads E J S D n t' (body done) w' x
            → Reads E J S D n t' (create_on E now name email i) w x =
          λ x w' t' done run rest.
            then_step S (read_conn E i (Mysql.escape E.mysql name))
              (λ q. read_conn E i (Mysql.escape E.mysql email) >>= run_insert q) w w q_run
              (then_step S (read_conn E i (Mysql.escape E.mysql email)) (run_insert q) w w e_run (
                then_step S (on_conn E i (Mysql.execute E.mysql (insert_sql q e now))) body w w' run
                  rest)) in
        elim (insert_step S n i w at_w within q e name email now q_denotes e_denotes in_range
          (insert_sql-NoNul q e now q_plain e_plain)) [
            | inl (w', run, at_w', row) ↦
                inl (before none w' t false run (ret_step S none w' at_w'), row)
            | inr (id, w', run, last, fresh, at_w') ↦ inr (
              id,
              fresh,
              before _ w' (t ++ row id ∷ []) true run (
                  then_step S (read_conn E i (Mysql.last_insert_id E.mysql))
                    (λ k. publish E (new_user k name email now)) w' w' last
                    (published n (t ++ row id ∷ []) w' (row id) at_w' (p id))),
            )
          ]

    made :
        (w : World E) (i : ℕ) (rest : List ℕ)
        → On E J S D n t w
        → All (λ i. i < n) w.pool.idle
        → w.pool.idle ≡ i ∷ rest
        → ((id : ℕ) → IsPlain E J (row id))
        → IsInt64 now
        → Made (create_user E now name email) w
    unfolding create_user with_guard_step
    made w i rest at_w within top p in_range =
        elim (made_on (inside w rest) i (inside-At w rest at_w)
          (subst (All (λ i. i < n)) top within).0 p in_range) [
            | inl (h, row) ↦
                inl (with_guard_step S (create_on E now name email) w i rest top h, row)
            | inr (id, fresh, h) ↦
                inr (id, fresh, with_guard_step S (create_on E now name email) w i rest top h)
          ]

  -- While Redis is gone, with a pool whose connections are logged in and one of them idle,
  -- `CreateUser` either returns none, in which case it sent MySQL the insertion of this name, email
  -- and time, and MySQL refused it, and the table stays; or it returns the new user, whose id is larger than all ids before, and the table has the user's row
  -- at its end. Redis stays gone and the connection is given back. Name and email are well-formed
  -- texts without NUL, and the table has room for a row.
  pub create_user-Degraded :
      (w : World E) (t : Table) (now : ℤ) (name email : Bytes)
      → Degraded E J S D w t
      → NoNul name
      → NoNul email
      → J.IsText name
      → J.IsText email
      → IsInt64 now
      → length t < max_int64
      → let out = create_user E now name email w in
        ((out.0 ≡ returned none)
          × RowRefused S w.db out.1.db name email now
          × Degraded E J S D out.1 t)
        ⊎ ((id : ℕ) × All (λ a. a.id < id) t
            × (out.0 ≡ returned (some (new_user id name email now)))
            × Degraded E J S D out.1
                (t ++ record { id = id; name = name; email = email; created_at = now } ∷ []))
  create_user-Degraded w t now name email c np ep nt et in_range room =
      let m = create_user E now name email in
      let fair = create_user-IsFair E now name email in
      let p : (id : ℕ) → IsPlain E J (row c.count t name email now id) = λ id. record {
        name = np;
        email = ep;
        name_text = nt;
        email_text = et;
        created_at = in_range;
      } in
      elim (List-cases w.pool.idle) [
        | inl none_idle ↦ absurd (c.some_idle none_idle)
        | inr (i, rest, top) ↦
            elim (made c.count t name email now w i rest c.state c.idle top p in_range) [
              | inl (h, row) ↦
                  let (out, after) = Ends-Degraded E J S D m w c fair h c.plain c.small in
                  inl (
                    out,
                    subst (λ db. RowRefused S w.db db name email now)
                        (sym (ap (λ out. out.1.db) h.run)) row,
                    after,
                  )
              | inr (id, fresh, h) ↦
                  let (out, after) =
                    Ends-Degraded E J S D m w c fair h
                      (All-append (IsPlain E J) t _ c.plain (p id, tt))
                      (omega (arith, length-append t (row c.count t name email now id ∷ []))) in
                  inr (id, fresh, out, after)
            ]
      ]
