-- ===== src/Repository/Creation.antt =====
-- `CreateUser` inserts a row and leaves nothing stale in the cache, or inserts nothing.
pub mod Path
use httpserver_demo.Prelude.{
  ℕ, sym, ◌<◌, Bool, true, false, List, [], ◌∷◌, ◌++◌, map, Option, none, some, arith, Bytes, pos,
  ℤ, NoNul, IsInt64, All, All-append, List-cases, length, length-append, max_int64, ◌≡◌, refl, ap,
  subst, ◌⊎◌, inl, inr, c_str,
}
use httpserver_demo.Decimal.{nat_to_string}
use httpserver_demo.Effects.{returned, ◌>>=◌}
use httpserver_demo.Json.{IsJson, User}
use httpserver_demo.Redis.Server.{View, IsRedis}
use httpserver_demo.Mysql
use httpserver_demo.Mysql.Server.{Account, Table, IsMysql, RowRefused}
use httpserver_demo.Sql.{insert_sql}
use httpserver_demo.World.{Outside, World, Call, on_conn, read_conn}
use httpserver_demo.Repository.{new_user, publish, after_insert, create_on, create_user}
use httpserver_demo.Repository.Keys.{list_cache_key-NoNul}
use httpserver_demo.Repository.Fits.{user_of, Fits}
use httpserver_demo.Repository.Insertion.{published, find_new, Fits-published}
use httpserver_demo.Repository.Coherence.{
  IsPlain, dump_of_plain, decode_user-dump, Coherent, ends_coherent,
}
use httpserver_demo.Repository.Publication.{insert_sql-NoNul, contains-c_str, publish_step}
use httpserver_demo.Repository.Connections.{create_user-IsFair}
use httpserver_demo.Repository.Steps.{At}
use httpserver_demo.Repository.Statements.{escape_step, insert_step}
use httpserver_demo.Repository.Threads.{create_insert, create_fill, created}
use httpserver_demo.Repository.Threads.Solo.{Solo, stop, insert, refuse, publishes}
use httpserver_demo.Repository.Scopes.{
  Returns, inside, inside-At, with_guard_step, then_step, ret_step,
}
use httpserver_demo.Repository.Creation.Path.{row, guarded_step}

module _ (E : Outside) (J : IsJson E.json) (R : IsRedis E.redis) (S : IsMysql E.mysql) where
  -- The call does what its task does by itself.
  pub create_user-Solo :
      (w : World E) (t : Table) (now : ℤ) (name email : Bytes) (c : Coherent E J R S w t)
      → NoNul name
      → NoNul email
      → J.IsText name
      → J.IsText email
      → IsInt64 now
      → length t < max_int64
      → let out = create_user E now name email w in
        ((out.0 ≡ returned none)
          × RowRefused S w.db out.1.db name email now
          × (c' : Coherent E J R S out.1 t) × Solo E S.matches R.add_member
              (created none)
              c'.view
              t
              (create_insert now name email)
              c.view
              t)
        ⊎ ((id : ℕ) × All (λ a. a.id < id) t
            × (out.0 ≡ returned (some (new_user id name email now)))
            × (c' : Coherent E J R S out.1
                (t ++ record { id = id; name = name; email = email; created_at = now } ∷ []))
            × Solo E S.matches R.add_member
                (created (some (new_user id name email now)))
                c'.view
                (t ++ record { id = id; name = name; email = email; created_at = now } ∷ [])
                (create_insert now name email)
                c.view
                t)
  create_user-Solo w t now name email c name_plain email_plain name_text email_text in_range room =
      let m = create_user E now name email in
      let fair = create_user-IsFair E now name email in
      let p : (id : ℕ) → IsPlain E J (row E J R S c.count name email now c.fits id) = λ id. record {
        name = name_plain;
        email = email_plain;
        name_text = name_text;
        email_text = email_text;
        created_at = in_range;
      } in
      elim (List-cases w.pool.idle) [
        | inl none_idle ↦ absurd (c.some_idle none_idle)
        | inr (i, rest, top) ↦
            elim (guarded_step E J R S c.count name email now c.fits w i rest c.state c.idle top p
              in_range) [
                | inl (h, row) ↦
                    let (out, after, shown) =
                      ends_coherent E J R S m w c refl fair h c.fits c.plain c.small in
                    inl (
                      out,
                      subst (λ db. RowRefused S w.db db name email now)
                          (sym (ap (λ out. out.1.db) h.run)) row,
                      after,
                      refused after.view (sym shown),
                    )
                | inr (id, v', fresh, h, fits, path) ↦
                    let (out, after, shown) =
                      ends_coherent E J R S m w c refl fair h fits
                        (All-append (IsPlain E J) t _ c.plain (p id, tt))
                        (omega (
                          arith,
                          length-append t (row E J R S c.count name email now c.fits id ∷ []),
                        )) in
                    inr (id, fresh, out, after, inserted id v' after.view fresh path (sym shown))
              ]
      ]
    where
      refused :
          (v' : View)
          → c.view ≡ v'
          → Solo E S.matches R.add_member
              (created none)
              v'
              t
              (create_insert now name email)
              c.view
              t
      refused v' e =
          subst
            (λ x.
              Solo E S.matches R.add_member (created none) x t (create_insert now name email) c.view
                t)
            e (refuse now name email stop)

      inserted :
          (id : ℕ) (v' x : View)
          → All (λ a. a.id < id) t
          → Solo E S.matches R.add_member
              (created (some (new_user id name email now)))
              v'
              (t ++ row E J R S c.count name email now c.fits id ∷ [])
              (create_fill (new_user id name email now))
              c.view
              (t ++ row E J R S c.count name email now c.fits id ∷ [])
          → v' ≡ x
          → Solo E S.matches R.add_member
              (created (some (new_user id name email now)))
              x
              (t ++ row E J R S c.count name email now c.fits id ∷ [])
              (create_insert now name email)
              c.view
              t
      inserted id v' x fresh path e =
          subst
            (λ y.
              Solo E S.matches R.add_member (created (some (new_user id name email now))) y
                (t ++ row E J R S c.count name email now c.fits id ∷ [])
                (create_insert now name email) c.view t)
            e
            (insert (row E J R S c.count name email now c.fits id) fresh
              (omega (arith, length-append t (row E J R S c.count name email now c.fits id ∷ [])))
              path)

  -- On a coherent state, `CreateUser` either returns none, in which case it sent MySQL the insertion
  -- of this name, email and time, and MySQL refused it, and leaves the state coherent with the same
  -- table; or it returns the new user, whose id is larger than
  -- all ids before, and leaves the state coherent with the table that has the user's row at its
  -- end: no cached page, user or total of before is served afterwards unless it is still right.
  -- Name and email are well-formed texts without NUL, and the table has room for a row.
  pub create_user-Coherent :
      (w : World E) (t : Table) (now : ℤ) (name email : Bytes)
      → Coherent E J R S w t
      → NoNul name
      → NoNul email
      → J.IsText name
      → J.IsText email
      → IsInt64 now
      → length t < max_int64
      → let out = create_user E now name email w in
        ((out.0 ≡ returned none)
          × RowRefused S w.db out.1.db name email now
          × Coherent E J R S out.1 t)
        ⊎ ((id : ℕ) × All (λ a. a.id < id) t
            × (out.0 ≡ returned (some (new_user id name email now)))
            × Coherent E J R S out.1
                (t ++ record { id = id; name = name; email = email; created_at = now } ∷ []))
  create_user-Coherent w t now name email c np ep nt et in_range room =
      elim (create_user-Solo w t now name email c np ep nt et in_range room) [
        | inl (out, row, c', path) ↦ inl (out, row, c')
        | inr (id, fresh, out, c', path) ↦ inr (id, fresh, out, c')
      ]
