-- ===== src/Repository/Creation/Path.antt =====
-- The steps of `CreateUser` of src/store/user_repository.cpp on a coherent cache, one for one those
-- of its task.
use httpserver_demo.Prelude.{
  ℕ, ◌<◌, Bool, true, false, List, [], ◌∷◌, ◌++◌, map, Option, none, some, Bytes, pos, ℤ, IsInt64,
  All, ◌≡◌, subst, ◌⊎◌, inl, inr, c_str,
}
use httpserver_demo.Decimal.{nat_to_string}
use httpserver_demo.Effects.{returned, ◌>>=◌}
use httpserver_demo.Json.{IsJson, User}
use httpserver_demo.Redis.Server.{View, IsRedis}
use httpserver_demo.Mysql
use httpserver_demo.Mysql.Server.{Account, Table, IsMysql, RowRefused}
use httpserver_demo.Sql.{insert_sql}
use httpserver_demo.World.{Outside, World, Call, on_conn, read_conn}
use httpserver_demo.Repository.{new_user, publish, after_insert, create_on, create_user}
use httpserver_demo.Repository.Keys.{list_cache_key-NoNul}
use httpserver_demo.Repository.Fits.{user_of, Fits}
use httpserver_demo.Repository.Insertion.{published, find_new, Fits-published}
use httpserver_demo.Repository.Coherence.{IsPlain, dump_of_plain, decode_user-dump}
use httpserver_demo.Repository.Publication.{insert_sql-NoNul, contains-c_str, publish_step}
use httpserver_demo.Repository.Steps.{At}
use httpserver_demo.Repository.Statements.{escape_step, insert_step}
use httpserver_demo.Repository.Threads.{create_fill, created}
use httpserver_demo.Repository.Threads.Solo.{Solo, stop, publishes}
use httpserver_demo.Repository.Scopes.{
  Returns, inside, inside-At, with_guard_step, then_step, ret_step,
}

module _ (E : Outside) (J : IsJson E.json) (R : IsRedis E.redis) (S : IsMysql E.mysql) where
  -- What an insertion does: it is refused and changes nothing, or adds a row under a new id, and
  -- the state that is left agrees with the table.
  module _ (n : ℕ) {v : View} {t : Table} (name email : Bytes) (now : ℤ)
      (f : Fits E S.matches v t) where
    abbrev pub row : ℕ → Account
    row id = record { id = id; name = name; email = email; created_at = now }

    abbrev pub Refused : Call E (Option User) → World E → Type 0
    Refused m w = (h : Returns R S n m w none v t) × RowRefused S w.db h.after.db name email now

    abbrev pub Inserted : Call E (Option User) → World E → Type 0
    Inserted m w =
        (id : ℕ) × (v' : View) × All (λ a. a.id < id) t
        × Returns R S n m w (some (user_of (row id))) v' (t ++ row id ∷ [])
        × Fits E S.matches v' (t ++ row id ∷ [])
        × Solo E S.matches R.add_member (created (some (user_of (row id)))) v' (t ++ row id ∷ [])
            (create_fill (user_of (row id))) v (t ++ row id ∷ [])

    Inserted-step :
        (w : World E) (i id : ℕ)
        → read_conn E i (Mysql.last_insert_id E.mysql) w ≡ (returned id, w)
        → All (λ a. a.id < id) t
        → At R S n w v (t ++ row id ∷ [])
        → IsPlain E J (row id)
        → Inserted (after_insert E true now name email i) w
    unfolding after_insert
    Inserted-step w i id last fresh at_w p =
        let (s, dumped) = dump_of_plain E J (row id) p in
        let (back, plain) = decode_user-dump E J (user_of (row id)) s dumped in
        (
          id,
          published E S.matches (map c_str f.index) (nat_to_string id) s v,
          fresh,
          then_step S (read_conn E i (Mysql.last_insert_id E.mysql))
              (λ k. publish E (new_user k name email now)) w w last
              (publish_step E J R S n w (row id) s f at_w dumped plain),
          Fits-published E S.matches v t (row id) s f
              (find_new S.matches S.matches-nat_to_string t (row id) fresh) back (map c_str f.index)
              (λ l o h. contains-c_str f.index _ (list_cache_key-NoNul (pos l) (pos o)) h),
          publishes E S.matches R.add_member (user_of (row id)) s f.index v (t ++ row id ∷ [])
              dumped f.indexed stop,
        )

    create_step :
        (w : World E) (i : ℕ)
        → At R S n w v t
        → i < n
        → ((id : ℕ) → IsPlain E J (row id))
        → IsInt64 now
        → Refused (create_on E now name email i) w ⊎ Inserted (create_on E now name email i) w
    unfolding create_on after_insert then_step ret_step
    create_step w i at_w within p in_range =
        let (q, q_run, q_denotes, q_plain) = escape_step S n i w at_w within name in
        let (e, e_run, e_denotes, e_plain) = escape_step S n i w at_w within email in
        let plain = insert_sql-NoNul q e now q_plain e_plain in
        let body : Bool → Call E (Option User) = λ done. after_insert E done now name email i in
        let run_insert : Bytes → Bytes → Call E (Option User) =
          λ q e. on_conn E i (Mysql.execute E.mysql (insert_sql q e now)) >>= body in
        let before : (x : Option User) (w' : World E) (v' : View) (t' : Table) (done : Bool)
            → on_conn E i (Mysql.execute E.mysql (insert_sql q e now)) w ≡ (returned done, w')
            → Returns R S n (body done) w' x v' t'
            → Returns R S n (create_on E now name email i) w x v' t' =
          λ x w' v' t' done run rest.
            then_step S (read_conn E i (Mysql.escape E.mysql name))
              (λ q. read_conn E i (Mysql.escape E.mysql email) >>= run_insert q) w w q_run
              (then_step S (read_conn E i (Mysql.escape E.mysql email)) (run_insert q) w w e_run (
                then_step S (on_conn E i (Mysql.execute E.mysql (insert_sql q e now))) body w w' run
                  rest)) in
        elim (insert_step S n i w at_w within q e name email now q_denotes e_denotes in_range
          plain) [
            | inl (w', run, at_w', row) ↦
                inl (before none w' v t false run (ret_step S none w' at_w'), row)
            | inr (id, w', run, last, fresh, at_w') ↦
                let (id, v', fresh, after, fits, path) =
                  Inserted-step w' i id last fresh at_w' (p id) in
                inr (id, v', fresh, before _ w' v' _ true run after, fits, path)
          ]

    pub guarded_step :
        (w : World E) (i : ℕ) (rest : List ℕ)
        → At R S n w v t
        → All (λ i. i < n) w.pool.idle
        → w.pool.idle ≡ i ∷ rest
        → ((id : ℕ) → IsPlain E J (row id))
        → IsInt64 now
        → Refused (create_user E now name email) w ⊎ Inserted (create_user E now name email) w
    unfolding create_user with_guard_step
    guarded_step w i rest at_w within top p in_range =
        elim (create_step (inside w rest) i (inside-At w rest at_w)
          (subst (All (λ i. i < n)) top within).0 p in_range) [
            | inl (h, row) ↦
                inl (with_guard_step S (create_on E now name email) w i rest top h, row)
            | inr (id, v', fresh, h, fits, path) ↦ inr (
              id,
              v',
              fresh,
              with_guard_step S (create_on E now name email) w i rest top h,
              fits,
              path,
            )
          ]
