-- ===== src/Repository/Threads/Solo.antt =====
-- A call whose steps follow one another with no other call between them.
use httpserver_demo.Prelude.{
  ℕ, Bool, ◌<◌, ◌≤◌, List, [], ◌∷◌, ◌++◌, map, none, some, Bytes, c_str, ℤ, length, max_int64, All,
  ◌≡◌, refl, sym, subst,
}
use httpserver_demo.Json.{User, user_to_json_string}
use httpserver_demo.Redis.Server.{text, View, update, as_members}
use httpserver_demo.Mysql.Server.{Account, Table}
use httpserver_demo.World.{Outside}
use httpserver_demo.Repository.{user_key, list_cache_index, total_users_key}
use httpserver_demo.Repository.Fits.{user_of, without}
use httpserver_demo.Repository.Threads.{
  Task, create_insert, create_fill, create_index, create_drop, created, deleting, advance, State,
  moves, inserts, refuses, Reach, next,
}

module _ (E : Outside) (matches : Bytes → ℕ → Bool)
    (add_member : List Bytes → Bytes → List Bytes) where
  -- The call goes on to `k'`, at the cache `v'` and the table `t'`.
  pub data Solo (k' : Task) (v' : View) (t' : Table) : Task → View → Table → Type 0 where
    stop : Solo k' v' t' k' v' t'
    go :
        {k : Task} {v : View} {t : Table}
        → Solo k' v' t'
            (advance E matches add_member k v t).0
            (advance E matches add_member k v t).1
            t
        → Solo k' v' t' k v t
    insert :
        {v : View} {t : Table} (b : Account)
        → All (λ a. a.id < b.id) t
        → length (t ++ b ∷ []) ≤ max_int64
        → Solo k' v' t' (create_fill (user_of b)) v (t ++ b ∷ [])
        → Solo k' v' t' (create_insert b.created_at b.name b.email) v t
    refuse :
        {v : View} {t : Table} (now : ℤ) (name email : Bytes)
        → Solo k' v' t' (created none) v t
        → Solo k' v' t' (create_insert now name email) v t

  module _ {k' : Task} {v' : View} {t' : Table} where
    -- A step whose outcome is known.
    pub go_to :
        (k k₁ : Task) (v v₁ : View) (t : Table)
        → advance E matches add_member k v t ≡ (k₁, v₁)
        → Solo k' v' t' k₁ v₁ t
        → Solo k' v' t' k v t
    go_to k k₁ v v₁ t e rest = go (subst (λ out. Solo k' v' t' out.0 out.1 t) (sym e) rest)

    pub Solo-trans :
        {k₁ : Task} {v₁ : View} {t₁ : Table} {k : Task} {v : View} {t : Table}
        → Solo k₁ v₁ t₁ k v t
        → Solo k' v' t' k₁ v₁ t₁
        → Solo k' v' t' k v t
    Solo-trans stop later = later
    Solo-trans (go rest) later = go (Solo-trans rest later)
    Solo-trans (insert b fresh room rest) later = insert b fresh room (Solo-trans rest later)
    Solo-trans (refuse now name email rest) later = refuse now name email (Solo-trans rest later)

    -- The deletions of the pages in the index.
    deletes :
        (u : User) (ks : List Bytes) (v : View) (t : Table)
        → Solo k' v' t' (create_drop u) (without E matches (map c_str ks) v) t
        → Solo k' v' t' (deleting (some ks) u) v t
    unfolding advance
    deletes u [] v t rest = rest
    deletes u (k ∷ ks) v t rest = go (deletes u ks (update v (c_str k) none) t rest)

    -- What follows an insertion.
    pub publishes :
        (u : User) (s : Bytes) (ks : List Bytes) (v : View) (t : Table)
        → user_to_json_string E.json u ≡ some s
        → as_members (update v (user_key u.id) (some (text s)) list_cache_index) ≡ some ks
        → Solo k' v' t'
            (created (some u))
            (update
              (update
                (without E matches (map c_str ks) (update v (user_key u.id) (some (text s))))
                list_cache_index
                none)
              total_users_key
              none)
            t
        → Solo k' v' t' (create_fill u) v t
    unfolding advance
    publishes u s ks v t dumped listed rest =
        let v₁ : View = update v (user_key u.id) (some (text s)) in
        go_to (create_fill u) (create_index u) v v₁ t (rw dumped refl) (
          go_to (create_index u) (deleting (some ks) u) v₁ v₁ t (rw listed refl)
            (deletes u ks v₁ t (go (go rest))))

  -- Such a run is one of the runs of many threads, with other calls that wait.
  pub Solo-Reach :
      {k' : Task} {v' : View} {t' : Table} (s : State) (xs ys : List Task) {k : Task} {v : View}
      {t : Table}
      → Solo k' v' t' k v t
      → Reach E matches add_member s (record { cache = v; table = t; tasks = xs ++ k ∷ ys })
      → Reach E matches add_member s (record { cache = v'; table = t'; tasks = xs ++ k' ∷ ys })
  Solo-Reach s xs ys stop r = r
  Solo-Reach s xs ys {k} (go rest) r = Solo-Reach s xs ys rest (next r (moves xs ys k refl refl))
  Solo-Reach s xs ys (insert b fresh room rest) r =
      Solo-Reach s xs ys rest (next r (inserts xs ys b refl fresh room refl))
  Solo-Reach s xs ys (refuse now name email rest) r =
      Solo-Reach s xs ys rest (next r (refuses xs ys now name email refl refl))
