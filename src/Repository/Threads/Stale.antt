-- ===== src/Repository/Threads/Stale.antt =====
-- A page that is read before an insertion and cached after it.
use httpserver_demo.Prelude.{
  ℕ, Bool, ◌<◌, ◌≤◌, List, [], ◌∷◌, ◌++◌, none, some, Bytes, beq_refl, pos, length, max_int64, All,
  NoNul, ◌≡◌, refl, sym, ap,
}
use httpserver_demo.Json.{IsJson, User, user_to_json_string}
use httpserver_demo.Redis.Server.{text, members, View, update, as_members}
use httpserver_demo.Mysql.Server.{Account, Table}
use httpserver_demo.World.{Outside}
use httpserver_demo.Repository.{user_key, list_cache_index, total_users_key, page_to_json}
use httpserver_demo.Repository.Keys.{page-index, index-page}
use httpserver_demo.Repository.Fits.{user_of, page_of}
use httpserver_demo.Repository.Coherence.{decode_page-dump}
use httpserver_demo.Repository.Threads.{
  Task, list_cached, list_count, list_select, list_fill, list_index, listed, create_insert,
  create_fill, create_index, create_drop, create_total, created, key_of_page, advance, State, moved,
  calls, moves, inserts, Reach, here, next,
}

module _ (E : Outside) (J : IsJson E.json) (matches : Bytes → ℕ → Bool)
    (add_member : List Bytes → Bytes → List Bytes) where
  abbrev state : View → Table → List Task → State
  state v t tasks = record { cache = v; table = t; tasks = tasks }

  -- A call that goes on by a known step.
  goes_on :
      (s : State) (v v' : View) (t : Table) (xs ys : List Task) (k k' : Task)
      → Reach E matches add_member s (state v t (xs ++ k ∷ ys))
      → advance E matches add_member k v t ≡ (k', v')
      → Reach E matches add_member s (state v' t (xs ++ k' ∷ ys))
  goes_on s v v' t xs ys k k' r e =
      next r (moves xs ys k refl (ap (λ out. moved xs out ys (state v t (xs ++ k ∷ ys))) (sym e)))

  module _ (l o : ℕ) (v : View) (t : Table) (b : Account) (x y : Bytes)
      (no_page : v (key_of_page l o) ≡ none) (no_index : as_members (v list_cache_index) ≡ some [])
      (user_text : user_to_json_string E.json (user_of b) ≡ some x)
      (page_text : E.json.dump (page_to_json E (page_of t l o).0 (page_of t l o).1) ≡ some y) where
    grown : Table
    grown = t ++ b ∷ []

    -- The cache when the page was read and the user inserted and cached, when `CreateUser` has
    -- deleted what it knows of, and when the page is cached and in the index.
    with_user : View
    with_user = update v (user_key (user_of b).id) (some (text x))

    cleared : View
    cleared = update (update with_user list_cache_index none) total_users_key none

    filled : View
    filled = update cleared (key_of_page l o) (some (text y))

    stale : View
    stale = update filled list_cache_index (some (members (add_member [] (key_of_page l o))))

    -- `ListUsers` reads the page.
    page_is_read :
        Reach E matches add_member (state v t []) (state v t (list_fill l o (page_of t l o) ∷ []))
    unfolding advance
    page_is_read =
        let s : State = state v t [] in
        let called = next here (calls (list_cached l o) tt refl) in
        let missed =
          goes_on s v v t [] [] (list_cached l o) (list_count l o) called (rw no_page refl) in
        let counted =
          goes_on s v v t [] [] (list_count l o) (list_select l o (pos (length t))) missed refl in
        goes_on s v v t [] [] (list_select l o (pos (length t))) (list_fill l o (page_of t l o))
          counted refl

    module _ (fresh : All (λ a. a.id < b.id) t) (room : length (t ++ b ∷ []) ≤ max_int64)
        (name : NoNul b.name) (email : NoNul b.email) where
      -- `CreateUser` runs from its start to its end.
      user_is_created :
          Reach E matches add_member
            (state v t [])
            (state cleared grown (created (some (user_of b)) ∷ list_fill l o (page_of t l o) ∷ []))
      unfolding advance cleared with_user grown
      user_is_created =
          let s : State = state v t [] in
          let u : User = user_of b in
          let rest : List Task = list_fill l o (page_of t l o) ∷ [] in
          let call : Task = create_insert b.created_at b.name b.email in
          let called = next page_is_read (calls call (name, email) refl) in
          let row = next called (inserts [] rest b refl fresh room refl) in
          let kept =
            goes_on s v with_user grown [] rest (create_fill u) (create_index u) row
              (rw user_text refl) in
          let none_listed =
            goes_on s with_user with_user grown [] rest (create_index u) (create_drop u) kept
              (rw no_index refl) in
          let dropped =
            goes_on s with_user (update with_user list_cache_index none) grown [] rest
              (create_drop u) (create_total u) none_listed refl in
          goes_on s (update with_user list_cache_index none) cleared grown [] rest (create_total u)
            (created (some u)) dropped refl

      -- The page that was read before is cached.
      page_is_cached :
          Reach E matches add_member
            (state v t [])
            (state stale grown (created (some (user_of b)) ∷ listed l o (page_of t l o) ∷ []))
      unfolding advance stale filled cleared
      page_is_cached =
          let s : State = state v t [] in
          let before : List Task = created (some (user_of b)) ∷ [] in
          let page = page_of t l o in
          let cached =
            goes_on s cleared filled grown before [] (list_fill l o page) (list_index l o page)
              user_is_created (rw page_text refl) in
          goes_on s filled stale grown before [] (list_index l o page) (listed l o page) cached
            (rw (page-index (pos l) (pos o)) refl)

      stale_shown : stale (key_of_page l o) ≡ some (text y)
      unfolding stale filled
      stale_shown = rw (index-page (pos l) (pos o)) (rw (beq_refl (key_of_page l o)) refl)

      -- On a cache that has no page yet, `ListUsers` and `CreateUser` can interleave so that a
      -- `ListUsers` that is called after `CreateUser` has returned the new user still returns the
      -- page and the total of the table without the user.
      pub page_outlives_insertion :
          (q₁ : State) × (q₂ : State) × Reach E matches add_member (state v t []) q₁
          × (q₁.table ≡ t ++ b ∷ [])
          × (q₁.tasks ≡ created (some (user_of b)) ∷ listed l o (page_of t l o) ∷ [])
          × Reach E matches add_member q₁ q₂
          × (q₂.table ≡ t ++ b ∷ [])
          × (q₂.tasks ≡ listed l o (page_of t l o) ∷ q₁.tasks)
      unfolding advance grown
      page_outlives_insertion =
          let done : List Task = created (some (user_of b)) ∷ listed l o (page_of t l o) ∷ [] in
          let q₁ : State = state stale grown done in
          let (decoded, plain) = decode_page-dump E J _ _ y page_text in
          let called = next here (calls (list_cached l o) tt refl) in
          (
            q₁,
            state stale grown (listed l o (page_of t l o) ∷ done),
            page_is_cached,
            refl,
            refl,
            goes_on q₁ stale stale grown [] done (list_cached l o) (listed l o (page_of t l o))
                called (rw stale_shown (rw decoded refl)),
            refl,
            refl,
          )
