-- ===== src/Repository/Insertion.antt =====
-- The cache after an insertion: the new user is in it, and nothing that the insertion made stale.
use httpserver_demo.Prelude.{
  true, ℕ, ◌<◌, Bool, false, List, [], ◌∷◌, ◌++◌, none, some, arith, Bytes, beq, pos, All, ◌≡◌, ◌≢◌,
  refl, sym, ◌∙◌, ◌==◌,
}
use httpserver_demo.Decimal.{nat_to_string}
use httpserver_demo.Redis.Server.{text, View, update, contains}
use httpserver_demo.Mysql.Server.{Account, Table, find}
use httpserver_demo.World.{Outside}
use httpserver_demo.Repository.{
  decode_user, user_key, list_cache_key, list_cache_index, total_users_key,
}
use httpserver_demo.Repository.Fits.{
  user_of, UserFits, Fits, user_after, without, without_left, without-contains,
}
use httpserver_demo.Repository.Keys.{user-page, index-page, total-page}

module _ (matches : Bytes → ℕ → Bool) where
  -- A row that was found is found after an insertion.
  pub find-append :
      (id : Bytes) (t : Table) (a b : Account)
      → find (matches id) t ≡ some a
      → find (matches id) (t ++ b ∷ []) ≡ some a
  find-append id [] a b h = cc
  find-append id (c ∷ t) a b h = ground (arith, find-append id t a b)

  module _ (own : (n m : ℕ) → matches (nat_to_string n) m ≡ (m == n)) where
    -- A row with a new id is found under it.
    pub find_new :
        (t : Table) (b : Account)
        → All (λ a. a.id < b.id) t
        → find (matches (nat_to_string b.id)) (t ++ b ∷ []) ≡ some b
    find_new [] b h = rw (own b.id b.id) (ground arith)
    find_new (c ∷ t) b h = rw (own b.id c.id) (ground (arith, find_new t b h.1))

module _ (E : Outside) (matches : Bytes → ℕ → Bool) where
  UserFits-append :
      (t : Table) (b : Account) (id s : Bytes)
      → UserFits E matches t id s
      → UserFits E matches (t ++ b ∷ []) id s
  UserFits-append t b id s (a, found, decoded) = (a, find-append matches id t a b found, decoded)

  -- What the cache shows after `create_user`, if it showed `v` before.
  -- The keys of the index that were deleted are an argument.
  abbrev pub published : List Bytes → Bytes → Bytes → View → View
  published deleted id s v =
      update
        (update (without E matches deleted (update v (user_key id) (some (text s))))
          list_cache_index none)
        total_users_key none

  module _ (v : View) (t : Table) (b : Account) (s : Bytes) (f : Fits E matches v t)
      (fresh : find (matches (nat_to_string b.id)) (t ++ b ∷ []) ≡ some b)
      (decoded : decode_user E s ≡ some (user_of b)) (deleted : List Bytes)
      (covers : (l o : ℕ)
        → contains f.index (list_cache_key (pos l) (pos o)) ≡ true
        → contains deleted (list_cache_key (pos l) (pos o)) ≡ true) where
    with_user : View
    with_user = update v (user_key (nat_to_string b.id)) (some (text s))

    shown_before :
        (j x : Bytes)
        → beq list_cache_index j ≡ false
        → beq total_users_key j ≡ false
        → published deleted (nat_to_string b.id) s v j ≡ some (text x)
        → with_user j ≡ some (text x)
    unfolding with_user
    shown_before j x p q h = without_left E matches deleted with_user j x (rw p at (rw q at h))

    no_page :
        (l o : ℕ) (x : Bytes)
        → published deleted (nat_to_string b.id) s v (list_cache_key (pos l) (pos o))
          ≢ some (text x)
    unfolding with_user
    no_page l o x h =
        let key = list_cache_key (pos l) (pos o) in
        let before =
          shown_before key x (index-page (pos l) (pos o)) (total-page (pos l) (pos o)) h in
        let listed =
          f.complete l o x (rw (user-page (pos l) (pos o) (nat_to_string b.id)) at before) in
        let gone = without-contains E matches deleted with_user key (covers l o listed) in
        let kept = rw (index-page (pos l) (pos o)) at (rw (total-page (pos l) (pos o)) at h) in
        cc (sym gone ∙ kept)

    pub Fits-published : Fits E matches (published deleted (nat_to_string b.id) s v) (t ++ b ∷ [])
    unfolding with_user
    Fits-published = record {
      users = λ id x h.
          user_after E matches v (t ++ b ∷ []) (nat_to_string b.id) s id x (b, fresh, decoded)
            (λ i y k. UserFits-append t b i y (f.users i y k))
            (shown_before (user_key id) x refl refl h);
      pages = λ l o x h. absurd (no_page l o x h);
      total = λ x h. cc;
      index = [];
      indexed = refl;
      complete = λ l o x h. absurd (no_page l o x h);
    }
