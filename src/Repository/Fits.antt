-- ===== src/Repository/Fits.antt =====
-- When the entries of the cache agree with the table, and the changes that keep it so.
use httpserver_demo.Prelude.{
  ℕ, Bool, true, false, ◌||◌, List, [], ◌∷◌, map, Option, none, some, arith, Bytes, c_str, beq,
  eq_of_beq, ℤ, pos, length, take, drop, ◌≡◌, refl, inl, inr, subst, Bool-cases,
}
use httpserver_demo.Decimal.{strtoll}
use httpserver_demo.Json.{User}
use httpserver_demo.Redis.Server.{Entry, text, members, View, update, contains, as_members}
use httpserver_demo.Mysql.Server.{Account, Table, find}
use httpserver_demo.World.{Outside}
use httpserver_demo.Repository.Keys.{
  page-user, user-page, page-total, index-page, list_cache_key_injective,
}
use httpserver_demo.Repository.{
  decode_user, decode_page, user_key, list_cache_key, list_cache_index, total_users_key,
  request_count_key, new_user,
}

-- The user that a row stands for.
abbrev pub user_of : Account → User
user_of a = new_user a.id a.name a.email a.created_at

-- The users of a page, and their number in all.
abbrev pub page_of : Table → ℕ → ℕ → List User × ℤ
page_of t limit offset = (map user_of (take limit (drop offset t)), pos (length t))

module _ (E : Outside) (matches : Bytes → ℕ → Bool) where
  -- A cached user is the one that the table has under the key's id.
  abbrev pub UserFits : Table → Bytes → Bytes → Type 0
  UserFits t id s =
      (a : Account) × (find (matches id) t ≡ some a) × (decode_user E s ≡ some (user_of a))

  pub record Fits (v : View) (t : Table) : Type 0 where
    pub users : (id s : Bytes) → v (user_key id) ≡ some (text s) → UserFits t id s
    pub pages :
        (limit offset : ℕ) (s : Bytes)
        → v (list_cache_key (pos limit) (pos offset)) ≡ some (text s)
        → decode_page E s ≡ some (page_of t limit offset)
    pub total : (s : Bytes) → v total_users_key ≡ some (text s) → strtoll (c_str s) ≡ pos (length t)
    -- every cached page is in the index
    pub index : List Bytes
    pub indexed : as_members (v list_cache_index) ≡ some index
    pub complete :
        (limit offset : ℕ) (s : Bytes)
        → v (list_cache_key (pos limit) (pos offset)) ≡ some (text s)
        → contains index (list_cache_key (pos limit) (pos offset)) ≡ true

  update-none : (v : View) (k j s : Bytes) → update v k none j ≡ some (text s) → v j ≡ some (text s)
  update-none v k j s h = ground arith

  -- An entry that goes away, by expiry or deletion, does no harm; the index has no time to live.
  pub Fits-expire :
      (v : View) (t : Table) (k : Bytes)
      → beq k list_cache_index ≡ false
      → Fits v t
      → Fits (update v k none) t
  Fits-expire v t k other f = record {
    users = λ id s h. f.users id s (update-none v k _ s h);
    pages = λ l o s h. f.pages l o s (update-none v k _ s h);
    total = λ s h. f.total s (update-none v k _ s h);
    index = f.index;
    indexed = rw other f.indexed;
    complete = λ l o s h. f.complete l o s (update-none v k _ s h);
  }

  user_key_injective : (id id' : Bytes) → beq (user_key id) (user_key id') ≡ true → id ≡ id'
  user_key_injective id id' h = eq_of_beq id id' h

  text_injective : (s s' : Bytes) → ◌≡◌ {A = Option Entry} (some (text s)) (some (text s')) → s ≡ s'
  text_injective s s' e = cc

  pub user_after :
      (v : View) (t : Table) (id s id' s' : Bytes)
      → UserFits t id s
      → ((id s : Bytes) → v (user_key id) ≡ some (text s) → UserFits t id s)
      → update v (user_key id) (some (text s)) (user_key id') ≡ some (text s')
      → UserFits t id' s'
  user_after v t id s id' s' here f h = elim (Bool-cases (beq (user_key id) (user_key id'))) [
    | inl e ↦
        subst (λ i. UserFits t i s') (user_key_injective id id' e)
          (subst (λ x. UserFits t id x) (text_injective s s' (rw e at h)) here)
    | inr e ↦ f id' s' (rw e at h)
  ]

  -- A cached user that is the table's.
  pub Fits-user :
      (v : View) (t : Table) (id s : Bytes)
      → UserFits t id s
      → Fits v t
      → Fits (update v (user_key id) (some (text s))) t
  Fits-user v t id s here f = record {
    users = λ id' s' h. user_after v t id s id' s' here f.users h;
    pages = λ l o s' h. f.pages l o s' (rw (user-page (pos l) (pos o) id) at h);
    total = λ s' h. f.total s' h;
    index = f.index;
    indexed = f.indexed;
    complete = λ l o s' h. f.complete l o s' (rw (user-page (pos l) (pos o) id) at h);
  }

  -- A cached total that is the table's.
  pub Fits-total :
      (v : View) (t : Table) (s : Bytes)
      → strtoll (c_str s) ≡ pos (length t)
      → Fits v t
      → Fits (update v total_users_key (some (text s))) t
  unfolding list_cache_key
  Fits-total v t s here f = record {
    users = λ id s' h. f.users id s' h;
    pages = λ l o s' h. f.pages l o s' h;
    total = λ s' h. subst (λ x. strtoll (c_str x) ≡ pos (length t)) (text_injective s s' h) here;
    index = f.index;
    indexed = f.indexed;
    complete = λ l o s' h. f.complete l o s' h;
  }

  -- The request counter is no part of it.
  pub Fits-requests :
      (v : View) (t : Table) (s : Bytes)
      → Fits v t
      → Fits (update v request_count_key (some (text s))) t
  unfolding list_cache_key
  Fits-requests v t s f = record {
    users = λ id s' h. f.users id s' h;
    pages = λ l o s' h. f.pages l o s' h;
    total = λ s' h. f.total s' h;
    index = f.index;
    indexed = f.indexed;
    complete = λ l o s' h. f.complete l o s' h;
  }

  module _ (v : View) (t : Table) (l o : ℕ) (s : Bytes) where
    with_page : View
    with_page = update v (list_cache_key (pos l) (pos o)) (some (text s))

    page_after :
        (l' o' : ℕ) (s' : Bytes)
        → decode_page E s ≡ some (page_of t l o)
        → ((l' o' : ℕ) (s' : Bytes)
            → v (list_cache_key (pos l') (pos o')) ≡ some (text s')
            → decode_page E s' ≡ some (page_of t l' o'))
        → with_page (list_cache_key (pos l') (pos o')) ≡ some (text s')
        → decode_page E s' ≡ some (page_of t l' o')
    unfolding with_page
    page_after l' o' s' here f h =
        let key = list_cache_key (pos l) (pos o) in
        let key' = list_cache_key (pos l') (pos o') in
        elim (Bool-cases (beq key key')) [
          | inl e ↦
              let (p, q) = list_cache_key_injective _ _ _ _ (eq_of_beq key key' e) in
              let same : decode_page E s' ≡ some (page_of t l o) =
                subst (λ x. decode_page E x ≡ some (page_of t l o))
                  (text_injective s s' (rw e at h)) here in
              ground (arith, same, p, q)
          | inr e ↦ f l' o' s' (rw e at h)
        ]

    listed_after :
        (index : List Bytes) (f : Fits v t) (l' o' : ℕ) (s' : Bytes)
        → ((x : Bytes)
            → contains index x ≡ (beq (list_cache_key (pos l) (pos o)) x || contains f.index x))
        → with_page (list_cache_key (pos l') (pos o')) ≡ some (text s')
        → contains index (list_cache_key (pos l') (pos o')) ≡ true
    unfolding with_page
    listed_after index f l' o' s' grown h =
        let key = list_cache_key (pos l) (pos o) in
        let key' = list_cache_key (pos l') (pos o') in
        elim (Bool-cases (beq key key')) [
          | inl e ↦ rw (grown key', e) refl
          | inr e ↦ rw (grown key', e) (f.complete l' o' s' (rw e at h))
        ]

    -- A cached page that is the table's, and its entry in the index.
    pub Fits-page :
        (index : List Bytes) (f : Fits v t)
        → ((x : Bytes)
            → contains index x ≡ (beq (list_cache_key (pos l) (pos o)) x || contains f.index x))
        → decode_page E s ≡ some (page_of t l o)
        → Fits
            (update
              (update v (list_cache_key (pos l) (pos o)) (some (text s)))
              list_cache_index
              (some (members index)))
            t
    unfolding with_page
    Fits-page index f grown here = record {
      users = λ id s' h. f.users id s' (rw (page-user (pos l) (pos o) id) at h);
      pages =
          λ l' o' s' h. page_after l' o' s' here f.pages (rw (index-page (pos l') (pos o')) at h);
      total = λ s' h. f.total s' (rw (page-total (pos l) (pos o)) at h);
      index = index;
      indexed = refl;
      complete = λ l' o' s' h.
          listed_after index f l' o' s' grown (rw (index-page (pos l') (pos o')) at h);
    }

  -- Deleting keys in turn.
  abbrev pub without : List Bytes → View → View
  without [] v = v
  without (k ∷ ks) v = without ks (update v k none)

  pub without_left :
      (ks : List Bytes) (v : View) (j s : Bytes)
      → without ks v j ≡ some (text s)
      → v j ≡ some (text s)
  without_left [] v j s h = h
  without_left (k ∷ ks) v j s h = update-none v k j s (without_left ks (update v k none) j s h)

  update_keeps_none : (v : View) (k j : Bytes) → v j ≡ none → update v k none j ≡ none
  update_keeps_none v k j h = ground arith

  without-none : (ks : List Bytes) (v : View) (j : Bytes) → v j ≡ none → without ks v j ≡ none
  without-none [] v j h = h
  without-none (k ∷ ks) v j h = without-none ks (update v k none) j (update_keeps_none v k j h)

  pub without-contains :
      (ks : List Bytes) (v : View) (j : Bytes) → contains ks j ≡ true → without ks v j ≡ none
  without-contains [] v j h = cc
  without-contains (k ∷ ks) v j h = elim (Bool-cases (beq k j)) [
    | inl e ↦ without-none ks (update v k none) j (rw e refl)
    | inr e ↦ without-contains ks (update v k none) j (rw e at h)
  ]
