-- ===== src/Repository/Threads/Truth.antt =====
-- What entries and answers say of the table, while threads interleave: prefixes, and writes.
use httpserver_demo.Prelude.{
  ℕ, Bool, false, ◌≤◌, List, [], ◌∷◌, ◌++◌, map, Option, none, some, arith, Bytes, beq, beq_refl,
  eq_of_beq, ℤ, pos, length, length-append, take, drop, append-nil, append_assoc, ◌≡◌, ◌≢◌, refl,
  sym, ap, subst, ◌∙◌, inl, inr, Bool-cases,
}
use httpserver_demo.Json.{User}
use httpserver_demo.Redis.Server.{Entry, text, View, update}
use httpserver_demo.Mysql.Server.{Account, Table, find}
use httpserver_demo.World.{Outside}
use httpserver_demo.Repository.{user_key, total_users_key, decode_page, number_of_text}
use httpserver_demo.Repository.Keys.{list_cache_key_injective, page-user, user-page, page-total}
use httpserver_demo.Repository.Fits.{user_of, UserFits}
use httpserver_demo.Repository.Insertion.{find-append}
use httpserver_demo.Repository.Threads.{
  Task, get_cached, get_select, get_fill, got, list_cached, list_count, list_select, list_fill,
  list_index, listed, create_insert, create_fill, create_index, create_delete, create_drop,
  create_total, created, stats_cached, stats_count, stats_fill, stats_requests, stats_read, failed,
  key_of_page,
}

-- The table was `t₁` before it was `t`.
abbrev pub Prefix : Table → Table → Type 0
Prefix t₁ t = (more : Table) × (t₁ ++ more ≡ t)

pub Prefix_refl : (t : Table) → Prefix t t
Prefix_refl t = ([], append-nil t)

pub Prefix-append : (t₁ t : Table) (b : Account) → Prefix t₁ t → Prefix t₁ (t ++ b ∷ [])
Prefix-append t₁ t b (more, e) =
    (more ++ b ∷ [], sym (append_assoc t₁ more (b ∷ [])) ∙ ap (λ l. l ++ b ∷ []) e)

pub length-Prefix : (t₁ t : Table) → Prefix t₁ t → length t₁ ≤ length t
length-Prefix t₁ t (more, e) = omega (arith, ap length e, length-append t₁ more)

-- A count of the rows, now or before.
abbrev pub TotalWas : Table → ℤ → Type 0
TotalWas t total = (t₁ : Table) × Prefix t₁ t × (total ≡ pos (length t₁))

-- A page of the table as it was at a time, and a count of the rows at that time or before.
abbrev pub PageWas : Table → ℕ → ℕ → List User × ℤ → Type 0
PageWas t l o (users, total) =
    (t₁ : Table) × (t₂ : Table) × Prefix t₁ t₂
    × Prefix t₂ t
    × (users ≡ map user_of (take l (drop o t₂)))
    × (total ≡ pos (length t₁))

TotalWas-append : (t : Table) (b : Account) (n : ℤ) → TotalWas t n → TotalWas (t ++ b ∷ []) n
TotalWas-append t b n (t₁, p, e) = (t₁, Prefix-append t₁ t b p, e)

PageWas-append :
    (t : Table) (b : Account) (l o : ℕ) (page : List User × ℤ)
    → PageWas t l o page
    → PageWas (t ++ b ∷ []) l o page
PageWas-append t b l o (users, total) (t₁, t₂, p, q, e, f) =
    (t₁, t₂, p, Prefix-append t₂ t b q, e, f)

module _ (matches : Bytes → ℕ → Bool) where
  -- The user is the one that the table has under the id.
  abbrev pub IsAt : Table → Bytes → User → Type 0
  IsAt t id u = (a : Account) × (find (matches id) t ≡ some a) × (u ≡ user_of a)

  -- What a call has read or returned, of a table that was `t₀` when the first call began.
  abbrev pub IsTrue : Table → Table → Task → Type 0
  IsTrue t₀ t (get_fill id u) = IsAt t id u
  IsTrue t₀ t (got id none) = find (matches id) t₀ ≡ none
  IsTrue t₀ t (got id (some u)) = IsAt t id u
  IsTrue t₀ t (list_select l o total) = TotalWas t total
  IsTrue t₀ t (list_fill l o page) = PageWas t l o page
  IsTrue t₀ t (list_index l o page) = PageWas t l o page
  IsTrue t₀ t (listed l o page) = PageWas t l o page
  IsTrue t₀ t (create_fill u) = IsAt t u.id u
  IsTrue t₀ t (create_index u) = IsAt t u.id u
  IsTrue t₀ t (create_delete k ks u) = IsAt t u.id u
  IsTrue t₀ t (create_drop u) = IsAt t u.id u
  IsTrue t₀ t (create_total u) = IsAt t u.id u
  IsTrue t₀ t (created none) = Unit
  IsTrue t₀ t (created (some u)) = IsAt t u.id u
  IsTrue t₀ t (stats_fill total) = TotalWas t total
  IsTrue t₀ t (stats_requests total) = TotalWas t total
  IsTrue t₀ t (stats_read total requests) = TotalWas t total
  IsTrue t₀ t k = Unit

  IsAt-append :
      (t : Table) (b : Account) (id : Bytes) (u : User) → IsAt t id u → IsAt (t ++ b ∷ []) id u
  IsAt-append t b id u (a, found, e) = (a, find-append matches id t a b found, e)

  -- What was read stays true when a row is added.
  pub IsTrue-append :
      (t₀ t : Table) (b : Account) (k : Task) → IsTrue t₀ t k → IsTrue t₀ (t ++ b ∷ []) k
  IsTrue-append t₀ t b (get_cached id) h = tt
  IsTrue-append t₀ t b (get_select id) h = tt
  IsTrue-append t₀ t b (get_fill id u) h = IsAt-append t b id u h
  IsTrue-append t₀ t b (got id none) h = h
  IsTrue-append t₀ t b (got id (some u)) h = IsAt-append t b id u h
  IsTrue-append t₀ t b (list_cached l o) h = tt
  IsTrue-append t₀ t b (list_count l o) h = tt
  IsTrue-append t₀ t b (list_select l o total) h = TotalWas-append t b total h
  IsTrue-append t₀ t b (list_fill l o page) h = PageWas-append t b l o page h
  IsTrue-append t₀ t b (list_index l o page) h = PageWas-append t b l o page h
  IsTrue-append t₀ t b (listed l o page) h = PageWas-append t b l o page h
  IsTrue-append t₀ t b (create_insert now name email) h = tt
  IsTrue-append t₀ t b (create_fill u) h = IsAt-append t b u.id u h
  IsTrue-append t₀ t b (create_index u) h = IsAt-append t b u.id u h
  IsTrue-append t₀ t b (create_delete k ks u) h = IsAt-append t b u.id u h
  IsTrue-append t₀ t b (create_drop u) h = IsAt-append t b u.id u h
  IsTrue-append t₀ t b (create_total u) h = IsAt-append t b u.id u h
  IsTrue-append t₀ t b (created none) h = tt
  IsTrue-append t₀ t b (created (some u)) h = IsAt-append t b u.id u h
  IsTrue-append t₀ t b stats_cached h = tt
  IsTrue-append t₀ t b stats_count h = tt
  IsTrue-append t₀ t b (stats_fill total) h = TotalWas-append t b total h
  IsTrue-append t₀ t b (stats_requests total) h = TotalWas-append t b total h
  IsTrue-append t₀ t b (stats_read total requests) h = TotalWas-append t b total h
  IsTrue-append t₀ t b failed h = tt

module _ (E : Outside) (matches : Bytes → ℕ → Bool) where
  -- What a cached text says of the table.
  pub record TextIsTrue (t : Table) (k x : Bytes) : Type 0 where
    pub user : (id : Bytes) → k ≡ user_key id → UserFits E matches t id x
    pub page :
        (l o : ℕ)
        → k ≡ key_of_page l o
        → (p : List User × ℤ) × (decode_page E x ≡ some p) × PageWas t l o p
    pub total : k ≡ total_users_key → TotalWas t (number_of_text x)

  abbrev pub CacheIsTrue : View → Table → Type 0
  CacheIsTrue v t = (k x : Bytes) → v k ≡ some (text x) → TextIsTrue t k x

  pub CacheIsTrue-append :
      (v : View) (t : Table) (b : Account) → CacheIsTrue v t → CacheIsTrue v (t ++ b ∷ [])
  CacheIsTrue-append v t b h k x e =
      let old = h k x e in
      record {
        user = λ id same.
            let (a, found, decoded) = old.user id same in
            (a, find-append matches id t a b found, decoded);
        page = λ l o same.
            let (p, decoded, was) = old.page l o same in (p, decoded, PageWas-append t b l o p was);
        total = λ same. TotalWas-append t b _ (old.total same);
      }

  text_injective : (x y : Bytes) → ◌≡◌ {A = Option Entry} (some (text x)) (some (text y)) → x ≡ y
  text_injective x y e = cc

  -- A write of a text that is true, and a write of anything else.
  pub CacheIsTrue-write :
      (v : View) (t : Table) (k x : Bytes)
      → TextIsTrue t k x
      → CacheIsTrue v t
      → CacheIsTrue (update v k (some (text x))) t
  CacheIsTrue-write v t k x new h j y e = elim (Bool-cases (beq k j)) [
    | inl same ↦
        subst (λ i. TextIsTrue t i y) (eq_of_beq k j same)
          (subst (TextIsTrue t k) (text_injective x y (rw same at e)) new)
    | inr other ↦ h j y (rw other at e)
  ]

  pub CacheIsTrue-clear :
      (v : View) (t : Table) (k : Bytes) (e : Option Entry)
      → ((x : Bytes) → e ≢ some (text x))
      → CacheIsTrue v t
      → CacheIsTrue (update v k e) t
  CacheIsTrue-clear v t k e no_text h j y held = elim (Bool-cases (beq k j)) [
    | inl same ↦ absurd (no_text y (rw same at held))
    | inr other ↦ h j y (rw other at held)
  ]

  ne_of_beq : (x y : Bytes) → beq x y ≡ false → x ≢ y
  ne_of_beq x y h e = cc (sym h ∙ ap (beq x) (sym e) ∙ beq_refl x)

  pub user-IsTrue :
      (t : Table) (id x : Bytes) → UserFits E matches t id x → TextIsTrue t (user_key id) x
  user-IsTrue t id x fits = record {
    user = λ id' e.
        subst (λ i. UserFits E matches t i x)
          (eq_of_beq id id' (ap (beq (user_key id)) (sym e) ∙ beq_refl (user_key id))) fits;
    page = λ l o e. absurd (ne_of_beq _ _ (user-page (pos l) (pos o) id) e);
    total = λ e. absurd (ne_of_beq (user_key id) total_users_key refl e);
  }

  pub page-IsTrue :
      (t : Table) (l o : ℕ) (x : Bytes) (p : List User × ℤ)
      → decode_page E x ≡ some p
      → PageWas t l o p
      → TextIsTrue t (key_of_page l o) x
  page-IsTrue t l o x p decoded was = record {
    user = λ id e. absurd (ne_of_beq _ _ (page-user (pos l) (pos o) id) e);
    page = λ l' o' e.
        let (same_l, same_o) = list_cache_key_injective (pos l) (pos o) (pos l') (pos o') e in
        (
          p,
          decoded,
          subst (λ i. PageWas t i o' p) (ap count_of same_l)
              (subst (λ i. PageWas t l i p) (ap count_of same_o) was),
        );
    total = λ e. absurd (ne_of_beq _ _ (page-total (pos l) (pos o)) e);
  }
    where
      count_of : ℤ → ℕ
      count_of (pos n) = n
      count_of n = 0

  pub total-IsTrue :
      (t : Table) (x : Bytes) → TotalWas t (number_of_text x) → TextIsTrue t total_users_key x
  total-IsTrue t x was = record {
    user = λ id e. absurd (ne_of_beq total_users_key (user_key id) refl e);
    page = λ l o e. absurd (ne_of_beq _ _ (page-total (pos l) (pos o)) (sym e));
    total = λ e. was;
  }
