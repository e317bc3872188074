-- ===== src/Repository/Threads/Moves.antt =====
-- One step of a call reads and writes what is true.
use httpserver_demo.Prelude.{
  ℕ, Bool, ◌≤◌, List, [], ◌∷◌, ◌++◌, Option, none, some, arith, Bytes, ℤ, pos, length, max_int64,
  bind_option, c_str, c_str_of_NoNul, ◌≡◌, refl, sym, ap, subst, ◌∙◌,
}
use httpserver_demo.Decimal.{to_string, strtoll}
use httpserver_demo.Decimal.RoundTrip.{strtoll-to_string}
use httpserver_demo.Json.{IsJson, User, user_to_json_string}
use httpserver_demo.Redis.Server.{Entry, text, members, View, update, as_members, text_of}
use httpserver_demo.Mysql.Server.{Account, Table, find}
use httpserver_demo.World.{Outside}
use httpserver_demo.Repository.{
  user_key, list_cache_index, total_users_key, decode_user, decode_page, page_to_json,
  number_of_text,
}
use httpserver_demo.Repository.Keys.{to_string-NoNul}
use httpserver_demo.Repository.Coherence.{decode_user-dump, decode_page-dump}
use httpserver_demo.Repository.Threads.{
  Task, get_cached, get_select, get_fill, got, list_cached, list_count, list_select, list_fill,
  list_index, listed, create_insert, create_fill, create_index, create_delete, create_drop,
  create_total, created, stats_cached, stats_count, stats_fill, stats_requests, stats_read, failed,
  key_of_page, user_hit, user_row, page_hit, total_hit, put_text, added, advance,
}
use httpserver_demo.Repository.Threads.Truth.{
  Prefix, Prefix_refl, length-Prefix, TotalWas, PageWas, IsAt, IsTrue, CacheIsTrue,
  CacheIsTrue-write, CacheIsTrue-clear, user-IsTrue, page-IsTrue, total-IsTrue,
}
use httpserver_demo.Repository.Threads.Failures.{deleting-IsTrue}

module _ (matches : Bytes → ℕ → Bool) where
  find-none_before :
      (id : Bytes) (t₀ more : Table)
      → find (matches id) (t₀ ++ more) ≡ none
      → find (matches id) t₀ ≡ none
  find-none_before id [] more h = refl
  find-none_before id (a ∷ t₀) more h = ground (arith, find-none_before id t₀ more)

module _ (E : Outside) (J : IsJson E.json) (matches : Bytes → ℕ → Bool)
    (add_member : List Bytes → Bytes → List Bytes) (t₀ : Table) where
  module _ (v : View) (t : Table) (fits : CacheIsTrue E matches v t) (since : Prefix t₀ t)
      (small : length t ≤ max_int64) where
    -- The call has read what is true, and what it wrote is true.
    unfoldable pub Kept : Task × View → Type 0
    Kept (k, v') = IsTrue matches t₀ t k × CacheIsTrue E matches v' t

    user_hit-IsTrue :
        (id : Bytes) (e : Option Entry)
        → v (user_key id) ≡ e
        → IsTrue matches t₀ t (user_hit id (bind_option (text_of e) (decode_user E)))
    user_hit-IsTrue id none h = tt
    user_hit-IsTrue id (some (members ms)) h = tt
    user_hit-IsTrue id (some (text x)) h =
        let (a, found, decoded) = (fits (user_key id) x h).user id refl in
        rw decoded (a, found, refl)

    user_row-IsTrue :
        (id : Bytes) (o : Option Account)
        → find (matches id) t ≡ o
        → IsTrue matches t₀ t (user_row id o)
    user_row-IsTrue id none h =
        find-none_before matches id t₀ since.0
          (subst (λ l. find (matches id) l ≡ none) (sym since.1) h)
    user_row-IsTrue id (some a) h = (a, h, refl)

    page_hit-IsTrue :
        (l o : ℕ) (e : Option Entry)
        → v (key_of_page l o) ≡ e
        → IsTrue matches t₀ t (page_hit l o (bind_option (text_of e) (decode_page E)))
    page_hit-IsTrue l o none h = tt
    page_hit-IsTrue l o (some (members ms)) h = tt
    page_hit-IsTrue l o (some (text x)) h =
        let (p, decoded, was) = (fits (key_of_page l o) x h).page l o refl in rw decoded was

    total_hit-IsTrue :
        (e : Option Entry) → v total_users_key ≡ e → IsTrue matches t₀ t (total_hit (text_of e))
    total_hit-IsTrue none h = tt
    total_hit-IsTrue (some (members ms)) h = tt
    total_hit-IsTrue (some (text x)) h = (fits total_users_key x h).total refl

    -- A user is written under an id under which the table has it.
    write_user :
        (id : Bytes) (u : User) (then_k : Task) (o : Option Bytes)
        → user_to_json_string E.json u ≡ o
        → IsAt matches t id u
        → IsTrue matches t₀ t then_k
        → Kept (put_text then_k (user_key id) o v)
    unfolding Kept
    write_user id u then_k none h is_at true_next = (tt, fits)
    write_user id u then_k (some x) h (a, found, e) true_next =
        let (decoded, plain) = decode_user-dump E J u x h in
        (
          true_next,
          CacheIsTrue-write E matches v t (user_key id) x
              (user-IsTrue E matches t id x (a, found, decoded ∙ ap some e)) fits,
        )

    write_page :
        (l o : ℕ) (users : List User) (total : ℤ) (d : Option Bytes)
        → E.json.dump (page_to_json E users total) ≡ d
        → PageWas t l o (users, total)
        → Kept (put_text (list_index l o (users, total)) (key_of_page l o) d v)
    unfolding Kept
    write_page l o users total none h was = (tt, fits)
    write_page l o users total (some x) h was =
        let (decoded, plain) = decode_page-dump E J users total x h in
        (
          was,
          CacheIsTrue-write E matches v t (key_of_page l o) x
              (page-IsTrue E matches t l o x (users, total) decoded was) fits,
        )

    add_page :
        (key : Bytes) (o : Option (List Bytes))
        → CacheIsTrue E matches (added E matches add_member key o v) t
    add_page key none = fits
    add_page key (some ms) = CacheIsTrue-clear E matches v t list_cache_index _ (λ x e. cc) fits

    clear : (k : Bytes) → CacheIsTrue E matches (update v k none) t
    clear k = CacheIsTrue-clear E matches v t k none (λ x e. cc) fits

    write_total :
        (total : ℤ)
        → TotalWas t total
        → CacheIsTrue E matches (update v total_users_key (some (text (to_string total)))) t
    write_total total (t₁, p, e) =
        let bound : length t₁ ≤ length t = length-Prefix t₁ t p in
        let read : strtoll (to_string (pos (length t₁))) ≡ pos (length t₁) =
          strtoll-to_string (pos (length t₁)) (omega arith) in
        let same : number_of_text (to_string total) ≡ pos (length t₁) =
          ap strtoll (c_str_of_NoNul (to_string total) (to_string-NoNul total))
          ∙ ap (λ n. strtoll (to_string n)) e
          ∙ read in
        CacheIsTrue-write E matches v t total_users_key (to_string total)
          (total-IsTrue E matches t (to_string total) (t₁, p, same)) fits

    pub advance-Kept :
        (k : Task) → IsTrue matches t₀ t k → Kept (advance E matches add_member k v t)
    unfolding advance Kept
    advance-Kept (get_cached id) h = (user_hit-IsTrue id (v (user_key id)) refl, fits)
    advance-Kept (get_select id) h = (user_row-IsTrue id (find (matches id) t) refl, fits)
    advance-Kept (get_fill id u) h =
        write_user id u (got id (some u)) (user_to_json_string E.json u) refl h h
    advance-Kept (got id u) h = (h, fits)
    advance-Kept (list_cached l o) h = (page_hit-IsTrue l o (v (key_of_page l o)) refl, fits)
    advance-Kept (list_count l o) h = ((t, Prefix_refl t, refl), fits)
    advance-Kept (list_select l o total) (t₁, p, e) = ((t₁, t, p, Prefix_refl t, refl, e), fits)
    advance-Kept (list_fill l o (users, total)) h =
        write_page l o users total (E.json.dump (page_to_json E users total)) refl h
    advance-Kept (list_index l o page) h =
        (h, add_page (key_of_page l o) (as_members (v list_cache_index)))
    advance-Kept (listed l o page) h = (h, fits)
    advance-Kept (create_insert now name email) h = (tt, fits)
    advance-Kept (create_fill u) h =
        write_user u.id u (create_index u) (user_to_json_string E.json u) refl h h
    advance-Kept (create_index u) h =
        (deleting-IsTrue matches t₀ t (as_members (v list_cache_index)) u h, fits)
    advance-Kept (create_delete k ks u) h =
        (deleting-IsTrue matches t₀ t (some ks) u h, clear (c_str k))
    advance-Kept (create_drop u) h = (h, clear list_cache_index)
    advance-Kept (create_total u) h = (h, clear total_users_key)
    advance-Kept (created u) h = (h, fits)
    advance-Kept stats_cached h = (total_hit-IsTrue (v total_users_key) refl, fits)
    advance-Kept stats_count h = ((t, Prefix_refl t, refl), fits)
    advance-Kept (stats_fill total) h = (h, write_total total h)
    advance-Kept (stats_requests total) h = (h, fits)
    advance-Kept (stats_read total requests) h = (h, fits)
    advance-Kept failed h = (tt, fits)
