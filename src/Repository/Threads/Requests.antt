-- ===== src/Repository/Threads/Requests.antt =====
-- The calls of the repository do not touch the request counter: what they write has other keys, and
-- what they delete is in the index of the pages.
use httpserver_demo.Prelude.{
  ℕ, arith, Bool, true, false, ◌||◌, List, [], ◌∷◌, Option, none, some, Bytes, c_str,
  c_str_of_NoNul, beq, eq_of_beq, beq_refl, pos, ℤ, All, ◌≡◌, refl, sym, subst, ◌∙◌, inl, inr,
  Bool-cases,
}
use httpserver_demo.Decimal.{to_string}
use httpserver_demo.Json.{User, user_to_json_string}
use httpserver_demo.Redis.Server.{Entry, text, View, update, contains, as_members}
use httpserver_demo.Mysql.Server.{Account, Table}
use httpserver_demo.World.{Outside}
use httpserver_demo.Repository.{
  user_key, list_cache_index, total_users_key, request_count_key, page_to_json,
}
use httpserver_demo.Repository.Keys.{page-index, page-requests, list_cache_key-NoNul}
use httpserver_demo.Repository.Threads.{
  Task, get_cached, get_select, get_fill, got, list_cached, list_count, list_select, list_fill,
  list_index, listed, create_insert, create_fill, create_index, create_delete, create_drop,
  create_total, created, stats_cached, stats_count, stats_fill, stats_requests, stats_read, failed,
  key_of_page, user_hit, user_row, page_hit, total_hit, put_text, deleting, added, advance,
}
use httpserver_demo.Repository.Threads.Solo.{Solo, stop, go, insert, refuse}

-- A member of the index that does not stand for the counter.
abbrev pub IsOther : Bytes → Type 0
IsOther k = beq (c_str k) request_count_key ≡ false

abbrev pub AreOthers : List Bytes → Type 0
AreOthers ms = (k : Bytes) → contains ms k ≡ true → IsOther k

-- No member of the index stands for the counter.
abbrev pub IsClean : View → Type 0
IsClean v = (ms : List Bytes) → as_members (v list_cache_index) ≡ some ms → AreOthers ms

-- What a call still deletes does not stand for the counter.
abbrev pub DeletesOthers : Task → Type 0
DeletesOthers (create_delete k ks u) = All IsOther (k ∷ ks)
DeletesOthers k = Unit

contains-head : (k : Bytes) (ks : List Bytes) → contains (k ∷ ks) k ≡ true
contains-head k ks = rw (beq_refl k) refl

contains-tail :
    (k : Bytes) (ks : List Bytes) (x : Bytes) → contains ks x ≡ true → contains (k ∷ ks) x ≡ true
contains-tail k ks x h = ground arith

All-AreOthers : (ms : List Bytes) → AreOthers ms → All IsOther ms
All-AreOthers [] h = tt
All-AreOthers (k ∷ ks) h =
    (h k (contains-head k ks), All-AreOthers ks (λ x e. h x (contains-tail k ks x e)))

user_hit-DeletesOthers : (id : Bytes) (u : Option User) → DeletesOthers (user_hit id u)
user_hit-DeletesOthers id none = tt
user_hit-DeletesOthers id (some u) = tt

user_row-DeletesOthers : (id : Bytes) (a : Option Account) → DeletesOthers (user_row id a)
user_row-DeletesOthers id none = tt
user_row-DeletesOthers id (some a) = tt

page_hit-DeletesOthers :
    (l o : ℕ) (page : Option (List User × ℤ)) → DeletesOthers (page_hit l o page)
page_hit-DeletesOthers l o none = tt
page_hit-DeletesOthers l o (some page) = tt

total_hit-DeletesOthers : (x : Option Bytes) → DeletesOthers (total_hit x)
total_hit-DeletesOthers none = tt
total_hit-DeletesOthers (some x) = tt

deleting-DeletesOthers :
    (ks : List Bytes) (u : User) → All IsOther ks → DeletesOthers (deleting (some ks) u)
deleting-DeletesOthers [] u h = tt
deleting-DeletesOthers (k ∷ ks) u h = h

-- An index that goes away has no members.
none-IsClean : (v : View) → v list_cache_index ≡ none → IsClean v
none-IsClean v gone ms e k h = absurd (cc (e, gone, h))

pub update-IsClean :
    (v : View) (key : Bytes) (e : Option Entry)
    → beq key list_cache_index ≡ false
    → IsClean v
    → IsClean (update v key e)
update-IsClean v key e other clean ms held = clean ms (rw other at held)

-- A key that is not the counter's is dropped.
drop-IsClean : (v : View) (k : Bytes) → IsClean v → IsClean (update v k none)
drop-IsClean v k clean = elim (Bool-cases (beq k list_cache_index)) [
  | inl e ↦ none-IsClean (update v k none) (rw e refl)
  | inr e ↦ update-IsClean v k none e clean
]

-- A call goes on, and leaves the counter as it is.
abbrev pub Leaves : View → Task × View → Type 0
Leaves v (k, v') = DeletesOthers k × IsClean v' × (v' request_count_key ≡ v request_count_key)

put_text-Leaves :
    (next : Task) (key : Bytes) (x : Option Bytes) (v : View)
    → DeletesOthers next
    → beq key list_cache_index ≡ false
    → beq key request_count_key ≡ false
    → IsClean v
    → Leaves v (put_text next key x v)
put_text-Leaves next key none v h i r clean = (tt, clean, refl)
put_text-Leaves next key (some x) v h i r clean =
    (h, update-IsClean v key (some (text x)) i clean, rw r refl)

module _ (E : Outside) (matches : Bytes → ℕ → Bool) (add_member : List Bytes → Bytes → List Bytes)
    (contains-add_member : (ms : List Bytes) (m x : Bytes)
      → contains (add_member ms m) x ≡ (beq m x || contains ms x)) where
  added-AreOthers :
      (l o : ℕ) (ms : List Bytes) → AreOthers ms → AreOthers (add_member ms (key_of_page l o))
  added-AreOthers l o ms h k held = elim (Bool-cases (beq (key_of_page l o) k)) [
    | inl e ↦ subst IsOther (eq_of_beq (key_of_page l o) k e) (
        subst (λ x. beq x request_count_key ≡ false)
          (sym (c_str_of_NoNul (key_of_page l o) (list_cache_key-NoNul (pos l) (pos o))))
          (page-requests (pos l) (pos o)))
    | inr e ↦ h k (sym (contains-add_member ms (key_of_page l o) k ∙ rw e refl) ∙ held)
  ]

  added-Leaves :
      (l o : ℕ) (page : List User × ℤ) (ms : Option (List Bytes)) (v : View)
      → as_members (v list_cache_index) ≡ ms
      → IsClean v
      → Leaves v (listed l o page, added E matches add_member (key_of_page l o) ms v)
  added-Leaves l o page none v e clean = (tt, clean, refl)
  added-Leaves l o page (some ms) v e clean =
      (tt, (λ ns held. subst AreOthers (cc held) (added-AreOthers l o ms (clean ms e))), refl)

  deleting-Leaves :
      (ms : Option (List Bytes)) (u : User) (v : View)
      → as_members (v list_cache_index) ≡ ms
      → IsClean v
      → Leaves v (deleting ms u, v)
  deleting-Leaves none u v e clean = (tt, clean, refl)
  deleting-Leaves (some ms) u v e clean =
      (deleting-DeletesOthers ms u (All-AreOthers ms (clean ms e)), clean, refl)

  pub advance-Leaves :
      (k : Task) (v : View) (t : Table)
      → DeletesOthers k
      → IsClean v
      → Leaves v (advance E matches add_member k v t)
  unfolding advance
  advance-Leaves (get_cached id) v t h clean = (user_hit-DeletesOthers id _, clean, refl)
  advance-Leaves (get_select id) v t h clean = (user_row-DeletesOthers id _, clean, refl)
  advance-Leaves (get_fill id u) v t h clean =
      put_text-Leaves (got id (some u)) (user_key id) (user_to_json_string E.json u) v tt refl refl
        clean
  advance-Leaves (got id u) v t h clean = (tt, clean, refl)
  advance-Leaves (list_cached l o) v t h clean = (page_hit-DeletesOthers l o _, clean, refl)
  advance-Leaves (list_count l o) v t h clean = (tt, clean, refl)
  advance-Leaves (list_select l o total) v t h clean = (tt, clean, refl)
  advance-Leaves (list_fill l o (users, total)) v t h clean =
      put_text-Leaves (list_index l o (users, total)) (key_of_page l o)
        (E.json.dump (page_to_json E users total)) v tt (page-index (pos l) (pos o))
        (page-requests (pos l) (pos o)) clean
  advance-Leaves (list_index l o page) v t h clean = added-Leaves l o page _ v refl clean
  advance-Leaves (listed l o page) v t h clean = (tt, clean, refl)
  advance-Leaves (create_insert now name email) v t h clean = (tt, clean, refl)
  advance-Leaves (create_fill u) v t h clean =
      put_text-Leaves (create_index u) (user_key u.id) (user_to_json_string E.json u) v tt refl refl
        clean
  advance-Leaves (create_index u) v t h clean = deleting-Leaves _ u v refl clean
  advance-Leaves (create_delete k ks u) v t h clean =
      (deleting-DeletesOthers ks u h.1, drop-IsClean v (c_str k) clean, rw h.0 refl)
  advance-Leaves (create_drop u) v t h clean =
      (tt, none-IsClean (update v list_cache_index none) refl, refl)
  advance-Leaves (create_total u) v t h clean = (tt, drop-IsClean v total_users_key clean, refl)
  advance-Leaves (created u) v t h clean = (tt, clean, refl)
  advance-Leaves stats_cached v t h clean = (total_hit-DeletesOthers _, clean, refl)
  advance-Leaves stats_count v t h clean = (tt, clean, refl)
  advance-Leaves (stats_fill total) v t h clean =
      (tt, update-IsClean v total_users_key (some (text (to_string total))) refl clean, refl)
  advance-Leaves (stats_requests total) v t h clean = (tt, clean, refl)
  advance-Leaves (stats_read total requests) v t h clean = (tt, clean, refl)
  advance-Leaves failed v t h clean = (tt, clean, refl)

  -- So does a call as a whole.
  pub Solo-Leaves :
      {k' : Task} {v' : View} {t' : Table} {k : Task} {v : View} {t : Table}
      → Solo E matches add_member k' v' t' k v t
      → DeletesOthers k
      → IsClean v
      → Leaves v (k', v')
  Solo-Leaves stop h clean = (h, clean, refl)
  Solo-Leaves {k = k} {v = v} {t = t} (go rest) h clean =
      let (h', clean', same) = advance-Leaves k v t h clean in
      let (h'', clean'', same') = Solo-Leaves rest h' clean' in (h'', clean'', same' ∙ same)
  Solo-Leaves (insert b fresh room rest) h clean = Solo-Leaves rest tt clean
  Solo-Leaves (refuse now name email rest) h clean = Solo-Leaves rest tt clean
