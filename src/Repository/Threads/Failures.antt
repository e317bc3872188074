-- ===== src/Repository/Threads/Failures.antt =====
-- A call that goes on after a command to Redis that failed has read what is true.
use httpserver_demo.Prelude.{ℕ, Bool, List, [], ◌∷◌, Option, none, some, Bytes}
use httpserver_demo.Json.{User, user_to_json_string}
use httpserver_demo.Mysql.Server.{Table}
use httpserver_demo.World.{Outside}
use httpserver_demo.Repository.{page_to_json}
use httpserver_demo.Repository.Threads.{
  Task, get_cached, get_select, get_fill, got, list_cached, list_count, list_select, list_fill,
  list_index, listed, create_insert, create_fill, create_index, create_delete, create_drop,
  create_total, created, stats_cached, stats_count, stats_fill, stats_requests, stats_read, failed,
  put_failed, deleting, fail_over,
}
use httpserver_demo.Repository.Threads.Truth.{IsAt, IsTrue}

module _ (matches : Bytes → ℕ → Bool) where
  put_failed-IsTrue :
      (t₀ t : Table) (k : Task) (x : Option Bytes)
      → IsTrue matches t₀ t k
      → IsTrue matches t₀ t (put_failed k x)
  put_failed-IsTrue t₀ t k none h = tt
  put_failed-IsTrue t₀ t k (some x) h = h

  pub deleting-IsTrue :
      (t₀ t : Table) (o : Option (List Bytes)) (u : User)
      → IsAt matches t u.id u
      → IsTrue matches t₀ t (deleting o u)
  deleting-IsTrue t₀ t none u h = h
  deleting-IsTrue t₀ t (some []) u h = h
  deleting-IsTrue t₀ t (some (k ∷ ks)) u h = h

  -- What was read stays true where a command fails.
  pub fail_over-IsTrue :
      (E : Outside) (add_member : List Bytes → Bytes → List Bytes) (t₀ t : Table) (k : Task)
      → IsTrue matches t₀ t k
      → IsTrue matches t₀ t (fail_over E matches add_member k)
  unfolding fail_over
  fail_over-IsTrue E add_member t₀ t (get_cached id) h = tt
  fail_over-IsTrue E add_member t₀ t (get_select id) h = tt
  fail_over-IsTrue E add_member t₀ t (get_fill id u) h =
      put_failed-IsTrue t₀ t (got id (some u)) (user_to_json_string E.json u) h
  fail_over-IsTrue E add_member t₀ t (got id none) h = h
  fail_over-IsTrue E add_member t₀ t (got id (some u)) h = h
  fail_over-IsTrue E add_member t₀ t (list_cached l o) h = tt
  fail_over-IsTrue E add_member t₀ t (list_count l o) h = tt
  fail_over-IsTrue E add_member t₀ t (list_select l o total) h = h
  fail_over-IsTrue E add_member t₀ t (list_fill l o (users, total)) h =
      put_failed-IsTrue t₀ t (list_index l o (users, total))
        (E.json.dump (page_to_json E users total)) h
  fail_over-IsTrue E add_member t₀ t (list_index l o page) h = h
  fail_over-IsTrue E add_member t₀ t (listed l o page) h = h
  fail_over-IsTrue E add_member t₀ t (create_insert now name email) h = tt
  fail_over-IsTrue E add_member t₀ t (create_fill u) h =
      put_failed-IsTrue t₀ t (create_index u) (user_to_json_string E.json u) h
  fail_over-IsTrue E add_member t₀ t (create_index u) h = h
  fail_over-IsTrue E add_member t₀ t (create_delete k ks u) h = deleting-IsTrue t₀ t (some ks) u h
  fail_over-IsTrue E add_member t₀ t (create_drop u) h = h
  fail_over-IsTrue E add_member t₀ t (create_total u) h = h
  fail_over-IsTrue E add_member t₀ t (created none) h = tt
  fail_over-IsTrue E add_member t₀ t (created (some u)) h = h
  fail_over-IsTrue E add_member t₀ t stats_cached h = tt
  fail_over-IsTrue E add_member t₀ t stats_count h = tt
  fail_over-IsTrue E add_member t₀ t (stats_fill total) h = h
  fail_over-IsTrue E add_member t₀ t (stats_requests total) h = h
  fail_over-IsTrue E add_member t₀ t (stats_read total requests) h = h
  fail_over-IsTrue E add_member t₀ t failed h = tt
