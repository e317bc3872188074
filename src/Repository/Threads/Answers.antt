-- ===== src/Repository/Threads/Answers.antt =====
-- What the calls of many threads return, however their steps interleave.
use httpserver_demo.Prelude.{
  ℕ, Bool, ◌<◌, ◌≤◌, ◌==◌, All-imp, All-middle, All-replace, List, [], ◌∷◌, ◌++◌, none, Bytes,
  length, max_int64, All, ◌≡◌, refl, subst, sym, ◌⊎◌, inl, inr,
}
use httpserver_demo.Decimal.{nat_to_string}
use httpserver_demo.Json.{IsJson}
use httpserver_demo.Redis.Server.{View}
use httpserver_demo.Mysql.Server.{Account, Table, IsMysql}
use httpserver_demo.World.{Outside}
use httpserver_demo.Repository.Fits.{user_of}
use httpserver_demo.Repository.Insertion.{find_new}
use httpserver_demo.Repository.Threads.{
  Task, get_cached, list_cached, create_insert, create_fill, created, stats_cached, advance, State,
  IsCall, moved, inserted, Step, calls, moves, fails, fail_over, inserts, refuses, expires, Reach,
  here, next,
}
use httpserver_demo.Repository.Threads.Truth.{
  Prefix, Prefix_refl, Prefix-append, IsTrue, IsTrue-append, CacheIsTrue, CacheIsTrue-append,
  CacheIsTrue-clear,
}
use httpserver_demo.Repository.Threads.Moves.{Kept, advance-Kept}
use httpserver_demo.Repository.Threads.Failures.{fail_over-IsTrue}

module _ (E : Outside) (J : IsJson E.json) (matches : Bytes → ℕ → Bool)
    (add_member : List Bytes → Bytes → List Bytes) (t₀ : Table) where
  -- What holds at any time: the cache and the calls say what is true, the rows that were there when
  -- the first call began still are, and their number is an int64.
  pub record IsSound (s : State) : Type 0 where
    pub cache : CacheIsTrue E matches s.cache s.table
    pub tasks : All (IsTrue matches t₀ s.table) s.tasks
    pub since : Prefix t₀ s.table
    pub small : length s.table ≤ max_int64

  call-IsTrue : (k : Task) (t : Table) → IsCall k → IsTrue matches t₀ t k
  call-IsTrue (get_cached id) t h = tt
  call-IsTrue (list_cached l o) t h = tt
  call-IsTrue (create_insert now name email) t h = tt
  call-IsTrue stats_cached t h = tt
  call-IsTrue k t h = elim h [ ]

  moved-IsSound :
      (s : State) (xs ys : List Task) (k : Task)
      → s.tasks ≡ xs ++ k ∷ ys
      → IsSound s
      → IsSound (moved xs (advance E matches add_member k s.cache s.table) ys s)
  unfolding Kept
  moved-IsSound s xs ys k e h =
      let tasks : All (IsTrue matches t₀ s.table) (xs ++ k ∷ ys) =
        subst (All (IsTrue matches t₀ s.table)) e h.tasks in
      let (is, cache) =
        advance-Kept E J matches add_member t₀ s.cache s.table h.cache h.since h.small k
          (All-middle _ xs ys k tasks) in
      record {
        cache = cache;
        tasks = All-replace _ xs ys k _ tasks is;
        since = h.since;
        small = h.small;
      }

  failed-IsSound :
      (s : State) (xs ys : List Task) (k : Task) (v : View)
      → s.tasks ≡ xs ++ k ∷ ys
      → (v ≡ s.cache) ⊎ (v ≡ (advance E matches add_member k s.cache s.table).1)
      → IsSound s
      → IsSound (moved xs (fail_over E matches add_member k, v) ys s)
  unfolding Kept
  failed-IsSound s xs ys k v e seen h =
      let tasks : All (IsTrue matches t₀ s.table) (xs ++ k ∷ ys) =
        subst (All (IsTrue matches t₀ s.table)) e h.tasks in
      let is = All-middle _ xs ys k tasks in
      let (next_is, done) =
        advance-Kept E J matches add_member t₀ s.cache s.table h.cache h.since h.small k is in
      record {
        cache = elim seen [
          | inl same ↦ subst (λ x. CacheIsTrue E matches x s.table) (sym same) h.cache
          | inr same ↦ subst (λ x. CacheIsTrue E matches x s.table) (sym same) done
        ];
        tasks =
            All-replace _ xs ys k _ tasks (fail_over-IsTrue matches E add_member t₀ s.table k is);
        since = h.since;
        small = h.small;
      }

  module _ (own : (n m : ℕ) → matches (nat_to_string n) m ≡ (m == n)) where
    inserted-IsSound :
        (s : State) (xs ys : List Task) (b : Account)
        → s.tasks ≡ xs ++ create_insert b.created_at b.name b.email ∷ ys
        → All (λ a. a.id < b.id) s.table
        → length (s.table ++ b ∷ []) ≤ max_int64
        → IsSound s
        → IsSound (inserted xs b ys s)
    inserted-IsSound s xs ys b e fresh room h =
        let tasks : All (IsTrue matches t₀ (s.table ++ b ∷ [])) (xs ++ _ ∷ ys) =
          subst (All (IsTrue matches t₀ (s.table ++ b ∷ []))) e
            (All-imp _ _ s.tasks (IsTrue-append matches t₀ s.table b) h.tasks) in
        record {
          cache = CacheIsTrue-append E matches s.cache s.table b h.cache;
          tasks =
              All-replace _ xs ys _ (create_fill (user_of b)) tasks
                (b, find_new matches own s.table b fresh, refl);
          since = Prefix-append t₀ s.table b h.since;
          small = room;
        }

    Step-IsSound : {s q : State} → Step E matches add_member s q → IsSound s → IsSound q
    Step-IsSound {s} (calls k start e) h = rw e (record {
      cache = h.cache;
      tasks = (call-IsTrue k s.table start, h.tasks);
      since = h.since;
      small = h.small;
    })
    Step-IsSound {s} (moves xs ys k at_k e) h = rw e (moved-IsSound s xs ys k at_k h)
    Step-IsSound {s} (fails xs ys k v at_k seen e) h = rw e (failed-IsSound s xs ys k v at_k seen h)
    Step-IsSound {s} (inserts xs ys b at_b fresh room e) h =
        rw e (inserted-IsSound s xs ys b at_b fresh room h)
    Step-IsSound {s} (refuses xs ys now name email at_k e) h = rw e (record {
      cache = h.cache;
      tasks =
          All-replace _ xs ys (create_insert now name email) (created none)
            (subst (All (IsTrue matches t₀ s.table)) at_k h.tasks) tt;
      since = h.since;
      small = h.small;
    })
    Step-IsSound {s} (expires k other e) h = rw e (record {
      cache = CacheIsTrue-clear E matches s.cache s.table k none (λ x e. cc) h.cache;
      tasks = h.tasks;
      since = h.since;
      small = h.small;
    })

    Reach-keeps : {s q : State} → IsSound s → Reach E matches add_member s q → IsSound q
    Reach-keeps h here = h
    Reach-keeps h (next r st) = Step-IsSound st (Reach-keeps h r)

-- However the steps of the calls of any number of threads interleave, with keys that expire and
-- commands to Redis that fail at any time, carried out or not, from a state with no call under way and a cache whose texts are true of the table: a
-- `GetUser` that ended returned the user that the table has under the id, or none, and then the
-- table had no such user when the first call began; a `CreateUser` that returned a user returned
-- one that the table has under its id; the users of a `ListUsers` are the page of the table as it
-- was at some time, and its total, as that of `GetStats`, is the number of rows at a time not
-- later; and every cached text is true of the table in the same sense. Nothing is said of how old a
-- page may be.
pub Reach-IsSound :
    (E : Outside) (J : IsJson E.json) (S : IsMysql E.mysql)
    (add_member : List Bytes → Bytes → List Bytes) (v : View) (t : Table) {q : State}
    → CacheIsTrue E S.matches v t
    → length t ≤ max_int64
    → Reach E S.matches add_member (record { cache = v; table = t; tasks = [] }) q
    → IsSound E J S.matches add_member t q
Reach-IsSound E J S add_member v t fits small r =
    Reach-keeps E J S.matches add_member t S.matches-nat_to_string
      (record { cache = fits; tasks = tt; since = Prefix_refl t; small = small }) r
