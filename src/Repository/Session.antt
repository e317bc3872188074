-- ===== src/Repository/Session.antt =====
-- Calls of src/store/user_repository.cpp made one after the other, as runs of the calls by threads.
use httpserver_demo.Prelude.{
  ℕ, suc, ◌+◌, ◌<◌, ◌≤◌, List, [], ◌∷◌, Option, none, some, arith, Bytes, ℤ, pos, NoNul, IsInt64,
  All, length, length-append, max_int64, ◌≡◌, refl, sym, ap, subst, ◌∙◌, inl, inr,
}
use httpserver_demo.Effects.{returned, ret, ◌>>=◌, then_ends}
use httpserver_demo.Json.{IsJson, User}
use httpserver_demo.Redis.Server.{IsRedis}
use httpserver_demo.Mysql.Server.{Table, IsMysql}
use httpserver_demo.World.{Outside, World, Call}
use httpserver_demo.Repository.{get_user, list_users, create_user, get_stats}
use httpserver_demo.Repository.Coherence.{Coherent}
use httpserver_demo.Repository.Reads.{get_user-Solo}
use httpserver_demo.Repository.Pages.{list_users-Solo}
use httpserver_demo.Repository.Creation.{create_user-Solo}
use httpserver_demo.Repository.Stats.{get_stats-Solo}
use httpserver_demo.Repository.Threads.{
  Task, get_cached, got, list_cached, listed, create_insert, created, stats_cached, stats_read,
  failed, State, calls, IsCall, Reach, here, next,
}
use httpserver_demo.Repository.Threads.Solo.{Solo, Solo-Reach}

-- A client's call.
pub data Request : Type 0 where
  user : Bytes → Request
  page : ℕ → ℕ → Request
  creation : ℤ → Bytes → Bytes → Request
  stats : Request

abbrev pub task_of : Request → Task
task_of (user id) = get_cached id
task_of (page limit offset) = list_cached limit offset
task_of (creation now name email) = create_insert now name email
task_of stats = stats_cached

module _ (E : Outside) where
  abbrev listed_as : ℕ → ℕ → Option (List User × ℤ) → Task
  listed_as limit offset none = failed
  listed_as limit offset (some found) = listed limit offset found

  abbrev read_as : Option (ℤ × ℤ) → Task
  read_as none = failed
  read_as (some (total, requests)) = stats_read total requests

  -- The repository's call, with its answer as a task that ended.
  pub serve : Request → Call E Task
  serve (user id) = get_user E id >>= λ u. ret (got id u)
  serve (page limit offset) =
      list_users E (pos limit) (pos offset) >>= λ found. ret (listed_as limit offset found)
  serve (creation now name email) = create_user E now name email >>= λ u. ret (created u)
  serve stats = get_stats E >>= λ read. ret (read_as read)

  -- A client's calls in turn, with the answers so far, the last one first.
  pub session : List Task → List Request → Call E (List Task)
  session answers [] = ret answers
  session answers (k ∷ more) = serve k >>= λ answer. session (answer ∷ answers) more

module _ (E : Outside) (J : IsJson E.json) (R : IsRedis E.redis) (S : IsMysql E.mysql) where
  -- A call with arguments that the program takes.
  abbrev pub IsRequest : Request → Type 0
  IsRequest (user id) = NoNul id
  IsRequest (page limit offset) = (limit ≤ max_int64) × (offset ≤ max_int64)
  IsRequest (creation now name email) =
      NoNul name × NoNul email × J.IsText name × J.IsText email × IsInt64 now
  IsRequest stats = Unit

  -- A call returns an answer, and does what its task does by itself.
  record Served (k : Request) (w : World E) {t : Table} (c : Coherent E J R S w t) : Type 0 where
    answer : Task
    table : Table
    run : (serve E k w).0 ≡ returned answer
    after : Coherent E J R S (serve E k w).1 table
    path : Solo E S.matches R.add_member answer after.view table (task_of k) c.view t
    grown : length table ≤ suc (length t)
    asked : IsCall (task_of k)

  module _ (w : World E) {t : Table} (c : Coherent E J R S w t) where
    answered :
        {A : Type 0} (m : Call E A) (f : A → Task) (k : Request) (t' : Table) (a : A)
        → serve E k ≡ (m >>= λ a. ret (f a))
        → (m w).0 ≡ returned a
        → (c' : Coherent E J R S (m w).1 t')
        → Solo E S.matches R.add_member (f a) c'.view t' (task_of k) c.view t
        → length t' ≤ suc (length t)
        → IsCall (task_of k)
        → Served k w c
    answered m f k t' a same out c' path grown asked =
        let ends : serve E k w ≡ (returned (f a), (m w).1) =
          ap (λ m. m w) same ∙ then_ends m (λ a. ret (f a)) w a out in
        let (c'', shown) =
          subst (λ x. (c'' : Coherent E J R S x t') × (c''.view ≡ c'.view))
            (sym (ap (λ out. out.1) ends)) (c', refl) in
        record {
          answer = f a;
          table = t';
          run = ap (λ out. out.0) ends;
          after = c'';
          path =
              subst (λ x. Solo E S.matches R.add_member (f a) x t' (task_of k) c.view t) (sym shown)
                path;
          grown = grown;
          asked = asked;
        }

    serve-Solo : (k : Request) → IsRequest k → length t < max_int64 → Served k w c
    unfolding serve
    serve-Solo (user id) h room =
        let (out, c', path) = get_user-Solo E J R S w t id c h in
        answered (get_user E id) (got id) (user id) t _ refl out c' path (omega arith) h
    serve-Solo (page l o) h room =
        let (out, c', path) = list_users-Solo E J R S w t l o c h.0 h.1 in
        answered (list_users E (pos l) (pos o)) (listed_as E l o) (page l o) t _ refl out c' path
          (omega arith) tt
    serve-Solo (creation now name email) (np, ep, nt, et, in_range) room =
        elim (create_user-Solo E J R S w t now name email c np ep nt et in_range room) [
          | inl (out, row, c', path) ↦
              answered (create_user E now name email) created (creation now name email) t _ refl out
                c' path (omega arith) (np, ep)
          | inr (id, fresh, out, c', path) ↦
              answered (create_user E now name email) created (creation now name email) _ _ refl out
                c' path (omega (arith, length-append t (_ ∷ []))) (np, ep)
        ]
    serve-Solo stats h room =
        let (out, c', path) = get_stats-Solo E J R S w t c in
        answered (get_stats E) (read_as E) stats t _ refl out c' path (omega arith) tt

  -- The calls go on from a run of the threads.
  runs_on :
      (ks : List Request) (w : World E) (t : Table) (answers : List Task) (s : State)
      → All IsRequest ks
      → length t + length ks ≤ max_int64
      → (c : Coherent E J R S w t)
      → Reach E S.matches R.add_member s (record { cache = c.view; table = t; tasks = answers })
      → (answers' : List Task) × (t' : Table) × ((session E answers ks w).0 ≡ returned answers')
        × (c' : Coherent E J R S (session E answers ks w).1 t') × Reach E S.matches R.add_member s
            (record { cache = c'.view; table = t'; tasks = answers' })
  unfolding session
  runs_on [] w t answers s h room c r = (answers, t, refl, c, r)
  runs_on (k ∷ ks) w t answers s (h, hs) room c r =
      let d = serve-Solo w c k h (omega arith) in
      let r₁ =
        Solo-Reach E S.matches R.add_member s [] answers d.path
          (next r (calls (task_of k) d.asked refl)) in
      let ends = then_ends (serve E k) (λ a. session E (a ∷ answers) ks) w d.answer d.run in
      let rest =
        runs_on ks (serve E k w).1 d.table (d.answer ∷ answers) s hs
          (let g = d.grown in omega arith) d.after r₁ in
      subst
        (λ out.
          (answers' : List Task) × (t' : Table) × (out.0 ≡ returned answers')
          × (c' : Coherent E J R S out.1 t') × Reach E S.matches R.add_member s
              (record { cache = c'.view; table = t'; tasks = answers' }))
        (sym ends) rest

  -- A client's calls, one after the other from a coherent state, all return, whatever they are and
  -- in whatever order; and the cache, the table and the answers that they leave are those of a run
  -- of the calls by threads from the same cache and table. So the program's calls, with their
  -- replies, connections, retries and locks, do what the commands and statements of the threads'
  -- calls do, and what holds of all runs of the threads holds of them. The arguments are texts and
  -- numbers that the program takes, and the table has room for a row each.
  pub session-Reach :
      (ks : List Request) (w : World E) (t : Table)
      → All IsRequest ks
      → length t + length ks ≤ max_int64
      → (c : Coherent E J R S w t)
      → (answers : List Task) × (t' : Table) × ((session E [] ks w).0 ≡ returned answers)
        × (c' : Coherent E J R S (session E [] ks w).1 t') × Reach E S.matches R.add_member
            (record { cache = c.view; table = t; tasks = [] })
            (record { cache = c'.view; table = t'; tasks = answers })
  session-Reach ks w t h room c = runs_on ks w t [] _ h room c here
