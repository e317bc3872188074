-- ===== src/Example/Races.antt =====
-- Runs of the calls of src/store/user_repository.cpp by several threads, and page after page.
use httpserver_demo.Prelude.{List, [], ◌∷◌, ◌++◌, map, none, some, arith, codes, pos, ◌≡◌, refl}
use httpserver_demo.Effects.{returned}
use httpserver_demo.Json.{user_to_json_string}
use httpserver_demo.Redis.Server.{View}
use httpserver_demo.Mysql.Server.{Account, Table}
use httpserver_demo.Repository.Fits.{user_of, page_of}
use httpserver_demo.Repository.Coherence.{Coherent}
use httpserver_demo.Repository.Walk.{walk, walk-all}
use httpserver_demo.Repository.Threads.{Task, State, Reach, created, listed}
use httpserver_demo.Repository.Threads.Answers.{IsSound, Reach-IsSound}
use httpserver_demo.Repository.Threads.Stale.{page_outlives_insertion}
use httpserver_demo.Repository.Session.{
  Request, creation, page, user, stats, session, session-Reach,
}
use httpserver_demo.Example.Json.Laws.{json_laws}
use httpserver_demo.Example.Redis.{redis_laws}
use httpserver_demo.Example.Mysql.Laws.{mysql_laws}
use httpserver_demo.Example.Store.{outside, ann, start, start-Coherent}

abbrev bob : Account
bob = record { id = 2; name = codes "Bob"; email = codes "b@b.c"; created_at = pos 1700000001 }

abbrev nothing_cached : View
nothing_cached k = none

abbrev before : State
before = record { cache = nothing_cached; table = ann ∷ []; tasks = [] }

abbrev Race : Type 0
Race =
    (q₁ : State) × (q₂ : State) × Reach outside mysql_laws.matches redis_laws.add_member before q₁
    × (q₁.table ≡ (ann ∷ []) ++ bob ∷ [])
    × (q₁.tasks ≡ created (some (user_of bob)) ∷ listed 10 0 (page_of (ann ∷ []) 10 0) ∷ [])
    × Reach outside mysql_laws.matches redis_laws.add_member q₁ q₂
    × (q₂.table ≡ (ann ∷ []) ++ bob ∷ [])
    × (q₂.tasks ≡ listed 10 0 (page_of (ann ∷ []) 10 0) ∷ q₁.tasks)

page_outlives_insertion_example : Race
unfolding user_to_json_string
page_outlives_insertion_example =
    page_outlives_insertion outside json_laws mysql_laws.matches redis_laws.add_member 10 0
      nothing_cached (ann ∷ []) bob _ _ refl refl refl refl (omega arith, tt) (omega arith)
      (omega arith) (omega arith)

race : Race
unfolding user_to_json_string
race =
    page_outlives_insertion outside json_laws mysql_laws.matches redis_laws.add_member 10 0
      nothing_cached (ann ∷ []) bob _ _ refl refl refl refl (omega arith, tt) (omega arith)
      (omega arith) (omega arith)

Reach-IsSound_example :
    IsSound outside json_laws mysql_laws.matches redis_laws.add_member (ann ∷ []) race.0
Reach-IsSound_example =
    Reach-IsSound outside json_laws mysql_laws redis_laws.add_member nothing_cached (ann ∷ [])
      (λ k x e. absurd (cc e)) (omega arith) race.2

walk-all_example :
    ((walk outside 3 1 0 start).0 ≡ returned (some (map user_of (ann ∷ []))))
    × Coherent outside json_laws redis_laws mysql_laws (walk outside 3 1 0 start).1 (ann ∷ [])
walk-all_example =
    walk-all outside json_laws redis_laws mysql_laws 3 1 start (ann ∷ []) start-Coherent
      (omega arith) (omega arith) (omega arith)

abbrev requests : List Request
requests =
    page 10 0
    ∷ creation (pos 1700000001) (codes "Bob") (codes "b@b.c")
    ∷ page 10 0
    ∷ user (codes "1")
    ∷ stats
    ∷ []

session-Reach_example :
    (answers : List Task) × (t' : Table) × ((session outside [] requests start).0
      ≡ returned answers)
    × (c' : Coherent outside json_laws redis_laws mysql_laws
        (session outside [] requests start).1
        t')
    × Reach outside mysql_laws.matches redis_laws.add_member
        (record { cache = start-Coherent.view; table = ann ∷ []; tasks = [] })
        (record { cache = c'.view; table = t'; tasks = answers })
session-Reach_example =
    session-Reach outside json_laws redis_laws mysql_laws requests start (ann ∷ [])
      (
        (omega arith, omega arith),
        (
          (
            omega arith,
            omega arith,
            json_laws.ascii-IsText (codes "Bob") (omega arith),
            json_laws.ascii-IsText (codes "b@b.c") (omega arith),
            omega arith,
          ),
          ((omega arith, omega arith), (omega arith, (tt, tt))),
        ),
      )
      (omega arith) start-Coherent
