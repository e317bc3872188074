-- ===== src/Mysql/Pool/Threads.antt =====
-- `MysqlPool::acquire` and `MysqlPool::release` with many threads. What a thread does while it
-- holds `mu_` is one step. `cv_.wait` with a predicate is a loop: a thread that finds `idle_` empty
-- sleeps, and looks again when it is woken, by `notify_one` or for no reason.
pub mod Ownership
pub mod Wakeups
pub mod Service
use httpserver_demo.Prelude.{ℕ, List, [], ◌∷◌, ◌++◌, map, Option, none, some, arith, ◌≡◌}
use httpserver_demo.Mysql.Pool.{pop_idle}

-- Threads are numbers; `asleep` waits in `cv_`, `woken` is on its way to look again.
pub record Room : Type 0 where
  pub idle : List ℕ
  pub lent : List (ℕ × ℕ)
  pub asleep : List ℕ
  pub woken : List ℕ

abbrev pub lent_conns : Room → List ℕ
lent_conns r = map (λ b. b.1) r.lent

-- `pop_back` and the guard that takes the connection.
abbrev pub lend : ℕ → ℕ × List ℕ → Room → Room
lend t (i, rest) r = record r { idle = rest; lent = (t, i) ∷ r.lent }

-- One look at the predicate: the connection is taken, or the thread goes to sleep.
abbrev pub look : ℕ → Room → Room
look t r = elim (pop_idle r.idle) [
  | none ↦ record r { asleep = t ∷ r.asleep }
  | some (i, rest) ↦ lend t (i, rest) r
]

-- The effect of `notify_one` where `w` is the sleeper that it picks.
abbrev pub wake : ℕ → List ℕ → Room → Room
wake w others r = record r { asleep = others; woken = w ∷ r.woken }

pub data Step (r q : Room) : Type 0 where
  -- a thread calls `acquire`
  acquires : (t : ℕ) → q ≡ look t r → Step r q
  -- a thread that was woken looks again
  resumes :
      (t : ℕ) (xs ys : List ℕ)
      → r.woken ≡ xs ++ t ∷ ys
      → q ≡ look t (record r { woken = xs ++ ys })
      → Step r q
  -- a spurious wake-up
  stirs : (t : ℕ) (xs ys : List ℕ) → r.asleep ≡ xs ++ t ∷ ys → q ≡ wake t (xs ++ ys) r → Step r q
  -- the guard of a thread ends while some thread sleeps, and one of these is notified
  releases_to :
      (t i w : ℕ) (xs ys : List (ℕ × ℕ)) (us vs : List ℕ)
      → r.lent ≡ xs ++ (t, i) ∷ ys
      → r.asleep ≡ us ++ w ∷ vs
      → q ≡ wake w (us ++ vs) (record r { idle = i ∷ r.idle; lent = xs ++ ys })
      → Step r q
  -- the guard of a thread ends while none sleeps
  releases :
      (t i : ℕ) (xs ys : List (ℕ × ℕ))
      → r.lent ≡ xs ++ (t, i) ∷ ys
      → r.asleep ≡ []
      → q ≡ record r { idle = i ∷ r.idle; lent = xs ++ ys }
      → Step r q

pub data Reach (r : Room) : Room → Type 0 where
  here : Reach r r
  next : {q u : Room} → Reach r q → Step q u → Reach r u

-- The pool after `init`: all connections idle, no thread in it.
abbrev pub start : List ℕ → Room
start conns = record { idle = conns; lent = []; asleep = []; woken = [] }

pub look_empty : (t : ℕ) (r : Room) → r.idle ≡ [] → look t r ≡ record r { asleep = t ∷ r.asleep }
look_empty t r e = ground arith

pub look_lends :
    (t i : ℕ) (rest : List ℕ) (r : Room) → r.idle ≡ i ∷ rest → look t r ≡ lend t (i, rest) r
look_lends t i rest r e = ground arith
