-- ===== src/Mysql/Pool/Threads/Service.antt =====
-- Every thread that sleeps can be served, by the threads that are there.
use httpserver_demo.Prelude.{
  ℕ, ◌<◌, List, [], ◌∷◌, ◌++◌, arith, length, List-cases, ◌≡◌, ◌≢◌, refl, sym, ap, ◌∙◌, inl, inr,
}
use httpserver_demo.Mysql.Pool.Threads.{
  Room, lend, wake, Step, acquires, resumes, stirs, releases_to, releases, Reach, here, next, start,
  look_lends,
}
use httpserver_demo.Mysql.Pool.Threads.Wakeups.{Reach-progress, middle-ne-nil}

-- A woken thread looks again, or a guard ends: no thread comes, and none wakes for no reason.
abbrev pub IsOwn : {r q : Room} → Step r q → Type 0
IsOwn (acquires t e) = ⊥
IsOwn (resumes t xs ys w e) = Unit
IsOwn (stirs t xs ys s e) = ⊥
IsOwn (releases_to t i w xs ys us vs l s e) = Unit
IsOwn (releases t i xs ys l s e) = Unit

abbrev pub IsOwnRun : {r q : Room} → Reach r q → Type 0
IsOwnRun here = Unit
IsOwnRun (next r s) = IsOwnRun r × IsOwn s

-- The run can go on, by such steps, until the thread holds a connection.
abbrev pub CanServe : Room → ℕ → Type 0
CanServe q t =
    (q' : Room) × (run : Reach q q') × IsOwnRun run
    × ((i : ℕ) × (rest : List (ℕ × ℕ)) × (q'.lent ≡ (t, i) ∷ rest))

-- A holder gives its connection back, and the sleeper that is notified takes it.
handed_over :
    {r q : Room} (run : Reach r q) (t : ℕ) (us vs : List ℕ) (a i : ℕ) (rest : List (ℕ × ℕ))
    → IsOwnRun run
    → q.asleep ≡ us ++ t ∷ vs
    → q.lent ≡ (a, i) ∷ rest
    → CanServe r t
handed_over {q = q} run t us vs a i rest own s l =
    let back = wake t (us ++ vs) (record q { idle = i ∷ q.idle; lent = rest }) in
    (
      lend t (i, q.idle) (record back { woken = q.woken }),
      next (next run (releases_to a i t [] rest us vs l s refl)) (resumes t [] q.woken refl refl),
      ((own, tt), tt),
      (i, rest, refl),
    )

-- From every state that the threads can reach, in a pool that has a connection, every thread that
-- sleeps can get one, without a new call of `acquire` and without a spurious wake-up: it is enough
-- that guards end and that woken threads look again.
pub Reach-CanServe :
    (conns : List ℕ) {q : Room} (t : ℕ) (us vs : List ℕ)
    → 0 < length conns
    → q.asleep ≡ us ++ t ∷ vs
    → Reach (start conns) q
    → CanServe q t
Reach-CanServe conns {q} t us vs some_conn s r =
    let waits : q.asleep ≢ [] = λ e. middle-ne-nil us vs t (sym s ∙ e) in
    elim (List-cases q.lent) [
      | inr ((a, i), rest, l) ↦ handed_over here t us vs a i rest tt s l
      | inl none_lent ↦ elim (Reach-progress conns some_conn waits r) [
        | inr lent ↦ absurd (omega (arith, ap length none_lent))
        | inl (idle, woken) ↦ elim (List-cases q.idle) [
          | inl none_idle ↦ absurd (omega (arith, ap length none_idle))
          | inr (j, js, e) ↦ elim (List-cases q.woken) [
            | inl none_woken ↦ absurd (omega (arith, ap length none_woken))
            | inr (u, ws, w) ↦
                let same = look_lends u j js (record q { woken = ws }) e in
                handed_over (next here (resumes u [] ws w refl)) t us vs u j q.lent (tt, tt)
                  (ap (λ x. x.asleep) same ∙ s) (ap (λ x. x.lent) same)
          ]
        ]
      ]
    ]
