-- ===== src/Mysql/Pool/Threads/Wakeups.antt =====
-- No wake-up is lost.
use mathlib.Core.List.{Perm}
use mathlib.Core.List.Perm
use httpserver_demo.Mysql.Pool.Threads.Ownership.{owned, Reach-perm}
use httpserver_demo.Prelude.{
  subst, append-nil, List-cases, ℕ, ◌+◌, ◌≤◌, ◌<◌, List, [], ◌∷◌, ◌++◌, arith, length,
  length-append, ◌≡◌, refl, sym, ap, ◌∙◌, ◌⊎◌, inl, inr, ◌≢◌,
}
use httpserver_demo.Mysql.Pool.Threads.{
  Room, look, Step, acquires, resumes, stirs, releases_to, releases, Reach, here, next, start,
  look_empty, look_lends,
}

pub middle-ne-nil : (xs ys : List ℕ) (t : ℕ) → xs ++ t ∷ ys ≢ []
middle-ne-nil [] ys t e = cc
middle-ne-nil (x ∷ xs) ys t e = cc

-- If a thread sleeps, there are at least as many threads on their way to look again as there are
-- idle connections.
abbrev pub NoLostWakeup : Room → Type 0
NoLostWakeup r = (r.asleep ≡ []) ⊎ (length r.idle ≤ length r.woken)

look-NoLostWakeup :
    (t : ℕ) (r : Room) (xs : List ℕ)
    → r.idle ≡ xs
    → (r.asleep ≡ []) ⊎ (length r.idle ≤ length r.woken + 1)
    → NoLostWakeup (look t r)
look-NoLostWakeup t r [] e h = rw (look_empty t r e) (inr (omega (arith, ap length e)))
look-NoLostWakeup t r (i ∷ rest) e (inl h) = rw (look_lends t i rest r e) (inl h)
look-NoLostWakeup t r (i ∷ rest) e (inr h) =
    rw (look_lends t i rest r e) (inr (omega (arith, ap length e)))

length-middle : (xs ys : List ℕ) (t : ℕ) → length (xs ++ t ∷ ys) ≡ length (xs ++ ys) + 1
length-middle xs ys t = omega (arith, length-append xs (t ∷ ys), length-append xs ys)

weaken : (r : Room) → NoLostWakeup r → (r.asleep ≡ []) ⊎ (length r.idle ≤ length r.woken + 1)
weaken r (inl h) = inl h
weaken r (inr h) = inr (omega arith)

Step-NoLostWakeup : {r q : Room} → Step r q → NoLostWakeup r → NoLostWakeup q
Step-NoLostWakeup {r} (acquires t e) h = rw e (look-NoLostWakeup t r r.idle refl (weaken r h))
Step-NoLostWakeup {r} (resumes t xs ys w e) (inl h) =
    rw e (look-NoLostWakeup t (record r { woken = xs ++ ys }) r.idle refl (inl h))
Step-NoLostWakeup {r} (resumes t xs ys w e) (inr h) = rw e (
    look-NoLostWakeup t (record r { woken = xs ++ ys }) r.idle refl
      (inr (omega (arith, ap length w, length-middle xs ys t))))
Step-NoLostWakeup {r} (stirs t xs ys s e) (inl h) = absurd (middle-ne-nil xs ys t (sym s ∙ h))
Step-NoLostWakeup {r} (stirs t xs ys s e) (inr h) = rw e (inr (omega arith))
Step-NoLostWakeup {r} (releases_to t i w xs ys us vs l s e) (inl h) =
    absurd (middle-ne-nil us vs w (sym s ∙ h))
Step-NoLostWakeup {r} (releases_to t i w xs ys us vs l s e) (inr h) = rw e (inr (omega arith))
Step-NoLostWakeup {r} (releases t i xs ys l s e) h = rw e (inl s)

Reach-NoLostWakeup : {r q : Room} → NoLostWakeup r → Reach r q → NoLostWakeup q
Reach-NoLostWakeup h here = h
Reach-NoLostWakeup h (next r s) = Step-NoLostWakeup s (Reach-NoLostWakeup h r)

-- In every history, while a thread sleeps there are at least as many threads on their way to look
-- again as there are idle connections: a released connection is never left beside a sleeper that
-- nobody woke.
pub Reach-start-NoLostWakeup :
    (conns : List ℕ) {q : Room}
    → Reach (start conns) q
    → (q.asleep ≡ []) ⊎ (length q.idle ≤ length q.woken)
Reach-start-NoLostWakeup conns r = Reach-NoLostWakeup (inl refl) r

-- If a thread sleeps in a pool that has connections, some connection is lent, or one is idle and a
-- thread is on its way to look again.
pub Reach-progress :
    (conns : List ℕ) {q : Room}
    → 0 < length conns
    → q.asleep ≢ []
    → Reach (start conns) q
    → ((0 < length q.idle) × (0 < length q.woken)) ⊎ (0 < length q.lent)
Reach-progress conns {q} some_conn waits r = elim (List-cases q.lent) [
  | inr (b, bs, e) ↦ inr (omega (arith, ap length e))
  | inl none_lent ↦ elim (List-cases q.idle) [
    | inr (i, rest, e) ↦ elim (Reach-start-NoLostWakeup conns r) [
      | inl no_sleeper ↦ absurd (waits no_sleeper)
      | inr enough ↦ inl (omega (arith, ap length e), omega (arith, ap length e))
    ]
    | inl none_idle ↦ absurd (omega (arith, ap length (no_conns none_idle none_lent)))
  ]
]
  where
    no_conns : q.idle ≡ [] → q.lent ≡ [] → conns ≡ []
    no_conns e f =
        let p : Perm (owned q) (owned (start conns)) = Reach-perm r in
        let empty : owned q ≡ [] = rw (e, f) refl in
        let p' : Perm (conns ++ []) [] = Perm.symm (subst (λ l. Perm l (conns ++ [])) empty p) in
        sym (append-nil conns) ∙ Perm.eq-nil p'
