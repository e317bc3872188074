-- ===== src/Mysql/Pool/Threads/Ownership.antt =====
-- No connection is lost, made up, or in two hands.
use mathlib.Core.List.{Perm, perm_middle, Nodup}
use mathlib.Core.List.Perm
use httpserver_demo.Prelude.{
  ℕ, List, [], ◌∷◌, ◌++◌, map, map-append, append-nil, append_assoc, ◌≡◌, refl, sym, subst,
}
use httpserver_demo.Mysql.Pool.Threads.{
  Room, lent_conns, look, Step, acquires, resumes, stirs, releases_to, releases, Reach, here, next,
  start, look_empty, look_lends,
}

-- The connections that the pool has, idle or lent.
abbrev pub owned : Room → List ℕ
owned r = r.idle ++ lent_conns r

look-perm : (t : ℕ) (r : Room) (xs : List ℕ) → r.idle ≡ xs → Perm (owned (look t r)) (owned r)
look-perm t r [] e = rw (look_empty t r e) Perm.rfl
look-perm t r (i ∷ rest) e = rw (look_lends t i rest r e) (
    subst (λ l. Perm (rest ++ i ∷ lent_conns r) (l ++ lent_conns r)) (sym e)
      (perm_middle rest (lent_conns r)))

middle-perm : (i : ℕ) (xs ys zs : List ℕ) → Perm (i ∷ (xs ++ (ys ++ zs))) (xs ++ (ys ++ i ∷ zs))
middle-perm i xs ys zs =
    rw (← append_assoc xs ys zs, ← append_assoc xs ys (i ∷ zs))
      (Perm.symm (perm_middle (xs ++ ys) zs))

give_back-perm :
    (t i : ℕ) (xs ys : List (ℕ × ℕ)) (r : Room)
    → r.lent ≡ xs ++ (t, i) ∷ ys
    → Perm ((i ∷ r.idle) ++ map (λ b. b.1) (xs ++ ys)) (owned r)
give_back-perm t i xs ys r e =
    rw (e, map-append, map-append) (middle-perm i r.idle (map (λ b. b.1) xs) (map (λ b. b.1) ys))

Step-perm : {r q : Room} → Step r q → Perm (owned q) (owned r)
Step-perm {r} (acquires t e) = rw e (look-perm t r r.idle refl)
Step-perm {r} (resumes t xs ys h e) = rw e (look-perm t _ r.idle refl)
Step-perm (stirs t xs ys h e) = rw e Perm.rfl
Step-perm {r} (releases_to t i w xs ys us vs h k e) = rw e (give_back-perm t i xs ys r h)
Step-perm {r} (releases t i xs ys h k e) = rw e (give_back-perm t i xs ys r h)

-- Whatever the threads do, the connections that are idle or lent are those that were so before.
pub Reach-perm : {r q : Room} → Reach r q → Perm (owned q) (owned r)
Reach-perm here = Perm.rfl
Reach-perm (next r s) = Perm.trans (Step-perm s) (Reach-perm r)

-- From a pool of distinct connections, no history of acquiring, sleeping, waking and releasing
-- brings a connection into the hands of two threads, or into `idle_` while it is lent or twice.
pub Reach-Nodup :
    (conns : List ℕ) {q : Room} → Nodup conns → Reach (start conns) q → Nodup (owned q)
Reach-Nodup conns h r = Perm.nodup (Perm.symm (Reach-perm r)) (rw append-nil h)
