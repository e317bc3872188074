-- ===== src/Mysql/Pool/Guards.antt =====
-- Borrowing through a guard, by one thread.
use httpserver_demo.Prelude.{
  ℕ, zero, suc, List, [], ◌∷◌, ◌++◌, none, some, arith, All, ◌≡◌, refl, ◌∙◌, subst,
}
use httpserver_demo.Mysql.{MysqlApi}
use httpserver_demo.Mysql.Pool.{MysqlPool, Guard, acquire, move, drop_guard}

module _ (api : MysqlApi) where
  -- When the guard of an acquired connection ends, the pool is what it was before, the order of
  -- its idle connections included.
  pub drop_guard-acquire :
      (p q : MysqlPool api) (i : ℕ)
      → acquire api p ≡ some (i, q)
      → drop_guard api (record { conn = some i }) q ≡ p
  unfolding acquire drop_guard
  drop_guard-acquire p q i h = ground arith

  -- A guard that is moved again and again: the last one, and those that were moved from.
  abbrev pub moves : ℕ → Guard api → Guard api × List (Guard api)
  moves zero g = (g, [])
  moves (suc n) g =
      let (new, old) = move api g in let (last, olds) = moves n new in (last, old ∷ olds)

  -- Destructors that run in turn.
  abbrev pub drop_all : List (Guard api) → MysqlPool api → MysqlPool api
  drop_all [] p = p
  drop_all (g ∷ gs) p = drop_all gs (drop_guard api g p)

  abbrev IsEmpty : Guard api → Type 0
  IsEmpty g = g.conn ≡ none

  moves-last : (n : ℕ) (g : Guard api) → (moves n g).0.conn ≡ g.conn
  unfolding move
  moves-last zero g = refl
  moves-last (suc n) g = moves-last n (move api g).0

  moves-IsEmpty : (n : ℕ) (g : Guard api) → All IsEmpty (moves n g).1
  unfolding move
  moves-IsEmpty zero g = tt
  moves-IsEmpty (suc n) g = (refl, moves-IsEmpty n (move api g).0)

  drop_all_empty : (gs : List (Guard api)) (p : MysqlPool api) → All IsEmpty gs → drop_all gs p ≡ p
  unfolding drop_guard
  drop_all_empty [] p h = refl
  drop_all_empty (g ∷ gs) p (e, h) = rw e (drop_all_empty gs p h)

  -- Among guards that were moved from, the last one acts alone.
  drop_all_among :
      (xs ys : List (Guard api)) (g : Guard api) (p : MysqlPool api)
      → All IsEmpty (xs ++ ys)
      → drop_all (xs ++ g ∷ ys) p ≡ drop_guard api g p
  unfolding drop_guard
  drop_all_among [] ys g p h = drop_all_empty ys (drop_guard api g p) h
  drop_all_among (x ∷ xs) ys g p (e, h) = rw e (drop_all_among xs ys g p h)

  drop_guard_same :
      (g g' : Guard api) (p : MysqlPool api)
      → g'.conn ≡ g.conn
      → drop_guard api g' p ≡ drop_guard api g p
  unfolding drop_guard
  drop_guard_same g g' p e = rw e refl

  -- However often a guard is moved, its connection goes back once: the guards that were moved from
  -- and the last one, which ends before, between or after them, together do to the pool what the
  -- first guard would have done.
  pub drop_all-moves :
      (n : ℕ) (g : Guard api) (p : MysqlPool api) (xs ys : List (Guard api))
      → (moves n g).1 ≡ xs ++ ys
      → drop_all (xs ++ (moves n g).0 ∷ ys) p ≡ drop_guard api g p
  drop_all-moves n g p xs ys e =
      drop_all_among xs ys (moves n g).0 p (subst (All IsEmpty) e (moves-IsEmpty n g))
      ∙ drop_guard_same g (moves n g).0 p (moves-last n g)
