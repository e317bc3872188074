-- ===== src/Repository/Walk.antt =====
-- A client that asks `ListUsers` for one page after the other.
use httpserver_demo.Prelude.{
  ℕ, zero, suc, ◌+◌, ◌*◌, ◌≤◌, List, [], ◌∷◌, ◌++◌, map, map-append, Option, none, some, arith, ℤ,
  pos, length, take, drop, max_int64, ◌≡◌, refl, sym, ap, subst, ◌∙◌,
}
use httpserver_demo.Effects.{returned, ret, ◌>>=◌, then_ends}
use httpserver_demo.Json.{IsJson, User}
use httpserver_demo.Redis.Server.{IsRedis}
use httpserver_demo.Mysql.Server.{Account, Table, IsMysql}
use httpserver_demo.World.{Outside, World, Call}
use httpserver_demo.Repository.{list_users}
use httpserver_demo.Repository.Fits.{user_of, page_of}
use httpserver_demo.Repository.Coherence.{Coherent}
use httpserver_demo.Repository.Pages.{list_users-Coherent}

module _ (E : Outside) where
  abbrev join : Option (List User × ℤ) → Option (List User) → Option (List User)
  join (some (users, total)) (some more) = some (users ++ more)
  join page more = none

  -- The users of so many pages of `limit` users each, from an offset on.
  pub walk : ℕ → ℕ → ℕ → Call E (Option (List User))
  walk zero limit offset = ret (some [])
  walk (suc rounds) limit offset = do
    page ← list_users E (pos limit) (pos offset)
    more ← walk rounds limit (offset + limit)
    ret (join page more)

take-nil : (n : ℕ) → take {A = Account} n [] ≡ []
take-nil zero = refl
take-nil (suc n) = refl

drop-nil : (n : ℕ) → drop {A = Account} n [] ≡ []
drop-nil zero = refl
drop-nil (suc n) = refl

take-add : (m n : ℕ) (t : Table) → take (m + n) t ≡ take m t ++ take n (drop m t)
take-add zero n t = let e : 0 + n ≡ n = omega arith in rw e refl
take-add (suc m) n [] = rw (take-nil (suc m + n), take-nil n) refl
take-add (suc m) n (a ∷ t) =
    let shift : suc m + n ≡ suc (m + n) = omega arith in rw shift (ap (◌∷◌ a) (take-add m n t))

drop-drop : (m n : ℕ) (t : Table) → drop n (drop m t) ≡ drop (m + n) t
drop-drop zero n t = let e : 0 + n ≡ n = omega arith in rw e refl
drop-drop (suc m) n [] = rw (drop-nil (suc m + n), drop-nil n) refl
drop-drop (suc m) n (a ∷ t) =
    let shift : suc m + n ≡ suc (m + n) = omega arith in rw shift (drop-drop m n t)

take-all : (n : ℕ) (t : Table) → length t ≤ n → take n t ≡ t
take-all zero [] h = refl
take-all zero (a ∷ t) h = absurd (omega arith)
take-all (suc n) [] h = refl
take-all (suc n) (a ∷ t) h = ap (◌∷◌ a) (take-all n t (omega arith))

module _ (E : Outside) (J : IsJson E.json) (R : IsRedis E.redis) (S : IsMysql E.mysql) where
  walk-take :
      (rounds limit offset : ℕ) (w : World E) (t : Table)
      → Coherent E J R S w t
      → offset + rounds * limit ≤ max_int64
      → limit ≤ max_int64
      → ((walk E rounds limit offset w).0
          ≡ returned (some (map user_of (take (rounds * limit) (drop offset t)))))
        × Coherent E J R S (walk E rounds limit offset w).1 t
  unfolding walk
  walk-take zero limit offset w t c h k = let e : 0 * limit ≡ 0 = omega arith in (rw e refl, c)
  walk-take (suc rounds) limit offset w t c h k =
      let (page, c₁) = list_users-Coherent E J R S w t limit offset c k (grind arith) in
      let w₁ = (list_users E (pos limit) (pos offset) w).1 in
      let (rest, c₂) = walk-take rounds limit (offset + limit) w₁ t c₁ (grind arith) k in
      let more = map user_of (take (rounds * limit) (drop (offset + limit) t)) in
      let ends =
        then_ends (list_users E (pos limit) (pos offset))
          (λ p. walk E rounds limit (offset + limit) >>= λ more. ret (join E p more)) w _ page
        ∙ then_ends (walk E rounds limit (offset + limit))
            (λ more. ret (join E (some (page_of t limit offset)) more)) w₁ (some more) rest in
      let split : suc rounds * limit ≡ limit + rounds * limit = grind arith in
      (
        ap (λ out. out.0) ends ∙ ap (λ l. returned (some l)) (whole rounds limit offset t split),
        subst (λ x. Coherent E J R S x t) (sym (ap (λ out. out.1) ends)) c₂,
      )
    where
      whole :
          (rounds limit offset : ℕ) (t : Table)
          → suc rounds * limit ≡ limit + rounds * limit
          → map user_of (take limit (drop offset t))
              ++ map user_of (take (rounds * limit) (drop (offset + limit) t))
            ≡ map user_of (take (suc rounds * limit) (drop offset t))
      whole rounds limit offset t split =
          rw (split, take-add limit (rounds * limit) (drop offset t), drop-drop offset limit t)
            (sym (map-append user_of (take limit (drop offset t)) _))

  -- On a coherent state, a client that asks `ListUsers` for the pages of `limit` users at the
  -- offsets 0, `limit`, 2 `limit` and so on, for so many rounds that the rows fit, gets every user
  -- of the table once, in the order of the ids; the state stays coherent with the same table. Nobody
  -- else writes in the meantime, and the offsets are int64s.
  pub walk-all :
      (rounds limit : ℕ) (w : World E) (t : Table)
      → Coherent E J R S w t
      → length t ≤ rounds * limit
      → rounds * limit ≤ max_int64
      → limit ≤ max_int64
      → ((walk E rounds limit 0 w).0 ≡ returned (some (map user_of t)))
        × Coherent E J R S (walk E rounds limit 0 w).1 t
  walk-all rounds limit w t c covers h k =
      let (all, c') = walk-take rounds limit 0 w t c (omega arith) k in
      (all ∙ ap (λ l. returned (some (map user_of l))) (take-all (rounds * limit) t covers), c')
