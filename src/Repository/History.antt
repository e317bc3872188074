-- ===== src/Repository/History.antt =====
-- Calls of the repository one after the other.
use mathlib.Core.Option
use httpserver_demo.Prelude.{
  ℕ, ◌+◌, ◌<◌, ◌≤◌, [], ◌∷◌, ◌++◌, map, none, some, arith, Bytes, pos, ℤ, NoNul, IsInt64, length,
  length-append, take, drop, max_int64, append-nil, ◌≡◌, ◌∙◌, refl, sym, ap, subst, ◌⊎◌, inl, inr,
}
use httpserver_demo.Decimal.{nat_to_string}
use httpserver_demo.Effects.{returned}
use httpserver_demo.Json.{IsJson, User}
use httpserver_demo.Redis.Server.{IsRedis, text_of}
use httpserver_demo.Mysql.Server.{Account, Table, IsMysql}
use httpserver_demo.World.{Outside, World}
use httpserver_demo.Repository.{
  create_user, get_user, list_users, get_stats, count_or_zero, request_count_key,
}
use httpserver_demo.Repository.Keys.{nat_to_string-NoNul}
use httpserver_demo.Repository.Fits.{user_of}
use httpserver_demo.Repository.Insertion.{find_new}
use httpserver_demo.Repository.Coherence.{Coherent}
use httpserver_demo.Repository.Reads.{get_user-Coherent}
use httpserver_demo.Repository.Reads.Path.{user_at}
use httpserver_demo.Repository.Pages.{list_users-Coherent}
use httpserver_demo.Repository.Stats.{get_stats-Coherent}
use httpserver_demo.Repository.Creation.{create_user-Coherent}

-- A call of the repository; `create` comes with the clock's reading.
pub data Operation : Type 0 where
  create : ℤ → Bytes → Bytes → Operation
  read : Bytes → Operation
  page : ℕ → ℕ → Operation
  stats : Operation

drop-length : (t : Table) (a : Account) → drop (length t) (t ++ a ∷ []) ≡ a ∷ []
drop-length [] a = refl
drop-length (b ∷ t) a = drop-length t a

module _ (E : Outside) where
  -- The state after a call.
  abbrev pub after : Operation → World E → World E
  after (create now name email) w = (create_user E now name email w).1
  after (read id) w = (get_user E id w).1
  after (page limit offset) w = (list_users E (pos limit) (pos offset) w).1
  after stats w = (get_stats E w).1

module _ (E : Outside) (J : IsJson E.json) (R : IsRedis E.redis) (S : IsMysql E.mysql) where
  -- The arguments are texts that survive C strings and JSON, and numbers of their types' ranges.
  abbrev pub IsFine : Operation → Type 0
  IsFine (create now name email) =
      NoNul name × NoNul email × J.IsText name × J.IsText email × IsInt64 now
  IsFine (read id) = NoNul id
  IsFine (page limit offset) = (limit ≤ max_int64) × (offset ≤ max_int64)
  IsFine stats = Unit

  unfoldable pub Grown : World E → Table → ℕ → Type 0
  Grown w t n = (more : Table) × Coherent E J R S w (t ++ more) × (length more ≤ n)

  same_table : (w : World E) (t : Table) → Coherent E J R S w t → Grown w t 1
  unfolding Grown
  same_table w t c = ([], subst (Coherent E J R S w) (sym (append-nil t)) c, omega arith)

  pub after-Grown :
      (op : Operation) (w : World E) (t : Table)
      → Coherent E J R S w t
      → IsFine op
      → length t < max_int64
      → Grown (after E op w) t 1
  unfolding Grown
  after-Grown (create now name email) w t c (np, ep, nt, et, h) room =
      elim (create_user-Coherent E J R S w t now name email c np ep nt et h room) [
        | inl (out, row, c') ↦ same_table _ t c'
        | inr (id, fresh, out, c') ↦ (_, c', omega arith)
      ]
  after-Grown (read id) w t c h room = same_table _ t (get_user-Coherent E J R S w t id c h).1
  after-Grown (page l o) w t c h room =
      same_table _ t (list_users-Coherent E J R S w t l o c h.0 h.1).1
  after-Grown stats w t c h room = same_table _ t (get_stats-Coherent E J R S w t c).1

  -- What `CreateUser` returned is read back: by `GetUser` under the new id, on the page that starts
  -- behind the old rows, and in the count. Otherwise `CreateUser` returned none. The conditions are
  -- those of `create_user-Coherent`.
  pub create_user-read_back :
      (w : World E) (t : Table) (now : ℤ) (name email : Bytes)
      → Coherent E J R S w t
      → IsFine (create now name email)
      → length t < max_int64
      → let out = create_user E now name email w in
        (out.0 ≡ returned none)
        ⊎ ((u : User) × (out.0 ≡ returned (some u))
            × ((get_user E u.id out.1).0 ≡ returned (some u))
            × ((list_users E (pos 1) (pos (length t)) out.1).0
                ≡ returned (some (u ∷ [], pos (length t + 1))))
            × ((requests : ℤ) × ((get_stats E out.1).0
                  ≡ returned (some (pos (length t + 1), requests)))))
  create_user-read_back w t now name email c (np, ep, nt, et, h) room =
      elim (create_user-Coherent E J R S w t now name email c np ep nt et h room) [
        | inl (out, row, c') ↦ inl out
        | inr (id, fresh, out, c') ↦
            let b : Account = record { id = id; name = name; email = email; created_at = now } in
            let grown : length (t ++ b ∷ []) ≡ length t + 1 = length-append t (b ∷ []) in
            let found : user_at S (t ++ b ∷ []) (nat_to_string id) ≡ some (user_of b) =
              ap (Option.map user_of) (find_new S.matches S.matches-nat_to_string t b fresh) in
            let (read_out, c₁) =
              get_user-Coherent E J R S _ _ (nat_to_string id) c' (nat_to_string-NoNul id) in
            let (page_out, c₂) =
              list_users-Coherent E J R S _ _ 1 (length t) c' (omega arith) (omega arith) in
            let (stats_out, c₃) = get_stats-Coherent E J R S _ _ c' in
            inr (
              user_of b,
              out,
              read_out ∙ ap returned found,
              page_out
                  ∙ ap (λ l. returned (some (map user_of (take 1 l), pos (length (t ++ b ∷ [])))))
                      (drop-length t b)
                  ∙ ap (λ n. returned (some (user_of b ∷ [], pos n))) grown,
              (
                count_or_zero (text_of (c'.view request_count_key)),
                stats_out
                    ∙ ap
                        (λ n.
                          returned
                            (some (pos n, count_or_zero (text_of (c'.view request_count_key)))))
                        grown,
              ),
            )
      ]
