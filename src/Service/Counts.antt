-- ===== src/Service/Counts.antt =====
-- What the handlers of src/grpc_server/user_service.cpp count, and `GetStats` reads.
pub mod Handlers
use httpserver_demo.Prelude.{
  ℕ, ◌+◌, ◌≤◌, ◌<◌, List, [], ◌∷◌, ◌++◌, Option, none, some, arith, Bytes, codes, pos, ℤ, NoNul,
  IsInt64, max_int64, length, append-nil, ◌≡◌, refl, sym, ap, subst, inl, inr,
}
use httpserver_demo.Decimal.{nat_to_string}
use httpserver_demo.Effects.{returned, ret, continue, ◌>>=◌, ◌>>◌, then_ends}
use httpserver_demo.Json.{IsJson, User}
use httpserver_demo.Redis.Server.{text, IsRedis, IsCount}
use httpserver_demo.Mysql.Server.{Table, IsMysql}
use httpserver_demo.World.{Outside, World, Call}
use httpserver_demo.Repository
use httpserver_demo.Repository.{request_count_key, count_request, count_or_zero, number_of_text}
use httpserver_demo.Repository.Coherence.{Coherent}
use httpserver_demo.Repository.Reads.{get_user-Solo}
use httpserver_demo.Repository.Pages.{list_users-Solo}
use httpserver_demo.Repository.Creation.{create_user-Solo}
use httpserver_demo.Repository.Stats.{get_stats-Solo}
use httpserver_demo.Repository.Threads.{Task}
use httpserver_demo.Repository.Threads.Solo.{Solo}
use httpserver_demo.Repository.Threads.Requests.{
  IsClean, DeletesOthers, update-IsClean, Solo-Leaves,
}
use httpserver_demo.Service.{
  create_user, get_user, list_users, get_stats, created, found, listed, counted, Status, failure,
  invalid_argument, offset_of, UserReply,
}
use httpserver_demo.Service.Answers.{
  count_step, answer_step, page_limit, page_offset, page_limit_lem, page_offset_lem,
  page_limit_bound, page_offset_bound,
}

-- A request to the service. A creation comes with the clock's reading.
pub data Rpc : Type 0 where
  create : ℤ → Bytes → Bytes → Rpc
  get : Bytes → Rpc
  list : ℤ → ℤ → Rpc
  stats : Rpc

-- `GetStats` does not count itself.
abbrev pub cost : Rpc → ℕ
cost stats = 0
cost r = 1

pub cost_bound : (r : Rpc) → cost r ≤ 1
cost_bound (create now name email) = omega arith
cost_bound (get id) = omega arith
cost_bound (list limit offset) = omega arith
cost_bound stats = omega arith

abbrev pub cost_of_all : List Rpc → ℕ
cost_of_all [] = 0
cost_of_all (r ∷ rs) = cost r + cost_of_all rs

module _ (E : Outside) where
  -- What a handler leaves.
  abbrev pub handle : Rpc → World E → World E
  handle (create now name email) w = (create_user E now (record { name = name; email = email }) w).1
  handle (get id) w = (get_user E (record { id = id }) w).1
  handle (list limit offset) w = (list_users E (record { limit = limit; offset = offset }) w).1
  handle stats w = (get_stats E w).1

  abbrev pub handle_all : List Rpc → World E → World E
  handle_all [] w = w
  handle_all (r ∷ rs) w = handle_all rs (handle r w)

module _ (E : Outside) (J : IsJson E.json) (R : IsRedis E.redis) (S : IsMysql E.mysql) where
  -- A request whose texts and numbers the program takes.
  abbrev pub IsRpc : Rpc → Type 0
  IsRpc (create now name email) =
      NoNul name × NoNul email × J.IsText name × J.IsText email × IsInt64 now
  IsRpc (get id) = NoNul id
  IsRpc (list limit offset) = IsInt64 limit × IsInt64 offset
  IsRpc stats = Unit

  -- The state is coherent, the counter holds `n`, and no entry of the index stands for it.
  pub record Counted (t : Table) (n : ℕ) (w : World E) : Type 0 where
    pub coherent : Coherent E J R S w t
    pub count : IsCount (coherent.view request_count_key) n
    pub clean : IsClean coherent.view

  -- The request is counted.
  pub counts :
      (w : World E) (t : Table) (n : ℕ)
      → Counted t n w
      → n < max_int64
      → (w' : World E) × (count_request E w ≡ (returned tt, w')) × Counted t (n + 1) w'
  counts w t n c small =
      let (w', run, c', shown) = count_step E J R S w t n c.coherent c.count small in
      (
        w',
        run,
        record {
          coherent = c';
          count = inr (ap (λ v. v request_count_key) shown);
          clean = subst IsClean (sym shown) (
              update-IsClean c.coherent.view request_count_key (some (text (nat_to_string (n + 1))))
                refl c.clean);
        },
      )

  -- A call of the repository leaves the counter alone.
  pub kept :
      {w w' : World E} {t t' : Table} {n : ℕ} {k k' : Task}
      → (c : Counted t n w) → (c' : Coherent E J R S w' t')
      → Solo E S.matches R.add_member k' c'.view t' k c.coherent.view t
      → DeletesOthers k
      → Counted t' n w'
  kept {n = n} c c' path h =
      let (rest, clean, same) =
        Solo-Leaves E S.matches R.add_member R.contains-add_member path h c.clean in
      record { coherent = c'; count = subst (λ e. IsCount e n) (sym same) c.count; clean = clean }
