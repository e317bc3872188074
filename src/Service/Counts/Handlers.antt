-- ===== src/Service/Counts/Handlers.antt =====
-- Each handler of src/grpc_server/user_service.cpp counts itself, and no other call touches the
-- counter.
use httpserver_demo.Prelude.{
  ℕ, ◌+◌, ◌≤◌, ◌<◌, [], ◌∷◌, ◌++◌, Option, none, arith, Bytes, codes, pos, ℤ, NoNul, IsInt64,
  max_int64, length, append-nil, ◌≡◌, refl, sym, ap, subst, inl, inr,
}
use httpserver_demo.Effects.{returned, ret, continue, ◌>>=◌, ◌>>◌, then_ends}
use httpserver_demo.Json.{IsJson, User}
use httpserver_demo.Redis.Server.{IsRedis}
use httpserver_demo.Mysql.Server.{Table, IsMysql}
use httpserver_demo.World.{Outside, World, Call}
use httpserver_demo.Repository
use httpserver_demo.Repository.{request_count_key, count_request, count_or_zero, number_of_text}
use httpserver_demo.Repository.Reads.{get_user-Solo}
use httpserver_demo.Repository.Pages.{list_users-Solo}
use httpserver_demo.Repository.Creation.{create_user-Solo}
use httpserver_demo.Repository.Stats.{get_stats-Solo}
use httpserver_demo.Service.{
  create_user, get_user, list_users, get_stats, created, found, listed, counted, Status, failure,
  invalid_argument, offset_of, UserReply,
}
use httpserver_demo.Service.Answers.{
  answer_step, page_limit, page_offset, page_limit_lem, page_offset_lem, page_limit_bound,
  page_offset_bound,
}
use httpserver_demo.Service.Counts.{
  Rpc, create, get, list, stats, cost, handle, IsRpc, Counted, counts, kept,
}

module _ (E : Outside) (J : IsJson E.json) (R : IsRedis E.redis) (S : IsMysql E.mysql) where
  -- A handler adds at most one row, and counts itself.
  abbrev pub Handled : Rpc → World E → Table → ℕ → Type 0
  Handled r w t n =
      (more : Table) × Counted E J R S (t ++ more) (n + cost r) (handle E r w) × (length more ≤ 1)

  same_rows :
      (r : Rpc) (w : World E) (t : Table) (n m : ℕ)
      → m ≡ n + cost r
      → Counted E J R S t m (handle E r w)
      → Handled r w t n
  same_rows r w t n m e c = (
    [],
    subst (λ l. Counted E J R S l (n + cost r) (handle E r w)) (sym (append-nil t))
        (subst (λ m. Counted E J R S t m (handle E r w)) e c),
    omega arith,
  )

  -- A request that is refused at once is counted.
  at_once :
      (answer : Status × UserReply) (w w' : World E) (t : Table) (n : ℕ)
      → count_request E w ≡ (returned tt, w')
      → Counted E J R S t n w'
      → Counted E J R S t n ((count_request E >> ret answer) w).1
  at_once answer w w' t n run c =
      subst (Counted E J R S t n) (sym (ap (λ out. (continue (λ _. ret answer) out).1) run)) c

  handle_get :
      (id : Bytes) (w : World E) (t : Table) (n : ℕ)
      → Counted E J R S t n w
      → n < max_int64
      → NoNul id
      → Counted E J R S t (n + 1) (handle E (get id) w)
  unfolding get_user
  handle_get [] w t n c small plain =
      let (w', run, c') = counts E J R S w t n c small in
      at_once (failure invalid_argument (codes "id is required"), none) w w' t (n + 1) run c'
  handle_get (x ∷ s) w t n c small plain =
      let (w', run, c') = counts E J R S w t n c small in
      let (done, after, path) = get_user-Solo E J R S w' t (x ∷ s) c'.coherent plain in
      let (out, left) =
        answer_step E J R S (Counted E J R S t (n + 1)) (Repository.get_user E (x ∷ s)) found w w' _
          run done (kept E J R S c' after path tt) in
      left

  handle_list :
      (limit offset : ℤ) (w : World E) (t : Table) (n : ℕ)
      → Counted E J R S t n w
      → n < max_int64
      → IsInt64 limit
      → IsInt64 offset
      → Counted E J R S t (n + 1) (handle E (list limit offset) w)
  unfolding list_users
  handle_list limit offset w t n c small lh oh =
      let (w', run, c') = counts E J R S w t n c small in
      let l : ℕ = page_limit limit in
      let o : ℕ = page_offset offset in
      let (done, after, path) =
        list_users-Solo E J R S w' t l o c'.coherent (page_limit_bound limit lh)
          (page_offset_bound offset oh) in
      let (out, left) =
        answer_step E J R S (Counted E J R S t (n + 1)) (Repository.list_users E (pos l) (pos o))
          listed w w' _ run done (kept E J R S c' after path tt) in
      let call : ℤ → ℤ → World E = λ x y.
        ((count_request E >> (Repository.list_users E x y >>= λ page. ret (listed page))) w).1 in
      subst
        (λ x.
          Counted E J R S t (n + 1)
            (call x (offset_of (record { limit = limit; offset = offset }))))
        (sym (page_limit_lem limit offset))
        (subst (λ y. Counted E J R S t (n + 1) (call (pos l) y))
          (sym (page_offset_lem limit offset)) left)

  handle_create :
      (now : ℤ) (name email : Bytes) (w : World E) (t : Table) (n : ℕ)
      → Counted E J R S t n w
      → n < max_int64
      → IsRpc E J R S (create now name email)
      → length t < max_int64
      → Handled (create now name email) w t n
  unfolding create_user
  handle_create now [] email w t n c small h room =
      let (w', run, c') = counts E J R S w t n c small in
      same_rows (create now [] email) w t n (n + 1) refl
        (at_once (failure invalid_argument (codes "name is required"), none) w w' t (n + 1) run c')
  handle_create now (x ∷ s) email w t n c small (np, ep, nt, et, in_range) room =
      let (w', run, c') = counts E J R S w t n c small in
      let call : Call E (Option User) = Repository.create_user E now (x ∷ s) email in
      elim (create_user-Solo E J R S w' t now (x ∷ s) email c'.coherent np ep nt et in_range room) [
        | inl (done, row, after, path) ↦
            let (out, left) =
              answer_step E J R S (Counted E J R S t (n + 1)) call created w w' none run done
                (kept E J R S c' after path tt) in
            same_rows (create now (x ∷ s) email) w t n (n + 1) refl left
        | inr (id, fresh, done, after, path) ↦
            let row : Table =
              record { id = id; name = x ∷ s; email = email; created_at = now } ∷ [] in
            let (out, left) =
              answer_step E J R S (Counted E J R S (t ++ row) (n + 1)) call created w w' _ run done
                (kept E J R S c' after path tt) in
            (row, left, omega arith)
      ]

  pub handle_stats :
      (w : World E) (t : Table) (n : ℕ)
      → Counted E J R S t n w
      → Counted E J R S t n (handle E stats w)
  unfolding get_stats
  handle_stats w t n c =
      let (done, after, path) = get_stats-Solo E J R S w t c.coherent in
      let ends = then_ends (Repository.get_stats E) (λ x. ret (counted x)) w _ done in
      subst (Counted E J R S t n) (sym (ap (λ out. out.1) ends)) (kept E J R S c after path tt)

  pub handle-Handled :
      (r : Rpc) (w : World E) (t : Table) (n : ℕ)
      → Counted E J R S t n w
      → n < max_int64
      → length t < max_int64
      → IsRpc E J R S r
      → Handled r w t n
  handle-Handled (create now name email) w t n c small room h =
      handle_create now name email w t n c small h room
  handle-Handled (get id) w t n c small room h =
      same_rows (get id) w t n (n + 1) refl (handle_get id w t n c small h)
  handle-Handled (list limit offset) w t n c small room h =
      same_rows (list limit offset) w t n (n + 1) refl
        (handle_list limit offset w t n c small h.0 h.1)
  handle-Handled stats w t n c small room h =
      same_rows stats w t n n (omega arith) (handle_stats w t n c)
