-- ===== src/Service/Answers.antt =====
-- What the service answers on a coherent state.
use httpserver_demo.Prelude.{
  ℕ, suc, zero, ◌+◌, ◌<◌, ◌≤◌, List, [], ◌∷◌, Option, none, some, arith, Bytes, codes, pos, negsuc,
  ℤ, NoNul, IsInt64, All, max_int64, ◌≡◌, ◌≢◌, ◌∙◌, refl, sym, ap, subst, ◌⊎◌, inl, inr, length,
  ◌++◌,
}
use httpserver_demo.Decimal.{nat_to_string}
use httpserver_demo.Effects.{returned, ret, continue, ◌>>=◌, ◌>>◌}
use httpserver_demo.Json.{IsJson, User}
use httpserver_demo.Redis.Server.{text, update, IsRedis, IsCount}
use httpserver_demo.Mysql.Server.{Table, IsMysql, RowRefused}
use httpserver_demo.World.{Outside, World, Call}
use httpserver_demo.Repository.{request_count_key, count_request, new_user}
use httpserver_demo.Repository
use httpserver_demo.Repository.Fits.{page_of, Fits-requests}
use httpserver_demo.Repository.Coherence.{Coherent}
use httpserver_demo.Repository.Reads.{get_user-Coherent}
use httpserver_demo.Repository.Reads.Path.{user_at}
use httpserver_demo.Repository.Pages.{list_users-Coherent}
use httpserver_demo.Repository.Creation.{create_user-Coherent}
use httpserver_demo.Repository.Steps.{incr_step}
use httpserver_demo.Service.{
  invalid_argument, not_found, internal, created, create_user, Status, failure, status_ok,
  UserReply, ListUsersReply, get_user, list_users, found, listed, limit_of, offset_of,
}

-- The answer to a request for an id, by the user that the table has under it.
abbrev pub user_answer : Bytes → Option User → Status × UserReply
user_answer [] u = (failure invalid_argument (codes "id is required"), none)
user_answer id none = (failure not_found (codes "user not found"), none)
user_answer id (some u) = (status_ok, some u)

-- A page has 10 users if no positive number is asked for.
abbrev pub page_limit : ℤ → ℕ
page_limit (pos (suc n)) = suc n
page_limit n = 10

abbrev pub page_offset : ℤ → ℕ
page_offset (pos n) = n
page_offset (negsuc n) = 0

abbrev pub page_answer : List User × ℤ → Status × ListUsersReply
page_answer (users, total) = (status_ok, record { users = users; total = total })

pub page_limit_lem : (l o : ℤ) → limit_of (record { limit = l; offset = o }) ≡ pos (page_limit l)
page_limit_lem (pos zero) o = refl
page_limit_lem (pos (suc n)) o = ground arith
page_limit_lem (negsuc n) o = refl

pub page_offset_lem : (l o : ℤ) → offset_of (record { limit = l; offset = o }) ≡ pos (page_offset o)
page_offset_lem l (pos zero) = refl
page_offset_lem l (pos (suc n)) = ground arith
page_offset_lem l (negsuc n) = refl

pub page_limit_bound : (l : ℤ) → IsInt64 l → page_limit l ≤ max_int64
page_limit_bound (pos zero) h = omega arith
page_limit_bound (pos (suc n)) h = h
page_limit_bound (negsuc n) h = omega arith

pub page_offset_bound : (o : ℤ) → IsInt64 o → page_offset o ≤ max_int64
page_offset_bound (pos n) h = h
page_offset_bound (negsuc n) h = omega arith

module _ (E : Outside) (J : IsJson E.json) (R : IsRedis E.redis) (S : IsMysql E.mysql) where
  -- The request is counted, and nothing else changes.
  pub count_step :
      (w : World E) (t : Table) (n : ℕ) (c : Coherent E J R S w t)
      → IsCount (c.view request_count_key) n
      → n < max_int64
      → (w' : World E) × (count_request E w ≡ (returned tt, w'))
        × (c' : Coherent E J R S w' t) × (c'.view
            ≡ update c.view request_count_key (some (text (nat_to_string (n + 1)))))
  unfolding count_request
  count_step w t n c counted small =
      let (w', run, at_w') =
        incr_step R S c.count w c.state request_count_key n (omega arith) counted small in
      let same_idle : w.pool.idle ≡ w'.pool.idle = ap (λ out. out.1.pool.idle) run in
      (
        w',
        ap (λ out. (returned tt, out.1)) run,
        record {
          view = _;
          count = c.count;
          state = at_w';
          fits = Fits-requests E S.matches c.view t _ c.fits;
          plain = c.plain;
          small = c.small;
          idle = subst (All (λ i. i < c.count)) same_idle c.idle;
          some_idle = λ e. c.some_idle (same_idle ∙ e);
        },
        refl,
      )

  counted_db : (w w' : World E) → count_request E w ≡ (returned tt, w') → w.db ≡ w'.db
  unfolding count_request
  counted_db w w' run = ap (λ out. out.1.db) run

  module _ {A B : Type 0} (P : World E → Type 0) where
    -- A handler that counts the request, makes one call and answers by its result.
    pub answer_step :
        (m : Call E A) (f : A → B) (w w' : World E) (a : A)
        → count_request E w ≡ (returned tt, w')
        → (m w').0 ≡ returned a
        → P (m w').1
        → let out = (count_request E >> (m >>= λ x. ret (f x))) w in
          (out.0 ≡ returned (f a)) × P out.1
    answer_step m f w w' a counted done holds =
        let ends : (count_request E >> (m >>= λ x. ret (f x))) w ≡ (returned (f a), (m w').1) =
          ap (continue (λ _. m >>= λ x. ret (f x))) counted
          ∙ ap (λ o. continue (λ x. ret (f x)) (o, (m w').1)) done in
        (ap (λ out. out.0) ends, subst P (sym (ap (λ out. out.1) ends)) holds)

  -- On a coherent state whose request counter is a number that can still grow, the handler of
  -- `GetUser` answers INVALID_ARGUMENT to the empty id, NOT_FOUND where the table has no user under
  -- the id, and else OK with that user; the state stays coherent with the same table.
  pub get_user-answers :
      (w : World E) (t : Table) (n : ℕ) (id : Bytes) (c : Coherent E J R S w t)
      → IsCount (c.view request_count_key) n
      → n < max_int64
      → NoNul id
      → let out = get_user E (record { id = id }) w in
        (out.0 ≡ returned (user_answer id (user_at S t id))) × Coherent E J R S out.1 t
  unfolding get_user
  get_user-answers w t n [] c counted small plain =
      let (w', run, agrees, shown) = count_step w t n c counted small in
      (
        ap (λ out. (continue (λ _. ret (user_answer [] none)) out).0) run,
        subst (λ s. Coherent E J R S s t)
            (sym (ap (λ out. (continue (λ _. ret (user_answer [] none)) out).1) run)) agrees,
      )
  get_user-answers w t n (x ∷ s) c counted small plain =
      let (w', run, agrees, shown) = count_step w t n c counted small in
      let (done, after) = get_user-Coherent E J R S w' t (x ∷ s) agrees plain in
      let (out, left) =
        answer_step (λ s. Coherent E J R S s t) (Repository.get_user E (x ∷ s)) found w w' _ run
          done after in
      (out ∙ ap returned (found_lem (user_at S t (x ∷ s))), left)
    where
      found_lem : (u : Option User) → found u ≡ user_answer (x ∷ s) u
      found_lem none = refl
      found_lem (some u) = refl

  -- Likewise the handler of `ListUsers` answers OK with the page of the table that starts at the
  -- offset and has as many users as the limit allows, and the number of all users; a limit that is
  -- not positive stands for 10, an offset that is negative for 0.
  pub list_users-answers :
      (w : World E) (t : Table) (n : ℕ) (limit offset : ℤ) (c : Coherent E J R S w t)
      → IsCount (c.view request_count_key) n
      → n < max_int64
      → IsInt64 limit
      → IsInt64 offset
      → let out = list_users E (record { limit = limit; offset = offset }) w in
        (out.0 ≡ returned (page_answer (page_of t (page_limit limit) (page_offset offset))))
        × Coherent E J R S out.1 t
  unfolding list_users
  list_users-answers w t n limit offset c counted small lh oh =
      let (w', run, agrees, shown) = count_step w t n c counted small in
      let (done, after) =
        list_users-Coherent E J R S w' t (page_limit limit) (page_offset offset) agrees
          (page_limit_bound limit lh) (page_offset_bound offset oh) in
      rw (page_limit_lem limit offset, page_offset_lem limit offset)
        (answer_step (λ s. Coherent E J R S s t)
          (Repository.list_users E (pos (page_limit limit)) (pos (page_offset offset))) listed w w'
          _ run done after)

  -- Likewise the handler of `CreateUser` answers INVALID_ARGUMENT to the empty name and leaves the
  -- server of the table alone. For any other name it answers INTERNAL, in which case MySQL was sent
  -- the insertion of this name, email and time and refused it, and the state stays coherent with
  -- the same table; or it answers OK with the new user, whose id is larger than all ids before, and
  -- the state is coherent with the table that has the user's row at its end. Name and email are
  -- well-formed texts without NUL, and the table has room for a row.
  pub create_user-answers :
      (w : World E) (t : Table) (n : ℕ) (now : ℤ) (name email : Bytes) (c : Coherent E J R S w t)
      → IsCount (c.view request_count_key) n
      → n < max_int64
      → NoNul name
      → NoNul email
      → J.IsText name
      → J.IsText email
      → IsInt64 now
      → length t < max_int64
      → let out = create_user E now (record { name = name; email = email }) w in
        ((name ≡ [])
          × (out.0 ≡ returned (failure invalid_argument (codes "name is required"), none))
          × (out.1.db ≡ w.db)
          × Coherent E J R S out.1 t)
        ⊎ ((name ≢ [])
            × (((out.0 ≡ returned (failure internal (codes "create user failed"), none))
                  × RowRefused S w.db out.1.db name email now
                  × Coherent E J R S out.1 t)
                ⊎ ((id : ℕ) × All (λ a. a.id < id) t
                    × (out.0 ≡ returned (status_ok, some (new_user id name email now)))
                    × Coherent E J R S out.1 (
                        t
                        ++ record { id = id; name = name; email = email; created_at = now } ∷ []))))
  unfolding create_user
  create_user-answers w t n now [] email c counted small np ep nt et in_range room =
      let (w', run, agrees, shown) = count_step w t n c counted small in
      let refused : Status × UserReply =
        (failure invalid_argument (codes "name is required"), none) in
      let ends : continue (λ _. ret refused) (count_request E w) ≡ (returned refused, w') =
        ap (continue (λ _. ret refused)) run in
      inl (
        refl,
        ap (λ out. out.0) ends,
        ap (λ out. out.1.db) ends ∙ sym (counted_db w w' run),
        subst (λ s. Coherent E J R S s t) (sym (ap (λ out. out.1) ends)) agrees,
      )
  create_user-answers w t n now (x ∷ s) email c counted small np ep nt et in_range room =
      let (w', run, agrees, shown) = count_step w t n c counted small in
      let call : Call E (Option User) = Repository.create_user E now (x ∷ s) email in
      let same = counted_db w w' run in
      elim (create_user-Coherent E J R S w' t now (x ∷ s) email agrees np ep nt et in_range room) [
        | inl (done, row, after) ↦
            let refused =
              subst (λ d. RowRefused S d (call w').1.db (x ∷ s) email now) (sym same) row in
            let (out, left) =
              answer_step (λ u. RowRefused S w.db u.db (x ∷ s) email now × Coherent E J R S u t)
                call created w w' none run done (refused, after) in
            inr ((λ e. cc), inl (out, left.0, left.1))
        | inr (id, fresh, done, after) ↦
            let (out, left) =
              answer_step
                (λ u.
                  Coherent E J R S u
                    (t ++ record { id = id; name = x ∷ s; email = email; created_at = now } ∷ []))
                call created w w' _ run done after in
            inr ((λ e. cc), inr (id, fresh, out, left))
      ]
