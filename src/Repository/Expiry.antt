-- ===== src/Repository/Expiry.antt =====
-- Calls of the repository with keys that expire between them: a time to live ends at any time.
use httpserver_demo.Prelude.{
  ℕ, suc, ◌+◌, ◌≤◌, false, [], ◌++◌, none, arith, Bytes, beq, length, length-append, max_int64,
  append_assoc, append-nil, ◌≡◌, ◌∙◌, sym, ap, subst,
}
use httpserver_demo.Json.{IsJson}
use httpserver_demo.Redis.Server.{IsRedis, update}
use httpserver_demo.Mysql.Server.{Table, IsMysql}
use httpserver_demo.World.{Outside, World}
use httpserver_demo.Repository.{list_cache_index}
use httpserver_demo.Repository.Fits.{Fits-expire}
use httpserver_demo.Repository.Coherence.{Coherent}
use httpserver_demo.Repository.History.{Operation, after, IsFine, Grown, after-Grown}

-- The state where the Redis server has changed by itself.
abbrev pub with_server : {E : Outside} → World E → E.redis.Server → World E
with_server w server = record w { cache = record w.cache { server = server } }

module _ (E : Outside) (J : IsJson E.json) (R : IsRedis E.redis) (S : IsMysql E.mysql) where
  -- A coherent state stays coherent when the server drops a key other than the index, which has no
  -- time to live.
  expire-Coherent :
      (w : World E) (t : Table) (k : Bytes) (server : E.redis.Server)
      → Coherent E J R S w t
      → beq k list_cache_index ≡ false
      → R.view server ≡ update (R.view w.cache.server) k none
      → Coherent E J R S (with_server w server) t
  expire-Coherent w t k server c other dropped = record {
    view = update c.view k none;
    count = c.count;
    state = record {
      shows = record {
        context = c.state.shows.context;
        connected = c.state.shows.connected;
        shown = dropped ∙ ap (λ v. update v k none) c.state.shows.shown;
      };
      table = c.state.table;
      connected = c.state.connected;
      size = c.state.size;
    };
    fits = Fits-expire E S.matches c.view t k other c.fits;
    plain = c.plain;
    small = c.small;
    idle = c.idle;
    some_idle = c.some_idle;
  }

  -- The states that come out of a state by so many calls, with expiries between them.
  pub data Past (w : World E) : World E → ℕ → Type 0 where
    now : Past w w 0
    calls :
        {w' : World E} {n : ℕ} (op : Operation)
        → Past w w' n
        → IsFine E J R S op
        → Past w (after E op w') (suc n)
    expires :
        {w' : World E} {n : ℕ} (k : Bytes) (server : E.redis.Server)
        → Past w w' n
        → beq k list_cache_index ≡ false
        → R.view server ≡ update (R.view w'.cache.server) k none
        → Past w (with_server w' server) n

  -- After any number of calls on a coherent state, with any keys but the index expiring at any times
  -- between them, the state is coherent with the table's rows of before and at most one more for
  -- each call, as long as the number of rows is an int64.
  pub Past-Coherent :
      {w w' : World E} {n : ℕ} (t : Table)
      → Coherent E J R S w t
      → length t + n ≤ max_int64
      → Past w w' n
      → (more : Table) × Coherent E J R S w' (t ++ more) × (length more ≤ n)
  unfolding Grown
  Past-Coherent t c room now = ([], subst (Coherent E J R S _) (sym (append-nil t)) c, omega arith)
  Past-Coherent t c room (calls op past fine) =
      let (more, c₁, few) = Past-Coherent t c (omega arith) past in
      let (one, c₂, last) =
        after-Grown E J R S op _ (t ++ more) c₁ fine (omega (arith, length-append t more)) in
      (
        more ++ one,
        subst (Coherent E J R S _) (append_assoc t more one) c₂,
        omega (arith, length-append more one),
      )
  Past-Coherent t c room (expires k server past other dropped) =
      let (more, c₁, few) = Past-Coherent t c room past in
      (more, expire-Coherent _ (t ++ more) k server c₁ other dropped, few)
