-- ===== src/Accepter/Closing/Counts.antt =====
-- The number of connections counts those that are in the map and those that are being closed.
use mathlib.Core.Path.{subst}
use qg_server.Common.{
  ℕ, ◌+◌, ◌≤◌, ◌≡◌, ◌≢◌, refl, sym, ap, ◌∙◌, true, false, List, [], ◌∷◌, ◌++◌, done, length,
  length-append, arith, Outcome, fault, exhausted, ◌>>=◌,
}
use qg_server.Common.Maps.{erase}
use qg_server.Accepter.{LoopPool, get_next_loop, Server, handle_new_con}
use qg_server.Accepter.Closing.{
  Connection, Running, has_fd, handle_connection_close, Step, accepts, announces, base_runs,
  io_runs, Reached, here, next,
}

-- Every connection that waits in the base loop is in the map, and waits there once.
abbrev pub AllOpen : List Connection → List Connection → Type 0
AllOpen [] connections = Unit {0}
AllOpen (c ∷ cs) connections =
    (has_fd c.0 connections ≡ true) × (has_fd c.0 cs ≡ false) × AllOpen cs connections

pub record IsCounted (r : Running) : Type 0 where
  pub counts : r.server.connection_number ≡ length r.server.connections + length r.io_queue
  pub bound : r.server.connection_number ≤ r.server.connection_high_water + 1
  pub waiting : AllOpen r.base_queue r.server.connections

pub length-erase :
    (fd : ℕ) (cs : List Connection) → has_fd fd cs ≡ true → length (erase fd cs) + 1 ≡ length cs
length-erase fd [] h = cc
length-erase fd (c ∷ cs) h = ground (arith, length-erase fd cs)

has_fd-erase :
    (fd g : ℕ) (cs : List Connection) → g ≢ fd → has_fd g cs ≡ true → has_fd g (erase fd cs) ≡ true
has_fd-erase fd g [] apart h = h
has_fd-erase fd g (c ∷ cs) apart h = ground (arith, has_fd-erase fd g cs)

has_fd-apart : (c d : Connection) (cs : List Connection) → has_fd c.0 (d ∷ cs) ≡ false → d.0 ≢ c.0
has_fd-apart c d cs h = ground (arith, h)

AllOpen-erase :
    (c : Connection) (cs connections : List Connection)
    → has_fd c.0 cs ≡ false
    → AllOpen cs connections
    → AllOpen cs (erase c.0 connections)
AllOpen-erase c [] connections h all = tt
AllOpen-erase c (d ∷ cs) connections h (mapped, once, all) = (
  has_fd-erase c.0 d.0 connections (has_fd-apart c d cs h) mapped,
  once,
  AllOpen-erase c cs connections (ground (arith, h)) all,
)

AllOpen-more :
    (e : Connection) (cs connections : List Connection)
    → AllOpen cs connections
    → AllOpen cs (e ∷ connections)
AllOpen-more e [] connections all = tt
AllOpen-more e (d ∷ cs) connections (mapped, once, all) =
    (ground (arith, mapped), once, AllOpen-more e cs connections all)

has_fd-end :
    (fd : ℕ) (cs : List Connection) (c : Connection)
    → has_fd fd cs ≡ false
    → c.0 ≢ fd
    → has_fd fd (cs ++ c ∷ []) ≡ false
has_fd-end fd [] c h apart = ground arith
has_fd-end fd (d ∷ cs) c h apart = ground (arith, has_fd-end fd cs c)

AllOpen-end :
    (cs connections : List Connection) (c : Connection)
    → has_fd c.0 connections ≡ true
    → has_fd c.0 cs ≡ false
    → AllOpen cs connections
    → AllOpen (cs ++ c ∷ []) connections
AllOpen-end [] connections c mapped new all = (mapped, refl, tt)
AllOpen-end (d ∷ cs) connections c mapped new (mapped_d, once, all) = (
  mapped_d,
  has_fd-end d.0 cs c once (λ e. has_fd-apart c d cs new (sym e)),
  AllOpen-end cs connections c mapped (ground (arith, new)) all,
)

-- A connection that is taken is counted, and stands in the map.
handle_new_con_lem :
    (fd : ℕ) (s t : Server)
    → handle_new_con fd s ≡ done t
    → (io_loop : ℕ) × (t.connection_number ≡ s.connection_number + 1)
      × (t.connections ≡ (fd, io_loop) ∷ s.connections)
      × (t.connection_high_water ≡ s.connection_high_water)
unfolding handle_new_con
handle_new_con_lem fd s t e = given (get_next_loop s.pool) e
  where
    given :
        (o : Outcome (LoopPool × ℕ))
        → (o >>= λ (pool, io_loop). done (record s {
          pool = pool;
          connection_number = s.connection_number + 1;
          connections = (fd, io_loop) ∷ s.connections;
        }))
          ≡ done t
        → (io_loop : ℕ) × (t.connection_number ≡ s.connection_number + 1)
          × (t.connections ≡ (fd, io_loop) ∷ s.connections)
          × (t.connection_high_water ≡ s.connection_high_water)
    given (done (pool, io_loop)) f =
        let same : record s {
          pool = pool;
          connection_number = s.connection_number + 1;
          connections = (fd, io_loop) ∷ s.connections;
        }
            ≡ t =
          cc in
        rw (sym same) (io_loop, refl, refl, refl)
    given fault f = cc
    given exhausted f = cc

pub base_runs-IsCounted :
    (c : Connection) (rest : List Connection) (r : Running)
    → r.base_queue ≡ c ∷ rest
    → IsCounted r
    → IsCounted (handle_connection_close c (record r { base_queue = rest }))
base_runs-IsCounted c rest r e v =
    let (mapped, once, all) =
      subst (λ (cs : List Connection). AllOpen cs r.server.connections) e v.waiting in
    let fewer = length-erase c.0 r.server.connections mapped in
    let counts = v.counts in
    record {
      counts = omega (arith, fewer, counts, length-append {0} r.io_queue (c ∷ []));
      bound = v.bound;
      waiting = AllOpen-erase c rest r.server.connections once all;
    }

step-IsCounted : {r s : Running} → Step r s → IsCounted r → IsCounted s
step-IsCounted (accepts fd r s new gone room e) v =
    let (io_loop, counted, mapped, limit) = handle_new_con_lem fd r.server s e in
    let counts = v.counts in
    let below : r.server.connection_number ≤ r.server.connection_high_water =
      ground (arith, room) in
    rw (mapped, counted, limit)
      (record {
        counts = omega (arith, counts);
        bound = omega (arith, below);
        waiting = AllOpen-more (fd, io_loop) r.base_queue r.server.connections v.waiting;
      })
step-IsCounted (announces c r mapped new) v = record {
  counts = v.counts;
  bound = v.bound;
  waiting = AllOpen-end r.base_queue r.server.connections c mapped new v.waiting;
}
step-IsCounted (base_runs c rest r e) v = base_runs-IsCounted c rest r e v
step-IsCounted (io_runs before c after r e) v =
    let counts = v.counts in
    let bound = v.bound in
    let all = ap length e ∙ length-append {0} before (c ∷ after) in
    record {
      counts = omega (arith, counts, all, length-append {0} before after);
      bound = omega (arith, bound);
      waiting = v.waiting;
    }

-- Where each change of the count is one step: however the accepter, the base loop and the loops of
-- the connections take turns, the number of connections is that of the connections in the map and
-- of those that are being closed, it exceeds the high-water mark by at most one, and every
-- connection that waits to be closed is still in the map, and waits once.
pub Reached-IsCounted : {start r : Running} → IsCounted start → Reached start r → IsCounted r
Reached-IsCounted v here = v
Reached-IsCounted v (next path s) = step-IsCounted s (Reached-IsCounted v path)
