-- ===== src/Accepter/Counting.antt =====
-- The number of connections, and the loops that they are given to.
use qg_server.Common.{
  ℕ, zero, suc, ◌+◌, ◌≤◌, ◌<◌, ◌≡◌, refl, false, List, [], ◌∷◌, ◌++◌, map, Option, none, some, Ends,
  ends, Ends-then, Ends-branch, ltb, ◌==◌, arith, get_elem?, length,
}
use qg_server.Accepter.{LoopPool, get_next_loop, Server, handle_new_con, handle_read}

-- A pool that was started with at least one thread: the position is that of a loop.
pub record IsStarted (p : LoopPool) : Type 0 where
  pub size : p.thread_size ≡ length p.loops
  pub inside : p.cur_pos < p.thread_size

pub inside_some : (xs : List ℕ) (i : ℕ) → i < length xs → (x : ℕ) × (get_elem? xs i ≡ some x)
inside_some [] i h = absurd (omega (arith, h))
inside_some (x ∷ xs) zero h = (x, refl)
inside_some (x ∷ xs) (suc i) h = inside_some xs i (omega (arith, h))

pub get_next_loop-IsStarted :
    (p : LoopPool) → IsStarted p → Ends (λ r. IsStarted r.0) (get_next_loop p)
unfolding get_next_loop
get_next_loop-IsStarted p v =
    let inside = v.inside in
    let size = v.size in
    let (loop, e) = inside_some p.loops p.cur_pos (omega (arith, inside, size)) in
    let some_loops : (p.thread_size == 0) ≡ false = ground (arith, inside) in
    Ends-branch (p.thread_size == 0) (λ f. cc)
      (λ f. rw e (ends (record { size = v.size; inside = ground (arith, inside) })))

-- The number of connections counts them, and exceeds the high-water mark by at most one.
pub record IsCounted (s : Server) : Type 0 where
  pub counts : s.connection_number ≡ length s.connections
  pub bound : s.connection_number ≤ s.connection_high_water + 1
  pub started : IsStarted s.pool

pub handle_new_con-IsCounted :
    (fd : ℕ) (s : Server)
    → IsCounted s
    → s.connection_number ≤ s.connection_high_water
    → Ends IsCounted (handle_new_con fd s)
unfolding handle_new_con
handle_new_con-IsCounted fd s v room =
    let counts = v.counts in
    Ends-then (get_next_loop-IsStarted s.pool v.started) λ (pool, loop) started.
      ends
        (record { counts = omega (arith, counts); bound = omega (arith, room); started = started })

-- From a server whose connections are counted, at most one above the high-water mark, and whose
-- pool was started: however many connections come, the call ends once accept fails, their number
-- still counts them, and it exceeds the high-water mark by at most one.
pub handle_read-IsCounted :
    (fds : List ℕ) (rest : List (Option ℕ)) (s : Server)
    → IsCounted s
    → Ends (λ r. IsCounted r.0) (handle_read (map some fds ++ none ∷ rest) s)
unfolding handle_read
handle_read-IsCounted [] rest s v = ends v
handle_read-IsCounted (zero ∷ fds) rest s v = ends v
handle_read-IsCounted (suc n ∷ fds) rest s v =
    Ends-branch (ltb s.connection_high_water s.connection_number) (λ e. ends v)
      (λ e.
        Ends-then (handle_new_con-IsCounted (suc n) s v (ground (arith, e)))
          λ taken u. handle_read-IsCounted fds rest taken u)
