-- ===== src/Accepter.antt =====
-- src/core/accepter.h and accepter.cpp with the part of src/core/server.cpp that they call, and
-- src/core/loop_thread_pool.h and loop_thread_pool.cpp: new connections, their number, and the
-- loops that they are given to. A connection is its descriptor; a loop is a number. What accept
-- returns is an argument: `none` is -1. A descriptor 0 ends the loop as -1 does.
pub mod Counting
pub mod Closing
pub mod Pool
pub mod Opening
pub mod Serving
pub mod Arriving
mod Tests
use qg_server.Common.{
  ℕ, zero, suc, ◌+◌, ◌-◌, Bool, true, false, List, [], ◌∷◌, ◌++◌, Option, none, some, Outcome, done,
  exhausted, ◌>>=◌, or_fault, leb, ltb, ◌==◌, if◌then◌else◌, get_elem?,
}

pub record LoopPool : Type 0 where
  pub base_loop : ℕ
  pub thread_size : ℕ
  pub cur_pos : ℕ
  pub loops : List ℕ

-- LoopThreadPool::getNextLoop
unfoldable pub get_next_loop : LoopPool → Outcome (LoopPool × ℕ)
get_next_loop p = if p.thread_size == 0 then done (p, p.base_loop) else do
  loop ← or_fault (get_elem? p.loops p.cur_pos)
  let moved = p.cur_pos + 1
  done (record p { cur_pos = if leb p.thread_size moved then 0 else moved }, loop)

-- The accepter, the connections of the server, newest first, with the loop of each, and the pool.
-- A descriptor that accept returns is not in use, so none is replaced.
pub record Server : Type 0 where
  pub connection_high_water : ℕ
  pub connection_number : ℕ
  pub connections : List (ℕ × ℕ)
  pub pool : LoopPool

abbrev pub default_connection_high_water : ℕ
default_connection_high_water = 2000

-- The initialiser of connection_high_water_.
abbrev pub high_water : ℕ → ℕ
high_water max_connections =
    if ltb (max_connections - 10) default_connection_high_water
    then default_connection_high_water
    else max_connections - 10

-- Server::handleNewCon: the constructor of the connection calls incConnection.
unfoldable pub handle_new_con : ℕ → Server → Outcome Server
unfolding get_next_loop
handle_new_con fd s = do
  (pool, io_loop) ← get_next_loop s.pool
  done (record s {
    pool = pool;
    connection_number = s.connection_number + 1;
    connections = (fd, io_loop) ∷ s.connections;
  })

-- Accepter::handleRead, with the descriptors that are closed at once.
unfoldable pub handle_read : List (Option ℕ) → Server → Outcome (Server × List ℕ)
unfolding handle_new_con
handle_read [] s = exhausted
handle_read (none ∷ rest) s = done (s, [])
handle_read (some zero ∷ rest) s = done (s, [])
handle_read (some (suc n) ∷ rest) s =
    let more : Outcome (Server × List ℕ) = do
      taken ← handle_new_con (suc n) s
      handle_read rest taken
    in if ltb s.connection_high_water s.connection_number then done (s, suc n ∷ []) else more
