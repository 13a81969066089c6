-- ===== src/Accepter/Closing.antt =====
-- src/core/server.cpp and `closeConnection` of src/core/tcp_connection.cpp: the end of a
-- connection, which runs in two loops. The loop of the connection hands `handleConnectionClose` to
-- the base loop, which takes the connection out of the map and hands `closeConnection` back. A
-- connection is its descriptor with its loop. Each function that a loop runs is one step, and so is
-- the count of connections that it changes, an int that both loops write without a lock.
pub mod Counts
pub mod Settled
pub mod Race
mod Tests
use qg_server.Common.{
  ℕ, ◌+◌, ◌-◌, ◌≡◌, Bool, true, false, ◌||◌, List, [], ◌∷◌, ◌++◌, done, ltb, ◌==◌, if◌then◌else◌,
}
use qg_server.Common.Maps.{erase}
use qg_server.Accepter.{Server, handle_new_con}

abbrev pub Connection : Type 0
Connection = ℕ × ℕ

-- The functions that wait in the base loop and in the loops of the connections, oldest first.
pub record Running : Type 0 where
  pub server : Server
  pub base_queue : List Connection
  pub io_queue : List Connection

abbrev pub has_fd : ℕ → List Connection → Bool
has_fd fd [] = false
has_fd fd (c ∷ cs) = c.0 == fd || has_fd fd cs

-- Server::closeAtBaseLoop
abbrev pub close_at_base_loop : Connection → Running → Running
close_at_base_loop c r = record r { base_queue = r.base_queue ++ c ∷ [] }

-- Server::handleConnectionClose
abbrev pub handle_connection_close : Connection → Running → Running
handle_connection_close c r = record r {
  server = record r.server { connections = erase c.0 r.server.connections };
  io_queue = r.io_queue ++ c ∷ [];
}

-- Accepter::decConnection, which TcpConnection::closeConnection calls first. The count is at least
-- 1 there.
abbrev pub dec_connection : Running → Running
dec_connection r = record r {
  server = record r.server { connection_number = r.server.connection_number - 1 };
}

-- A descriptor is in use until the connection is gone. `accepts` is a turn of the loop of
-- Accepter::handleRead; `announces` is a connection that closes, which it does once.
pub data Step : Running → Running → Type 0 where
  accepts :
      (fd : ℕ) (r : Running) (s : Server)
      → has_fd fd r.server.connections ≡ false
      → has_fd fd r.io_queue ≡ false
      → ltb r.server.connection_high_water r.server.connection_number ≡ false
      → handle_new_con fd r.server ≡ done s
      → Step r (record r { server = s })
  announces :
      (c : Connection) (r : Running)
      → has_fd c.0 r.server.connections ≡ true
      → has_fd c.0 r.base_queue ≡ false
      → Step r (close_at_base_loop c r)
  base_runs :
      (c : Connection) (rest : List Connection) (r : Running)
      → r.base_queue ≡ c ∷ rest
      → Step r (handle_connection_close c (record r { base_queue = rest }))
  io_runs :
      (before : List Connection) (c : Connection) (after : List Connection) (r : Running)
      → r.io_queue ≡ before ++ c ∷ after
      → Step r (dec_connection (record r { io_queue = before ++ after }))

pub data Reached (start : Running) : Running → Type 0 where
  here : Reached start start
  next : {r s : Running} → Reached start r → Step r s → Reached start s

-- The base loop runs all that it has been handed, then each other loop does.
abbrev pub run_base : List Connection → Running → Running
run_base [] r = r
run_base (c ∷ rest) r = run_base rest (handle_connection_close c (record r { base_queue = rest }))

abbrev pub run_io : List Connection → Running → Running
run_io [] r = r
run_io (c ∷ rest) r = run_io rest (dec_connection (record r { io_queue = rest }))

abbrev pub settle : Running → Running
settle r = let after = run_base r.base_queue r in run_io after.io_queue after
