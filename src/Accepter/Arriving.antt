-- ===== src/Accepter/Arriving.antt =====
-- How a connection comes to its loop: the constructor and `handleConnection` of
-- src/core/tcp_connection.cpp. `handleNewCon` of src/core/server.cpp adds one function to the loop
-- of a connection, which runs handleConnection. Where the handler of the connection with a
-- descriptor comes to lie, and the numbers of its callbacks, are arguments; the callback of the
-- server for a new connection does nothing to the handlers of the loop.
pub mod Taken
pub mod Watched
mod Tests
use qg_server.Common.{ℕ, List, [], ◌∷◌, some, Outcome, done, ◌>>=◌, ◌==◌, if◌then◌else◌}
use qg_server.EventHandler.{EventHandler, event_none, new_event_handler}
use qg_server.EventLoop.Registry.{Registry, start_reading}

pub record Arrivals : Type 0 where
  pub handler : ℕ → ℕ
  pub handle_read : ℕ → ℕ
  pub handle_write : ℕ → ℕ

-- The handler that the constructor of a connection makes.
abbrev pub connection_handler : Arrivals → ℕ → EventHandler
connection_handler a fd = record (new_event_handler fd event_none) {
  read_call_back = some (a.handle_read fd);
  write_call_back = some (a.handle_write fd);
}

-- TcpConnection::handleConnection
unfoldable pub open_connection : Arrivals → ℕ → Registry → Outcome Registry
open_connection a fd r = start_reading (a.handler fd) (connection_handler a fd) r

-- The functions that a loop was handed for the connections of the server, newest first: it runs
-- those of its own, the oldest first.
unfoldable pub open_own : Arrivals → ℕ → List (ℕ × ℕ) → Registry → Outcome Registry
unfolding open_connection
open_own a loop [] r = done r
open_own a loop (c ∷ connections) r =
    open_own a loop connections r >>= λ s. if c.1 == loop then open_connection a c.0 s else done s
