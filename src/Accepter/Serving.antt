-- ===== src/Accepter/Serving.antt =====
-- `Server::Server` of src/core/server.cpp and `Accepter::Accepter` of src/core/accepter.cpp, which
-- make the base loop, the pool and the listening socket, and `Server::run` of src/core/server.cpp
-- up to the first turn of the loop. What the system gives them is an argument: the waker of the
-- base loop, with its pipe, the descriptor that socket returns, where the handler of the accepter
-- comes to lie, and what getLoop sees of the threads.
pub mod Ready
use qg_server.Common.{ℕ, List, [], ◌++◌, Option, none, some, Outcome, done, ◌>>=◌}
use qg_server.Common.Int.{pos}
use qg_server.EventHandler.{EventHandler, event_none, new_event_handler}
use qg_server.EventLoop.Registry.{place_handler}
use qg_server.EventLoop.Turn.{Loop}
use qg_server.EventLoop.Construct
use qg_server.EventLoop.Construct.{Waker, make_event_loop}
use qg_server.Net.SysCall.{SysCall}
use qg_server.Net.Socket.{Socket, new_socket}
use qg_server.Accepter.{Server, high_water}
use qg_server.Accepter.Pool.{new_loop_pool, start}
use qg_server.Accepter.Opening
use qg_server.Accepter.Opening.{Config, init}

pub record Given : Type 0 where
  pub waker : Waker
  pub waker_answers : Construct.Answers
  pub handlers : ℕ → EventHandler
  pub socket_fd : ℕ
  pub handler : ℕ
  pub handle_read : ℕ
  pub accepter_answers : Opening.Answers
  pub looks : ℕ → List (Option ℕ)

pub record Serving : Type 0 where
  pub loop : Loop
  pub socket : Socket
  pub server : Server
  pub calls : List SysCall

-- The handler of the accepter, with the callback that init sets.
abbrev pub accepter_handler : Given → EventHandler
accepter_handler g = record (new_event_handler g.socket_fd event_none) {
  read_call_back = some g.handle_read;
}

-- The members of a new accepter and a new server.
abbrev pub new_members : Config → ℕ → Server
new_members config thread_num = record {
  connection_high_water = high_water config.max_connections;
  connection_number = 0;
  connections = [];
  pool = new_loop_pool 0 (pos thread_num);
}

-- Server::Server
unfoldable pub new_server : Config → ℕ → Given → Outcome Serving
new_server config thread_num g = do
  (loop, calls) ← make_event_loop g.waker_answers g.waker g.handlers
  (socket, registry, more) ←
      init g.accepter_answers config (new_socket (pos g.socket_fd)) g.handler
        (place_handler g.handler (accepter_handler g) loop.registry)
  done (record {
    loop = record loop { registry = registry };
    socket = socket;
    server = new_members config thread_num;
    calls = calls ++ more;
  })

-- Server::run, before the loop.
unfoldable pub run : Given → Serving → Outcome Serving
run g s = do
  pool ← start g.looks s.server.pool
  done (record s { server = record s.server { pool = pool } })

-- A new server that is run.
unfoldable pub serve : Config → ℕ → Given → Outcome Serving
unfolding new_server run
serve config thread_num g = new_server config thread_num g >>= run g
