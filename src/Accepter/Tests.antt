-- ===== src/Accepter/Tests.antt =====
-- A server with two loops.
use qg_server.Common.Int.{pos}
use qg_server.EventHandler.{event_none, new_event_handler}
use qg_server.Accepter.Serving.{Given}
use qg_server.Net.Socket.{new_socket}
use qg_server.EventLoop.Registry.Tests.{one_handler, table, one_handler-Implements}
use qg_server.Accepter.Opening.{Config, Answers, set_options, init}
use qg_server.Accepter.Opening.Listening.{Listens, init-Listens}
use qg_server.Common.{
  true, false, ◌++◌, replicate, ◌+◌, ◌≡◌, length, refl, [], ◌∷◌, none, some, Ends, arith,
}
use qg_server.Accepter.{LoopPool, Server}
use qg_server.Accepter.Closing.{
  Running, close_at_base_loop, handle_connection_close, dec_connection, announces, base_runs,
  io_runs, here, next, settle,
}
use qg_server.Accepter.Closing.Counts.{IsCounted, Reached-IsCounted}
use qg_server.Accepter.Closing.Settled.{without, settle_counts}

abbrev two_loops : LoopPool
two_loops = record { base_loop = 0; thread_size = 2; cur_pos = 1; loops = 5 ∷ 6 ∷ [] }

abbrev small : Server
small = record {
  connection_high_water = 1;
  connection_number = 0;
  connections = [];
  pool = two_loops;
}

-- Two connections, of which the first is closed.
abbrev two_open : Running
two_open = record {
  server = record small { connection_number = 2; connections = (8, 5) ∷ (7, 6) ∷ [] };
  base_queue = [];
  io_queue = [];
}

abbrev announced : Running
announced = close_at_base_loop (7, 6) two_open

abbrev handed_back : Running
handed_back = handle_connection_close (7, 6) (record announced { base_queue = [] })

abbrev one_left : Running
one_left = dec_connection (record handed_back { io_queue = [] })

two_open-IsCounted : IsCounted two_open
two_open-IsCounted = record { counts = refl; bound = omega arith; waiting = tt }

Reached-IsCounted_example : IsCounted one_left
Reached-IsCounted_example = Reached-IsCounted {start = two_open} two_open-IsCounted (
    next
      (next (next here (announces (7, 6) two_open refl refl)) (base_runs (7, 6) [] announced refl))
      (io_runs [] (7, 6) [] handed_back refl))

settle_counts_example :
    ((settle announced).server.connections
      ≡ without announced.base_queue two_open.server.connections)
    × (length (settle announced).server.connections + length announced.base_queue
        ≡ length announced.server.connections)
    × ((settle announced).server.connection_number ≡ length (settle announced).server.connections)
    × ((settle announced).io_queue ≡ [])
    × ((settle announced).base_queue ≡ [])
settle_counts_example =
    settle_counts announced
      (record { counts = refl; bound = omega arith; waiting = (refl, refl, tt) }) (refl, (refl, tt))

abbrev config : Config
config = record {
  back_log = pos 10;
  cork = false;
  port = pos 70000;
  max_connections = 100;
  keep_alive = true;
}

abbrev answers : Answers
answers = record {
  o_nonblock = 11;
  o_cloexec = 19;
  flags = some (λ bit. false);
  flags_again = none;
  binds = true;
  listens = true;
}

init-Listens_example :
    Ends
      (Listens config
        (set_options answers config (new_socket (pos 9)))
        (new_socket (pos 9))
        1
        table)
      (init answers config (new_socket (pos 9)) 1 one_handler)
init-Listens_example =
    init-Listens answers config (new_socket (pos 9)) 1 one_handler table refl one_handler-Implements
      refl refl

-- A server with the waker at the pointer 0, and the accepter's handler at 1.
abbrev given : Given
given = record {
  waker = record { event_handler = 0; read_end = 4; write_end = 5; handle_read = 30 };
  waker_answers = record { o_nonblock = 11; read_flags = none; write_flags = none };
  handlers = λ h. new_event_handler 0 event_none;
  socket_fd = 6;
  handler = 1;
  handle_read = 31;
  accepter_answers = answers;
  looks = λ i. replicate 2 none ++ some (10 + i) ∷ [];
}
