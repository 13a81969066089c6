-- ===== src/Accepter/Serving/Ready.antt =====
-- What a server watches and counts when its loop begins to run.
use qg_server.Common.{ℕ, ◌≡◌, ◌≢◌, true, Option, none, some, done, ◌==◌, if◌then◌else◌}
use qg_server.EventHandler.{event_read}
use qg_server.Pollpoller.Interest.{Interest, Watch}
use qg_server.EventLoop.Registry.Placing.{know_handler}
use qg_server.EventLoop.Registry.Refines.{Implements}
use qg_server.EventLoop.Turn.Alive.{IsSound}
use qg_server.EventLoop.Construct.Started.{pipe_watched}
use qg_server.Accepter.Counting
use qg_server.Accepter.Counting.{IsStarted}
use qg_server.Accepter.Pool.{next_loops}
use qg_server.Accepter.Pool.Rounds.{loops_from}
use qg_server.Accepter.Opening.{Config}
use qg_server.Accepter.Serving.{Given, Serving, accepter_handler, new_members}

-- A descriptor is watched for reading.
abbrev pub reading : ℕ → Option Watch
reading h = some (record { handler = h; events = event_read; quiet = true })

-- What the base loop watches: the pipe of its waker, and the listening socket.
abbrev pub served : Given → ℕ → Option Watch
served g fd =
    if fd == g.socket_fd
    then reading g.handler
    else if fd == g.waker.read_end
    then reading g.waker.event_handler
    else none

-- A server before its loop runs.
record Waits (config : Config) (n : ℕ) (g : Given) (s : Serving) : Type 0 where
  sound : IsSound s.loop
  table : Interest
  implements : Implements s.loop.registry table
  watched : (fd : ℕ) → table.watched fd ≡ served g fd
  server : s.server ≡ new_members config n

-- A server that accepts connections.
pub record Serves (n : ℕ) (own : ℕ → ℕ) (g : Given) (s : Serving) : Type 0 where
  pub sound : IsSound s.loop
  pub table : Interest
  pub implements : Implements s.loop.registry table
  pub watched : (fd : ℕ) → table.watched fd ≡ served g fd
  pub counted : Counting.IsCounted s.server
  pub shares : next_loops n s.server.pool ≡ done (s.server.pool, loops_from own n 0)

module _ (config : Config) (g : Given) (unset : (g.handlers g.waker.event_handler).index ≡ none)
    (unset_too : (g.handlers g.handler).index ≡ none) (two : g.handler ≢ g.waker.event_handler)
    (apart : g.socket_fd ≢ g.waker.read_end) (binds : g.accepter_answers.binds ≡ true) where
  -- The table of the base loop, with the handler of the accepter.
  abbrev before : Interest
  before = know_handler g.handler (accepter_handler g) (pipe_watched g.waker g.handlers)
