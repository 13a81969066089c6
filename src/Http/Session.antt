-- ===== src/Http/Session.antt =====
-- One connection of the HTTP server: the handlers of src/core/tcp_connection.cpp, the callbacks of
-- src/core/http/http_server.cpp that its constructor sets, and the functions that both add to the
-- loop. `client` is what the client has been sent, `is_shut` whether shutdown was called, and
-- `is_closed` whether the server was asked to close the connection. What
-- ::write returns is an argument, by the bytes that are to be sent, and so is the parser: `P` is the
-- type of its states. What the handlers do to the poller, to the server's map and to
-- the number of connections is in other modules, and passed over here.
pub mod Sending
pub mod Answered
pub mod Exchanging
pub mod Conversation
mod Tests
use qg_server.Common.{ℕ, Bool, true, false, List, [], ◌∷◌, ◌++◌, Option, Outcome, done, ◌>>=◌}
use qg_server.Common.Text.{Text}
use qg_server.ReadWrite.{ReadResult, WriteResult}
use qg_server.TcpConnection.{
  TcpConnection, Functor, write_in_loop_of, write_complete, Effect, message, connection_come,
  connection_close, new_connection, handle_connection, add_functor, wire, handle_read, write_later,
  write_in_loop, handle_write,
}
use qg_server.Http.Request.{HttpRequest, Element, new_request}
use qg_server.Http.Context.{Url}
use qg_server.Http.Server.{
  File, Action, shutdown, write, Report, handle_message_come, handle_write_complete,
}

pub record Session (P : Type 0) : Type 0 where
  pub connection : TcpConnection
  pub request : HttpRequest
  pub parser : P
  pub pending : List Functor
  pub client : Text
  pub is_shut : Bool
  pub is_closed : Bool

-- What the server is given: the parser with its first state and http_should_keep_alive, the file
-- system, and the date.
pub record Site (P : Type 0) : Type 0 where
  pub init : P
  pub execute : Text → P → P × Report
  pub should_keep_alive : P → Bool
  pub parse_url : Text → Option Url
  pub stat : Text → Option File
  pub date : Text
  pub garbage : Element

-- TcpConnection::write and TcpConnection::shutdown, where a callback calls them.
abbrev pub act : {P : Type 0} → Action → Session P → Session P
act shutdown s = record s { is_shut = true }
act (write t) s = record s { pending = s.pending ++ write_in_loop_of t ∷ [] }

unfoldable pub act_all : {P : Type 0} → List Action → Session P → Session P
act_all [] s = s
act_all (a ∷ actions) s = act_all actions (act a s)

module _ {P : Type 0} (site : Site P) where
  -- HTTPContext::reset, which follows the write of an answer, makes the parser new.
  abbrev parser_after : List Action → P → P
  parser_after (write t ∷ actions) p = site.init
  parser_after _ p = p

  -- HTTPServer::handleMessageCome, on the connection.
  unfoldable pub come : Text → Session P → Outcome (Session P)
  unfolding act_all
  come t s = do
    let (parser, report) = site.execute t s.parser
    (request, actions) ←
        handle_message_come site.parse_url site.stat site.date site.garbage t report s.request
    done (act_all actions (record s { request = request; parser = parser_after actions parser }))

  -- What a handler of the connection does to the rest of the server.
  unfoldable pub on_effects : List Effect → Session P → Outcome (Session P)
  unfolding come
  on_effects [] s = done s
  on_effects (message t ∷ es) s = come t s >>= λ r. on_effects es r
  on_effects (add_functor f ∷ es) s = on_effects es (record s { pending = s.pending ++ f ∷ [] })
  on_effects (wire t ∷ es) s = on_effects es (record s { client = s.client ++ t })
  on_effects (connection_come ∷ es) s =
      on_effects es (record s { request = new_request 0 site.garbage; parser = site.init })
  on_effects (connection_close ∷ es) s = on_effects es (record s { is_closed = true })
  on_effects (_ ∷ es) s = on_effects es s

  abbrev pub with_connection : TcpConnection × List Effect → Session P → Outcome (Session P)
  with_connection (c, es) s = on_effects es (record s { connection = c })

  -- The functions of the loop for a new connection, whose callbacks the server has set.
  unfoldable pub open_session : Outcome (Session P)
  unfolding on_effects
  open_session =
      let (made, _) = new_connection in
      let s : Session P = record {
        connection = made;
        request = new_request 0 site.garbage;
        parser = site.init;
        pending = [];
        client = [];
        is_shut = false;
        is_closed = false;
      } in
      with_connection (handle_connection (record made { has_close_call_back = true })) s

  unfoldable pub read_event : List ReadResult → Session P → Outcome (Session P)
  unfolding on_effects
  read_event rs s = handle_read rs s.connection >>= λ r. with_connection r s

  unfoldable pub write_event : (Text → List WriteResult) → Session P → Outcome (Session P)
  unfolding on_effects
  write_event socket s =
      handle_write (socket s.connection.write_buf) s.connection >>= λ r. with_connection r s

  unfoldable pub run_functor : (Text → List WriteResult) → Functor → Session P → Outcome (Session P)
  unfolding on_effects act_all
  run_functor socket (write_in_loop_of t) s =
      write_in_loop (socket t) t s.connection >>= λ r. with_connection r s
  run_functor socket (write_complete t) s =
      done (act_all (handle_write_complete (site.should_keep_alive s.parser)) s)

  -- A turn of the loop of handlePendingFunctors.
  unfoldable pub run_first : (Text → List WriteResult) → Session P → Outcome (Session P)
  unfolding run_functor
  run_first socket s = elim s.pending [
    | [] ↦ done s
    | f ∷ fs ↦ run_functor socket f (record s { pending = fs })
  ]

  -- Write events, one after another.
  unfoldable pub write_events : List (Text → List WriteResult) → Session P → Outcome (Session P)
  unfolding write_event
  write_events [] s = done s
  write_events (socket ∷ sockets) s = write_event socket s >>= λ r. write_events sockets r
