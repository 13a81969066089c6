-- ===== src/TcpConnection.antt =====
-- src/core/tcp_connection.h and tcp_connection.cpp: a connection, on a system that is not Linux. A
-- handler returns the connection and what it does to the rest of the server, in order. What the
-- system calls return is an argument. A callback that a client set is a step of the result: it acts
-- through the functions that it adds to the loop and through the socket, not on these fields.
-- `writing` is whether the event handler waits for writing, `reading` for reading. `sendfile_fd_`
-- stays -1 here.
pub mod Reading
pub mod Writing
pub mod Closing
mod Tests
use qg_server.Common.{
  ℕ, zero, suc, ◌+◌, Bool, true, false, not, ◌&&◌, List, [], ◌∷◌, ◌++◌, Option, none, some, Outcome,
  done, fault, exhausted, ◌>>=◌, leb, ltb, ◌==◌, if◌then◌else◌, is_empty, length, drop,
}
use qg_server.Common.Text.{Text}
use qg_server.ReadWrite.{ReadResult, WriteResult, read, write}

pub record TcpConnection : Type 0 where
  pub reading : Bool
  pub writing : Bool
  pub disconnected : Bool
  pub read_buf : Text
  pub write_buf : Text
  pub has_close_call_back : Bool

-- A function that is added to the loop.
pub data Functor : Type 0 where
  write_in_loop_of : Text → Functor
  write_complete : Text → Functor

pub data Effect : Type 0 where
  register_handler update_handler remove_handler : Effect
  connection_come connection_close : Effect
  message : Text → Effect
  add_functor : Functor → Effect
  wire : Text → Effect
  increment decrement : Effect

-- TcpConnection::TcpConnection
abbrev pub new_connection : TcpConnection × List Effect
new_connection = (
  record {
    reading = false;
    writing = false;
    disconnected = false;
    read_buf = [];
    write_buf = [];
    has_close_call_back = false;
  },
  increment ∷ [],
)

abbrev pub default_read_buff_size : ℕ
default_read_buff_size = 1024

-- TcpConnection::handleConnection, where a callback for new connections is set.
abbrev pub handle_connection : TcpConnection → TcpConnection × List Effect
handle_connection c =
    (record c { reading = true }, register_handler ∷ update_handler ∷ connection_come ∷ [])

abbrev pub has_content_to_send : TcpConnection → Bool
has_content_to_send c = not (is_empty c.write_buf)

-- TcpConnection::handleClose
unfoldable pub handle_close : TcpConnection → TcpConnection × List Effect
handle_close c = (
  record c { reading = false; writing = false },
  update_handler ∷ (if c.has_close_call_back then connection_close ∷ [] else []),
)

-- TcpConnection::closeConnection
abbrev pub close_connection : TcpConnection → TcpConnection × List Effect
close_connection c = (record c { disconnected = true }, decrement ∷ remove_handler ∷ [])

-- TcpConnection::close
unfoldable pub close : TcpConnection → TcpConnection × List Effect
unfolding handle_close
close c =
    let closed = record c { disconnected = true } in
    if has_content_to_send closed then (closed, []) else handle_close closed

-- The loop of handleRead, on fuel: `buf` is not cleared between two calls of read.
unfoldable pub read_loop : ℕ → List ReadResult → Text → ℕ → Text → Outcome (ℕ × Text)
unfolding read
read_loop zero rs buf cnt read_buf = exhausted
read_loop (suc fuel) rs buf cnt read_buf = do
  (filled, n, rest) ← read default_read_buff_size rs buf 0
  let more = λ (m : ℕ). read_loop fuel rest filled (cnt + m) (read_buf ++ filled)
  elim n [
    | none ↦ done (cnt, read_buf)
    | some zero ↦ done (cnt, read_buf)
    | some (suc m) ↦ more (suc m)
  ]

-- TcpConnection::handleRead. `cnt` is never negative, so the last branch of the source is dead.
unfoldable pub handle_read : List ReadResult → TcpConnection → Outcome (TcpConnection × List Effect)
unfolding read_loop close
handle_read rs c = do
  (cnt, read_buf) ← read_loop (length rs + 1) rs [] 0 c.read_buf
  done (
      if ltb 0 cnt
      then (record c { read_buf = [] }, message read_buf ∷ [])
      else close (record c { read_buf = read_buf }))

-- TcpConnection::write
abbrev pub write_later : Text → TcpConnection → TcpConnection × List Effect
write_later data_buf c = (c, add_functor (write_in_loop_of data_buf) ∷ [])

-- The end of writeInLoop: what was not written is kept, and writing is waited for. `substr` throws
-- where the start is past the end, as -1 is.
unfoldable pub keep_rest :
    Text → Option ℕ → List Effect → TcpConnection → Outcome (TcpConnection × List Effect)
keep_rest data_buf none so_far c = fault
keep_rest data_buf (some n) so_far c =
    let kept = record c { write_buf = c.write_buf ++ drop n data_buf } in
    if leb n (length data_buf)
    then (if has_content_to_send kept && not kept.writing
        then done (record kept { writing = true }, so_far ++ update_handler ∷ [])
        else done (kept, so_far))
    else fault

-- The function that announces that all was written.
abbrev pub announce : Text → Option ℕ → List Effect
announce data_buf none = []
announce data_buf (some n) =
    if ltb 0 n && n == length data_buf then add_functor (write_complete []) ∷ [] else []

-- TcpConnection::writeInLoop. The test of `disconnected_` after the write is dead.
unfoldable pub write_in_loop :
    List WriteResult → Text → TcpConnection → Outcome (TcpConnection × List Effect)
unfolding keep_rest
write_in_loop rs data_buf c =
    if c.disconnected
    then done (c, [])
    else if not c.writing && is_empty c.write_buf
    then (write data_buf rs >>= λ r. keep_rest data_buf r.1 (wire r.0 ∷ announce data_buf r.1) c)
    else keep_rest data_buf (some 0) [] c

-- What handleWrite does once the write returned.
unfoldable pub written : Text → Option ℕ → TcpConnection → Outcome (TcpConnection × List Effect)
unfolding handle_close
written on_wire none c =
    let (closed, steps) = handle_close (record c { disconnected = true }) in
    done (closed, wire on_wire ∷ steps)
written on_wire (some n) c =
    let left = record c { write_buf = drop n c.write_buf } in
    if leb n (length c.write_buf)
    then (if is_empty left.write_buf
        then done (
          record left { writing = false },
          wire on_wire ∷ update_handler ∷ add_functor (write_complete []) ∷ [],
        )
        else done (left, wire on_wire ∷ []))
    else fault

-- TcpConnection::handleWrite
unfoldable pub handle_write :
    List WriteResult → TcpConnection → Outcome (TcpConnection × List Effect)
unfolding written
handle_write rs c =
    if is_empty c.write_buf then done (c, []) else (write c.write_buf rs >>= λ r. written r.0 r.1 c)
