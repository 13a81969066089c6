-- ===== src/TcpConnection/Tests.antt =====
-- A connection at concrete bytes.
use qg_server.Common.{
  ℕ, zero, suc, ◌+◌, ◌≤◌, ◌⊎◌, List, ◌≡◌, refl, false, true, [], ◌∷◌, done, arith,
}
use qg_server.Common.Text.{Text, codes}
use qg_server.ReadWrite.{eagain, got, read_failed}
use qg_server.TcpConnection.{
  TcpConnection, Effect, update_handler, connection_close, message, handle_read, write_in_loop,
}
use qg_server.TcpConnection.Closing.{closes, reads, writes_new, turn, over, closes_once}
use qg_server.TcpConnection.Reading.{Call, handle_read_hands_on, full_reads_close}

abbrev idle : TcpConnection
idle = record {
  reading = true;
  writing = false;
  disconnected = false;
  read_buf = [];
  write_buf = [];
  has_close_call_back = true;
}

abbrev busy : TcpConnection
busy = record idle { writing = true; write_buf = 1 ∷ 2 ∷ 3 ∷ [] }

abbrev one_call : ℕ → Call
one_call n = record { full = []; last = n ∷ [] }

handle_read_hands_on_example :
    handle_read (got (1 ∷ []) ∷ got (2 ∷ []) ∷ read_failed eagain ∷ []) idle
    ≡ done (idle, message (1 ∷ 1 ∷ 2 ∷ []) ∷ [])
handle_read_hands_on_example =
    handle_read_hands_on [] eagain [] idle tt (one_call 1) (one_call 2 ∷ [])
      ((tt, omega arith, omega arith), ((tt, omega arith, omega arith), tt))

abbrev zeros : ℕ → Text
zeros zero = []
zeros (suc n) = 0 ∷ zeros n

-- `idle`, once the client has closed it.
abbrev closed_one : TcpConnection
closed_one = record idle { reading = false; disconnected = true }

full_reads_close_example :
    handle_read (got (zeros 1024) ∷ read_failed eagain ∷ []) idle
    ≡ done (closed_one, update_handler ∷ connection_close ∷ [])
full_reads_close_example = full_reads_close (zeros 1024 ∷ []) eagain [] idle (refl, tt)

client_closes :
    handle_read (got [] ∷ []) idle ≡ done (closed_one, update_handler ∷ connection_close ∷ [])
unfolding handle_read
client_closes = refl

bytes_dropped : write_in_loop [] (codes "hi") closed_one ≡ done (closed_one, [])
unfolding write_in_loop
bytes_dropped = refl

closes_once_example :
    (closes (update_handler ∷ connection_close ∷ []) + closes [] ≤ 1)
    × ((closes (update_handler ∷ connection_close ∷ []) ≡ 0) ⊎ (◌≡◌ {A = List Effect} [] []))
closes_once_example =
    closes_once (turn (reads (got [] ∷ []) refl client_closes) over refl)
      (turn (writes_new [] (codes "hi") bytes_dropped) over refl)
