-- ===== src/Accepter/Opening.antt =====
-- The constructor and `init` of src/core/accepter.cpp, with the configuration of
-- src/util/config.h: the socket that new connections come on, and its handler in the base loop. The
-- descriptor of the socket is that of the handler, and the handler's callback for reading is set in
-- the store of the poller. Whether bind and listen succeed is an argument, as are the flags that
-- fcntl returns and the numbers of the flag bits.
pub mod Listening
use qg_server.Common.{
  ℕ, ◌-◌, ◌%◌, Bool, true, false, List, [], ◌∷◌, ◌++◌, Option, Outcome, done, ◌>>=◌, ltb,
  if◌then◌else◌,
}
use qg_server.Common.Int.{ℤ, pos, negsuc}
use qg_server.EventLoop.Registry.{Registry, register_handler, read_on, change_interest}
use qg_server.Net.SysCall.{Flags, SysCall}
use qg_server.Net.Socket.{
  Socket, make_non_block, make_close_exe, make_cork, make_keep_alive, make_port_reuseable,
  make_addr_reuseable, bind_and_listen,
}

pub record Config : Type 0 where
  pub back_log : ℤ
  pub cork : Bool
  pub port : ℤ
  pub max_connections : ℕ
  pub keep_alive : Bool

-- What a signed field of 4 bits holds of an int.
abbrev pub of_four_bits : ℕ → ℤ
of_four_bits n = if ltb n 8 then pos n else negsuc (15 - n)

abbrev pub stored_back_log : ℤ → ℤ
stored_back_log (pos n) = of_four_bits (n % 16)
stored_back_log (negsuc n) = of_four_bits (15 - n % 16)

-- What the system returns to the calls.
pub record Answers : Type 0 where
  pub o_nonblock : ℕ
  pub o_cloexec : ℕ
  pub flags : Option Flags
  pub flags_again : Option Flags
  pub binds : Bool
  pub listens : Bool

-- The options of the socket, before it is bound.
abbrev pub set_options : Answers → Config → Socket → List SysCall
set_options a config s =
    make_non_block a.o_nonblock a.flags s
    ++ make_close_exe a.o_cloexec a.flags_again s
    ++ (if config.cork then make_cork s else [])
    ++ (if config.keep_alive then make_keep_alive s else [])
    ++ make_port_reuseable s
    ++ make_addr_reuseable s

-- Accepter::init
unfoldable pub init :
    Answers → Config → Socket → ℕ → Registry → Outcome (Socket × Registry × List SysCall)
init a config s h r = do
  registered ← register_handler h r
  reading ← change_interest read_on h registered
  (listening, calls) ←
      bind_and_listen config.port (stored_back_log config.back_log) a.binds a.listens s
  done (listening, reading, set_options a config s ++ calls)
