-- ===== src/Net/SysCall.antt =====
-- The system calls that change a descriptor, as the server makes them. What they return is an
-- argument of the operations. The flags of a descriptor are the bits of an int: `flags i` is bit
-- `i`. The numbers of the bits O_NONBLOCK and O_CLOEXEC are those of the system.
use qg_server.Common.{ℕ, Bool, true, ◌||◌, Option, none, some, ◌==◌}
use qg_server.Common.Int.{ℤ}

pub data SocketOption : Type 0 where
  so_reuseaddr so_reuseport so_keepalive tcp_nopush : SocketOption

abbrev pub Flags : Type 0
Flags = ℕ → Bool

-- What fcntl(F_GETFL) returned, with all bits set for -1.
abbrev pub flags_or_all : Option Flags → Flags
flags_or_all none = λ _. true
flags_or_all (some f) = f

-- `flags | (1 << bit)`
abbrev pub with_bit : ℕ → Flags → Flags
with_bit bit f i = i == bit || f i

pub data SysCall : Type 0 where
  set_option : ℤ → SocketOption → SysCall
  set_flags : ℤ → Flags → SysCall
  shutdown_write : ℤ → SysCall
  close_fd : ℤ → SysCall
  bind_port : ℤ → ℕ → SysCall
  listen_on : ℤ → ℤ → SysCall
