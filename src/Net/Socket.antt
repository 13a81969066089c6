-- ===== src/Net/Socket.antt =====
-- src/core/socket.h and socket.cpp: a socket, and the calls that its operations make. A failure of
-- setsockopt, fcntl, shutdown or close is logged at most. The numbers of the flag bits are
-- arguments.
pub mod Port
use qg_server.Common.{
  ℕ, suc, ◌+◌, ◌%◌, ◌^◌, ◌-◌, Bool, true, false, List, [], ◌∷◌, ◌++◌, Option, none, some, Outcome,
  done, fault, if◌then◌else◌,
}
use qg_server.Common.Int.{ℤ, pos, negsuc, ltb_ℤ}
use qg_server.Common.Text.{Text, codes, decimal}
use qg_server.Net.SysCall.{
  SocketOption, so_reuseaddr, so_reuseport, so_keepalive, tcp_nopush, Flags, flags_or_all, with_bit,
  SysCall, set_option, set_flags, shutdown_write, close_fd, bind_port, listen_on,
}

-- std::to_string of an int.
abbrev pub signed_decimal : ℤ → Text
signed_decimal (pos n) = decimal n
signed_decimal (negsuc n) = codes "-" ++ decimal (suc n)

pub record Socket : Type 0 where
  pub info : Text
  pub fd : ℤ

abbrev fd_info : ℤ → Text
fd_info fd = codes "fd : " ++ signed_decimal fd ++ 10 ∷ []

-- Socket::Socket(), with what socket returns.
abbrev pub new_socket : ℤ → Socket
new_socket fd = record { info = fd_info fd ++ codes "IPV4" ++ 10 ∷ []; fd = fd }

-- Socket::Socket(qg_fd_t)
abbrev pub socket_of : ℤ → Socket
socket_of fd = record { info = fd_info fd; fd = fd }

-- Socket::~Socket
abbrev pub destroy : Socket → List SysCall
destroy s = close_fd s.fd ∷ []

abbrev pub make_addr_reuseable : Socket → List SysCall
make_addr_reuseable s = set_option s.fd so_reuseaddr ∷ []

abbrev pub make_port_reuseable : Socket → List SysCall
make_port_reuseable s = set_option s.fd so_reuseport ∷ []

abbrev pub make_keep_alive : Socket → List SysCall
make_keep_alive s = set_option s.fd so_keepalive ∷ []

abbrev pub make_cork : Socket → List SysCall
make_cork s = set_option s.fd tcp_nopush ∷ []

abbrev pub make_non_block : ℕ → Option Flags → Socket → List SysCall
make_non_block o_nonblock flags s = set_flags s.fd (with_bit o_nonblock (flags_or_all flags)) ∷ []

-- The bit O_CLOEXEC is set among the flags of the open file, by F_SETFL.
abbrev pub make_close_exe : ℕ → Option Flags → Socket → List SysCall
make_close_exe o_cloexec flags s = set_flags s.fd (with_bit o_cloexec (flags_or_all flags)) ∷ []

-- Socket::close
abbrev pub close : Socket → Socket × List SysCall
close s = (record s { info = s.info ++ codes "closed" ++ 10 ∷ [] }, close_fd s.fd ∷ [])

-- Socket::shutdown
abbrev pub shutdown : Socket → List SysCall
shutdown s = shutdown_write s.fd ∷ []

-- `(unsigned short)port`
abbrev pub port_of : ℤ → ℕ
port_of (pos n) = n % 2 ^ 16
port_of (negsuc n) = (2 ^ 16 - 1) - n % 2 ^ 16

abbrev pub port_or_default : ℤ → ℤ
port_or_default port = if ltb_ℤ port (pos 0) then pos 3000 else port

-- Socket::bindAndListen, with whether bind and listen succeed. The assertion stands before the
-- errors of bind are handled; those of listen have no effect.
unfoldable pub bind_and_listen : ℤ → ℤ → Bool → Bool → Socket → Outcome (Socket × List SysCall)
bind_and_listen port backlog binds listens s =
    let used = port_or_default port in
    if binds
    then done (
      record s { info = s.info ++ (codes "Listen on port: " ++ signed_decimal used) },
      bind_port s.fd (port_of used) ∷ listen_on s.fd backlog ∷ [],
    )
    else fault

-- Socket::accept, with what ::accept returns.
abbrev pub accept : ℤ → ℤ
accept new_fd = if ltb_ℤ new_fd (pos 0) then negsuc 0 else new_fd
