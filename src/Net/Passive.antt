-- ===== src/Net/Passive.antt =====
-- src/util/nettool.h: opening a passive socket. getaddrinfo gives the addresses that are tried, in
-- order; what the calls return for an address is an `Attempt`. A trace lists the descriptors as
-- they are opened and closed, and the release of the addresses. `none` is -1.
pub mod Balance
use qg_server.Common.{
  ℕ, Bool, true, false, ◌||◌, not, ◌&&◌, List, [], ◌∷◌, ◌++◌, Option, none, some, ltb,
  if◌then◌else◌,
}
use qg_server.Common.Int.{ℤ, pos}
use qg_server.Net.SysCall.{
  SocketOption, tcp_nopush, Flags, flags_or_all, with_bit, SysCall, set_option, set_flags, close_fd,
}

-- For one address: the descriptor that socket returns, whether SO_REUSEADDR is set, and whether
-- bind succeeds.
pub record Attempt : Type 0 where
  pub sfd : Option ℕ
  pub reuses : Bool
  pub binds : Bool

pub data NetStep : Type 0 where
  opened : ℕ → NetStep
  closed : ℕ → NetStep
  free_addresses : NetStep

-- How the loop over the addresses ends: with the break after bind, at the end of the list, or with
-- the return inside it.
pub data Walk : Type 0 where
  bound : ℕ → Walk
  over gave_up : Walk

-- The body of the loop. `further` is what the rest of the loop does.
unfoldable pub try_address :
    Bool → Option ℕ → Bool → Bool → Walk × List NetStep → Walk × List NetStep
try_address do_listen none reuses binds further = further
try_address do_listen (some n) reuses binds further =
    if do_listen && not reuses
    then (gave_up, opened n ∷ closed n ∷ free_addresses ∷ [])
    else if binds
    then (bound n, opened n ∷ [])
    else (further.0, opened n ∷ closed n ∷ further.1)

unfoldable pub walk : Bool → List Attempt → Walk × List NetStep
unfolding try_address
walk do_listen [] = (over, [])
walk do_listen (a ∷ rest) = try_address do_listen a.sfd a.reuses a.binds (walk do_listen rest)

-- What follows the loop.
unfoldable pub conclude : Bool → Bool → Walk × List NetStep → Option ℕ × List NetStep
conclude do_listen listens (gave_up, trace) = (none, trace)
conclude do_listen listens (over, trace) = (none, trace ++ free_addresses ∷ [])
conclude do_listen listens (bound n, trace) =
    ((if do_listen && not listens then none else some n), trace ++ free_addresses ∷ [])

-- QGInetPassiveSocket: `addresses` is `none` where getaddrinfo fails, and `listens` is whether
-- listen succeeds.
unfoldable pub inet_passive_socket : Option (List Attempt) → Bool → Bool → Option ℕ × List NetStep
unfolding walk conclude
inet_passive_socket none do_listen listens = (none, [])
inet_passive_socket (some addresses) do_listen listens =
    conclude do_listen listens (walk do_listen addresses)

-- QGNetListen: the service that is looked up. A port below 1024 or above 65535 is replaced.
unfoldable pub net_listen_port : ℕ → ℕ
net_listen_port port = if ltb port 1024 || ltb 65535 port then 6666 else port

abbrev pub net_listen : (ℕ → Option (List Attempt)) → ℕ → Bool → Option ℕ × List NetStep
net_listen get_addresses port listens =
    inet_passive_socket (get_addresses (net_listen_port port)) true listens

-- QGSetTcpCork: the descriptor is closed where the option cannot be set. `false` is -1.
abbrev pub set_tcp_cork : ℤ → Bool → Bool × List SysCall
set_tcp_cork sfd sets =
    if sets
    then (true, set_option sfd tcp_nopush ∷ [])
    else (false, set_option sfd tcp_nopush ∷ close_fd sfd ∷ [])

-- makeFdNoneBlock, with the bit O_NONBLOCK.
abbrev pub make_fd_none_block : ℕ → Option Flags → ℤ → List SysCall
make_fd_none_block o_nonblock flags fd =
    set_flags fd (with_bit o_nonblock (flags_or_all flags)) ∷ []

-- QGAccept
abbrev pub accept : Option ℕ → Option ℕ
accept none = none
accept (some cfd) = some cfd
