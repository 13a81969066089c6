-- ===== src/Net/Tests.antt =====
-- Sockets at concrete addresses and ports.
use qg_server.Common.{◌≡◌, refl, true, false, List, [], ◌∷◌, none, some}
use qg_server.Net.Passive.{Attempt, bound, walk, inet_passive_socket}
use qg_server.Net.Passive.Balance.{
  open_after, releases, with_result, inet_passive_socket_balanced, inet_passive_socket_first,
}

-- No socket, one that cannot be bound, and one that can.
abbrev three : List Attempt
three =
    record { sfd = none; reuses = true; binds = true }
    ∷ record { sfd = some 4; reuses = true; binds = false }
    ∷ record { sfd = some 5; reuses = true; binds = true }
    ∷ []

inet_passive_socket_balanced_example :
    (open_after (inet_passive_socket (some three) true true).1 (3 ∷ [])
      ≡ with_result (inet_passive_socket (some three) true true).0 (3 ∷ []))
    × (releases (inet_passive_socket (some three) true true).1 ≡ 1)
inet_passive_socket_balanced_example = inet_passive_socket_balanced three true true (3 ∷ []) refl

walk_runs : (walk true three).0 ≡ bound 5
unfolding walk
walk_runs = refl

inet_passive_socket_first_example : (inet_passive_socket (some three) true true).0 ≡ some 5
inet_passive_socket_first_example = inet_passive_socket_first three (refl, (refl, (refl, tt)))
