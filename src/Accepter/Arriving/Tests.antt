-- ===== src/Accepter/Arriving/Tests.antt =====
-- Three connections come to a server with two loops, which has room for two of them.
use qg_server.Common.{ℕ, ◌+◌, ◌≡◌, refl, [], ◌∷◌, ◌++◌, map, none, some, Ends, arith, take}
use qg_server.EventHandler.{EventHandler, event_none, new_event_handler}
use qg_server.EventLoop.Construct.{new_registry}
use qg_server.EventLoop.Construct.Started.{nothing_watched, new_registry-Implements}
use qg_server.Accepter.{Server, handle_read}
use qg_server.Accepter.Counting
use qg_server.Accepter.Arriving.{Arrivals, open_own}
use qg_server.Accepter.Arriving.Taken.{keys, onto, room}
use qg_server.Accepter.Arriving.Watched.{Reads, arrivals_watched}

abbrev arrivals : Arrivals
arrivals = record {
  handler = λ fd. fd + 100;
  handle_read = λ fd. fd + 200;
  handle_write = λ fd. fd + 300;
}

abbrev handlers : ℕ → EventHandler
handlers h = new_event_handler 0 event_none

abbrev small : Server
small = record {
  connection_high_water = 1;
  connection_number = 0;
  connections = [];
  pool = record { base_loop = 0; thread_size = 2; cur_pos = 1; loops = 5 ∷ 6 ∷ [] };
}

small-IsCounted : Counting.IsCounted small
small-IsCounted = record {
  counts = refl;
  bound = omega arith;
  started = record { size = refl; inside = omega arith };
}

arrivals_watched_example :
    Ends
      (λ r.
        Counting.IsCounted r.0
        × (keys r.0.connections ≡ onto (take (room small) (7 ∷ 8 ∷ 9 ∷ [])) [])
        × ((l : ℕ)
            → Ends
                (Reads arrivals l (nothing_watched handlers) r.0.connections)
                (open_own arrivals l r.0.connections (new_registry handlers))))
      (handle_read (map some (7 ∷ 8 ∷ 9 ∷ []) ++ none ∷ []) small)
arrivals_watched_example =
    arrivals_watched arrivals (λ x y e. omega (arith, e)) (λ l. new_registry handlers)
      (λ l. nothing_watched handlers) (λ l. new_registry-Implements handlers) (7 ∷ 8 ∷ 9 ∷ []) []
      small small-IsCounted
      (
        refl,
        (omega arith, λ l. (refl, refl)),
        (refl, (omega arith, λ l. (refl, refl)), (refl, (omega arith, λ l. (refl, refl)), tt)),
      )
      tt
