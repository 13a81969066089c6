-- ===== src/Kqueue/Tests.antt =====
-- A poller for kqueue with two handlers.
use qg_server.Common.{
  ℕ, zero, suc, ◌<◌, ◌≡◌, refl, true, List, [], ◌∷◌, Option, some, fault, ◌>>=◌, arith, Ends,
  Ends-done, ltb, lt→ltb, ◌&&◌, if◌then◌else◌,
}
use qg_server.Common.Int.{ℤ, pos, negsuc}
use qg_server.TimeStamp.{epoch}
use qg_server.EventHandler.{EventHandler, event_read, event_all, new_event_handler}
use qg_server.EventLoop.Registry.{all_off}
use qg_server.Kqueue.{
  evfilt_read, evfilt_write, KeventChange, KqueuePoller, Kernel, new_kqueue_poller, set_filters,
  register_handler, change_interest, remove_handler, wait,
}
use qg_server.Kqueue.Filters.{watches}
use qg_server.Kqueue.Watching.{
  new_kqueue_poller-IsWatching, IsWatching, register, change, perform, perform-IsWatching,
}
use qg_server.Kqueue.Stale.{removed_handler_faults}

-- The handler 0 reads the descriptor 7, the handler 1 reads and writes 8, and any other 9.
abbrev handlers : ℕ → EventHandler
handlers zero = new_event_handler 7 event_read
handlers (suc zero) = new_event_handler 8 event_all
handlers (suc (suc h)) = new_event_handler 9 event_read

abbrev no_handlers : KqueuePoller
no_handlers = record {
  kfd = pos 3;
  events = [];
  event_handler_map = [];
  changes = [];
  store = handlers;
}

abbrev one_handler : KqueuePoller
one_handler = record no_handlers {
  events = some (record { ident = 7; filter = evfilt_read }) ∷ [];
  event_handler_map = (7, 0) ∷ [];
  changes = record { kevent = record { ident = 7; filter = evfilt_read }; adds = true } ∷ [];
}

abbrev two_handlers : KqueuePoller
two_handlers = record no_handlers {
  events =
      some (record { ident = 7; filter = evfilt_read })
      ∷ some (record { ident = 8; filter = evfilt_write })
      ∷ [];
  event_handler_map = (8, 1) ∷ (7, 0) ∷ [];
  changes =
      record { kevent = record { ident = 8; filter = evfilt_write }; adds = true }
      ∷ record { kevent = record { ident = 8; filter = evfilt_read }; adds = true }
      ∷ record { kevent = record { ident = 7; filter = evfilt_read }; adds = true }
      ∷ [];
}

two_handlers-IsWatching : IsWatching two_handlers
unfolding new_kqueue_poller register_handler set_filters
two_handlers-IsWatching =
    let none_yet : IsWatching no_handlers =
      Ends-done (new_kqueue_poller-IsWatching (pos 3) handlers refl) in
    let one : IsWatching one_handler =
      Ends-done (perform-IsWatching (register 0) no_handlers none_yet refl) in
    Ends-done (perform-IsWatching (register 1) one_handler one refl)

-- The kernel reports data for the descriptor 7 whenever it is watched.
abbrev data_for_seven : Kernel
data_for_seven cs sz timeout =
    if watches cs 7 evfilt_read && ltb 0 sz
    then (pos 1, record { ident = 7; filter = evfilt_read } ∷ [])
    else (pos 0, [])

seven_found :
    (cs : List KeventChange) (sz : ℕ) (timeout : Option (ℤ × ℕ))
    → watches cs 7 evfilt_read ≡ true
    → 0 < sz
    → data_for_seven cs sz timeout ≡ (pos 1, record { ident = 7; filter = evfilt_read } ∷ [])
seven_found cs sz timeout watched room = rw (watched, lt→ltb 0 sz room) refl

perform-IsWatching_example : Ends IsWatching (perform (change all_off 1) two_handlers)
perform-IsWatching_example =
    perform-IsWatching (change all_off 1) two_handlers two_handlers-IsWatching refl

removed_handler_faults_example :
    Ends
      (λ q. IsWatching q × (wait data_for_seven (negsuc 0) epoch q ≡ fault))
      (change_interest all_off 0 two_handlers >>= remove_handler 0)
removed_handler_faults_example =
    removed_handler_faults data_for_seven 7 seven_found 0 epoch two_handlers two_handlers-IsWatching
      refl refl refl (omega arith)
