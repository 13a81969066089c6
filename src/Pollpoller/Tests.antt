-- ===== src/Pollpoller/Tests.antt =====
-- A poller of one descriptor, which is watched, and one that is not.
use qg_server.Common.{
  ℕ, zero, suc, ◌≡◌, refl, sym, false, [], ◌∷◌, none, some, Ends, ◌==◌, get_elem?, if◌then◌else◌,
}
use qg_server.Common.{◌≢◌}
use qg_server.EventHandler.{event_none, event_read, new_event_handler}
use qg_server.Pollpoller.{PollFd, Pollpoller, update_handler}
use qg_server.Pollpoller.Update.{update_handler-IsIndexed}
use qg_server.Pollpoller.Slots.{Slot, IsIndexed}

abbrev pub watched : PollFd
watched = record { fd = 4; events = event_read; revents = record event_read { read = false } }

abbrev pub one_watched : Pollpoller
one_watched = record {
  fds = watched ∷ [];
  event_handler_map = λ fd. if fd == 4 then some 0 else none;
  store = λ h.
      if h == 0
      then record (new_event_handler 4 event_read) { index = some 0 }
      else new_event_handler 9 event_read;
}

one_slot : (i : ℕ) (x : PollFd) → get_elem? one_watched.fds i ≡ some x → Slot one_watched i x
one_slot zero x e =
    let same : watched ≡ x = cc in
    rw (sym same) (record { handler = 0; found = refl; handle = refl; index = refl })
one_slot (suc i) x e = cc

pub one_watched-IsIndexed : IsIndexed one_watched
one_watched-IsIndexed = record { slot = one_slot }

update_handler-IsIndexed_example :
    Ends
      (λ r.
        IsIndexed r
        × (r.event_handler_map ≡ one_watched.event_handler_map)
        × (get_elem? r.fds 0 ≡ some (record watched { events = event_read; revents = event_none }))
        × ((j : ℕ) → j ≢ 0 → get_elem? r.fds j ≡ get_elem? one_watched.fds j))
      (update_handler 0 one_watched)
update_handler-IsIndexed_example =
    update_handler-IsIndexed 0 0 one_watched watched one_watched-IsIndexed refl refl
