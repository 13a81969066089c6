-- ===== src/Pollpoller.antt =====
-- src/core/poll/Poller.h, Pollpoller.h and Pollpoller.cpp: the descriptors that poll() watches, and
-- the handler of each. Handlers are behind pointers: `store` gives the handler of each pointer.
-- `std::map` is a function; a null pointer or a missing key is `none`.
pub mod Slots
pub mod Update
pub mod Wait
pub mod Interest
pub mod Tests
use qg_server.Common.{
  ℕ, ◌+◌, ◌-◌, Bool, true, false, not, ◌&&◌, ◌||◌, List, [], ◌∷◌, ◌++◌, Option, none, some, Outcome,
  done, fault, ◌>>=◌, assert, or_fault, ltb, ◌==◌, if◌then◌else◌, length, get_elem?, set, take,
}
use qg_server.EventHandler.{Events, event_none, EventHandler}

-- struct pollfd
pub record PollFd : Type 0 where
  pub fd : ℕ
  pub events : Events
  pub revents : Events

pub record Pollpoller : Type 0 where
  pub fds : List PollFd
  pub event_handler_map : ℕ → Option ℕ
  pub store : ℕ → EventHandler

abbrev pub map_at : (ℕ → Option ℕ) → ℕ → Option ℕ → ℕ → Option ℕ
map_at m k v j = if j == k then v else m j

abbrev pub store_at : (ℕ → EventHandler) → ℕ → EventHandler → ℕ → EventHandler
store_at st h e j = if j == h then e else st j

abbrev pub is_none : Option ℕ → Bool
is_none none = true
is_none (some n) = false

abbrev pub no_events : Events → Bool
no_events e = not (e.read || e.write || e.error || e.other)

-- Pollpoller::registerHandler
unfoldable pub register_handler : ℕ → Pollpoller → Outcome Pollpoller
register_handler h p =
    let handler = p.store h in
    if is_none handler.index
    then done (record {
      fds =
          p.fds
          ++ record { fd = handler.handle; events = handler.ievents; revents = event_none } ∷ [];
      event_handler_map = map_at p.event_handler_map handler.handle (some h);
      store = store_at p.store h (record handler { index = some (length p.fds) });
    })
    else fault

-- Pollpoller::updateHandler. An index past the end is not defined in the source.
unfoldable pub update_handler : ℕ → Pollpoller → Outcome Pollpoller
unfolding register_handler
update_handler h p = elim (p.store h).index [
  | none ↦ register_handler h p
  | some i ↦ (do
    old ← or_fault (get_elem? p.fds i)
    done (record p {
      fds = set p.fds i (record old { events = (p.store h).ievents; revents = event_none });
    }))
]

-- Pollpoller::removeHandler. The map entry of the last descriptor is dereferenced.
unfoldable pub remove_handler : ℕ → Pollpoller → Outcome Pollpoller
remove_handler h p = do
  index ← or_fault (p.store h).index
  current ← or_fault (get_elem? p.fds index)
  found ← or_fault (p.event_handler_map (p.store h).handle)
  _ ← assert (found == h)
  _ ← assert (no_events current.revents)
  back ← or_fault (get_elem? p.fds (length p.fds - 1))
  last ← or_fault (p.event_handler_map back.fd)
  done (record {
    fds = take (length p.fds - 1) (set (set p.fds index back) (length p.fds - 1) current);
    event_handler_map = map_at p.event_handler_map (p.store h).handle none;
    store = store_at p.store last (record (p.store last) { index = some index });
  })
