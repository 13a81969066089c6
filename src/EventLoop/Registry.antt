-- ===== src/EventLoop/Registry.antt =====
-- `registerHandler`, `updateHandler` and `removeHandler` of src/core/event_loop.cpp: the map that a
-- loop keeps of its handlers, and the poller behind it. `enableRead` and the like of
-- src/core/event_handler.h change the events that a handler waits for, and update it.
pub mod Watching
pub mod Refines
pub mod Placing
pub mod Tests
use qg_server.Common.{ℕ, Bool, true, false, Option, none, some, Outcome, done, ◌>>=◌, or_fault}
use qg_server.EventHandler.{
  Events, EventHandler, enable_read, enable_write, enable_error, enable_all, disable_read,
  disable_write, disable_error, disable_all,
}
use qg_server.Pollpoller
use qg_server.Pollpoller.{Pollpoller, map_at, store_at}

pub record Registry : Type 0 where
  pub handler_map : ℕ → Option ℕ
  pub poller : Pollpoller

abbrev pub handle_of : ℕ → Registry → ℕ
handle_of h r = (r.poller.store h).handle

-- `emplace` keeps the handler that is there.
abbrev pub emplace : ℕ → ℕ → (ℕ → Option ℕ) → ℕ → Option ℕ
emplace fd h m = elim (m fd) [ none ↦ map_at m fd (some h) | some k ↦ m ]

unfoldable pub register_handler : ℕ → Registry → Outcome Registry
register_handler h r = do
  let handlers = emplace (handle_of h r) h r.handler_map
  poller ← Pollpoller.register_handler h r.poller
  done (record { handler_map = handlers; poller = poller })

unfoldable pub update_handler : ℕ → Registry → Outcome Registry
update_handler h r = do
  k ← or_fault (r.handler_map (handle_of h r))
  poller ← Pollpoller.update_handler h r.poller
  done (record r { poller = poller })

unfoldable pub remove_handler : ℕ → Registry → Outcome Registry
remove_handler h r = do
  k ← or_fault (r.handler_map (handle_of h r))
  poller ← Pollpoller.remove_handler h r.poller
  done (record { handler_map = map_at r.handler_map (handle_of h r) none; poller = poller })

-- A new handler comes to lie at a pointer.
abbrev pub place_handler : ℕ → EventHandler → Registry → Registry
place_handler h e r = record r { poller = record r.poller { store = store_at r.poller.store h e } }

pub data Change : Type 0 where
  read_on write_on error_on all_on : Change
  read_off write_off error_off all_off : Change

abbrev pub apply_change : Change → EventHandler → EventHandler
apply_change read_on e = enable_read e
apply_change write_on e = enable_write e
apply_change error_on e = enable_error e
apply_change all_on e = enable_all e
apply_change read_off e = disable_read e
apply_change write_off e = disable_write e
apply_change error_off e = disable_error e
apply_change all_off e = disable_all e

-- The change of `ievents_`, and EventHandler::update().
unfoldable pub change_interest : Change → ℕ → Registry → Outcome Registry
unfolding update_handler
change_interest c h r = update_handler h (record r {
  poller = record r.poller {
    store = store_at r.poller.store h (apply_change c (r.poller.store h));
  };
})

-- A new handler is registered, and its reading enabled.
unfoldable pub start_reading : ℕ → EventHandler → Registry → Outcome Registry
start_reading h e r = do
  registered ← register_handler h (place_handler h e r)
  change_interest read_on h registered
