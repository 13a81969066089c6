-- ===== src/Kqueue.antt =====
-- src/core/poll/KqueuePoller.h and KqueuePoller.cpp: the poller for kqueue, which event_loop.h
-- names in a comment only. The calls that change what the kernel watches are listed, newest first;
-- that one of them fails is logged at most. `kevent` is the system call that waits: by these
-- changes, how many events it may store, and the timeout in seconds and nanoseconds, if any, it
-- gives its return value and the events that it stored. An entry of `events` that was not
-- initialised is `none`.
pub mod Filters
pub mod Watching
pub mod Stale
mod Tests
use qg_server.Common.{
  ℕ, zero, suc, ◌+◌, Bool, true, false, ◌&&◌, List, [], ◌∷◌, ◌++◌, Option, none, some, Outcome,
  done, fault, ◌>>=◌, assert, or_fault, ◌==◌, if◌then◌else◌, length, take, drop, map,
}
use qg_server.Common.Int.{ℤ, pos, negsuc, eq_ℤ}
use qg_server.Common.Maps.{lookup, erase}
use qg_server.TimeStamp
use qg_server.TimeStamp.{TimeStamp}
use qg_server.EventHandler.{
  Events, event_none, event_read, event_write, EventHandler, is_reading, is_writing, set_revents,
}
use qg_server.Pollpoller.{store_at, is_none}
use qg_server.Pollpoller.Wait.{poll_size}
use qg_server.EventLoop.Registry.{Change, apply_change}

pub data Filter : Type 0 where
  evfilt_read evfilt_write evfilt_other : Filter

-- struct kevent
pub record Kevent : Type 0 where
  pub ident : ℕ
  pub filter : Filter

-- EV_ADD if `adds`, else EV_DELETE.
pub record KeventChange : Type 0 where
  pub kevent : Kevent
  pub adds : Bool

pub record KqueuePoller : Type 0 where
  pub kfd : ℤ
  pub events : List (Option Kevent)
  pub event_handler_map : List (ℕ × ℕ)
  pub changes : List KeventChange
  pub store : ℕ → EventHandler

abbrev pub Kernel : Type 0
Kernel = List KeventChange → ℕ → Option (ℤ × ℕ) → ℤ × List Kevent

-- KqueuePoller::KqueuePoller, with what kqueue returns. The program exits on -1.
unfoldable pub new_kqueue_poller : ℤ → (ℕ → EventHandler) → Outcome KqueuePoller
new_kqueue_poller kfd store =
    if eq_ℤ kfd (negsuc 0)
    then fault
    else done
        (record { kfd = kfd; events = []; event_handler_map = []; changes = []; store = store })

abbrev pub is_some : Option ℕ → Bool
is_some none = false
is_some (some h) = true

abbrev pub is_registered : ℕ → KqueuePoller → Bool
is_registered fd p = is_some (lookup fd p.event_handler_map)

-- The changes for the events that a handler waits for: reading, then writing.
unfoldable pub set_filters : Bool → EventHandler → List KeventChange → List KeventChange
set_filters adds e cs =
    let after_read =
      if is_reading e
      then record { kevent = record { ident = e.handle; filter = evfilt_read }; adds = adds } ∷ cs
      else cs in
    if is_writing e
    then record { kevent = record { ident = e.handle; filter = evfilt_write }; adds = adds }
      ∷ after_read
    else after_read

-- `ke` after the two tests of registerHandler.
abbrev pub last_kevent : EventHandler → Option Kevent
last_kevent e =
    if is_writing e
    then some (record { ident = e.handle; filter = evfilt_write })
    else if is_reading e
    then some (record { ident = e.handle; filter = evfilt_read })
    else none

-- KqueuePoller::registerHandler
unfoldable pub register_handler : ℕ → KqueuePoller → Outcome KqueuePoller
register_handler h p =
    let e = p.store h in
    if is_registered e.handle p
    then fault
    else done (record p {
      changes = set_filters true e p.changes;
      event_handler_map = (e.handle, h) ∷ p.event_handler_map;
      events = p.events ++ last_kevent e ∷ [];
    })

-- KqueuePoller::updateHandler
unfoldable pub update_handler : ℕ → KqueuePoller → Outcome KqueuePoller
update_handler h p =
    let e = p.store h in
    if is_registered e.handle p
    then done (record p { changes = set_filters true e p.changes })
    else fault

-- `enableRead` and the like: the change of `ievents_`, and update().
unfoldable pub change_interest : Change → ℕ → KqueuePoller → Outcome KqueuePoller
unfolding update_handler
change_interest c h p =
    update_handler h (record p { store = store_at p.store h (apply_change c (p.store h)) })

-- `pop_back` of a vector that is not empty.
abbrev pub pop_back : List (Option Kevent) → Outcome (List (Option Kevent))
pop_back [] = fault
pop_back (x ∷ xs) = done (take (length xs) (x ∷ xs))

-- KqueuePoller::removeHandler
unfoldable pub remove_handler : ℕ → KqueuePoller → Outcome KqueuePoller
remove_handler h p = do
  let e = p.store h
  _ ← assert (is_registered e.handle p)
  events ← pop_back p.events
  done (record p {
    changes = set_filters false e p.changes;
    event_handler_map = erase e.handle p.event_handler_map;
    events = events;
  })

abbrev pub mask_of : Filter → Events
mask_of evfilt_read = event_read
mask_of evfilt_write = event_write
mask_of evfilt_other = event_none

-- The loop over the first events.
module _ (handlers : List (ℕ × ℕ)) where
  unfoldable pub dispatch :
      ℕ → List (Option Kevent) → (ℕ → EventHandler) → Outcome ((ℕ → EventHandler) × List ℕ)
  dispatch zero events store = done (store, [])
  dispatch (suc n) [] store = fault
  dispatch (suc n) (entry ∷ events) store = do
    e ← or_fault entry
    h ← or_fault (lookup e.ident handlers)
    let found = store_at store h (set_revents (mask_of e.filter) (store h))
    (after, rest) ← dispatch n events found
    done (after, h ∷ rest)

abbrev pub timeout_of : TimeStamp → Option (ℤ × ℕ)
timeout_of time_stamp =
    if TimeStamp.eq time_stamp TimeStamp.epoch
    then none
    else some (TimeStamp.to_seconds time_stamp, 1000)

-- How many events the return value names: none for an error.
abbrev pub event_count : ℤ → ℕ
event_count (pos n) = n
event_count (negsuc n) = 0

-- KqueuePoller::Wait
unfoldable pub wait : Kernel → ℤ → TimeStamp → KqueuePoller → Outcome (KqueuePoller × List ℕ)
unfolding dispatch
wait kevent sz time_stamp p = do
  let called = kevent p.changes (poll_size sz (length p.events)) (timeout_of time_stamp)
  let events = map some called.1 ++ drop (length called.1) p.events
  (store, found) ← dispatch p.event_handler_map (event_count called.0) events p.store
  done (record p { events = events; store = store }, found)
