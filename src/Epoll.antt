-- ===== src/Epoll.antt =====
-- src/core/poll/sync_event_demultiplexer.h and sync_event_demultiplexer.cpp: the watching of
-- descriptors by epoll. The file names operations of the handlers by their old names, and is not
-- built; it is read with the names that they have now. What the kernel keeps, and what its calls do
-- to it, is an argument; that one of them fails has no effect on the code.
pub mod Waiting
mod Tests
use qg_server.Common.{
  ℕ, zero, suc, ◌+◌, ◌≡◌, Bool, List, [], ◌∷◌, ◌++◌, Option, none, some, Outcome, done, exhausted,
  ◌>>=◌, or_fault, get_elem?, if◌then◌else◌,
}
use qg_server.Common.Int.{ℤ, pos, negsuc, ltb_ℤ}
use qg_server.EventHandler.{Events, EventHandler}
use qg_server.Pollpoller.Interest.{assign}

pub data CtlOp : Type 0 where
  ctl_add ctl_mod ctl_del : CtlOp

-- struct EventStatus, and the part of struct epoll_event that is used.
pub record EventStatus : Type 0 where
  pub fd : ℕ
  pub revents : Events

-- The calls of epoll on one descriptor of it. `ctl` gives what epoll_ctl returns, and leaves. The
-- n-th call of epoll_wait, for at most so many events, returns a number and stores events.
pub record Epoll (K : Type 0) : Type 0 where
  pub ctl : CtlOp → ℕ → Events → K → Bool × K
  pub wait : K → ℕ → ℕ → ℤ × List EventStatus

abbrev pub max_events_size : ℕ
max_events_size = 5

module _ {K : Type 0} (epoll : Epoll K) where
  -- SyncEventDemultiplexer::Register
  unfoldable pub register : EventHandler → K → K
  register e k = let (ret, after) = epoll.ctl ctl_add e.handle e.ievents k in after

  -- SyncEventDemultiplexer::Remove
  unfoldable pub remove : EventHandler → K → K
  remove e k = let (ret, after) = epoll.ctl ctl_del e.handle e.ievents k in after

  -- SyncEventDemultiplexer::Update
  unfoldable pub update : EventHandler → K → K
  update e k = let (ret, after) = epoll.ctl ctl_mod e.handle e.ievents k in after

-- The inner loop of Wait, from `i` on, with the rounds that are left.
unfoldable pub push_events :
    ℕ → ℕ → List EventStatus → List EventStatus → Outcome (List EventStatus)
push_events zero i evlist res = done res
push_events (suc left) i evlist res = do
  es ← or_fault (get_elem? evlist i)
  push_events left (i + 1) evlist (res ++ es ∷ [])

-- How many rounds the inner loop takes.
abbrev pub rounds : ℤ → ℕ
rounds (pos n) = n
rounds (negsuc n) = 0

-- The loop of Wait after `n` calls of epoll_wait, with fuel. It gives the events, and how many
-- calls were made.
unfoldable pub wait_loop :
    (ℕ → ℤ × List EventStatus) → ℕ → ℕ → List EventStatus → Outcome (List EventStatus × ℕ)
unfolding push_events
wait_loop waits zero n res = exhausted
wait_loop waits (suc fuel) n res =
    let (ret, evlist) = waits n in
    let again = λ (found : List EventStatus). wait_loop waits fuel (n + 1) found in
    push_events (rounds ret) 0 evlist res >>= λ found.
    if ltb_ℤ (pos 0) ret then done (found, n + 1) else again found

-- SyncEventDemultiplexer::Wait
unfoldable pub wait : {K : Type 0} → Epoll K → ℕ → K → Outcome (List EventStatus × ℕ)
unfolding wait_loop
wait epoll fuel k = wait_loop (epoll.wait k max_events_size) fuel 0 []
