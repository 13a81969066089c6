-- ===== src/EventLoop/Construct.antt =====
-- The constructors and the destructors of EventLoop and of the Waker in it, in src/core/event_loop.h
-- and event_loop.cpp. The two ends of the pipe, the flags that fcntl returns, where the handler of
-- the waker comes to lie, and the number of its callback are arguments, as is the number of the bit
-- O_NONBLOCK. `freed` lists the handlers that were deleted.
pub mod Started
pub mod Ended
mod Tests
use qg_server.Common.{
  ℕ, Bool, false, not, ◌||◌, List, [], ◌∷◌, ◌++◌, Option, none, some, Outcome, done, ◌>>=◌, assert,
  ◌==◌,
}
use qg_server.Common.Int.{pos}
use qg_server.TimerQueue.{new_timer_queue}
use qg_server.EventHandler.{EventHandler, event_none, new_event_handler}
use qg_server.Pollpoller
use qg_server.Net.SysCall.{Flags, SysCall, close_fd}
use qg_server.Net.Passive.{make_fd_none_block}
use qg_server.EventLoop.Registry.{Registry, start_reading, remove_handler, all_off, change_interest}
use qg_server.EventLoop.Turn.{Loop}

pub record Waker : Type 0 where
  pub event_handler : ℕ
  pub read_end : ℕ
  pub write_end : ℕ
  pub handle_read : ℕ

pub record Answers : Type 0 where
  pub o_nonblock : ℕ
  pub read_flags : Option Flags
  pub write_flags : Option Flags

-- The handler, when the waker has set its callback.
abbrev pub waker_handler : Waker → EventHandler
waker_handler w = record (new_event_handler w.read_end event_none) {
  read_call_back = some w.handle_read;
}

-- Waker::Waker
unfoldable pub new_waker : Answers → Waker → Registry → Outcome (Registry × List SysCall)
new_waker a w r = do
  reading ← start_reading w.event_handler (waker_handler w) r
  done (
    reading,
    make_fd_none_block a.o_nonblock a.read_flags (pos w.read_end)
        ++ make_fd_none_block a.o_nonblock a.write_flags (pos w.write_end),
  )

-- The maps and the poller before the waker is made. `handlers` gives the handlers that there are.
abbrev pub new_registry : (ℕ → EventHandler) → Registry
new_registry handlers = record {
  handler_map = λ _. none;
  poller = record { fds = []; event_handler_map = λ _. none; store = handlers };
}

-- EventLoop::EventLoop
unfoldable pub make_event_loop :
    Answers → Waker → (ℕ → EventHandler) → Outcome (Loop × List SysCall)
unfolding new_waker
make_event_loop a w handlers = do
  (registry, calls) ← new_waker a w (new_registry handlers)
  done (
    record {
      timer_queue = new_timer_queue;
      registry = registry;
      pending_functors = [];
      called = [];
      ran = [];
    },
    calls,
  )

abbrev pub is_among : ℕ → List ℕ → Bool
is_among h [] = false
is_among h (k ∷ freed) = h == k || is_among h freed

-- A handler may be used only before it is deleted.
abbrev pub use_handler : ℕ → List ℕ → Outcome (Unit {0})
use_handler h freed = assert (not (is_among h freed))

-- The loop of EventLoop::~EventLoop, over the handlers of the map.
unfoldable pub delete_handlers : List ℕ → List ℕ → Registry → Outcome (List ℕ × Registry)
delete_handlers [] freed r = done (freed, r)
delete_handlers (h ∷ hs) freed r = do
  _ ← use_handler h freed
  poller ← Pollpoller.remove_handler h r.poller
  delete_handlers hs (h ∷ freed) (record r { poller = poller })

-- Waker::~Waker
unfoldable pub destroy_waker : Waker → List ℕ → Registry → Outcome (List ℕ × List SysCall)
destroy_waker w freed r = do
  _ ← use_handler w.event_handler freed
  still ← change_interest all_off w.event_handler r
  removed ← remove_handler w.event_handler still
  done (w.event_handler ∷ freed, close_fd (pos w.read_end) ∷ close_fd (pos w.write_end) ∷ [])

-- EventLoop::~EventLoop, and then the end of its member `waker_`.
unfoldable pub destroy_event_loop : Waker → List ℕ → Registry → Outcome (List ℕ × List SysCall)
unfolding delete_handlers destroy_waker
destroy_event_loop w handlers r = do
  (freed, left) ← delete_handlers handlers [] r
  destroy_waker w freed left
