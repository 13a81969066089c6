-- ===== src/EventLoop/Turn.antt =====
-- A turn of `EventLoop::loop` of src/core/event_loop.cpp: the timers, the wait, the handlers whose
-- events were found, and the functions that are pending. What the callbacks of handlers and the
-- functions do to the loop is an argument, as are the clock, what timers make, and poll. `called`
-- lists the callbacks that were called and `ran` the functions that were run, oldest first. A
-- handler that a callback removes stays in the store: its memory is not modelled.
pub mod Alive
pub mod Delivers
mod Tests
use qg_server.Common.{
  ℕ, suc, ◌+◌, Bool, true, false, ◌&&◌, List, [], ◌∷◌, ◌++◌, Option, none, some, Outcome, done,
  ◌>>=◌, if◌then◌else◌,
}
use qg_server.Common.Int.{ℤ, negsuc}
use qg_server.TimeStamp
use qg_server.TimeStamp.{TimeStamp}
use qg_server.Timer.{Timer}
use qg_server.TimerQueue.{TimerQueue, handle_timer}
use qg_server.EventHandler.{
  Events, EventHandler, is_readable, is_reading, is_writeable, is_writing, is_error,
}
use qg_server.Pollpoller.{PollFd, Pollpoller}
use qg_server.Pollpoller.Wait.{wait}
use qg_server.EventLoop.Registry.{Registry}
use qg_server.EventLoop.Timers.{next_wait}

pub record Loop : Type 0 where
  pub timer_queue : TimerQueue
  pub registry : Registry
  pub pending_functors : List ℕ
  pub called : List ℕ
  pub ran : List ℕ

-- What the loop calls that is not its own.
pub record World : Type 0 where
  pub clock : ℕ → TimeStamp
  pub made : ℕ → TimerQueue → List Timer
  pub poll : List PollFd → ℕ → ℤ → ℤ × List Events
  pub call_back : ℕ → Loop → Outcome Loop
  pub functor : ℕ → Loop → Outcome Loop

abbrev pub handler_of : ℕ → Loop → EventHandler
handler_of h l = l.registry.poller.store h

module _ (w : World) where
  abbrev pub call : Option ℕ → Loop → Outcome Loop
  call none l = done l
  call (some cb) l = w.call_back cb (record l { called = l.called ++ cb ∷ [] })

  -- One of the three tests of EventHandler::HandleEvent, and its callback.
  abbrev pub on_event : (EventHandler → Bool) → (EventHandler → Option ℕ) → ℕ → Loop → Outcome Loop
  on_event test call_back h l =
      if test (handler_of h l) then call (call_back (handler_of h l)) l else done l

  unfoldable pub on_read : ℕ → Loop → Outcome Loop
  on_read = on_event (λ e. is_readable e && is_reading e) (λ e. e.read_call_back)

  unfoldable pub on_write : ℕ → Loop → Outcome Loop
  on_write = on_event (λ e. is_writeable e && is_writing e) (λ e. e.write_call_back)

  unfoldable pub on_error : ℕ → Loop → Outcome Loop
  on_error = on_event is_error (λ e. e.error_call_back)

  -- EventHandler::HandleEvent
  unfoldable pub handle_event : ℕ → Loop → Outcome Loop
  unfolding on_read on_write on_error
  handle_event h l = on_read h l >>= λ m. on_write h m >>= λ n. on_error h n

  unfoldable pub handle_events : List ℕ → Loop → Outcome Loop
  unfolding handle_event
  handle_events [] l = done l
  handle_events (h ∷ hs) l = handle_event h l >>= λ m. handle_events hs m

  -- The loop of handlePendingFunctors, over the functions that it took.
  unfoldable pub run_functors : List ℕ → Loop → Outcome Loop
  run_functors [] l = done l
  run_functors (f ∷ fs) l =
      w.functor f (record l { ran = l.ran ++ f ∷ [] }) >>= λ m. run_functors fs m

  -- EventLoop::handlePendingFunctors
  unfoldable pub handle_pending_functors : Loop → Outcome Loop
  unfolding run_functors
  handle_pending_functors l = run_functors l.pending_functors (record l { pending_functors = [] })

  -- The wait for the next timer or event. The clock is read if there is a timer.
  unfoldable pub wait_for_events : Loop → Outcome (Loop × List ℕ)
  wait_for_events l = do
    let next_time = l.timer_queue.next_time
    let now = w.clock l.timer_queue.reads
    let reads =
        if TimeStamp.eq next_time TimeStamp.epoch
        then l.timer_queue.reads
        else suc l.timer_queue.reads
    (poller, found) ← wait w.poll (negsuc 0) (next_wait now next_time) l.registry.poller
    done (
      record l {
        timer_queue = record l.timer_queue { reads = reads };
        registry = record l.registry { poller = poller };
      },
      found,
    )

  -- The body of EventLoop::loop, with fuel for the timers.
  unfoldable pub turn : ℕ → Loop → Outcome Loop
  unfolding wait_for_events handle_events handle_pending_functors
  turn fuel l = do
    q ← handle_timer w.clock w.made fuel l.timer_queue
    (woken, found) ← wait_for_events (record l { timer_queue = q })
    handled ← handle_events found woken
    handle_pending_functors handled
