-- ===== src/EventLoop.antt =====
-- src/core/event_loop.h and event_loop.cpp: the functions that are to be run in an event loop, and
-- the pipe that wakes it. A function is a number; the functions that it adds when it is run are an
-- argument, and other threads may add one between any two steps. A thread that has pushed its
-- function and not yet written to the pipe owes a byte; what the thread of the loop itself adds is
-- pushed and written in one step. A write to a full pipe, which has room for `capacity` bytes,
-- leaves it as it is. `added` lists all that were added and `ran` all that were run, oldest first.
-- Handlers and timers are in modules of their own.
pub mod Delivery
pub mod Registry
pub mod Timers
pub mod Turn
pub mod Construct
mod Tests
use qg_server.Common.{ℕ, ◌+◌, ◌-◌, ◌<◌, ◌≡◌, List, [], ◌∷◌, ◌++◌, ltb, if◌then◌else◌}

-- Where the loop is: in the call of poll, between it and handlePendingFunctors, or in the latter,
-- with the functions that the one that is being run is still to add, and those that were taken and
-- not yet run.
pub data Phase : Type 0 where
  waiting handling : Phase
  running : List ℕ → List ℕ → Phase

pub record EventLoop : Type 0 where
  pub phase : Phase
  pub pending_functors : List ℕ
  pub pipe : ℕ
  pub owed : ℕ
  pub added : List ℕ
  pub ran : List ℕ

abbrev pub new_event_loop : EventLoop
new_event_loop = record {
  phase = waiting;
  pending_functors = [];
  pipe = 0;
  owed = 0;
  added = [];
  ran = [];
}

-- Queue::push
abbrev pub push : ℕ → EventLoop → EventLoop
push f l = record l { pending_functors = l.pending_functors ++ f ∷ []; added = l.added ++ f ∷ [] }

module _ (capacity : ℕ) where
  -- Waker::wake_up
  abbrev pub wake_up : EventLoop → EventLoop
  wake_up l = record l { pipe = if ltb l.pipe capacity then l.pipe + 1 else l.pipe }

  -- EventLoop::addFunctor
  abbrev pub add_functor : ℕ → EventLoop → EventLoop
  add_functor f l = wake_up (push f l)

  -- The steps of EventLoop::loop, where poll returns for the byte in the pipe alone.
  pub data LoopStep (adds : ℕ → List ℕ) : EventLoop → EventLoop → Type 0 where
    -- The callback of the pipe, which reads one byte.
    wake :
        (l : EventLoop)
        → l.phase ≡ waiting
        → 0 < l.pipe
        → LoopStep adds l (record l { phase = handling; pipe = l.pipe - 1 })
    pop_all :
        (l : EventLoop)
        → l.phase ≡ handling
        → LoopStep adds l
            (record l { phase = running [] l.pending_functors; pending_functors = [] })
    run :
        (l : EventLoop) (f : ℕ) (fs : List ℕ)
        → l.phase ≡ running [] (f ∷ fs)
        → LoopStep adds l (record l { phase = running (adds f) fs; ran = l.ran ++ f ∷ [] })
    -- The function that is being run adds one.
    add_next :
        (l : EventLoop) (g : ℕ) (gs fs : List ℕ)
        → l.phase ≡ running (g ∷ gs) fs
        → LoopStep adds l (add_functor g (record l { phase = running gs fs }))
    finish :
        (l : EventLoop) → l.phase ≡ running [] [] → LoopStep adds l (record l { phase = waiting })

  -- The steps of the loop, those of it for other events, and those of the other threads, which run
  -- addFunctor.
  pub data Step (adds : ℕ → List ℕ) : EventLoop → EventLoop → Type 0 where
    loops : {l m : EventLoop} → LoopStep adds l m → Step adds l m
    -- Poll returns for another event, or at the time of a timer.
    other : (l : EventLoop) → l.phase ≡ waiting → Step adds l (record l { phase = handling })
    -- A callback of a handler adds a function.
    add_own : (f : ℕ) (l : EventLoop) → l.phase ≡ handling → Step adds l (add_functor f l)
    pushes : (f : ℕ) (l : EventLoop) → Step adds l (push f (record l { owed = l.owed + 1 }))
    writes : (l : EventLoop) → 0 < l.owed → Step adds l (wake_up (record l { owed = l.owed - 1 }))

-- What is reached by steps, any number of them.
pub data Reached (R : EventLoop → EventLoop → Type 0) (start : EventLoop) : EventLoop → Type 0 where
  here : Reached R start start
  next : {l m : EventLoop} → Reached R start l → R l m → Reached R start m
