-- ===== src/EventLoop/Construct/Started.antt =====
-- What a loop watches when it was constructed.
use mathlib.Core.Path.{◌≡◌}
use mathlib.Core.List.{Nodup-nil, not-mem-nil}
use qg_server.Common.{
  ℕ, refl, inl, true, false, not, none, some, arith, Ends, ends, Ends-then, Option, ◌≢◌,
}
use qg_server.TimerQueue.{new_timer_queue}
use qg_server.TimerQueue.Invariant.{IsValid}
use qg_server.EventHandler.{EventHandler, event_read}
use qg_server.Pollpoller.{is_none}
use qg_server.Pollpoller.Slots.{IsIndexed}
use qg_server.Pollpoller.Interest.{Interest}
use qg_server.EventLoop.Registry.Placing.{reading_table, start_reading-Implements}
use qg_server.EventLoop.Registry.Refines.{Implements}
use qg_server.EventLoop.Turn.{Loop}
use qg_server.EventLoop.Turn.Alive.{IsSound}
use qg_server.EventLoop.Construct.{
  Waker, Answers, waker_handler, new_registry, new_waker, make_event_loop,
}

-- The table of a loop that watches nothing.
abbrev pub nothing_watched : (ℕ → EventHandler) → Interest
nothing_watched handlers = record {
  watched = λ fd. none;
  handle = λ h. (handlers h).handle;
  wanted = λ h. (handlers h).ievents;
  used = λ h. not (is_none (handlers h).index);
}

is_none_lem : (o : Option ℕ) → not (is_none o) ≡ false → o ≡ none
is_none_lem none e = refl
is_none_lem (some i) e = cc

pub new_registry-Implements :
    (handlers : ℕ → EventHandler) → Implements (new_registry handlers) (nothing_watched handlers)
new_registry-Implements handlers =
    let indexed : IsIndexed (new_registry handlers).poller = record { slot = λ i x e. cc } in
    record {
      watches = record { indexed = indexed; same = λ fd. refl };
      shows = record {
        indexed = indexed;
        view = λ fd. refl;
        handles = λ h. refl;
        wanted = λ h. refl;
        unused = λ h e. is_none_lem (handlers h).index e;
      };
    }

new_timer_queue-IsValid : IsValid new_timer_queue
unfolding new_timer_queue qg_server.TimeStamp.epoch
new_timer_queue-IsValid = record {
  heap = λ c p h. absurd (omega (arith, h));
  distinct = Nodup-nil;
  known = λ p m. absurd (not-mem-nil m);
  early = inl refl;
  slow = λ p m. absurd (not-mem-nil m);
}

-- The table of a loop that watches the end of the pipe that is read, with one handler more.
abbrev pub pipe_watched : Waker → (ℕ → EventHandler) → Interest
pipe_watched w handlers = reading_table w.event_handler (waker_handler w) (nothing_watched handlers)

new_waker-Implements :
    (a : Answers) (w : Waker) (handlers : ℕ → EventHandler)
    → (handlers w.event_handler).index ≡ none
    → Ends (λ r. Implements r.0 (pipe_watched w handlers)) (new_waker a w (new_registry handlers))
unfolding new_waker
new_waker-Implements a w handlers unset =
    Ends-then
      (start_reading-Implements w.event_handler (waker_handler w) (new_registry handlers)
        (nothing_watched handlers) (new_registry-Implements handlers) (rw unset refl) refl refl
        refl)
      λ r i. ends i

-- What a loop watches when it starts.
pub record Starts (w : Waker) (handlers : ℕ → EventHandler) (l : Loop) : Type 0 where
  pub sound : IsSound l
  pub implements : Implements l.registry (pipe_watched w handlers)
  pub pipe :
      (pipe_watched w handlers).watched w.read_end
      ≡ some (record { handler = w.event_handler; events = event_read; quiet = true })
  pub others : (fd : ℕ) → fd ≢ w.read_end → (pipe_watched w handlers).watched fd ≡ none

-- The constructor of a loop ends, where the handler of its waker comes to lie at a pointer of no
-- handler that is registered. The new loop is sound. It watches the end of the pipe that is read,
-- for reading, with the handler of the waker, and nothing else.
pub make_event_loop-Starts :
    (a : Answers) (w : Waker) (handlers : ℕ → EventHandler)
    → (handlers w.event_handler).index ≡ none
    → Ends (λ r. Starts w handlers r.0) (make_event_loop a w handlers)
unfolding make_event_loop
make_event_loop-Starts a w handlers unset =
    Ends-then (new_waker-Implements a w handlers unset) λ (registry, calls) i. ends (record {
      sound = record { timers = new_timer_queue-IsValid; watches = i.watches };
      implements = i;
      pipe = ground arith;
      others = λ fd apart. ground (arith, apart);
    })
