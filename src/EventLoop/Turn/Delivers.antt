-- ===== src/EventLoop/Turn/Delivers.antt =====
-- The callbacks that a turn of `EventLoop::loop` calls, where callbacks leave the handlers alone.
use mathlib.Core.List.{append-nil, append_assoc}
use qg_server.Common.{
  ℕ, ◌+◌, ◌*◌, ◌<◌, ◌≤◌, ◌≡◌, refl, sym, ap, ◌∙◌, inl, inr, Bool, Bool-cases, ◌&&◌, List, [], ◌∷◌,
  ◌++◌, map, Option, none, some, Outcome, ◌>>=◌, Ends, ends, Ends-then, Ends-weaken, length,
  if◌then◌else◌,
}
use qg_server.Common.Int.{ℤ}
use qg_server.TimerHeap.Order.{max_size}
use qg_server.TimerQueue.Work.{work}
use qg_server.TimerQueue.Termination.{Calm, handle_timer_correct}
use qg_server.EventHandler.{
  EventHandler, is_readable, is_reading, is_writeable, is_writing, is_error,
}
use qg_server.Pollpoller.{PollFd}
use qg_server.Pollpoller.Wait.{wait_time, mark}
use qg_server.Pollpoller.Wait.Found.{pending, Polls}
use qg_server.Pollpoller.Wait.Marked.{seen_handlers, wait-Marked}
use qg_server.EventLoop.Timers.{next_wait}
use qg_server.EventLoop.Turn.{
  Loop, World, handler_of, on_event, on_read, on_write, on_error, call, handle_event, handle_events,
  run_functors, handle_pending_functors, wait_for_events, turn,
}
use qg_server.EventLoop.Turn.Alive.{IsSound}

abbrev listed : Option ℕ → List ℕ
listed none = []
listed (some cb) = cb ∷ []

-- The callbacks that a handler's events are for: read, write and error.
abbrev pub calls : EventHandler → List ℕ
calls e =
    (if is_readable e && is_reading e then listed e.read_call_back else [])
    ++ ((if is_writeable e && is_writing e then listed e.write_call_back else [])
        ++ (if is_error e then listed e.error_call_back else []))

abbrev pub all_calls : List EventHandler → List ℕ
all_calls [] = []
all_calls (e ∷ es) = calls e ++ all_calls es

-- What a callback leaves as it was.
pub record Untouched (l m : Loop) : Type 0 where
  pub handlers : (h : ℕ) → handler_of h m ≡ handler_of h l
  pub called : m.called ≡ l.called

pub record Leaves (w : World) : Type 0 where
  pub call_back : (cb : ℕ) (l : Loop) → Ends (Untouched l) (w.call_back cb l)
  pub functor : (f : ℕ) (l : Loop) → Ends (Untouched l) (w.functor f l)
  pub poll : (fds : List PollFd) (timeout : ℤ) → Polls w.poll fds timeout

-- The handlers are as they were, and `cbs` have been called.
record Called (cbs : List ℕ) (l m : Loop) : Type 0 where
  handlers : (h : ℕ) → handler_of h m ≡ handler_of h l
  called : m.called ≡ l.called ++ cbs

-- What a turn of `w` that starts with `l` calls, in `m`.
pub record Delivered (w : World) (l m : Loop) : Type 0 where
  pub timeout : ℤ
  pub called :
      m.called
      ≡ l.called
        ++ all_calls (
            seen_handlers l.registry.poller.event_handler_map l.registry.poller.store (
              pending (
                mark
                  (w.poll l.registry.poller.fds (length l.registry.poller.fds) timeout).1
                  l.registry.poller.fds)))

nothing-Called : (l : Loop) → Called [] l l
nothing-Called l = record { handlers = λ h. refl; called = sym (append-nil l.called) }

module _ (w : World) (leaves : Leaves w) where
  call-Called : (cb : Option ℕ) (l : Loop) → Ends (Called (listed cb) l) (call w cb l)
  call-Called none l = ends (nothing-Called l)
  call-Called (some cb) l =
      Ends-weaken (leaves.call_back cb (record l { called = l.called ++ cb ∷ [] }))
        λ m u. record { handlers = u.handlers; called = u.called }

  -- One step after another, where the second is for a handler as the first found it.
  then-Called :
      (l : Loop) {cbs more : List ℕ} {m : Outcome Loop} {f : Loop → Outcome Loop}
      → Ends (Called cbs l) m
      → ((k : Loop) → ((h : ℕ) → handler_of h k ≡ handler_of h l) → Ends (Called more k) (f k))
      → Ends (Called (cbs ++ more) l) (m >>= f)
  then-Called l {cbs} {more} first later = Ends-then first λ k c.
      Ends-weaken (later k c.handlers) λ n d. record {
        handlers = λ h. d.handlers h ∙ c.handlers h;
        called =
            d.called ∙ ap (λ (t : List ℕ). t ++ more) c.called ∙ append_assoc l.called cbs more;
      }

  on_event-Called :
      (test : EventHandler → Bool) (call_back : EventHandler → Option ℕ) (h : ℕ) (e : EventHandler)
      (l : Loop)
      → handler_of h l ≡ e
      → Ends
          (Called (if test e then listed (call_back e) else []) l)
          (on_event w test call_back h l)
  on_event-Called test call_back h e l same = elim (Bool-cases (test e)) [
    | inl asked ↦ rw (same, asked) (call-Called (call_back e) l)
    | inr not_asked ↦ rw (same, not_asked) (ends (nothing-Called l))
  ]

  handle_event-Called :
      (h : ℕ) (e : EventHandler) (l : Loop)
      → handler_of h l ≡ e
      → Ends (Called (calls e) l) (handle_event w h l)
  unfolding handle_event on_read on_write on_error
  handle_event-Called h e l same =
      then-Called l
        (on_event-Called (λ e. is_readable e && is_reading e) (λ e. e.read_call_back) h e l same)
        λ m t.
          then-Called m
            (on_event-Called (λ e. is_writeable e && is_writing e) (λ e. e.write_call_back) h e m
              (t h ∙ same))
            λ n u. on_event-Called is_error (λ e. e.error_call_back) h e n (u h ∙ t h ∙ same)

  handle_events-Called :
      (hs : List ℕ) (seen : ℕ → EventHandler) (l : Loop)
      → ((h : ℕ) → handler_of h l ≡ seen h)
      → Ends (Called (all_calls (map seen hs)) l) (handle_events w hs l)
  unfolding handle_events
  handle_events-Called [] seen l same = ends (nothing-Called l)
  handle_events-Called (h ∷ hs) seen l same =
      then-Called l (handle_event-Called h (seen h) l (same h))
        λ m t. handle_events-Called hs seen m λ k. t k ∙ same k

  run_functors-Called :
      (fs : List ℕ) (l : Loop) → Ends (λ m. m.called ≡ l.called) (run_functors w fs l)
  unfolding run_functors
  run_functors-Called [] l = ends refl
  run_functors-Called (f ∷ fs) l =
      Ends-then (leaves.functor f (record l { ran = l.ran ++ f ∷ [] }))
        λ m u. Ends-weaken (run_functors-Called fs m) λ n e. e ∙ u.called

  -- A wait calls nothing, and what it returns are the handlers of the events that poll stored.
  record Woken (l : Loop) (r : Loop × List ℕ) : Type 0 where
    timeout : ℤ
    called : r.0.called ≡ l.called
    seen :
        map r.0.registry.poller.store r.1
        ≡ seen_handlers l.registry.poller.event_handler_map l.registry.poller.store (
            pending (
              mark
                (w.poll l.registry.poller.fds (length l.registry.poller.fds) timeout).1
                l.registry.poller.fds))

  wait_for_events-Woken : (l : Loop) → IsSound l → Ends (Woken l) (wait_for_events w l)
  unfolding wait_for_events
  wait_for_events-Woken l s =
      let now = w.clock l.timer_queue.reads in
      let time_stamp = next_wait now l.timer_queue.next_time in
      Ends-then
        (wait-Marked w.poll time_stamp l.registry.poller s.watches.indexed
          (leaves.poll l.registry.poller.fds (wait_time time_stamp)))
        λ (poller, found) m.
          ends (record { timeout = wait_time time_stamp; called = refl; seen = m })

  module _ (limit : ℤ) (few : ℕ) (calm : Calm w.clock w.made limit few) where
    -- For a poll that does not fail, callbacks and functions that end and leave the handlers as
    -- they are, and a clock and timers as for handleTimer: a turn of a sound loop, with room in
    -- the heap for the timers that can be made and with more fuel than the work, ends, and has
    -- called, in the order of the descriptors, for each descriptor that poll stored events for, the
    -- callbacks of its handler and no others: the one for reading if the descriptor is, or once
    -- was, found to be readable and reading is waited for, then the one for writing likewise, then
    -- the one for errors if an error was found.
    pub turn_delivers :
        (fuel : ℕ) (l : Loop)
        → IsSound l
        → work limit l.timer_queue.store l.timer_queue.timer_heap < fuel
        → length l.timer_queue.timer_heap
            + few * work limit l.timer_queue.store l.timer_queue.timer_heap
          ≤ max_size
        → Ends (Delivered w l) (turn w fuel l)
    unfolding turn handle_pending_functors
    turn_delivers fuel l s fueled room =
        Ends-then
          (handle_timer_correct w.clock w.made limit few calm fuel l.timer_queue s.timers fueled
            room)
          λ q handled.
            let timed = record l { timer_queue = q } in
            Ends-then
              (wait_for_events-Woken timed (record { timers = handled.valid; watches = s.watches }))
              λ (woken, found) k.
                Ends-then (handle_events-Called found woken.registry.poller.store woken (λ h. refl))
                  λ m c.
                    Ends-weaken
                      (run_functors-Called m.pending_functors (record m { pending_functors = [] }))
                      λ n e. record {
                        timeout = k.timeout;
                        called =
                            e
                            ∙ c.called
                            ∙ ap
                                (λ (t : List ℕ).
                                  t ++ all_calls (map woken.registry.poller.store found))
                                k.called
                            ∙ ap (λ (es : List EventHandler). l.called ++ all_calls es) k.seen;
                      }
