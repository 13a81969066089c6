-- ===== src/EventLoop/Turn/Alive.antt =====
-- A turn of the loop ends, keeps the timers and the handlers in order, and runs what is pending.
use mathlib.Core.List.{append-nil, append_assoc}
use qg_server.Common.{
  ℕ, ◌+◌, ◌*◌, ◌<◌, ◌≤◌, ◌≡◌, refl, sym, ap, ◌∙◌, Bool, ◌&&◌, List, [], ◌∷◌, ◌++◌, Option, none,
  some, Outcome, done, ◌>>=◌, Ends-inv, Ends, ends, Ends-then, Ends-weaken, Ends-branch, length,
}
use qg_server.Common.Int.{ℤ}
use qg_server.TimerHeap.Order.{max_size}
use qg_server.TimerQueue.{TimerQueue, handle_timer}
use qg_server.TimerQueue.Settled.{Handled}
use qg_server.TimerQueue.Invariant.{IsValid}
use qg_server.TimerQueue.Work.{work}
use qg_server.TimerQueue.Termination.{Calm, handle_timer_correct}
use qg_server.EventHandler.{
  EventHandler, is_readable, is_reading, is_writeable, is_writing, is_error,
}
use qg_server.Pollpoller.{PollFd}
use qg_server.Pollpoller.Wait.{wait_time}
use qg_server.Pollpoller.Wait.Found.{Polls, wait-Waited}
use qg_server.EventLoop.Registry.Watching.{Watches}
use qg_server.EventLoop.Timers.{next_wait}
use qg_server.EventLoop.Turn.{
  Loop, World, on_event, on_read, on_write, on_error, call, handle_event, handle_events,
  run_functors, handle_pending_functors, wait_for_events, turn,
}

pub record IsSound (l : Loop) : Type 0 where
  pub timers : IsValid l.timer_queue
  pub watches : Watches l.registry

-- What a callback or a function may do: it keeps the loop sound, may add functions after those that
-- are pending, and runs none itself, and no timer.
pub record Kept (l m : Loop) : Type 0 where
  pub sound : IsSound m
  pub added : List ℕ
  pub pending : m.pending_functors ≡ l.pending_functors ++ added
  pub ran : m.ran ≡ l.ran
  pub fired : m.timer_queue.fired ≡ l.timer_queue.fired

-- What a turn leaves in `m`: the timer queue `timed` after handleTimer, the loop `woken` with the
-- handlers `found` after the wait, the loop `after` once these handlers were handled, and what was
-- run at the end.
pub record Ran (w : World) (fuel : ℕ) (limit : ℤ) (l m : Loop) : Type 0 where
  pub sound : IsSound m
  pub timed : TimerQueue
  pub timers : handle_timer w.clock w.made fuel l.timer_queue ≡ done timed
  pub handled : Handled w.clock limit l.timer_queue timed
  pub fired : m.timer_queue.fired ≡ timed.fired
  pub woken : Loop
  pub found : List ℕ
  pub waited : wait_for_events w (record l { timer_queue = timed }) ≡ done (woken, found)
  pub after : Loop
  pub events : handle_events w found woken ≡ done after
  pub added : List ℕ
  pub pending : after.pending_functors ≡ l.pending_functors ++ added
  pub ran : m.ran ≡ l.ran ++ after.pending_functors

pub record Behaves (w : World) : Type 0 where
  pub call_back : (cb : ℕ) (l : Loop) → IsSound l → Ends (Kept l) (w.call_back cb l)
  pub functor : (f : ℕ) (l : Loop) → IsSound l → Ends (Kept l) (w.functor f l)
  pub poll : (fds : List PollFd) (timeout : ℤ) → Polls w.poll fds timeout

Kept-refl : (l : Loop) → IsSound l → Kept l l
Kept-refl l s = record {
  sound = s;
  added = [];
  pending = sym (append-nil l.pending_functors);
  ran = refl;
  fired = refl;
}

Kept-trans : (l m n : Loop) → Kept l m → Kept m n → Kept l n
Kept-trans l m n a b = record {
  sound = b.sound;
  added = a.added ++ b.added;
  pending =
      b.pending
      ∙ ap (λ (fs : List ℕ). fs ++ b.added) a.pending
      ∙ append_assoc l.pending_functors a.added b.added;
  ran = b.ran ∙ a.ran;
  fired = b.fired ∙ a.fired;
}

module _ (w : World) (behaves : Behaves w) where
  call-Kept : (cb : Option ℕ) (l : Loop) → IsSound l → Ends (Kept l) (call w cb l)
  call-Kept none l s = ends (Kept-refl l s)
  call-Kept (some cb) l s =
      Ends-weaken
        (behaves.call_back cb (record l { called = l.called ++ cb ∷ [] })
          (record { timers = s.timers; watches = s.watches }))
        λ m k. record {
          sound = k.sound;
          added = k.added;
          pending = k.pending;
          ran = k.ran;
          fired = k.fired;
        }

  on_event-Kept :
      (test : EventHandler → Bool) (call_back : EventHandler → Option ℕ) (h : ℕ) (l : Loop)
      → IsSound l
      → Ends (Kept l) (on_event w test call_back h l)
  on_event-Kept test call_back h l s =
      Ends-branch (test (l.registry.poller.store h))
        (λ _. call-Kept (call_back (l.registry.poller.store h)) l s) (λ _. ends (Kept-refl l s))

  -- One step after another.
  then-Kept :
      (l : Loop) {m : Outcome Loop} {f : Loop → Outcome Loop}
      → Ends (Kept l) m
      → ((k : Loop) → IsSound k → Ends (Kept k) (f k))
      → Ends (Kept l) (m >>= f)
  then-Kept l first later =
      Ends-then first λ m k. Ends-weaken (later m k.sound) λ n j. Kept-trans l m n k j

  on_read-Kept : (h : ℕ) (l : Loop) → IsSound l → Ends (Kept l) (on_read w h l)
  unfolding on_read
  on_read-Kept = on_event-Kept (λ e. is_readable e && is_reading e) (λ e. e.read_call_back)

  on_write-Kept : (h : ℕ) (l : Loop) → IsSound l → Ends (Kept l) (on_write w h l)
  unfolding on_write
  on_write-Kept = on_event-Kept (λ e. is_writeable e && is_writing e) (λ e. e.write_call_back)

  on_error-Kept : (h : ℕ) (l : Loop) → IsSound l → Ends (Kept l) (on_error w h l)
  unfolding on_error
  on_error-Kept = on_event-Kept is_error (λ e. e.error_call_back)

  handle_event-Kept : (h : ℕ) (l : Loop) → IsSound l → Ends (Kept l) (handle_event w h l)
  unfolding handle_event
  handle_event-Kept h l s =
      then-Kept l (on_read-Kept h l s) λ m t. then-Kept m (on_write-Kept h m t) (on_error-Kept h)

  handle_events-Kept : (hs : List ℕ) (l : Loop) → IsSound l → Ends (Kept l) (handle_events w hs l)
  unfolding handle_events
  handle_events-Kept [] l s = ends (Kept-refl l s)
  handle_events-Kept (h ∷ hs) l s =
      then-Kept l (handle_event-Kept h l s) λ m t. handle_events-Kept hs m t

  run_functors-runs :
      (fs : List ℕ) (l : Loop)
      → IsSound l
      → Ends
          (λ m. IsSound m × (m.ran ≡ l.ran ++ fs) × (m.timer_queue.fired ≡ l.timer_queue.fired))
          (run_functors w fs l)
  unfolding run_functors
  run_functors-runs [] l s = ends (s, sym (append-nil l.ran), refl)
  run_functors-runs (f ∷ fs) l s =
      Ends-then
        (behaves.functor f (record l { ran = l.ran ++ f ∷ [] })
          (record { timers = s.timers; watches = s.watches }))
        λ m k. Ends-weaken (run_functors-runs fs m k.sound) λ n (sound, ran, fired). (
          sound,
          ran ∙ ap (λ (r : List ℕ). r ++ fs) k.ran ∙ append_assoc l.ran (f ∷ []) fs,
          fired ∙ k.fired,
        )

  wait_for_events-Kept : (l : Loop) → IsSound l → Ends (λ r. Kept l r.0) (wait_for_events w l)
  unfolding wait_for_events
  wait_for_events-Kept l s =
      let now = w.clock l.timer_queue.reads in
      let time_stamp = next_wait now l.timer_queue.next_time in
      let v = s.timers in
      Ends-then
        (wait-Waited w.poll time_stamp l.registry.poller s.watches.indexed
          (behaves.poll l.registry.poller.fds (wait_time time_stamp)))
        λ (poller, found) waited. ends (record {
          sound = record {
            timers = record {
              heap = v.heap;
              distinct = v.distinct;
              known = v.known;
              early = v.early;
              slow = v.slow;
            };
            watches = record {
              indexed = waited.indexed;
              same = λ fd. s.watches.same fd ∙ sym (ap (λ (m : ℕ → Option ℕ). m fd) waited.entries);
            };
          };
          added = [];
          pending = sym (append-nil l.pending_functors);
          ran = refl;
          fired = refl;
        })

  module _ (limit : ℤ) (few : ℕ) (calm : Calm w.clock w.made limit few) where
    -- For a poll that does not fail, callbacks and functions that end, keep the loop sound, run no
    -- timers and do no more to the pending functions than to add some, and a clock and timers as
    -- for handleTimer: a turn of a sound loop, with room in the heap for the timers that can be
    -- made and with more fuel than the work, ends and leaves the loop sound. The timers that it
    -- runs are those that handleTimer runs, so that none is left that is due by its last reading of
    -- the clock. After that the handlers that the wait finds are handled, and then exactly the
    -- functions that are pending are run, once each and in order: those that were pending at the
    -- start of the turn, and after these what the callbacks of the handlers added.
    pub turn_runs :
        (fuel : ℕ) (l : Loop)
        → IsSound l
        → work limit l.timer_queue.store l.timer_queue.timer_heap < fuel
        → length l.timer_queue.timer_heap
            + few * work limit l.timer_queue.store l.timer_queue.timer_heap
          ≤ max_size
        → Ends (Ran w fuel limit l) (turn w fuel l)
    unfolding turn handle_pending_functors
    turn_runs fuel l s fueled room =
        let (q, timers, handled) = Ends-inv (
          handle_timer_correct w.clock w.made limit few calm fuel l.timer_queue s.timers fueled
            room) in
        let timed = record l { timer_queue = q } in
        let sound : IsSound timed = record { timers = handled.valid; watches = s.watches } in
        let ((woken, found), waited, k) = Ends-inv (wait_for_events-Kept timed sound) in
        let (m, events, j) = Ends-inv (handle_events-Kept found woken k.sound) in
        let both = Kept-trans timed woken m k j in
        rw (timers, waited, events)
          (Ends-weaken
            (run_functors-runs m.pending_functors (record m { pending_functors = [] })
              (record { timers = j.sound.timers; watches = j.sound.watches }))
            λ n (last, ran, fired). record {
              sound = last;
              timed = q;
              timers = timers;
              handled = handled;
              fired = fired ∙ both.fired;
              woken = woken;
              found = found;
              waited = waited;
              after = m;
              events = events;
              added = both.added;
              pending = both.pending;
              ran = ran ∙ ap (λ (r : List ℕ). r ++ m.pending_functors) both.ran;
            })
