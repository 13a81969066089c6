-- ===== src/EventLoop/Timers.antt =====
-- `runAfter`, `runAt` and `runEvery` of src/core/event_loop.cpp, and how long `loop` waits for the
-- first timer. `now` is what `TimeStamp::Now` returns. The number of seconds is an integer.
pub mod Sleep
pub mod Due
mod Tests
use qg_server.Common.{ℕ, Bool, true, false, Outcome, done, if◌then◌else◌}
use qg_server.Common.Int.{ℤ, pos}
use qg_server.TimeStamp
use qg_server.TimeStamp.{TimeStamp}
use qg_server.Timer.{Timer}
use qg_server.TimerQueue.{TimerQueue, schedule}
use qg_server.Pollpoller.Wait.{wait_time}

-- The timer that runAfter makes.
abbrev pub after_timer : TimeStamp → ℤ → ℕ → Timer
after_timer now time cb = record {
  expire = TimeStamp.add_time now time;
  repeat = false;
  interval = pos 0;
  timer_handler = cb;
}

unfoldable pub run_after : TimeStamp → ℤ → ℕ → TimerQueue → Outcome TimerQueue
run_after now time cb q = schedule q (after_timer now time cb)

unfoldable pub run_at : TimeStamp → ℕ → TimerQueue → Outcome TimerQueue
run_at time cb q =
    schedule q (record { expire = time; repeat = false; interval = pos 0; timer_handler = cb })

unfoldable pub run_every : TimeStamp → ℤ → ℕ → TimerQueue → Outcome TimerQueue
run_every now interval cb q =
    schedule q (record { expire = now; repeat = true; interval = interval; timer_handler = cb })

-- What loop passes to Wait.
unfoldable pub next_wait : TimeStamp → TimeStamp → TimeStamp
next_wait now next_time =
    if TimeStamp.eq next_time TimeStamp.epoch
    then next_time
    else if TimeStamp.lt now next_time
    then TimeStamp.sub next_time now
    else next_time

-- The timeout of poll, in milliseconds.
abbrev pub timeout : TimeStamp → TimeStamp → ℤ
timeout now next_time = wait_time (next_wait now next_time)
