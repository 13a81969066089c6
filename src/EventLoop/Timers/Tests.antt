-- ===== src/EventLoop/Timers/Tests.antt =====
-- A loop whose first timer is for 10 seconds after 1970.
use qg_server.Common.{ℕ, ◌+◌, ◌-◌, ◌*◌, ◌/◌, ◌≤◌, ◌<◌, ◌≡◌, ◌≢◌, ◌⊎◌, true, false, refl, arith}
use qg_server.Common.Int.{pos}
use qg_server.TimeStamp.{now}
use qg_server.Timer
use qg_server.Pollpoller.Wait.{to_int}
use qg_server.EventLoop.Timers.{timeout, after_timer}
use qg_server.EventLoop.Timers.Due.{after_due}
use qg_server.EventLoop.Timers.Sleep.{at, timeout_cases}

timeout_cases_example :
    (7000000 < 10000000)
      × ((ms : ℕ) × (timeout (at 7000000) (at 10000000) ≡ pos ms)
          × (1000 * ms ≤ 10000000 - 7000000)
          × (10000000 - 7000000 < 1000 * ms + 1000))
    ⊎ (10000000 ≤ 7000000)
      × (timeout (at 7000000) (at 10000000) ≡ to_int (pos (10000000 / 1000)))
      × (timeout (at 7000000) (at 10000000) ≢ pos 0)
timeout_cases_example = timeout_cases 7000000 10000000 (omega arith) (omega arith) (omega arith)

-- A timer for 3 seconds, set at 7.9 seconds, has timed out at 10 seconds.
after_due_example :
    (Timer.timeout (now (10000000 / 1000000)) (after_timer (now (7900000 / 1000000)) (pos 3) 5)
        ≡ true)
      × (7900000 + 3 * 1000000 < 10000000 + 1000000)
    ⊎ (Timer.timeout (now (10000000 / 1000000)) (after_timer (now (7900000 / 1000000)) (pos 3) 5)
        ≡ false)
      × (10000000 < 7900000 + 3 * 1000000)
after_due_example = after_due (λ t. t / 1000000) (λ t. refl) 7900000 10000000 3 5

timed_out_early : Timer.timeout (now 10) (after_timer (now 7) (pos 3) 5) ≡ true
unfolding qg_server.TimeStamp.add_time qg_server.Common.Int.◌+ℤ◌ qg_server.Common.Int.◌*ℤ◌
timed_out_early = refl
