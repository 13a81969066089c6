-- ===== src/EventLoop/Timers/Sleep.antt =====
-- How long the loop sleeps in poll.
use native.Mathlib.Decide.{dec_lt}
use qg_server.Common.{ℕ, ◌+◌, ◌-◌, ◌*◌, ◌/◌, ◌%◌, ◌^◌, ◌≤◌, ◌<◌, ◌≡◌, ◌≢◌, arith, ◌⊎◌, inl, inr}
use qg_server.Common.Int.{pos, ◌-ℤ◌}
use qg_server.TimeStamp
use qg_server.TimeStamp.{TimeStamp}
use qg_server.Pollpoller.Wait.{wait_time, to_int}
use qg_server.EventLoop.Timers.{next_wait, timeout}

abbrev pub at : ℕ → TimeStamp
at n = record { unix_time_stamp = pos n }

-- Before the first timer, less than 2^31 milliseconds ahead, expires, the timeout of poll is the
-- time that is left in whole milliseconds: the loop does not sleep past the timer, nor wakes a
-- millisecond or more before it.
timeout_before :
    (n m : ℕ)
    → n < m
    → m - n < 2 ^ 31 * 1000
    → (ms : ℕ) × (timeout (at n) (at m) ≡ pos ms) × (1000 * ms ≤ m - n) × (m - n < 1000 * ms + 1000)
unfolding next_wait wait_time TimeStamp.sub TimeStamp.to_milliseconds ◌-ℤ◌ TimeStamp.epoch
timeout_before n m less near = ((m - n) / 1000, ground arith, omega arith, omega arith)

-- Once the first timer has expired, unless the milliseconds since 1970 happen to be a multiple of
-- 2^32, poll does not return at once: its timeout is the absolute time of the timer.
timeout_after :
    (n m : ℕ)
    → 0 < m
    → m ≤ n
    → (m / 1000) % 2 ^ 32 ≢ 0
    → (timeout (at n) (at m) ≡ to_int (pos (m / 1000))) × (timeout (at n) (at m) ≢ pos 0)
unfolding next_wait wait_time TimeStamp.to_milliseconds TimeStamp.epoch
timeout_after n m some_time late odd = (ground arith, ground arith)

-- The first timer is at `m`, less than 2^31 milliseconds ahead. Before it expires, the timeout of
-- poll is the time that is left in whole milliseconds: the loop does not sleep past the timer, nor
-- wakes a millisecond or more before it. Once it has expired, poll does not return at once, unless
-- the milliseconds from 1970 to the timer happen to be a multiple of 2^32: its timeout is the
-- absolute time of the timer.
pub timeout_cases :
    (n m : ℕ)
    → 0 < m
    → m - n < 2 ^ 31 * 1000
    → m / 1000 % 2 ^ 32 ≢ 0
    → (n < m)
        × ((ms : ℕ) × (timeout (at n) (at m) ≡ pos ms)
            × (1000 * ms ≤ m - n)
            × (m - n < 1000 * ms + 1000))
      ⊎ (m ≤ n)
        × (timeout (at n) (at m) ≡ to_int (pos (m / 1000)))
        × (timeout (at n) (at m) ≢ pos 0)
timeout_cases n m some_time near odd = elim (dec_lt n m) [
  | yes before ↦ inl (before, timeout_before n m before near)
  | no after ↦
      let late : m ≤ n = omega (arith, after) in
      let (absolute, waits) = timeout_after n m some_time late odd in inr (late, absolute, waits)
]
