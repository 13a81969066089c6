-- ===== src/EventLoop/Timers/Due.antt =====
-- When a timer of runAfter is due, by a clock that counts whole seconds.
use qg_server.Common.{
  ℕ, ◌+◌, ◌*◌, ◌/◌, ◌<◌, ◌≡◌, ◌⊎◌, inl, inr, true, false, Bool-cases, leb, arith,
}
use qg_server.Common.Int.{pos, ◌+ℤ◌, ◌*ℤ◌}
use qg_server.TimeStamp
use qg_server.TimeStamp.{micro_seconds_per_second, now}
use qg_server.Timer
use qg_server.EventLoop.Timers.{after_timer}

product : (a b : ℕ) → pos a *ℤ pos b ≡ pos (a * b)
unfolding ◌*ℤ◌
product a b = ground arith

add_time-now : (res n : ℕ) → TimeStamp.add_time (now res) (pos n) ≡ now (res + n)
unfolding TimeStamp.add_time ◌+ℤ◌
add_time-now res n =
    let sum : res * micro_seconds_per_second + n * micro_seconds_per_second
        ≡ (res + n) * micro_seconds_per_second =
      omega arith in
    rw (product n micro_seconds_per_second, sum) (ground arith)

-- A clock that shows `seen` of the seconds, and a timer `n` seconds after it showed `from`.
due_cases :
    (early late n from seen cb : ℕ)
    → from ≡ early / micro_seconds_per_second
    → seen ≡ late / micro_seconds_per_second
    → (Timer.timeout (now seen) (after_timer (now from) (pos n) cb) ≡ true)
        × (early + n * micro_seconds_per_second < late + micro_seconds_per_second)
      ⊎ (Timer.timeout (now seen) (after_timer (now from) (pos n) cb) ≡ false)
        × (late < early + n * micro_seconds_per_second)
due_cases early late n from seen cb first second =
    rw (add_time-now from n) (elim (Bool-cases (leb (from + n) seen)) [
      | inl due ↦ inl (ground (arith, due), ground (arith, first, second, due))
      | inr not_due ↦ inr (ground (arith, not_due), ground (arith, first, second, not_due))
    ])

-- For to_time_t that cuts off the part of a second, as it may: a timer that runAfter sets `n`
-- seconds ahead, when the clock of the system is at `early` microseconds, has either timed out when
-- it is at `late`, and more than `n` seconds less one have passed, or has not, and fewer than `n`
-- seconds have passed.
pub after_due :
    (to_time_t : ℕ → ℕ)
    → ((t : ℕ) → to_time_t t ≡ t / micro_seconds_per_second)
    → (early late n cb : ℕ)
    → (Timer.timeout (now (to_time_t late)) (after_timer (now (to_time_t early)) (pos n) cb) ≡ true)
        × (early + n * micro_seconds_per_second < late + micro_seconds_per_second)
      ⊎ (Timer.timeout (now (to_time_t late)) (after_timer (now (to_time_t early)) (pos n) cb)
          ≡ false)
        × (late < early + n * micro_seconds_per_second)
after_due to_time_t cuts early late n cb =
    due_cases early late n (to_time_t early) (to_time_t late) cb (cuts early) (cuts late)
