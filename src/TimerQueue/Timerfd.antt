-- ===== src/TimerQueue/Timerfd.antt =====
-- `resetTimerfd` of src/base/timer_queue.cpp, the branch for Linux: what a timer of the kernel is
-- set to, so that it expires at a point in time. `now` is what `TimeStamp::Now` returns.
use qg_server.Common.{
  ℕ, suc, ◌+◌, ◌*◌, ◌/◌, ◌%◌, ◌<◌, ◌≤◌, ◌≡◌, ◌⊎◌, refl, ap, inl, inr, arith, true, false,
  Bool-cases, if◌then◌else◌,
}
use qg_server.Common.Int.{
  ℤ, pos, negsuc, sub_ℕ, ltb_ℤ, pos_part, neg_part, ◌-ℤ◌, ◌+ℤ◌, ◌*ℤ◌, ◌<ℤ◌, int_laws, eq_of_parts,
  -ℤ_parts,
}
use qg_server.TimeStamp.{TimeStamp, micro_seconds_per_second, div_trunc}

-- The remainder in C++, which has the sign of the dividend.
abbrev mod_trunc : ℤ → ℕ → ℤ
mod_trunc (pos n) d = pos (n % d)
mod_trunc (negsuc n) d = sub_ℕ 0 (suc n % d)

-- struct timespec
pub record Timespec : Type 0 where
  pub tv_sec : ℤ
  pub tv_nsec : ℤ

abbrev pub at_least_100 : ℤ → ℤ
at_least_100 diff = if ltb_ℤ diff (pos 100) then pos 100 else diff

abbrev timespec_of : ℤ → Timespec
timespec_of diff = record {
  tv_sec = div_trunc diff micro_seconds_per_second;
  tv_nsec = mod_trunc diff micro_seconds_per_second *ℤ pos 1000;
}

-- resetTimerfd: the time to wait that is given to timerfd_settime.
unfoldable pub reset_timerfd : TimeStamp → TimeStamp → Timespec
reset_timerfd now new_time =
    timespec_of (at_least_100 (new_time.unix_time_stamp -ℤ now.unix_time_stamp))

-- A time to wait that the kernel takes, and that is not 0, which would stop the timer, in
-- microseconds `n`.
pub record Arms (n : ℕ) (t : Timespec) : Type 0 where
  pub sec : ℕ
  pub nsec : ℕ
  pub tv_sec : t.tv_sec ≡ pos sec
  pub tv_nsec : t.tv_nsec ≡ pos nsec
  pub in_range : nsec < 1000 * 1000 * 1000
  pub some_time : 0 < sec + nsec
  pub whole : sec * (1000 * 1000 * 1000) + nsec ≡ n * 1000

timespec_of-Arms : (n : ℕ) → 0 < n → Arms n (timespec_of (pos n))
unfolding ◌*ℤ◌
timespec_of-Arms n h = record {
  sec = n / micro_seconds_per_second;
  nsec = n % micro_seconds_per_second * 1000;
  tv_sec = refl;
  tv_nsec = ground arith;
  in_range = omega arith;
  some_time = omega (arith, h);
  whole = omega arith;
}

-- The timer waits `wait` microseconds, and then expires at `new_time`, or, where that is less than
-- 100 microseconds ahead or past, after 100 microseconds.
pub record Fires (now new_time : TimeStamp) (t : Timespec) : Type 0 where
  pub wait : ℕ
  pub arms : Arms wait t
  pub least : 100 ≤ wait
  pub on_time :
      (now.unix_time_stamp +ℤ pos wait ≡ new_time.unix_time_stamp)
      ⊎ ((wait ≡ 100) × (new_time.unix_time_stamp <ℤ (now.unix_time_stamp +ℤ pos 100)))

sum_of_diff : (a b d : ℤ) → a -ℤ b ≡ d → b +ℤ d ≡ a
sum_of_diff a b d e =
    eq_of_parts (b +ℤ d) a (omega (int_laws, -ℤ_parts a b, ap pos_part e, ap neg_part e))

later-Fires :
    (now new_time : TimeStamp) (diff : ℤ)
    → new_time.unix_time_stamp -ℤ now.unix_time_stamp ≡ diff
    → ltb_ℤ diff (pos 100) ≡ false
    → Fires now new_time (timespec_of diff)
later-Fires now new_time (pos n) e later =
    let enough : 100 ≤ n = ground (arith, later) in
    record {
      wait = n;
      arms = timespec_of-Arms n (omega (arith, enough));
      least = enough;
      on_time = inl (sum_of_diff new_time.unix_time_stamp now.unix_time_stamp (pos n) e);
    }
later-Fires now new_time (negsuc n) e later = absurd (ground (arith, later))

less_of_diff : (a b c d : ℤ) → a -ℤ b ≡ d → ltb_ℤ d c ≡ true → a <ℤ (b +ℤ c)
less_of_diff a b c d e h =
    let less : d <ℤ c = ground (arith, h) in
    omega (int_laws, -ℤ_parts a b, less, ap pos_part e, ap neg_part e)

diff-Fires :
    (now new_time : TimeStamp) (diff : ℤ)
    → new_time.unix_time_stamp -ℤ now.unix_time_stamp ≡ diff
    → Fires now new_time (timespec_of (at_least_100 diff))
diff-Fires now new_time diff e = elim (Bool-cases (ltb_ℤ diff (pos 100))) [
  | inl soon ↦ rw soon (record {
    wait = 100;
    arms = timespec_of-Arms 100 (omega arith);
    least = omega arith;
    on_time =
        inr (refl, less_of_diff new_time.unix_time_stamp now.unix_time_stamp (pos 100) diff e soon);
  })
  | inr later ↦ rw later (later-Fires now new_time diff e later)
]

-- Whatever the clock reads and whatever the time is set to, resetTimerfd gives the kernel a time to
-- wait that is not 0, with fewer than 10^9 nanoseconds beside the seconds, and that is the
-- microseconds from the clock to the time, or 100 microseconds where these are fewer than that.
pub reset_timerfd-Fires :
    (now new_time : TimeStamp) → Fires now new_time (reset_timerfd now new_time)
unfolding reset_timerfd
reset_timerfd-Fires now new_time =
    diff-Fires now new_time (new_time.unix_time_stamp -ℤ now.unix_time_stamp) refl
