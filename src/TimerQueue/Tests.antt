-- ===== src/TimerQueue/Tests.antt =====
-- A queue at concrete timers: pointer 0 repeats every second from time 5, pointer 1 is for time 7.
use mathlib.Core.List.{Nodup-cons, Nodup-nil, forall_mem-cons, not-mem-nil}
use native.Mathlib.Bridge.{le_prop}
use mathlib.Core.HLevel.{Π_prop}
use qg_server.Common.{
  ℕ, zero, suc, Mem, ◌+◌, ◌≤◌, ◌<◌, ◌≡◌, refl, inl, inr, Bool, true, false, List, [], ◌∷◌, arith,
  ◌==◌, if◌then◌else◌, get_or,
}
use qg_server.Common.Results.{done, exhausted, ◌>>=◌, Ends}
use qg_server.Common.Int.{ℤ, pos, ◌≤ℤ◌}
use qg_server.TimeStamp
use qg_server.TimeStamp.{TimeStamp}
use qg_server.Timer.{Timer, Store}
use qg_server.TimerQueue.{TimerQueue, schedule, handle_timer}
use qg_server.TimerQueue.Hang.{Spins, handle_timer_hangs}
use qg_server.TimerQueue.Timerfd.{reset_timerfd, Fires, reset_timerfd-Fires}
use qg_server.TimerHeap.Order.{IsHeap}
use qg_server.TimerQueue.Invariant.{IsSlow, IsValid}
use qg_server.TimerQueue.Add.{Added, schedule_correct}
use qg_server.TimerQueue.Work.{total}
use qg_server.TimerQueue.Settled.{Handled}
use qg_server.TimerQueue.Termination.{Calm, handle_timer_correct}

abbrev at : ℕ → TimeStamp
at n = record { unix_time_stamp = pos n }

abbrev repeating : Timer
repeating = record { expire = at 5; repeat = true; interval = pos 1; timer_handler = 20 }

abbrev single : Timer
single = record { expire = at 7; repeat = false; interval = pos 0; timer_handler = 21 }

abbrev pub two_timers : TimerQueue
two_timers = record {
  timer_heap = 0 ∷ 1 ∷ [];
  next_time = at 5;
  store = λ p. if p == 0 then repeating else single;
  fresh = 2;
  reads = 0;
  fired = [];
}

two_timers-IsHeap : IsHeap two_timers.store two_timers.timer_heap
unfolding get_or
two_timers-IsHeap zero p q = absurd (omega arith)
two_timers-IsHeap (suc zero) p q = omega arith
two_timers-IsHeap (suc (suc c)) p q = absurd (omega arith)

-- What holds at both pointers holds at all of the heap.
at_both :
    (P : ℕ → Type 0) → ((p : ℕ) → IsProp (P p)) → P 0 → P 1 → (p : ℕ) → Mem p (0 ∷ 1 ∷ []) → P p
at_both P prop first second =
    (forall_mem-cons {p = P} prop).1
      (first, (forall_mem-cons {p = P} prop).1 (second, λ p m. absurd (not-mem-nil m)))

above_zero : (p : ℕ) → Mem p (1 ∷ []) → 0 < p
above_zero =
    (forall_mem-cons {p = λ p. 0 < p} λ p. le_prop).1 (omega arith, λ p m. absurd (not-mem-nil m))

pub two_timers-IsValid : IsValid two_timers
two_timers-IsValid = record {
  heap = two_timers-IsHeap;
  distinct = Nodup-cons.1 (
    (λ m. let less = above_zero 0 m in absurd (omega arith)),
    Nodup-cons.1 (not-mem-nil, Nodup-nil),
  );
  known = at_both (λ p. p < 2) (λ p. le_prop) (omega arith) (omega arith);
  early = inr (
      at_both (λ p. pos 5 ≤ℤ (two_timers.store p).expire.unix_time_stamp) (λ p. le_prop)
        (omega arith) (omega arith));
  slow =
      at_both (λ p. IsSlow (two_timers.store p)) (λ p. Π_prop λ _. le_prop) (λ e. omega arith)
        (λ (e : false ≡ true). cc);
}

schedule_correct_example : Ends (Added two_timers single) (schedule two_timers single)
schedule_correct_example =
    schedule_correct two_timers single two_timers-IsValid (λ (e : false ≡ true). cc) (omega arith)

abbrev pub at_eight : ℕ → TimeStamp
at_eight _ = at 8

abbrev pub makes_none : ℕ → TimerQueue → List Timer
makes_none _ _ = []

pub calm : Calm at_eight makes_none (pos 8) 0
calm = record { clock_le = λ n. omega arith; late = λ h q. tt; made_le = λ h q. omega arith }

handle_timer_correct_example :
    Ends (Handled at_eight (pos 8) two_timers) (handle_timer at_eight makes_none 100 two_timers)
unfolding total
handle_timer_correct_example =
    handle_timer_correct at_eight makes_none (pos 8) 0 calm 100 two_timers two_timers-IsValid
      (omega arith) (omega arith)

fired_at_eight :
    (handle_timer at_eight makes_none 100 two_timers >>= λ r. done r.fired) ≡ done (20 ∷ 21 ∷ [])
unfolding handle_timer qg_server.TimerHeap.pop_timer qg_server.TimerHeap.add_timer
    qg_server.Timer.restart TimeStamp.add_time qg_server.Common.Int.◌+ℤ◌ qg_server.Common.Int.◌*ℤ◌
    TimeStamp.epoch
fired_at_eight = refl

abbrev at_once : TimerQueue
at_once = record two_timers {
  timer_heap = 0 ∷ [];
  store = λ p. record { expire = at 5; repeat = true; interval = pos 0; timer_handler = 20 };
}

at_once-Spins : Spins (λ n. at (9 + n)) (at_once.store 0)
at_once-Spins = record { repeats = refl; interval = refl; due = λ n. ground arith }

handle_timer_hangs_example :
    handle_timer (λ n. at (9 + n)) (λ handler q. []) 1000 at_once ≡ exhausted
handle_timer_hangs_example =
    handle_timer_hangs (λ n. at (9 + n)) (λ handler q. []) (λ handler q. refl) 1000 at_once 0 refl
      at_once-Spins

abbrev three_seconds : TimeStamp
three_seconds = record { unix_time_stamp = pos 3000007 }

reset_timerfd-Fires_example : Fires (at 5) three_seconds (reset_timerfd (at 5) three_seconds)
reset_timerfd-Fires_example = reset_timerfd-Fires (at 5) three_seconds
