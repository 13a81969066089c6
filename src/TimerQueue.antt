-- ===== src/TimerQueue.antt =====
-- src/base/timer_queue.h and timer_queue.cpp, the branch for Apple systems: the timers of an event
-- loop and the time of the next one. The branch for Linux names members that the class does not
-- declare and does not compile. `store` holds the timers that pointers point to, `fresh` is the
-- next pointer, and `fired` lists the callbacks that were run, oldest first.
pub mod Invariant
pub mod Add
pub mod Handle
pub mod Work
pub mod Fires
pub mod Settled
pub mod Termination
pub mod Hang
pub mod Timerfd
pub mod Tests
use qg_server.Common.{
  ℕ, zero, suc, ◌+◌, Bool, true, false, ◌||◌, List, [], ◌∷◌, ◌++◌, Option, none, some,
  if◌then◌else◌, is_empty,
}
use qg_server.Common.Results.{Outcome, done, exhausted, ◌>>=◌}
use qg_server.Common.Int.{ℤ, pos}
use qg_server.TimeStamp
use qg_server.TimeStamp.{TimeStamp}
use qg_server.Timer
use qg_server.Timer.{Timer, Store}
use qg_server.TimerHeap

pub record TimerQueue : Type 0 where
  pub timer_heap : List ℕ
  pub next_time : TimeStamp
  pub store : Store
  pub fresh : ℕ
  pub reads : ℕ
  pub fired : List ℕ

-- TimerQueue::_push
push : TimerQueue → ℕ → Outcome (TimerQueue × Bool)
push q timer = do
  let old_top = TimerHeap.top q.timer_heap
  heap ← TimerHeap.add_timer q.store q.timer_heap timer
  let first : Bool = elim old_top [ none ↦ true | some p ↦ Timer.lt (q.store timer) (q.store p) ]
  done (record q { timer_heap = heap }, first)

-- The update of `next_time_` in `addTimer`.
note_earlier : TimerQueue → TimeStamp → TimerQueue
note_earlier q new_time =
    if TimeStamp.eq q.next_time TimeStamp.epoch || TimeStamp.lt new_time q.next_time
    then record q { next_time = new_time }
    else q

unfoldable pub add_timer : TimerQueue → ℕ → Outcome TimerQueue
unfolding push note_earlier
add_timer q timer = do
  (grown, first) ← push q timer
  done (if first then note_earlier grown (q.store timer).expire else grown)

-- `addTimer(std::make_shared<Timer>(…))`
unfoldable pub schedule : TimerQueue → Timer → Outcome TimerQueue
unfolding add_timer
schedule q t =
    add_timer (record q { store = Timer.store_at q.store q.fresh t; fresh = suc q.fresh }) q.fresh

pub schedule_all : TimerQueue → List Timer → Outcome TimerQueue
schedule_all q [] = done q
schedule_all q (t ∷ ts) = schedule q t >>= λ grown. schedule_all grown ts

-- A timer that repeats is moved on and put back; any other is taken out.
pub requeue : TimerQueue → ℕ → Outcome TimerQueue
requeue q p =
    if (q.store p).repeat
    then (do
      let st = Timer.store_at q.store p (Timer.restart (q.store p))
      low ← TimerHeap.pop_timer st q.timer_heap
      heap ← TimerHeap.add_timer st low p
      done (record q { store = st; timer_heap = heap }))
    else (do low ← TimerHeap.pop_timer q.store q.timer_heap; done (record q { timer_heap = low }))

-- The update of `next_time_` before the `break`.
pub note_later : TimerQueue → ℕ → TimerQueue
note_later q p =
    if TimeStamp.eq q.next_time TimeStamp.epoch || TimeStamp.gt (q.store p).expire q.next_time
    then record q { next_time = (q.store p).expire }
    else q

-- latestTimer->run(). `made` gives the timers that a callback makes and adds to its loop, in
-- order, by the state in which it is run.
pub run_timer : (ℕ → TimerQueue → List Timer) → TimerQueue → ℕ → Outcome TimerQueue
unfolding schedule_all
run_timer made q p =
    let handler = (q.store p).timer_handler in
    let called = record q { fired = q.fired ++ handler ∷ [] } in
    schedule_all called (made handler called)

-- `clock n` is what the n-th reading of the clock returns.
module _ (clock : ℕ → TimeStamp) (made : ℕ → TimerQueue → List Timer) where
  pub handle_loop : ℕ → TimerQueue → Outcome TimerQueue
  unfolding requeue run_timer note_later
  handle_loop zero q = exhausted
  handle_loop (suc fuel) q = elim (TimerHeap.top q.timer_heap) [
    | none ↦ done q
    | some p ↦
        let seen = record q { reads = suc q.reads } in
        let rest : Outcome TimerQueue = do
          moved ← requeue seen p
          called ← run_timer made moved p
          handle_loop fuel called
        in if Timer.timeout (clock q.reads) (q.store p) then rest else done (note_later seen p)
  ]

  -- TimerQueue::handleTimer, with fuel for its loop.
  pub handle_timer : ℕ → TimerQueue → Outcome TimerQueue
  unfolding handle_loop
  handle_timer fuel q = do
    r ← handle_loop fuel q
    done (if is_empty r.timer_heap then record r { next_time = TimeStamp.epoch } else r)

-- TimerQueue::TimerQueue() on Apple systems.
unfoldable pub new_timer_queue : TimerQueue
new_timer_queue = record {
  timer_heap = [];
  next_time = TimeStamp.epoch;
  store =
      λ _. record { expire = TimeStamp.epoch; repeat = false; interval = pos 0; timer_handler = 0 };
  fresh = 0;
  reads = 0;
  fired = [];
}
