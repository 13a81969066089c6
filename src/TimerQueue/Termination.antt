-- ===== src/TimerQueue/Termination.antt =====
-- `TimerQueue::handleTimer` ends, and what it leaves. The bound on its rounds is the time by which
-- the timers of the heap are overdue, summed up.
use mathlib.Core.List.{mem-cons_self, not-mem-nil}
use qg_server.Common.{
  ℕ, zero, suc, ◌+◌, ◌-◌, ◌*◌, ◌≤◌, ◌<◌, ◌≡◌, refl, inr, List, [], ◌∷◌, ◌++◌, arith, length,
}
use qg_server.Common.Results.{Ends, ends, Ends-then, Ends-weaken, Ends-branch}
use qg_server.Common.Int.{ℤ, ◌≤ℤ◌}
use qg_server.TimeStamp.{TimeStamp}
use qg_server.Timer
use qg_server.Timer.{Timer, Store}
use qg_server.TimerHeap.Order.{max_size}
use qg_server.TimerHeap.Edit.{root_expires_first}
use qg_server.TimerQueue.{TimerQueue, run_timer, handle_loop, handle_timer}
use qg_server.TimerQueue.Invariant.{IsValid}
use qg_server.TimerQueue.Handle.{requeue_correct}
use qg_server.TimerQueue.Work.{work, AllLate, Scheduled, schedule_all-Ends, Moved-work}
use qg_server.TimerQueue.Fires.{Fires, nothing_fired, Moved-Round, Round, Round-Fires}
use qg_server.TimerQueue.Settled.{Handled, Looped, note_later-sets, settled}

-- The clock does not pass `limit` during the call, and a callback makes at most `few` timers,
-- each of which expires after `limit`.
pub record Calm (clock : ℕ → TimeStamp) (made : ℕ → TimerQueue → List Timer) (limit : ℤ) (few : ℕ)
    : Type 0 where
  pub clock_le : (n : ℕ) → (clock n).unix_time_stamp ≤ℤ limit
  pub late : (handler : ℕ) (q : TimerQueue) → AllLate limit (made handler q)
  pub made_le : (handler : ℕ) (q : TimerQueue) → length (made handler q) ≤ few

-- What a callback leaves.
record Ran (limit : ℤ) (few : ℕ) (q : TimerQueue) (p : ℕ) (r : TimerQueue) : Type 0 where
  count : ℕ
  count_le : count ≤ few
  scheduled :
      Scheduled limit count (record q { fired = q.fired ++ (q.store p).timer_handler ∷ [] }) r

-- The reading of the clock before a round runs nothing.
after-Round :
    (limit : ℤ) (q called last : TimerQueue) (p : ℕ) (rest : List ℕ)
    → Round limit (record q { timer_heap = p ∷ rest; reads = suc q.reads }) p rest called
    → Fires limit called last
    → Fires limit (record q { timer_heap = p ∷ rest }) last
after-Round limit q called last p rest round later =
    let f =
      Round-Fires limit (record q { timer_heap = p ∷ rest; reads = suc q.reads }) called last p rest
        refl round later in
    record {
      ran = f.ran;
      fired = f.fired;
      accounted = f.accounted;
      only = λ h m.
          let d = f.only h m in
          record { timer = d.timer; queued = d.queued; runs = d.runs; early = d.early };
    }

room_for : (n k : ℕ) → n + k ≤ max_size → n ≤ max_size
room_for n k h = omega arith

-- The room for the timers of one round and of the rounds that are left.
room_left :
    (n k few w w' : ℕ) → n + few * w ≤ max_size → w' < w → k ≤ n → (k + few) + few * w' ≤ max_size
room_left n k few w w' h less size = grind arith

module _ (clock : ℕ → TimeStamp) (made : ℕ → TimerQueue → List Timer) (limit : ℤ) (few : ℕ)
    (calm : Calm clock made limit few) where
  run_timer-Ends :
      (q : TimerQueue) (p : ℕ)
      → IsValid q
      → length q.timer_heap + few ≤ max_size
      → Ends (Ran limit few q p) (run_timer made q p)
  unfolding run_timer
  run_timer-Ends q p v room =
      let handler = (q.store p).timer_handler in
      let called = record q { fired = q.fired ++ handler ∷ [] } in
      let bound = calm.made_le handler called in
      Ends-weaken
        (schedule_all-Ends limit (made handler called) called
          (record {
            heap = v.heap;
            distinct = v.distinct;
            known = v.known;
            early = v.early;
            slow = v.slow;
          })
          (calm.late handler called) (omega arith))
        λ r s. record { count = length (made handler called); count_le = bound; scheduled = s }

  handle_loop-Ends :
      (fuel : ℕ) (q : TimerQueue) (heap : List ℕ)
      → IsValid (record q { timer_heap = heap })
      → work limit q.store heap < fuel
      → length heap + few * work limit q.store heap ≤ max_size
      → Ends
          (Looped clock limit (record q { timer_heap = heap }))
          (handle_loop clock made fuel (record q { timer_heap = heap }))
  unfolding handle_loop
  handle_loop-Ends zero q heap v f room = absurd (omega arith)
  handle_loop-Ends (suc fuel) q [] v f room = ends (record {
    valid = v;
    synced = λ p rest e. cc;
    idle = λ p m. absurd (not-mem-nil m);
    fires = nothing_fired limit _ _ refl refl refl;
  })
  handle_loop-Ends (suc fuel) q (p ∷ rest) v f room =
      let seen = record q { timer_heap = p ∷ rest; reads = suc q.reads } in
      let w : IsValid seen = record {
        heap = v.heap;
        distinct = v.distinct;
        known = v.known;
        early = v.early;
        slow = v.slow;
      } in
      Ends-branch (Timer.timeout (clock q.reads) (q.store p))
        (λ due.
          let now = calm.clock_le q.reads in
          let over : (q.store p).expire.unix_time_stamp ≤ℤ limit = ground arith in
          Ends-then
            (requeue_correct seen p rest w
              (room_for (length (p ∷ rest)) (few * work limit q.store (p ∷ rest)) room))
            λ moved m.
              let (less, size) =
                Moved-work limit seen moved p rest m (v.slow p mem-cons_self) over in
              let left =
                room_left (length (p ∷ rest)) (length moved.timer_heap) few
                  (work limit q.store (p ∷ rest)) (work limit moved.store moved.timer_heap) room
                  less size in
              let soon = room_for _ (few * work limit moved.store moved.timer_heap) left in
              Ends-then (run_timer-Ends moved p m.valid soon) λ called r.
                let s = r.scheduled in
                let round = Moved-Round limit r.count seen moved called p rest over m s in
                let fewer = r.count_le in
                Ends-weaken
                  (handle_loop-Ends fuel called called.timer_heap s.valid (omega (arith, s.work))
                    (rw s.work (omega (arith, s.size, fewer, left))))
                  λ last l. record {
                    valid = l.valid;
                    synced = l.synced;
                    idle = l.idle;
                    fires = after-Round limit q called last p rest round l.fires;
                  })
        (λ early.
          let first = root_expires_first q.store p rest v.heap in
          let now : suc q.reads - 1 ≡ q.reads = omega arith in
          rw (note_later-sets seen p rest w) (
            ends (record {
              valid = record {
                heap = v.heap;
                distinct = v.distinct;
                known = v.known;
                early = inr first;
                slow = v.slow;
              };
              synced = λ o others e. cc;
              idle = λ o m. rw now (let after = first o m in ground arith);
              fires = nothing_fired limit _ _ refl refl refl;
            })))

  -- For a clock that does not pass `limit` during the call, and callbacks that make at most
  -- `few` timers each, all of which expire after `limit`: on a valid queue, with room in the
  -- heap for the timers that can be made, and with more fuel than the work, the call ends. It
  -- leaves a valid queue in which no timer is due by the last reading of the clock, and
  -- `next_time_` is when the first timer expires, or 0 where there is none. The callback of every
  -- timer that was there and is due by the last reading was run, each that was run belongs to a
  -- timer that was there and expires at `limit` or before, and every timer of the queue is in it
  -- as it was, or expires at `limit` or before and its callback was run.
  pub handle_timer_correct :
      (fuel : ℕ) (q : TimerQueue)
      → IsValid q
      → work limit q.store q.timer_heap < fuel
      → length q.timer_heap + few * work limit q.store q.timer_heap ≤ max_size
      → Ends (Handled clock limit q) (handle_timer clock made fuel q)
  unfolding handle_timer
  handle_timer_correct fuel q v f room =
      Ends-then (handle_loop-Ends fuel q q.timer_heap v f room)
        λ r l. ends (settled clock limit q r r.timer_heap l)
