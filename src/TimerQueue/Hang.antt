-- ===== src/TimerQueue/Hang.antt =====
-- A timer that repeats with an interval of 0.
use qg_server.Common.{
  ℕ, zero, suc, ◌≡◌, refl, ap, ◌∙◌, true, List, [], ◌∷◌, ◌++◌, done, exhausted, ◌==◌, ==_iff, arith,
}
use qg_server.Common.Int.{ℤ, pos, ◌+ℤ◌, ◌*ℤ◌}
use qg_server.TimeStamp
use qg_server.TimeStamp.{TimeStamp}
use qg_server.Timer
use qg_server.Timer.{Timer, Store}
use qg_server.TimerHeap
use qg_server.TimerQueue.{TimerQueue, requeue, run_timer, schedule_all, handle_loop, handle_timer}

-- The timer repeats at once, and is due from now on.
pub record Spins (clock : ℕ → TimeStamp) (t : Timer) : Type 0 where
  pub repeats : t.repeat ≡ true
  pub interval : t.interval ≡ pos 0
  pub due : (n : ℕ) → Timer.timeout (clock n) t ≡ true

add_time_zero : (x : TimeStamp) → TimeStamp.add_time x (pos 0) ≡ x
unfolding TimeStamp.add_time ◌*ℤ◌ ◌+ℤ◌
add_time_zero x =
    let same : (TimeStamp.add_time x (pos 0)).unix_time_stamp ≡ x.unix_time_stamp = ground arith in
    ap (λ (t : ℤ). record { unix_time_stamp = t }) same

restart_now : (t : Timer) → t.interval ≡ pos 0 → Timer.restart t ≡ t
unfolding Timer.restart
restart_now t e =
    ap (λ (x : TimeStamp). record t { expire = x })
      (ap (TimeStamp.add_time t.expire) e ∙ add_time_zero t.expire)

pop_one : (st : Store) (p : ℕ) → TimerHeap.pop_timer st (p ∷ []) ≡ done []
unfolding TimerHeap.pop_timer
pop_one st p = refl

add_one : (st : Store) (p : ℕ) → TimerHeap.add_timer st [] p ≡ done (p ∷ [])
unfolding TimerHeap.add_timer
add_one st p = refl

-- A queue that holds the timer `t` alone.
abbrev one_timer : TimerQueue → ℕ → Timer → TimerQueue
one_timer q p t = record q { timer_heap = p ∷ []; store = Timer.store_at q.store p t }

requeue_one :
    (q : TimerQueue) (p : ℕ)
    → q.timer_heap ≡ p ∷ []
    → (q.store p).repeat ≡ true
    → (q.store p).interval ≡ pos 0
    → requeue q p ≡ done (one_timer q p (q.store p))
unfolding requeue
requeue_one q p only repeats now =
    rw (restart_now (q.store p) now, repeats, only, pop_one, add_one) refl

store_at_self : (st : Store) (p : ℕ) (t : Timer) → Timer.store_at st p t p ≡ t
store_at_self st p t = let same : (p == p) ≡ true = (==_iff p p).1 refl in rw same refl

module _ (clock : ℕ → TimeStamp) (made : ℕ → TimerQueue → List Timer)
    (none_made : (handler : ℕ) (q : TimerQueue) → made handler q ≡ []) where
  run_none :
      (q : TimerQueue) (p : ℕ)
      → run_timer made q p ≡ done (record q { fired = q.fired ++ (q.store p).timer_handler ∷ [] })
  unfolding run_timer schedule_all
  run_none q p =
      rw
        (none_made (q.store p).timer_handler
          (record q { fired = q.fired ++ (q.store p).timer_handler ∷ [] }))
        refl

  handle_loop-Spins :
      (fuel : ℕ) (q : TimerQueue) (p : ℕ)
      → Spins clock (q.store p)
      → handle_loop clock made fuel (record q { timer_heap = p ∷ [] }) ≡ exhausted
  unfolding handle_loop
  handle_loop-Spins zero q p s = refl
  handle_loop-Spins (suc fuel) q p s =
      let seen = record q { timer_heap = p ∷ []; reads = suc q.reads } in
      let moved = one_timer seen p (q.store p) in
      let next = record moved { fired = q.fired ++ (moved.store p).timer_handler ∷ [] } in
      let again = handle_loop-Spins fuel next p (rw (store_at_self q.store p (q.store p)) s) in
      rw (s.due q.reads, requeue_one seen p refl s.repeats s.interval, run_none moved p) again

  -- When the only timer of a queue repeats with an interval of 0 and is due at every reading of the
  -- clock, and no callback makes a timer, the call does not end, with any fuel.
  pub handle_timer_hangs :
      (fuel : ℕ) (q : TimerQueue) (p : ℕ)
      → q.timer_heap ≡ p ∷ []
      → Spins clock (q.store p)
      → handle_timer clock made fuel q ≡ exhausted
  unfolding handle_timer
  handle_timer_hangs fuel q p only s =
      let whole : handle_loop clock made fuel q ≡ exhausted =
        ap (λ (heap : List ℕ). handle_loop clock made fuel (record q { timer_heap = heap })) only
        ∙ handle_loop-Spins fuel q p s in
      rw whole refl
