-- ===== src/EventLoop/Tests.antt =====
-- A loop in which one function adds another, and a thread that adds one in between.
use qg_server.Common.{ℕ, refl, List, [], ◌∷◌, ◌==◌, if◌then◌else◌, arith}
use qg_server.EventLoop.{
  EventLoop, new_event_loop, push, LoopStep, Step, handling, running, waiting, loops, pushes,
  writes, wake, pop_all, run, add_next, finish, Reached, here, next,
}
use qg_server.EventLoop.Delivery.{IsLive, Reached-IsLive}
use qg_server.EventLoop.Delivery.Draining.{Drained, Reached-Drained}

abbrev adds : ℕ → List ℕ
adds f = if f == 1 then 2 ∷ [] else []

-- The function 1 was pushed, and not yet written for.
abbrev pushed_one : EventLoop
pushed_one = push 1 (record new_event_loop { owed = 1 })

abbrev added_one : EventLoop
added_one = record pushed_one { owed = 0; pipe = 1 }

abbrev woken : EventLoop
woken = record added_one { phase = handling; pipe = 0 }

abbrev taken : EventLoop
taken = record woken { phase = running [] (1 ∷ []); pending_functors = [] }

abbrev running_one : EventLoop
running_one = record taken { phase = running (2 ∷ []) []; ran = 1 ∷ [] }

abbrev last : EventLoop
last = record {
  phase = waiting;
  pending_functors = 2 ∷ [];
  pipe = 1;
  owed = 0;
  added = 1 ∷ 2 ∷ [];
  ran = 1 ∷ [];
}

abbrev Steps : EventLoop → EventLoop → Type 0
Steps = Step 8 adds

running_one-Reached : Reached Steps new_event_loop running_one
running_one-Reached =
    next
      (next
        (next (next (next here (pushes 1 new_event_loop)) (writes pushed_one (omega arith)))
          (loops (wake added_one refl (omega arith))))
        (loops (pop_all woken refl)))
      (loops (run taken 1 [] refl))

last-Reached : Reached Steps new_event_loop last
last-Reached =
    next (next running_one-Reached (loops (add_next running_one 2 [] [] refl)))
      (loops (finish (record last { phase = running [] [] }) refl))

Reached-IsLive_example : IsLive running_one
Reached-IsLive_example = Reached-IsLive 8 (omega arith) adds running_one running_one-Reached

Reached-Drained_example : Drained (LoopStep 8 adds) last (2 ∷ []) []
Reached-Drained_example = Reached-Drained 8 adds last (omega arith) last-Reached refl refl
