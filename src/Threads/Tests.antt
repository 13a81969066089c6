-- ===== src/Threads/Tests.antt =====
-- The thread pool and the atomic integer at concrete inputs.
use qg_server.Common.{fault, Outcome, ◌-◌, ◌^◌, List, [], ◌∷◌}
use qg_server.Threads.Pool.{ThreadPool, new_thread_pool, Reached, Result, Reached-Result}
use qg_server.Threads.Atomic.{AtomicInt, Op, increments, decrements}

Reached-Result_example :
    Reached (new_thread_pool 4 2) fault
    × ((o : Outcome ThreadPool) → Reached (new_thread_pool 4 2) o → Result o)
Reached-Result_example = Reached-Result 4 2

abbrev last : AtomicInt
last = record { value = 2 ^ 32 - 1 }

abbrev up_down : List Op
up_down = increments ∷ decrements ∷ Op.adds 5 ∷ []

abbrev down_up : List Op
down_up = decrements ∷ increments ∷ Op.adds 5 ∷ []
