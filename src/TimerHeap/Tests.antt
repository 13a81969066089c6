-- ===== src/TimerHeap/Tests.antt =====
-- The heap at concrete timers: pointer `p` expires at time `p`.
use mathlib.Core.List.{Mem}
use qg_server.Common.{ℕ, zero, suc, ◌≡◌, refl, false, List, [], ◌∷◌, Perm, arith, get_or}
use qg_server.Common.Results.{done, Ends}
use qg_server.Common.Int.{pos}
use qg_server.Timer.{Store}
use qg_server.TimerHeap.{add_timer, pop_timer}
use qg_server.TimerHeap.Order.{IsHeap, Reordered}
use qg_server.TimerHeap.Edit.{ExpiresBy, add_timer_correct, pop_timer_correct}

abbrev by_name : Store
by_name p = record {
  expire = record { unix_time_stamp = pos p };
  repeat = false;
  interval = pos 0;
  timer_handler = 0;
}

abbrev sample : List ℕ
sample = 1 ∷ 4 ∷ 2 ∷ 9 ∷ 5 ∷ []

sample-IsHeap : IsHeap by_name sample
unfolding get_or
sample-IsHeap zero p q = absurd (omega arith)
sample-IsHeap (suc zero) p q = omega arith
sample-IsHeap (suc (suc zero)) p q = omega arith
sample-IsHeap (suc (suc (suc zero))) p q = omega arith
sample-IsHeap (suc (suc (suc (suc zero)))) p q = omega arith
sample-IsHeap (suc (suc (suc (suc (suc c))))) p q = absurd (omega arith)

add_runs : add_timer by_name sample 3 ≡ done (1 ∷ 4 ∷ 2 ∷ 9 ∷ 5 ∷ 3 ∷ [])
unfolding add_timer
add_runs = refl

pop_runs : pop_timer by_name sample ≡ done (2 ∷ 4 ∷ 5 ∷ 9 ∷ [])
unfolding pop_timer
pop_runs = refl

add_timer_correct_example :
    Ends (λ low. IsHeap by_name low × Perm low (3 ∷ sample)) (add_timer by_name sample 3)
add_timer_correct_example = add_timer_correct by_name sample 3 sample-IsHeap (omega arith)

pop_timer_correct_example :
    Ends
      (λ low.
        Reordered by_name (4 ∷ 2 ∷ 9 ∷ 5 ∷ []) low
        × ((q : ℕ) → Mem q sample → ExpiresBy by_name 1 q))
      (pop_timer by_name sample)
pop_timer_correct_example =
    pop_timer_correct by_name 1 (4 ∷ 2 ∷ 9 ∷ 5 ∷ []) sample-IsHeap (omega arith)
