-- ===== src/Queue/Tests.antt =====
-- A queue that three threads share: two wait for an element, and are woken by a push.
use qg_server.Common.{ℕ, ◌≡◌, refl, [], ◌∷◌, arith}
use qg_server.Queue.{
  Queue, new_queue, push, pop, pop_again, swap_all, pushes, pops, pops_again, Reached, here, next,
}
use qg_server.Queue.Wakes.{IsFair, Reached-IsFair}

abbrev one_left : Queue ℕ
one_left = record { queue = 8 ∷ []; sleeping = 0; woken = 1; pushed = 7 ∷ 8 ∷ []; taken = 7 ∷ [] }

abbrev two_pops : Queue ℕ
two_pops = record new_queue { sleeping = 2 }

abbrev two_pushes : Queue ℕ
two_pushes = record new_queue { queue = 7 ∷ 8 ∷ []; woken = 2; pushed = 7 ∷ 8 ∷ [] }

one_left-Reached : Reached one_left
unfolding push pop pop_again
one_left-Reached =
    let asleep : Reached two_pops =
      next (next here (pops new_queue)) (pops (record new_queue { sleeping = 1 })) in
    let pushed : Reached two_pushes =
      next (next asleep (pushes 7 two_pops)) (pushes 8 (push 7 two_pops)) in
    next pushed (pops_again two_pushes (omega arith))

Reached-IsFair_example : IsFair one_left
Reached-IsFair_example = Reached-IsFair one_left-Reached

-- A queue that is not empty when it is swapped goes back.
swap_all_back : swap_all {A = ℕ} (1 ∷ []) (2 ∷ 3 ∷ []) ≡ (1 ∷ [], 2 ∷ 3 ∷ [])
unfolding swap_all
swap_all_back = refl
