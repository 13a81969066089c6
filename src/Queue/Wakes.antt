-- ===== src/Queue/Wakes.antt =====
-- No element is lost, and no thread sleeps on while there is one for it.
use mathlib.Core.List.{append-nil, append_assoc}
use qg_server.Common.{
  ℕ, ◌+◌, ◌-◌, ◌<◌, ◌≤◌, ◌≡◌, refl, sym, ap, ◌∙◌, inl, inr, ◌⊎◌, Bool-cases, List, [], ◌∷◌, ◌++◌,
  arith, length, length-append, ltb,
}
use qg_server.Queue.{
  Queue, push, pop, pop_again, pop_all, pop_round, Step, pushes, pops, pops_again, pops_all, wakes,
  Reached, here, next, swap_all,
}

module _ {ℓ} {A : Type ℓ} where
  pub record IsFair (q : Queue A) : Type ℓ where
    pub order : q.taken ++ q.queue ≡ q.pushed
    pub awake : (q.sleeping ≡ 0) ⊎ (length q.queue ≤ q.woken)

  push-IsFair : (t : A) (q : Queue A) → IsFair q → IsFair (push t q)
  unfolding push
  push-IsFair t q v =
      let grown : q.taken ++ (q.queue ++ t ∷ []) ≡ q.pushed ++ t ∷ [] =
        sym (append_assoc q.taken q.queue (t ∷ [])) ∙ ap (λ (ts : List A). ts ++ t ∷ []) v.order in
      let more : length (q.queue ++ t ∷ []) ≡ length q.queue + 1 = length-append q.queue (t ∷ []) in
      elim (Bool-cases (ltb 0 q.sleeping)) [
        | inl some_sleep ↦
            let asleep : 0 < q.sleeping = ground (arith, some_sleep) in
            let awake = v.awake in
            rw some_sleep
              (record { order = grown; awake = inr (omega (arith, more, awake, asleep)) })
        | inr none_sleep ↦
            rw none_sleep (record { order = grown; awake = inl (ground (arith, none_sleep)) })
      ]

  round-IsFair :
      (ts : List A) (q : Queue A) (n : ℕ)
      → q.taken ++ ts ≡ q.pushed
      → (q.sleeping ≡ 0) ⊎ (length ts ≤ n + 1)
      → q.woken ≡ n
      → IsFair (pop_round ts (record q { queue = ts }))
  unfolding pop_round
  round-IsFair [] q n order awake e = record { order = order; awake = inr (omega arith) }
  round-IsFair (t ∷ ts) q n order awake e = record {
    order = append_assoc q.taken (t ∷ []) ts ∙ order;
    awake = omega (arith, awake, e);
  }

  pop-IsFair : (q : Queue A) → IsFair q → IsFair (pop q)
  unfolding pop
  pop-IsFair q v =
      let awake = v.awake in round-IsFair q.queue q q.woken v.order (omega (arith, awake)) refl

  pop_again-IsFair : (q : Queue A) → 0 < q.woken → IsFair q → IsFair (pop_again q)
  unfolding pop_again
  pop_again-IsFair q some_woken v =
      let awake = v.awake in
      round-IsFair q.queue (record q { woken = q.woken - 1 }) (q.woken - 1) v.order
        (omega (arith, awake, some_woken)) refl

  taken_all-IsFair :
      (ts : List A) (q : Queue A)
      → q.taken ++ ts ≡ q.pushed
      → let (left, res) = swap_all [] ts in
        IsFair (record q { queue = left; taken = q.taken ++ res })
  unfolding swap_all
  taken_all-IsFair [] q order = record {
    order = append-nil (q.taken ++ []) ∙ order;
    awake = inr (omega arith);
  }
  taken_all-IsFair (t ∷ ts) q order = record {
    order = append-nil (q.taken ++ t ∷ ts) ∙ order;
    awake = inr (omega arith);
  }

  step-IsFair : {p q : Queue A} → Step p q → IsFair p → IsFair q
  unfolding pop_all
  step-IsFair (pushes t q) v = push-IsFair t q v
  step-IsFair (pops q) v = pop-IsFair q v
  step-IsFair (pops_again q some_woken) v = pop_again-IsFair q some_woken v
  step-IsFair (pops_all q) v = taken_all-IsFair q.queue q v.order
  step-IsFair (wakes q some_sleep) v = record {
    order = v.order;
    awake = let awake = v.awake in inr (omega (arith, awake, some_sleep));
  }

  -- Whatever the threads do, in whatever order: what was taken from the queue and what it holds are
  -- all the elements that were pushed, in the order in which they were pushed, and while a thread
  -- waits for an element, the queue holds no more of them than there are threads that were woken and
  -- are still to look for one.
  pub Reached-IsFair : {q : Queue A} → Reached q → IsFair q
  Reached-IsFair here = record { order = refl; awake = inl refl }
  Reached-IsFair (next before step) = step-IsFair step (Reached-IsFair before)
