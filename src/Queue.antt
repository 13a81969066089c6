-- ===== src/Queue.antt =====
-- src/util/block_queue.h: a queue that threads share. What a thread does under the lock is one
-- step; `sleeping` is how many threads wait for not_empty_, and `woken` how
-- many were woken and have not yet tested the queue again. `pushed` lists all that was pushed and
-- `taken` all that was taken, oldest first.
pub mod Wakes
pub mod Tests
use qg_server.Common.{
  ℕ, zero, suc, ◌+◌, ◌-◌, ◌<◌, ◌≡◌, List, [], ◌∷◌, ◌++◌, if◌then◌else◌, is_empty, ltb,
}

pub record Queue {ℓ} (A : Type ℓ) : Type ℓ where
  pub queue : List A
  pub sleeping : ℕ
  pub woken : ℕ
  pub pushed : List A
  pub taken : List A

module _ {ℓ} {A : Type ℓ} where
  abbrev pub new_queue : Queue A
  new_queue = record { queue = []; sleeping = 0; woken = 0; pushed = []; taken = [] }

  -- notify_one, which wakes a thread if there is one that waits.
  unfoldable pub notify_one : Queue A → Queue A
  notify_one q =
      if ltb 0 q.sleeping then record q { sleeping = q.sleeping - 1; woken = q.woken + 1 } else q

  -- Queue::push
  unfoldable pub push : A → Queue A → Queue A
  unfolding notify_one
  push t q = notify_one (record q { queue = q.queue ++ t ∷ []; pushed = q.pushed ++ t ∷ [] })

  -- A round of Queue::pop: the first element is taken, or the thread waits.
  unfoldable pub pop_round : List A → Queue A → Queue A
  pop_round [] q = record q { sleeping = q.sleeping + 1 }
  pop_round (t ∷ ts) q = record q { queue = ts; taken = q.taken ++ t ∷ [] }

  -- Queue::pop up to its first wait or its return.
  unfoldable pub pop : Queue A → Queue A
  unfolding pop_round
  pop q = pop_round q.queue q

  -- Queue::pop from the return of a wait on.
  unfoldable pub pop_again : Queue A → Queue A
  unfolding pop_round
  pop_again q = pop_round q.queue (record q { woken = q.woken - 1 })

  -- Queue::pop_all into `res`: what the queue holds then, and what is in `res`.
  unfoldable pub swap_all : List A → List A → List A × List A
  swap_all res queue = if is_empty queue then (queue, res) else (res, queue)

  -- Queue::pop_all into an empty queue.
  unfoldable pub pop_all : Queue A → Queue A
  unfolding swap_all
  pop_all q =
      let (left, res) = swap_all [] q.queue in record q { queue = left; taken = q.taken ++ res }

  pub data Step : Queue A → Queue A → Type ℓ where
    pushes : (t : A) (q : Queue A) → Step q (push t q)
    pops : (q : Queue A) → Step q (pop q)
    pops_again : (q : Queue A) → 0 < q.woken → Step q (pop_again q)
    pops_all : (q : Queue A) → Step q (pop_all q)
    -- A wait may return for no reason.
    wakes :
        (q : Queue A)
        → 0 < q.sleeping
        → Step q (record q { sleeping = q.sleeping - 1; woken = q.woken + 1 })

  pub data Reached : Queue A → Type ℓ where
    here : Reached new_queue
    next : {p q : Queue A} → Reached p → Step p q → Reached q
