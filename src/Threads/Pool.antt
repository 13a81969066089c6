-- ===== src/Threads/Pool.antt =====
-- src/base/thread_pool.h and thread_pool.cpp: a bounded queue of tasks and its workers. A task is a
-- number; `ran` lists the tasks that were run and `added` all that were queued, oldest first. What a
-- thread does under the lock is one step, and a wait for a condition variable, which gives up the
-- lock, is a step that changes nothing. The source misspells pthread_mutex_lock and
-- pthread_mutex_unlock in `execTask`, and calls a pointer as a function: the calls are read as they
-- are meant.
use mathlib.Core.Path.{subst}
use qg_server.Common.{
  ℕ, ◌≤◌, ◌≡◌, ◌≢◌, refl, sym, ap, ◌∙◌, inl, inr, not, if-cases, List, [], ◌∷◌, ◌++◌, Option, none,
  some, Outcome, done, fault, leb, if◌then◌else◌, is_empty, length, length-append, arith,
}

pub record ThreadPool : Type 0 where
  pub max_req_size : ℕ
  pub pool_size : ℕ
  pub task_queue : List ℕ
  pub added : List ℕ
  pub ran : List ℕ

abbrev pub new_thread_pool : ℕ → ℕ → ThreadPool
new_thread_pool pool_size queue_size = record {
  max_req_size = queue_size;
  pool_size = pool_size;
  task_queue = [];
  added = [];
  ran = [];
}

-- ThreadPool::addTask: `none` where it waits for no_full_.
unfoldable pub add_task : ℕ → ThreadPool → Option ThreadPool
add_task t p =
    if leb p.max_req_size (length p.task_queue)
    then none
    else some (record p { task_queue = p.task_queue ++ t ∷ []; added = p.added ++ t ∷ [] })

-- `front` and `pop` of a queue, undefined for one that is empty, and the call of the task.
unfoldable pub run_front : List ℕ → ThreadPool → Outcome (Option ThreadPool)
run_front [] p = fault
run_front (t ∷ ts) p = done (some (record p { task_queue = ts; ran = p.ran ++ t ∷ [] }))

-- A round of ThreadPool::execTask: `none` where it waits for no_empty_.
unfoldable pub exec_task : ThreadPool → Outcome (Option ThreadPool)
unfolding run_front
exec_task p = if not (is_empty p.task_queue) then done none else run_front p.task_queue p

-- What one turn of a thread under the lock leads to, a fault included. A turn that waits leads to
-- nothing new.
pub data Step : ThreadPool → Outcome ThreadPool → Type 0 where
  adds : (t : ℕ) (p q : ThreadPool) → add_task t p ≡ some q → Step p (done q)
  works : (p q : ThreadPool) → exec_task p ≡ done (some q) → Step p (done q)
  crashes : (p : ThreadPool) → exec_task p ≡ fault → Step p fault

pub data Reached (start : ThreadPool) : Outcome ThreadPool → Type 0 where
  here : Reached start (done start)
  next :
      {p : ThreadPool} {o : Outcome ThreadPool}
      → Reached start (done p)
      → Step p o
      → Reached start o

-- No task was run, none was lost, and the queue keeps its bound. A worker's turn reads the front of
-- the queue if it is empty, and waits if it is not.
pub record IsIdle (p : ThreadPool) : Type 0 where
  pub none_ran : p.ran ≡ []
  pub all_queued : p.task_queue ≡ p.added
  pub bounded : length p.task_queue ≤ p.max_req_size
  pub at_start : p.added ≡ [] → exec_task p ≡ fault
  pub later : p.added ≢ [] → exec_task p ≡ done none

exec_task-idle : (p q : ThreadPool) → exec_task p ≢ done (some q)
unfolding exec_task
exec_task-idle p q e = ground arith

exec_task-empty : (p : ThreadPool) → p.task_queue ≡ [] → exec_task p ≡ fault
unfolding exec_task
exec_task-empty p e = rw e refl

exec_task-waits : (p : ThreadPool) → p.task_queue ≢ [] → exec_task p ≡ done none
unfolding exec_task
exec_task-waits p some_task = by_queue p.task_queue refl
  where
    by_queue : (ts : List ℕ) → p.task_queue ≡ ts → exec_task p ≡ done none
    by_queue [] e = absurd (some_task e)
    by_queue (t ∷ ts) e = rw e refl

IsIdle-of :
    (p : ThreadPool)
    → p.ran ≡ []
    → p.task_queue ≡ p.added
    → length p.task_queue ≤ p.max_req_size
    → IsIdle p
IsIdle-of p none_ran all_queued bounded = record {
  none_ran = none_ran;
  all_queued = all_queued;
  bounded = bounded;
  at_start = λ e. exec_task-empty p (all_queued ∙ e);
  later = λ some_added. exec_task-waits p (λ e. some_added (sym all_queued ∙ e));
}

add_task-IsIdle : (t : ℕ) (p q : ThreadPool) → add_task t p ≡ some q → IsIdle p → IsIdle q
unfolding add_task
add_task-IsIdle t p q e v = elim (if-cases (leb p.max_req_size (length p.task_queue)) e) [
  | inl (full, same) ↦ cc
  | inr (room, same) ↦
      let more = record p { task_queue = p.task_queue ++ t ∷ []; added = p.added ++ t ∷ [] } in
      let grown : more ≡ q = cc in
      subst IsIdle grown (
        IsIdle-of more v.none_ran (ap (λ (ts : List ℕ). ts ++ t ∷ []) v.all_queued)
          (ground (arith, room, length-append {0} p.task_queue (t ∷ []))))
]

-- A pool in which no task was run, or a fault.
pub data Result : Outcome ThreadPool → Type 0 where
  idle : {p : ThreadPool} → IsIdle p → Result (done p)
  crashed : Result fault

Step-Result : {p : ThreadPool} {o : Outcome ThreadPool} → Step p o → Result (done p) → Result o
Step-Result (adds t p q e) (idle v) = idle (add_task-IsIdle t p q e v)
Step-Result (works p q e) (idle v) = absurd (exec_task-idle p q e)
Step-Result (crashes p e) (idle v) = crashed

-- Whatever tasks are added and however the workers take turns, no task is ever run: what is reached
-- is a fault, or a pool in which all tasks that were added are in the queue, in order and no more
-- than its size. In such a pool a worker's turn waits if a task was added, and reads the front of
-- the empty queue if none was; so in a new pool the first worker's turn is that fault.
pub Reached-Result :
    (pool_size queue_size : ℕ)
    → Reached (new_thread_pool pool_size queue_size) fault
      × ((o : Outcome ThreadPool) → Reached (new_thread_pool pool_size queue_size) o → Result o)
Reached-Result pool_size queue_size =
    let start = new_thread_pool pool_size queue_size in
    (next here (crashes start (exec_task-empty start refl)), λ o r. all r)
  where
    all : {o : Outcome ThreadPool} → Reached (new_thread_pool pool_size queue_size) o → Result o
    all here = idle (IsIdle-of (new_thread_pool pool_size queue_size) refl refl (omega arith))
    all (next r s) = Step-Result s (all r)
