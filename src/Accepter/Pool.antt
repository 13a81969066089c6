-- ===== src/Accepter/Pool.antt =====
-- src/core/loop_thread.h, loop_thread.cpp, and `start` of src/core/loop_thread_pool.cpp: a thread
-- for each loop of the pool. A loop is a number; a null pointer is `none`. `getLoop` looks at the
-- member `loop_` when it takes the lock and after each wait: `looks i` is what it sees there of the
-- i-th thread, one entry for each look.
pub mod Rounds
pub mod Handshake
mod Tests
use qg_server.Common.{
  ℕ, zero, suc, ◌+◌, List, [], ◌∷◌, ◌++◌, Option, none, some, Outcome, done, exhausted, ◌>>=◌,
  if◌then◌else◌,
}
use qg_server.Common.Int.{ℤ, pos, negsuc}
use qg_server.Accepter.{LoopPool, get_next_loop}

pub record LoopThread : Type 0 where
  pub loop : Option ℕ

-- What LoopThread::threadFunc does before it runs its loop.
abbrev pub publish : ℕ → LoopThread → LoopThread
publish own t = record t { loop = some own }

-- LoopThread::getLoop
unfoldable pub get_loop : List (Option ℕ) → Outcome ℕ
get_loop [] = exhausted
get_loop (none ∷ rest) = get_loop rest
get_loop (some l ∷ rest) = done l

-- The constructor of LoopThreadPool.
abbrev pub new_loop_pool : ℕ → ℤ → LoopPool
new_loop_pool base_loop (pos n) = record {
  base_loop = base_loop;
  thread_size = n;
  cur_pos = 0;
  loops = [];
}
new_loop_pool base_loop (negsuc n) = record {
  base_loop = base_loop;
  thread_size = 0;
  cur_pos = 0;
  loops = [];
}

-- The loop of LoopThreadPool::start, from the i-th thread on.
unfoldable pub start_threads : (ℕ → List (Option ℕ)) → ℕ → ℕ → LoopPool → Outcome LoopPool
unfolding get_loop
start_threads looks zero i p = done p
start_threads looks (suc n) i p = do
  l ← get_loop (looks i)
  start_threads looks n (i + 1) (record p { loops = p.loops ++ l ∷ [] })

-- LoopThreadPool::start
unfoldable pub start : (ℕ → List (Option ℕ)) → LoopPool → Outcome LoopPool
unfolding start_threads
start looks p = start_threads looks p.thread_size 0 p

-- The loops that the next connections are given to.
unfoldable pub next_loops : ℕ → LoopPool → Outcome (LoopPool × List ℕ)
next_loops zero p = done (p, [])
next_loops (suc n) p = do
  (moved, l) ← get_next_loop p
  (last, ls) ← next_loops n moved
  done (last, l ∷ ls)
