-- ===== src/Accepter/Pool/Handshake.antt =====
-- src/core/loop_thread.h and loop_thread.cpp: the thread of a loop, and the thread that asks for
-- the loop by `getLoop`, as steps. What a thread does under the lock, from the lock or the return
-- of a wait to the next wait or the unlock, is one step. No constructor sets the member `loop_`:
-- what the memory held is a parameter. The loop is a number, and a null pointer is `none`. The
-- call of EventLoop::loop does not return, so the end of `threadFunc` is not reached.
pub mod Met
use qg_server.Common.{ℕ, ◌≡◌, Option, none, some}
use qg_server.Accepter.Pool.{LoopThread, publish}

-- The thread of the loop is before its locked block, or after it.
pub data Maker : Type 0 where
  making looping : Maker

-- The other thread has not called getLoop, sleeps in it, was woken in it, or has its result.
pub data Asker : Type 0 where
  outside asleep woken : Asker
  answered : ℕ → Asker

pub record Meeting : Type 0 where
  pub thread : LoopThread
  pub maker : Maker
  pub asker : Asker

-- LoopThread::LoopThread
abbrev pub new_meeting : Option ℕ → Meeting
new_meeting memory = record { thread = record { loop = memory }; maker = making; asker = outside }

-- One look of getLoop at the member, and what it does then.
abbrev pub answer : Option ℕ → Asker
answer none = asleep
answer (some l) = answered l

abbrev pub look : Meeting → Meeting
look m = record m { asker = answer m.thread.loop }

-- notify_one of created_cond_
abbrev pub notify_one : Asker → Asker
notify_one outside = outside
notify_one asleep = woken
notify_one woken = woken
notify_one (answered l) = answered l

-- The locked block of LoopThread::threadFunc.
abbrev pub publish_own : ℕ → Meeting → Meeting
publish_own own m = record {
  thread = publish own m.thread;
  maker = looping;
  asker = notify_one m.asker;
}

pub data Step (own : ℕ) : Meeting → Meeting → Type 0 where
  calls : (m : Meeting) → m.asker ≡ outside → Step own m (look m)
  -- A wait may end without a call of notify_one.
  wakes : (m : Meeting) → m.asker ≡ asleep → Step own m (record m { asker = woken })
  looks : (m : Meeting) → m.asker ≡ woken → Step own m (look m)
  publishes : (m : Meeting) → m.maker ≡ making → Step own m (publish_own own m)

pub data Reached (own : ℕ) (start : Meeting) : Meeting → Type 0 where
  here : Reached own start start
  next : {m n : Meeting} → Reached own start m → Step own m n → Reached own start n
