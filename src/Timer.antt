-- ===== src/Timer.antt =====
-- src/base/timer.h and timer.cpp: one timer, and the store of the timers that `shared_ptr<Timer>`
-- points to. A pointer is a number, and `*p` is the store at it, so two holders of a pointer see
-- one timer. `timer_handler` names the callback; what a callback does is an argument of the
-- code that runs it.
use qg_server.Common.{ℕ, Bool, ◌==◌, if◌then◌else◌}
use qg_server.Common.Int.{ℤ}
use qg_server.TimeStamp
use qg_server.TimeStamp.{TimeStamp}

pub record Timer : Type 0 where
  pub expire : TimeStamp
  pub repeat : Bool
  pub interval : ℤ
  pub timer_handler : ℕ

abbrev pub Store : Type 0
Store = ℕ → Timer

abbrev pub store_at : Store → ℕ → Timer → Store
store_at st p t q = if p == q then t else st q

-- `now` is what `TimeStamp::Now()` returns in the call.
abbrev pub timeout : TimeStamp → Timer → Bool
timeout now t = TimeStamp.ge now t.expire

abbrev pub lt : Timer → Timer → Bool
lt t rhs = TimeStamp.lt t.expire rhs.expire

pub update : Timer → ℤ → Timer
update t seconds = record t { expire = TimeStamp.add_time t.expire seconds }

unfoldable pub restart : Timer → Timer
unfolding update
restart t = update t t.interval
