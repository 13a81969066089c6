-- ===== src/TimerHeap.antt =====
-- src/base/timer_heap.h and timer_heap.cpp: a binary min-heap of pointers to timers, ordered by
-- when the timers expire. A method that changes `heap_` returns the new vector. `size_t` has 64
-- bits and wraps: `(idx - 1) >> 1` at 0 is computed, and never used as an index. An index out
-- of range is a fault. The loops take fuel.
pub mod Order
pub mod Up
pub mod Down
pub mod Edit
mod Tests
use qg_server.Common.{
  ℕ, zero, suc, ◌+◌, ◌-◌, ◌*◌, ◌/◌, ◌%◌, ◌^◌, Bool, true, false, List, [], ◌∷◌, ◌++◌, Option, none,
  some, Outcome, done, exhausted, ◌>>=◌, or_fault, ltb, ◌==◌, if◌then◌else◌, length, get_elem?, set,
  take, is_empty,
}
use qg_server.Timer
use qg_server.Timer.{Store}

-- Arithmetic of `size_t`.
abbrev pub word : ℕ
word = 2 ^ 64

-- (idx - 1) >> 1
pub parent_of : ℕ → ℕ
parent_of idx = (idx + word - 1) % word / 2

-- (idx << 1) + 1
pub child_of : ℕ → ℕ
child_of idx = (idx * 2 % word + 1) % word

-- heap_[idx]
pub load : List ℕ → ℕ → Outcome ℕ
load heap idx = or_fault (get_elem? heap idx)

-- *heap_[i] < *heap_[j]
pub less : Store → List ℕ → ℕ → ℕ → Outcome Bool
less st heap i j = do p ← load heap i; q ← load heap j; done (Timer.lt (st p) (st q))

pub swap : List ℕ → ℕ → ℕ → Outcome (List ℕ)
swap heap upidx downidx = do
  tmp ← load heap upidx
  low ← load heap downidx
  done (set (set heap upidx low) downidx tmp)

-- The right operand of `&&` is read only where the left one holds.
up_loop : Store → ℕ → List ℕ → ℕ → ℕ → Outcome (List ℕ)
up_loop st zero heap idx parent = exhausted
up_loop st (suc fuel) heap idx parent =
    let rise = swap heap idx parent >>= λ h. up_loop st fuel h parent (parent_of parent) in
    (if ltb 0 idx then less st heap idx parent else done false) >>= λ above.
    if above then rise else done heap

pub up : Store → List ℕ → ℕ → Outcome (List ℕ)
up st heap idx = up_loop st (idx + 1) heap idx (parent_of idx)

-- The conditional inside the loop of `down`.
min_child : Store → List ℕ → ℕ → Outcome ℕ
min_child st heap child = if (child + 1) % word == length heap then done child else (do
  left ← less st heap child ((child + 1) % word)
  done (if left then child else (child + 1) % word))

down_loop : Store → ℕ → List ℕ → ℕ → ℕ → Outcome (List ℕ)
down_loop st zero heap idx child = exhausted
down_loop st (suc fuel) heap idx child =
    let step : Outcome (List ℕ) = do
      least ← min_child st heap child
      stop ← less st heap idx least
      let sink = swap heap idx least >>= λ h. down_loop st fuel h least (child_of least)
      if stop then done heap else sink
    in if ltb child (length heap) then step else done heap

pub down : Store → List ℕ → ℕ → Outcome (List ℕ)
down st heap idx = down_loop st (length heap + 1) heap idx (child_of idx)

unfoldable pub add_timer : Store → List ℕ → ℕ → Outcome (List ℕ)
unfolding up up_loop less swap load parent_of
add_timer st heap timer = let grown = heap ++ timer ∷ [] in up st grown (length grown - 1)

unfoldable pub pop_timer : Store → List ℕ → Outcome (List ℕ)
unfolding down down_loop min_child less swap load child_of
pop_timer st heap = if is_empty heap then done heap else do
  last ← load heap (length heap - 1)
  h ← down st (set heap 0 last) 0
  done (take (length h - 1) h)

-- `none` is `nullptr`.
abbrev pub top : List ℕ → Option ℕ
top [] = none
top (p ∷ heap) = some p
