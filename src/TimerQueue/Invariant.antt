-- ===== src/TimerQueue/Invariant.antt =====
-- The invariant of a timer queue, and what of it depends on the timers in the heap alone.
use mathlib.Core.List.{Nodup, mem-cons_self, mem-cons_of_mem}
use qg_server.Common.{
  ℕ, zero, suc, ◌<◌, ◌≡◌, ap, inl, inr, true, Bool-cases, ==_iff, List, [], ◌∷◌, Mem, arith, ◌⊎◌,
  ◌==◌, length, get_or,
}
use qg_server.Common.Int.{pos, ◌≤ℤ◌}
use qg_server.TimeStamp
use qg_server.TimeStamp.{TimeStamp}
use qg_server.Timer
use qg_server.Timer.{Timer, Store}
use qg_server.TimerHeap.Order.{parent, key, IsHeap}
use qg_server.TimerHeap.Edit.{IsHeapBelowRoot}
use qg_server.TimerQueue.{TimerQueue}

-- A timer that repeats waits at least a second in between.
abbrev pub IsSlow : Timer → Type 0
IsSlow t = t.repeat ≡ true → pos 1 ≤ℤ t.interval

-- `next_time_` is unset, or no timer in the heap expires before it.
abbrev pub IsEarly : TimeStamp → Store → List ℕ → Type 0
IsEarly next st heap =
    (next.unix_time_stamp ≡ pos 0)
    ⊎ ((p : ℕ) → Mem p heap → next.unix_time_stamp ≤ℤ (st p).expire.unix_time_stamp)

pub record IsValid (q : TimerQueue) : Type 0 where
  pub heap : IsHeap q.store q.timer_heap
  pub distinct : Nodup q.timer_heap
  pub known : (p : ℕ) → Mem p q.timer_heap → p < q.fresh
  pub early : IsEarly q.next_time q.store q.timer_heap
  pub slow : (p : ℕ) → Mem p q.timer_heap → IsSlow (q.store p)

-- `next` is when the root expires, and 0 where there is no timer.
abbrev pub NextIs : TimeStamp → Store → List ℕ → Type 0
NextIs next st [] = next ≡ TimeStamp.epoch
NextIs next st (p ∷ rest) = next ≡ (st p).expire

abbrev pub IsSynced : TimerQueue → Type 0
IsSynced q = NextIs q.next_time q.store q.timer_heap

-- The two stores hold the same timers at the pointers of `heap`.
abbrev pub Agree : Store → Store → List ℕ → Type 0
Agree st st' heap = (p : ℕ) → Mem p heap → st' p ≡ st p

pub get_or-mem : (heap : List ℕ) (i : ℕ) → i < length heap → Mem (get_or heap i 0) heap
unfolding get_or
get_or-mem [] i h = absurd (omega arith)
get_or-mem (x ∷ heap) zero h = mem-cons_self
get_or-mem (x ∷ heap) (suc i) h = mem-cons_of_mem x (get_or-mem heap i (omega arith))

same_key :
    (st st' : Store) (heap : List ℕ) (i : ℕ)
    → Agree st st' heap
    → i < length heap
    → key st' heap i ≡ key st heap i
same_key st st' heap i same h =
    ap (λ (t : Timer). t.expire.unix_time_stamp) (same (get_or heap i 0) (get_or-mem heap i h))

pub Agree-IsHeap :
    (st st' : Store) (heap : List ℕ) → Agree st st' heap → IsHeap st heap → IsHeap st' heap
Agree-IsHeap st st' heap same h c p q =
    rw (same_key st st' heap c same q, same_key st st' heap (parent c) same (omega arith)) (h c p q)

same_key_below :
    (st st' : Store) (p : ℕ) (rest : List ℕ) (i : ℕ)
    → Agree st st' rest
    → 0 < i
    → i < length (p ∷ rest)
    → key st' (p ∷ rest) i ≡ key st (p ∷ rest) i
unfolding get_or
same_key_below st st' p rest zero same a b = absurd (omega arith)
same_key_below st st' p rest (suc i) same a b = same_key st st' rest i same (omega arith)

-- A change of the root's timer alone leaves the order below the root.
pub root_change-IsHeapBelowRoot :
    (st st' : Store) (p : ℕ) (rest : List ℕ)
    → Agree st st' rest
    → IsHeap st (p ∷ rest)
    → IsHeapBelowRoot st' (p ∷ rest)
root_change-IsHeapBelowRoot st st' p rest same h c a b d =
    rw
      (
        same_key_below st st' p rest c same a b,
        same_key_below st st' p rest (parent c) same d (omega arith),
      )
      (h c a b)

-- A write at a pointer that is not in a list leaves the timers of the list.
pub store_at-Agree :
    (st : Store) (p : ℕ) (t : Timer) (heap : List ℕ)
    → ¬ Mem p heap
    → Agree st (Timer.store_at st p t) heap
store_at-Agree st p t heap out q m = elim (Bool-cases (p == q)) [
  | inl e ↦ absurd (out (rw ((==_iff p q).0 e) m))
  | inr e ↦ rw e
]
