-- ===== src/TimerQueue/Settled.antt =====
-- What the loop of `TimerQueue::handleTimer` and its last lines leave.
use mathlib.Core.List.{mem-cons_self}
use qg_server.Common.{
  ℕ, ◌-◌, ◌≡◌, refl, ap, inl, inr, Bool-cases, ◌||◌, List, [], ◌∷◌, Mem, arith, if◌then◌else◌,
  is_empty,
}
use qg_server.Common.Int.{ℤ, ◌≤ℤ◌, ◌<ℤ◌, eq_of_parts}
use qg_server.TimeStamp
use qg_server.TimeStamp.{TimeStamp}
use qg_server.TimerQueue.{TimerQueue, note_later}
use qg_server.TimerQueue.Invariant.{IsValid, IsSynced}
use qg_server.TimerQueue.Fires.{Fires}

-- `next_time_` as `handleTimer` sets it where it breaks out of the loop.
pub note_later-sets :
    (q : TimerQueue) (p : ℕ) (rest : List ℕ)
    → IsValid (record q { timer_heap = p ∷ rest })
    → note_later (record q { timer_heap = p ∷ rest }) p
      ≡ record q { timer_heap = p ∷ rest; next_time = (q.store p).expire }
unfolding note_later TimeStamp.epoch
note_later-sets q p rest v =
    elim (Bool-cases (TimeStamp.eq old TimeStamp.epoch || TimeStamp.gt new old)) [
      | inl c ↦ rw c
      | inr c ↦ elim v.early [
        | inl z ↦ absurd (ground arith)
        | inr b ↦
            let before = b p mem-cons_self in
            let same : old ≡ new =
              ap (λ (u : ℤ). let t : TimeStamp = record { unix_time_stamp = u } in t)
                (eq_of_parts old.unix_time_stamp new.unix_time_stamp (ground arith)) in
            rw c (ap (λ (t : TimeStamp). record q { timer_heap = p ∷ rest; next_time = t }) same)
      ]
    ]
  where
    old : TimeStamp
    old = q.next_time

    new : TimeStamp
    new = (q.store p).expire

-- What `handleTimer` leaves: a valid queue whose `next_time_` is right, in which no timer was due
-- when the clock was last read, and the callbacks that were run.
pub record Handled (clock : ℕ → TimeStamp) (limit : ℤ) (q r : TimerQueue) : Type 0 where
  pub valid : IsValid r
  pub synced : IsSynced r
  pub idle :
      (p : ℕ)
      → Mem p r.timer_heap
      → (clock (r.reads - 1)).unix_time_stamp <ℤ (r.store p).expire.unix_time_stamp
  pub fires : Fires limit q r
  pub prompt :
      (p : ℕ)
      → Mem p q.timer_heap
      → (q.store p).expire.unix_time_stamp ≤ℤ (clock (r.reads - 1)).unix_time_stamp
      → Mem (q.store p).timer_handler fires.ran

-- The same of the loop, which leaves `next_time_` behind where it empties the heap.
pub record Looped (clock : ℕ → TimeStamp) (limit : ℤ) (q r : TimerQueue) : Type 0 where
  pub valid : IsValid r
  pub synced : (p : ℕ) (rest : List ℕ) → r.timer_heap ≡ p ∷ rest → r.next_time ≡ (r.store p).expire
  pub idle :
      (p : ℕ)
      → Mem p r.timer_heap
      → (clock (r.reads - 1)).unix_time_stamp <ℤ (r.store p).expire.unix_time_stamp
  pub fires : Fires limit q r

-- A timer that was due at the last reading is not left, so its callback was run.
Looped-prompt :
    (clock : ℕ → TimeStamp) (limit : ℤ) (q r : TimerQueue) (l : Looped clock limit q r) (p : ℕ)
    → Mem p q.timer_heap
    → (q.store p).expire.unix_time_stamp ≤ℤ (clock (r.reads - 1)).unix_time_stamp
    → Mem (q.store p).timer_handler l.fires.ran
Looped-prompt clock limit q r l p m due = elim (l.fires.accounted p m) [
  | inl (early, runs) ↦ runs
  | inr (left, same) ↦
      let not_yet = l.idle p left in
      let again : (r.store p).expire.unix_time_stamp ≤ℤ (clock (r.reads - 1)).unix_time_stamp =
        rw same due in
      absurd (omega (arith, not_yet, again))
]

-- The end of `handleTimer`, at a heap that is given apart.
pub settled :
    (clock : ℕ → TimeStamp) (limit : ℤ) (q r : TimerQueue) (heap : List ℕ)
    → Looped clock limit q (record r { timer_heap = heap })
    → Handled clock limit q (
        if is_empty heap
        then record r { timer_heap = heap; next_time = TimeStamp.epoch }
        else record r { timer_heap = heap })
unfolding TimeStamp.epoch
settled clock limit q r [] l = record {
  valid = record {
    heap = l.valid.heap;
    distinct = l.valid.distinct;
    known = l.valid.known;
    early = inl refl;
    slow = l.valid.slow;
  };
  synced = refl;
  idle = l.idle;
  fires = record {
    ran = l.fires.ran;
    fired = l.fires.fired;
    accounted = l.fires.accounted;
    only = l.fires.only;
  };
  prompt = Looped-prompt clock limit q (record r { timer_heap = [] }) l;
}
settled clock limit q r (p ∷ rest) l = record {
  valid = l.valid;
  synced = l.synced p rest refl;
  idle = l.idle;
  fires = l.fires;
  prompt = Looped-prompt clock limit q (record r { timer_heap = p ∷ rest }) l;
}
