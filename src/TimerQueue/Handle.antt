-- ===== src/TimerQueue/Handle.antt =====
-- One round of the loop of `TimerQueue::handleTimer`.
use mathlib.Core.List.{Nodup-cons, mem-cons_self, mem-cons_of_mem, forall_mem-cons}
use mathlib.Core.List.Perm
use mathlib.Core.HLevel.{Π_prop}
use native.Mathlib.Bridge.{le_prop}
use qg_server.Common.{
  ℕ, ◌*◌, ◌≤◌, ◌≡◌, refl, ap, ◌∙◌, inl, inr, true, false, Bool-cases, List, ◌∷◌, Mem, Perm, arith,
  ◌⊎◌, length, length-perm,
}
use qg_server.Common.Results.{Ends, ends, Ends-then, Ends-branch}
use qg_server.Common.Int.{ℤ, pos, negsuc, ◌≤ℤ◌, ◌+ℤ◌, ◌*ℤ◌, +ℤ_parts}
use qg_server.TimeStamp
use qg_server.TimeStamp.{TimeStamp}
use qg_server.Timer
use qg_server.Timer.{Timer, Store}
use qg_server.TimerHeap.Order.{max_size}
use qg_server.TimerHeap.Edit.{add_timer_correct, pop_timer_sorts}
use qg_server.TimerQueue.{TimerQueue, requeue}
use qg_server.TimerQueue.Invariant.{
  IsSlow, IsEarly, IsValid, Agree, root_change-IsHeapBelowRoot, store_at-Agree,
}

whole_seconds :
    (n : ℕ)
    → pos n *ℤ pos TimeStamp.micro_seconds_per_second ≡ pos (n * TimeStamp.micro_seconds_per_second)
unfolding ◌*ℤ◌
whole_seconds n = ground arith

-- A timer that repeats is moved on by at least a second.
pub restart_later :
    (t : Timer)
    → t.repeat ≡ true
    → IsSlow t
    → t.expire.unix_time_stamp +ℤ pos 1000000 ≤ℤ (Timer.restart t).expire.unix_time_stamp
unfolding Timer.restart TimeStamp.add_time
restart_later t r slow = by_interval t.interval (slow r)
  where
    by_interval :
        (i : ℤ)
        → pos 1 ≤ℤ i
        → t.expire.unix_time_stamp +ℤ pos 1000000
          ≤ℤ t.expire.unix_time_stamp +ℤ i *ℤ pos TimeStamp.micro_seconds_per_second
    by_interval (pos n) h = rw (whole_seconds n) (omega (arith, +ℤ_parts))
    by_interval (negsuc n) h = absurd (omega arith)

restart-IsSlow : (t : Timer) → IsSlow t → IsSlow (Timer.restart t)
unfolding Timer.restart
restart-IsSlow t slow = slow

restart-handler : (t : Timer) → (Timer.restart t).timer_handler ≡ t.timer_handler
unfolding Timer.restart
restart-handler t = refl

-- What a round leaves of a queue with the heap `p ∷ rest`, before the callback is run.
pub record Moved (q : TimerQueue) (p : ℕ) (rest : List ℕ) (r : TimerQueue) : Type 0 where
  pub valid : IsValid r
  pub next_time : r.next_time ≡ q.next_time
  pub fresh : r.fresh ≡ q.fresh
  pub reads : r.reads ≡ q.reads
  pub fired : r.fired ≡ q.fired
  pub kept : Agree q.store r.store rest
  pub handler : (r.store p).timer_handler ≡ (q.store p).timer_handler
  pub contents :
      ((q.store p).repeat ≡ false) × Perm r.timer_heap rest
      ⊎ ((q.store p).repeat ≡ true)
        × (r.store p ≡ Timer.restart (q.store p))
        × Perm r.timer_heap (p ∷ rest)

module _ (q : TimerQueue) (p : ℕ) (rest : List ℕ) (v : IsValid (record q { timer_heap = p ∷ rest }))
    (small : length (p ∷ rest) ≤ max_size) where
  abbrev full : TimerQueue
  full = record q { timer_heap = p ∷ rest }

  due : Timer
  due = q.store p

  requeue_once : due.repeat ≡ false → Ends (Moved full p rest) (requeue full p)
  unfolding requeue due
  requeue_once e = rw e (
      Ends-then (pop_timer_sorts q.store p rest (λ c a b d. v.heap c a b) small) λ low (h, same).
        let all = λ (o : ℕ) (m : Mem o low). mem-cons_of_mem p ((Perm.mem_iff same).0 m) in
        ends (record {
          valid = record {
            heap = h;
            distinct = Perm.nodup (Perm.symm same) (Nodup-cons.0 v.distinct).1;
            known = λ o m. v.known o (all o m);
            early = elim v.early [ inl z ↦ inl z | inr b ↦ inr (λ o m. b o (all o m)) ];
            slow = λ o m. v.slow o (all o m);
          };
          next_time = refl;
          fresh = refl;
          reads = refl;
          fired = refl;
          kept = λ o m. refl;
          handler = refl;
          contents = inl (e, same);
        }))

  abbrev later : Store
  later = Timer.store_at q.store p (Timer.restart due)

  later_at : later p ≡ Timer.restart due
  later_at = ground arith

  later-Agree : Agree q.store later rest
  later-Agree = store_at-Agree q.store p (Timer.restart due) rest (Nodup-cons.0 v.distinct).0

  later_all :
      (P : ℕ → Timer → Type 0)
      → ((o : ℕ) → IsProp (P o (later o)))
      → P p (Timer.restart due)
      → ((o : ℕ) → Mem o rest → P o (q.store o))
      → (o : ℕ) → Mem o (p ∷ rest)
      → P o (later o)
  later_all P prop new old =
      (forall_mem-cons prop).1 (rw later_at new, λ o m. rw (later-Agree o m) (old o m))

  later-IsEarly : due.repeat ≡ true → IsEarly q.next_time later (p ∷ rest)
  unfolding due
  later-IsEarly e = elim v.early [
    | inl z ↦ inl z
    | inr b ↦
        let moved_on = restart_later due e (v.slow p mem-cons_self) in
        let before = b p mem-cons_self in
        inr (
          later_all (λ o t. q.next_time.unix_time_stamp ≤ℤ t.expire.unix_time_stamp) (λ o. le_prop)
            (omega (arith, +ℤ_parts)) (λ o m. b o (mem-cons_of_mem p m)))
  ]

  requeue_repeat : due.repeat ≡ true → Ends (Moved full p rest) (requeue full p)
  unfolding requeue due
  requeue_repeat e =
      Ends-branch (q.store p).repeat
        (λ _.
          Ends-then
            (pop_timer_sorts later p rest
              (root_change-IsHeapBelowRoot q.store later p rest later-Agree v.heap) small)
            λ low (h, same).
              let size = length-perm same in
              Ends-then (add_timer_correct later low p h (omega arith)) λ heap (g, put).
                let back = Perm.trans put (Perm.cons p same) in
                let all = λ (o : ℕ) (m : Mem o heap). (Perm.mem_iff back).0 m in
                ends (record {
                  valid = record {
                    heap = g;
                    distinct = Perm.nodup (Perm.symm back) v.distinct;
                    known = λ o m. v.known o (all o m);
                    early = elim (later-IsEarly e) [
                      | inl z ↦ inl z
                      | inr b ↦ inr (λ o m. b o (all o m))
                    ];
                    slow = λ o m.
                        later_all (λ o t. IsSlow t) (λ o. Π_prop λ _. le_prop)
                          (restart-IsSlow due (v.slow p mem-cons_self))
                          (λ o m. v.slow o (mem-cons_of_mem p m)) o (all o m);
                  };
                  next_time = refl;
                  fresh = refl;
                  reads = refl;
                  fired = refl;
                  kept = later-Agree;
                  handler = ap (λ (t : Timer). t.timer_handler) later_at ∙ restart-handler due;
                  contents = inr (e, later_at, back);
                }))
        (λ f. cc)

  -- A round moves the first timer on or takes it out, and the queue stays valid.
  pub requeue_correct : Ends (Moved full p rest) (requeue full p)
  unfolding due
  requeue_correct = elim (Bool-cases due.repeat) [
    | inl e ↦ requeue_repeat e
    | inr e ↦ requeue_once e
  ]
