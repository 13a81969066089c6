-- ===== src/TimerQueue/Work.antt =====
-- The time by which the timers of a heap are overdue, summed up: a bound on the rounds of
-- `TimerQueue::handleTimer`, and what each operation does to it.
use mathlib.Core.Logic.{∥∥₁_elim}
use mathlib.Core.List.{Permᴰ, mem-cons_self, mem-cons_of_mem, mem_of_ne_of_mem}
use mathlib.Core.List.Perm
use native.Mathlib.Nat.{ℕ_set}
use qg_server.Common.{
  ℕ, ◌+◌, ◌-◌, ◌≤◌, ◌<◌, ◌≡◌, ◌≢◌, refl, sym, ap, ◌∙◌, inl, inr, List, [], ◌∷◌, Mem, Perm, arith,
  length, length-perm,
}
use qg_server.Common.Results.{Ends, ends, Ends-then, Ends-weaken}
use qg_server.Common.Int.{ℤ, ◌≤ℤ◌, ◌<ℤ◌, pos_part, neg_part, +ℤ_parts}
use qg_server.Timer
use qg_server.Timer.{Timer, Store}
use qg_server.TimerHeap.Order.{max_size}
use qg_server.TimerQueue.{TimerQueue, schedule_all}
use qg_server.TimerQueue.Invariant.{IsSlow, IsValid, Agree}
use qg_server.TimerQueue.Add.{Added, schedule_correct, grown_at, grown-Agree}
use qg_server.TimerQueue.Handle.{Moved, restart_later}

unfoldable pub total : (ℕ → ℕ) → List ℕ → ℕ
total f [] = 0
total f (x ∷ xs) = f x + total f xs

total_perm : (f : ℕ → ℕ) {xs ys : List ℕ} → Permᴰ xs ys → total f xs ≡ total f ys
unfolding total
total_perm f Permᴰ.nil = refl
total_perm f (Permᴰ.cons e p) = omega (arith, ap f e, total_perm f p)
total_perm f (Permᴰ.swap e g) = omega (arith, ap f e, ap f g)
total_perm f (Permᴰ.trans p q) = total_perm f p ∙ total_perm f q

total-perm : (f : ℕ → ℕ) {xs ys : List ℕ} → Perm xs ys → total f xs ≡ total f ys
total-perm f p = ∥∥₁_elim p (ℕ_set _ _) (total_perm f)

total_agree :
    (f g : ℕ → ℕ) (xs : List ℕ) → ((p : ℕ) → Mem p xs → f p ≡ g p) → total f xs ≡ total g xs
unfolding total
total_agree f g [] h = refl
total_agree f g (x ∷ xs) h =
    omega (arith, h x mem-cons_self, total_agree f g xs (λ p m. h p (mem-cons_of_mem x m)))

-- By how many microseconds a timer that expires at `limit` or before is overdue, and one more.
abbrev pub cost : ℤ → Timer → ℕ
cost limit t =
    pos_part limit
    + neg_part t.expire.unix_time_stamp
    + 1
    - (pos_part t.expire.unix_time_stamp + neg_part limit)

abbrev pub work : ℤ → Store → List ℕ → ℕ
work limit st = total (λ p. cost limit (st p))

pub work_agree :
    (limit : ℤ) (st st' : Store) (heap : List ℕ)
    → Agree st st' heap
    → work limit st' heap ≡ work limit st heap
work_agree limit st st' heap same =
    total_agree (λ p. cost limit (st' p)) (λ p. cost limit (st p)) heap
      λ p m. ap (cost limit) (same p m)

-- A timer that a callback may make: it expires after `limit`.
abbrev pub IsLate : ℤ → Timer → Type 0
IsLate limit t = (limit <ℤ t.expire.unix_time_stamp) × IsSlow t

abbrev pub AllLate : ℤ → List Timer → Type 0
AllLate limit [] = Unit {0}
AllLate limit (t ∷ ts) = IsLate limit t × AllLate limit ts

-- What the timers of a callback leave.
pub record Scheduled (limit : ℤ) (n : ℕ) (q r : TimerQueue) : Type 0 where
  pub valid : IsValid r
  pub work : work limit r.store r.timer_heap ≡ work limit q.store q.timer_heap
  pub size : length r.timer_heap ≡ length q.timer_heap + n
  pub reads : r.reads ≡ q.reads
  pub fired : r.fired ≡ q.fired
  pub holds : (p : ℕ) → Mem p q.timer_heap → Mem p r.timer_heap
  pub kept : Agree q.store r.store q.timer_heap
  pub old :
      (p : ℕ)
      → Mem p r.timer_heap
      → (r.store p).expire.unix_time_stamp ≤ℤ limit
      → Mem p q.timer_heap

pub Added-work :
    (limit : ℤ) (q r : TimerQueue) (t : Timer)
    → IsValid q
    → IsLate limit t
    → Added q t r
    → work limit r.store r.timer_heap ≡ work limit q.store q.timer_heap
unfolding total
Added-work limit q r t v late a =
    let same = work_agree limit q.store _ q.timer_heap (grown-Agree q t v) in
    let new = ap (cost limit) (grown_at q t v) in
    rw a.store (
      omega (
        arith,
        total-perm (λ p. cost limit (Timer.store_at q.store q.fresh t p)) a.contents,
        same,
        new,
      ))

Added-holds :
    (q r : TimerQueue) (t : Timer) → Added q t r → (p : ℕ) → Mem p q.timer_heap → Mem p r.timer_heap
Added-holds q r t a p m = (Perm.mem_iff a.contents).1 (mem-cons_of_mem q.fresh m)

Added-kept :
    (q r : TimerQueue) (t : Timer) → IsValid q → Added q t r → Agree q.store r.store q.timer_heap
Added-kept q r t v a p m = ap (λ (st : Store). st p) a.store ∙ grown-Agree q t v p m

-- A timer that expires at `limit` or before is no new one.
Added-old :
    (limit : ℤ) (q r : TimerQueue) (t : Timer)
    → IsValid q
    → IsLate limit t
    → Added q t r
    → (p : ℕ) → Mem p r.timer_heap
    → (r.store p).expire.unix_time_stamp ≤ℤ limit
    → Mem p q.timer_heap
Added-old limit q r t v late a p m early =
    let new : p ≢ q.fresh = λ e.
      let same : r.store p ≡ t = rw (a.store, e) (grown_at q t v) in
      let now : t.expire.unix_time_stamp ≤ℤ limit = rw (sym same) early in
      omega (arith, late.0, now) in
    mem_of_ne_of_mem new ((Perm.mem_iff a.contents).0 m)

pub schedule_all-Ends :
    (limit : ℤ) (ts : List Timer) (q : TimerQueue)
    → IsValid q
    → AllLate limit ts
    → length q.timer_heap + length ts ≤ max_size
    → Ends (Scheduled limit (length ts) q) (schedule_all q ts)
unfolding schedule_all
schedule_all-Ends limit [] q v late room = ends (record {
  valid = v;
  work = refl;
  size = omega arith;
  reads = refl;
  fired = refl;
  holds = λ p m. m;
  kept = λ p m. refl;
  old = λ p m due. m;
})
schedule_all-Ends limit (t ∷ ts) q v (h, late) room =
    Ends-then (schedule_correct q t v h.1 (omega arith)) λ r a.
      let size = length-perm a.contents in
      Ends-weaken (schedule_all-Ends limit ts r a.valid late (omega arith)) λ s b. record {
        valid = b.valid;
        work = b.work ∙ Added-work limit q r t v h a;
        size = omega (arith, size, b.size);
        reads = b.reads ∙ a.reads;
        fired = b.fired ∙ a.fired;
        holds = λ p m. b.holds p (Added-holds q r t a p m);
        kept = λ p m. b.kept p (Added-holds q r t a p m) ∙ Added-kept q r t v a p m;
        old = λ p m due.
            let before = b.old p m due in
            let early : (r.store p).expire.unix_time_stamp ≤ℤ limit =
              rw (sym (b.kept p before)) due in
            Added-old limit q r t v h a p before early;
      }

-- A round on a due timer lessens the work.
pub Moved-work :
    (limit : ℤ) (q r : TimerQueue) (p : ℕ) (rest : List ℕ)
    → Moved q p rest r
    → IsSlow (q.store p)
    → (q.store p).expire.unix_time_stamp ≤ℤ limit
    → (work limit r.store r.timer_heap < work limit q.store (p ∷ rest))
      × (length r.timer_heap ≤ length (p ∷ rest))
unfolding total
Moved-work limit q r p rest m slow due =
    let same = work_agree limit q.store r.store rest m.kept in
    elim m.contents [
      | inl (once, perm) ↦ (
        omega (arith, total-perm (λ p. cost limit (r.store p)) perm, same),
        omega (arith, length-perm perm),
      )
      | inr (again, moved, perm) ↦
          let on = restart_later (q.store p) again slow in
          let now = ap (cost limit) moved in
          (
            omega (arith, +ℤ_parts, total-perm (λ p. cost limit (r.store p)) perm, same, now, on),
            omega (arith, length-perm perm),
          )
    ]
