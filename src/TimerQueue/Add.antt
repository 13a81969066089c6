-- ===== src/TimerQueue/Add.antt =====
-- `TimerQueue::addTimer` of a new timer.
use mathlib.Core.List.{Nodup-cons, mem-cons_self, mem-cons_of_mem, forall_mem-cons, not-mem-nil}
use mathlib.Core.List.Perm
use mathlib.Core.HLevel.{Π_prop}
use native.Mathlib.Bridge.{le_prop}
use qg_server.Common.{
  ℕ, suc, ◌<◌, ◌≡◌, refl, ap, inl, inr, Bool, true, Bool-cases, ◌||◌, List, [], ◌∷◌, Mem, Perm,
  arith, if◌then◌else◌, length,
}
use qg_server.Common.Results.{done, Ends, ends, Ends-inv}
use qg_server.Common.Int.{ℤ, ◌≤ℤ◌, eq_of_parts}
use qg_server.TimeStamp
use qg_server.TimeStamp.{TimeStamp}
use qg_server.Timer
use qg_server.Timer.{Timer, Store}
use qg_server.TimerHeap
use qg_server.TimerHeap.Order.{max_size, IsHeap}
use qg_server.TimerHeap.Edit.{root_expires_first, add_timer_correct}
use qg_server.TimerQueue.{TimerQueue, add_timer, schedule}
use qg_server.TimerQueue.Invariant.{
  IsSlow, IsEarly, IsValid, IsSynced, NextIs, Agree, Agree-IsHeap, store_at-Agree,
}

-- `n` is no later than any timer of the list.
abbrev pub IsBefore : ℤ → Store → List ℕ → Type 0
IsBefore n st heap = (p : ℕ) → Mem p heap → n ≤ℤ (st p).expire.unix_time_stamp

-- Whether `_push` reports a new first timer.
abbrev is_first : Store → List ℕ → ℕ → Bool
is_first st [] timer = true
is_first st (p ∷ rest) timer = Timer.lt (st timer) (st p)

-- The new value of `next_time_`.
abbrev next_after : TimeStamp → Store → List ℕ → ℕ → TimeStamp
next_after next st heap timer =
    if is_first st heap timer
    then (if TimeStamp.eq next TimeStamp.epoch || TimeStamp.lt (st timer).expire next
        then (st timer).expire
        else next)
    else next

-- What `addTimer` does beside the heap is to set `next_time_`.
add_timer-next :
    (q : TimerQueue) (heap : List ℕ) (timer : ℕ) {low : List ℕ}
    → TimerHeap.add_timer q.store heap timer ≡ done low
    → add_timer (record q { timer_heap = heap }) timer
      ≡ done (record q { timer_heap = low; next_time = next_after q.next_time q.store heap timer })
unfolding add_timer
add_timer-next q [] timer e = rw e (ground arith)
add_timer-next q (p ∷ rest) timer e = rw e (ground arith)

IsBefore-cons :
    (n : ℤ) (st : Store) (timer : ℕ) (heap : List ℕ)
    → n ≤ℤ (st timer).expire.unix_time_stamp
    → IsBefore n st heap
    → IsBefore n st (timer ∷ heap)
IsBefore-cons n st timer heap h b = (forall_mem-cons λ q. le_prop).1 (h, b)

IsBefore-root :
    (n : ℤ) (st : Store) (p : ℕ) (rest : List ℕ)
    → IsHeap st (p ∷ rest)
    → n ≤ℤ (st p).expire.unix_time_stamp
    → IsBefore n st (p ∷ rest)
IsBefore-root n st p rest h b q m = omega (arith, root_expires_first st p rest h q m)

-- The update of `next_time_` in `addTimer`, once the new timer is first.
abbrev lower : TimeStamp → TimeStamp → TimeStamp
lower next new_time =
    if TimeStamp.eq next TimeStamp.epoch || TimeStamp.lt new_time next then new_time else next

lower-IsEarly :
    (next : TimeStamp) (st : Store) (timer : ℕ) (heap : List ℕ)
    → IsBefore (st timer).expire.unix_time_stamp st heap
    → IsEarly next st heap
    → IsEarly (lower next (st timer).expire) st (timer ∷ heap)
unfolding TimeStamp.epoch
lower-IsEarly next st timer heap b early =
    elim (Bool-cases (TimeStamp.eq next TimeStamp.epoch || TimeStamp.lt (st timer).expire next)) [
      | inl c ↦
          rw c (inr (IsBefore-cons (st timer).expire.unix_time_stamp st timer heap (omega arith) b))
      | inr c ↦ rw c (elim early [
        | inl z ↦ absurd (ground arith)
        | inr old ↦ inr (IsBefore-cons next.unix_time_stamp st timer heap (ground arith) old)
      ])
    ]

next_after-IsEarly :
    (next : TimeStamp) (st : Store) (heap : List ℕ) (timer : ℕ)
    → IsHeap st heap
    → IsEarly next st heap
    → IsEarly (next_after next st heap timer) st (timer ∷ heap)
next_after-IsEarly next st [] timer h early =
    lower-IsEarly next st timer [] (λ q m. absurd (not-mem-nil m)) early
next_after-IsEarly next st (p ∷ rest) timer h early =
    elim (Bool-cases (Timer.lt (st timer) (st p))) [
      | inl e ↦ rw e (
          lower-IsEarly next st timer (p ∷ rest)
            (IsBefore-root (st timer).expire.unix_time_stamp st p rest h (ground arith)) early)
      | inr e ↦ rw e (elim early [
        | inl z ↦ inl z
        | inr old ↦
            let below = old p mem-cons_self in
            inr (IsBefore-cons next.unix_time_stamp st timer (p ∷ rest) (ground arith) old)
      ])
    ]

-- `n` is when some timer of the list expires, and none expires before.
abbrev pub IsFirst : TimeStamp → Store → List ℕ → Type 0
IsFirst n st heap = (m : ℕ) × Mem m heap × (n ≡ (st m).expire) × IsBefore n.unix_time_stamp st heap

pub IsFirst-NextIs :
    (n : TimeStamp) (st : Store) (heap : List ℕ)
    → IsHeap st heap
    → IsFirst n st heap
    → NextIs n st heap
IsFirst-NextIs n st [] h (m, at, e, b) = absurd (not-mem-nil at)
IsFirst-NextIs n st (x ∷ rest) h (m, at, e, b) =
    let above = root_expires_first st x rest h m at in
    let below = b x mem-cons_self in
    ap (λ (u : ℤ). let t : TimeStamp = record { unix_time_stamp = u } in t)
      (eq_of_parts n.unix_time_stamp (st x).expire.unix_time_stamp (ground arith))

next_after-IsFirst :
    (next : TimeStamp) (st : Store) (heap : List ℕ) (timer : ℕ)
    → IsHeap st heap
    → NextIs next st heap
    → IsFirst (next_after next st heap timer) st (timer ∷ heap)
unfolding TimeStamp.epoch
next_after-IsFirst next st [] timer h z =
    let all =
      IsBefore-cons (st timer).expire.unix_time_stamp st timer [] (omega arith)
        (λ q m. absurd (not-mem-nil m)) in
    rw z (timer, mem-cons_self, refl, all)
next_after-IsFirst next st (p ∷ rest) timer h z = elim (Bool-cases (Timer.lt (st timer) (st p))) [
  | inl e ↦
      let all =
        IsBefore-cons (st timer).expire.unix_time_stamp st timer (p ∷ rest) (omega arith)
          (IsBefore-root (st timer).expire.unix_time_stamp st p rest h (ground arith)) in
      let set : next_after next st (p ∷ rest) timer ≡ (st timer).expire = ground arith in
      rw set (timer, mem-cons_self, refl, all)
  | inr e ↦
      let all =
        IsBefore-cons (st p).expire.unix_time_stamp st timer (p ∷ rest) (ground arith)
          (IsBefore-root (st p).expire.unix_time_stamp st p rest h (omega arith)) in
      rw (e, z) (p, mem-cons_of_mem timer mem-cons_self, refl, all)
]

IsFirst-perm :
    (n : TimeStamp) (st : Store) {xs ys : List ℕ} → Perm ys xs → IsFirst n st xs → IsFirst n st ys
IsFirst-perm n st same (m, at, e, b) =
    (m, (Perm.mem_iff same).1 at, e, λ q mem. b q ((Perm.mem_iff same).0 mem))

IsEarly-perm :
    (n : TimeStamp) (st : Store) {xs ys : List ℕ} → Perm ys xs → IsEarly n st xs → IsEarly n st ys
IsEarly-perm n st same (inl z) = inl z
IsEarly-perm n st same (inr b) = inr (λ q mem. b q ((Perm.mem_iff same).0 mem))

-- What `addTimer` of a new timer leaves.
pub record Added (q : TimerQueue) (t : Timer) (r : TimerQueue) : Type 0 where
  pub valid : IsValid r
  pub contents : Perm r.timer_heap (q.fresh ∷ q.timer_heap)
  pub store : r.store ≡ Timer.store_at q.store q.fresh t
  pub fresh : r.fresh ≡ suc q.fresh
  pub reads : r.reads ≡ q.reads
  pub fired : r.fired ≡ q.fired
  pub synced : IsSynced q → IsSynced r

schedule-add_timer :
    (q : TimerQueue) (t : Timer)
    → schedule q t
      ≡ add_timer
          (record q { store = Timer.store_at q.store q.fresh t; fresh = suc q.fresh })
          q.fresh
unfolding schedule
schedule-add_timer q t = refl

module _ (q : TimerQueue) (t : Timer) (v : IsValid q) where
  abbrev grown : Store
  grown = Timer.store_at q.store q.fresh t

  fresh_out : ¬ Mem q.fresh q.timer_heap
  fresh_out m = let below = v.known q.fresh m in omega arith

  pub grown-Agree : Agree q.store grown q.timer_heap
  grown-Agree = store_at-Agree q.store q.fresh t q.timer_heap fresh_out

  pub grown_at : grown q.fresh ≡ t
  grown_at = ground arith

  grown-IsHeap : IsHeap grown q.timer_heap
  grown-IsHeap = Agree-IsHeap q.store grown q.timer_heap grown-Agree v.heap

  grown-IsEarly : IsEarly q.next_time grown q.timer_heap
  grown-IsEarly = elim v.early [ inl z ↦ inl z | inr b ↦ inr (λ p m. rw (grown-Agree p m) (b p m)) ]

  grown-NextIs :
      (heap : List ℕ)
      → Agree q.store grown heap
      → NextIs q.next_time q.store heap
      → NextIs q.next_time grown heap
  grown-NextIs [] same z = z
  grown-NextIs (p ∷ rest) same z = rw (same p mem-cons_self) z

  grown-all :
      (P : ℕ → Timer → Type 0)
      → ((p : ℕ) → IsProp (P p (grown p)))
      → P q.fresh t
      → ((p : ℕ) → Mem p q.timer_heap → P p (q.store p))
      → (p : ℕ) → Mem p (q.fresh ∷ q.timer_heap)
      → P p (grown p)
  grown-all P prop new old =
      (forall_mem-cons prop).1 (rw grown_at new, λ p m. rw (grown-Agree p m) (old p m))

  grown_known : (p : ℕ) → Mem p (q.fresh ∷ q.timer_heap) → p < suc q.fresh
  grown_known =
      (forall_mem-cons {p = λ p. p < suc q.fresh} λ p. le_prop).1
        (omega arith, λ p m. let below = v.known p m in omega arith)

  -- Adding a new timer, which waits at least a second if it repeats, to a valid queue that has
  -- room ends. The queue stays valid, holds the old timers and the new one, and `next_time_` is
  -- when the first timer expires if it was before.
  pub schedule_correct : IsSlow t → length q.timer_heap < max_size → Ends (Added q t) (schedule q t)
  schedule_correct slow room =
      let (low, e, (h, same)) =
        Ends-inv (add_timer_correct grown q.timer_heap q.fresh grown-IsHeap room) in
      let all = λ (p : ℕ) (m : Mem p low). (Perm.mem_iff same).0 m in
      let seen = record q { store = grown; fresh = suc q.fresh } in
      rw (schedule-add_timer q t, add_timer-next seen q.timer_heap q.fresh e)
        (ends (record {
          valid = record {
            heap = h;
            distinct = Perm.nodup (Perm.symm same) (Nodup-cons.1 (fresh_out, v.distinct));
            known = λ p m. grown_known p (all p m);
            early = IsEarly-perm _ grown same (
                next_after-IsEarly q.next_time grown q.timer_heap q.fresh grown-IsHeap
                  grown-IsEarly);
            slow = λ p m.
                grown-all (λ p t. IsSlow t) (λ p. Π_prop λ _. le_prop) slow v.slow p (all p m);
          };
          contents = same;
          store = refl;
          fresh = refl;
          reads = refl;
          fired = refl;
          synced = λ z. IsFirst-NextIs _ grown low h (
              IsFirst-perm _ grown same (
                next_after-IsFirst q.next_time grown q.timer_heap q.fresh grown-IsHeap
                  (grown-NextIs q.timer_heap grown-Agree z)));
        }))
