-- ===== src/TimerQueue/Fires.antt =====
-- Which callbacks `TimerQueue::handleTimer` runs, by what a round of its loop does.
use mathlib.Core.List.{
  append-nil, append_assoc, mem-cons_self, mem-cons_of_mem, mem_of_ne_of_mem, not-mem-nil,
}
use mathlib.Core.List.Perm
use qg_server.Common.{
  ℕ, ◌≡◌, ◌⊎◌, sym, ap, ◌∙◌, inl, inr, Bool-cases, ==_iff, arith, ◌==◌, false, List, [], ◌∷◌, ◌++◌,
  Mem,
}
use qg_server.Common.Int.{ℤ, ◌≤ℤ◌}
use qg_server.Timer
use qg_server.Timer.{Timer}
use qg_server.TimerQueue.{TimerQueue}
use qg_server.TimerQueue.Handle.{Moved}
use qg_server.TimerQueue.Work.{Scheduled}

-- A timer of the queue with this callback, which expires at `limit` or before.
pub record Due (limit : ℤ) (q : TimerQueue) (handler : ℕ) : Type 0 where
  pub timer : ℕ
  pub queued : Mem timer q.timer_heap
  pub runs : (q.store timer).timer_handler ≡ handler
  pub early : (q.store timer).expire.unix_time_stamp ≤ℤ limit

-- The callbacks `ran` were run. Of the timers of `q`, each expires at `limit` or before and its
-- callback was run, or is in the queue as it was; and no callback was run but of the former.
pub record Fires (limit : ℤ) (q r : TimerQueue) : Type 0 where
  pub ran : List ℕ
  pub fired : r.fired ≡ q.fired ++ ran
  pub accounted :
      (p : ℕ)
      → Mem p q.timer_heap
      → ((q.store p).expire.unix_time_stamp ≤ℤ limit) × Mem (q.store p).timer_handler ran
        ⊎ Mem p r.timer_heap × (r.store p ≡ q.store p)
  pub only : (handler : ℕ) → Mem handler ran → Due limit q handler

pub nothing_fired :
    (limit : ℤ) (q r : TimerQueue)
    → r.fired ≡ q.fired
    → r.timer_heap ≡ q.timer_heap
    → r.store ≡ q.store
    → Fires limit q r
nothing_fired limit q r fired heap store = record {
  ran = [];
  fired = fired ∙ sym (append-nil q.fired);
  accounted = λ p m. inr (rw heap m, ap (λ (st : Timer.Store). st p) store);
  only = λ h m. absurd (not-mem-nil m);
}

mem-tail : {o p : ℕ} {rest : List ℕ} → (o == p) ≡ false → Mem o (p ∷ rest) → Mem o rest
mem-tail e m = mem_of_ne_of_mem (λ own. absurd (ground (arith, e, own))) m

-- A round on the timer `p`, for a queue with the heap `p ∷ rest`.
pub record Round (limit : ℤ) (q : TimerQueue) (p : ℕ) (rest : List ℕ) (r : TimerQueue)
    : Type 0 where
  pub fired : r.fired ≡ q.fired ++ (q.store p).timer_handler ∷ []
  pub over : (q.store p).expire.unix_time_stamp ≤ℤ limit
  pub kept : (o : ℕ) → Mem o rest → Mem o r.timer_heap × (r.store o ≡ q.store o)
  pub old :
      (o : ℕ)
      → Mem o r.timer_heap
      → (r.store o).expire.unix_time_stamp ≤ℤ limit
      → Mem o (p ∷ rest)
        × ((r.store o).timer_handler ≡ (q.store o).timer_handler)
        × ((q.store o).expire.unix_time_stamp ≤ℤ limit)

-- What `requeue` and the timers of the callback leave.
pub Moved-Round :
    (limit : ℤ) (n : ℕ) (q moved r : TimerQueue) (p : ℕ) (rest : List ℕ)
    → (q.store p).expire.unix_time_stamp ≤ℤ limit
    → Moved q p rest moved
    → Scheduled limit n
        (record moved { fired = moved.fired ++ (moved.store p).timer_handler ∷ [] })
        r
    → Round limit q p rest r
Moved-Round limit n q moved r p rest over m s = record {
  fired =
      s.fired
      ∙ ap (λ (fs : List ℕ). fs ++ (moved.store p).timer_handler ∷ []) m.fired
      ∙ ap (λ (h : ℕ). q.fired ++ h ∷ []) m.handler;
  over = over;
  kept = λ o in_rest.
      let in_moved : Mem o moved.timer_heap = elim m.contents [
        | inl (once, perm) ↦ (Perm.mem_iff perm).1 in_rest
        | inr (again, on, perm) ↦ (Perm.mem_iff perm).1 (mem-cons_of_mem p in_rest)
      ] in
      (s.holds o in_moved, s.kept o in_moved ∙ m.kept o in_rest);
  old = λ o in_r early.
      let in_moved = s.old o in_r early in
      let same = s.kept o in_moved in
      elim m.contents [
        | inl (once, perm) ↦
            let in_rest = (Perm.mem_iff perm).0 in_moved in
            let whole = same ∙ m.kept o in_rest in
            (
              mem-cons_of_mem p in_rest,
              ap (λ (t : Timer). t.timer_handler) whole,
              rw (sym whole) early,
            )
        | inr (again, on, perm) ↦
            let among = (Perm.mem_iff perm).0 in_moved in
            elim (Bool-cases (o == p)) [
              | inl e ↦
                  let own : o ≡ p = (==_iff o p).0 e in
                  (among, ap (λ (t : Timer). t.timer_handler) same ∙ rw own m.handler, rw own over)
              | inr e ↦
                  let in_rest = mem-tail e among in
                  let whole = same ∙ m.kept o in_rest in
                  (among, ap (λ (t : Timer). t.timer_handler) whole, rw (sym whole) early)
            ]
      ];
}

-- A round, and what follows it.
pub Round-Fires :
    (limit : ℤ) (q c r : TimerQueue) (p : ℕ) (rest : List ℕ)
    → q.timer_heap ≡ p ∷ rest
    → Round limit q p rest c
    → Fires limit c r
    → Fires limit q r
Round-Fires limit q c r p rest heap round later =
    let handler = (q.store p).timer_handler in
    record {
      ran = handler ∷ later.ran;
      fired =
          later.fired
          ∙ ap (λ (fs : List ℕ). fs ++ later.ran) round.fired
          ∙ append_assoc q.fired (handler ∷ []) later.ran;
      accounted = λ o m. elim (Bool-cases (o == p)) [
        | inl e ↦ let own : o ≡ p = (==_iff o p).0 e in rw own (inl (round.over, mem-cons_self))
        | inr e ↦
            let in_rest = mem-tail e (rw heap at m) in
            let (in_c, same) = round.kept o in_rest in
            elim (later.accounted o in_c) [
              | inl (early, runs) ↦
                  inl (rw (sym same) early, mem-cons_of_mem handler (rw (sym same) runs))
              | inr (in_r, whole) ↦ inr (in_r, whole ∙ same)
            ]
      ];
      only = λ h m. elim (Bool-cases (h == handler)) [
        | inl e ↦ record {
          timer = p;
          queued = rw heap mem-cons_self;
          runs = sym ((==_iff h handler).0 e);
          early = round.over;
        }
        | inr e ↦
            let d = later.only h (mem-tail e m) in
            let (among, same, early) = round.old d.timer d.queued d.early in
            record {
              timer = d.timer;
              queued = rw heap among;
              runs = sym same ∙ d.runs;
              early = early;
            }
      ];
    }
