-- ===== src/TimerHeap/Up.antt =====
-- `TimerHeap::up`: one timer that may expire before those above it is moved to its place.
use mathlib.Core.List.Perm
use qg_server.Common.{
  ℕ, zero, suc, ◌+◌, ◌≤◌, ◌<◌, ◌≡◌, ◌≢◌, List, arith, lt→ltb, length, Ends, ends, Ends-weaken,
  Ends-branch,
}
use qg_server.Common.Int.{ltb_ℤ, ◌≤ℤ◌, ◌<ℤ◌}
use qg_server.Timer.{Store}
use qg_server.TimerHeap.{parent_of, up_loop, up}
use qg_server.TimerHeap.Order.{
  max_size, parent, key, IsHeap, Reordered, parent_of-eq, less-done, swap-done, get_or-exchange,
  exchange, exchange-perm, length-exchange,
}

-- Only the edge above `idx` may be out of order.
pub record AboveOpen (st : Store) (heap : List ℕ) (idx : ℕ) : Type 0 where
  pub inside : idx < length heap
  pub small : length heap ≤ max_size
  pub edges : (c : ℕ) → 0 < c → c < length heap → c ≢ idx → key st heap (parent c) ≤ℤ key st heap c
  pub across :
      (c : ℕ)
      → 0 < c
      → c < length heap
      → parent c ≡ idx
      → 0 < idx
      → key st heap (parent idx) ≤ℤ key st heap c

module _ (st : Store) (heap : List ℕ) (idx : ℕ) (v : AboveOpen st heap idx) (pos : 0 < idx)
    (above : key st heap idx <ℤ key st heap (parent idx)) where
  swap-edges :
      (c : ℕ)
      → 0 < c
      → c < length heap
      → c ≢ parent idx
      → key st (exchange heap idx (parent idx)) (parent c)
        ≤ℤ key st (exchange heap idx (parent idx)) c
  swap-edges c p q r =
      let at = get_or-exchange heap idx (parent idx) v.inside (omega arith) in
      ground (arith, at c, at (parent c), v.edges c, v.across c)

  swap-AboveOpen : AboveOpen st (exchange heap idx (parent idx)) (parent idx)
  swap-AboveOpen =
      let size = length-exchange heap idx (parent idx) in
      let at = get_or-exchange heap idx (parent idx) v.inside (omega arith) in
      record {
        inside = omega (arith, size);
        small = omega (arith, size);
        edges = λ c p q r. swap-edges c p (omega (arith, size)) r;
        across = λ c p q r s.
            ground (arith, size, at c, at (parent (parent idx)), v.edges c, v.edges (parent idx));
      }

settled-IsHeap :
    (st : Store) (heap : List ℕ) (idx : ℕ)
    → AboveOpen st heap idx
    → (0 < idx → key st heap (parent idx) ≤ℤ key st heap idx)
    → IsHeap st heap
settled-IsHeap st heap idx v h c p q = ground (arith, v.edges c)

up_loop_sorts :
    (fuel : ℕ) (st : Store) (heap : List ℕ) (idx p : ℕ)
    → idx < fuel
    → (0 < idx → p ≡ parent idx)
    → AboveOpen st heap idx
    → Ends (Reordered st heap) (up_loop st fuel heap idx p)
unfolding up_loop
up_loop_sorts zero st heap idx p f e v = absurd (omega arith)
up_loop_sorts (suc fuel) st heap zero p f e v =
    ends (settled-IsHeap st heap zero v (λ h. absurd (omega arith)), Perm.rfl)
up_loop_sorts (suc fuel) st heap (suc i) p f e v =
    let idx = suc i in
    let pos : 0 < idx = omega arith in
    let hp : parent idx < length heap = omega (arith, v.inside) in
    rw
      (
        lt→ltb 0 idx pos,
        e pos,
        less-done heap idx (parent idx) v.inside hp st,
        swap-done heap idx (parent idx) v.inside hp,
      )
      (Ends-branch (ltb_ℤ (key st heap idx) (key st heap (parent idx)))
        (λ above.
          Ends-weaken
            (up_loop_sorts fuel st (exchange heap idx (parent idx)) (parent idx)
              (parent_of (parent idx)) (omega arith)
              (λ h. parent_of-eq (parent idx) h (omega (arith, v.inside, v.small)))
              (swap-AboveOpen st heap idx v pos (ground arith)))
            λ low r. (r.0, Perm.trans r.1 (exchange-perm heap idx (parent idx) v.inside hp)))
        (λ below. ends (settled-IsHeap st heap idx v (λ h. ground arith), Perm.rfl)))

-- `up` ends, and leaves a heap of the same pointers.
pub up_sorts :
    (st : Store) (heap : List ℕ) (idx : ℕ)
    → AboveOpen st heap idx
    → Ends (Reordered st heap) (up st heap idx)
unfolding up
up_sorts st heap idx v =
    up_loop_sorts (idx + 1) st heap idx (parent_of idx) (omega arith)
      (λ h. parent_of-eq idx h (omega (arith, v.inside, v.small))) v
