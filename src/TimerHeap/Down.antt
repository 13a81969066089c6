-- ===== src/TimerHeap/Down.antt =====
-- `TimerHeap::down`: one timer that may expire after those below it is moved to its place.
-- `popTimer` calls it while the last slot still holds a copy of the moved pointer, so the
-- lemmas follow that slot too.
use mathlib.Core.List.Perm
use qg_server.Common.{
  ℕ, zero, suc, ◌+◌, ◌-◌, ◌*◌, ◌%◌, ◌≤◌, ◌<◌, ◌≡◌, ◌≢◌, ◌⊎◌, inl, inr, refl, List, arith, ltb, ◌==◌,
  length, get_or, Ends, ends, Ends-then, Ends-weaken, Ends-branch, Ends-choice,
}
use qg_server.Common.Int.{ltb_ℤ, ◌≤ℤ◌}
use qg_server.Timer.{Store}
use qg_server.TimerHeap.{word, child_of, min_child, down_loop, down}
use qg_server.TimerHeap.Order.{
  max_size, parent, key, IsHeap, Reordered, child_of-eq, less-done, swap-done, get_or-exchange,
  exchange, exchange-perm, length-exchange,
}

-- Only the edges below `idx` may be out of order.
pub record BelowOpen (st : Store) (heap : List ℕ) (idx : ℕ) : Type 0 where
  pub small : length heap ≤ max_size
  pub edges :
      (c : ℕ) → 0 < c → c < length heap → parent c ≢ idx → key st heap (parent c) ≤ℤ key st heap c
  pub across :
      (c : ℕ)
      → 0 < c
      → c < length heap
      → parent c ≡ idx
      → 0 < idx
      → key st heap (parent idx) ≤ℤ key st heap c

-- `m` is a child of `idx` that expires no later than the other.
record IsMinChild (st : Store) (heap : List ℕ) (idx m : ℕ) : Type 0 where
  inside : m < length heap
  child : (m ≡ 2 * idx + 1) ⊎ (m ≡ 2 * idx + 2)
  least : (c : ℕ) → 0 < c → c < length heap → parent c ≡ idx → key st heap m ≤ℤ key st heap c

min_child-IsMinChild :
    (st : Store) (heap : List ℕ) (idx : ℕ)
    → length heap ≤ max_size
    → 2 * idx + 1 < length heap
    → Ends (IsMinChild st heap idx) (min_child st heap (2 * idx + 1))
unfolding min_child
min_child-IsMinChild st heap idx small h =
    let next : (2 * idx + 1 + 1) % word ≡ 2 * idx + 2 = omega arith in
    rw next (
      Ends-branch (2 * idx + 2 == length heap)
        (λ only. ends (record {
          inside = h;
          child = inl refl;
          least = λ c p q r. let same : c ≡ 2 * idx + 1 = ground arith in rw same (omega arith);
        }))
        (λ both.
          let hn : 2 * idx + 2 < length heap = ground arith in
          rw (less-done heap (2 * idx + 1) (2 * idx + 2) h hn st) (
            Ends-choice _ _ (ltb_ℤ (key st heap (2 * idx + 1)) (key st heap (2 * idx + 2)))
              (λ left. record {
                inside = h;
                child = inl refl;
                least = λ c p q r. sibling c _ p r (omega arith) (ground arith);
              })
              (λ right. record {
                inside = hn;
                child = inr refl;
                least = λ c p q r. sibling c _ p r (ground arith) (omega arith);
              }))))
  where
    sibling :
        (c m : ℕ)
        → 0 < c
        → parent c ≡ idx
        → key st heap m ≤ℤ key st heap (2 * idx + 1)
        → key st heap m ≤ℤ key st heap (2 * idx + 2)
        → key st heap m ≤ℤ key st heap c
    sibling c m p r first second =
        let which : (c ≡ 2 * idx + 1) ⊎ (c ≡ 2 * idx + 2) = omega arith in
        elim which [ inl e ↦ rw e first | inr e ↦ rw e second ]

module _ (st : Store) (heap : List ℕ) (idx m : ℕ) (v : BelowOpen st heap idx)
    (s : IsMinChild st heap idx m) (below : key st heap m ≤ℤ key st heap idx) where
  swap-BelowOpen : BelowOpen st (exchange heap idx m) m
  swap-BelowOpen =
      let size = length-exchange heap idx m in
      let at = get_or-exchange heap idx m (omega (arith, s.inside, s.child)) s.inside in
      record {
        small = omega (arith, size, v.small);
        edges = λ c p q r.
            ground (arith, size, at c, at (parent c), v.edges c, v.across m, s.least c, s.child);
        across = λ c p q r t. ground (arith, size, at c, at (parent m), v.edges c, s.child);
      }

-- The heap that `down` leaves, when the slots `idx` and `last` held one pointer: the slot `last`
-- still holds it.
abbrev pub Sunk : Store → List ℕ → ℕ → List ℕ → Type 0
Sunk st heap last low = Reordered st heap low × (get_or low last 0 ≡ get_or heap last 0)

settled-IsHeap :
    (st : Store) (heap : List ℕ) (idx : ℕ)
    → BelowOpen st heap idx
    → ((c : ℕ) → 0 < c → c < length heap → parent c ≡ idx → key st heap idx ≤ℤ key st heap c)
    → IsHeap st heap
settled-IsHeap st heap idx v h c p q = ground (arith, v.edges c, h c)

down_loop_sorts :
    (fuel : ℕ) (st : Store) (heap : List ℕ) (idx last child : ℕ)
    → length heap - idx < fuel
    → idx < length heap
    → child ≡ 2 * idx + 1
    → last + 1 ≡ length heap
    → get_or heap idx 0 ≡ get_or heap last 0
    → BelowOpen st heap idx
    → Ends (Sunk st heap last) (down_loop st fuel heap idx child)
unfolding down_loop
down_loop_sorts zero st heap idx last child f hi e hl same v = absurd (omega arith)
down_loop_sorts (suc fuel) st heap idx last child f hi e hl same v = rw e (
    Ends-branch (ltb (2 * idx + 1) (length heap))
      (λ more. Ends-then (min_child-IsMinChild st heap idx v.small (ground arith)) λ m s.
        rw (less-done heap idx m hi s.inside st, swap-done heap idx m hi s.inside)
          (Ends-branch (ltb_ℤ (key st heap idx) (key st heap m))
            (λ stop. ends (
              (settled-IsHeap st heap idx v (λ c p q r. ground (arith, s.least c)), Perm.rfl),
              refl,
            ))
            (λ sink.
              let at = get_or-exchange heap idx m hi s.inside in
              let size = length-exchange heap idx m in
              Ends-weaken
                (down_loop_sorts fuel st (exchange heap idx m) m last (child_of m)
                  (omega (arith, size, s.child)) (omega (arith, size, s.inside))
                  (child_of-eq m (omega (arith, s.inside, v.small))) (omega (arith, size))
                  (let apart : idx ≢ last = ground arith in ground (arith, at m, at last))
                  (swap-BelowOpen st heap idx m v s (ground arith)))
                λ low r. (
                  (r.0.0, Perm.trans r.0.1 (exchange-perm heap idx m hi s.inside)),
                  (let apart : idx ≢ last = ground arith in ground (arith, r.1, at last)),
                ))))
      (λ leaf.
        ends ((settled-IsHeap st heap idx v (λ c p q r. absurd (ground arith)), Perm.rfl), refl)))

-- `down` ends, and leaves a heap of the same pointers, the last slot as it was.
pub down_sorts :
    (st : Store) (heap : List ℕ) (idx last : ℕ)
    → idx < length heap
    → last + 1 ≡ length heap
    → get_or heap idx 0 ≡ get_or heap last 0
    → BelowOpen st heap idx
    → Ends (Sunk st heap last) (down st heap idx)
unfolding down
down_sorts st heap idx last hi hl same v =
    down_loop_sorts (length heap + 1) st heap idx last (child_of idx) (omega arith) hi
      (child_of-eq idx (omega (arith, v.small))) hl same v
