-- ===== src/TimerHeap/Edit.antt =====
-- `TimerHeap::addTimer` and `TimerHeap::popTimer`. `popTimer` copies the last pointer over the
-- root and sifts before it drops the last slot, so the pointer is in the vector twice meanwhile.
use mathlib.Core.List.Perm
use mathlib.Core.List.{forall_mem-cons, not-mem-nil}
use native.Mathlib.Bridge.{le_prop}
use qg_server.Common.{
  ℕ, suc, ◌-◌, ◌≤◌, ◌<◌, ◌≡◌, sym, ap, ◌∙◌, List, [], ◌∷◌, ◌++◌, Mem, Perm, arith, length, get_or,
  set, take, Ends, ends, Ends-then, Ends-weaken, length-append, get_or-set, get_or-append_left,
  get_or-take, take-append-last, length-perm, append_end-perm, length-take,
}
use qg_server.Common.Int.{◌≤ℤ◌}
use qg_server.Timer.{Store}
use qg_server.TimerHeap.{add_timer, pop_timer}
use qg_server.TimerHeap.Order.{max_size, parent, key, IsHeap, Reordered, load-done, root_least}
use qg_server.TimerHeap.Up.{AboveOpen, up_sorts}
use qg_server.TimerHeap.Down.{BelowOpen, down_sorts}

-- The order of all edges but those from the root.
abbrev pub IsHeapBelowRoot : Store → List ℕ → Type 0
IsHeapBelowRoot st heap =
    (c : ℕ) → 0 < c → c < length heap → 0 < parent c → key st heap (parent c) ≤ℤ key st heap c

pushed-AboveOpen :
    (st : Store) (heap : List ℕ) (timer : ℕ)
    → IsHeap st heap
    → length heap < max_size
    → AboveOpen st (heap ++ timer ∷ []) (length (heap ++ timer ∷ []) - 1)
pushed-AboveOpen st heap timer h small =
    let size = length-append heap (timer ∷ []) in
    record {
      inside = omega (arith, size);
      small = omega (arith, size);
      edges = λ c p q r. ground (
        arith,
        size,
        h c,
        get_or-append_left heap (timer ∷ []) c 0,
        get_or-append_left heap (timer ∷ []) (parent c) 0,
      );
      across = λ c p q r s. absurd (omega (arith, size));
    }

-- Adding a timer to a heap that has room ends, and leaves a heap of the old pointers and the new.
pub add_timer_correct :
    (st : Store) (heap : List ℕ) (timer : ℕ)
    → IsHeap st heap
    → length heap < max_size
    → Ends (λ low. IsHeap st low × Perm low (timer ∷ heap)) (add_timer st heap timer)
unfolding add_timer
add_timer_correct st heap timer h small =
    Ends-weaken
      (up_sorts st (heap ++ timer ∷ []) (length (heap ++ timer ∷ []) - 1)
        (pushed-AboveOpen st heap timer h small))
      λ low r. (r.0, Perm.trans r.1 (append_end-perm heap timer))

-- `p` expires no later than `q`.
abbrev pub ExpiresBy : Store → ℕ → ℕ → Type 0
ExpiresBy st p q = (st p).expire.unix_time_stamp ≤ℤ (st q).expire.unix_time_stamp

mem_expires_after :
    (st : Store) (p : ℕ) (heap : List ℕ)
    → ((i : ℕ) → i < length heap → (st p).expire.unix_time_stamp ≤ℤ key st heap i)
    → (q : ℕ) → Mem q heap
    → ExpiresBy st p q
unfolding get_or
mem_expires_after st p [] h = λ q m. absurd (not-mem-nil m)
mem_expires_after st p (x ∷ heap) h =
    (forall_mem-cons λ q. le_prop).1
      (h 0 (omega arith), mem_expires_after st p heap λ i b. h (suc i) (omega arith))

-- No pointer in a heap expires before the root.
pub root_expires_first :
    (st : Store) (p : ℕ) (rest : List ℕ)
    → IsHeap st (p ∷ rest)
    → (q : ℕ) → Mem q (p ∷ rest)
    → ExpiresBy st p q
unfolding get_or
root_expires_first st p rest h =
    mem_expires_after st p (p ∷ rest) λ i b. root_least st (p ∷ rest) i h b

module _ (st : Store) (p : ℕ) (rest : List ℕ) where
  abbrev heap : List ℕ
  heap = p ∷ rest

  abbrev last : ℕ
  last = get_or heap (length heap - 1) 0

  copied-BelowOpen :
      IsHeapBelowRoot st heap → length heap ≤ max_size → BelowOpen st (set heap 0 last) 0
  copied-BelowOpen h small =
      let at = λ (c : ℕ). get_or-set heap 0 c last 0 (omega arith) in
      record {
        small = small;
        edges = λ c q r s. ground (arith, at c, at (parent c), h c);
        across = λ c q r s t. absurd (omega arith);
      }

  cut-IsHeap :
      (low : List ℕ)
      → length low ≡ length heap
      → IsHeap st low
      → IsHeap st (take (length low - 1) low)
  cut-IsHeap low e h c q r =
      let n = length low - 1 in
      let size = length-take n low in
      ground (arith, size, h c, get_or-take n low c 0, get_or-take n low (parent c) 0)

  cut-perm :
      (low : List ℕ)
      → Perm low (last ∷ rest)
      → get_or low (length heap - 1) 0 ≡ last
      → Perm (take (length low - 1) low) rest
  cut-perm low same e =
      let size = length-perm same in
      let n = length low - 1 in
      let at : n ≡ length heap - 1 = omega (arith, size) in
      let end : get_or low n 0 ≡ last = ap (λ k. get_or low k 0) at ∙ e in
      let whole : take n low ++ last ∷ [] ≡ low =
        ap (λ x. take n low ++ x ∷ []) (sym end) ∙ take-append-last n low 0 (omega (arith, size)) in
      Perm.cons_inv (Perm.trans (Perm.symm (append_end-perm (take n low) last)) (rw whole same))

  -- Removing the root ends, and leaves a heap of the other pointers, also where the root itself
  -- is out of order.
  pub pop_timer_sorts :
      IsHeapBelowRoot st heap
      → length heap ≤ max_size
      → Ends (Reordered st rest) (pop_timer st heap)
  unfolding pop_timer
  pop_timer_sorts h small = rw (load-done heap (length heap - 1) (omega arith)) (
      Ends-then
        (down_sorts st (set heap 0 last) 0 (length heap - 1) (omega arith) (omega arith)
          (ground (arith, get_or-set heap 0 0 last 0, get_or-set heap 0 (length heap - 1) last 0))
          (copied-BelowOpen h small))
        λ low ((sorted, same), end). ends (
          cut-IsHeap low (length-perm same) sorted,
          cut-perm low same (ground (arith, end, get_or-set heap 0 (length heap - 1) last 0)),
        ))

  -- A removal from a heap whose first pointer is `p`, of at most `max_size` pointers, ends,
  -- takes off `p` alone, leaves a heap, and no pointer that was in the heap expires before `p`.
  pub pop_timer_correct :
      IsHeap st heap
      → length heap ≤ max_size
      → Ends
          (λ low. Reordered st rest low × ((q : ℕ) → Mem q heap → ExpiresBy st p q))
          (pop_timer st heap)
  pop_timer_correct h small =
      Ends-weaken (pop_timer_sorts (λ c a b d. h c a b) small)
        λ low r. (r, root_expires_first st p rest h)
