-- ===== src/TimerHeap/Order.antt =====
-- The heap order, by the times at which the timers expire.
use mathlib.Core.List.Perm
use qg_server.Common.{
  ℕ, zero, suc, ◌+◌, ◌-◌, ◌*◌, ◌/◌, ◌^◌, ◌<◌, ◌≡◌, List, Perm, arith, done, ◌==◌, if◌then◌else◌,
  length, set, get_or, length-set, get_elem?-get_or, get_or-set, set-perm,
}
use qg_server.Common.Int.{ℤ, ltb_ℤ, ◌≤ℤ◌}
use qg_server.Timer.{Store}
use qg_server.TimerHeap.{parent_of, child_of, load, less, swap}

-- A vector of 16-byte pointers has fewer entries than this.
abbrev pub max_size : ℕ
max_size = 2 ^ 59

abbrev pub parent : ℕ → ℕ
parent c = (c - 1) / 2

-- When the timer at an index expires.
abbrev pub key : Store → List ℕ → ℕ → ℤ
key st heap i = (st (get_or heap i 0)).expire.unix_time_stamp

-- No timer expires before its parent.
abbrev pub IsHeap : Store → List ℕ → Type 0
IsHeap st heap = (c : ℕ) → 0 < c → c < length heap → key st heap (parent c) ≤ℤ key st heap c

-- `low` holds the pointers of `heap`, in heap order.
abbrev pub Reordered : Store → List ℕ → List ℕ → Type 0
Reordered st heap low = IsHeap st low × Perm low heap

pub parent_of-eq : (c : ℕ) → 0 < c → c < max_size → parent_of c ≡ parent c
unfolding parent_of
parent_of-eq c p h = omega arith

pub child_of-eq : (c : ℕ) → c < max_size → child_of c ≡ 2 * c + 1
unfolding child_of
child_of-eq c h = omega arith

pub load-done : (heap : List ℕ) (i : ℕ) → i < length heap → load heap i ≡ done (get_or heap i 0)
unfolding load
load-done heap i h = rw (get_elem?-get_or heap i 0 h)

-- The vector after the exchange of two entries.
abbrev pub exchange : List ℕ → ℕ → ℕ → List ℕ
exchange heap i j = set (set heap i (get_or heap j 0)) j (get_or heap i 0)

module _ (heap : List ℕ) (i j : ℕ) (hi : i < length heap) (hj : j < length heap) where
  pub less-done : (st : Store) → less st heap i j ≡ done (ltb_ℤ (key st heap i) (key st heap j))
  unfolding less
  less-done st = rw (load-done heap i hi, load-done heap j hj)

  pub swap-done : swap heap i j ≡ done (exchange heap i j)
  unfolding swap
  swap-done = rw (load-done heap i hi, load-done heap j hj)

  pub get_or-exchange :
      (c : ℕ)
      → get_or (exchange heap i j) c 0
        ≡ (if j == c then get_or heap i 0 else if i == c then get_or heap j 0 else get_or heap c 0)
  get_or-exchange c = rw (
    get_or-set (set heap i (get_or heap j 0)) j c (get_or heap i 0) 0 (rw length-set hj),
    get_or-set heap i c (get_or heap j 0) 0 hi,
  )

  pub exchange-perm : Perm (exchange heap i j) heap
  exchange-perm =
      let first = set heap i (get_or heap j 0) in
      let kept : get_or first j 0 ≡ get_or heap j 0 =
        ground (arith, get_or-set heap i j (get_or heap j 0) 0) in
      Perm.cons_inv (
        Perm.trans (rw kept at (set-perm first j (get_or heap i 0) 0 (rw length-set hj)))
          (set-perm heap i (get_or heap j 0) 0 hi))

pub length-exchange : (heap : List ℕ) (i j : ℕ) → length (exchange heap i j) ≡ length heap
length-exchange heap i j = simp length-set

-- The least timer stands at the root.
least_below :
    (k : ℕ) (st : Store) (heap : List ℕ) (i : ℕ)
    → IsHeap st heap
    → i < k
    → i < length heap
    → key st heap 0 ≤ℤ key st heap i
least_below zero st heap i h f p = absurd (omega arith)
least_below (suc k) st heap zero h f p = omega arith
least_below (suc k) st heap (suc i) h f p = omega (
  arith,
  h (suc i) (omega arith) p,
  least_below k st heap (parent (suc i)) h (omega arith) (omega arith),
)

pub root_least :
    (st : Store) (heap : List ℕ) (i : ℕ)
    → IsHeap st heap
    → i < length heap
    → key st heap 0 ≤ℤ key st heap i
root_least st heap i h p = least_below (suc i) st heap i h (omega arith) p
