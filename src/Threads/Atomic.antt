-- ===== src/Threads/Atomic.antt =====
-- src/util/atomic.h: an integer that threads share. The built-in functions of the compiler change
-- it in one step each, and wrap at 32 bits: `value` is the bit pattern. `addAndGet` adds to what
-- the step returned; that sum is written as it wraps, where C++ leaves it undefined.
use mathlib.Core.Logic.{∥∥₁_elim}
use mathlib.Core.List.{Permᴰ}
use native.Mathlib.Nat.{ℕ_set}
use qg_server.Common.{
  ℕ, ◌+◌, ◌-◌, ◌%◌, ◌^◌, ◌<◌, ◌≡◌, refl, sym, ap, ◌∙◌, List, [], ◌∷◌, Perm, arith,
}

pub record AtomicInt : Type 0 where
  pub value : ℕ

abbrev pub new_atomic_int : AtomicInt
new_atomic_int = record { value = 0 }

-- __sync_val_compare_and_swap of 0 for 0.
abbrev pub get : AtomicInt → ℕ × AtomicInt
get a = (a.value, a)

unfoldable pub get_and_add : ℕ → AtomicInt → ℕ × AtomicInt
get_and_add x a = (a.value, record { value = (a.value + x) % 2 ^ 32 })

unfoldable pub add_and_get : ℕ → AtomicInt → ℕ × AtomicInt
unfolding get_and_add
add_and_get x a = let (old, b) = get_and_add x a in ((old + x) % 2 ^ 32, b)

unfoldable pub increment_and_get : AtomicInt → ℕ × AtomicInt
unfolding add_and_get
increment_and_get a = add_and_get 1 a

-- The pattern of -1.
unfoldable pub decrement_and_get : AtomicInt → ℕ × AtomicInt
unfolding add_and_get
decrement_and_get a = add_and_get (2 ^ 32 - 1) a

unfoldable pub add : ℕ → AtomicInt → AtomicInt
unfolding get_and_add
add x a = (get_and_add x a).1

unfoldable pub increment : AtomicInt → AtomicInt
unfolding increment_and_get
increment a = (increment_and_get a).1

unfoldable pub decrement : AtomicInt → AtomicInt
unfolding decrement_and_get
decrement a = (decrement_and_get a).1

abbrev pub get_and_set : ℕ → AtomicInt → ℕ × AtomicInt
get_and_set x a = (a.value, record { value = x })

-- The operations that threads make, in the order in which they take effect.
pub data Op : Type 0 where
  adds : ℕ → Op
  increments decrements : Op

unfoldable pub run : List Op → AtomicInt → AtomicInt
unfolding add increment decrement
run [] a = a
run (adds x ∷ ops) a = run ops (add x a)
run (increments ∷ ops) a = run ops (increment a)
run (decrements ∷ ops) a = run ops (decrement a)

abbrev pub addend : Op → ℕ
addend (adds x) = x
addend increments = 1
addend decrements = 2 ^ 32 - 1

abbrev pub total : List Op → ℕ
total [] = 0
total (op ∷ ops) = addend op + total ops

run-total :
    (ops : List Op) (a : AtomicInt)
    → a.value < 2 ^ 32
    → (run ops a).value ≡ (a.value + total ops) % 2 ^ 32
unfolding run
run-total [] a small = omega arith
run-total (adds x ∷ ops) a small = run-total ops (add x a) (omega arith) ∙ omega arith
run-total (increments ∷ ops) a small = run-total ops (increment a) (omega arith) ∙ omega arith
run-total (decrements ∷ ops) a small = run-total ops (decrement a) (omega arith) ∙ omega arith

total-perm : {ops others : List Op} → Permᴰ ops others → total ops ≡ total others
total-perm Permᴰ.nil = refl
total-perm (Permᴰ.cons e p) = omega (arith, ap addend e, total-perm p)
total-perm (Permᴰ.swap e f) = omega (arith, ap addend e, ap addend f)
total-perm (Permᴰ.trans p q) = total-perm p ∙ total-perm q

-- In whatever order the additions, increments and decrements of the threads take effect, the
-- integer ends with the same value: the first value and all that was added, modulo 2^32.
pub run_any_order :
    (a : AtomicInt) (ops others : List Op)
    → a.value < 2 ^ 32
    → Perm ops others
    → ((run ops a).value ≡ (run others a).value)
      × ((run ops a).value ≡ (a.value + total ops) % 2 ^ 32)
run_any_order a ops others small p =
    let same : total ops ≡ total others = ∥∥₁_elim p (ℕ_set _ _) total-perm in
    (
      run-total ops a small
          ∙ ap (λ (n : ℕ). (a.value + n) % 2 ^ 32) same
          ∙ sym (run-total others a small),
      run-total ops a small,
    )
