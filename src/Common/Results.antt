-- ===== src/Common/Results.antt =====
-- How a call ends: with a value, in a fault, or (in the model alone) without fuel.
-- A fault is what the C++ code does not define or stops at: an index out of range, a failed
-- assert, abort(), an exception that nothing catches.
use mathlib.Core.Path.{◌≡◌, refl}
use mathlib.Core.Bool.{Bool, true, false}
use mathlib.Core.Option.{Option, none, some}
use qg_server.Common.Tests.{if◌then◌else◌}

pub data Outcome {ℓ} (A : Type ℓ) : Type ℓ where
  done : A → Outcome A
  fault exhausted : Outcome A

infixl 5 ◌>>=◌ ◌>>◌
abbrev pub ◌>>=◌ {ℓ κ} : {A : Type ℓ} {B : Type κ} → Outcome A → (A → Outcome B) → Outcome B
done a >>= f = f a
fault >>= f = fault
exhausted >>= f = exhausted

abbrev pub ◌>>◌ {ℓ} : {B : Type ℓ} → Outcome (Unit {0}) → Outcome B → Outcome B
m >> k = m >>= λ _. k

-- assert(b)
abbrev pub assert : Bool → Outcome (Unit {0})
assert true = done tt
assert false = fault

abbrev pub or_fault {ℓ} : {A : Type ℓ} → Option A → Outcome A
or_fault none = fault
or_fault (some a) = done a

-- The call ends with a value, and the value satisfies `P`.
pub data Ends {ℓ κ} {A : Type ℓ} (P : A → Type κ) : Outcome A → Type (ℓ ⊔ κ) where
  ends : {a : A} → P a → Ends P (done a)

module _ {ℓ κ} {A : Type ℓ} {P : A → Type κ} where
  pub Ends-then {ℓ' κ'} :
      {B : Type ℓ'} {Q : B → Type κ'} {m : Outcome A} {f : A → Outcome B}
      → Ends P m
      → ((a : A) → P a → Ends Q (f a))
      → Ends Q (m >>= f)
  Ends-then (ends p) next = next _ p

  pub Ends-weaken {κ'} :
      {Q : A → Type κ'} {m : Outcome A} → Ends P m → ((a : A) → P a → Q a) → Ends Q m
  Ends-weaken (ends p) weaken = ends (weaken _ p)

  pub Ends-branch :
      {m n : Outcome A} (b : Bool)
      → (b ≡ true → Ends P m)
      → (b ≡ false → Ends P n)
      → Ends P (if b then m else n)
  Ends-branch true yes_case no_case = yes_case refl
  Ends-branch false yes_case no_case = no_case refl

  pub Ends-done : {a : A} → Ends P (done a) → P a
  Ends-done (ends p) = p

  pub Ends-inv : {m : Outcome A} → Ends P m → (a : A) × (m ≡ done a) × P a
  Ends-inv (ends p) = (_, refl, p)

  pub Ends-choice :
      (x y : A) (b : Bool)
      → (b ≡ true → P x)
      → (b ≡ false → P y)
      → Ends P (done (if b then x else y))
  Ends-choice x y true yes_case no_case = ends (yes_case refl)
  Ends-choice x y false yes_case no_case = ends (no_case refl)

  pub Ends-value : {m : Outcome A} (a : A) → Ends P m → m ≡ done a → P a
  Ends-value a (ends {a = b} p) e = let same : a ≡ b = cc in rw same p

module _ {ℓ κ κ'} {A : Type ℓ} {P : A → Type κ} {Q : A → Type κ'} where
  pub Ends-both : {m : Outcome A} → Ends P m → Ends Q m → Ends (λ a. P a × Q a) m
  Ends-both (ends {a} p) q = ends (p, Ends-value a q refl)
