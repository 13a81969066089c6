-- ===== src/Common/Maps.antt =====
-- `std::map` as a list of keys and values: a key that is there once is found, and erased.
use Prim.Native.Nat.{ℕ, ◌+◌}
use mathlib.Core.Path.{◌≡◌, refl, ap, ◌∙◌}
use mathlib.Core.Logic.{◌≢◌, inl, inr}
use mathlib.Core.List.{List, [], ◌∷◌}
use mathlib.Core.Option.{Option, none, some}
use native.Mathlib.Omega.{arith}
use qg_server.Common.Tests.{◌==◌, if◌then◌else◌, Bool-cases, ==_iff}
use qg_server.Common.Lists.{length}

abbrev pub lookup : ℕ → List (ℕ × ℕ) → Option ℕ
lookup k [] = none
lookup k (c ∷ cs) = if c.0 == k then some c.1 else lookup k cs

abbrev pub erase : ℕ → List (ℕ × ℕ) → List (ℕ × ℕ)
erase k [] = []
erase k (c ∷ cs) = if c.0 == k then cs else c ∷ erase k cs

pub length-erase :
    (k v : ℕ) (cs : List (ℕ × ℕ)) → lookup k cs ≡ some v → length (erase k cs) + 1 ≡ length cs
length-erase k v [] h = cc
length-erase k v (c ∷ cs) h = ground (arith, length-erase k v cs)

pub lookup-erase : (k j : ℕ) (cs : List (ℕ × ℕ)) → j ≢ k → lookup j (erase k cs) ≡ lookup j cs
lookup-erase k j [] apart = refl
lookup-erase k j (c ∷ cs) apart = ground (arith, lookup-erase k j cs)

pub erase_missing : (k : ℕ) (cs : List (ℕ × ℕ)) → lookup k cs ≡ none → erase k cs ≡ cs
erase_missing k [] h = refl
erase_missing k (c ∷ cs) h = ground (arith, erase_missing k cs)

pub erase_comm : (k j : ℕ) (cs : List (ℕ × ℕ)) → j ≢ k → erase j (erase k cs) ≡ erase k (erase j cs)
erase_comm k j [] apart = refl
erase_comm k j (c ∷ cs) apart = ground (arith, erase_comm k j cs)

-- No key stands twice.
abbrev pub IsMap : List (ℕ × ℕ) → Type 0
IsMap cs = (k : ℕ) → lookup k (erase k cs) ≡ none

pub IsMap-add : (k v : ℕ) (cs : List (ℕ × ℕ)) → lookup k cs ≡ none → IsMap cs → IsMap ((k, v) ∷ cs)
IsMap-add k v cs new m j = ground (arith, m j, new)

pub IsMap-erase : (k : ℕ) (cs : List (ℕ × ℕ)) → IsMap cs → IsMap (erase k cs)
IsMap-erase k cs m j = elim (Bool-cases (j == k)) [
  | inl same ↦
      let one : j ≡ k = (==_iff j k).0 same in
      rw one (ap (lookup k) (erase_missing k (erase k cs) (m k)) ∙ m k)
  | inr other ↦
      let apart : j ≢ k = ground (arith, other) in
      ap (lookup j) (erase_comm k j cs apart) ∙ lookup-erase k j (erase j cs) apart ∙ m j
]
