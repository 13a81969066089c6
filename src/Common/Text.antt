-- ===== src/Common/Text.antt =====
-- `std::string` as a list of bytes, its operations, and the decimal form of a number that
-- `operator<<` writes.
use Prim.Native.Nat.{ℕ, zero, suc, ◌+◌, ◌-◌, ◌*◌, ◌/◌, ◌%◌, ◌^◌, ◌≤◌, ◌<◌}
use Prim.Native.Char.{code}
use Prim.Native.String.{String}
use mathlib.Core.Path.{◌≡◌, refl, ap, ◌∙◌}
use mathlib.Core.Logic.{inl, inr}
use mathlib.Core.Bool.{Bool, true, false, ◌&&◌}
use mathlib.Core.List.{List, [], ◌∷◌, ◌++◌}
use native.Mathlib.Omega.{arith}
use qg_server.Common.Tests.{ltb, ◌==◌, if◌then◌else◌, Bool-cases}
use qg_server.Common.Lists.{take, drop, length}

abbrev pub Text : Type 0
Text = List ℕ

abbrev pub codes : String → Text
codes String.[] = []
codes (String.◌∷◌ c s) = code c ∷ codes s

pub text_eq : Text → Text → Bool
text_eq [] [] = true
text_eq [] (b ∷ t) = false
text_eq (a ∷ s) [] = false
text_eq (a ∷ s) (b ∷ t) = (a == b) && text_eq s t

pub text_eq_sound : (s t : Text) → text_eq s t ≡ true → s ≡ t
unfolding text_eq
text_eq_sound [] [] h = refl
text_eq_sound [] (b ∷ t) h = cc
text_eq_sound (a ∷ s) [] h = cc
text_eq_sound (a ∷ s) (b ∷ t) h = ground (arith, text_eq_sound s t)

pub text_eq_refl : (s : Text) → text_eq s s ≡ true
unfolding text_eq
text_eq_refl [] = refl
text_eq_refl (a ∷ s) = ground (arith, text_eq_refl s)

-- `s.substr(off, len)`, for `off` within the text.
abbrev pub sub_text : Text → ℕ → ℕ → Text
sub_text s off len = take len (drop off s)

-- The digits of a number, with fuel.
decimal_loop : ℕ → ℕ → Text → Text
decimal_loop zero n acc = acc
decimal_loop (suc fuel) n acc =
    let rest = decimal_loop fuel (n / 10) ((48 + n % 10) ∷ acc) in
    if ltb n 10 then (48 + n) ∷ acc else rest

unfoldable pub decimal : ℕ → Text
unfolding decimal_loop
decimal n = decimal_loop (n + 1) n []

-- The number that a run of digits stands for.
unfoldable pub number_of : ℕ → Text → ℕ
number_of acc [] = acc
number_of acc (c ∷ s) = number_of (acc * 10 + (c - 48)) s

abbrev pub AllDigits : Text → Type 0
AllDigits [] = Unit {0}
AllDigits (c ∷ s) = (48 ≤ c) × (c < 58) × AllDigits s

decimal_loop-number :
    (fuel n : ℕ) (acc : Text) → n < fuel → number_of 0 (decimal_loop fuel n acc) ≡ number_of n acc
unfolding decimal_loop number_of
decimal_loop-number zero n acc h = absurd (omega arith)
decimal_loop-number (suc fuel) n acc h = elim (Bool-cases (ltb n 10)) [
  | inl e ↦ rw e (ap (λ (k : ℕ). number_of k acc) (omega arith))
  | inr e ↦
      let below : n / 10 < fuel = ground arith in
      rw e (
        decimal_loop-number fuel (n / 10) ((48 + n % 10) ∷ acc) below
        ∙ ap (λ (k : ℕ). number_of k acc) (omega arith))
]

decimal_loop-AllDigits :
    (fuel n : ℕ) (acc : Text) → AllDigits acc → AllDigits (decimal_loop fuel n acc)
unfolding decimal_loop
decimal_loop-AllDigits zero n acc h = h
decimal_loop-AllDigits (suc fuel) n acc h = elim (Bool-cases (ltb n 10)) [
  | inl e ↦ rw e (omega arith, ground arith, h)
  | inr e ↦
      rw e
        (decimal_loop-AllDigits fuel (n / 10) ((48 + n % 10) ∷ acc) (omega arith, omega arith, h))
]

-- The decimal form of a number reads back as the number.
pub number_of-decimal : (n : ℕ) → number_of 0 (decimal n) ≡ n
unfolding decimal number_of
number_of-decimal n = decimal_loop-number (n + 1) n [] (omega arith)

pub decimal-AllDigits : (n : ℕ) → AllDigits (decimal n)
unfolding decimal
decimal-AllDigits n = decimal_loop-AllDigits (n + 1) n [] tt

length-decimal_loop :
    (k fuel n : ℕ) (acc : Text)
    → n < 10 ^ suc k
    → n < fuel
    → length (decimal_loop fuel n acc) ≤ suc k + length acc
unfolding decimal_loop
length-decimal_loop k zero n acc small h = absurd (omega (arith, h))
length-decimal_loop zero (suc fuel) n acc small h = ground (arith, small)
length-decimal_loop (suc k) (suc fuel) n acc small h = elim (Bool-cases (ltb n 10)) [
  | inl e ↦ rw e (omega arith)
  | inr e ↦
      let below : n / 10 < fuel = ground (arith, h, e) in
      let less : n / 10 < 10 ^ suc k = omega (arith, small) in
      let rest = length-decimal_loop k fuel (n / 10) ((48 + n % 10) ∷ acc) less below in
      rw e (omega (arith, rest))
]

-- A number below a power of ten has no more digits than the power.
pub length-decimal : (k n : ℕ) → n < 10 ^ suc k → length (decimal n) ≤ suc k
unfolding decimal
length-decimal k n small = omega (arith, length-decimal_loop k (n + 1) n [] small (omega arith))

pub number_of-append :
    (acc : ℕ) (s t : Text) → number_of acc (s ++ t) ≡ number_of (number_of acc s) t
unfolding number_of
number_of-append acc [] t = refl
number_of-append acc (c ∷ s) t = number_of-append (acc * 10 + (c - 48)) s t

pub AllDigits-append : (s t : Text) → AllDigits s → AllDigits t → AllDigits (s ++ t)
AllDigits-append [] t hs ht = ht
AllDigits-append (c ∷ s) t (low, high, hs) ht = (low, high, AllDigits-append s t hs ht)
