-- ===== src/Base/Strings/Decimal.antt =====
-- Decimal numbers: the text of a number determines it.
use incuse.Base.Tests.{ltb, Bool-cases}
use Prim.Native.Nat.{ℕ, zero, suc, ◌+◌, ◌-◌, ◌*◌, ◌/◌, ◌≤◌, ◌<◌}
use mathlib.Core.Path.{◌≡◌, sym, ap, ◌∙◌}
use mathlib.Core.Logic.{inl, inr}
use mathlib.Core.List.{[], ◌∷◌}
use native.Mathlib.Omega.{arith}
use incuse.Base.Int.{ℤ, pos, negsuc}
use incuse.Base.Strings.{Text, decimal_digits, print_ℕ, itoa}

-- The number that digits stand for, after `acc`.
value_of : ℕ → Text → ℕ
value_of acc [] = acc
value_of acc (c ∷ s) = value_of (acc * 10 + (c - b'0')) s

value_of-digits :
    (f n : ℕ) (acc : Text) → n < f → value_of 0 (decimal_digits f n acc) ≡ value_of n acc
unfolding value_of decimal_digits
value_of-digits zero n acc h = elim h [ ]
value_of-digits (suc f) n acc h = elim (Bool-cases (ltb n 10)) [
  | inl small ↦ rw small (ap (λ m. value_of m acc) (omega arith))
  | inr large ↦
      rw large
        (value_of-digits f (n / 10) _ (ground arith) ∙ ap (λ m. value_of m acc) (omega arith))
]

value_of-print : (n : ℕ) → value_of 0 (print_ℕ n) ≡ n
unfolding print_ℕ value_of
value_of-print n = value_of-digits (suc n) n [] (omega arith)

abbrev first : Text → ℕ
first [] = 0
first (c ∷ _) = c

first-digits : (f n : ℕ) (acc : Text) → n < f → b'0' ≤ first (decimal_digits f n acc)
unfolding decimal_digits
first-digits zero n acc h = elim h [ ]
first-digits (suc f) n acc h = elim (Bool-cases (ltb n 10)) [
  | inl small ↦ rw small (omega arith)
  | inr large ↦ rw large (first-digits f (n / 10) _ (ground arith))
]

first-print : (n : ℕ) → b'0' ≤ first (print_ℕ n)
unfolding print_ℕ
first-print n = first-digits (suc n) n [] (omega arith)

tail_of : Text → Text
tail_of [] = []
tail_of (_ ∷ s) = s

print_ℕ-injective : (m n : ℕ) → print_ℕ m ≡ print_ℕ n → m ≡ n
print_ℕ-injective m n e = sym (value_of-print m) ∙ ap (value_of 0) e ∙ value_of-print n

pub itoa-injective : (a b : ℤ) → itoa a ≡ itoa b → a ≡ b
unfolding itoa tail_of
itoa-injective (pos m) (pos n) e = ap pos (print_ℕ-injective m n e)
itoa-injective (pos m) (negsuc n) e = absurd (omega (arith, ap first e, first-print m))
itoa-injective (negsuc m) (pos n) e = absurd (omega (arith, ap first e, first-print n))
itoa-injective (negsuc m) (negsuc n) e =
    ap negsuc (omega (arith, print_ℕ-injective (suc m) (suc n) (ap tail_of e)))
