-- ===== src/Common/Decimal.antt =====
-- Decimal numerals: `String(n)` and the digits that `parseInt` reads. A text is the list of its
-- character codes.
use Prim.Native.Nat.{ℕ, zero, suc, ◌+◌, ◌-◌, ◌*◌, ◌/◌, ◌%◌, ◌≤◌}
use mathlib.Core.Path.{◌≡◌, ◌∙◌, refl, sym, ap}
use mathlib.Core.Logic.{inl, inr, ◌≢◌}
use mathlib.Core.Bool.{Bool, true, ◌&&◌}
use mathlib.Core.List.{List, [], ◌∷◌}
use native.Mathlib.Omega.{arith}
use lumigift_lumigift.Common.Tests.{if◌then◌else◌, leb, ◌==◌, Bool-cases}
use lumigift_lumigift.Common.Lists.{all}

-- `\d`
abbrev pub is_digit : ℕ → Bool
is_digit c = leb b'0' c && leb c b'9'

-- The digits of a positive number in front of a text; the fuel is the number itself, and each round
-- divides by ten.
emit : ℕ → ℕ → List ℕ → List ℕ
emit zero n out = out
emit (suc fuel) n out =
    let rest = emit fuel (n / 10) ((b'0' + n % 10) ∷ out) in if n == 0 then out else rest

unfoldable pub decimal : ℕ → List ℕ
unfolding emit
decimal n = if n == 0 then b'0' ∷ [] else emit n n []

-- The number that the digits at the head of a text spell behind n.
unfoldable pub read_digits : List ℕ → ℕ → ℕ
read_digits [] n = n
read_digits (c ∷ s) n = if is_digit c then read_digits s (n * 10 + (c - b'0')) else n

read_digits-last :
    (n : ℕ) (out : List ℕ) → read_digits ((b'0' + n % 10) ∷ out) (n / 10) ≡ read_digits out n
unfolding read_digits
read_digits-last n out = ground arith

read_digits-emit :
    (fuel n : ℕ) (out : List ℕ) → n ≤ fuel → read_digits (emit fuel n out) 0 ≡ read_digits out n
unfolding emit
read_digits-emit zero n out h = ground arith
read_digits-emit (suc fuel) n out h = elim (Bool-cases (n == 0)) [
  | inl done ↦ ground arith
  | inr more ↦ rw more (
      read_digits-emit fuel (n / 10) ((b'0' + n % 10) ∷ out) (ground arith)
      ∙ read_digits-last n out)
]

-- Reading back a number that was written.
pub read_digits-decimal : (n : ℕ) → read_digits (decimal n) 0 ≡ n
unfolding decimal read_digits
read_digits-decimal n = elim (Bool-cases (n == 0)) [
  | inl none_left ↦ ground arith
  | inr positive ↦ rw positive (read_digits-emit n n [] (omega arith))
]

all-emit :
    (fuel n : ℕ) (out : List ℕ) → all is_digit out ≡ true → all is_digit (emit fuel n out) ≡ true
unfolding emit
all-emit zero n out h = h
all-emit (suc fuel) n out h = ground (arith, all-emit fuel (n / 10) ((b'0' + n % 10) ∷ out))

pub all-decimal : (n : ℕ) → all is_digit (decimal n) ≡ true
unfolding decimal
all-decimal n = ground (arith, all-emit n n [] refl)

zero-ne-nil : decimal 0 ≢ []
unfolding decimal
zero-ne-nil h = cc

pub decimal-ne-nil : (n : ℕ) → decimal n ≢ []
unfolding read_digits
decimal-ne-nil n e =
    let is_zero : n ≡ 0 = sym (read_digits-decimal n) ∙ ap (λ t. read_digits t 0) e in
    zero-ne-nil (ap decimal (sym is_zero) ∙ e)
