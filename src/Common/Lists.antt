-- ===== src/Common/Lists.antt =====
-- Lists measured by native numbers, filters by a Boolean test, sums and predicates on lists.
use Prim.Native.Nat.{ℕ, zero, suc, ◌+◌, ◌≤◌}
use mathlib.Core.Path.{◌≡◌, refl, ap, sym, subst}
use mathlib.Core.Bool.{Bool, true, false, ◌&&◌, ◌||◌}
use mathlib.Core.Option.{Option, none, some}
use mathlib.Core.List.{List, [], ◌∷◌, ◌++◌}
use native.Mathlib.Omega.{arith}
use lumigift_lumigift.Common.Tests.{if◌then◌else◌}

module _ {ℓ} {A : Type ℓ} where
  abbrev pub length : List A → ℕ
  length [] = 0
  length (x ∷ xs) = suc (length xs)

  abbrev pub take : ℕ → List A → List A
  take zero xs = []
  take (suc n) [] = []
  take (suc n) (x ∷ xs) = x ∷ take n xs

  abbrev pub drop : ℕ → List A → List A
  drop zero xs = xs
  drop (suc n) [] = []
  drop (suc n) (x ∷ xs) = drop n xs

  -- `Array.prototype.filter`, `some` and `every`.
  abbrev pub filter : (A → Bool) → List A → List A
  filter p [] = []
  filter p (x ∷ xs) = let rest = filter p xs in if p x then x ∷ rest else rest

  abbrev pub any : (A → Bool) → List A → Bool
  any p [] = false
  any p (x ∷ xs) = p x || any p xs

  abbrev pub all : (A → Bool) → List A → Bool
  all p [] = true
  all p (x ∷ xs) = p x && all p xs

  -- `reduce((sum, x) => sum + f(x), 0)`, as a sum from the right.
  abbrev pub sum_by : (A → ℕ) → List A → ℕ
  sum_by f [] = 0
  sum_by f (x ∷ xs) = f x + sum_by f xs

  -- The item at a place, with the others.
  abbrev pub put_back : A → Option (A × List A) → Option (A × List A)
  put_back x none = none
  put_back x (some (y, rest)) = some (y, x ∷ rest)

  abbrev pub pick : ℕ → List A → Option (A × List A)
  pick n [] = none
  pick zero (x ∷ xs) = some (x, xs)
  pick (suc n) (x ∷ xs) = put_back x (pick n xs)

  abbrev pub All {κ} : (A → Type κ) → List A → Type κ
  All P [] = Unit
  All P (x ∷ xs) = P x × All P xs

module _ {ℓ} {A : Type ℓ} where
  pub length-append : (xs ys : List A) → length (xs ++ ys) ≡ length xs + length ys
  length-append [] ys = omega arith
  length-append (x ∷ xs) ys = omega (arith, length-append xs ys)

  pub length-take-le : (n : ℕ) (xs : List A) → length (take n xs) ≤ n
  length-take-le zero xs = omega arith
  length-take-le (suc n) [] = omega arith
  length-take-le (suc n) (x ∷ xs) = omega (arith, length-take-le n xs)

  pub length-filter-le : (p : A → Bool) (xs : List A) → length (filter p xs) ≤ length xs
  length-filter-le p [] = omega arith
  length-filter-le p (x ∷ xs) = ground (arith, length-filter-le p xs)

  pub take-append-drop : (n : ℕ) (xs : List A) → take n xs ++ drop n xs ≡ xs
  take-append-drop zero xs = refl
  take-append-drop (suc n) [] = refl
  take-append-drop (suc n) (x ∷ xs) = ap (λ t. x ∷ t) (take-append-drop n xs)

  pub filter-append :
      (p : A → Bool) (xs ys : List A) → filter p (xs ++ ys) ≡ filter p xs ++ filter p ys
  filter-append p [] ys = refl
  filter-append p (x ∷ xs) ys = ground (arith, filter-append p xs ys)

  pub sum_by-append : (f : A → ℕ) (xs ys : List A) → sum_by f (xs ++ ys) ≡ sum_by f xs + sum_by f ys
  sum_by-append f [] ys = omega arith
  sum_by-append f (x ∷ xs) ys = omega (arith, sum_by-append f xs ys)

  put_back-some :
      (x : A) (o : Option (A × List A)) (y : A) (rest : List A)
      → put_back x o ≡ some (y, rest)
      → (others : List A) × (o ≡ some (y, others)) × (rest ≡ x ∷ others)
  put_back-some x none y rest e = absurd (ground (arith, e))
  put_back-some x (some (z, others)) y rest e = (others, ground (arith, e), ground (arith, e))

  -- An item that is picked, at the front: what it adds to a sum and to a length, and what holds of it.
  pub pick-sum_by :
      (f : A → ℕ) (n : ℕ) (xs : List A) (y : A) (rest : List A)
      → pick n xs ≡ some (y, rest)
      → sum_by f xs ≡ f y + sum_by f rest
  pick-sum_by f n [] y rest e = absurd (ground (arith, e))
  pick-sum_by f zero (x ∷ xs) y rest e = ground (arith, e)
  pick-sum_by f (suc n) (x ∷ xs) y rest e =
      let (others, at, same) = put_back-some x (pick n xs) y rest e in
      let ih = pick-sum_by f n xs y others at in rw same (omega (arith, ih))

  pub pick-length :
      (n : ℕ) (xs : List A) (y : A) (rest : List A)
      → pick n xs ≡ some (y, rest)
      → length xs ≡ suc (length rest)
  pick-length n [] y rest e = absurd (ground (arith, e))
  pick-length zero (x ∷ xs) y rest e = ground (arith, e)
  pick-length (suc n) (x ∷ xs) y rest e =
      let (others, at, same) = put_back-some x (pick n xs) y rest e in
      let ih = pick-length n xs y others at in rw same (omega (arith, ih))

  pub pick-All :
      (P : A → Type 0) (n : ℕ) (xs : List A) (y : A) (rest : List A)
      → pick n xs ≡ some (y, rest)
      → All P xs
      → P y × All P rest
  pick-All P n [] y rest e h = absurd (ground (arith, e))
  pick-All P zero (x ∷ xs) y rest e (h, hs) =
      let front : x ≡ y = ground (arith, e) in
      let others : xs ≡ rest = ground (arith, e) in (subst P front h, subst (All P) others hs)
  pick-All P (suc n) (x ∷ xs) y rest e (h, hs) =
      let (others, at, same) = put_back-some x (pick n xs) y rest e in
      let (here, there) = pick-All P n xs y others at hs in
      (here, subst (All P) (sym same) (h, there))
