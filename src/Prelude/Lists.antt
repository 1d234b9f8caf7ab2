-- ===== src/Prelude/Lists.antt =====
-- Lists measured and indexed by native numbers, under the library's names.
use Prim.Native.Nat.{ℕ, zero, suc, ◌+◌}
use mathlib.Core.Path.{◌≡◌}
use mathlib.Core.List.{List, [], ◌∷◌, ◌++◌}
use mathlib.Core.Option.{Option, none, some}
use native.Mathlib.Omega.{arith}

module _ {ℓ} {A : Type ℓ} where
  abbrev pub length : List A → ℕ
  length [] = 0
  length (x ∷ xs) = suc (length xs)

  abbrev pub get_elem? : List A → ℕ → Option A
  get_elem? [] i = none
  get_elem? (x ∷ xs) zero = some x
  get_elem? (x ∷ xs) (suc i) = get_elem? xs i

  -- A write out of bounds changes nothing.
  abbrev pub set : List A → ℕ → A → List A
  set [] i v = []
  set (x ∷ xs) zero v = v ∷ xs
  set (x ∷ xs) (suc i) v = x ∷ set xs i v

  pub length-append : (xs ys : List A) → length (xs ++ ys) ≡ length xs + length ys
  length-append [] ys = omega arith
  length-append (x ∷ xs) ys = omega (arith, length-append xs ys)

  abbrev pub sum_by : (A → ℕ) → List A → ℕ
  sum_by f [] = 0
  sum_by f (x ∷ xs) = f x + sum_by f xs

  pub sum_by-snoc : (f : A → ℕ) (xs : List A) (x : A) → sum_by f (xs ++ x ∷ []) ≡ sum_by f xs + f x
  sum_by-snoc f [] x = omega arith
  sum_by-snoc f (y ∷ xs) x = omega (arith, sum_by-snoc f xs x)

  -- Writing over an entry moves the sum by what the entry counted for.
  pub sum_by-set :
      (f : A → ℕ) (xs : List A) (i : ℕ) {x : A} (x' : A)
      → get_elem? xs i ≡ some x
      → sum_by f (set xs i x') + f x ≡ sum_by f xs + f x'
  sum_by-set f [] i x' h = cc
  sum_by-set f (y ∷ xs) zero {x} x' h = let e : y ≡ x = cc in rw e (omega arith)
  sum_by-set f (y ∷ xs) (suc i) x' h = omega (arith, sum_by-set f xs i x' h)
