-- ===== src/Dag/Sets.antt =====
-- The lists of node ids as sets.
use cognitrix.Prelude.{
  ℕ, zero, suc, ◌≤◌, ◌≡◌, refl, Bool, true, false, ◌&&◌, ◌||◌, List, [], ◌∷◌, arith, length, ◌==◌,
  if◌then◌else◌,
}
use cognitrix.Dag.Graph.{elem, subset, remove, insert_sorted, take}

-- The nodes of a list all have their dependencies in a set.
abbrev pub all_ready : (ℕ → List ℕ) → List ℕ → List ℕ → Bool
all_ready deps [] done = true
all_ready deps (id ∷ rest) done = subset (deps id) done && all_ready deps rest done

pub subset-cons : (xs ys : List ℕ) (y : ℕ) → subset xs ys ≡ true → subset xs (y ∷ ys) ≡ true
subset-cons [] ys y h = refl
subset-cons (x ∷ xs) ys y h = ground (arith, subset-cons xs ys y)

pub elem-remove :
    (x y : ℕ) (xs : List ℕ) → elem x (remove y xs) ≡ (if x == y then false else elem x xs)
elem-remove x y [] = ground arith
elem-remove x y (z ∷ zs) = ground (arith, elem-remove x y zs)

pub elem-insert : (x y : ℕ) (xs : List ℕ) → elem x (insert_sorted y xs) ≡ (x == y || elem x xs)
elem-insert x y [] = refl
elem-insert x y (z ∷ zs) = ground (arith, elem-insert x y zs)

pub length-remove : (x : ℕ) (xs : List ℕ) → length (remove x xs) ≤ length xs
length-remove x [] = omega arith
length-remove x (y ∷ ys) = ground (arith, length-remove x ys)

pub length-insert : (x : ℕ) (xs : List ℕ) → length (insert_sorted x xs) ≡ suc (length xs)
length-insert x [] = refl
length-insert x (y ∷ ys) = ground (arith, length-insert x ys)

pub length-take : (n : ℕ) (xs : List ℕ) → length (take n xs) ≤ n
length-take zero xs = omega arith
length-take (suc n) [] = omega arith
length-take (suc n) (x ∷ xs) = omega (arith, length-take n xs)

module _ (deps : ℕ → List ℕ) where
  pub all_ready-cons :
      (ids done : List ℕ) (y : ℕ)
      → all_ready deps ids done ≡ true
      → all_ready deps ids (y ∷ done) ≡ true
  all_ready-cons [] done y h = refl
  all_ready-cons (id ∷ rest) done y h =
      ground (arith, subset-cons (deps id) done y, all_ready-cons rest done y)

  pub all_ready-remove :
      (x : ℕ) (ids done : List ℕ)
      → all_ready deps ids done ≡ true
      → all_ready deps (remove x ids) done ≡ true
  all_ready-remove x [] done h = refl
  all_ready-remove x (id ∷ rest) done h = ground (arith, all_ready-remove x rest done)

  pub all_ready-insert :
      (x : ℕ) (ids done : List ℕ)
      → subset (deps x) done ≡ true
      → all_ready deps ids done ≡ true
      → all_ready deps (insert_sorted x ids) done ≡ true
  all_ready-insert x [] done s h = ground arith
  all_ready-insert x (id ∷ rest) done s h = ground (arith, all_ready-insert x rest done s)

  pub all_ready-take :
      (n : ℕ) (ids done : List ℕ)
      → all_ready deps ids done ≡ true
      → all_ready deps (take n ids) done ≡ true
  all_ready-take zero ids done h = refl
  all_ready-take (suc n) [] done h = refl
  all_ready-take (suc n) (id ∷ rest) done h = ground (arith, all_ready-take n rest done)
