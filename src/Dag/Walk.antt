-- ===== src/Dag/Walk.antt =====
-- What the walk of `_validated_nodes` has visited and what it has queued (cognitrix/tasks/dag.py).
use cognitrix.Prelude.{
  ℕ, zero, suc, ◌≡◌, refl, sym, subst, Bool, true, false, ◌&&◌, ◌||◌, List, [], ◌∷◌, ◌++◌, arith,
  ◌==◌, ==_iff, Bool-cases, inl, inr,
}
use cognitrix.Dag.Graph.{elem, subset, Node, ids_of, has_duplicate, freed, walk}
use cognitrix.Dag.Sets.{subset-cons, all_ready, all_ready-cons}
use cognitrix.Dag.Order.{
  elem-append, subset-elem, IsResolved, IsFreed, freed-IsFreed, freed-distinct,
}

-- The latest node of a list comes first; each has its dependencies after it.
abbrev pub ordered : (ℕ → List ℕ) → List ℕ → Bool
ordered deps [] = true
ordered deps (id ∷ rest) = subset (deps id) rest && ordered deps rest

all_ready-append :
    (deps : ℕ → List ℕ) (xs ys done : List ℕ)
    → all_ready deps xs done ≡ true
    → all_ready deps ys done ≡ true
    → all_ready deps (xs ++ ys) done ≡ true
all_ready-append deps [] ys done a b = b
all_ready-append deps (x ∷ xs) ys done a b = ground (arith, all_ready-append deps xs ys done)

append-distinct :
    (xs ys : List ℕ)
    → has_duplicate xs ≡ false
    → has_duplicate ys ≡ false
    → ((x : ℕ) → elem x xs ≡ true → elem x ys ≡ false)
    → has_duplicate (xs ++ ys) ≡ false
append-distinct [] ys a b apart = b
append-distinct (x ∷ xs) ys a b apart =
    let rest = append-distinct xs ys (ground arith) b (λ z m. apart z (ground arith)) in
    let new = apart x (ground arith) in ground (arith, elem-append x xs ys)

pub all_ready-elem :
    (deps : ℕ → List ℕ) (xs done : List ℕ) (x : ℕ)
    → all_ready deps xs done ≡ true
    → elem x xs ≡ true
    → subset (deps x) done ≡ true
all_ready-elem deps [] done x h m = absurd (ground arith)
all_ready-elem deps (y ∷ xs) done x h m = elim (Bool-cases (x == y)) [
  | inl e ↦ rw ((==_iff x y).0 e) (ground arith)
  | inr n ↦ all_ready-elem deps xs done x (ground arith) (ground arith)
]

ordered-elem :
    (deps : ℕ → List ℕ) (xs : List ℕ) (x : ℕ)
    → ordered deps xs ≡ true
    → elem x xs ≡ true
    → subset (deps x) xs ≡ true
ordered-elem deps [] x h m = absurd (ground arith)
ordered-elem deps (y ∷ xs) x h m = elim (Bool-cases (x == y)) [
  | inl e ↦ rw ((==_iff x y).0 e) (subset-cons (deps y) xs y (ground arith))
  | inr n ↦ subset-cons (deps x) xs y (ordered-elem deps xs x (ground arith) (ground arith))
]

pub all_of :
    (deps : ℕ → List ℕ) (xs done : List ℕ)
    → ((x : ℕ) → elem x xs ≡ true → subset (deps x) done ≡ true)
    → all_ready deps xs done ≡ true
all_of deps [] done h = refl
all_of deps (x ∷ xs) done h =
    let here = h x (ground arith) in
    let there = all_of deps xs done (λ y m. h y (ground arith)) in ground arith

module _ (deps : ℕ → List ℕ) (nodes : List Node) (resolved : IsResolved deps nodes)
    (distinct : has_duplicate (ids_of nodes) ≡ false) where
  pub record IsWalk (visited ready : List ℕ) : Type 0 where
    pub is_ordered : ordered deps visited ≡ true
    pub is_ready : all_ready deps ready visited ≡ true
    pub once : has_duplicate visited ≡ false
    pub queued_once : has_duplicate ready ≡ false
    pub apart : (x : ℕ) → elem x ready ≡ true → elem x visited ≡ false
    pub known : (x : ℕ) → (elem x visited || elem x ready) ≡ true → elem x (ids_of nodes) ≡ true

  -- A freed node waits for the node that is visited, so it was neither visited nor queued before.
  freed_is_new :
      (visited : List ℕ) (id x : ℕ)
      → elem id visited ≡ false
      → subset (deps x) visited ≡ true
      → elem x (freed visited id nodes) ≡ false
  freed_is_new visited id x fresh s = elim (Bool-cases (elem x (freed visited id nodes))) [
    | inr n ↦ n
    | inl m ↦
        let waits = (freed-IsFreed deps visited id nodes x resolved m).0.0 in
        let there = subset-elem (deps x) visited id s waits in absurd (ground arith)
  ]

  visited_apart :
      (visited : List ℕ) (id : ℕ) (ready : List ℕ) (x : ℕ)
      → IsWalk visited (id ∷ ready)
      → elem x ready ≡ true
      → elem x (id ∷ visited) ≡ false
  visited_apart visited id ready x h m = elim (Bool-cases (x == id)) [
    | inl e ↦
        let same = (==_iff x id).0 e in
        let again : elem id ready ≡ true = subst (λ y. elem y ready ≡ true) same m in
        let q = h.queued_once in absurd (ground arith)
    | inr n ↦ let old = h.apart x (ground arith) in ground arith
  ]

  freed_apart :
      (visited : List ℕ) (id : ℕ) (ready : List ℕ) (x : ℕ)
      → IsWalk visited (id ∷ ready)
      → elem x (freed visited id nodes) ≡ true
      → elem x (id ∷ visited) ≡ false
  freed_apart visited id ready x h m =
      let fresh : elem id visited ≡ false = h.apart id (ground arith) in
      elim (Bool-cases (x == id)) [
        | inl e ↦
            let same = (==_iff x id).0 e in
            let own : subset (deps id) visited ≡ true = let r = h.is_ready in ground arith in
            let new =
              freed_is_new visited id x fresh
                (subst (λ y. subset (deps y) visited ≡ true) (sym same) own) in
            absurd (ground arith)
        | inr n ↦ elim (Bool-cases (elem x visited)) [
          | inr f ↦ ground arith
          | inl t ↦
              let new =
                freed_is_new visited id x fresh (ordered-elem deps visited x h.is_ordered t) in
              absurd (ground arith)
        ]
      ]

  visit-IsWalk :
      (visited : List ℕ) (id : ℕ) (ready : List ℕ)
      → IsWalk visited (id ∷ ready)
      → IsWalk (id ∷ visited) (ready ++ freed visited id nodes)
  visit-IsWalk visited id ready h =
      let fresh : elem id visited ≡ false = h.apart id (ground arith) in
      let of_freed : (x : ℕ)
          → elem x (freed visited id nodes) ≡ true
          → IsFreed deps visited id x × (elem x (ids_of nodes) ≡ true) =
        λ x m. freed-IsFreed deps visited id nodes x resolved m in
      record {
        is_ordered = let r = h.is_ready in let o = h.is_ordered in ground arith;
        is_ready =
            all_ready-append deps ready (freed visited id nodes) (id ∷ visited)
              (all_ready-cons deps ready visited id (let r = h.is_ready in ground arith))
              (all_of deps (freed visited id nodes) (id ∷ visited) (λ x m. (of_freed x m).0.1));
        once = let o = h.once in ground arith;
        queued_once =
            append-distinct ready (freed visited id nodes) (let q = h.queued_once in ground arith)
              (freed-distinct deps visited id nodes resolved distinct)
              (λ x m.
                freed_is_new visited id x fresh
                  (all_ready-elem deps ready visited x (let r = h.is_ready in ground arith) m));
        apart = λ x m. elim (Bool-cases (elem x ready)) [
          | inl t ↦ visited_apart visited id ready x h t
          | inr n ↦
              freed_apart visited id ready x h
                (ground (arith, elem-append x ready (freed visited id nodes)))
        ];
        known = λ x m.
            let old = h.known x in
            let new = λ (t : elem x (freed visited id nodes) ≡ true). (of_freed x t).1 in
            ground (arith, old, new, elem-append x ready (freed visited id nodes));
      }

  pub walk-IsWalk :
      (left : ℕ) (visited ready : List ℕ)
      → IsWalk visited ready
      → (queue : List ℕ) × IsWalk (walk left nodes visited ready) queue
  unfolding walk
  walk-IsWalk zero visited ready h = (ready, h)
  walk-IsWalk (suc left) visited [] h = ([], h)
  walk-IsWalk (suc left) visited (id ∷ ready) h =
      walk-IsWalk left (id ∷ visited) (ready ++ freed visited id nodes)
        (visit-IsWalk visited id ready h)
