-- ===== src/Dag/Order.antt =====
-- The walk of `_validated_nodes` finds an order in which every node comes after its dependencies
-- (cognitrix/tasks/dag.py).
use cognitrix.Prelude.{
  ℕ, ◌≤◌, ◌<◌, ◌≡◌, refl, sym, ap, ◌∙◌, subst, Bool, true, false, ◌&&◌, ◌||◌, Option, none, some,
  List, [], ◌∷◌, ◌++◌, arith, length, ◌==◌, ==_iff, Bool-cases, inl, inr,
}
use cognitrix.Dag.Graph.{
  elem, subset, remove, insert_sorted, Node, ids_of, deps_of, has_duplicate, first_pass, indegree,
  freed, or_invalid, reject_if, Invalid, duplicate_node, duplicate_dependency,
}
use cognitrix.Dag.Sets.{elem-remove, elem-insert, length-remove}

pub elem-append : (x : ℕ) (xs ys : List ℕ) → elem x (xs ++ ys) ≡ (elem x xs || elem x ys)
elem-append x [] ys = refl
elem-append x (y ∷ xs) ys = ground (arith, elem-append x xs ys)

pub subset-elem :
    (xs ys : List ℕ) (x : ℕ) → subset xs ys ≡ true → elem x xs ≡ true → elem x ys ≡ true
subset-elem [] ys x s m = ground arith
subset-elem (y ∷ xs) ys x s m = elim (Bool-cases (x == y)) [
  | inl e ↦ let same : x ≡ y = (==_iff x y).0 e in rw same (ground arith)
  | inr n ↦ subset-elem xs ys x (ground arith) (ground arith)
]

pub or_invalid-none : (a b : Option Invalid) → or_invalid a b ≡ none → (a ≡ none) × (b ≡ none)
or_invalid-none none b e = (refl, e)
or_invalid-none (some i) b e = absurd (cc e)

pub reject_if-none : (test : Bool) (i : Invalid) → reject_if test i ≡ none → test ≡ false
reject_if-none true i e = absurd (cc e)
reject_if-none false i e = refl

-- The first loop finds the ids distinct.
pub first_pass-distinct :
    (seen : List ℕ) (nodes : List Node)
    → first_pass seen nodes ≡ none
    → (has_duplicate (ids_of nodes) ≡ false)
      × ((x : ℕ) → elem x (ids_of nodes) ≡ true → elem x seen ≡ false)
unfolding first_pass
first_pass-distinct seen [] h = (refl, λ x m. ground arith)
first_pass-distinct seen (node ∷ rest) h =
    let (fresh, h1) = or_invalid-none (reject_if (elem node.node_id seen) duplicate_node) _ h in
    let (_, h2) =
      or_invalid-none (reject_if (has_duplicate node.dependencies) duplicate_dependency) _ h1 in
    let (distinct, apart) = first_pass-distinct (node.node_id ∷ seen) rest h2 in
    let new : elem node.node_id seen ≡ false =
      reject_if-none (elem node.node_id seen) duplicate_node fresh in
    let once : elem node.node_id (ids_of rest) ≡ false =
      elim (Bool-cases (elem node.node_id (ids_of rest))) [
        | inr f ↦ f
        | inl t ↦ let no = apart node.node_id t in absurd (ground arith)
      ] in
    (
      ground arith,
      λ x m. elim (Bool-cases (x == node.node_id)) [
        | inl e ↦ rw ((==_iff x node.node_id).0 e) new
        | inr n ↦ let no = apart x (ground arith) in ground arith
      ],
    )

pub indegree-ready :
    (visited deps : List ℕ) → (indegree visited deps == 0) ≡ true → subset deps visited ≡ true
indegree-ready visited [] h = refl
indegree-ready visited (d ∷ deps) h = ground (arith, indegree-ready visited deps)

-- A list without duplicates in a list that is no longer has all of its elements.
remove-shorter : (x : ℕ) (ys : List ℕ) → elem x ys ≡ true → length (remove x ys) < length ys
remove-shorter x [] m = absurd (ground arith)
remove-shorter x (y ∷ ys) m = ground (arith, remove-shorter x ys, length-remove x ys)

subset-remove :
    (xs ys : List ℕ) (x : ℕ)
    → elem x xs ≡ false
    → subset xs ys ≡ true
    → subset xs (remove x ys) ≡ true
subset-remove [] ys x n s = refl
subset-remove (z ∷ xs) ys x n s = ground (arith, subset-remove xs ys x, elem-remove z x ys)

pub pigeonhole :
    (xs ys : List ℕ)
    → has_duplicate xs ≡ false
    → subset xs ys ≡ true
    → length ys ≤ length xs
    → (y : ℕ) → elem y ys ≡ true
    → elem y xs ≡ true
pigeonhole [] [] d s l y m = m
pigeonhole [] (z ∷ ys) d s l y m = absurd (omega (arith, l))
pigeonhole (x ∷ xs) ys d s l y m =
    let shorter = remove-shorter x ys (ground arith) in
    let inside = subset-remove xs ys x (ground arith) (ground arith) in
    let found = pigeonhole xs (remove x ys) (ground arith) inside (omega (arith, l, shorter)) y in
    ground (arith, found, elem-remove y x ys)

pub insert-distinct :
    (x : ℕ) (ys : List ℕ) → has_duplicate (insert_sorted x ys) ≡ (elem x ys || has_duplicate ys)
insert-distinct x [] = ground arith
insert-distinct x (y ∷ ys) = ground (arith, insert-distinct x ys, elem-insert y x ys)

-- The dependencies under the id of each node are the node's own.
abbrev pub IsResolved : (ℕ → List ℕ) → List Node → Type 0
IsResolved deps [] = Unit
IsResolved deps (node ∷ rest) = (deps node.node_id ≡ node.dependencies) × IsResolved deps rest

IsResolved-agree :
    (f g : ℕ → List ℕ) (nodes : List Node)
    → ((x : ℕ) → elem x (ids_of nodes) ≡ true → f x ≡ g x)
    → IsResolved f nodes
    → IsResolved g nodes
IsResolved-agree f g [] same h = tt
IsResolved-agree f g (node ∷ rest) same h = (
  sym (same node.node_id (ground arith)) ∙ h.0,
  IsResolved-agree f g rest (λ x m. same x (ground arith)) h.1,
)

pub deps_of-IsResolved :
    (nodes : List Node) → has_duplicate (ids_of nodes) ≡ false → IsResolved (deps_of nodes) nodes
deps_of-IsResolved [] d = tt
deps_of-IsResolved (node ∷ rest) d = (
  ground arith,
  IsResolved-agree (deps_of rest) (deps_of (node ∷ rest)) rest
      (λ x m. elim (Bool-cases (x == node.node_id)) [
        | inl e ↦ absurd (
            let same = (==_iff x node.node_id).0 e in
            let there : elem node.node_id (ids_of rest) ≡ true =
              subst (λ y. elem y (ids_of rest) ≡ true) same m in
            ground arith)
        | inr n ↦ rw n refl
      ])
      (deps_of-IsResolved rest (ground arith)),
)

module _ (deps : ℕ → List ℕ) where
  -- What the walk frees when it visits a node: nodes that wait for it, and for nothing else.
  abbrev pub IsFreed : List ℕ → ℕ → ℕ → Type 0
  IsFreed visited id x = (elem id (deps x) ≡ true) × (subset (deps x) (id ∷ visited) ≡ true)

  pub freed-IsFreed :
      (visited : List ℕ) (id : ℕ) (nodes : List Node) (x : ℕ)
      → IsResolved deps nodes
      → elem x (freed visited id nodes) ≡ true
      → IsFreed visited id x × (elem x (ids_of nodes) ≡ true)
  freed-IsFreed visited id [] x h m = absurd (ground arith)
  freed-IsFreed visited id (node ∷ rest) x h m =
      elim (Bool-cases
        (elem id node.dependencies && (indegree (id ∷ visited) node.dependencies == 0))) [
          | inr f ↦
              let (a, b) = freed-IsFreed visited id rest x h.1 (rw f at m) in (a, ground arith)
          | inl t ↦ elim (Bool-cases (x == node.node_id)) [
            | inl e ↦
                let own : deps x ≡ node.dependencies =
                  ap deps ((==_iff x node.node_id).0 e) ∙ h.0 in
                rw own (
                  (ground arith, indegree-ready (id ∷ visited) node.dependencies (ground arith)),
                  ground arith,
                )
            | inr n ↦
                let there : elem x (freed visited id rest) ≡ true =
                  let inserted = rw t at m in
                  ground (arith, elem-insert x node.node_id (freed visited id rest)) in
                let (a, b) = freed-IsFreed visited id rest x h.1 there in (a, ground arith)
          ]
        ]

  pub freed-distinct :
      (visited : List ℕ) (id : ℕ) (nodes : List Node)
      → IsResolved deps nodes
      → has_duplicate (ids_of nodes) ≡ false
      → has_duplicate (freed visited id nodes) ≡ false
  freed-distinct visited id [] h d = refl
  freed-distinct visited id (node ∷ rest) h d =
      elim (Bool-cases
        (elem id node.dependencies && (indegree (id ∷ visited) node.dependencies == 0))) [
          | inr f ↦ rw f (freed-distinct visited id rest h.1 (ground arith))
          | inl t ↦
              let others = freed-distinct visited id rest h.1 (ground arith) in
              let new : elem node.node_id (freed visited id rest) ≡ false =
                elim (Bool-cases (elem node.node_id (freed visited id rest))) [
                  | inr n ↦ n
                  | inl m ↦
                      let there = (freed-IsFreed visited id rest node.node_id h.1 m).1 in
                      absurd (ground arith)
                ] in
              rw t (ground (arith, insert-distinct node.node_id (freed visited id rest)))
        ]
