-- ===== src/Dag/Acyclic.antt =====
-- A graph that `_validated_nodes` accepts has an order of its nodes (cognitrix/tasks/dag.py).
use cognitrix.Prelude.{
  ℕ, ◌≡◌, refl, ap, ◌∙◌, true, false, not, none, List, [], ◌∷◌, arith, length, ◌==◌, ==_iff,
  Bool-cases, inl, inr,
}
use cognitrix.Dag.Graph.{
  elem, subset, Node, ids_of, deps_of, has_duplicate, first_pass, second_pass, indegree,
  without_dependencies, walk, validated_nodes, cycle,
}
use cognitrix.Dag.Sets.{elem-insert}
use cognitrix.Dag.Order.{
  first_pass-distinct, indegree-ready, pigeonhole, insert-distinct, IsResolved, deps_of-IsResolved,
  or_invalid-none, reject_if-none,
}
use cognitrix.Dag.Walk.{ordered, all_of, walk-IsWalk}

module _ (deps : ℕ → List ℕ) where
  without-ready :
      (nodes : List Node) (x : ℕ)
      → IsResolved deps nodes
      → elem x (without_dependencies nodes) ≡ true
      → (subset (deps x) [] ≡ true) × (elem x (ids_of nodes) ≡ true)
  without-ready [] x h m = absurd (ground arith)
  without-ready (node ∷ rest) x h m = elim (Bool-cases (indegree [] node.dependencies == 0)) [
    | inr f ↦ let (a, b) = without-ready rest x h.1 (rw f at m) in (a, ground arith)
    | inl t ↦ elim (Bool-cases (x == node.node_id)) [
      | inl e ↦
          let own : deps x ≡ node.dependencies = ap deps ((==_iff x node.node_id).0 e) ∙ h.0 in
          rw own (indegree-ready [] node.dependencies t, ground arith)
      | inr n ↦
          let there : elem x (without_dependencies rest) ≡ true =
            let inserted = rw t at m in
            ground (arith, elem-insert x node.node_id (without_dependencies rest)) in
          let (a, b) = without-ready rest x h.1 there in (a, ground arith)
    ]
  ]

  without-distinct :
      (nodes : List Node)
      → IsResolved deps nodes
      → has_duplicate (ids_of nodes) ≡ false
      → has_duplicate (without_dependencies nodes) ≡ false
  without-distinct [] h d = refl
  without-distinct (node ∷ rest) h d = elim (Bool-cases (indegree [] node.dependencies == 0)) [
    | inr f ↦ rw f (without-distinct rest h.1 (ground arith))
    | inl t ↦
        let others = without-distinct rest h.1 (ground arith) in
        let new : elem node.node_id (without_dependencies rest) ≡ false =
          elim (Bool-cases (elem node.node_id (without_dependencies rest))) [
            | inr n ↦ n
            | inl m ↦ let there = (without-ready rest node.node_id h.1 m).1 in absurd (ground arith)
          ] in
        rw t (ground (arith, insert-distinct node.node_id (without_dependencies rest)))
  ]

pub subset_of :
    (xs ys : List ℕ) → ((x : ℕ) → elem x xs ≡ true → elem x ys ≡ true) → subset xs ys ≡ true
subset_of [] ys h = refl
subset_of (x ∷ xs) ys h =
    let here = h x (ground arith) in
    let there = subset_of xs ys (λ y m. h y (ground arith)) in ground arith

pub length-ids : (nodes : List Node) → length (ids_of nodes) ≡ length nodes
length-ids [] = refl
length-ids (node ∷ rest) = omega (arith, length-ids rest)

-- An order of the nodes of a graph, the latest first.
abbrev pub IsOrder : List Node → List ℕ → Type 0
IsOrder nodes order =
    (ordered (deps_of nodes) order ≡ true)
    × ((x : ℕ) → elem x (ids_of nodes) ≡ true → elem x order ≡ true)
    × ((x : ℕ) → elem x order ≡ true → elem x (ids_of nodes) ≡ true)

pub accepted_nodes-IsOrder :
    (nodes : List Node) → validated_nodes nodes ≡ none → (order : List ℕ) × IsOrder nodes order
unfolding validated_nodes
accepted_nodes-IsOrder nodes v =
    let (first, v1) = or_invalid-none (first_pass [] nodes) _ v in
    let (second, v2) = or_invalid-none (second_pass (ids_of nodes) nodes) _ v1 in
    let distinct = (first_pass-distinct [] nodes first).0 in
    let resolved = deps_of-IsResolved nodes distinct in
    let visited = walk (length nodes) nodes [] (without_dependencies nodes) in
    let full : not (length visited == length nodes) ≡ false = reject_if-none _ cycle v2 in
    let (queue, h) =
      walk-IsWalk (deps_of nodes) nodes resolved distinct (length nodes) []
        (without_dependencies nodes)
        record {
          is_ordered = refl;
          is_ready =
              all_of (deps_of nodes) (without_dependencies nodes) []
                (λ x m. (without-ready (deps_of nodes) nodes x resolved m).0);
          once = refl;
          queued_once = without-distinct (deps_of nodes) nodes resolved distinct;
          apart = λ x m. refl;
          known = λ x m. (without-ready (deps_of nodes) nodes x resolved m).1;
        } in
    let known : (x : ℕ) → elem x visited ≡ true → elem x (ids_of nodes) ≡ true =
      λ x m. h.known x (ground arith) in
    (
      visited,
      (
        h.is_ordered,
        pigeonhole visited (ids_of nodes) h.once (subset_of visited (ids_of nodes) known)
            (ground (arith, length-ids nodes)),
        known,
      ),
    )
