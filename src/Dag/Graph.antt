-- ===== src/Dag/Graph.antt =====
-- cognitrix/tasks/dag.py: the nodes of a task graph, and `_validated_nodes`. The dictionary by node
-- id is the list of nodes, which the first check finds to have distinct ids.
use cognitrix.Prelude.{
  ℕ, zero, suc, Bool, true, false, not, ◌&&◌, ◌||◌, Option, none, some, List, [], ◌∷◌, ◌++◌, map,
  leb, ◌==◌, if◌then◌else◌, length,
}

abbrev pub elem : ℕ → List ℕ → Bool
elem x [] = false
elem x (y ∷ ys) = x == y || elem x ys

-- `set(xs) <= set(ys)`
abbrev pub subset : List ℕ → List ℕ → Bool
subset [] ys = true
subset (x ∷ xs) ys = elem x ys && subset xs ys

abbrev pub remove : ℕ → List ℕ → List ℕ
remove x [] = []
remove x (y ∷ ys) = if x == y then remove x ys else y ∷ remove x ys

abbrev pub insert_sorted : ℕ → List ℕ → List ℕ
insert_sorted x [] = x ∷ []
insert_sorted x (y ∷ ys) = if leb x y then x ∷ y ∷ ys else y ∷ insert_sorted x ys

abbrev pub sort : List ℕ → List ℕ
sort [] = []
sort (x ∷ xs) = insert_sorted x (sort xs)

abbrev pub take : ℕ → List ℕ → List ℕ
take zero xs = []
take (suc n) [] = []
take (suc n) (x ∷ xs) = x ∷ take n xs

pub record Node : Type 0 where
  pub node_id : ℕ
  pub dependencies : List ℕ

abbrev pub ids_of : List Node → List ℕ
ids_of nodes = map (λ node. node.node_id) nodes

-- `by_id[id].dependencies`
abbrev pub deps_of : List Node → ℕ → List ℕ
deps_of [] id = []
deps_of (node ∷ rest) id = if id == node.node_id then node.dependencies else deps_of rest id

pub data Invalid : Type 0 where
  duplicate_node duplicate_dependency self_dependency missing_dependency cycle : Invalid

abbrev pub has_duplicate : List ℕ → Bool
has_duplicate [] = false
has_duplicate (x ∷ xs) = elem x xs || has_duplicate xs

abbrev pub or_invalid : Option Invalid → Option Invalid → Option Invalid
or_invalid none next = next
or_invalid (some invalid) next = some invalid

abbrev pub reject_if : Bool → Invalid → Option Invalid
reject_if true invalid = some invalid
reject_if false invalid = none

-- The first loop: the ids of the nodes before, and the nodes that are left.
unfoldable pub first_pass : List ℕ → List Node → Option Invalid
first_pass seen [] = none
first_pass seen (node ∷ rest) = or_invalid (reject_if (elem node.node_id seen) duplicate_node) (
    or_invalid (reject_if (has_duplicate node.dependencies) duplicate_dependency)
      (first_pass (node.node_id ∷ seen) rest))

unfoldable pub second_pass : List ℕ → List Node → Option Invalid
second_pass known [] = none
second_pass known (node ∷ rest) =
    or_invalid (reject_if (elem node.node_id node.dependencies) self_dependency) (
      or_invalid (reject_if (not (subset node.dependencies known)) missing_dependency)
        (second_pass known rest))

-- The dependencies of a node that the walk has not visited yet.
abbrev pub indegree : List ℕ → List ℕ → ℕ
indegree visited [] = 0
indegree visited (d ∷ deps) =
    if elem d visited then indegree visited deps else suc (indegree visited deps)

-- The nodes whose last open dependency is the node that the walk visits now.
abbrev pub freed : List ℕ → ℕ → List Node → List ℕ
freed visited id [] = []
freed visited id (node ∷ rest) =
    if elem id node.dependencies && indegree (id ∷ visited) node.dependencies == 0
    then insert_sorted node.node_id (freed visited id rest)
    else freed visited id rest

abbrev pub without_dependencies : List Node → List ℕ
without_dependencies [] = []
without_dependencies (node ∷ rest) =
    if indegree [] node.dependencies == 0
    then insert_sorted node.node_id (without_dependencies rest)
    else without_dependencies rest

-- The walk by in-degrees, on as many turns as there are nodes: each node is queued at most once.
unfoldable pub walk : ℕ → List Node → List ℕ → List ℕ → List ℕ
walk zero nodes visited ready = visited
walk (suc left) nodes visited [] = visited
walk (suc left) nodes visited (id ∷ ready) =
    walk left nodes (id ∷ visited) (ready ++ freed visited id nodes)

unfoldable pub validated_nodes : List Node → Option Invalid
unfolding first_pass second_pass walk
validated_nodes nodes = or_invalid (first_pass [] nodes) (
    or_invalid (second_pass (ids_of nodes) nodes) (
      reject_if
        (not (length (walk (length nodes) nodes [] (without_dependencies nodes)) == length nodes))
        cycle))
