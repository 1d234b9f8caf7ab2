-- ===== src/Dag/Waiting.antt =====
-- Which nodes of a round wait ready (cognitrix/tasks/dag.py).
use cognitrix.Prelude.{
  ℕ, zero, suc, ◌-◌, ◌≤◌, ◌≡◌, refl, subst, true, false, List, [], ◌∷◌, arith, length, ◌==◌, ==_iff,
  Bool-cases, inl, inr, Result, ok, err,
}
use cognitrix.Dag.Graph.{elem, take, Node, ids_of, deps_of}
use cognitrix.Dag.{
  Tick, Dag, DagError, completed_ids, filter_ready, is_ready, start_all, launch, is_idle, is_empty,
}
use cognitrix.Dag.Walk.{ordered}
use cognitrix.Dag.Acyclic.{IsOrder, subset_of}
use cognitrix.Dag.Order.{subset-elem}
use cognitrix.Dag.Progress.{Ends, IsGood, IsLive, Started, start_all-Started}
use cognitrix.Dag.Finish.{any_done, is_some}

pub take-inside : (n : ℕ) (xs : List ℕ) (x : ℕ) → elem x (take n xs) ≡ true → elem x xs ≡ true
take-inside zero xs x m = absurd (ground arith)
take-inside (suc n) [] x m = m
take-inside (suc n) (y ∷ xs) x m = ground (arith, take-inside n xs x)

pub some_elem : (xs : List ℕ) → is_empty xs ≡ false → (x : ℕ) × (elem x xs ≡ true)
some_elem [] e = absurd (cc e)
some_elem (x ∷ xs) e = (x, ground arith)

pub no_elem : (xs : List ℕ) (x : ℕ) → is_empty xs ≡ true → elem x xs ≡ false
no_elem [] x e = refl
no_elem (y ∷ xs) x e = absurd (cc e)

take-empty : (n : ℕ) (xs : List ℕ) → 1 ≤ n → is_empty xs ≡ false → is_empty (take n xs) ≡ false
take-empty zero xs l e = absurd (omega (arith, l))
take-empty (suc n) [] l e = e
take-empty (suc n) (x ∷ xs) l e = refl

elem-empty : (xs : List ℕ) (x : ℕ) → elem x xs ≡ true → is_empty xs ≡ false
elem-empty [] x m = absurd (ground arith)
elem-empty (y ∷ xs) x m = refl

empty_length : (xs : List ℕ) → is_empty xs ≡ true → length xs ≡ 0
empty_length [] e = refl
empty_length (x ∷ xs) e = absurd (cc e)

module _ {R : Type 0} where
  filter_ready-elem :
      (deps : ℕ → List ℕ) (d : Dag R) (xs : List ℕ) (x : ℕ)
      → elem x xs ≡ true
      → is_ready deps d x ≡ true
      → elem x (filter_ready deps d xs) ≡ true
  filter_ready-elem deps d [] x m r = absurd (ground arith)
  filter_ready-elem deps d (y ∷ xs) x m r = elim (Bool-cases (x == y)) [
    | inl e ↦
        let same = (==_iff x y).0 e in
        let own : is_ready deps d y ≡ true = subst (λ z. is_ready deps d z ≡ true) same r in
        rw own (ground arith)
    | inr n ↦ ground (arith, filter_ready-elem deps d xs x)
  ]

  pub filter_ready-inside :
      (deps : ℕ → List ℕ) (d : Dag R) (xs : List ℕ) (x : ℕ)
      → elem x (filter_ready deps d xs) ≡ true
      → elem x xs ≡ true
  filter_ready-inside deps d [] x m = m
  filter_ready-inside deps d (y ∷ xs) x m = ground (arith, filter_ready-inside deps d xs x)

  pub done-elem :
      (tick : Tick R) (xs : List ℕ)
      → any_done tick xs ≡ true
      → (x : ℕ) × (elem x xs ≡ true) × (is_some (tick.outcome x) ≡ true)
  done-elem tick [] h = absurd (ground arith)
  done-elem tick (x ∷ xs) h = elim (Bool-cases (is_some (tick.outcome x))) [
    | inl t ↦ (x, ground arith, t)
    | inr f ↦ let (y, m, s) = done-elem tick xs (ground arith) in (y, ground arith, s)
  ]

module _ {R : Type 0} (limit : ℕ) (nodes : List Node) (positive : 1 ≤ limit) (order : List ℕ)
    (o : IsOrder nodes order) where
  node_is_done :
      (d : Dag R) (y : ℕ) (later : List ℕ)
      → IsLive (ids_of nodes) d
      → is_empty d.active ≡ true
      → is_empty (filter_ready (deps_of nodes) d d.pending) ≡ true
      → ordered (deps_of nodes) (y ∷ later) ≡ true
      → ((x : ℕ) → elem x (y ∷ later) ≡ true → elem x (ids_of nodes) ≡ true)
      → ((x : ℕ) → elem x later ≡ true → elem x (completed_ids d) ≡ true)
      → elem y (completed_ids d) ≡ true
  node_is_done d y later h idle none_ready ord inside before =
      elim (Bool-cases (elem y d.pending)) [
        | inl p ↦
            let ready : is_ready (deps_of nodes) d y ≡ true =
              subset_of (deps_of nodes y) (completed_ids d)
                (λ z k. before z (subset-elem (deps_of nodes y) later z (ground arith) k)) in
            let there = filter_ready-elem (deps_of nodes) d d.pending y p ready in
            let nowhere = no_elem (filter_ready (deps_of nodes) d d.pending) y none_ready in
            absurd (ground arith)
        | inr n ↦
            let rest = h.covered y (inside y (ground arith)) in
            let idle_here = no_elem d.active y idle in ground arith
      ]

  -- Where no node waits ready and none runs, every node of an order has its result.
  order_is_done :
      (d : Dag R) (later : List ℕ)
      → IsLive (ids_of nodes) d
      → is_empty d.active ≡ true
      → is_empty (filter_ready (deps_of nodes) d d.pending) ≡ true
      → ordered (deps_of nodes) later ≡ true
      → ((x : ℕ) → elem x later ≡ true → elem x (ids_of nodes) ≡ true)
      → (x : ℕ) → elem x later ≡ true
      → elem x (completed_ids d) ≡ true
  order_is_done d [] h idle none_ready ord inside x m = absurd (ground arith)
  order_is_done d (y ∷ later) h idle none_ready ord inside x m =
      let before =
        order_is_done d later h idle none_ready (ground arith) (λ z k. inside z (ground arith)) in
      elim (Bool-cases (x == y)) [
        | inr n ↦ before x (ground arith)
        | inl e ↦ rw ((==_iff x y).0 e) (node_is_done d y later h idle none_ready ord inside before)
      ]

  -- So a round that begins with a node that has no result has one that runs or waits ready.
  pub never_stuck :
      (d : Dag R)
      → IsLive (ids_of nodes) d
      → is_idle d ≡ false
      → is_empty d.active ≡ true
      → is_empty (filter_ready (deps_of nodes) d d.pending) ≡ false
  never_stuck d h busy idle =
      elim (Bool-cases (is_empty (filter_ready (deps_of nodes) d d.pending))) [
        | inr f ↦ f
        | inl t ↦
            let (x, m) = some_elem d.pending (ground arith) in
            let old = h.waiting x m in
            let now = order_is_done d order h idle t o.0 o.2 x (o.1 x old.0) in
            let n = old.1 in absurd (ground arith)
      ]

  abbrev starts : Dag R → List ℕ
  starts d = take (limit - length d.active) (filter_ready (deps_of nodes) d d.pending)

  runs_after :
      (d : Dag R) (r : Result DagError (Unit {0}) × Dag R)
      → IsLive (ids_of nodes) d
      → is_idle d ≡ false
      → Ends (Started (ids_of nodes) (starts d) d) r
      → Ends
          (λ u e. IsLive (ids_of nodes) e × (e.results ≡ d.results) × (is_empty e.active ≡ false))
          r
  unfolding Started
  runs_after d (err x, e) h busy s = s
  runs_after d (ok u, e) h busy (live, same, all) = (
    live,
    same,
    elim (Bool-cases (is_empty d.active)) [
      | inr f ↦ let (y, m) = some_elem d.active f in elem-empty e.active y (all y (ground arith))
      | inl t ↦
          let free : 1 ≤ limit - length d.active =
            omega (arith, positive, empty_length d.active t) in
          let some_start =
            take-empty (limit - length d.active) (filter_ready (deps_of nodes) d d.pending) free
              (never_stuck d h busy t) in
          let (y, m) = some_elem (starts d) some_start in
          elem-empty e.active y (all y (ground arith))
    ],
  )

  -- After the starts of a round there is a node that runs.
  pub launch-runs :
      (tick : Tick R) (d : Dag R)
      → IsGood tick
      → IsLive (ids_of nodes) d
      → is_idle d ≡ false
      → Ends
          (λ u e. IsLive (ids_of nodes) e × (e.results ≡ d.results) × (is_empty e.active ≡ false))
          (launch limit (deps_of nodes) tick d)
  unfolding launch
  launch-runs tick d good h busy = runs_after d (start_all tick (starts d) d) h busy (
      start_all-Started (ids_of nodes) tick (starts d) d good
        (λ y m.
          let p = filter_ready-inside (deps_of nodes) d d.pending y (
            take-inside (limit - length d.active) (filter_ready (deps_of nodes) d d.pending) y m) in
          let old = h.waiting y p in (old.0, old.1))
        h)
