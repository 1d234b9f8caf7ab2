-- ===== src/Dag/Progress.antt =====
-- A round of `run_dag` in which the tasks return brings it nearer to its end (cognitrix/tasks/dag.py).
use cognitrix.Prelude.{
  ℕ, suc, ◌≤◌, ◌<◌, ◌⊎◌, ◌≡◌, refl, sym, subst, true, false, ◌||◌, none, some, List, [], ◌∷◌, arith,
  ◌==◌, ==_iff, Bool-cases, inl, inr, if◌then◌else◌, Result, ok, err, Exec, and_then,
}
use cognitrix.Dag.Graph.{elem}
use cognitrix.Dag.Sets.{elem-remove, elem-insert}
use cognitrix.Dag.{
  running, DagNodeState, returned, Tick, Dag, DagError, completed_ids, start_one, start_all,
  launched, popped, recorded,
}
use cognitrix.Dag.Complete.{IsCovered, launched-IsCovered, moved-IsCovered}

-- The nodes that have no result yet.
abbrev pub missing : List ℕ → List ℕ → ℕ
missing [] results = 0
missing (x ∷ ids) results =
    if elem x results then missing ids results else suc (missing ids results)

pub missing-cons : (ids results : List ℕ) (y : ℕ) → missing ids (y ∷ results) ≤ missing ids results
missing-cons [] results y = omega arith
missing-cons (x ∷ ids) results y = ground (arith, missing-cons ids results y)

pub missing-less :
    (ids results : List ℕ) (y : ℕ)
    → elem y ids ≡ true
    → elem y results ≡ false
    → missing ids (y ∷ results) < missing ids results
missing-less [] results y m n = absurd (ground arith)
missing-less (x ∷ ids) results y m n = elim (Bool-cases (y == x)) [
  | inl e ↦
      let same = (==_iff y x).0 e in
      let here : elem x results ≡ false = subst (λ z. elem z results ≡ false) same n in
      ground (arith, missing-cons ids results y)
  | inr f ↦ ground (arith, missing-less ids results y)
]

pub missing-none :
    (ids results : List ℕ) (y : ℕ)
    → missing ids results ≡ 0
    → elem y ids ≡ true
    → elem y results ≡ true
missing-none [] results y z m = absurd (ground arith)
missing-none (x ∷ ids) results y z m = elim (Bool-cases (y == x)) [
  | inl e ↦ rw ((==_iff y x).0 e) (ground arith)
  | inr f ↦ missing-none ids results y (ground arith) (ground arith)
]

module _ {R : Type 0} where
  -- A method that does not raise.
  abbrev pub Ends : {A : Type 0} → (A → Dag R → Type 0) → Result DagError A × Dag R → Type 0
  Ends P (ok a, d) = P a d
  Ends P (err e, d) = ⊥

  pub after-Ends :
      {A B : Type 0} (P : A → Dag R → Type 0) (Q : B → Dag R → Type 0)
      (r : Result DagError A × Dag R) (f : A → Exec DagError (Dag R) B)
      → Ends P r
      → ((a : A) (e : Dag R) → P a e → Ends Q (f a e))
      → Ends Q (and_then r.0 f r.1)
  after-Ends P Q (ok a, e) f h g = g a e h
  after-Ends P Q (err x, e) f h g = absurd h

  -- A round without cancellation, of the run or of its caller, in which the tasks that are done have returned.
  abbrev pub IsGood : Tick R → Type 0
  IsGood tick =
      (tick.stop_before ≡ false)
      × (tick.cancel ≡ false)
      × ((id : ℕ) (state : DagNodeState) → tick.persisted id state ≡ true)
      × ((id : ℕ) → (tick.outcome id ≡ none) ⊎ ((r : R) × (tick.outcome id ≡ some (returned r))))
      × (tick.caller_cancelled ≡ false)

module _ {R : Type 0} (ids : List ℕ) where
  -- No node is lost, and none waits or runs that has its result.
  pub record IsLive (d : Dag R) : Type 0 where
    pub covered : IsCovered ids d
    pub waiting :
        (x : ℕ)
        → elem x d.pending ≡ true
        → (elem x ids ≡ true) × (elem x (completed_ids d) ≡ false) × (elem x d.active ≡ false)
    pub working :
        (x : ℕ) → elem x d.active ≡ true → (elem x ids ≡ true) × (elem x (completed_ids d) ≡ false)

  launched-IsLive :
      (id : ℕ) (d : Dag R)
      → elem id ids ≡ true
      → elem id (completed_ids d) ≡ false
      → IsLive d
      → IsLive (launched id d)
  launched-IsLive id d m n h = record {
    covered = launched-IsCovered ids id d h.covered;
    waiting = λ x w.
        let old = h.waiting x (ground (arith, elem-remove x id d.pending)) in
        (
          old.0,
          old.1,
          let free = old.2 in ground (arith, elem-remove x id d.pending, elem-insert x id d.active),
        );
    working = λ x w. elim (Bool-cases (x == id)) [
      | inl e ↦ rw ((==_iff x id).0 e) (m, n)
      | inr f ↦ h.working x (ground (arith, elem-insert x id d.active))
    ];
  }

  not_done :
      (id : ℕ) (d : Dag R) (x : ℕ)
      → (elem id d.active || elem id (completed_ids d)) ≡ true
      → elem x (completed_ids d) ≡ false
      → elem x d.active ≡ false
      → (x == id) ≡ false
  not_done id d x m n f = elim (Bool-cases (x == id)) [
    | inr other ↦ other
    | inl e ↦
        let there : (elem x d.active || elem x (completed_ids d)) ≡ true =
          subst (λ y. (elem y d.active || elem y (completed_ids d)) ≡ true)
            (sym ((==_iff x id).0 e)) m in
        absurd (ground arith)
  ]

  pub moved-IsLive :
      (id : ℕ) (r : R) (d : Dag R)
      → (elem id d.active || elem id (completed_ids d)) ≡ true
      → IsLive d
      → IsLive (recorded id r (popped id d))
  moved-IsLive id r d m h = record {
    covered = moved-IsCovered ids id r d h.covered;
    waiting = λ x w.
        let old = h.waiting x w in
        let free = old.2 in
        let other = not_done id d x m old.1 old.2 in
        (old.0, let n = old.1 in ground arith, ground (arith, elem-remove x id d.active));
    working = λ x w.
        let old = h.working x (ground (arith, elem-remove x id d.active)) in
        (old.0, let n = old.1 in ground (arith, elem-remove x id d.active));
  }

  -- The nodes that a round starts run afterwards, and so do those that ran before.
  unfoldable pub Started : List ℕ → Dag R → Unit {0} → Dag R → Type 0
  Started starts d u e =
      IsLive e
      × (e.results ≡ d.results)
      × ((y : ℕ) → (elem y starts || elem y d.active) ≡ true → elem y e.active ≡ true)

  weaken-Started :
      (rest : List ℕ) (id : ℕ) (d : Dag R) (r : Result DagError (Unit {0}) × Dag R)
      → Ends (Started rest (launched id d)) r
      → Ends (Started (id ∷ rest) d) r
  unfolding Started
  weaken-Started rest id d (ok u, e) (live, same, all) =
      (live, same, λ y m. all y (ground (arith, elem-insert y id d.active)))
  weaken-Started rest id d (err x, e) h = h

  pub start_all-Started :
      (tick : Tick R) (starts : List ℕ) (d : Dag R)
      → IsGood tick
      → ((y : ℕ) → elem y starts ≡ true → (elem y ids ≡ true) × (elem y (completed_ids d) ≡ false))
      → IsLive d
      → Ends (Started starts d) (start_all tick starts d)
  unfolding start_all start_one Started
  start_all-Started tick [] d good fits h = (h, refl, λ y m. m)
  start_all-Started tick (id ∷ rest) d good fits h =
      let own = fits id (ground arith) in
      rw (good.2 id running) (
        weaken-Started rest id d (start_all tick rest (launched id d)) (
          start_all-Started tick rest (launched id d) good (λ y m. fits y (ground arith))
            (launched-IsLive id d own.0 own.1 h)))
