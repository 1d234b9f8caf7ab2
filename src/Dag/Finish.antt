-- ===== src/Dag/Finish.antt =====
-- The tasks that a wait of `run_dag` returns with have their results afterwards (cognitrix/tasks/dag.py).
use cognitrix.Prelude.{
  ℕ, ◌≤◌, ◌<◌, ◌≡◌, refl, subst, Bool, true, false, ◌||◌, Option, none, some, List, [], ◌∷◌, arith,
  ◌==◌, ==_iff, Bool-cases, inl, inr, Result, ok, err,
}
use cognitrix.Dag.Graph.{elem, remove}
use cognitrix.Dag.Sets.{elem-remove}
use cognitrix.Dag.{
  done, Tick, Dag, DagError, completed_ids, finish_one, finish_all, popped, recorded,
}
use cognitrix.Dag.Progress.{missing, missing-cons, missing-less, Ends, IsGood, IsLive, moved-IsLive}

-- A task of the list is done.
abbrev pub is_some : {A : Type 0} → Option A → Bool
is_some none = false
is_some (some a) = true

abbrev pub any_done : {R : Type 0} → Tick R → List ℕ → Bool
any_done tick [] = false
any_done tick (id ∷ rest) = is_some (tick.outcome id) || any_done tick rest

module _ {R : Type 0} (ids : List ℕ) where
  abbrev pub open_nodes : Dag R → ℕ
  open_nodes d = missing ids (completed_ids d)

  -- The tasks of a list run, or have ended in the same round.
  abbrev AreKnown : List ℕ → Dag R → Type 0
  AreKnown list d =
      (y : ℕ) → elem y list ≡ true → (elem y d.active || elem y (completed_ids d)) ≡ true

  -- No failure, and fewer nodes without a result if a task was done that ran.
  abbrev pub Finished : Tick R → List ℕ → Dag R → Option ℕ → Dag R → Type 0
  Finished tick list d failure e =
      (failure ≡ none)
      × IsLive ids e
      × (open_nodes e ≤ open_nodes d)
      × ((y : ℕ)
          → elem y list ≡ true
          → elem y d.active ≡ true
          → is_some (tick.outcome y) ≡ true
          → open_nodes e < open_nodes d)

  AreKnown-moved :
      (id : ℕ) (r : R) (rest : List ℕ) (d : Dag R)
      → AreKnown (id ∷ rest) d
      → AreKnown rest (recorded id r (popped id d))
  AreKnown-moved id r rest d k y m =
      let old = k y (ground arith) in ground (arith, elem-remove y id d.active)

  waited :
      (tick : Tick R) (id : ℕ) (rest : List ℕ) (d : Dag R)
      → tick.outcome id ≡ none
      → (r : Result DagError (Option ℕ) × Dag R) → Ends (Finished tick rest d) r
      → Ends (Finished tick (id ∷ rest) d) r
  waited tick id rest d n (err x, e) h = h
  waited tick id rest d n (ok f, e) (none_failed, live, fewer, less) = (
    none_failed,
    live,
    fewer,
    λ y m a s. elim (Bool-cases (y == id)) [
      | inl t ↦ absurd (cc (subst (λ z. is_some (tick.outcome z) ≡ true) ((==_iff y id).0 t) s, n))
      | inr t ↦ less y (ground arith) a s
    ],
  )

  moved :
      (tick : Tick R) (id : ℕ) (result : R) (rest : List ℕ) (d : Dag R)
      → IsLive ids d
      → (r : Result DagError (Option ℕ) × Dag R)
      → Ends (Finished tick rest (recorded id result (popped id d))) r
      → Ends (Finished tick (id ∷ rest) d) r
  moved tick id result rest d h (err x, e) p = p
  moved tick id result rest d h (ok f, e) (none_failed, live, fewer, less) = (
    none_failed,
    live,
    omega (arith, fewer, missing-cons ids (completed_ids d) id),
    λ y m a s. elim (Bool-cases (y == id)) [
      | inl t ↦
          let here : elem id d.active ≡ true =
            subst (λ z. elem z d.active ≡ true) ((==_iff y id).0 t) a in
          let own = h.working id here in
          omega (arith, fewer, missing-less ids (completed_ids d) id own.0 own.1)
      | inr t ↦
          let still : elem y (remove id d.active) ≡ true =
            ground (arith, elem-remove y id d.active) in
          omega (arith, less y (ground arith) still s, missing-cons ids (completed_ids d) id)
    ],
  )

  pub finish_all-Finished :
      (tick : Tick R) (list : List ℕ) (d : Dag R)
      → IsGood tick
      → AreKnown list d
      → IsLive ids d
      → Ends (Finished tick list d) (finish_all tick list none d)
  unfolding finish_all finish_one
  finish_all-Finished tick [] d good k h = (refl, h, omega arith, λ y m. absurd (ground arith))
  finish_all-Finished tick (id ∷ rest) d good k h = elim (good.3 id) [
    | inl n ↦ rw n (
        waited tick id rest d n (finish_all tick rest none d)
          (finish_all-Finished tick rest d good (λ y m. k y (ground arith)) h))
    | inr (r, e) ↦
        rw (e, good.2 id done)
          (moved tick id r rest d h (finish_all tick rest none (recorded id r (popped id d))) (
            finish_all-Finished tick rest (recorded id r (popped id d)) good
              (AreKnown-moved id r rest d k) (moved-IsLive ids id r d (k id (ground arith)) h)))
  ]
