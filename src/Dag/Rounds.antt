-- ===== src/Dag/Rounds.antt =====
-- One round of `run_dag` in which a task is done (cognitrix/tasks/dag.py).
use cognitrix.Prelude.{
  Exec, ℕ, suc, ◌≤◌, ◌<◌, ◌≡◌, refl, sym, ap, subst, Bool, true, false, Option, none, some, List,
  map, arith, Result, ok, err, raise_if, ◌>>◌,
}
use cognitrix.Dag.Graph.{Node, ids_of, deps_of}
use cognitrix.Dag.{
  wait_then, Tick, Dag, DagError, launch, progress, settle, turn, is_idle, is_empty, continue_with,
  execution_cancelled, finish_all, fail_if, validation_error,
}
use cognitrix.Dag.Acyclic.{IsOrder}
use cognitrix.Dag.Progress.{missing, Ends, after-Ends, IsGood, IsLive}
use cognitrix.Dag.Finish.{any_done, Finished, finish_all-Finished, open_nodes}
use cognitrix.Dag.Waiting.{done-elem, launch-runs}

module _ {R : Type 0} (ids : List ℕ) where
  -- The state after a round: live, with fewer nodes without a result.
  abbrev pub Nearer : Dag R → Unit {0} → Dag R → Type 0
  Nearer d u e = IsLive ids e × (open_nodes ids e < open_nodes ids d)

  wait_then-Ends :
      (P : Unit {0} → Dag R → Type 0) (stopped : Bool) (m : Exec DagError (Dag R) Unit) (d : Dag R)
      → stopped ≡ false
      → Ends P (m d)
      → Ends P (wait_then stopped m d)
  wait_then-Ends P true m d e k = absurd (cc e)
  wait_then-Ends P false m d e k = k

  settle-Nearer :
      (tick : Tick R) (d : Dag R)
      → IsGood tick
      → any_done tick d.active ≡ true
      → IsLive ids d
      → Ends (Nearer d) (settle tick d)
  unfolding settle
  settle-Nearer tick d good wakes h = wait_then-Ends (Nearer d) tick.caller_cancelled _ d good.4 (
      after-Ends (Finished ids tick d.active d) (Nearer d) (finish_all tick d.active none d)
        (λ failure. raise_if tick.cancel execution_cancelled >> fail_if failure)
        (finish_all-Finished ids tick d.active d good (λ y m. ground arith) h)
        (λ failure e f.
          let (y, m, s) = done-elem tick d.active wakes in rw (good.1, f.0) (f.1, f.3 y m m s)))

  -- What holds of an outcome holds of its state.
  with_state :
      {A : Type 0} (P : A → Dag R → Type 0) (r : Result DagError A × Dag R)
      → Ends P r
      → Ends (λ a e. P a e × (e ≡ r.1)) r
  with_state P (ok a, e) h = (h, refl)
  with_state P (err x, e) h = h

  passes :
      (test : Bool) (x : DagError) (d : Dag R)
      → test ≡ false
      → Ends (λ u e. e ≡ d) (raise_if test x d)
  passes true x d e = absurd (cc e)
  passes false x d e = refl

  weaken_round :
      (d e : Dag R) (r : Result DagError (Unit {0}) × Dag R)
      → open_nodes ids e ≡ open_nodes ids d
      → Ends (Nearer e) r
      → Ends (Nearer d) r
  weaken_round d e (ok u, x) same h = (h.0, omega (arith, h.1, same))
  weaken_round d e (err y, x) same h = h

  -- The rest of the loop, from what a round has left.
  pub continue_returns :
      (rest : Dag R → Option (Result DagError (Unit {0})) × Dag R) (d : Dag R)
      (r : Result DagError (Unit {0}) × Dag R) (left : ℕ)
      → Ends (Nearer d) r
      → open_nodes ids d ≤ suc left
      → (IsLive ids r.1 → open_nodes ids r.1 ≤ left → (rest r.1).0 ≡ some (ok tt))
      → (continue_with rest r).0 ≡ some (ok tt)
  continue_returns rest d (ok u, e) left h enough go = go h.0 (omega (arith, h.1, enough))
  continue_returns rest d (err x, e) left h enough go = absurd h

module _ {R : Type 0} (limit : ℕ) (nodes : List Node) (positive : 1 ≤ limit) (order : List ℕ)
    (o : IsOrder nodes order) where
  launched-Nearer :
      (tick : Tick R) (d : Dag R)
      → IsGood tick
      → (is_empty (launch limit (deps_of nodes) tick d).1.active ≡ false
          → any_done tick (launch limit (deps_of nodes) tick d).1.active ≡ true)
      → is_idle d ≡ false
      → IsLive (ids_of nodes) d
      → Ends
          (Nearer (ids_of nodes) d)
          ((launch limit (deps_of nodes) tick >> (progress >> settle tick)) d)
  launched-Nearer tick d good wakes busy h =
      after-Ends _ (Nearer (ids_of nodes) d) (launch limit (deps_of nodes) tick d)
        (λ u. progress >> settle tick)
        (with_state (ids_of nodes)
          (λ u e. IsLive (ids_of nodes) e × (e.results ≡ d.results) × (is_empty e.active ≡ false))
          (launch limit (deps_of nodes) tick d)
          (launch-runs limit nodes positive order o tick d good h busy))
        (λ u e s.
          let runs : is_empty e.active ≡ false = s.0.2 in
          let woken : any_done tick e.active ≡ true =
            subst (λ x. is_empty x.active ≡ false → any_done tick x.active ≡ true) (sym s.1) wakes
              runs in
          let same : open_nodes (ids_of nodes) e ≡ open_nodes (ids_of nodes) d =
            ap (λ results. missing (ids_of nodes) (map (λ entry. entry.0) results)) s.0.1 in
          after-Ends (λ u' x. x ≡ e) (Nearer (ids_of nodes) d) (progress e) (λ u'. settle tick)
            (passes (ids_of nodes) (is_empty e.active) (validation_error none) e runs)
            (λ u' x p.
              subst (λ y. Ends (Nearer (ids_of nodes) d) (settle tick y)) (sym p)
                (weaken_round (ids_of nodes) d e (settle tick e) same
                  (settle-Nearer (ids_of nodes) tick e good woken s.0.0))))

  pub turn-Nearer :
      (tick : Tick R) (d : Dag R)
      → IsGood tick
      → (is_empty (launch limit (deps_of nodes) tick d).1.active ≡ false
          → any_done tick (launch limit (deps_of nodes) tick d).1.active ≡ true)
      → is_idle d ≡ false
      → IsLive (ids_of nodes) d
      → Ends (Nearer (ids_of nodes) d) (turn limit (deps_of nodes) tick d)
  unfolding turn
  turn-Nearer tick d good wakes busy h =
      after-Ends (λ u e. e ≡ d) (Nearer (ids_of nodes) d)
        (raise_if tick.stop_before execution_cancelled d)
        (λ u. launch limit (deps_of nodes) tick >> (progress >> settle tick))
        (passes (ids_of nodes) tick.stop_before execution_cancelled d good.0)
        (λ u e s.
          subst
            (λ x.
              Ends (Nearer (ids_of nodes) d)
                ((launch limit (deps_of nodes) tick >> (progress >> settle tick)) x))
            (sym s) (launched-Nearer tick d good wakes busy h))
