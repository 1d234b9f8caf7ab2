-- ===== src/Dag/Sequential.antt =====
-- The abstract run of a task graph: one node after another, each once and after what it depends on
-- (cognitrix/tasks/dag.py).
use cognitrix.Prelude.{
  ℕ, ◌≡◌, refl, sym, subst, true, false, List, [], ◌∷◌, map, arith, ◌==◌, ==_iff, Bool-cases, inl,
  inr,
}
use cognitrix.Dag.Graph.{elem, subset, remove, has_duplicate}
use cognitrix.Dag.Sets.{
  elem-remove, elem-insert, all_ready, all_ready-cons, all_ready-insert, all_ready-remove,
}
use cognitrix.Dag.Order.{insert-distinct}
use cognitrix.Dag.Walk.{all_ready-elem}
use cognitrix.Dag.{Dag, completed_ids, launched, popped, recorded}

abbrev ids_in : {R : Type 0} → List (ℕ × R) → List ℕ
ids_in results = map (λ entry. entry.0) results

-- One node after another, with any result.
pub data Sequential {R : Type 0} (ids : List ℕ) (deps : ℕ → List ℕ) (given : List (ℕ × R))
    : List (ℕ × R) → Type 0 where
  begin : Sequential ids deps given given
  then_node :
      {results : List (ℕ × R)} (id : ℕ) (r : R)
      → Sequential ids deps given results
      → elem id ids ≡ true
      → elem id (map (λ entry. entry.0) results) ≡ false
      → subset (deps id) (map (λ entry. entry.0) results) ≡ true
      → Sequential ids deps given ((id, r) ∷ results)

remove-distinct :
    (x : ℕ) (ys : List ℕ) → has_duplicate ys ≡ false → has_duplicate (remove x ys) ≡ false
remove-distinct x [] h = refl
remove-distinct x (y ∷ ys) h = ground (arith, remove-distinct x ys, elem-remove y x ys)

module _ {R : Type 0} (ids : List ℕ) (deps : ℕ → List ℕ) (given : List (ℕ × R)) where
  -- The scheduler has done what the abstract run does, and the nodes that wait or run are new to it.
  pub record IsRun (d : Dag R) : Type 0 where
    pub run : Sequential ids deps given d.results
    pub ready : all_ready deps d.active (completed_ids d) ≡ true
    pub active_once : has_duplicate d.active ≡ false
    pub pending_once : has_duplicate d.pending ≡ false
    pub waiting :
        (x : ℕ)
        → elem x d.pending ≡ true
        → (elem x ids ≡ true) × (elem x (completed_ids d) ≡ false) × (elem x d.active ≡ false)
    pub working :
        (x : ℕ) → elem x d.active ≡ true → (elem x ids ≡ true) × (elem x (completed_ids d) ≡ false)

  pub launched-IsRun :
      (id : ℕ) (d : Dag R)
      → elem id d.pending ≡ true
      → subset (deps id) (completed_ids d) ≡ true
      → IsRun d
      → IsRun (launched id d)
  launched-IsRun id d m s h =
      let own = h.waiting id m in
      record {
        run = h.run;
        ready = all_ready-insert deps id d.active (completed_ids d) s h.ready;
        active_once =
            let a = h.active_once in let n = own.2 in ground (arith, insert-distinct id d.active);
        pending_once = remove-distinct id d.pending h.pending_once;
        waiting = λ x w.
            let old = h.waiting x (ground (arith, elem-remove x id d.pending)) in
            let free = old.2 in
            (old.0, old.1, ground (arith, elem-remove x id d.pending, elem-insert x id d.active));
        working = λ x w. elim (Bool-cases (x == id)) [
          | inl e ↦ rw ((==_iff x id).0 e) (own.0, own.1)
          | inr f ↦ h.working x (ground (arith, elem-insert x id d.active))
        ];
      }

  pub popped-IsRun : (id : ℕ) (d : Dag R) → IsRun d → IsRun (popped id d)
  popped-IsRun id d h = record {
    run = h.run;
    ready = all_ready-remove deps id d.active (completed_ids d) h.ready;
    active_once = remove-distinct id d.active h.active_once;
    pending_once = h.pending_once;
    waiting = λ x w.
        let old = h.waiting x w in
        let free = old.2 in (old.0, old.1, ground (arith, elem-remove x id d.active));
    working = λ x w. h.working x (ground (arith, elem-remove x id d.active));
  }

  pub moved-IsRun :
      (id : ℕ) (r : R) (d : Dag R)
      → elem id d.active ≡ true
      → IsRun d
      → IsRun (recorded id r (popped id d))
  moved-IsRun id r d m h =
      let own = h.working id m in
      let p = popped-IsRun id d h in
      record {
        run =
            then_node id r h.run own.0 own.1
              (all_ready-elem deps d.active (completed_ids d) id h.ready m);
        ready = all_ready-cons deps (remove id d.active) (completed_ids d) id p.ready;
        active_once = p.active_once;
        pending_once = h.pending_once;
        waiting = λ x w.
            let old = h.waiting x w in
            let free = old.2 in
            let n = old.1 in
            (
              old.0,
              elim (Bool-cases (x == id)) [
                | inl e ↦
                    let there : elem x d.active ≡ true =
                      subst (λ y. elem y d.active ≡ true) (sym ((==_iff x id).0 e)) m in
                    absurd (ground arith)
                | inr f ↦ ground arith
              ],
              (p.waiting x w).2,
            );
        working = λ x w.
            let old = p.working x w in
            let n = old.1 in (old.0, ground (arith, elem-remove x id d.active));
      }
