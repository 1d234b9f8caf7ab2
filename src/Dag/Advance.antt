-- ===== src/Dag/Advance.antt =====
-- The starts and the ends of tasks in a round, as steps of the abstract run
-- (cognitrix/tasks/dag.py).
use cognitrix.Prelude.{
  ℕ, zero, suc, ◌≡◌, refl, subst, true, false, Option, List, [], ◌∷◌, map, arith, ◌==◌, ==_iff,
  Bool-cases, Option-cases, inl, inr,
}
use cognitrix.Dag.Graph.{elem, remove, take, has_duplicate}
use cognitrix.Dag.Sets.{elem-remove, all_ready}
use cognitrix.Dag.Order.{insert-distinct}
use cognitrix.Dag.Waiting.{filter_ready-inside, take-inside}
use cognitrix.Dag.Termination.{unfinished-open}
use cognitrix.Dag.Sequential.{IsRun, launched-IsRun, popped-IsRun, moved-IsRun}
use cognitrix.Dag.{
  running, done, failed, cancelled, returned, raised, interrupted, Tick, Dag, completed_ids,
  start_one, start_all, finish_one, finish_all, launched, popped, recorded, filter_ready,
  first_failure, unfinished,
}

pub remove-others :
    (id y : ℕ) (rest xs : List ℕ)
    → has_duplicate (id ∷ rest) ≡ false
    → elem y rest ≡ true
    → elem y xs ≡ true
    → elem y (remove id xs) ≡ true
remove-others id y rest xs once m old = elim (Bool-cases (y == id)) [
  | inr f ↦ ground (arith, elem-remove y id xs)
  | inl e ↦
      let again : elem id rest ≡ true = subst (λ z. elem z rest ≡ true) ((==_iff y id).0 e) m in
      absurd (ground arith)
]

pub take-distinct :
    (n : ℕ) (xs : List ℕ) → has_duplicate xs ≡ false → has_duplicate (take n xs) ≡ false
take-distinct zero xs h = refl
take-distinct (suc n) [] h = refl
take-distinct (suc n) (x ∷ xs) h = ground (arith, take-distinct n xs, take-inside n xs x)

module _ {R : Type 0} where
  pub filter_ready-distinct :
      (deps : ℕ → List ℕ) (d : Dag R) (xs : List ℕ)
      → has_duplicate xs ≡ false
      → has_duplicate (filter_ready deps d xs) ≡ false
  filter_ready-distinct deps d [] h = refl
  filter_ready-distinct deps d (x ∷ xs) h =
      ground (arith, filter_ready-distinct deps d xs, filter_ready-inside deps d xs x)

  pub unfinished-distinct :
      (completed : List (ℕ × R)) (xs : List ℕ)
      → has_duplicate xs ≡ false
      → has_duplicate (unfinished completed xs) ≡ false
  unfinished-distinct completed [] h = refl
  unfinished-distinct completed (x ∷ xs) h =
      elim (Bool-cases (elem x (map (λ entry. entry.0) completed))) [
        | inl t ↦ rw t (unfinished-distinct completed xs (ground arith))
        | inr f ↦
            let others = unfinished-distinct completed xs (ground arith) in
            let new : elem x (unfinished completed xs) ≡ false =
              elim (Bool-cases (elem x (unfinished completed xs))) [
                | inr n ↦ n
                | inl m ↦ let there = (unfinished-open completed xs x m).0 in absurd (ground arith)
              ] in
            rw f (ground (arith, insert-distinct x (unfinished completed xs)))
      ]

module _ {R : Type 0} (ids : List ℕ) (deps : ℕ → List ℕ) (given : List (ℕ × R)) where
  pub start_all-IsRun :
      (tick : Tick R) (starts : List ℕ) (d : Dag R)
      → has_duplicate starts ≡ false
      → ((y : ℕ) → elem y starts ≡ true → elem y d.pending ≡ true)
      → all_ready deps starts (completed_ids d) ≡ true
      → IsRun ids deps given d
      → IsRun ids deps given (start_all tick starts d).1
  unfolding start_all start_one
  start_all-IsRun tick [] d once wait r h = h
  start_all-IsRun tick (id ∷ rest) d once wait r h = elim (Bool-cases (tick.persisted id running)) [
    | inr e ↦ rw e h
    | inl e ↦ rw e (
        start_all-IsRun tick rest (launched id d) (ground arith)
          (λ y m. let old = wait y (ground arith) in remove-others id y rest d.pending once m old)
          (ground arith)
          (launched-IsRun ids deps given id d (wait id (ground arith)) (ground arith) h))
  ]

  pub finish_all-IsRun :
      (tick : Tick R) (list : List ℕ) (failure : Option ℕ) (d : Dag R)
      → has_duplicate list ≡ false
      → ((y : ℕ) → elem y list ≡ true → elem y d.active ≡ true)
      → IsRun ids deps given d
      → IsRun ids deps given (finish_all tick list failure d).1
  unfolding finish_all finish_one
  finish_all-IsRun tick [] failure d once active h = h
  finish_all-IsRun tick (id ∷ rest) failure d once active h =
      let left : (y : ℕ) → elem y rest ≡ true → elem y (remove id d.active) ≡ true =
        λ y m. let old = active y (ground arith) in remove-others id y rest d.active once m old in
      elim (Option-cases (tick.outcome id)) [
        | inl n ↦
            rw n (
              finish_all-IsRun tick rest failure d (ground arith) (λ y m. active y (ground arith))
                h)
        | inr (returned r, o) ↦ elim (Bool-cases (tick.persisted id done)) [
          | inl p ↦
              rw (o, p)
                (finish_all-IsRun tick rest failure (recorded id r (popped id d)) (ground arith)
                  left (moved-IsRun ids deps given id r d (active id (ground arith)) h))
          | inr p ↦ rw (o, p) (popped-IsRun ids deps given id d h)
        ]
        | inr (raised, o) ↦ elim (Bool-cases (tick.persisted id failed)) [
          | inl p ↦
              rw (o, p)
                (finish_all-IsRun tick rest (first_failure failure id) (popped id d) (ground arith)
                  left (popped-IsRun ids deps given id d h))
          | inr p ↦ rw (o, p) (popped-IsRun ids deps given id d h)
        ]
        | inr (interrupted, o) ↦ elim (Bool-cases (tick.persisted id cancelled)) [
          | inl p ↦ rw (o, p) (popped-IsRun ids deps given id d h)
          | inr p ↦ rw (o, p) (popped-IsRun ids deps given id d h)
        ]
      ]
