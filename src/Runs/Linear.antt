-- ===== src/Runs/Linear.antt =====
-- Optimistic concurrency: whatever the interleaving, a write takes effect only on the very row that
-- its method read.
use mathlib.Core.List.{Memᴰ}
use cognitrix.Prelude.{
  ℕ, suc, ◌+◌, ◌≤◌, ◌≡◌, ◌⊎◌, inl, inr, refl, sym, subst, ap, List, [], ◌∷◌, arith,
}
use cognitrix.Runs.{TaskRun}
use cognitrix.Runs.History.{Op, perform, History, Step, act, Reach, here, next, perform-Versioned}

-- No earlier row is newer than this one, and one of the same version is the same.
abbrev pub Precedes : TaskRun → TaskRun → Type 0
Precedes row past = (past.version ≤ row.version) × (past.version ≡ row.version → past ≡ row)

abbrev pub AllPrecede : TaskRun → List TaskRun → Type 0
AllPrecede row [] = Unit
AllPrecede row (past ∷ rest) = Precedes row past × AllPrecede row rest

abbrev pub IsLinear : History → Type 0
IsLinear h = AllPrecede h.row h.past

Precedes-mem :
    (row past : TaskRun) (rows : List TaskRun)
    → AllPrecede row rows
    → Memᴰ past rows
    → Precedes row past
Precedes-mem row past [] h m = elim m [ ]
Precedes-mem row past (r ∷ rows) h (Memᴰ.head e) = subst (Precedes row) (sym e) h.0
Precedes-mem row past (r ∷ rows) h (Memᴰ.tail m) = Precedes-mem row past rows h.1 m

-- What was read is the row itself, if its version is still current.
pub read_current :
    (h : History) (observed : TaskRun)
    → IsLinear h
    → Memᴰ observed (h.row ∷ h.past)
    → h.row.version ≡ observed.version
    → h.row ≡ observed
read_current h observed l (Memᴰ.head e) v = sym e
read_current h observed l (Memᴰ.tail m) v = sym ((Precedes-mem h.row observed h.past l m).1 (sym v))

AllPrecede-suc :
    (row row' : TaskRun) (rows : List TaskRun)
    → row'.version ≡ suc row.version
    → AllPrecede row rows
    → AllPrecede row' rows
AllPrecede-suc row row' [] v h = tt
AllPrecede-suc row row' (r ∷ rows) v h =
    ((omega (arith, h.0.0), λ e. absurd (omega (arith, h.0.0))), AllPrecede-suc row row' rows v h.1)

pub Step-IsLinear : {P : Op → Type 0} {h k : History} → Step P h k → IsLinear h → IsLinear k
Step-IsLinear (act h op observed wait p m) l =
    elim (perform-Versioned op observed (h.clock + wait) h.row) [
      | inl same ↦
          subst (λ r. AllPrecede r (h.row ∷ h.past)) (sym same) ((omega arith, λ _. refl), l)
      | inr (read, newer) ↦ (
        (omega arith, λ e. absurd (omega arith)),
        AllPrecede-suc h.row (perform op observed (h.clock + wait) h.row) h.past newer l,
      )
    ]

-- If the versions of a history tell its rows apart, then they still do after any writes of any
-- methods: no row that was ever there is newer than the current one, and one of its version is the
-- current one itself.
pub Reach-IsLinear : {P : Op → Type 0} {h k : History} → IsLinear h → Reach P h k → IsLinear k
Reach-IsLinear l here = l
Reach-IsLinear l (next r s) = Step-IsLinear s (Reach-IsLinear l r)

-- So a write either changes nothing, or acts as if its read had seen the row just before it.
pub perform_current :
    (h : History) (op : Op) (observed : TaskRun) (now : ℕ)
    → IsLinear h
    → Memᴰ observed (h.row ∷ h.past)
    → (perform op observed now h.row ≡ h.row)
      ⊎ (perform op observed now h.row ≡ perform op h.row now h.row)
perform_current h op observed now l m = elim (perform-Versioned op observed now h.row) [
  | inl same ↦ inl same
  | inr (read, newer) ↦
      inr (ap (λ o. perform op o now h.row) (sym (read_current h observed l m read)))
]
