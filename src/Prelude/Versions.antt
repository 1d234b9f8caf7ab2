-- ===== src/Prelude/Versions.antt =====
-- Rows under a version number: the rows of the past that a writer may have read, and the current one.
use Prim.Native.Nat.{ℕ, ◌≤◌, ◌<◌}
use mathlib.Core.Path.{◌≡◌, sym, subst}
use mathlib.Core.List.{List, [], ◌∷◌, Memᴰ}
use native.Mathlib.Omega.{arith}

module _ {R : Type 0} (version : R → ℕ) where
  -- No earlier row is newer than this one, and one of the same version is the same.
  abbrev pub IsNewest : R → R → Type 0
  IsNewest row past = (version past ≤ version row) × (version past ≡ version row → past ≡ row)

  abbrev pub IsNewestOf : R → List R → Type 0
  IsNewestOf row [] = Unit
  IsNewestOf row (past ∷ rest) = IsNewest row past × IsNewestOf row rest

  IsNewest-mem :
      (row past : R) (rows : List R) → IsNewestOf row rows → Memᴰ past rows → IsNewest row past
  IsNewest-mem row past [] h m = elim m [ ]
  IsNewest-mem row past (r ∷ rows) h (Memᴰ.head e) = subst (IsNewest row) (sym e) h.0
  IsNewest-mem row past (r ∷ rows) h (Memᴰ.tail m) = IsNewest-mem row past rows h.1 m

  -- What was read is the row itself, if its version is still current.
  pub newest_read :
      (row observed : R) (past : List R)
      → IsNewestOf row past
      → Memᴰ observed (row ∷ past)
      → version row ≡ version observed
      → row ≡ observed
  newest_read row observed past l (Memᴰ.head e) v = sym e
  newest_read row observed past l (Memᴰ.tail m) v =
      sym ((IsNewest-mem row observed past l m).1 (sym v))

  pub newest_next :
      (row row' : R) (rows : List R)
      → version row < version row'
      → IsNewestOf row rows
      → IsNewestOf row' rows
  newest_next row row' [] v h = tt
  newest_next row row' (r ∷ rows) v h =
      ((omega (arith, h.0.0), λ e. absurd (omega (arith, h.0.0))), newest_next row row' rows v h.1)
