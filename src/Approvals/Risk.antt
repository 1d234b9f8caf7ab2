-- ===== src/Approvals/Risk.antt =====
-- What the detector makes of a call (cognitrix/safety/destructive_ops.py), and what becomes of the call
-- where nobody can be asked (cognitrix/safety/approval_gate.py).
use Prim.Native.String.{◌++◌ as append}
use mathlib.Core.List.{Memᴰ}
use cognitrix.Prelude.{
  ◌≤◌, ◌⊎◌, ◌≡◌, ◌≢◌, refl, sym, ap, ◌∙◌, subst, inl, inr, String, Bool, true, false, List, [], ◌∷◌,
  Bool-cases, arith,
}
use cognitrix.Approvals.{
  RiskLevel, low, medium, high, risk_order, Category, RiskAssessment, destructive_categories,
  detected, higher, count_category, analyze_loop, analyze,
}
use cognitrix.Approvals.Gate.{is_low}

higher_left : (level risk : RiskLevel) → risk_order level ≤ risk_order (higher level risk)
higher_left level risk = ground arith

higher_right : (level risk : RiskLevel) → risk_order risk ≤ risk_order (higher level risk)
higher_right level risk = ground arith

higher_one : (level risk : RiskLevel) → (higher level risk ≡ level) ⊎ (higher level risk ≡ risk)
higher_one level risk = ground arith

count_grows :
    (category : Category) (a : RiskAssessment) (b : Bool)
    → risk_order a.risk_level ≤ risk_order ((count_category category a b).risk_level)
count_grows category a true = higher_right category.risk_level a.risk_level
count_grows category a false = omega arith

count_covers :
    (category : Category) (a : RiskAssessment) (b : Bool)
    → b ≡ true
    → risk_order category.risk_level ≤ risk_order ((count_category category a b).risk_level)
count_covers category a true e = higher_left category.risk_level a.risk_level
count_covers category a false e = absurd (cc e)

module _ (lower : String → String) (has_word contains : String → String → Bool) where
  abbrev pub Detected : Category → String → String → Type 0
  Detected category name combined = detected lower has_word contains category name combined ≡ true

  -- What the loop has found: a risk that it began with, or one of a detected category.
  abbrev IsFound : String → String → List Category → RiskLevel → RiskLevel → Type 0
  IsFound name combined categories first risk =
      (risk ≡ first)
      ⊎ ((c : Category) × Memᴰ c categories × Detected c name combined × (c.risk_level ≡ risk))

  loop_grows :
      (name combined : String) (categories : List Category) (a : RiskAssessment)
      → risk_order a.risk_level
        ≤ risk_order ((analyze_loop lower has_word contains name combined categories a).risk_level)
  unfolding analyze_loop
  loop_grows name combined [] a = omega arith
  loop_grows name combined (c ∷ rest) a =
      let b = detected lower has_word contains c name combined in
      omega (arith, count_grows c a b, loop_grows name combined rest (count_category c a b))

  loop_covers :
      (name combined : String) (categories : List Category) (a : RiskAssessment) (c : Category)
      → Memᴰ c categories
      → Detected c name combined
      → risk_order c.risk_level
        ≤ risk_order ((analyze_loop lower has_word contains name combined categories a).risk_level)
  unfolding analyze_loop
  loop_covers name combined [] a c m d = elim m [ ]
  loop_covers name combined (c' ∷ rest) a c (Memᴰ.head e) d =
      let b = detected lower has_word contains c' name combined in
      let found : b ≡ true = subst (λ x. Detected x name combined) e d in
      let level = ap (λ x. risk_order x.risk_level) e in
      omega (
        arith,
        level,
        count_covers c' a b found,
        loop_grows name combined rest (count_category c' a b),
      )
  loop_covers name combined (c' ∷ rest) a c (Memᴰ.tail m) d =
      let b = detected lower has_word contains c' name combined in
      loop_covers name combined rest (count_category c' a b) c m d

  one_more :
      (name combined : String) (c : Category) (rest : List Category) (first risk : RiskLevel)
      → IsFound name combined rest first risk
      → IsFound name combined (c ∷ rest) first risk
  one_more name combined c rest first risk (inl e) = inl e
  one_more name combined c rest first risk (inr (found, m, d, e)) = inr (found, Memᴰ.tail m, d, e)

  raised :
      (name combined : String) (c : Category) (rest : List Category) (first risk : RiskLevel)
      → Detected c name combined
      → IsFound name combined rest (higher c.risk_level first) risk
      → IsFound name combined (c ∷ rest) first risk
  raised name combined c rest first risk d (inr (found, m, d', e)) = inr (found, Memᴰ.tail m, d', e)
  raised name combined c rest first risk d (inl e) = elim (higher_one c.risk_level first) [
    | inl t ↦ inr (c, Memᴰ.head refl, d, sym (e ∙ t))
    | inr f ↦ inl (e ∙ f)
  ]

  loop_finds :
      (name combined : String) (categories : List Category) (a : RiskAssessment)
      → IsFound name combined categories a.risk_level
          ((analyze_loop lower has_word contains name combined categories a).risk_level)
  unfolding analyze_loop
  loop_finds name combined [] a = inl refl
  loop_finds name combined (c ∷ rest) a =
      elim (Bool-cases (detected lower has_word contains c name combined)) [
        | inr f ↦
            rw (analyze_loop, f)
              (one_more name combined c rest a.risk_level _ (loop_finds name combined rest a))
        | inl t ↦
            rw (analyze_loop, t)
              (raised name combined c rest a.risk_level _ t
                (loop_finds name combined rest (count_category c a true)))
      ]

  pub AnalyzePost : String → String → RiskLevel → Type 0
  AnalyzePost name combined risk =
      ((c : Category)
        → Memᴰ c destructive_categories
        → Detected c name combined
        → risk_order c.risk_level ≤ risk_order risk)
      × IsFound name combined destructive_categories low risk

  -- The risk of a call is the highest of the categories detected in its lowered name and text, and
  -- low where none is.
  pub analyze-AnalyzePost :
      (tool_name params : String)
      → AnalyzePost
          (lower tool_name)
          (append (lower tool_name) (append " " (lower params)))
          ((analyze lower has_word contains tool_name params).risk_level)
  unfolding AnalyzePost analyze
  analyze-AnalyzePost tool_name params =
      let combined = append (lower tool_name) (append " " (lower params)) in
      let none_yet : RiskAssessment = record { risk_level = low; categories = []; details = [] } in
      (
        loop_covers (lower tool_name) combined destructive_categories none_yet,
        loop_finds (lower tool_name) combined destructive_categories none_yet,
      )

  higher_than_low :
      (c risk : RiskLevel) → c ≢ low → risk_order c ≤ risk_order risk → is_low risk ≡ false
  higher_than_low low low n le = absurd (n refl)
  higher_than_low medium low n le = absurd (omega (arith, le))
  higher_than_low high low n le = absurd (omega (arith, le))
  higher_than_low c medium n le = refl
  higher_than_low c high n le = refl

  -- A call in whose name or arguments a category of medium or high risk is detected is risky.
  pub risky_call :
      (tool_name params : String) (c : Category)
      → Memᴰ c destructive_categories
      → Detected c (lower tool_name) (append (lower tool_name) (append " " (lower params)))
      → c.risk_level ≢ low
      → is_low ((analyze lower has_word contains tool_name params).risk_level) ≡ false
  unfolding AnalyzePost
  risky_call tool_name params c m d n =
      higher_than_low c.risk_level ((analyze lower has_word contains tool_name params).risk_level) n
        ((analyze-AnalyzePost tool_name params).0 c m d)
