-- ===== src/Questions/Timer.antt =====
-- The timer answers for a user who does not (cognitrix/questions/broker.py), since
-- cognitrix/questions/models.py accepts a timer only with an option to submit.
use text.Mathlib.Text.{◌==◌ as str_eq}
use text.Mathlib.TextEquality.{eq_iff}
use text.Mathlib.TextPositions.{eq_refl}
use cognitrix.Prelude.{
  ℕ, ◌≤◌, leb, ltb, length, ◌≡◌, refl, sym, ap, subst, inl, inr, String, Bool, true, false, Option,
  none, some, List, [], ◌∷◌, Bool-cases, Result, ok, err, arith,
}
use cognitrix.Questions.{
  QuestionSpec, QuestionOption, QuestionError, option_answer, find_option, from_tool_args, bind,
  options_from_values, optional_text, required_text, spec_is_refused, elem, ids_of,
}
use cognitrix.Questions.Broker.{PendingQuestion, Broker, answered, auto_submit_if_due, recommended}

bind-ok {ℓ κ} :
    {A : Type ℓ} {B : Type κ} (r : Result QuestionError A) (f : A → Result QuestionError B) (b : B)
    → bind r f ≡ ok b
    → (a : A) × (r ≡ ok a) × (f a ≡ ok b)
bind-ok (ok a) f b e = (a, refl, e)
bind-ok (err x) f b e = absurd (cc e)

listed_is_found :
    (id : String) (options : List QuestionOption)
    → elem id (ids_of options) ≡ true
    → (o : QuestionOption) × (find_option id options ≡ some o) × (o.id ≡ id)
unfolding find_option
listed_is_found id [] h = absurd (cc h)
listed_is_found id (option ∷ rest) h = elim (Bool-cases (str_eq option.id id)) [
  | inl t ↦ (option, rw t refl, (eq_iff option.id id).0 t)
  | inr f ↦ elim (Bool-cases (str_eq id option.id)) [
    | inl t ↦ absurd (cc ((eq_iff option.id id).1 (sym ((eq_iff id option.id).0 t)), f))
    | inr g ↦ let (o, found, same) = listed_is_found id rest (ground arith) in (o, rw f found, same)
  ]
]

-- A timer is accepted only with a recommended option of the question.
accepted_recommends :
    (options : List QuestionOption) (allow : Bool) (id : Option String)
    → spec_is_refused options allow id true ≡ false
    → (o : QuestionOption) × (elim id [ none ↦ none | some id ↦ find_option id options ] ≡ some o)
      × (id ≡ some o.id)
accepted_recommends options allow none h = absurd (ground arith)
accepted_recommends options allow (some id) h =
    let (o, found, same) = listed_is_found id options (ground arith) in
    (o, found, ap some (sym same))

abbrev IsChecked : QuestionSpec → Type 0
IsChecked spec =
    spec_is_refused spec.options spec.allow_free_text spec.recommended_option_id
      spec.auto_submit_recommended
    ≡ false

-- What `from_tool_args` makes of the options and of the recommendation has passed its checks.
module _ (raw spec : QuestionSpec) where
  made_spec :
      (options : List QuestionOption) (recommendation : Option String)
      → spec_is_refused options raw.allow_free_text recommendation raw.auto_submit_recommended
        ≡ false
      → bind (required_text raw.prompt 2000) (λ prompt.
        bind (optional_text raw.details 4000) (λ details. ok (record {
          prompt = prompt;
          details = details;
          options = options;
          allow_free_text = raw.allow_free_text;
          recommended_option_id = recommendation;
          auto_submit_recommended = raw.auto_submit_recommended;
        })))
        ≡ ok spec
      → IsChecked spec
  made_spec options recommendation f h =
      let (prompt, _, h1) = bind-ok (required_text raw.prompt 2000) _ spec h in
      let (details, _, h2) = bind-ok (optional_text raw.details 4000) _ spec h1 in
      let built : QuestionSpec = record {
        prompt = prompt;
        details = details;
        options = options;
        allow_free_text = raw.allow_free_text;
        recommended_option_id = recommendation;
        auto_submit_recommended = raw.auto_submit_recommended;
      } in
      let same : built ≡ spec = cc h2 in subst IsChecked same f

  from_tool_args-IsChecked : from_tool_args raw ≡ ok spec → IsChecked spec
  unfolding from_tool_args
  from_tool_args-IsChecked h = elim (Bool-cases (ltb 5 (length raw.options))) [
    | inl t ↦ absurd (cc (rw (from_tool_args, t) at h))
    | inr f ↦
        let (options, _, h1) =
          bind-ok (options_from_values raw.options) _ spec (rw (from_tool_args, f) at h) in
        let (recommendation, _, h2) =
          bind-ok (optional_text raw.recommended_option_id 80) _ spec h1 in
        elim (Bool-cases (
          spec_is_refused options raw.allow_free_text recommendation raw.auto_submit_recommended)) [
            | inl t ↦ absurd (cc (rw t at h2))
            | inr g ↦ made_spec options recommendation g (rw g at h2)
          ]
  ]

spec_recommends :
    (raw spec : QuestionSpec)
    → from_tool_args raw ≡ ok spec
    → spec.auto_submit_recommended ≡ true
    → (o : QuestionOption) × (recommended spec ≡ some o) × (spec.recommended_option_id ≡ some o.id)
spec_recommends raw spec h t =
    accepted_recommends spec.options spec.allow_free_text spec.recommended_option_id (
      subst
        (λ auto.
          spec_is_refused spec.options spec.allow_free_text spec.recommended_option_id auto ≡ false)
        t (from_tool_args-IsChecked raw spec h))

-- A pending question without a result, whose spec came out of `from_tool_args` with a timer, is
-- settled with its recommended option by a check of the timer at or after its deadline.
pub timer_answers :
    (b : Broker) (id : String) (q : PendingQuestion) (raw : QuestionSpec) (deadline now : ℕ)
    → from_tool_args raw ≡ ok q.spec
    → q.spec.auto_submit_recommended ≡ true
    → b.pending id ≡ some q
    → q.result ≡ none
    → q.auto_submit_at ≡ some deadline
    → deadline ≤ now
    → (o : QuestionOption) × (q.spec.recommended_option_id ≡ some o.id)
      × ((auto_submit_if_due id now b).pending id
          ≡ some (record q { result = some (answered (option_answer o.id o.label true)) }))
unfolding auto_submit_if_due
timer_answers b id q raw deadline now made t p waiting at late =
    let (o, found, same) = spec_recommends raw q.spec made t in
    let due : leb deadline now ≡ true = ground arith in
    (o, same, rw (p, waiting, at, due, found, eq_refl id) refl)
