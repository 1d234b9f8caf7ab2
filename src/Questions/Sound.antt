-- ===== src/Questions/Sound.antt =====
-- What holds of the broker at every moment, whatever turns and users do (cognitrix/questions/broker.py).
use text.Mathlib.Text.{◌==◌ as str_eq}
use text.Mathlib.TextEquality.{eq_iff}
use text.Mathlib.TextPositions.{eq_refl}
use cognitrix.Prelude.{
  text_length, ◌⊎◌, ◌≤◌, ◌≡◌, refl, sym, ◌∙◌, subst, ◌≢◌, inl, inr, String, Bool, true, ◌&&◌,
  Option, none, some, Bool-cases, arith,
}
use cognitrix.Questions.{QuestionSpec, QuestionOption, option_answer, free_text_answer, find_option}
use cognitrix.Questions.Broker.{
  StreamKey, same_key, Outcome, answered, cancelled, PendingQuestion, Broker, set_pending,
  set_stream,
}

-- An option of the question, the recommended one if it was submitted by the timer; or a text of 1 to
-- 4000 characters, where the question allows one.
abbrev pub IsAdmissible : QuestionSpec → Option Outcome → Type 0
IsAdmissible spec none = Unit
IsAdmissible spec (some cancelled) = Unit
IsAdmissible spec (some (answered (option_answer id label auto))) =
    ((o : QuestionOption) × (find_option id spec.options ≡ some o) × (o.label ≡ label))
    × (auto ≡ true → spec.recommended_option_id ≡ some id)
IsAdmissible spec (some (answered (free_text_answer text))) =
    (spec.allow_free_text ≡ true) × (text ≢ "") × (text_length text ≤ 4000)

-- A pending question is the one of its stream, and its result is one that it admits.
abbrev pub IsHeld : Broker → String → PendingQuestion → Type 0
IsHeld b id q = (b.by_stream q.key ≡ some id) × IsAdmissible q.spec q.result

abbrev pub HasQuestion : Broker → StreamKey → String → Type 0
HasQuestion b key id = (q : PendingQuestion) × (b.pending id ≡ some q) × (q.key ≡ key)

abbrev pub IsSound : Broker → Type 0
IsSound b =
    ((id : String) (q : PendingQuestion) → b.pending id ≡ some q → IsHeld b id q)
    × ((key : StreamKey) (id : String) → b.by_stream key ≡ some id → HasQuestion b key id)

StreamKey-eq : (a b : StreamKey) → a.user_key ≡ b.user_key → a.stream_id ≡ b.stream_id → a ≡ b
StreamKey-eq a b u s = λ i. record { user_key = u i; stream_id = s i }

and_true : (a b : Bool) → (a && b) ≡ true → (a ≡ true) × (b ≡ true)
and_true a b h = ground arith

same_key-true : (a b : StreamKey) → same_key a b ≡ true → a ≡ b
same_key-true a b h =
    let (u, s) = and_true (str_eq a.user_key b.user_key) (str_eq a.stream_id b.stream_id) h in
    StreamKey-eq a b ((eq_iff a.user_key b.user_key).0 u) ((eq_iff a.stream_id b.stream_id).0 s)

same_key_refl : (a : StreamKey) → same_key a a ≡ true
same_key_refl a = rw (eq_refl a.user_key, eq_refl a.stream_id) refl

module _ (b : Broker) where
  -- What is read after a write of a question, and after a write of a stream.
  pub set_pending-cases :
      (id : String) (q : Option PendingQuestion) (other : String)
      → ((other ≡ id) × ((set_pending id q b).pending other ≡ q))
        ⊎ ((other ≢ id) × ((set_pending id q b).pending other ≡ b.pending other))
  set_pending-cases id q other = elim (Bool-cases (str_eq other id)) [
    | inl t ↦ inl ((eq_iff other id).0 t, rw t refl)
    | inr f ↦ inr (λ e. absurd (cc ((eq_iff other id).1 e, f)), rw f refl)
  ]

  pub set_stream-cases :
      (key : StreamKey) (id : Option String) (other : StreamKey)
      → ((other ≡ key) × ((set_stream key id b).by_stream other ≡ id))
        ⊎ ((other ≢ key) × ((set_stream key id b).by_stream other ≡ b.by_stream other))
  set_stream-cases key id other = elim (Bool-cases (same_key other key)) [
    | inl t ↦ inl (same_key-true other key t, rw t refl)
    | inr f ↦ inr (
      λ e. absurd (cc (subst (λ k. same_key other k ≡ true) e (same_key_refl other), f)),
      rw f refl,
    )
  ]

-- A pending question is written over by one of the same stream.
pub update-IsSound :
    (b : Broker) (id : String) (q q' : PendingQuestion)
    → IsSound b
    → b.pending id ≡ some q
    → q'.key ≡ q.key
    → IsAdmissible q'.spec q'.result
    → IsSound (set_pending id (some q') b)
update-IsSound b id q q' h p k a = (
  λ other r e. elim (set_pending-cases b id (some q') other) [
    | inl (t, u) ↦ let same : q' ≡ r = cc in subst (IsHeld b other) same (cc ((h.0 id q p).0), a)
    | inr (f, u) ↦ h.0 other r (cc)
  ],
  λ key other e.
      let (r, held, kept) = h.1 key other e in
      elim (set_pending-cases b id (some q') other) [
        | inl (t, u) ↦ (q', u, cc)
        | inr (f, u) ↦ (r, cc, kept)
      ],
)

-- A question is added for a stream without one, under an identity that is not in use.
pub add-IsSound :
    (b : Broker) (id : String) (q : PendingQuestion)
    → IsSound b
    → b.pending id ≡ none
    → b.by_stream q.key ≡ none
    → IsAdmissible q.spec q.result
    → IsSound (set_stream q.key (some id) (set_pending id (some q) b))
add-IsSound b id q h n k a = (
  λ other r e. elim (set_pending-cases b id (some q) other) [
    | inl (t, u) ↦
        let same : q ≡ r = cc in
        elim (set_stream-cases (set_pending id (some q) b) q.key (some id) q.key) [
          | inl (t', u') ↦
              subst (IsHeld (set_stream q.key (some id) (set_pending id (some q) b)) other) same
                (cc, a)
          | inr (f', u') ↦ absurd (f' refl)
        ]
    | inr (f, u) ↦
        let (held, admissible) = h.0 other r (cc) in
        elim (set_stream-cases (set_pending id (some q) b) q.key (some id) r.key) [
          | inl (t', u') ↦ absurd (cc (held, k, t'))
          | inr (f', u') ↦ (u' ∙ held, admissible)
        ]
  ],
  λ key other e. elim (set_stream-cases (set_pending id (some q) b) q.key (some id) key) [
    | inl (t', u') ↦ elim (set_pending-cases b id (some q) other) [
      | inl (t, u) ↦ (q, u, sym t')
      | inr (f, u) ↦ absurd (f (cc))
    ]
    | inr (f', u') ↦
        let (r, held, kept) = h.1 key other (sym u' ∙ e) in
        elim (set_pending-cases b id (some q) other) [
          | inl (t, u) ↦ absurd (cc (held, n, t))
          | inr (f, u) ↦ (r, u ∙ held, kept)
        ]
  ],
)

-- A question is taken away together with the entry of its stream.
pub drop-IsSound :
    (b : Broker) (id : String) (q : PendingQuestion)
    → IsSound b
    → b.pending id ≡ some q
    → IsSound (set_stream q.key none (set_pending id none b))
drop-IsSound b id q h p = (
  λ other r e. elim (set_pending-cases b id none other) [
    | inl (t, u) ↦ absurd (cc)
    | inr (f, u) ↦
        let (held, admissible) = h.0 other r (cc) in
        elim (set_stream-cases (set_pending id none b) q.key none r.key) [
          | inl (t', u') ↦ absurd (f (cc (held, (h.0 id q p).0, t')))
          | inr (f', u') ↦ (u' ∙ held, admissible)
        ]
  ],
  λ key other e. elim (set_stream-cases (set_pending id none b) q.key none key) [
    | inl (t', u') ↦ absurd (cc)
    | inr (f', u') ↦
        let (r, held, kept) = h.1 key other (sym u' ∙ e) in
        elim (set_pending-cases b id none other) [
          | inl (t, u) ↦ absurd (f' (cc (held, p, t, kept)))
          | inr (f, u) ↦ (r, u ∙ held, kept)
        ]
  ],
)
