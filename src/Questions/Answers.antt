-- ===== src/Questions/Answers.antt =====
-- What turns, the timer and users do to a sound broker (cognitrix/questions/broker.py).
use text.Mathlib.Text.{◌==◌ as str_eq}
use text.Mathlib.TextEquality.{eq_iff}
use text.Mathlib.TextPositions.{eq_refl}
use cognitrix.Prelude.{
  text_length, strip, ℕ, ltb, ◌≡◌, refl, sym, ap, ◌∙◌, subst, inl, inr, String, true, false, not,
  ◌||◌, Option, none, some, List, [], ◌∷◌, Bool-cases, Option-cases, ok, arith,
}
use cognitrix.Questions.{QuestionSpec, QuestionOption, option_answer, free_text_answer, find_option}
use cognitrix.Questions.Broker.{
  StreamKey, Outcome, answered, cancelled, PendingQuestion, Broker, asked, open_question, settle,
  ask_question, leave_question, cancel_questions_for_stream, auto_submit_if_due, recommended,
  is_due, is_given, QuestionAction, answer_action, cancel_action, stop_timer_action,
  resolve_question, act, answer, answer_text, answer_option, stop_timer, submit,
}
use cognitrix.Questions.Sound.{IsAdmissible, IsSound, update-IsSound, add-IsSound, drop-IsSound}

pub ask-IsSound :
    (b b' : Broker) (key : Option StreamKey) (spec : QuestionSpec) (id : String) (now : ℕ)
    → IsSound b
    → b.pending id ≡ none
    → ask_question key spec id now b ≡ ok b'
    → IsSound b'
unfolding ask_question
ask-IsSound b b' none spec id now h n e = absurd (cc e)
ask-IsSound b b' (some key) spec id now h n e = elim (Option-cases (b.by_stream key)) [
  | inr (other, s) ↦ absurd (cc (rw (ask_question, s) at e))
  | inl s ↦
      subst IsSound (cc (rw (ask_question, s) at e))
        (add-IsSound b id (asked key spec now) h n s tt)
]

pub leave-IsSound :
    (b : Broker) (id : String) (q : PendingQuestion)
    → IsSound b
    → b.pending id ≡ some q
    → IsSound (leave_question id q.key b)
unfolding leave_question
leave-IsSound b id q h p = rw ((h.0 id q p).0, eq_refl id) (drop-IsSound b id q h p)

open_question-some :
    (o : Option PendingQuestion) (q : PendingQuestion)
    → open_question o ≡ some q
    → (o ≡ some q) × (q.result ≡ none)
open_question-some none q e = absurd (cc e)
open_question-some (some p) q e = ground arith

find_option-some :
    (id : String) (options : List QuestionOption) (o : QuestionOption)
    → find_option id options ≡ some o
    → o.id ≡ id
unfolding find_option
find_option-some id [] o e = absurd (cc e)
find_option-some id (option ∷ rest) o e = elim (Bool-cases (str_eq option.id id)) [
  | inl t ↦
      let same : option ≡ o = cc (rw t at e) in
      ap (λ x. x.id) (sym same) ∙ (eq_iff option.id id).0 t
  | inr f ↦ find_option-some id rest o (rw f at e)
]

-- An open question is settled with what it admits.
settle-IsSound :
    (b : Broker) (id : String) (q : PendingQuestion) (outcome : Outcome)
    → IsSound b
    → b.pending id ≡ some q
    → IsAdmissible q.spec (some outcome)
    → IsSound (settle id q outcome b)
settle-IsSound b id q outcome h p a =
    update-IsSound b id q (record q { result = some outcome }) h p refl a

pub cancel-IsSound :
    (b : Broker) (key : StreamKey) → IsSound b → IsSound (cancel_questions_for_stream key b)
unfolding cancel_questions_for_stream
cancel-IsSound b key h = elim (Option-cases (b.by_stream key)) [
  | inl n ↦ rw n h
  | inr (id, s) ↦ elim (Option-cases (open_question (b.pending id))) [
    | inl n ↦ rw (s, n) h
    | inr (q, o) ↦
        rw (s, o) (settle-IsSound b id q cancelled h ((open_question-some (b.pending id) q o).0) tt)
  ]
]

-- The option that was found is the one under its own identity.
find_option-id :
    (id : String) (options : List QuestionOption) (o : QuestionOption)
    → find_option id options ≡ some o
    → find_option o.id options ≡ some o
find_option-id id options o e =
    subst (λ x. find_option x options ≡ some o) (sym (find_option-some id options o e)) e

recommended-some :
    (spec : QuestionSpec) (o : QuestionOption)
    → recommended spec ≡ some o
    → IsAdmissible spec (some (answered (option_answer o.id o.label true)))
recommended-some spec o e = elim (Option-cases spec.recommended_option_id) [
  | inl n ↦ absurd (cc (rw n at e))
  | inr (id, s) ↦
      let found : find_option id spec.options ≡ some o = rw s at e in
      (
        (o, find_option-id id spec.options o found, refl),
        λ t. s ∙ ap some (sym (find_option-some id spec.options o found)),
      )
]

submitted-IsSound :
    (b : Broker) (id : String) (q : PendingQuestion)
    → IsSound b
    → b.pending id ≡ some q
    → IsSound (submit id q (recommended q.spec) b)
submitted-IsSound b id q h p = elim (Option-cases (recommended q.spec)) [
  | inl n ↦ rw n h
  | inr (o, r) ↦ rw r (
      settle-IsSound b id q (answered (option_answer o.id o.label true)) h p
        (recommended-some q.spec o r))
]

pub submit-IsSound :
    (b : Broker) (id : String) (now : ℕ) → IsSound b → IsSound (auto_submit_if_due id now b)
unfolding auto_submit_if_due
submit-IsSound b id now h = elim (Option-cases (open_question (b.pending id))) [
  | inl n ↦ rw n h
  | inr (q, o) ↦ elim (Bool-cases (is_due q.auto_submit_at now)) [
    | inr f ↦ rw (o, f) h
    | inl t ↦ rw (o, t) (submitted-IsSound b id q h ((open_question-some (b.pending id) q o).0))
  ]
]

answer_option-IsSound :
    (b : Broker) (id : String) (q : PendingQuestion) (option_id : String)
    → IsSound b
    → b.pending id ≡ some q
    → IsSound ((answer_option id q (find_option option_id q.spec.options) b).1)
answer_option-IsSound b id q option_id h p =
    elim (Option-cases (find_option option_id q.spec.options)) [
      | inl n ↦ rw n h
      | inr (o, r) ↦ rw r (
          settle-IsSound b id q (answered (option_answer o.id o.label false)) h p
            ((o, find_option-id option_id q.spec.options o r, refl), λ t. absurd (cc t)))
    ]

text-IsAdmissible :
    (q : PendingQuestion) (text : String)
    → (not q.spec.allow_free_text || str_eq text "" || ltb 4000 (text_length text)) ≡ false
    → IsAdmissible q.spec (some (answered (free_text_answer text)))
text-IsAdmissible q text f =
    (ground arith, λ e. let t = (eq_iff text "").1 e in ground arith, ground arith)

answer_text-IsSound :
    (b : Broker) (id : String) (q : PendingQuestion) (text : String)
    → IsSound b
    → b.pending id ≡ some q
    → IsSound ((answer_text id q text b).1)
answer_text-IsSound b id q text h p =
    elim (Bool-cases
      (not q.spec.allow_free_text || str_eq text "" || ltb 4000 (text_length text))) [
        | inl t ↦ rw t h
        | inr f ↦ rw f (
            settle-IsSound b id q (answered (free_text_answer text)) h p
              (text-IsAdmissible q text f))
      ]

stop_timer-IsSound :
    (b : Broker) (id : String) (q : PendingQuestion)
    → IsSound b
    → b.pending id ≡ some q
    → IsAdmissible q.spec q.result
    → IsSound ((stop_timer id q b).1)
stop_timer-IsSound b id q h p a = elim (Option-cases q.auto_submit_at) [
  | inl n ↦ rw n h
  | inr (deadline, s) ↦ rw s (update-IsSound b id q (record q { auto_submit_at = none }) h p refl a)
]

answer-IsSound :
    (b : Broker) (id : String) (q : PendingQuestion) (option_id text : Option String)
    → IsSound b
    → b.pending id ≡ some q
    → IsSound ((answer id q option_id text b).1)
answer-IsSound b id q none none h p = h
answer-IsSound b id q none (some text) h p = answer_text-IsSound b id q (strip text) h p
answer-IsSound b id q (some option_id) none h p = answer_option-IsSound b id q option_id h p
answer-IsSound b id q (some option_id) (some text) h p = h

act-IsSound :
    (b : Broker) (id : String) (q : PendingQuestion) (action : QuestionAction)
    (option_id text : Option String)
    → IsSound b
    → b.pending id ≡ some q
    → IsSound ((act id q action option_id text b).1)
act-IsSound b id q answer_action option_id text h p = answer-IsSound b id q option_id text h p
act-IsSound b id q cancel_action option_id text h p =
    elim (Bool-cases (is_given option_id || is_given text)) [
      | inl t ↦ rw t h
      | inr f ↦ rw f (settle-IsSound b id q cancelled h p tt)
    ]
act-IsSound b id q stop_timer_action option_id text h p =
    elim (Bool-cases (is_given option_id || is_given text)) [
      | inl t ↦ rw t h
      | inr f ↦ rw f (stop_timer-IsSound b id q h p ((h.0 id q p).1))
    ]

pub resolve-IsSound :
    (b : Broker) (id user_key : String) (action : Option QuestionAction)
    (option_id text : Option String)
    → IsSound b
    → IsSound ((resolve_question id user_key action option_id text b).1)
unfolding resolve_question
resolve-IsSound b id user_key none option_id text h =
    elim (Option-cases (open_question (b.pending id))) [ inl n ↦ rw n h | inr (q, o) ↦ rw o h ]
resolve-IsSound b id user_key (some action) option_id text h =
    elim (Option-cases (open_question (b.pending id))) [
      | inl n ↦ rw n h
      | inr (q, o) ↦ elim (Bool-cases (str_eq q.key.user_key user_key)) [
        | inr f ↦ rw (o, f) h
        | inl t ↦
            rw (o, t)
              (act-IsSound b id q action option_id text h
                ((open_question-some (b.pending id) q o).0))
      ]
    ]
