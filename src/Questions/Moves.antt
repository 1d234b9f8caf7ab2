-- ===== src/Questions/Moves.antt =====
-- Every step of a turn, of the timer and of a user keeps the broker sound
-- (cognitrix/questions/broker.py).
use cognitrix.Prelude.{ℕ, ◌≡◌, String, Option, none, some, ok}
use cognitrix.Questions.{QuestionSpec}
use cognitrix.Questions.Broker.{
  StreamKey, PendingQuestion, Broker, no_questions, ask_question, leave_question,
  cancel_questions_for_stream, auto_submit_if_due, QuestionAction, resolve_question,
}
use cognitrix.Questions.Sound.{IsSound}
use cognitrix.Questions.Answers.{
  ask-IsSound, leave-IsSound, cancel-IsSound, submit-IsSound, resolve-IsSound,
}

-- One step of a turn that asks or leaves, of the timer, or of a user. `uuid4` gives an identity that
-- no question has, and a turn leaves under its own question's identity and stream.
pub data Step : Broker → Broker → Type 0 where
  ask :
      {b b' : Broker} (key : Option StreamKey) (spec : QuestionSpec) (id : String) (now : ℕ)
      → b.pending id ≡ none
      → ask_question key spec id now b ≡ ok b'
      → Step b b'
  leave :
      {b : Broker} (id : String) (q : PendingQuestion)
      → b.pending id ≡ some q
      → Step b (leave_question id q.key b)
  cancel : {b : Broker} (key : StreamKey) → Step b (cancel_questions_for_stream key b)
  auto_submit : {b : Broker} (id : String) (now : ℕ) → Step b (auto_submit_if_due id now b)
  resolve :
      {b : Broker} (id user_key : String) (action : Option QuestionAction)
      (option_id text : Option String)
      → Step b ((resolve_question id user_key action option_id text b).1)

pub data Steps : Broker → Broker → Type 0 where
  stay : {b : Broker} → Steps b b
  then_step : {a b c : Broker} → Steps a b → Step b c → Steps a c

Step-IsSound : (b b' : Broker) → Step b b' → IsSound b → IsSound b'
Step-IsSound b b' (ask key spec id now n e) h = ask-IsSound b b' key spec id now h n e
Step-IsSound b b' (leave id q p) h = leave-IsSound b id q h p
Step-IsSound b b' (cancel key) h = cancel-IsSound b key h
Step-IsSound b b' (auto_submit id now) h = submit-IsSound b id now h
Step-IsSound b b' (resolve id user_key action option_id text) h =
    resolve-IsSound b id user_key action option_id text h

-- Whatever steps have been taken since the broker was empty: a pending question is the one of its
-- stream, an entry of a stream is of a pending question of that stream, and a result is a
-- cancellation, an option of the question (the recommended one where the timer submitted it) or,
-- where the question allows a text, one of 1 to 4000 characters.
pub question_answers-IsSound : (b : Broker) → Steps no_questions b → IsSound b
question_answers-IsSound b stay = (λ id q e. absurd (cc e), λ key id e. absurd (cc e))
question_answers-IsSound b (then_step {a} {b = mid} steps step) =
    Step-IsSound mid b step (question_answers-IsSound mid steps)
