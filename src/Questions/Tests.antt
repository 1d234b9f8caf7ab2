-- ===== src/Questions/Tests.antt =====
-- Questions asked and answered: concrete runs of the broker.
use cognitrix.Prelude.{
  text_length, strip, ◌≡◌, refl, true, false, none, some, [], ◌∷◌, ok, err, arith,
}
use cognitrix.Questions.{
  QuestionSpec, QuestionOption, from_tool_args, options_from_values, required_text, optional_text,
  option_from_value, option_answer, free_text_answer, question_validation_error,
}
use cognitrix.Questions.Broker.{
  StreamKey, Broker, no_questions, asked, ask_question, auto_submit_if_due, resolve_question,
  answer_action, answered, set_pending, set_stream,
}
use cognitrix.Questions.Sound.{IsSound}
use cognitrix.Questions.Moves.{question_answers-IsSound, stay, then_step, ask, resolve}
use cognitrix.Questions.Timer.{timer_answers}

abbrev chat : StreamKey
chat = record { user_key = "ana"; stream_id = "s1" }

abbrev yes : QuestionOption
yes = record { id = "yes"; label = "Go on"; description = none }

abbrev no : QuestionOption
no = record { id = "no"; label = "Stop"; description = some " at once " }

abbrev raw : QuestionSpec
raw = record {
  prompt = "  Go on?  ";
  details = none;
  options = yes ∷ no ∷ [];
  allow_free_text = true;
  recommended_option_id = some " yes ";
  auto_submit_recommended = true;
}

abbrev go_on : QuestionSpec
go_on = record {
  prompt = "Go on?";
  details = none;
  options = yes ∷ record no { description = some "at once" } ∷ [];
  allow_free_text = true;
  recommended_option_id = some "yes";
  auto_submit_recommended = true;
}

raw-accepted : from_tool_args raw ≡ ok go_on
unfolding from_tool_args option_from_value required_text optional_text strip text_length
    options_from_values
raw-accepted = refl

raw-without_options :
    from_tool_args (record raw { options = []; allow_free_text = false })
    ≡ err question_validation_error
unfolding from_tool_args option_from_value required_text optional_text strip text_length
    options_from_values
raw-without_options = refl

abbrev waiting : Broker
waiting = set_stream chat (some "q1") (set_pending "q1" (some (asked chat go_on 5)) no_questions)

waiting-asked : ask_question (some chat) go_on "q1" 5 no_questions ≡ ok waiting
unfolding ask_question
waiting-asked = refl

-- The user answers in words; another user's answer is refused.
abbrev replied : Broker
replied = (resolve_question "q1" "ana" (some answer_action) none (some " maybe ") waiting).1

replied_by_other :
    (resolve_question "q1" "bob" (some answer_action) (some "yes") none waiting).0 ≡ false
unfolding resolve_question
replied_by_other = refl

replied_text :
    replied.pending "q1"
    ≡ some (record (asked chat go_on 5) { result = some (answered (free_text_answer "maybe")) })
unfolding resolve_question strip text_length
replied_text = refl

question_answers-IsSound_example : IsSound replied
question_answers-IsSound_example = question_answers-IsSound replied (
    then_step (then_step stay (ask (some chat) go_on "q1" 5 refl waiting-asked))
      (resolve "q1" "ana" (some answer_action) none (some " maybe ")))

timer_answers_example :
    (o : QuestionOption) × (some "yes" ≡ some o.id)
    × ((auto_submit_if_due "q1" 60005 waiting).pending "q1"
        ≡ some (record (asked chat go_on 5) {
          result = some (answered (option_answer o.id o.label true));
        }))
timer_answers_example =
    timer_answers waiting "q1" (asked chat go_on 5) raw 60005 60005 raw-accepted refl refl refl refl
      (omega arith)
