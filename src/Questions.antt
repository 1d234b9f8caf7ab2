-- ===== src/Questions.antt =====
-- cognitrix/questions/models.py: what a question to the user may be, and what answers it. The broker
-- of cognitrix/questions/broker.py, through which a turn asks and the user answers, is in
-- Questions/Broker. Text is a `String`, with its length in code points as in Python.
pub mod Broker
pub mod Moves
pub mod Answers
pub mod Sound
pub mod Timer
mod Tests
use Prim.Native.Char.{code}
use Prim.Native.String
use text.Mathlib.Text.{◌==◌ as str_eq}
use cognitrix.Prelude.{
  text_length, strip, ℕ, suc, String, Bool, true, false, not, ◌&&◌, ◌||◌, Option, none, some, List,
  [], ◌∷◌, map, ltb, leb, ◌==◌, if◌then◌else◌, Result, ok, err, length,
}

pub data QuestionError : Type 0 where
  question_validation_error channel_unavailable already_pending : QuestionError

-- `_required_text` and `_optional_text`, of a text that is given.
unfoldable pub required_text : String → ℕ → Result QuestionError String
required_text value maximum =
    if str_eq (strip value) "" || ltb maximum (text_length (strip value))
    then err question_validation_error
    else ok (strip value)

unfoldable pub optional_text : Option String → ℕ → Result QuestionError (Option String)
optional_text none maximum = ok none
optional_text (some value) maximum =
    if str_eq (strip value) ""
    then ok none
    else if ltb maximum (text_length (strip value))
    then err question_validation_error
    else ok (some (strip value))

pub record QuestionOption : Type 0 where
  pub id : String
  pub label : String
  pub description : Option String

pub record QuestionSpec : Type 0 where
  pub prompt : String
  pub details : Option String
  pub options : List QuestionOption
  pub allow_free_text : Bool
  pub recommended_option_id : Option String
  pub auto_submit_recommended : Bool

abbrev pub bind {ℓ κ} :
    {A : Type ℓ} {B : Type κ}
    → Result QuestionError A
    → (A → Result QuestionError B)
    → Result QuestionError B
bind (ok a) f = f a
bind (err e) f = err e

-- `QuestionOption.from_value`, of a dictionary.
unfoldable pub option_from_value : QuestionOption → Result QuestionError QuestionOption
option_from_value raw = bind (required_text raw.id 80) (λ id.
    bind (required_text raw.label 200) (λ label.
      bind (optional_text raw.description 500)
        (λ description. ok (record { id = id; label = label; description = description }))))

pub options_from_values : List QuestionOption → Result QuestionError (List QuestionOption)
options_from_values [] = ok []
options_from_values (raw ∷ rest) =
    bind (option_from_value raw)
      (λ option. bind (options_from_values rest) (λ options. ok (option ∷ options)))

abbrev pub elem : String → List String → Bool
elem s [] = false
elem s (t ∷ rest) = str_eq t s || elem s rest

abbrev pub distinct : List String → Bool
distinct [] = true
distinct (s ∷ rest) = not (elem s rest) && distinct rest

abbrev pub ids_of : List QuestionOption → List String
ids_of options = map (λ option. option.id) options

abbrev pub recommended_is_listed : Option String → List String → Bool
recommended_is_listed none ids = true
recommended_is_listed (some id) ids = elem id ids

abbrev is_none : Option String → Bool
is_none none = true
is_none (some s) = false

abbrev no_options : List QuestionOption → Bool
no_options [] = true
no_options (o ∷ rest) = false

-- The checks of `from_tool_args` on what was normalised.
abbrev pub spec_is_refused : List QuestionOption → Bool → Option String → Bool → Bool
spec_is_refused options allow_free_text recommended auto_submit =
    not (distinct (ids_of options))
    || no_options options && not allow_free_text
    || not (recommended_is_listed recommended (ids_of options))
    || auto_submit && is_none recommended

-- `QuestionSpec.from_tool_args`, of arguments of the declared types.
unfoldable pub from_tool_args : QuestionSpec → Result QuestionError QuestionSpec
from_tool_args raw =
    if ltb 5 (length raw.options)
    then err question_validation_error
    else bind (options_from_values raw.options) (λ options.
      bind (optional_text raw.recommended_option_id 80) (λ recommended.
        if spec_is_refused options raw.allow_free_text recommended raw.auto_submit_recommended
        then err question_validation_error
        else bind (required_text raw.prompt 2000) (λ prompt.
          bind (optional_text raw.details 4000) (λ details. ok (record {
            prompt = prompt;
            details = details;
            options = options;
            allow_free_text = raw.allow_free_text;
            recommended_option_id = recommended;
            auto_submit_recommended = raw.auto_submit_recommended;
          })))))

pub data QuestionAnswer : Type 0 where
  option_answer : String → String → Bool → QuestionAnswer
  free_text_answer : String → QuestionAnswer

-- `next(item for item in options if item.id == option_id)`
unfoldable pub find_option : String → List QuestionOption → Option QuestionOption
find_option id [] = none
find_option id (option ∷ rest) = if str_eq option.id id then some option else find_option id rest
