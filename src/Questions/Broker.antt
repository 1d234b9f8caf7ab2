-- ===== src/Questions/Broker.antt =====
-- cognitrix/questions/broker.py: the questions that turns wait for. The code between two awaits is
-- one step; `_PENDING` and `_PENDING_BY_STREAM` are functions, and the future of a question is its
-- result. A question's identity is its request id, which `uuid4` never gives twice.
use text.Mathlib.Text.{◌==◌ as str_eq}
use cognitrix.Prelude.{
  text_length, strip, ℕ, ◌+◌, String, Bool, true, false, not, ◌&&◌, ◌||◌, Option, none, some, ltb,
  leb, if◌then◌else◌, Result, ok, err,
}
use cognitrix.Questions.{
  QuestionSpec, QuestionOption, QuestionAnswer, option_answer, free_text_answer, find_option,
  QuestionError, already_pending, channel_unavailable,
}

pub record StreamKey : Type 0 where
  pub user_key : String
  pub stream_id : String

abbrev pub same_key : StreamKey → StreamKey → Bool
same_key a b = str_eq a.user_key b.user_key && str_eq a.stream_id b.stream_id

-- What a future holds once it is done.
pub data Outcome : Type 0 where
  answered : QuestionAnswer → Outcome
  cancelled : Outcome

pub record PendingQuestion : Type 0 where
  pub key : StreamKey
  pub spec : QuestionSpec
  pub result : Option Outcome
  pub auto_submit_at : Option ℕ

pub record Broker : Type 0 where
  pub pending : String → Option PendingQuestion
  pub by_stream : StreamKey → Option String

abbrev pub no_questions : Broker
no_questions = record { pending = λ id. none; by_stream = λ key. none }

abbrev pub auto_submit_ms : ℕ
auto_submit_ms = 60000

abbrev pub set_pending : String → Option PendingQuestion → Broker → Broker
set_pending id q b = record b { pending = λ other. if str_eq other id then q else b.pending other }

abbrev pub set_stream : StreamKey → Option String → Broker → Broker
set_stream key id b = record b {
  by_stream = λ other. if same_key other key then id else b.by_stream other;
}

abbrev pub timer_of : QuestionSpec → ℕ → Option ℕ
timer_of spec now = if spec.auto_submit_recommended then some (now + auto_submit_ms) else none

abbrev pub asked : StreamKey → QuestionSpec → ℕ → PendingQuestion
asked key spec now = record {
  key = key;
  spec = spec;
  result = none;
  auto_submit_at = timer_of spec now;
}

-- `ask_question` up to its first await; `none` is a turn without an interactive channel.
unfoldable pub ask_question :
    Option StreamKey → QuestionSpec → String → ℕ → Broker → Result QuestionError Broker
ask_question none spec request_id now b = err channel_unavailable
ask_question (some key) spec request_id now b = elim (b.by_stream key) [
  | some other ↦ err already_pending
  | none ↦
      ok (set_stream key (some request_id) (set_pending request_id (some (asked key spec now)) b))
]

abbrev pub names : Option String → String → Bool
names none id = false
names (some stored) id = str_eq stored id

-- The `finally` clause of `ask_question`, however its wait ends.
unfoldable pub leave_question : String → StreamKey → Broker → Broker
leave_question request_id key b =
    let left = set_pending request_id none b in
    if names (b.by_stream key) request_id then set_stream key none left else left

-- `future.set_result`, on a question that is there.
abbrev pub settle : String → PendingQuestion → Outcome → Broker → Broker
settle id q outcome b = set_pending id (some (record q { result = some outcome })) b

abbrev pub is_open : PendingQuestion → Bool
is_open q = elim q.result [ none ↦ true | some r ↦ false ]

-- A question that is there and not answered yet.
abbrev pub open_question : Option PendingQuestion → Option PendingQuestion
open_question none = none
open_question (some q) = if is_open q then some q else none

abbrev pub cancel_open : String → Option PendingQuestion → Broker → Broker
cancel_open id none b = b
cancel_open id (some q) b = settle id q cancelled b

abbrev pub cancel_named : Option String → Broker → Broker
cancel_named none b = b
cancel_named (some id) b = cancel_open id (open_question (b.pending id)) b

unfoldable pub cancel_questions_for_stream : StreamKey → Broker → Broker
cancel_questions_for_stream key b = cancel_named (b.by_stream key) b

abbrev pub is_due : Option ℕ → ℕ → Bool
is_due none now = false
is_due (some deadline) now = leb deadline now

abbrev pub recommended : QuestionSpec → Option QuestionOption
recommended spec = elim spec.recommended_option_id [
  | none ↦ none
  | some id ↦ find_option id spec.options
]

abbrev pub submit : String → PendingQuestion → Option QuestionOption → Broker → Broker
submit id q none b = b
submit id q (some option) b = settle id q (answered (option_answer option.id option.label true)) b

abbrev pub submit_open : String → ℕ → Option PendingQuestion → Broker → Broker
submit_open id now none b = b
submit_open id now (some q) b =
    if is_due q.auto_submit_at now then submit id q (recommended q.spec) b else b

-- `_auto_submit_if_due`
unfoldable pub auto_submit_if_due : String → ℕ → Broker → Broker
auto_submit_if_due id now b = submit_open id now (open_question (b.pending id)) b

pub data QuestionAction : Type 0 where
  answer_action cancel_action stop_timer_action : QuestionAction

abbrev pub is_given : Option String → Bool
is_given none = false
is_given (some s) = true

abbrev pub answer_option : String → PendingQuestion → Option QuestionOption → Broker → Bool × Broker
answer_option id q none b = (false, b)
answer_option id q (some option) b =
    (true, settle id q (answered (option_answer option.id option.label false)) b)

abbrev pub answer_text : String → PendingQuestion → String → Broker → Bool × Broker
answer_text id q text b =
    if not q.spec.allow_free_text || str_eq text "" || ltb 4000 (text_length text)
    then (false, b)
    else (true, settle id q (answered (free_text_answer text)) b)

abbrev pub answer :
    String → PendingQuestion → Option String → Option String → Broker → Bool × Broker
answer id q (some option_id) none b = answer_option id q (find_option option_id q.spec.options) b
answer id q none (some text) b = answer_text id q (strip text) b
answer id q option_id text b = (false, b)

abbrev pub stop_timer : String → PendingQuestion → Broker → Bool × Broker
stop_timer id q b = elim q.auto_submit_at [
  | none ↦ (false, b)
  | some deadline ↦ (true, set_pending id (some (record q { auto_submit_at = none })) b)
]

abbrev pub act :
    String
    → PendingQuestion
    → QuestionAction
    → Option String
    → Option String
    → Broker
    → Bool × Broker
act id q answer_action option_id text b = answer id q option_id text b
act id q cancel_action option_id text b =
    if is_given option_id || is_given text then (false, b) else (true, settle id q cancelled b)
act id q stop_timer_action option_id text b =
    if is_given option_id || is_given text then (false, b) else stop_timer id q b

abbrev pub act_open :
    String
    → String
    → Option PendingQuestion
    → Option QuestionAction
    → Option String
    → Option String
    → Broker
    → Bool × Broker
act_open id user_key (some q) (some action) option_id text b =
    if str_eq q.key.user_key user_key then act id q action option_id text b else (false, b)
act_open id user_key q action option_id text b = (false, b)

-- `resolve_question`; `none` is an action that is no `QuestionAction`.
unfoldable pub resolve_question :
    String → String → Option QuestionAction → Option String → Option String → Broker → Bool × Broker
resolve_question id user_key action option_id text b =
    act_open id user_key (open_question (b.pending id)) action option_id text b
