-- ===== src/Approvals/Gate.antt =====
-- cognitrix/safety/approval_gate.py: the gate in front of a risky call of a tool, with the check of
-- cognitrix/agents/base.py that sends a call to it. A check is one step up to the user's prompt, and
-- one from the answer to its end. The caches are predicates on scoped keys; `_WEB_PENDING`, which is
-- the module's, is a field beside those of the gate, and an entry names the key that its check waits
-- to cache. SHA-256 and `str.lower` are parameters.
use text.Mathlib.Text.{◌==◌ as str_eq}
use Prim.Native.String.{◌++◌ as append}
use cognitrix.Prelude.{
  ◌==◌, ℕ, suc, String, Bool, true, false, not, ◌||◌, Option, none, some, [], ◌∷◌, if◌then◌else◌,
  strip,
}
use cognitrix.Approvals.{RiskLevel, RiskAssessment, any_text}

pub data Interface : Type 0 where
  cli web ws websocket auto task unknown : Interface

pub data ApprovalError : Type 0 where
  approval_required explicit_approval_required unknown_interface timed_out interrupted no_channel
        failed :
      ApprovalError

pub record ApprovalResult : Type 0 where
  pub approved : Bool
  pub remember : Bool
  pub permanent : Bool
  pub cached : Bool
  pub auto_approved : Bool
  pub error : Option ApprovalError

-- `ApprovalResult(approved=False)`
abbrev pub denied : ApprovalResult
denied = record {
  approved = false;
  remember = false;
  permanent = false;
  cached = false;
  auto_approved = false;
  error = none;
}

abbrev pub denied_for : ApprovalError → ApprovalResult
denied_for e = record denied { error = some e }

abbrev pub approved_automatically : ApprovalResult
approved_automatically = record denied { approved = true; auto_approved = true }

-- An entry of `_WEB_PENDING`: who owns the turn, and the result of its future once it is set.
pub record WebEntry : Type 0 where
  pub user_key : Option String
  pub scoped : String
  pub result : Option ApprovalResult

pub record Gate : Type 0 where
  pub session_cache : String → Bool
  pub permanent_cache : String → Bool
  pub cache_file : String → Bool
  pub web_pending : ℕ → Option WebEntry
  pub web_request_counter : ℕ

-- `web_turn_ctx`, with whether it has an emit callback.
pub record WebTurn : Type 0 where
  pub bypass : Bool
  pub has_emit : Bool
  pub user_key : Option String

-- A call of `check_approval`: `operation` is the digest of the call.
pub record Check : Type 0 where
  pub risk : RiskAssessment
  pub interface : Interface
  pub scope : Option String
  pub operation : String

-- `f"{scope or 'global'}:{hash}"`
abbrev pub scope_name : Option String → String
scope_name none = "global"
scope_name (some scope) = if str_eq scope "" then "global" else scope

abbrev pub scoped_key : Check → String
scoped_key check = append (scope_name check.scope) (append ":" check.operation)

-- What a check comes to before it waits: its result, or a prompt at the terminal or in the browser.
pub data Decision : Type 0 where
  decided : ApprovalResult → Decision
  ask_cli : Decision
  ask_web : ℕ → Decision

abbrev pub is_low : RiskLevel → Bool
is_low level = elim level [ RiskLevel.low ↦ true | _ ↦ false ]

abbrev pub insert : String → (String → Bool) → String → Bool
insert key cache other = str_eq other key || cache other

abbrev pub set_entry : ℕ → Option WebEntry → Gate → Gate
set_entry id entry gate = record gate {
  web_pending = λ other. if other == id then entry else gate.web_pending other;
}

-- `_web_approval` up to its wait.
unfoldable pub web_approval : Option WebTurn → String → Gate → Decision × Gate
web_approval none scoped gate = (decided (denied_for no_channel), gate)
web_approval (some turn) scoped gate =
    if turn.bypass
    then (decided approved_automatically, gate)
    else if not turn.has_emit
    then (decided (denied_for no_channel), gate)
    else (
      ask_web (suc gate.web_request_counter),
      set_entry (suc gate.web_request_counter)
          (some (record { user_key = turn.user_key; scoped = scoped; result = none }))
          (record gate { web_request_counter = suc gate.web_request_counter }),
    )

-- The interfaces, once neither a rule nor a cache has decided.
abbrev pub prompt : Interface → Option WebTurn → String → Gate → Decision × Gate
prompt cli turn scoped gate = (ask_cli, gate)
prompt web turn scoped gate = web_approval turn scoped gate
prompt ws turn scoped gate = web_approval turn scoped gate
prompt websocket turn scoped gate = web_approval turn scoped gate
prompt auto turn scoped gate = (decided (denied_for explicit_approval_required), gate)
prompt task turn scoped gate = (decided (denied_for approval_required), gate)
prompt unknown turn scoped gate = (decided (denied_for unknown_interface), gate)

abbrev pub is_task : Interface → Bool
is_task interface = elim interface [ task ↦ true | _ ↦ false ]

-- `check_approval` up to its wait; `auto_approve` is `_auto_approve_enabled()`.
unfoldable pub check_approval : Bool → Option WebTurn → Check → Gate → Decision × Gate
unfolding web_approval
check_approval auto_approve turn check gate =
    if auto_approve
    then (decided approved_automatically, gate)
    else if is_low check.risk.risk_level
    then (decided approved_automatically, gate)
    else if is_task check.interface
    then (decided (denied_for approval_required), gate)
    else if gate.permanent_cache (scoped_key check)
    then (decided (record denied { approved = true; cached = true }), gate)
    else if gate.session_cache (scoped_key check)
    then (decided (record denied { approved = true; cached = true; remember = true }), gate)
    else prompt check.interface turn (scoped_key check) gate

-- `check_approval` from the user's answer to its end; `saved` is whether the file could be written.
unfoldable pub remember_result : String → ApprovalResult → Bool → Gate → Gate
remember_result scoped result saved gate =
    if not result.approved
    then gate
    else if result.permanent
    then record gate {
      permanent_cache = insert scoped gate.permanent_cache;
      cache_file = if saved then insert scoped gate.permanent_cache else gate.cache_file;
    }
    else if result.remember
    then record gate { session_cache = insert scoped gate.session_cache }
    else gate

-- How the wait at the terminal ends.
pub data CliEnd : Type 0 where
  typed : String → CliEnd
  cli_timeout : CliEnd
  cli_interrupt : CliEnd

-- `_cli_approval`
unfoldable pub cli_response : String → ApprovalResult
cli_response response =
    if any_text (str_eq response) ("y" ∷ "yes" ∷ [])
    then record denied { approved = true }
    else if any_text (str_eq response) ("s" ∷ "session" ∷ [])
    then record denied { approved = true; remember = true }
    else if any_text (str_eq response) ("p" ∷ "permanent" ∷ [])
    then record denied { approved = true; permanent = true }
    else denied

unfoldable pub cli_approval : (String → String) → CliEnd → ApprovalResult
unfolding cli_response
cli_approval lower (typed raw) = cli_response (strip (lower raw))
cli_approval lower cli_timeout = denied_for timed_out
cli_approval lower cli_interrupt = denied_for interrupted

-- How the wait in the browser ends: with the future's result, or with a timeout or an error.
pub data WebEnd : Type 0 where
  answered web_timeout web_error : WebEnd

-- There is no end `answered` while the future is not set.
abbrev pub web_result : Option WebEntry → WebEnd → Option ApprovalResult
web_result entry web_timeout = some (denied_for timed_out)
web_result entry web_error = some (denied_for failed)
web_result none answered = none
web_result (some entry) answered = entry.result

-- `_web_approval` from the end of its wait, where it takes its entry away.
unfoldable pub web_end : ℕ → WebEnd → Gate → Option ApprovalResult × Gate
web_end id how gate = elim (web_result (gate.web_pending id) how) [
  | none ↦ (none, gate)
  | some result ↦ (some result, set_entry id none gate)
]

-- `user_key is not None and owner is not None and owner != user_key`
abbrev pub is_other : Option String → Option String → Bool
is_other (some owner) (some user) = not (str_eq owner user)
is_other owner user = false

abbrev pub resolve_entry : ℕ → Option WebEntry → Bool → Option String → Bool → Gate → Bool × Gate
resolve_entry id none approved user_key remember gate = (false, gate)
resolve_entry id (some entry) approved user_key remember gate =
    if is_other entry.user_key user_key then (false, gate) else elim entry.result [
      | some result ↦ (true, gate)
      | none ↦ (
        true,
        set_entry id
            (some (record entry {
              result = some (record denied { approved = approved; remember = remember });
            }))
            gate,
      )
    ]

-- `resolve_web_approval`
unfoldable pub resolve_web_approval : ℕ → Bool → Option String → Bool → Gate → Bool × Gate
resolve_web_approval id approved user_key remember gate =
    resolve_entry id (gate.web_pending id) approved user_key remember gate

unfoldable pub clear_session_cache : Gate → Gate
clear_session_cache gate = record gate { session_cache = λ key. false }

unfoldable pub clear_permanent_cache : Bool → Gate → Gate
clear_permanent_cache saved gate = record gate {
  permanent_cache = λ key. false;
  cache_file = if saved then (λ key. false) else gate.cache_file;
}

-- The constructor, after a restart of the process; `loaded` is whether the file could be read.
unfoldable pub new_gate : Bool → Gate → Gate
new_gate loaded gate = record {
  session_cache = λ key. false;
  permanent_cache = if loaded then gate.cache_file else λ key. false;
  cache_file = gate.cache_file;
  web_pending = λ id. none;
  web_request_counter = 0;
}
