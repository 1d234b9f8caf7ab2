-- ===== src/Approvals/Calls.antt =====
-- cognitrix/agents/base.py: what `call_tools` makes of one call of a tool before any tool runs. The
-- call is answered with a failure, or waits for the user's approval, or is put among the jobs.
-- `fold` is what `get_tool_by_name` does to a name: `casefold`, and spaces for underscores.
use text.Mathlib.Text.{◌==◌ as str_eq}
use mathlib.Core.List.{Memᴰ}
use Prim.Native.String.{◌++◌ as append}
use cognitrix.Prelude.{
  ◌≡◌, ◌≢◌, refl, String, Bool, true, false, not, Option, none, some, List, [], ◌∷◌, if◌then◌else◌,
  Bool-cases, inl, inr,
}
use cognitrix.Approvals.{RiskLevel, low, destructive_categories, Category, analyze}
use cognitrix.Approvals.Gate.{
  Interface, task, ApprovalError, approval_required, Gate, WebTurn, Decision, decided, ask_cli,
  ask_web, check_approval, is_low,
}
use cognitrix.Approvals.Risk.{Detected, risky_call}

-- `Tool.approval_mode`
pub data ApprovalMode : Type 0 where
  risk_based assigned_only always : ApprovalMode

-- A tool of the agent; `supported` is none where the list `supported_interfaces` is empty.
pub record AssignedTool : Type 0 where
  pub name : String
  pub approval_mode : ApprovalMode
  pub supported : Option (Interface → Bool)

-- A call by the model. `params` is its arguments as `str` prints them, and `operation` the digest of
-- the call of a tool with the name given.
pub record ToolCall : Type 0 where
  pub name : Option String
  pub params : String
  pub operation : String → String

pub data CallFailure : Type 0 where
  malformed_tool_call tool_not_assigned unsupported_interface approval_required_failure
        approval_denied :
      CallFailure

pub data Verdict : Type 0 where
  failure : CallFailure → Verdict
  waits : Decision → Verdict
  job : AssignedTool → Verdict

abbrev pub is_unsupported : AssignedTool → Interface → Bool
is_unsupported tool interface = elim tool.supported [
  | none ↦ false
  | some supports ↦ not (supports interface)
]

-- Whether a call of an agent's tool goes through the gate.
unfoldable pub needs_approval : ApprovalMode → RiskLevel → Bool
needs_approval always level = true
needs_approval risk_based level = not (is_low level)
needs_approval assigned_only level = false

abbrev pub denial : Option ApprovalError → CallFailure
denial none = approval_denied
denial (some error) = elim error [
  | approval_required ↦ approval_required_failure
  | _ ↦ approval_denied
]

abbrev pub after_check : AssignedTool → Decision × Gate → Verdict × Gate
after_check tool (decided result, gate) =
    (if result.approved then job tool else failure (denial result.error), gate)
after_check tool (ask_cli, gate) = (waits ask_cli, gate)
after_check tool (ask_web id, gate) = (waits (ask_web id), gate)

module _ (fold : String → String) where
  unfoldable pub get_tool_by_name : List AssignedTool → String → Option AssignedTool
  get_tool_by_name [] name = none
  get_tool_by_name (tool ∷ rest) name =
      let later = get_tool_by_name rest name in
      if str_eq (fold tool.name) (fold name) then some tool else later

module _ (fold lower : String → String) (has_word contains : String → String → Bool)
    (auto_approve : Bool) (turn : Option WebTurn) (scope : String) (interface : Interface) where
  -- The safety check, for a tool that is assigned and supports the interface.
  unfoldable pub gate_call : AssignedTool → ToolCall → Gate → Verdict × Gate
  unfolding needs_approval
  gate_call tool call gate =
      let risk = analyze lower has_word contains tool.name call.params in
      if needs_approval tool.approval_mode risk.risk_level
      then after_check tool (
          check_approval auto_approve turn
            (record {
              risk = risk;
              interface = interface;
              scope = some scope;
              operation = call.operation tool.name;
            })
            gate)
      else (job tool, gate)

  abbrev pub call_found : Option AssignedTool → ToolCall → Gate → Verdict × Gate
  call_found none call gate = (failure tool_not_assigned, gate)
  call_found (some tool) call gate =
      if is_unsupported tool interface
      then (failure unsupported_interface, gate)
      else gate_call tool call gate

  -- One turn of the first loop of `call_tools`; an empty name is no name.
  unfoldable pub call_tool : List AssignedTool → ToolCall → Gate → Verdict × Gate
  call_tool tools call gate = elim call.name [
    | none ↦ (failure malformed_tool_call, gate)
    | some name ↦
        if str_eq name ""
        then (failure malformed_tool_call, gate)
        else call_found (get_tool_by_name fold tools name) call gate
  ]

module _ (fold lower : String → String) (has_word contains : String → String → Bool)
    (turn : Option WebTurn) (scope : String) where
  -- The answer to a call that nobody can be asked about.
  abbrev pub unattended : AssignedTool → CallFailure
  unattended tool =
      if is_unsupported tool task then unsupported_interface else approval_required_failure

  risky_is_denied :
      (tool : AssignedTool) (call : ToolCall) (gate : Gate)
      → tool.approval_mode ≢ assigned_only
      → is_low ((analyze lower has_word contains tool.name call.params).risk_level) ≡ false
      → gate_call fold lower has_word contains false turn scope task tool call gate
        ≡ (failure approval_required_failure, gate)
  unfolding gate_call check_approval
  risky_is_denied tool call gate gated risky = at tool.approval_mode gated
    where
      at :
          (mode : ApprovalMode)
          → mode ≢ assigned_only
          → gate_call fold lower has_word contains false turn scope task
              (record tool { approval_mode = mode })
              call
              gate
            ≡ (failure approval_required_failure, gate)
      at always n = rw risky refl
      at risk_based n = rw risky refl
      at assigned_only n = absurd (n refl)

  -- Without auto-approval, a call in a durable task of an assigned tool whose approval mode is not
  -- `assigned_only` (a tool of that mode never goes to the gate), and in whose name or arguments a
  -- category of medium or high risk is detected, is never put among the jobs: it is answered with
  -- `approval_required`, or with `unsupported_interface` where the tool does not support tasks,
  -- whatever the gate's caches hold, and the gate stays as it is.
  pub unattended_call_is_denied :
      (tools : List AssignedTool) (call : ToolCall) (name : String) (tool : AssignedTool)
      (c : Category) (gate : Gate)
      → call.name ≡ some name
      → str_eq name "" ≡ false
      → get_tool_by_name fold tools name ≡ some tool
      → tool.approval_mode ≢ assigned_only
      → Memᴰ c destructive_categories
      → Detected lower has_word contains c
          (lower tool.name)
          (append (lower tool.name) (append " " (lower call.params)))
      → c.risk_level ≢ low
      → call_tool fold lower has_word contains false turn scope task tools call gate
        ≡ (failure (unattended tool), gate)
  unfolding call_tool gate_call
  unattended_call_is_denied tools call name tool c gate named given found gated m d n =
      let denied =
        risky_is_denied tool call gate gated
          (risky_call lower has_word contains tool.name call.params c m d n) in
      elim (Bool-cases (is_unsupported tool task)) [
        | inl u ↦ rw (named, given, found, u) refl
        | inr u ↦ rw (named, given, found, u) denied
      ]
