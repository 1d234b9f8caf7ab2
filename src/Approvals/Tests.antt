-- ===== src/Approvals/Tests.antt =====
-- Concrete runs of the gate. Word search is equality here, and no text contains another.
use text.Mathlib.Text.{◌==◌ as str_eq}
use mathlib.Core.List.{Memᴰ}
use cognitrix.Prelude.{◌⊎◌, ◌≡◌, refl, String, Bool, true, false, none, some, List, [], ◌∷◌}
use cognitrix.Approvals.{low, medium, high, code_execution, analyze}
use cognitrix.Approvals.Gate.{
  Gate, Check, WebTurn, WebEntry, web, task, answered, denied, decided, check_approval, scoped_key,
  remember_result, web_end, resolve_web_approval, web_approval,
}
use cognitrix.Approvals.History.{Grant, Granted, Reach, fresh, check, resolve, finish_web}
use cognitrix.Approvals.Granted.{approval_is_given}
use cognitrix.Approvals.Calls.{
  AssignedTool, ToolCall, risk_based, assigned_only, failure, approval_required_failure, job,
  get_tool_by_name, call_tool, gate_call, needs_approval, unattended_call_is_denied,
}

abbrev same : String → String
same s = s

abbrev nowhere : String → String → Bool
nowhere s t = false

abbrev empty : Gate
empty = record {
  session_cache = λ key. false;
  permanent_cache = λ key. false;
  cache_file = λ key. false;
  web_pending = λ id. none;
  web_request_counter = 0;
}

bash_is_risky : (analyze same str_eq nowhere "bash" "ls").risk_level ≡ high
unfolding analyze
bash_is_risky = refl

abbrev bash_tool : AssignedTool
bash_tool = record { name = "bash"; approval_mode = risk_based; supported = none }

abbrev bash_call : ToolCall
bash_call = record { name = some "bash"; params = "ls"; operation = λ name. "d" }

bash_found : get_tool_by_name same (bash_tool ∷ []) "bash" ≡ some bash_tool
unfolding get_tool_by_name
bash_found = refl

-- A tool of the mode `assigned_only` runs unasked.
trusted_bash_runs :
    (call_tool same same str_eq nowhere false none "a1" task
      (record bash_tool { approval_mode = assigned_only } ∷ [])
      bash_call
      empty).0
    ≡ job (record bash_tool { approval_mode = assigned_only })
unfolding call_tool gate_call get_tool_by_name needs_approval analyze
trusted_bash_runs = refl

unattended_call_is_denied_example :
    call_tool same same str_eq nowhere false none "a1" task (bash_tool ∷ []) bash_call empty
    ≡ (failure approval_required_failure, empty)
unattended_call_is_denied_example =
    unattended_call_is_denied same same str_eq nowhere none "a1" (bash_tool ∷ []) bash_call "bash"
      bash_tool code_execution empty refl refl bash_found (λ e. absurd (cc e))
      (Memᴰ.tail (Memᴰ.tail (Memᴰ.head refl))) refl (λ e. absurd (cc e))

abbrev edit : Check
edit = record {
  risk = record { risk_level = medium; categories = "file_modification" ∷ []; details = [] };
  interface = web;
  scope = some "a1";
  operation = "d";
}

abbrev turn : WebTurn
turn = record { bypass = false; has_emit = true; user_key = some "ana" }

-- Ana is asked in the browser, answers for the session, and the next check finds the cache.
abbrev asked : Gate
asked = (check_approval false (some turn) edit empty).1

abbrev yes : Gate
yes = (resolve_web_approval 1 true (some "ana") true asked).1

abbrev entry : WebEntry
entry = record {
  user_key = some "ana";
  scoped = scoped_key edit;
  result = some (record denied { approved = true; remember = true });
}

abbrev remembered : Gate
remembered =
    remember_result (scoped_key edit) (record denied { approved = true; remember = true }) true
      ((web_end 1 answered yes).1)

bob_is_refused : (resolve_web_approval 1 true (some "bob") true asked).0 ≡ false
unfolding check_approval web_approval resolve_web_approval
bob_is_refused = refl

entry-answered : yes.web_pending 1 ≡ some entry
unfolding check_approval web_approval resolve_web_approval
entry-answered = refl

result-answered :
    (web_end 1 answered yes).0 ≡ some (record denied { approved = true; remember = true })
unfolding check_approval web_approval resolve_web_approval web_end
result-answered = refl

abbrev granted : List Grant
granted = record { scoped = scoped_key edit; owner = some "ana"; user = some "ana" } ∷ []

remembered-Reach : Reach same granted remembered
unfolding check_approval web_approval
remembered-Reach =
    finish_web 1 entry (record denied { approved = true; remember = true }) answered true
      entry-answered result-answered
      (resolve 1 true (some "ana") true (check false (some turn) edit fresh))

check-cached :
    (check_approval false (some turn) edit remembered).0
    ≡ decided (record denied { approved = true; cached = true; remember = true })
unfolding check_approval web_approval resolve_web_approval web_end remember_result
check-cached = refl

approval_is_given_example :
    (false ≡ true) ⊎ (medium ≡ low) ⊎ (false ≡ true) ⊎ Granted granted (scoped_key edit)
approval_is_given_example =
    approval_is_given same granted remembered remembered-Reach false (some turn) edit
      (record denied { approved = true; cached = true; remember = true }) check-cached refl
