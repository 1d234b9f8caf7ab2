-- ===== src/Approvals/Granted.antt =====
-- Approvals, and the grants behind them (cognitrix/safety/approval_gate.py).
use cognitrix.Prelude.{
  Option, none, false, ℕ, ◌⊎◌, ◌≡◌, refl, sym, ap, ◌∙◌, inl, inr, String, Bool, true, some, List,
  Bool-cases,
}
use cognitrix.Approvals.{RiskLevel, low, medium, high}
use cognitrix.Approvals.Gate.{
  is_task, cli, web, ws, websocket, auto, task, unknown, Interface, ApprovalResult, WebEntry, Gate,
  WebTurn, Check, scoped_key, decided, web_approval, prompt, check_approval, WebEnd, web_result,
  web_end, resolve_web_approval, clear_session_cache, clear_permanent_cache, new_gate, is_low,
}
use cognitrix.Approvals.History.{
  Grant, Granted, Reach, fresh, check, cli_yes, cli_other, resolve, finish_web, clear_session,
  clear_permanent, restart,
}
use cognitrix.Approvals.Answers.{
  cleared, loaded_file, cli_yes-IsGranted, cli_other-IsGranted, web_result-IsGranted, web_end-some,
  web_end-IsGranted, resolve-IsGranted,
}
use cognitrix.Approvals.Cached.{IsGranted, check-IsGranted}

-- A gate that is reached has cached and promised nothing that was not granted.
Reach-IsGranted :
    (lower : String → String) (log : List Grant) (gate : Gate)
    → Reach lower log gate
    → IsGranted log gate
unfolding resolve_web_approval clear_session_cache clear_permanent_cache new_gate
Reach-IsGranted lower log gate fresh = (
  λ key e. absurd (cc e),
  λ key e. absurd (cc e),
  λ key e. absurd (cc e),
  λ id entry p. absurd (cc p),
)
Reach-IsGranted lower log gate (check {log = before} {gate = g} a turn c reach) =
    check-IsGranted before a turn c g (Reach-IsGranted lower before g reach)
Reach-IsGranted lower log gate (cli_yes {log = before} {gate = g} c end saved said reach) =
    cli_yes-IsGranted lower before c end saved g (Reach-IsGranted lower before g reach)
Reach-IsGranted lower log gate (cli_other {log = before} {gate = g} c end saved other reach) =
    cli_other-IsGranted lower before c end saved g other (Reach-IsGranted lower before g reach)
Reach-IsGranted lower log gate (resolve {log = before} {gate = g} id approved user remember reach) =
    resolve-IsGranted before id (g.web_pending id) approved user remember g refl
      (Reach-IsGranted lower before g reach)
Reach-IsGranted lower log gate
      (finish_web {log = before} {gate = g} id entry result how saved p e reach) =
    web_end-IsGranted before g id entry result how saved p e (Reach-IsGranted lower before g reach)
Reach-IsGranted lower log gate (clear_session {log = before} {gate = g} reach) =
    let h = Reach-IsGranted lower before g reach in (λ key e. absurd (cc e), h.1, h.2, h.3)
Reach-IsGranted lower log gate (clear_permanent {log = before} {gate = g} saved reach) =
    let h = Reach-IsGranted lower before g reach in
    (h.0, λ key e. absurd (cc e), cleared saved before g.cache_file h.2, h.3)
Reach-IsGranted lower log gate (restart {log = before} {gate = g} loaded reach) =
    let h = Reach-IsGranted lower before g reach in
    (
      λ key e. absurd (cc e),
      loaded_file loaded before g.cache_file h.2,
      h.2,
      λ id entry p. absurd (cc p),
    )

is_low-true : (level : RiskLevel) → is_low level ≡ true → level ≡ low
is_low-true low e = refl
is_low-true medium e = absurd (cc e)
is_low-true high e = absurd (cc e)

abbrev pub bypasses : Option WebTurn → Bool
bypasses none = false
bypasses (some turn) = turn.bypass

-- A prompt decides by itself only where the turn bypasses approvals, or against the call.
web_approval-decided :
    (turn : Option WebTurn) (key : String) (gate : Gate) (result : ApprovalResult)
    → (web_approval turn key gate).0 ≡ decided result
    → result.approved ≡ true
    → bypasses turn ≡ true
unfolding web_approval
web_approval-decided none key gate result e t = absurd (cc (e, t))
web_approval-decided (some turn) key gate result e t = elim (Bool-cases turn.bypass) [
  | inl b ↦ b
  | inr f ↦ elim (Bool-cases turn.has_emit) [
    | inr n ↦ absurd (cc (rw (web_approval, f, n) at e, t))
    | inl m ↦ absurd (cc (rw (web_approval, f, m) at e))
  ]
]

prompt-decided :
    (interface : Interface) (turn : Option WebTurn) (key : String) (gate : Gate)
    (result : ApprovalResult)
    → (prompt interface turn key gate).0 ≡ decided result
    → result.approved ≡ true
    → bypasses turn ≡ true
prompt-decided cli turn key gate result e t = absurd (cc e)
prompt-decided web turn key gate result e t = web_approval-decided turn key gate result e t
prompt-decided ws turn key gate result e t = web_approval-decided turn key gate result e t
prompt-decided websocket turn key gate result e t = web_approval-decided turn key gate result e t
prompt-decided auto turn key gate result e t = absurd (cc (e, t))
prompt-decided task turn key gate result e t = absurd (cc (e, t))
prompt-decided unknown turn key gate result e t = absurd (cc (e, t))

module _ (lower : String → String) (log : List Grant) (gate : Gate)
    (reach : Reach lower log gate) where
  -- Where a check of any gate that has come about from an empty one and an empty cache file approves
  -- at once, auto-approval is on, or the risk is low, or the turn bypasses approvals, or the same
  -- scoped key has been granted before: by one of the words of a yes at the terminal, where a
  -- timeout, an interrupt and any other word grant nothing, or by an approval in the browser, not of
  -- another user than the owner of the turn.
  pub approval_is_given :
      (auto_approve : Bool) (turn : Option WebTurn) (c : Check) (result : ApprovalResult)
      → (check_approval auto_approve turn c gate).0 ≡ decided result
      → result.approved ≡ true
      → (auto_approve ≡ true)
        ⊎ (c.risk.risk_level ≡ low)
        ⊎ (bypasses turn ≡ true)
        ⊎ Granted log (scoped_key c)
  unfolding check_approval
  approval_is_given a turn c result e t =
      let h = Reach-IsGranted lower log gate reach in
      elim (Bool-cases a) [
        | inl y ↦ inl y
        | inr f ↦ elim (Bool-cases (is_low c.risk.risk_level)) [
          | inl y ↦ inr (inl (is_low-true c.risk.risk_level y))
          | inr g ↦ elim (Bool-cases (is_task c.interface)) [
            | inl y ↦ absurd (cc (rw (check_approval, f, g, y) at e, t))
            | inr i ↦ elim (Bool-cases (gate.permanent_cache (scoped_key c))) [
              | inl y ↦ inr (inr (inr (h.1 (scoped_key c) y)))
              | inr j ↦ elim (Bool-cases (gate.session_cache (scoped_key c))) [
                | inl y ↦ inr (inr (inr (h.0 (scoped_key c) y)))
                | inr k ↦ inr (
                    inr (
                      inl (
                        prompt-decided c.interface turn (scoped_key c) gate result
                          (rw (check_approval, f, g, i, j, k) at e) t)))
              ]
            ]
          ]
        ]
      ]

  -- Where the wait in the browser ends with a yes, the operation that the check waits for has been
  -- granted, and not by another user than the owner of the turn.
  pub web_approval_is_given :
      (id : ℕ) (entry : WebEntry) (how : WebEnd) (result : ApprovalResult)
      → gate.web_pending id ≡ some entry
      → (web_end id how gate).0 ≡ some result
      → result.approved ≡ true
      → Granted log entry.scoped
  web_approval_is_given id entry how result p e t =
      let (q, left) = web_end-some gate id how result e in
      let h = Reach-IsGranted lower log gate reach in
      web_result-IsGranted log entry how result (h.3 id entry p)
        (sym (ap (λ x. web_result x how) p) ∙ q) t
