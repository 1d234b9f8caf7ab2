-- ===== src/Approvals/Cached.antt =====
-- Gates whose caches and answers are granted (cognitrix/safety/approval_gate.py).
use text.Mathlib.Text.{◌==◌ as str_eq}
use text.Mathlib.TextEquality.{eq_iff}
use mathlib.Core.List.{Memᴰ}
use cognitrix.Prelude.{
  suc, ℕ, ◌==◌, ◌≡◌, sym, subst, inl, inr, String, Bool, true, Option, none, some, List, ◌∷◌,
  Bool-cases, arith,
}
use cognitrix.Approvals.Gate.{
  is_task, cli, web, ws, websocket, auto, task, unknown, Interface, ApprovalResult, WebEntry, Gate,
  WebTurn, Check, scoped_key, insert, set_entry, web_approval, prompt, check_approval,
  remember_result, is_low,
}
use cognitrix.Approvals.History.{Grant, Granted}

abbrev pub EntryIsGranted : List Grant → WebEntry → Type 0
EntryIsGranted log entry =
    (r : ApprovalResult) → entry.result ≡ some r → r.approved ≡ true → Granted log entry.scoped

abbrev pub CacheIsGranted : List Grant → (String → Bool) → Type 0
CacheIsGranted log cache = (key : String) → cache key ≡ true → Granted log key

abbrev pub IsGranted : List Grant → Gate → Type 0
IsGranted log gate =
    CacheIsGranted log gate.session_cache
    × CacheIsGranted log gate.permanent_cache
    × CacheIsGranted log gate.cache_file
    × ((id : ℕ) (entry : WebEntry) → gate.web_pending id ≡ some entry → EntryIsGranted log entry)

insert-IsGranted :
    (log : List Grant) (key : String) (cache : String → Bool)
    → Granted log key
    → CacheIsGranted log cache
    → CacheIsGranted log (insert key cache)
insert-IsGranted log key cache g h other e = elim (Bool-cases (str_eq other key)) [
  | inl t ↦ subst (Granted log) (sym ((eq_iff other key).0 t)) g
  | inr f ↦ h other (ground arith)
]

-- An answer that says yes comes with a grant, and then what it caches is granted.
pub remember-IsGranted :
    (log : List Grant) (key : String) (r : ApprovalResult) (saved : Bool) (gate : Gate)
    → (r.approved ≡ true → Granted log key)
    → IsGranted log gate
    → IsGranted log (remember_result key r saved gate)
unfolding remember_result
remember-IsGranted log key r saved gate g h = elim (Bool-cases r.approved) [
  | inr f ↦ rw f h
  | inl t ↦ elim (Bool-cases r.permanent) [
    | inl p ↦ elim (Bool-cases saved) [
      | inl s ↦
          rw (t, p, s)
            (let c = insert-IsGranted log key gate.permanent_cache (g t) h.1 in (h.0, c, c, h.3))
      | inr s ↦
          rw (t, p, s) (h.0, insert-IsGranted log key gate.permanent_cache (g t) h.1, h.2, h.3)
    ]
    | inr n ↦ elim (Bool-cases r.remember) [
      | inl m ↦ rw (t, n, m) (insert-IsGranted log key gate.session_cache (g t) h.0, h.1, h.2, h.3)
      | inr m ↦ rw (t, n, m) h
    ]
  ]
]

pub set_entry-IsGranted :
    (log : List Grant) (id : ℕ) (entry : Option WebEntry) (gate : Gate)
    → ((e : WebEntry) → entry ≡ some e → EntryIsGranted log e)
    → IsGranted log gate
    → IsGranted log (set_entry id entry gate)
set_entry-IsGranted log id entry gate g h = (
  h.0,
  h.1,
  h.2,
  λ other e p. elim (Bool-cases (other == id)) [
    | inl t ↦ g e (rw t at p)
    | inr f ↦ h.3 other e (rw f at p)
  ],
)

grant_more : (log : List Grant) (g : Grant) (key : String) → Granted log key → Granted (g ∷ log) key
grant_more log g key (x, m, s, o) = (x, Memᴰ.tail m, s, o)

pub IsGranted-cons :
    (log : List Grant) (g : Grant) (gate : Gate) → IsGranted log gate → IsGranted (g ∷ log) gate
IsGranted-cons log g gate h = (
  λ key e. grant_more log g key (h.0 key e),
  λ key e. grant_more log g key (h.1 key e),
  λ key e. grant_more log g key (h.2 key e),
  λ id entry p r e a. grant_more log g entry.scoped (h.3 id entry p r e a),
)

web_approval-IsGranted :
    (log : List Grant) (turn : Option WebTurn) (key : String) (gate : Gate)
    → IsGranted log gate
    → IsGranted log ((web_approval turn key gate).1)
unfolding web_approval
web_approval-IsGranted log none key gate h = h
web_approval-IsGranted log (some turn) key gate h = elim (Bool-cases turn.bypass) [
  | inl t ↦ rw t h
  | inr f ↦ elim (Bool-cases turn.has_emit) [
    | inr n ↦ rw (f, n) h
    | inl e ↦
        rw (f, e)
          (set_entry-IsGranted log (suc gate.web_request_counter)
            (some (record { user_key = turn.user_key; scoped = key; result = none }))
            (record gate { web_request_counter = suc gate.web_request_counter })
            (λ x p r q a. absurd (cc (p, q))) h)
  ]
]

prompt-IsGranted :
    (log : List Grant) (interface : Interface) (turn : Option WebTurn) (key : String) (gate : Gate)
    → IsGranted log gate
    → IsGranted log ((prompt interface turn key gate).1)
prompt-IsGranted log cli turn key gate h = h
prompt-IsGranted log web turn key gate h = web_approval-IsGranted log turn key gate h
prompt-IsGranted log ws turn key gate h = web_approval-IsGranted log turn key gate h
prompt-IsGranted log websocket turn key gate h = web_approval-IsGranted log turn key gate h
prompt-IsGranted log auto turn key gate h = h
prompt-IsGranted log task turn key gate h = h
prompt-IsGranted log unknown turn key gate h = h

pub check-IsGranted :
    (log : List Grant) (a : Bool) (turn : Option WebTurn) (c : Check) (gate : Gate)
    → IsGranted log gate
    → IsGranted log ((check_approval a turn c gate).1)
unfolding check_approval
check-IsGranted log a turn c gate h = elim (Bool-cases a) [
  | inl t ↦ rw t h
  | inr f ↦ elim (Bool-cases (is_low c.risk.risk_level)) [
    | inl t ↦ rw (f, t) h
    | inr g ↦ elim (Bool-cases (is_task c.interface)) [
      | inl t ↦ rw (f, g, t) h
      | inr i ↦ elim (Bool-cases (gate.permanent_cache (scoped_key c))) [
        | inl t ↦ rw (f, g, i, t) h
        | inr j ↦ elim (Bool-cases (gate.session_cache (scoped_key c))) [
          | inl t ↦ rw (f, g, i, j, t) h
          | inr k ↦ rw (f, g, i, j, k) (prompt-IsGranted log c.interface turn (scoped_key c) gate h)
        ]
      ]
    ]
  ]
]
