-- ===== src/Approvals/Answers.antt =====
-- The answers to a gate keep it granted (cognitrix/safety/approval_gate.py).
use text.Mathlib.Text.{◌==◌ as str_eq}
use text.Mathlib.TextEquality.{eq_iff}
use mathlib.Core.List.{Memᴰ}
use cognitrix.Approvals.{any_text}
use cognitrix.Prelude.{
  ℕ, ◌≡◌, refl, sym, ap, ◌∙◌, inl, inr, String, Bool, true, false, Option, none, some, List, ◌∷◌,
  Bool-cases, Option-cases, if◌then◌else◌, arith, [], strip,
}
use cognitrix.Approvals.Gate.{
  ApprovalResult, denied, answered, web_timeout, web_error, WebEntry, Gate, Check, scoped_key,
  set_entry, remember_result, CliEnd, typed, cli_timeout, cli_interrupt, cli_response, cli_approval,
  WebEnd, web_result, web_end, is_other, resolve_entry,
}
use cognitrix.Approvals.History.{Grant, Granted, SaidYes, yes_words, note_web}
use cognitrix.Approvals.Cached.{
  EntryIsGranted, CacheIsGranted, IsGranted, remember-IsGranted, set_entry-IsGranted,
  IsGranted-cons,
}

noted-IsGranted :
    (log : List Grant) (entry : WebEntry) (approved : Bool) (user : Option String) (gate : Gate)
    → IsGranted log gate
    → IsGranted (note_web (some entry) approved user log) gate
noted-IsGranted log entry true user gate h = IsGranted-cons log _ gate h
noted-IsGranted log entry false user gate h = h

-- The result of a yes is granted, since the answer was not another user's.
settled-IsGranted :
    (log : List Grant) (id : ℕ) (entry : WebEntry) (approved : Bool) (user : Option String)
    (remember : Bool) (gate : Gate)
    → is_other entry.user_key user ≡ false
    → IsGranted log gate
    → IsGranted (note_web (some entry) approved user log) (
        set_entry id
          (some (record entry {
            result = some (record denied { approved = approved; remember = remember });
          }))
          gate)
settled-IsGranted log id entry true user remember gate own h =
    set_entry-IsGranted _ id _ gate
      (λ e p r q a. (
        record { scoped = entry.scoped; owner = entry.user_key; user = user },
        Memᴰ.head refl,
        cc p,
        own,
      ))
      (IsGranted-cons log _ gate h)
settled-IsGranted log id entry false user remember gate own h =
    set_entry-IsGranted log id _ gate (λ e p r q a. absurd (cc (p, q, a))) h

pub cleared :
    (saved : Bool) (log : List Grant) (file : String → Bool)
    → CacheIsGranted log file
    → CacheIsGranted log (if saved then (λ key. false) else file)
cleared true log file h key e = absurd (cc e)
cleared false log file h key e = h key e

pub loaded_file :
    (loaded : Bool) (log : List Grant) (file : String → Bool)
    → CacheIsGranted log file
    → CacheIsGranted log (if loaded then file else (λ key. false))
loaded_file true log file h key e = h key e
loaded_file false log file h key e = absurd (cc e)

any_text-Memᴰ : (s : String) (words : List String) → any_text (str_eq s) words ≡ true → Memᴰ s words
any_text-Memᴰ s [] e = absurd (cc e)
any_text-Memᴰ s (word ∷ rest) e = elim (Bool-cases (str_eq s word)) [
  | inl t ↦ Memᴰ.head ((eq_iff s word).0 t)
  | inr f ↦ Memᴰ.tail (any_text-Memᴰ s rest (rw f at e))
]

-- Only one of the words of a yes is taken for a yes.
response_yes :
    (response : String) → (cli_response response).approved ≡ true → Memᴰ response yes_words
unfolding cli_response
response_yes response t = elim (Bool-cases (any_text (str_eq response) yes_words)) [
  | inl y ↦ any_text-Memᴰ response yes_words y
  | inr n ↦ absurd (ground arith)
]

cli_approval-SaidYes :
    (lower : String → String) (end : CliEnd)
    → (cli_approval lower end).approved ≡ true
    → SaidYes lower end
unfolding cli_approval
cli_approval-SaidYes lower (typed raw) t = response_yes (strip (lower raw)) t
cli_approval-SaidYes lower cli_timeout t = absurd (cc t)
cli_approval-SaidYes lower cli_interrupt t = absurd (cc t)

pub cli_yes-IsGranted :
    (lower : String → String) (log : List Grant) (c : Check) (end : CliEnd) (saved : Bool)
    (gate : Gate)
    → IsGranted log gate
    → IsGranted
        (record { scoped = scoped_key c; owner = none; user = none } ∷ log)
        (remember_result (scoped_key c) (cli_approval lower end) saved gate)
cli_yes-IsGranted lower log c end saved gate h =
    remember-IsGranted (record { scoped = scoped_key c; owner = none; user = none } ∷ log)
      (scoped_key c) (cli_approval lower end) saved gate
      (λ e.
        (record { scoped = scoped_key c; owner = none; user = none }, Memᴰ.head refl, refl, refl))
      (IsGranted-cons log _ gate h)

pub cli_other-IsGranted :
    (lower : String → String) (log : List Grant) (c : Check) (end : CliEnd) (saved : Bool)
    (gate : Gate)
    → ¬ SaidYes lower end
    → IsGranted log gate
    → IsGranted log (remember_result (scoped_key c) (cli_approval lower end) saved gate)
cli_other-IsGranted lower log c end saved gate n h =
    remember-IsGranted log (scoped_key c) (cli_approval lower end) saved gate
      (λ e. absurd (n (cli_approval-SaidYes lower end e))) h

-- What the wait in the browser ends with, if it says yes, is the result of the entry.
pub web_result-IsGranted :
    (log : List Grant) (entry : WebEntry) (how : WebEnd) (result : ApprovalResult)
    → EntryIsGranted log entry
    → web_result (some entry) how ≡ some result
    → result.approved ≡ true
    → Granted log entry.scoped
web_result-IsGranted log entry answered result h e a = h result e a
web_result-IsGranted log entry web_timeout result h e a = absurd (cc (e, a))
web_result-IsGranted log entry web_error result h e a = absurd (cc (e, a))

pub web_end-some :
    (gate : Gate) (id : ℕ) (how : WebEnd) (result : ApprovalResult)
    → (web_end id how gate).0 ≡ some result
    → (web_result (gate.web_pending id) how ≡ some result)
      × ((web_end id how gate).1 ≡ set_entry id none gate)
unfolding web_end
web_end-some gate id how result e = elim (Option-cases (web_result (gate.web_pending id) how)) [
  | inl n ↦ absurd (cc (rw (web_end, n) at e))
  | inr (r, q) ↦
      let same : r ≡ result = cc (rw (web_end, q) at e) in (q ∙ ap some same, rw (web_end, q) refl)
]

pub web_end-IsGranted :
    (log : List Grant) (gate : Gate) (id : ℕ) (entry : WebEntry) (result : ApprovalResult)
    (how : WebEnd) (saved : Bool)
    → gate.web_pending id ≡ some entry
    → (web_end id how gate).0 ≡ some result
    → IsGranted log gate
    → IsGranted log (remember_result entry.scoped result saved ((web_end id how gate).1))
unfolding web_end
web_end-IsGranted log gate id entry result how saved p e h =
    let (q, left) = web_end-some gate id how result e in
    rw left (
      remember-IsGranted log entry.scoped result saved (set_entry id none gate)
        (web_result-IsGranted log entry how result (h.3 id entry p)
          (sym (ap (λ x. web_result x how) p) ∙ q))
        (set_entry-IsGranted log id none gate (λ x f. absurd (cc f)) h))

pub resolve-IsGranted :
    (log : List Grant) (id : ℕ) (entry : Option WebEntry) (approved : Bool) (user : Option String)
    (remember : Bool) (gate : Gate)
    → gate.web_pending id ≡ entry
    → IsGranted log gate
    → IsGranted
        (note_web entry approved user log)
        ((resolve_entry id entry approved user remember gate).1)
resolve-IsGranted log id none approved user remember gate p h = h
resolve-IsGranted log id (some entry) approved user remember gate p h =
    elim (Bool-cases (is_other entry.user_key user)) [
      | inl t ↦ rw t (noted-IsGranted log entry approved user gate h)
      | inr f ↦ elim (Option-cases entry.result) [
        | inr (r, e) ↦ rw (f, e) (noted-IsGranted log entry approved user gate h)
        | inl n ↦ rw (f, n) (settled-IsGranted log id entry approved user remember gate f h)
      ]
    ]
