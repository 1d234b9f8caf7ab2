-- ===== src/Approvals/History.antt =====
-- Everything that happens to a gate, and what users have granted (cognitrix/safety/approval_gate.py).
use mathlib.Core.List.{Memᴰ}
use cognitrix.Prelude.{ℕ, ◌≡◌, String, Bool, true, false, Option, none, some, List, [], ◌∷◌, strip}
use cognitrix.Approvals.Gate.{
  ApprovalResult, WebEntry, Gate, WebTurn, Check, scoped_key, check_approval, remember_result,
  typed, CliEnd, cli_approval, WebEnd, web_end, is_other, resolve_web_approval, clear_session_cache,
  clear_permanent_cache, new_gate,
}

-- That somebody said yes to an operation: at the terminal, or in the browser, where the turn may have
-- an owner and the answer a user.
pub record Grant : Type 0 where
  pub scoped : String
  pub owner : Option String
  pub user : Option String

-- A yes that counts: not of another user than the owner of the turn.
abbrev pub Granted : List Grant → String → Type 0
Granted log key = (g : Grant) × Memᴰ g log × (g.scoped ≡ key) × (is_other g.owner g.user ≡ false)

-- The answers by which a user at the terminal says yes.
abbrev pub yes_words : List String
yes_words = "y" ∷ "yes" ∷ "s" ∷ "session" ∷ "p" ∷ "permanent" ∷ []

-- A user at the terminal has said yes by typing one of these words, and by nothing else: not where
-- the wait timed out or was interrupted.
abbrev pub SaidYes : (String → String) → CliEnd → Type 0
SaidYes lower (typed raw) = Memᴰ (strip (lower raw)) yes_words
SaidYes lower end = ⊥

-- What is noted of an answer in the browser, whether or not it is taken.

abbrev pub note_web : Option WebEntry → Bool → Option String → List Grant → List Grant
note_web none approved user log = log
note_web (some entry) false user log = log
note_web (some entry) true user log =
    record { scoped = entry.scoped; owner = entry.user_key; user = user } ∷ log

-- The gates that can come about from an empty one, with what has been granted up to then.
pub data Reach (lower : String → String) : List Grant → Gate → Type 0 where
  fresh : Reach lower [] (record {
    session_cache = λ key. false;
    permanent_cache = λ key. false;
    cache_file = λ key. false;
    web_pending = λ id. none;
    web_request_counter = 0;
  })
  check :
      {log : List Grant} {gate : Gate} (auto_approve : Bool) (turn : Option WebTurn) (c : Check)
      → Reach lower log gate
      → Reach lower log ((check_approval auto_approve turn c gate).1)
  -- An answer at the terminal: a yes is noted, and anything else is not.
  cli_yes :
      {log : List Grant} {gate : Gate} (c : Check) (end : CliEnd) (saved : Bool)
      → SaidYes lower end
      → Reach lower log gate
      → Reach lower
          (record { scoped = scoped_key c; owner = none; user = none } ∷ log)
          (remember_result (scoped_key c) (cli_approval lower end) saved gate)
  cli_other :
      {log : List Grant} {gate : Gate} (c : Check) (end : CliEnd) (saved : Bool)
      → ¬ SaidYes lower end
      → Reach lower log gate
      → Reach lower log (remember_result (scoped_key c) (cli_approval lower end) saved gate)
  resolve :
      {log : List Grant} {gate : Gate} (id : ℕ) (approved : Bool) (user : Option String)
      (remember : Bool)
      → Reach lower log gate
      → Reach lower
          (note_web (gate.web_pending id) approved user log)
          ((resolve_web_approval id approved user remember gate).1)
  finish_web :
      {log : List Grant} {gate : Gate} (id : ℕ) (entry : WebEntry) (result : ApprovalResult)
      (how : WebEnd) (saved : Bool)
      → gate.web_pending id ≡ some entry
      → (web_end id how gate).0 ≡ some result
      → Reach lower log gate
      → Reach lower log (remember_result entry.scoped result saved ((web_end id how gate).1))
  clear_session :
      {log : List Grant} {gate : Gate}
      → Reach lower log gate
      → Reach lower log (clear_session_cache gate)
  clear_permanent :
      {log : List Grant} {gate : Gate} (saved : Bool)
      → Reach lower log gate
      → Reach lower log (clear_permanent_cache saved gate)
  restart :
      {log : List Grant} {gate : Gate} (loaded : Bool)
      → Reach lower log gate
      → Reach lower log (new_gate loaded gate)
