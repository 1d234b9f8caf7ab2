-- ===== src/Runs/Events.antt =====
-- The numbering of a run's events, over every history of its row.
use cognitrix.Prelude.{
  ℕ, ◌+◌, ◌≡◌, inl, inr, sym, subst, ◌∙◌, List, [], ◌∷◌, ◌++◌, arith, ap, length, length-append,
}
use cognitrix.Runs.{TaskRun, Event, Envelope, envelope_after}
use cognitrix.Runs.Outbox.{tail_of}
use cognitrix.Runs.History.{Op, History, Reach, here, next}
use cognitrix.Runs.Linear.{IsLinear, Reach-IsLinear}
use cognitrix.Runs.EventChange.{EventChange}
use cognitrix.Runs.Lifecycle.{Changes, Step-EventChange}

-- The envelopes carry the numbers that follow `n`, without a gap.
abbrev pub FollowFrom : ℕ → List Envelope → Type 0
FollowFrom n [] = Unit
FollowFrom n (e ∷ rest) = (e.sequence ≡ n + 1) × FollowFrom (n + 1) rest

-- The outbox holds the last numbers given out, in order; those before are with the event store.
pub record IsNumbered (r : TaskRun) : Type 0 where
  pub stored : ℕ
  pub in_order : FollowFrom stored r.event_outbox
  pub complete : stored + length r.event_outbox ≡ r.next_event_sequence

FollowFrom-snoc :
    (n : ℕ) (envelopes : List Envelope) (e : Envelope)
    → FollowFrom n envelopes
    → e.sequence ≡ n + length envelopes + 1
    → FollowFrom n (envelopes ++ e ∷ [])
FollowFrom-snoc n [] e h q = (omega arith, tt)
FollowFrom-snoc n (x ∷ rest) e h q = (h.0, FollowFrom-snoc (n + 1) rest e h.1 (omega arith))

-- One event more, or one less to deliver.
appended :
    (r r' : TaskRun) (event : Event)
    → r'.next_event_sequence ≡ r.next_event_sequence + 1
    → r'.event_outbox ≡ r.event_outbox ++ envelope_after r event ∷ []
    → IsNumbered r
    → IsNumbered r'
appended r r' event n o h = record {
  stored = h.stored;
  in_order = subst (FollowFrom h.stored) (sym o) (
      FollowFrom-snoc h.stored r.event_outbox (envelope_after r event) h.in_order
        (omega (arith, h.complete)));
  complete = omega (
    arith,
    ap length o,
    length-append r.event_outbox (envelope_after r event ∷ []),
    n,
    h.complete,
  );
}

acknowledged :
    (r' : TaskRun) (stored : ℕ) (outbox : List Envelope)
    → FollowFrom stored outbox
    → stored + length outbox ≡ r'.next_event_sequence
    → r'.event_outbox ≡ tail_of outbox
    → IsNumbered r'
acknowledged r' stored [] f n o = record {
  stored = stored;
  in_order = subst (FollowFrom stored) (sym o) tt;
  complete = omega (arith, ap length o);
}
acknowledged r' stored (e ∷ rest) f n o = record {
  stored = stored + 1;
  in_order = subst (FollowFrom (stored + 1)) (sym o) f.1;
  complete = omega (arith, ap length o);
}

EventChange-IsNumbered : (r r' : TaskRun) → EventChange r r' → IsNumbered r → IsNumbered r'
EventChange-IsNumbered r r' (inl (n, o)) h = record {
  stored = h.stored;
  in_order = subst (FollowFrom h.stored) (sym o) h.in_order;
  complete = omega (arith, ap length o, n, h.complete);
}
EventChange-IsNumbered r r' (inr (inl (n, o))) h =
    acknowledged r' h.stored r.event_outbox h.in_order (h.complete ∙ sym n) o
EventChange-IsNumbered r r' (inr (inr (event, n, o))) h = appended r r' event n o h

Changes-IsNumbered : (r r' : TaskRun) → Changes EventChange r r' → IsNumbered r → IsNumbered r'
Changes-IsNumbered r r' (inl same) h = subst IsNumbered (sym same) h
Changes-IsNumbered r r' (inr change) h = EventChange-IsNumbered r r' change h

-- In a history whose versions tell its rows apart, and which begins so, the outbox holds the
-- latest events under consecutive numbers that end at the counter: no number is given out twice or
-- left out, and events leave in order.
pub Reach-IsNumbered :
    {P : Op → Type 0} {h k : History}
    → IsLinear h
    → IsNumbered h.row
    → Reach P h k
    → IsNumbered k.row
Reach-IsNumbered l n here = n
Reach-IsNumbered l n (next {k} {m} r s) =
    Changes-IsNumbered k.row m.row (Step-EventChange (Reach-IsLinear l r) s)
      (Reach-IsNumbered l n r)
