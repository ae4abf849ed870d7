-- ===== src/Events/Delivery.antt =====
-- Appending events, as its callers see it: unique keys, nothing lost, delivered again without
-- effect.
use ddash.Base.{Bool, true, List, ◌≡◌, sym, ap, ◌∙◌, subst, inl, inr}
use ddash.Effect.{Result, ok, err}
use ddash.Store.{EventParams, World}
use ddash.Events.Laws.{IsKeyed, store_events-IsKeyed}
use ddash.Events.Reference.{append_each-log}
use ddash.Events.Append.{append_event_store_batch}
use ddash.Events.Faults.{driver_faults}
use ddash.Events.Atomic.{append_event_store_batch-append_each}

abbrev succeeded : {A : Type 0} → Result A → Bool
succeeded (ok _) = true
succeeded (err _) = Bool.false

-- Where no fault is sql.ErrNoRows: appending a batch, successful or not, leaves at most one row for
-- each organization, source and event id, if that was so.
pub append_event_store_batch-IsKeyed :
    (ps : List EventParams) (w : World)
    → driver_faults w.faults ≡ true
    → IsKeyed w.db.log
    → IsKeyed (append_event_store_batch ps w).1.db.log
append_event_store_batch-IsKeyed ps w h k = elim (append_event_store_batch-append_each ps w h) [
  | inl (e, _, same) ↦ subst IsKeyed (sym (ap (λ d. d.log) same)) k
  | inr (_, changed) ↦
      subst IsKeyed (sym (ap (λ d. d.log) changed ∙ append_each-log ps w.db))
        (store_events-IsKeyed ps w.db.log k)
]
