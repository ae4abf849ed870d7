-- ===== src/Events/Append.antt =====
-- Appending events with their projections (`AppendEventStore`, `AppendEventStoreBatch`).
use ddash.Base.{ℕ, String, ◌==◌, Bool, true, false, not, List, [], ◌∷◌, length, leb, if◌then◌else◌}
use ddash.Base.Text.{trim_space, to_lower, is_empty, split_char}
use ddash.Effect.{is_no_rows, ok, err, Exec, pure, raise, attempt, ◌>>=◌, ◌>>◌}
use ddash.Store.{EventParams, Projection, World, call}
use ddash.Store.{env_state, delivery_stats, change_link, current_state}
use ddash.Events.Log
use ddash.Events.Log.{append_event_store}
use ddash.Events.Tx.{with_tx}

abbrev last_part : String → List String → String
last_part whole [] = whole
last_part whole (part ∷ []) = part
last_part whole (part ∷ next ∷ parts) = last_part whole (next ∷ parts)

-- What follows the last slash; the whole subject where nothing does.
unfoldable pub service_name_from_subject_id : String → String
service_name_from_subject_id subject =
    let s = trim_space subject in
    let parts = split_char 47 s in
    let last = last_part s parts in
    if leb (length parts) 1 then s else if is_empty last then s else trim_space last

abbrev pub run_projection : Projection → Exec World Unit
run_projection p = call (Log.project p)

-- The statements behind an insertion that made a row.
unfoldable pub project_event : EventParams → ℕ → Exec World Bool
project_event p seq =
    if not (trim_space (to_lower p.subject_type) == "service") then pure true else do
      run_projection (env_state p.organization_id seq)
      run_projection (delivery_stats p.organization_id seq)
      run_projection (change_link p.organization_id seq)
      if is_empty (service_name_from_subject_id p.subject_id) then pure true else do
        run_projection (current_state p.organization_id (service_name_from_subject_id p.subject_id))
        pure true

-- An insertion that made no row is no error: the event was appended before.
unfoldable pub append_event_with_projections : EventParams → Exec World Bool
append_event_with_projections p = do
  inserted ← attempt (call (append_event_store p))
  elim inserted [
    | err e ↦ if is_no_rows e then pure false else raise e
    | ok seq ↦ project_event p seq
  ]

unfoldable pub append_event_store_single : EventParams → Exec World Unit
unfolding append_event_with_projections
append_event_store_single p = with_tx (do append_event_with_projections p; pure tt)

abbrev pub append_all : List EventParams → Exec World Unit
append_all [] = pure tt
append_all (p ∷ ps) = do append_event_with_projections p; append_all ps

unfoldable pub append_event_store_batch : List EventParams → Exec World Unit
append_event_store_batch [] = pure tt
append_event_store_batch (p ∷ ps) = with_tx (append_all (p ∷ ps))
