-- ===== src/Ingest/Batcher/Acknowledged.antt =====
-- A caller that is answered without error finds its event in the store, then and ever after.
use ddash.Base.{
  ℤ, true, List, [], ◌∷◌, ◌++◌, map, All, All-append, ◌≡◌, refl, ap, ◌∙◌, ◌⊎◌, inl, inr, Bool-cases,
  leb, ltb, length,
}
use ddash.Effect.{Err, Outcome, ok, err, ◌>>=◌}
use ddash.Store.{EventLog, EventParams, World, after_call}
use ddash.Store.Calls.{call_cases}
use ddash.Events.Tx.{no_change, touch}
use ddash.Events.Faults.{driver_faults, driver_later}
use ddash.Events.Atomic.{append_event_store_batch-driver, append_event_store_batch-append_each}
use ddash.Events.Reference.{append_each-log}
use ddash.Events.Laws.{IsStored, store_events, store_events-keeps, store_events-IsStored}
use ddash.Ingest.Service.{to_append_event_params, open_store, append_events}
use ddash.Ingest.Batcher.{
  Request, Reply, Batcher, new_ingest_batcher, append, store_batch, reply_all, flush, collect,
  received, receive, flush_some, tick, queue_capacity,
}
use ddash.Ingest.Batcher.Steps.{Run, begin, call_accepted, call_refused, loop_receives, loop_ticks}

abbrev params_of : List Request → List EventParams
params_of batch = map to_append_event_params (map (λ r. r.event) batch)

-- What a flush does to the log: nothing with an error, or it stores the batch.
store_batch_cases :
    (batch : List Request) (w : World)
    → driver_faults w.faults ≡ true
    → (driver_faults (store_batch batch w).1.faults ≡ true)
      × (((e : Err) × ((store_batch batch w).0 ≡ err e)
            × ((store_batch batch w).1.db.log ≡ w.db.log))
          ⊎ (((store_batch batch w).0 ≡ ok tt)
              × ((store_batch batch w).1.db.log ≡ store_events (params_of batch) w.db.log)))
unfolding store_batch open_store touch append_events ◌>>=◌
store_batch_cases batch w h = elim (call_cases no_change w) [
  | inl (e, _, failed) ↦ rw failed (driver_later w.faults h, inl (e, refl, refl))
  | inr opened ↦ rw opened (appended batch)
]
  where
    appended :
        (batch : List Request)
        → (driver_faults (append_events (map (λ r. r.event) batch) (after_call w w.db)).1.faults
            ≡ true)
          × (((e : Err) × ((append_events (map (λ r. r.event) batch) (after_call w w.db)).0 ≡ err e)
                × ((append_events (map (λ r. r.event) batch) (after_call w w.db)).1.db.log
                    ≡ w.db.log))
              ⊎ (((append_events (map (λ r. r.event) batch) (after_call w w.db)).0 ≡ ok tt)
                  × ((append_events (map (λ r. r.event) batch) (after_call w w.db)).1.db.log
                      ≡ store_events (params_of batch) w.db.log)))
    appended [] = (driver_later w.faults h, inr (refl, refl))
    appended (r ∷ rs) = (
      append_event_store_batch-driver (params_of (r ∷ rs)) (after_call w w.db)
          (driver_later w.faults h),
      elim (append_event_store_batch-append_each (params_of (r ∷ rs)) (after_call w w.db)
          (driver_later w.faults h)) [
            | inl (e, failed, same) ↦ inl (e, failed, ap (λ d. d.log) same)
            | inr (done, changed) ↦
                inr (done, ap (λ d. d.log) changed ∙ append_each-log (params_of (r ∷ rs)) w.db)
          ],
    )

abbrev IsHonestFor : EventLog → Request → Outcome → Type 0
IsHonestFor log r (ok _) = IsStored log (to_append_event_params r.event)
IsHonestFor log r (err _) = Unit

-- A reply without error is for an event in the log.
abbrev pub IsHonest : EventLog → Reply → Type 0
IsHonest log reply = IsHonestFor log reply.request reply.result

IsHonestFor-later :
    (ps : List EventParams) (log : EventLog) (r : Request) (result : Outcome)
    → IsHonestFor log r result
    → IsHonestFor (store_events ps log) r result
IsHonestFor-later ps log r (ok _) h = store_events-keeps ps (to_append_event_params r.event) log h
IsHonestFor-later ps log r (err _) h = tt

IsHonest-later :
    (ps : List EventParams) (log : EventLog) (replies : List Reply)
    → All (IsHonest log) replies
    → All (IsHonest (store_events ps log)) replies
IsHonest-later ps log [] h = tt
IsHonest-later ps log (r ∷ rs) (h, hs) =
    (IsHonestFor-later ps log r.request r.result h, IsHonest-later ps log rs hs)

IsHonest-batch :
    (batch : List Request) (log : EventLog)
    → All (IsStored log) (params_of batch)
    → All (IsHonest log) (reply_all (ok tt) batch)
IsHonest-batch [] log h = tt
IsHonest-batch (r ∷ rs) log (h, hs) = (h, IsHonest-batch rs log hs)

IsHonest-failed :
    (batch : List Request) (log : EventLog) (e : Err) → All (IsHonest log) (reply_all (err e) batch)
IsHonest-failed [] log e = tt
IsHonest-failed (r ∷ rs) log e = (tt, IsHonest-failed rs log e)

-- The invariant of a run.
pub record IsDurable (b : Batcher) : Type 0 where
  pub faults : driver_faults b.world.faults ≡ true
  pub honest : All (IsHonest b.world.db.log) b.replies

flush-IsDurable : (b : Batcher) → IsDurable b → IsDurable (flush b)
unfolding flush
flush-IsDurable b d =
    let (faults, answer) = store_batch_cases b.batch b.world d.faults in
    elim answer [
      | inl (e, failed, same) ↦ rw failed (record {
        faults = faults;
        honest =
            All-append (IsHonest (store_batch b.batch b.world).1.db.log) b.replies _
              (rw same d.honest) (IsHonest-failed b.batch (store_batch b.batch b.world).1.db.log e);
      })
      | inr (passed, stored) ↦ rw passed (record {
        faults = faults;
        honest =
            All-append (IsHonest (store_batch b.batch b.world).1.db.log) b.replies _
              (rw stored (IsHonest-later (params_of b.batch) b.world.db.log b.replies d.honest))
              (IsHonest-batch b.batch (store_batch b.batch b.world).1.db.log
                (rw stored (store_events-IsStored (params_of b.batch) b.world.db.log)));
      })
    ]

collect-IsDurable : (r : Request) (b : Batcher) → IsDurable b → IsDurable (collect r b)
unfolding collect
collect-IsDurable r b d = elim (Bool-cases (leb b.batch_size (length (b.batch ++ r ∷ [])))) [
  | inl full ↦ rw full (
      flush-IsDurable (record b { batch = b.batch ++ r ∷ [] })
        (record { faults = d.faults; honest = d.honest }))
  | inr more ↦ rw more (record { faults = d.faults; honest = d.honest })
]

receive-IsDurable : (b : Batcher) → IsDurable b → IsDurable (receive b)
unfolding receive
receive-IsDurable b d = cases b.queue
  where
    cases : (q : List Request) → IsDurable (received q b)
    cases [] = d
    cases (r ∷ q) =
        collect-IsDurable r (record b { queue = q })
          (record { faults = d.faults; honest = d.honest })

tick-IsDurable : (b : Batcher) → IsDurable b → IsDurable (tick b)
unfolding tick
tick-IsDurable b d = cases b.batch
  where
    cases : (batch : List Request) → IsDurable (flush_some batch b)
    cases [] = d
    cases (_ ∷ _) = flush-IsDurable b d

append-IsDurable : (r : Request) (b : Batcher) → IsDurable b → IsDurable (append r b).1
unfolding append
append-IsDurable r b d = elim (Bool-cases (ltb (length b.queue) (queue_capacity b))) [
  | inl room ↦ rw room (record { faults = d.faults; honest = d.honest })
  | inr full ↦ rw full d
]

-- Where no fault is sql.ErrNoRows: in every state that callers and the loop reach from a new
-- batcher, each request that was answered without error has its event in the event log, whatever
-- batches failed before or after.
pub Run-IsDurable :
    (size : ℤ) (w : World) (h : List Request) (b : Batcher)
    → driver_faults w.faults ≡ true
    → Run (new_ingest_batcher size w) h b
    → All (IsHonest b.world.db.log) b.replies
unfolding new_ingest_batcher
Run-IsDurable size w h b sound run = (keep run).honest
  where
    keep : {h : List Request} {b : Batcher} → Run (new_ingest_batcher size w) h b → IsDurable b
    keep begin = record { faults = sound; honest = tt }
    keep (call_accepted r run _) = append-IsDurable r _ (keep run)
    keep (call_refused r _ run _) = append-IsDurable r _ (keep run)
    keep (loop_receives run) = receive-IsDurable _ (keep run)
    keep (loop_ticks run) = tick-IsDurable _ (keep run)
