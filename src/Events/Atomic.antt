-- ===== src/Events/Atomic.antt =====
-- A batch is stored in one transaction: either all of it, or nothing.
use ddash.Base.{
  ℕ, suc, ◌++◌, ℤ, String, if◌then◌else◌, ◌==◌, true, false, List, [], ◌∷◌, any, ◌≡◌, refl, ap, ◌∙◌,
  ◌⊎◌, inl, inr, Bool-cases,
}
use ddash.Base.Text.{trim_space, to_lower, is_empty}
use ddash.Effect.{Err, is_no_rows, other, ok, err, Exec, pure, ◌>>=◌, ◌>>◌}
use ddash.Store.{EventParams, Db, Projection, World, after_call}
use ddash.Store.{env_state, delivery_stats, change_link, current_state}
use ddash.Store.Calls.{call_cases}
use ddash.Events.Log
use ddash.Events.Log.{has_key, append_event_store}
use ddash.Store.Queries.{has_organization}
use ddash.Events.Reference.{next_row, statements, with_statements, append_one, append_each}
use ddash.Events.Faults.{driver_faults, driver_later, driver_next, not_no_rows}
use ddash.Events.Tx.{no_change, touch, with_tx}
use ddash.Events.Append.{
  run_projection, project_event, append_event_with_projections, append_all,
  append_event_store_batch, service_name_from_subject_id,
}

-- The action fails, or changes the tables by the function; the faults stay those of a driver.
abbrev Changes : {A : Type 0} → (Db → Db) → Exec World A → Type 0
Changes {A} f m =
    (w : World)
    → driver_faults w.faults ≡ true
    → (driver_faults (m w).1.faults ≡ true)
      × (((e : Err) × ((m w).0 ≡ err e)) ⊎ ((a : A) × ((m w).0 ≡ ok a) × ((m w).1.db ≡ f w.db)))

Changes-pure : {A : Type 0} (a : A) → Changes (with_statements []) (pure {S = World} a)
unfolding pure
Changes-pure a w h = (h, inr (a, refl, refl))

Changes-bind :
    {A B : Type 0} (f g : Db → Db) (m : Exec World A) (n : A → Exec World B)
    → Changes f m
    → ((a : A) → Changes g (n a))
    → Changes (λ db. g (f db)) (m >>= n)
unfolding ◌>>=◌
Changes-bind f g m n first second w h =
    let (faults, answer) = first w h in
    elim answer [
      | inl (e, failed) ↦ rw failed (faults, inl (e, refl))
      | inr (a, passed, changed) ↦
          let (faults', answer') = second a (m w).1 faults in
          rw passed (
            faults',
            elim answer' [
              | inl failed ↦ inl failed
              | inr (b, passed', changed') ↦ inr (b, passed', changed' ∙ ap g changed)
            ],
          )
    ]

Changes-run_projection : (p : Projection) → Changes (with_statements (p ∷ [])) (run_projection p)
unfolding Log.project
Changes-run_projection p w h = elim (call_cases (Log.project p) w) [
  | inl (e, _, failed) ↦ rw failed (driver_later w.faults h, inl (e, refl))
  | inr answer ↦ rw answer (driver_later w.faults h, inr (tt, refl, refl))
]

-- The statement that a row of a service with a name needs.
abbrev naming : ℤ → String → List Projection
naming org name = if is_empty name then [] else current_state org name ∷ []

Changes-naming :
    (org : ℤ) (name : String)
    → Changes
        (with_statements (naming org name))
        (if is_empty name then pure true else run_projection (current_state org name) >> pure true)
Changes-naming org name = elim (Bool-cases (is_empty name)) [
  | inl nameless ↦ rw nameless (Changes-pure true)
  | inr named ↦ rw named (
      Changes-bind (with_statements (current_state org name ∷ [])) (with_statements []) _ _
        (Changes-run_projection _) (λ _. Changes-pure true))
]

Changes-project_event :
    (p : EventParams) (seq : ℕ)
    → Changes
        (with_statements (statements (record { seq = seq; params = p })))
        (project_event p seq)
unfolding project_event
Changes-project_event p seq =
    let org = p.organization_id in
    let last = naming org (service_name_from_subject_id p.subject_id) in
    elim (Bool-cases (trim_space (to_lower p.subject_type) == "service")) [
      | inr foreign ↦ rw foreign (Changes-pure true)
      | inl service ↦ rw service (
          Changes-bind (with_statements (env_state org seq ∷ []))
            (with_statements (delivery_stats org seq ∷ change_link org seq ∷ last)) _ _
            (Changes-run_projection (env_state org seq))
            (λ _.
              Changes-bind (with_statements (delivery_stats org seq ∷ []))
                (with_statements (change_link org seq ∷ last)) _ _
                (Changes-run_projection (delivery_stats org seq))
                (λ _.
                  Changes-bind (with_statements (change_link org seq ∷ [])) (with_statements last) _
                    _ (Changes-run_projection (change_link org seq))
                    (λ _. Changes-naming org (service_name_from_subject_id p.subject_id)))))
    ]

Changes-append_event : (p : EventParams) → Changes (append_one p) (append_event_with_projections p)
unfolding append_event_with_projections append_event_store ◌>>=◌ is_no_rows
Changes-append_event p w h = elim (call_cases (append_event_store p) w) [
  | inl (e, fault, failed) ↦
      rw (failed, not_no_rows e (rw fault at (driver_next w.faults h)))
        (driver_later w.faults h, inl (e, refl))
  | inr answer ↦ elim (Bool-cases (any (has_key p) w.db.log.rows)) [
    | inl known ↦ rw (answer, known) (driver_later w.faults h, inr (false, refl, refl))
    | inr fresh ↦ elim (Bool-cases (has_organization p.organization_id w.db)) [
      | inr unknown ↦
          rw (answer, fresh, unknown)
            (driver_later w.faults h, inl (other "FOREIGN KEY constraint failed", refl))
      | inl member ↦
          rw (answer, fresh, member)
            (Changes-project_event p w.db.log.next_seq
              (after_call w (record w.db {
                log = record {
                  rows = w.db.log.rows ++ next_row p w.db ∷ [];
                  next_seq = suc w.db.log.next_seq;
                };
              }))
              (driver_later w.faults h))
    ]
  ]
]

Changes-append_all : (ps : List EventParams) → Changes (append_each ps) (append_all ps)
Changes-append_all [] = Changes-pure tt
Changes-append_all (p ∷ ps) =
    Changes-bind (append_one p) (append_each ps) _ _ (Changes-append_event p)
      (λ _. Changes-append_all ps)

pub touch_cases :
    (w : World)
    → ((e : Err) × (touch w ≡ (err e, after_call w w.db))) ⊎ (touch w ≡ (ok tt, after_call w w.db))
unfolding touch
touch_cases w = elim (call_cases no_change w) [
  | inl (e, _, failed) ↦ inl (e, failed)
  | inr answer ↦ inr answer
]

-- An action that fails and changes nothing, or succeeds and changes the tables by the function.
abbrev pub IsAtomic : (Db → Db) → Exec World Unit → World → Type 0
IsAtomic f m w =
    ((e : Err) × ((m w).0 ≡ err e) × ((m w).1.db ≡ w.db))
    ⊎ (((m w).0 ≡ ok tt) × ((m w).1.db ≡ f w.db))

with_tx-IsAtomic :
    (f : Db → Db) (body : Exec World Unit) (w : World)
    → Changes f body
    → driver_faults w.faults ≡ true
    → IsAtomic f (with_tx body) w
unfolding with_tx ◌>>=◌
with_tx-IsAtomic f body w changes h = elim (touch_cases w) [
  | inl (e, failed) ↦ rw failed (inl (e, refl, refl))
  | inr begun ↦
      let (_, answer) = changes (after_call w w.db) (driver_later w.faults h) in
      rw begun (elim answer [
        | inl (e, failed) ↦
            rw failed (elim (touch_cases (record (body (after_call w w.db)).1 { db = w.db })) [
              | inl (e', failed') ↦ rw failed' (inl (e', refl, refl))
              | inr undone ↦ rw undone (inl (e, refl, refl))
            ])
        | inr (_, passed, changed) ↦ rw passed (elim (touch_cases (body (after_call w w.db)).1) [
          | inl (e, failed) ↦ rw failed (inl (e, refl, refl))
          | inr done ↦ rw done (inr (refl, changed))
        ])
      ])
]

pub append_event_store_batch-append_each :
    (ps : List EventParams) (w : World)
    → driver_faults w.faults ≡ true
    → IsAtomic (append_each ps) (append_event_store_batch ps) w
unfolding append_event_store_batch pure
append_event_store_batch-append_each [] w h = inr (refl, refl)
append_event_store_batch-append_each (p ∷ ps) w h =
    with_tx-IsAtomic (append_each (p ∷ ps)) (append_all (p ∷ ps)) w (Changes-append_all (p ∷ ps)) h

touch-driver : (w : World) → driver_faults w.faults ≡ true → driver_faults (touch w).1.faults ≡ true
touch-driver w h = elim (touch_cases w) [
  | inl (e, failed) ↦ rw failed (driver_later w.faults h)
  | inr answer ↦ rw answer (driver_later w.faults h)
]

with_tx-driver :
    (f : Db → Db) (body : Exec World Unit) (w : World)
    → Changes f body
    → driver_faults w.faults ≡ true
    → driver_faults (with_tx body w).1.faults ≡ true
unfolding with_tx ◌>>=◌
with_tx-driver f body w changes h = elim (touch_cases w) [
  | inl (e, failed) ↦ rw failed (driver_later w.faults h)
  | inr begun ↦
      let (faults, answer) = changes (after_call w w.db) (driver_later w.faults h) in
      rw begun (elim answer [
        | inl (e, failed) ↦
            rw failed (elim (touch_cases (record (body (after_call w w.db)).1 { db = w.db })) [
              | inl (e', failed') ↦
                  rw failed' (driver_later (body (after_call w w.db)).1.faults faults)
              | inr undone ↦ rw undone (driver_later (body (after_call w w.db)).1.faults faults)
            ])
        | inr (_, passed, changed) ↦ rw passed (elim (touch_cases (body (after_call w w.db)).1) [
          | inl (e, failed) ↦ rw failed (driver_later (body (after_call w w.db)).1.faults faults)
          | inr done ↦ rw done (driver_later (body (after_call w w.db)).1.faults faults)
        ])
      ])
]

-- The faults that are left are a driver's.
pub append_event_store_batch-driver :
    (ps : List EventParams) (w : World)
    → driver_faults w.faults ≡ true
    → driver_faults (append_event_store_batch ps w).1.faults ≡ true
unfolding append_event_store_batch pure
append_event_store_batch-driver [] w h = h
append_event_store_batch-driver (p ∷ ps) w h =
    with_tx-driver (append_each (p ∷ ps)) (append_all (p ∷ ps)) w (Changes-append_all (p ∷ ps)) h
