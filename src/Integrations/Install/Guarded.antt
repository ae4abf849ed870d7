-- ===== src/Integrations/Install/Guarded.antt =====
-- A mapping is only written for an intent that is stored and not expired, and an intent serves once.
use ddash.Base.{
  ℕ, ltb, String, ℤ, true, false, not, Option, none, some, find?, filter, ◌≡◌, refl, ◌∙◌, ◌⊎◌, inl,
  inr, Option-cases, Bool-cases,
}
use ddash.Base.Text.{trim_space}
use ddash.Base.Text.Laws.{trim_space_idem}
use ddash.Effect.{
  Err, Outcome, ok, err, no_rows, is_no_rows, setup_intent_not_found, setup_intent_expired, other,
  ◌>>=◌,
}
use ddash.Store.{IntentRow, Db, World, after_call, next_fault, later_faults}
use ddash.Store.Calls.{call_cases}
use ddash.Store.Queries.{has_organization}
use ddash.Integrations.Adapter
use ddash.Integrations.Adapter.{trim_installation}
use ddash.Integrations.Queries
use ddash.Integrations.Queries.{has_state, set_installations, set_intents, put_installation}
use ddash.Integrations.Install.{complete_install, intent_mapping}

-- The tables with the mapping of an installation to an intent's organization.
abbrev pub mapped : ℤ → IntentRow → Db → Db
mapped id intent db =
    set_installations
      (put_installation (trim_installation (intent_mapping id intent)) db.links.installations) db

-- The tables without the intents of a state.
abbrev pub without_intent : String → Db → Db
without_intent state db = set_intents (filter (λ s. not (has_state state s)) db.links.intents) db

-- The faults that the second and the third store call meet.
abbrev pub second_fault : World → Option Err
second_fault w = next_fault (later_faults w.faults)

abbrev pub third_fault : World → Option Err
third_fault w = next_fault (later_faults (later_faults w.faults))

-- Why completing an installation stops, what it did to the tables, and what it answered.
pub data Completion (state : String) (id : ℤ) (now : ℕ) (w : World) (after : Db) (answer : Outcome)
    : Type 0 where
  -- the intent could not be read
  unread :
      (e : Err)
      → next_fault w.faults ≡ some e
      → is_no_rows e ≡ false
      → after ≡ w.db
      → answer ≡ err e
      → Completion state id now w after answer
  -- there is no intent, or the read says so
  unknown :
      ((e : Err) × (next_fault w.faults ≡ some e) × (is_no_rows e ≡ true))
        ⊎ (find? (has_state (trim_space state)) w.db.links.intents ≡ none)
      → after ≡ w.db
      → answer ≡ err setup_intent_not_found
      → Completion state id now w after answer
  -- the intent had expired, and was deleted if that did not fail
  expired :
      (intent : IntentRow)
      → find? (has_state (trim_space state)) w.db.links.intents ≡ some intent
      → ltb intent.expires_at now ≡ true
      → ((e : Err) × (second_fault w ≡ some e) × (after ≡ w.db))
        ⊎ (after ≡ without_intent (trim_space state) w.db)
      → answer ≡ err setup_intent_expired
      → Completion state id now w after answer
  -- the mapping could not be written
  unwritten :
      (intent : IntentRow) (e : Err)
      → find? (has_state (trim_space state)) w.db.links.intents ≡ some intent
      → ltb intent.expires_at now ≡ false
      → (second_fault w ≡ some e) ⊎ (has_organization intent.organization_id w.db ≡ false)
      → after ≡ w.db
      → answer ≡ err e
      → Completion state id now w after answer
  -- the mapping was written, but the intent could not be deleted
  kept :
      (intent : IntentRow) (e : Err)
      → find? (has_state (trim_space state)) w.db.links.intents ≡ some intent
      → ltb intent.expires_at now ≡ false
      → third_fault w ≡ some e
      → after ≡ mapped id intent w.db
      → answer ≡ err e
      → Completion state id now w after answer
  completed :
      (intent : IntentRow)
      → find? (has_state (trim_space state)) w.db.links.intents ≡ some intent
      → ltb intent.expires_at now ≡ false
      → after ≡ without_intent (trim_space state) (mapped id intent w.db)
      → answer ≡ ok tt
      → Completion state id now w after answer

module _ (state : String) where
  -- The intent's read meets a fault, finds none, or finds one.
  get_cases :
      (w : World)
      → ((e : Err) × (next_fault w.faults ≡ some e)
          × (Adapter.get_github_setup_intent_by_state (trim_space state) w
              ≡ (err e, after_call w w.db)))
        ⊎ (((find? (has_state (trim_space state)) w.db.links.intents ≡ none)
              × (Adapter.get_github_setup_intent_by_state (trim_space state) w
                  ≡ (err no_rows, after_call w w.db)))
            ⊎ ((intent : IntentRow) × (find? (has_state (trim_space state)) w.db.links.intents
                  ≡ some intent)
                × (Adapter.get_github_setup_intent_by_state (trim_space state) w
                    ≡ (ok intent, after_call w w.db))))
  unfolding Adapter.get_github_setup_intent_by_state Queries.get_github_setup_intent_by_state
  get_cases w =
      rw (trim_space_idem state)
        (elim (call_cases (Queries.get_github_setup_intent_by_state (trim_space state)) w) [
          | inl (e, fault, failed) ↦ inl (e, fault, failed)
          | inr answer ↦
              elim (Option-cases (find? (has_state (trim_space state)) w.db.links.intents)) [
                | inl absent ↦ inr (inl (absent, answer ∙ rw absent))
                | inr (intent, found) ↦ inr (inr (intent, found, answer ∙ rw found))
              ]
        ])

  delete_cases :
      (w : World)
      → ((e : Err) × (next_fault w.faults ≡ some e)
          × (Adapter.delete_github_setup_intent state w ≡ (err e, after_call w w.db)))
        ⊎ (Adapter.delete_github_setup_intent state w
            ≡ (ok tt, after_call w (without_intent (trim_space state) w.db)))
  unfolding Adapter.delete_github_setup_intent Queries.delete_github_setup_intent
  delete_cases w = elim (call_cases (Queries.delete_github_setup_intent (trim_space state)) w) [
    | inl (e, fault, failed) ↦ inl (e, fault, failed)
    | inr answer ↦ inr answer
  ]

  module _ (id : ℤ) where
    upsert_cases :
        (intent : IntentRow) (w : World)
        → ((e : Err) × ((next_fault w.faults ≡ some e)
              ⊎ (has_organization intent.organization_id w.db ≡ false))
            × (Adapter.upsert_github_installation_mapping (intent_mapping id intent) w
                ≡ (err e, after_call w w.db)))
          ⊎ (Adapter.upsert_github_installation_mapping (intent_mapping id intent) w
              ≡ (ok tt, after_call w (mapped id intent w.db)))
    unfolding Adapter.upsert_github_installation_mapping Queries.upsert_github_installation_mapping
    upsert_cases intent w =
        elim (call_cases
          (Queries.upsert_github_installation_mapping
            (trim_installation (intent_mapping id intent)))
          w) [
            | inl (e, fault, failed) ↦ inl (e, inl fault, failed)
            | inr answer ↦ elim (Bool-cases (has_organization intent.organization_id w.db)) [
              | inl known ↦ inr (answer ∙ rw known)
              | inr stranger ↦
                  inl (other "FOREIGN KEY constraint failed", inr stranger, answer ∙ rw stranger)
            ]
          ]

    -- Completing an installation stops for one of these reasons, with this answer and these tables:
    -- the read of the intent failed; there is no intent, which is answered by ErrSetupIntentNotFound;
    -- it had expired, which is answered by ErrSetupIntentExpired; the mapping could not be written,
    -- by a failed call or an unknown organization; or the intent could not be deleted. Else it
    -- succeeds, with the mapping written for the intent's organization and the intent gone.
    pub complete_install-Completion :
        (now : ℕ) (w : World)
        → Completion state id now w
            (complete_install state id now w).1.db
            (complete_install state id now w).0
    unfolding complete_install ◌>>=◌ is_no_rows
    complete_install-Completion now w = elim (get_cases w) [
      | inl (e, fault, failed) ↦ rw failed (elim (Bool-cases (is_no_rows e)) [
        | inl h ↦ rw h (unknown (inl (e, fault, h)) refl refl)
        | inr h ↦ rw h (unread e fault h refl refl)
      ])
      | inr (inl (absent, none_found)) ↦ rw none_found (unknown (inr absent) refl refl)
      | inr (inr (intent, found, got)) ↦ rw got (elim (Bool-cases (ltb intent.expires_at now)) [
        | inl late ↦ rw late (elim (delete_cases (after_call w w.db)) [
          | inl (e, fault, failed) ↦
              rw failed (expired intent found late (inl (e, fault, refl)) refl)
          | inr gone ↦ rw gone (expired intent found late (inr refl) refl)
        ])
        | inr early ↦ rw early (elim (upsert_cases intent (after_call w w.db)) [
          | inl (e, reason, failed) ↦ rw failed (unwritten intent e found early reason refl refl)
          | inr written ↦
              rw written
                (elim (delete_cases (after_call (after_call w w.db) (mapped id intent w.db))) [
                  | inl (e, fault, failed) ↦ rw failed (kept intent e found early fault refl refl)
                  | inr gone ↦ rw gone (completed intent found early refl refl)
                ])
        ])
      ])
    ]
