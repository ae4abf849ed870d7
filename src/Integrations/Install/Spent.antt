-- ===== src/Integrations/Install/Spent.antt =====
-- A setup state serves once: after a completed installation it is worth nothing.
use ddash.Base.{
  ℕ, String, ℤ, Bool, true, false, not, none, List, [], ◌∷◌, any, find?, filter, ◌≡◌, refl, arith,
  inl, inr, Bool-cases,
}
use ddash.Base.Text.{trim_space}
use ddash.Effect.{Err, Outcome, ok, err, setup_intent_not_found}
use ddash.Store.{Db, World}
use ddash.Integrations.Queries.{has_state}
use ddash.Integrations.Install.{complete_install}
use ddash.Integrations.Install.Guarded.{
  Completion, unread, unknown, expired, unwritten, kept, completed, complete_install-Completion,
}

find?-filter-not {ℓ} :
    {A : Type ℓ} (p : A → Bool) (xs : List A) → find? p (filter (λ x. not (p x)) xs) ≡ none
find?-filter-not p [] = refl
find?-filter-not p (x ∷ xs) = ground (arith, find?-filter-not p xs)

none_found {ℓ} : {A : Type ℓ} (p : A → Bool) (xs : List A) → any p xs ≡ false → find? p xs ≡ none
none_found p [] h = refl
none_found p (x ∷ xs) h = ground (arith, none_found p xs)

none_left {ℓ} : {A : Type ℓ} (p : A → Bool) (xs : List A) → find? p xs ≡ none → any p xs ≡ false
none_left p [] h = refl
none_left p (x ∷ xs) h = ground (arith, none_left p xs)

module _ {state : String} {id : ℤ} {now : ℕ} {w : World} {after : Db} {answer : Outcome} where
  gone-completed :
      Completion state id now w after answer
      → answer ≡ ok tt
      → find? (has_state (trim_space state)) after.links.intents ≡ none
  gone-completed (unread e _ _ _ failed) done = absurd (ground arith)
  gone-completed (unknown _ _ failed) done = absurd (ground arith)
  gone-completed (expired intent _ _ _ failed) done = absurd (ground arith)
  gone-completed (unwritten intent e _ _ _ _ failed) done = absurd (ground arith)
  gone-completed (kept intent e _ _ _ _ failed) done = absurd (ground arith)
  gone-completed (completed intent _ _ written _) done =
      rw written (find?-filter-not (has_state (trim_space state)) w.db.links.intents)

  refused-gone :
      Completion state id now w after answer
      → find? (has_state (trim_space state)) w.db.links.intents ≡ none
      → (after ≡ w.db) × ((e : Err) × (answer ≡ err e))
  refused-gone (unread e _ _ same failed) gone = (same, (e, failed))
  refused-gone (unknown _ same failed) gone = (same, (setup_intent_not_found, failed))
  refused-gone (expired intent found _ _ _) gone = absurd (ground arith)
  refused-gone (unwritten intent e found _ _ _ _) gone = absurd (ground arith)
  refused-gone (kept intent e found _ _ _ _) gone = absurd (ground arith)
  refused-gone (completed intent found _ _ _) gone = absurd (ground arith)

-- After an installation was completed with a state and without error, and whatever else happened to
-- the tables but that an intent with this state was stored again: completing any installation with
-- that state, up to blanks around it, at any time and whatever store calls fail, gives an error and
-- changes no table.
pub complete_install_once :
    (state state' : String) (id id' : ℤ) (now now' : ℕ) (w later : World)
    → (complete_install state id now w).0 ≡ ok tt
    → trim_space state' ≡ trim_space state
    → (any (has_state (trim_space state)) later.db.links.intents ≡ true
        → any (has_state (trim_space state)) (complete_install state id now w).1.db.links.intents
          ≡ true)
    → ((complete_install state' id' now' later).1.db ≡ later.db)
      × ((e : Err) × ((complete_install state' id' now' later).0 ≡ err e))
complete_install_once state state' id id' now now' w later done same kept_out =
    let gone : any (has_state (trim_space state))
          (complete_install state id now w).1.db.links.intents
        ≡ false =
      none_left (has_state (trim_space state)) (complete_install state id now w).1.db.links.intents
        (gone-completed (complete_install-Completion state id now w) done) in
    let absent : any (has_state (trim_space state)) later.db.links.intents ≡ false =
      elim (Bool-cases (any (has_state (trim_space state)) later.db.links.intents)) [
        | inl again ↦ let back = kept_out again in absurd (ground arith)
        | inr never ↦ never
      ] in
    refused-gone (complete_install-Completion state' id' now' later)
      (rw same (none_found _ later.db.links.intents absent))
