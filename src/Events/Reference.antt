-- ===== src/Events/Reference.antt =====
-- What appending events should leave in the tables: the rows of the events whose key is new, in their
-- order, and behind the statements that were run before, those of each new row.
use mathlib.Core.List.{append_assoc, append-nil}
use ddash.Base.{
  ℕ, suc, ◌+◌, ◌==◌, false, List, [], ◌∷◌, ◌++◌, any, length, All, ◌≡◌, refl, ap, sym, ◌∙◌, inl,
  inr, arith, Bool-cases, if◌then◌else◌,
}
use ddash.Base.Text.{trim_space, to_lower, is_empty}
use ddash.Store.{
  EventParams, EventRow, Db, Projection, env_state, delivery_stats, change_link, current_state,
}
use ddash.Events.Log.{has_key, store_event}
use ddash.Events.Laws.{IsStored, store_events, store_event_known}
use ddash.Events.Append.{service_name_from_subject_id}

-- The statements that a new row of a service needs, and no other row.
abbrev pub statements : EventRow → List Projection
statements r =
    if trim_space (to_lower r.params.subject_type) == "service"
    then env_state r.params.organization_id r.seq
      ∷ delivery_stats r.params.organization_id r.seq
      ∷ change_link r.params.organization_id r.seq
      ∷ (if is_empty (service_name_from_subject_id r.params.subject_id)
          then []
          else current_state r.params.organization_id
              (service_name_from_subject_id r.params.subject_id)
            ∷ [])
    else []

abbrev pub all_statements : List EventRow → List Projection
all_statements [] = []
all_statements (r ∷ rows) = statements r ++ all_statements rows

-- The rows of the events whose key is neither known nor met before, with their numbers.
abbrev pub fresh_rows : List EventRow → ℕ → List EventParams → List EventRow
fresh_rows known seq [] = []
fresh_rows known seq (p ∷ ps) =
    let row : EventRow = record { seq = seq; params = p } in
    let skipped = fresh_rows known seq ps in
    let kept = row ∷ fresh_rows (known ++ row ∷ []) (suc seq) ps in
    if any (has_key p) known then skipped else kept

abbrev pub appended : List EventParams → Db → Db
appended ps db =
    let rows = fresh_rows db.log.rows db.log.next_seq ps in
    record db {
      log = record { rows = db.log.rows ++ rows; next_seq = db.log.next_seq + length rows };
      projected = db.projected ++ all_statements rows;
    }

abbrev pub with_statements : List Projection → Db → Db
with_statements [] db = db
with_statements (p ∷ ps) db = with_statements ps (record db { projected = db.projected ++ p ∷ [] })

with_statements_lem :
    (ps : List Projection) (db : Db)
    → with_statements ps db ≡ record db { projected = db.projected ++ ps }
with_statements_lem [] db = ap (λ l. record db { projected = l }) (sym (append-nil db.projected))
with_statements_lem (p ∷ ps) db =
    with_statements_lem ps (record db { projected = db.projected ++ p ∷ [] })
    ∙ ap (λ l. record db { projected = l }) (append_assoc db.projected (p ∷ []) ps)

-- The row that an insertion makes.
abbrev pub next_row : EventParams → Db → EventRow
next_row p db = record { seq = db.log.next_seq; params = p }

-- One event after the other.
abbrev pub append_one : EventParams → Db → Db
append_one p db =
    let stored =
      with_statements (statements (next_row p db)) (record db { log = store_event p db.log }) in
    if any (has_key p) db.log.rows then db else stored

abbrev pub append_each : List EventParams → Db → Db
append_each [] db = db
append_each (p ∷ ps) db = append_each ps (append_one p db)

append_one-log : (p : EventParams) (db : Db) → (append_one p db).log ≡ store_event p db.log
append_one-log p db = elim (Bool-cases (any (has_key p) db.log.rows)) [
  | inl known ↦ rw known (sym (store_event_known p db.log known))
  | inr fresh ↦
      rw
        (
          fresh,
          with_statements_lem (statements (next_row p db))
              (record db { log = store_event p db.log }),
        )
        refl
]

pub append_each-log :
    (ps : List EventParams) (db : Db) → (append_each ps db).log ≡ store_events ps db.log
append_each-log [] db = refl
append_each-log (p ∷ ps) db =
    append_each-log ps (append_one p db) ∙ ap (store_events ps) (append_one-log p db)

-- Events that are all known change no table.
pub append_each_known :
    (ps : List EventParams) (db : Db) → All (IsStored db.log) ps → append_each ps db ≡ db
append_each_known [] db h = refl
append_each_known (p ∷ ps) db (known, rest) = rw known (append_each_known ps db rest)

abbrev with_rows : Db → List EventRow → ℕ → List Projection → Db
with_rows db rows next ps = record db {
  log = record { rows = rows; next_seq = next };
  projected = ps;
}

append_one_fresh :
    (p : EventParams) (db : Db)
    → any (has_key p) db.log.rows ≡ false
    → append_one p db
      ≡ with_rows db
          (db.log.rows ++ next_row p db ∷ [])
          (suc db.log.next_seq)
          (db.projected ++ statements (next_row p db))
unfolding store_event
append_one_fresh p db fresh = rw fresh (
    with_statements_lem (statements (next_row p db))
      (with_rows db (db.log.rows ++ next_row p db ∷ []) (suc db.log.next_seq) db.projected))

join_rows :
    (db : Db) (r : EventRow) (rows : List EventRow) (n : ℕ) (ps qs : List Projection)
    → with_rows db
        ((db.log.rows ++ r ∷ []) ++ rows)
        (suc db.log.next_seq + n)
        ((db.projected ++ ps) ++ qs)
      ≡ with_rows db
          (db.log.rows ++ r ∷ rows)
          (db.log.next_seq + suc n)
          (db.projected ++ (ps ++ qs))
join_rows db r rows n ps qs =
    let next : suc db.log.next_seq + n ≡ db.log.next_seq + suc n = omega arith in
    rw (append_assoc db.log.rows (r ∷ []) rows, append_assoc db.projected ps qs, next) refl

pub append_each-appended : (ps : List EventParams) (db : Db) → append_each ps db ≡ appended ps db
append_each-appended [] db =
    let next : db.log.next_seq + 0 ≡ db.log.next_seq = omega arith in
    rw (append-nil db.log.rows, append-nil db.projected, next) refl
append_each-appended (p ∷ ps) db = elim (Bool-cases (any (has_key p) db.log.rows)) [
  | inl known ↦ rw known (append_each-appended ps db)
  | inr fresh ↦
      let row = next_row p db in
      let later = fresh_rows (db.log.rows ++ row ∷ []) (suc db.log.next_seq) ps in
      let here : append_each ps (append_one p db)
          ≡ with_rows db (db.log.rows ++ row ∷ later) (db.log.next_seq + suc (length later))
              (db.projected ++ (statements row ++ all_statements later)) =
        ap (append_each ps) (append_one_fresh p db fresh)
        ∙ append_each-appended ps (
            with_rows db (db.log.rows ++ row ∷ []) (suc db.log.next_seq)
              (db.projected ++ statements row))
        ∙ join_rows db row later (length later) (statements row) (all_statements later) in
      let there = rw fresh at here in rw fresh there
]
