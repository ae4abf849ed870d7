-- ===== src/Events/Log.antt =====
-- The insertion into `event_store`: ON CONFLICT(organization_id, event_source, event_id) DO NOTHING.
use ddash.Base.{ℕ, suc, ◌==◌, int_eq, Bool, ◌&&◌, [], ◌∷◌, ◌++◌, any, if◌then◌else◌}
use ddash.Effect.{no_rows, other, ok, err, Exec}
use ddash.Store.{EventParams, EventRow, EventLog, Db, Projection}
use ddash.Store.Queries.{has_organization}

-- Whether two insertions have the same values in the columns of the unique constraint.
abbrev pub same_key : EventParams → EventParams → Bool
same_key a b =
    int_eq a.organization_id b.organization_id
    && (a.event_source == b.event_source && a.event_id == b.event_id)

abbrev pub has_key : EventParams → EventRow → Bool
has_key p r = same_key r.params p

unfoldable pub store_event : EventParams → EventLog → EventLog
store_event p log = if any (has_key p) log.rows then log else record {
  rows = log.rows ++ (record { seq = log.next_seq; params = p }) ∷ [];
  next_seq = suc log.next_seq;
}

-- `RETURNING seq` gives no row where the insertion did nothing; an insertion must meet the foreign
-- key of `organization_id`.
unfoldable pub append_event_store : EventParams → Exec Db ℕ
unfolding store_event
append_event_store p db =
    if any (has_key p) db.log.rows
    then (err no_rows, db)
    else if has_organization p.organization_id db
    then (ok db.log.next_seq, record db { log = store_event p db.log })
    else (err (other "FOREIGN KEY constraint failed"), db)

unfoldable pub project : Projection → Exec Db Unit
project p db = (ok tt, record db { projected = db.projected ++ p ∷ [] })
