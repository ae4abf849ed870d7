-- ===== src/Catalog/Dependencies/Kept.antt =====
-- Whatever is written, the table holds an edge once, and none from a service to itself.
use ddash.Base.{
  ℕ, suc, ◌≤◌, String, eq_iff, ℤ, int_eq_iff, Bool, true, false, List, [], ◌∷◌, any, count,
  count-append, All, All-append, ◌≡◌, refl, inl, inr, arith, Bool-cases,
}
use ddash.Base.Text.{trim_space, is_empty, equal_fold}
use ddash.Effect.{Result-cases}
use ddash.Store.{DependencyRow, Db, World}
use ddash.Catalog.Dependencies.Queries.{is_edge, new_edge}
use ddash.Catalog.Dependencies.Read
use ddash.Catalog.Dependencies.Write.{add_each, upsert_service_dependencies}
use ddash.Catalog.Dependencies.Parsing.{parse_dependency_inputs}
use ddash.Catalog.Dependencies.Rows.{IsEdge, with_edge, holds, upsert_cases}

-- Two different services with names.
pub record IsProperRow (r : DependencyRow) : Type 0 where
  pub named : is_empty r.service_name ≡ false
  pub on_some : is_empty r.depends_on_service_name ≡ false
  pub apart : equal_fold r.service_name r.depends_on_service_name ≡ false

pub record IsProper (db : Db) : Type 0 where
  pub rows : All IsProperRow db.dependencies
  pub once :
      (org : ℤ) (service depends_on : String)
      → count (is_edge org service depends_on) db.dependencies ≤ 1

count-none {ℓ} : {A : Type ℓ} (p : A → Bool) (xs : List A) → any p xs ≡ false → count p xs ≡ 0
count-none p [] h = refl
count-none p (x ∷ xs) h = ground (arith, count-none p xs)

-- The edge that a row is.
is_edge-eq :
    (org : ℤ) (service depends_on : String) (r : DependencyRow)
    → is_edge org service depends_on r ≡ true
    → (r.organization_id ≡ org)
      × (r.service_name ≡ service)
      × (r.depends_on_service_name ≡ depends_on)
is_edge-eq org service depends_on r h = ground (
  arith,
  int_eq_iff r.organization_id org,
  eq_iff r.service_name service,
  eq_iff r.depends_on_service_name depends_on,
)

with_edge-IsProper :
    (org : ℤ) (service depends_on : String) (db : Db)
    → IsEdge service depends_on
    → holds org service depends_on db ≡ false
    → IsProper db
    → IsProper (with_edge org service depends_on db)
with_edge-IsProper org service depends_on db e fresh proper =
    let edge : DependencyRow = new_edge org (trim_space service) (trim_space depends_on) in
    record {
      rows =
          All-append IsProperRow db.dependencies _ proper.rows
            (record { named = e.named; on_some = e.on_some; apart = e.apart }, tt);
      once = λ o s d.
          rw (count-append (is_edge o s d) db.dependencies (edge ∷ []))
            (elim (Bool-cases (is_edge o s d edge)) [
              | inl same ↦
                  let (same_org, same_service, same_on) = is_edge-eq o s d edge same in
                  let unheld : count (is_edge o s d) db.dependencies ≡ 0 =
                    rw (same_org, same_service, same_on) at
                      (count-none (is_edge org (trim_space service) (trim_space depends_on))
                        db.dependencies fresh) in
                  rw same (omega (arith, unheld))
              | inr other ↦ rw other (omega (arith, proper.once o s d))
            ]);
    }

write-IsProper :
    (org : ℤ) (service depends_on : String) (w : World)
    → IsProper w.db
    → IsProper (Read.upsert_service_dependency org service depends_on w).1.db
write-IsProper org service depends_on w proper = elim (upsert_cases org service depends_on w) [
  | inl same ↦ rw same proper
  | inr (e, fresh, written) ↦
      rw written (with_edge-IsProper org service depends_on w.db e fresh proper)
]

add_each-IsProper :
    (org : ℤ) (service : String) (names : List String) (added : ℕ) (w : World)
    → IsProper w.db
    → IsProper (add_each org service names added w).1.db
unfolding add_each
add_each-IsProper org service [] added w proper = proper
add_each-IsProper org service (d ∷ ds) added w proper =
    let next : IsProper (Read.upsert_service_dependency org service d w).1.db =
      write-IsProper org service d w proper in
    elim (Result-cases (Read.upsert_service_dependency org service d w).0) [
      | inl (e, failed) ↦ rw failed next
      | inr (_, passed) ↦ rw passed (add_each-IsProper org service ds (suc added) _ next)
    ]

-- Adding dependencies from any text, whatever store calls fail, leaves a table that holds each edge
-- at most once, and only edges between two services with names that differ in more than the case
-- of their letters, if it was such a table.
pub upsert_service_dependencies-IsProper :
    (org : ℤ) (service raw : String) (w : World)
    → IsProper w.db
    → IsProper (upsert_service_dependencies org service raw w).1.db
unfolding upsert_service_dependencies
upsert_service_dependencies-IsProper org service raw w proper =
    add_each-IsProper org service (parse_dependency_inputs service raw) 0 w proper
