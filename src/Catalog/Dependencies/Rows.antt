-- ===== src/Catalog/Dependencies/Rows.antt =====
-- What one write of a dependency does to the table.
use Prim.Native.String as Str
use ddash.Base.{
  String, ◌==◌, eq_iff, ℤ, Bool, true, false, [], ◌∷◌, ◌++◌, any, ◌≡◌, refl, ap, ◌⊎◌, inl, inr,
  arith, Bool-cases, if◌then◌else◌,
}
use ddash.Base.Text.{trim_space, trim_left, trim_right, to_lower, is_empty, is_space, equal_fold}
use ddash.Base.Text.Laws.{trim_space_idem, equal_fold_iff}
use ddash.Effect.{ok, err, other, pure}
use ddash.Store.{Db, World, call}
use ddash.Store.Calls.{call_cases}
use ddash.Store.Queries.{has_organization}
use ddash.Catalog.Dependencies.Queries
use ddash.Catalog.Dependencies.Queries.{is_edge, new_edge, only_spaces}
use ddash.Catalog.Dependencies.Adapter
use ddash.Catalog.Dependencies.Read

only_spaces-blank : (s : String) → only_spaces s ≡ true → trim_left s ≡ ""
unfolding trim_left is_space
only_spaces-blank Str.[] h = refl
only_spaces-blank (Str.◌∷◌ c s) h = ground (arith, only_spaces-blank s)

-- A text that trimming leaves, and that is not empty, meets the CHECK constraint.
only_spaces-solid : (s : String) → is_empty (trim_space s) ≡ false → only_spaces s ≡ false
unfolding trim_space trim_right
only_spaces-solid s h = elim (Bool-cases (only_spaces s)) [
  | inl blank ↦
      let wrong : true ≡ false = rw (only_spaces-blank s blank) at h in absurd (ground arith)
  | inr solid ↦ solid
]

self-equal_fold : (s t : String) → equal_fold s t ≡ false → (s == t) ≡ false
self-equal_fold s t h = ground (arith, eq_iff s t, equal_fold_iff s t, ap to_lower)

-- Neither name is blank, and the service is not the one that it depends on.
pub record IsEdge (service depends_on : String) : Type 0 where
  pub named : is_empty (trim_space service) ≡ false
  pub on_some : is_empty (trim_space depends_on) ≡ false
  pub apart : equal_fold (trim_space service) (trim_space depends_on) ≡ false

module _ (org : ℤ) (service depends_on : String) where
  abbrev pub with_edge : Db → Db
  with_edge db = record db {
    dependencies =
        db.dependencies ++ new_edge org (trim_space service) (trim_space depends_on) ∷ [];
  }

  abbrev pub holds : Db → Bool
  holds db = any (is_edge org (trim_space service) (trim_space depends_on)) db.dependencies

  module _ (e : IsEdge service depends_on) where
    -- The guards of both services let an edge through to the query.
    pub upsert-call :
        (w : World)
        → Read.upsert_service_dependency org service depends_on w
          ≡ call
              (Queries.upsert_service_dependency org (trim_space service) (trim_space depends_on))
              w
    unfolding Read.upsert_service_dependency Adapter.upsert_service_dependency
    upsert-call w = rw (
      e.named,
      e.on_some,
      e.apart,
      trim_space_idem service,
      trim_space_idem depends_on,
      e.named,
      e.on_some,
      e.apart,
    )

    pub query_lem :
        (db : Db)
        → Queries.upsert_service_dependency org (trim_space service) (trim_space depends_on) db ≡ (
            if holds db
            then (ok tt, db)
            else if has_organization org db
            then (ok tt, with_edge db)
            else (err (other "FOREIGN KEY constraint failed"), db))
    unfolding Queries.upsert_service_dependency
    query_lem db = rw (
      only_spaces-solid (trim_space service) (rw (trim_space_idem service) e.named),
      only_spaces-solid (trim_space depends_on) (rw (trim_space_idem depends_on) e.on_some),
      self-equal_fold (trim_space service) (trim_space depends_on) e.apart,
    )

    edge_cases :
        (w : World)
        → ((Read.upsert_service_dependency org service depends_on w).1.db ≡ w.db)
          ⊎ ((holds w.db ≡ false)
              × ((Read.upsert_service_dependency org service depends_on w).1.db ≡ with_edge w.db))
    edge_cases w =
        rw (upsert-call w)
          (elim (call_cases
            (Queries.upsert_service_dependency org (trim_space service) (trim_space depends_on))
            w) [
              | inl (_, _, failed) ↦ inl (rw failed)
              | inr answer ↦
                  rw (answer, query_lem w.db)
                    (elim (Bool-cases (holds w.db)) [
                      | inl there ↦ rw there (inl refl)
                      | inr fresh ↦ elim (Bool-cases (has_organization org w.db)) [
                        | inl known ↦ rw (fresh, known) (inr (refl, refl))
                        | inr unknown ↦ rw (fresh, unknown) (inl refl)
                      ]
                    ])
            ])

  -- A write leaves the tables alone, or adds a new edge between two different services.
  pub upsert_cases :
      (w : World)
      → ((Read.upsert_service_dependency org service depends_on w).1.db ≡ w.db)
        ⊎ (IsEdge service depends_on
            × (holds w.db ≡ false)
            × ((Read.upsert_service_dependency org service depends_on w).1.db ≡ with_edge w.db))
  unfolding Read.upsert_service_dependency pure
  upsert_cases w = elim (Bool-cases (is_empty (trim_space service))) [
    | inl unnamed ↦ rw unnamed (inl refl)
    | inr named ↦ elim (Bool-cases (is_empty (trim_space depends_on))) [
      | inl blank ↦ rw (named, blank) (inl refl)
      | inr on_some ↦ elim (Bool-cases (equal_fold (trim_space service) (trim_space depends_on))) [
        | inl self ↦ rw (named, on_some, self) (inl refl)
        | inr apart ↦
            let e : IsEdge service depends_on = record {
              named = named;
              on_some = on_some;
              apart = apart;
            } in
            elim (edge_cases e w) [
              | inl same ↦ inl same
              | inr (fresh, written) ↦ inr (e, fresh, written)
            ]
      ]
    ]
  ]
