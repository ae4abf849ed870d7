-- ===== src/Catalog/Dependencies/Added.antt =====
-- What adding the dependencies of a text adds.
use ddash.Base.{
  ℕ, suc, ◌+◌, String, ◌==◌, eq_iff, eq_refl, ℤ, int_eq_refl, Bool, true, false, ◌||◌, Option, List,
  [], ◌∷◌, ◌++◌, any, All, length, ◌≡◌, ◌∙◌, inl, inr, arith, Bool-cases, if◌then◌else◌,
}
use ddash.Base.Text.{trim_space, to_lower, is_empty, equal_fold, split_char}
use ddash.Base.Text.Laws.{trim_space_idem, equal_fold_iff}
use ddash.Effect.{ok}
use ddash.Store.{Db, World, call}
use ddash.Store.Queries.{has_organization}
use ddash.Environments.{has}
use ddash.Catalog.Dependencies.Queries.{is_edge}
use ddash.Catalog.Dependencies.Read
use ddash.Catalog.Dependencies.Write.{add_each, upsert_service_dependencies}
use ddash.Catalog.Dependencies.Parsing.{candidates, parse_dependency_inputs, replace_separators}
use ddash.Catalog.Dependencies.Rows.{IsEdge, with_edge, holds, upsert-call, query_lem}

equal_fold_comm : (s t : String) → equal_fold s t ≡ false → equal_fold t s ≡ false
equal_fold_comm s t h = ground (arith, equal_fold_iff s t, equal_fold_iff t s)

-- A dependency as the parser gives it.
record IsClean (service name : String) : Type 0 where
  trimmed : trim_space name ≡ name
  edge : IsEdge service name

candidates-IsClean :
    (service : String) (seen parts : List String)
    → is_empty (trim_space service) ≡ false
    → All (IsClean service) (candidates (trim_space service) seen parts)
unfolding candidates
candidates-IsClean service seen [] named = tt
candidates-IsClean service seen (part ∷ parts) named =
    let rest = candidates-IsClean service seen parts named in
    elim (Bool-cases (is_empty (trim_space part))) [
      | inl blank ↦ rw blank rest
      | inr given ↦ elim (Bool-cases (equal_fold (trim_space part) (trim_space service))) [
        | inl self ↦ rw (given, self) rest
        | inr apart ↦ elim (Bool-cases (has (to_lower (trim_space part)) seen)) [
          | inl known ↦ rw (given, apart, known) rest
          | inr fresh ↦
              rw (given, apart, fresh)
                (
                  record {
                    trimmed = trim_space_idem part;
                    edge = record {
                      named = named;
                      on_some = rw (trim_space_idem part) given;
                      apart =
                          rw (trim_space_idem part)
                            (equal_fold_comm (trim_space part) (trim_space service) apart);
                    };
                  },
                  candidates-IsClean service (to_lower (trim_space part) ∷ seen) parts named,
                )
        ]
      ]
    ]

any-append :
    {A : Type 0} (p : A → Bool) (xs : List A) (x : A) → any p (xs ++ x ∷ []) ≡ any p xs || p x
any-append p [] x = ground arith
any-append p (y ∷ xs) x = ground (arith, any-append p xs x)

-- A world in which no store call fails.
abbrev pub calm : List (Option (ℕ → ℕ)) → Db → World
calm entropy db = record { db = db; faults = []; entropy = entropy }

-- The service depends on a name.
abbrev pub depends : ℤ → String → String → Db → Bool
depends org service name db = any (is_edge org (trim_space service) name) db.dependencies

module _ (org : ℤ) (service : String) (entropy : List (Option (ℕ → ℕ))) where
  step_lem :
      (name : String) (db : Db)
      → IsEdge service name
      → has_organization org db ≡ true
      → Read.upsert_service_dependency org service name (calm entropy db) ≡ (
        ok tt,
        calm entropy (if holds org service name db then db else with_edge org service name db),
      )
  unfolding call
  step_lem name db e known =
      rw (upsert-call org service name e (calm entropy db))
        (elim (Bool-cases (holds org service name db)) [
          | inl there ↦ rw (query_lem org service name e db, there)
          | inr fresh ↦ rw (query_lem org service name e db, fresh, known)
        ])

  abbrev pub after_edge : String → Db → Db
  after_edge name db = if holds org service name db then db else with_edge org service name db

  known-after_edge :
      (name : String) (db : Db)
      → has_organization org db ≡ true
      → has_organization org (after_edge name db) ≡ true
  known-after_edge name db known = elim (Bool-cases (holds org service name db)) [
    | inl there ↦ rw there known
    | inr fresh ↦ rw fresh known
  ]

  depends-after_edge :
      (k name : String) (db : Db)
      → depends org service k (after_edge name db)
        ≡ depends org service k db || trim_space name == k
  depends-after_edge k name db = elim (Bool-cases (holds org service name db)) [
    | inl there ↦ rw there (elim (Bool-cases (trim_space name == k)) [
      | inl same ↦
          let there' : depends org service k db ≡ true = rw ((eq_iff _ _).0 same) at there in
          rw there'
      | inr other ↦ rw other (ground arith)
    ])
    | inr fresh ↦ rw fresh (
        any-append (is_edge org (trim_space service) k) db.dependencies _
        ∙ rw (int_eq_refl org, eq_refl (trim_space service)))
  ]

  adds :
      (names : List String) (added : ℕ) (db : Db)
      → All (IsClean service) names
      → has_organization org db ≡ true
      → (db' : Db) × (add_each org service names added (calm entropy db)
          ≡ ((added + length names, ok tt), calm entropy db'))
        × ((k : String) → depends org service k db' ≡ depends org service k db || has k names)
  unfolding add_each
  adds [] added db clean known =
      (db, (let e : added + 0 ≡ added = omega arith in rw e), λ k. ground arith)
  adds (name ∷ names) added db (clean, cleans) known =
      let (db', run, depend) =
        adds names (suc added) (after_edge name db) cleans (known-after_edge name db known) in
      (
        db',
        rw (step_lem name db clean.edge known) (
            run
            ∙ (let e : suc added + length names ≡ added + suc (length names) = omega arith in
                rw e)),
        λ k. depend k ∙ rw (depends-after_edge k name db, clean.trimmed) (ground arith),
      )

  -- Where no store call fails and the organization is known, adding the dependencies of a text to a
  -- service that is not blank succeeds and counts what was parsed. The service then depends on what
  -- it depended on and on each parsed name, and on nothing else.
  pub upsert_service_dependencies_lem :
      (raw : String) (db : Db)
      → is_empty (trim_space service) ≡ false
      → has_organization org db ≡ true
      → (db' : Db) × (upsert_service_dependencies org service raw (calm entropy db)
          ≡ ((length (parse_dependency_inputs service raw), ok tt), calm entropy db'))
        × ((k : String)
            → depends org service k db'
              ≡ depends org service k db || has k (parse_dependency_inputs service raw))
  unfolding upsert_service_dependencies parse_dependency_inputs
  upsert_service_dependencies_lem raw db named known =
      let names : List String =
        candidates (trim_space service) [] (split_char 44 (replace_separators raw)) in
      let (db', run, depend) =
        adds names 0 db
          (candidates-IsClean service [] (split_char 44 (replace_separators raw)) named) known in
      let e : 0 + length names ≡ length names = omega arith in rw named (db', run ∙ rw e, depend)
