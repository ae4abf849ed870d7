-- ===== src/Publisher/Build/Qualified.antt =====
-- The subjects that built events get.
use Prim.Native.String.{◌++◌}
use package.text.Mathlib.TextLemmas.{nil-append, cons-append}
use ddash.Base.{
  String, Bool, true, false, ◌≡◌, refl, ap, sym, ◌∙◌, arith, ◌⊎◌, inl, inr, Bool-cases,
  Option-cases, if◌then◌else◌,
}
use ddash.Base.Text.{trim_space, is_empty, contains, has_prefix}
use ddash.Base.Text.Prefix.{has_prefix-append}
use ddash.Effect.{Err, Result, ok, err, Result-cases}
use ddash.Ingest.Sdk.{Bytes}
use ddash.Ingest.Validate.{and_then}
use ddash.Publisher.{
  Event, Kind, service_deployed, service_upgraded, service_rolledback, service_removed,
  service_published, environment_created, environment_modified, environment_deleted, Json, text,
  object, Members, done, member, Now, Cdevents, switch, normalize_type, infer_subject_type,
  is_accepted_custom_type, generic_payload,
}
use ddash.Publisher.Build.{
  kinds, resolved_event, qualified_subject, published, build_kind, build_custom, build_resolved,
  build_event_body,
}

contains-prefixed : (s p : String) → has_prefix s p ≡ true → contains s p ≡ true
unfolding contains has_prefix
contains-prefixed String.[] String.[] h = refl
contains-prefixed String.[] (String.◌∷◌ c p) h = ground (arith, h)
contains-prefixed (String.◌∷◌ c s) p h = rw h refl

contains-slash : (s t : String) → contains (s ++ "/" ++ t) "/" ≡ true
unfolding contains
contains-slash String.[] t =
    rw (nil-append ("/" ++ t)) (contains-prefixed ("/" ++ t) "/" (has_prefix-append "/" t))
contains-slash (String.◌∷◌ c s) t =
    rw (cons-append c s ("/" ++ t)) (ground (arith, contains-slash s t))

is_empty-choice :
    (test : Bool) (s t : String)
    → is_empty s ≡ false
    → is_empty t ≡ false
    → is_empty (if test then s else t) ≡ false
is_empty-choice true s t h k = h
is_empty-choice false s t h k = k

infer_subject_type-full : (t : String) → is_empty (infer_subject_type t) ≡ false
unfolding infer_subject_type
infer_subject_type-full t = is_empty-choice (has_prefix t "service.") "service" _ refl (
    is_empty-choice (has_prefix t "environment.") "environment" _ refl (
      is_empty-choice (contains t ".pipeline.") "pipeline" _ refl (
        is_empty-choice (contains t ".change.") "change" _ refl (
          is_empty-choice (contains t ".artifact.") "artifact" _ refl
            (is_empty-choice (contains t ".incident.") "incident" "service" refl refl)))))

qualified_subject-contains :
    (kind id : String) → is_empty kind ≡ false → contains (qualified_subject kind id) "/" ≡ true
qualified_subject-contains kind id h = elim (Bool-cases (contains id "/")) [
  | inl e ↦ rw e e
  | inr e ↦ rw (e, h) (contains-slash kind id)
]

resolved_type-full :
    (now : Now) (event : Event) → is_empty (resolved_event now event).subject_type ≡ false
resolved_type-full now event = elim (Bool-cases (is_empty (trim_space event.subject_type))) [
  | inl e ↦ rw e (infer_subject_type-full (normalize_type event.event_type))
  | inr e ↦ rw e e
]

-- What a draft holds as its subject id: what was set, and no other setter changes it.
pub record Subjects (c : Cdevents) : Type 0 where
  pub subject_of : c.Draft → String
  pub set : (s : String) (d : c.Draft) → subject_of (c.set_subject_id s d) ≡ s
  pub environment_keeps :
      (s : String) (d : c.Draft) → subject_of (c.set_subject_environment s d) ≡ subject_of d
  pub artifact_keeps :
      (s : String) (d : c.Draft) → subject_of (c.set_subject_artifact_id s d) ≡ subject_of d

-- The answer is an error, or the bytes of a draft or of a payload whose subject id has a slash.
abbrev pub IsQualified : (c : Cdevents) → Subjects c → Result (Bytes × String) → Type 0
IsQualified c l r =
    ((e : Err) × (r ≡ err e))
    ⊎ (((d : c.Draft) × (body : Bytes) × (t : String) × (c.as_json_bytes d ≡ ok body)
          × (contains (l.subject_of d) "/" ≡ true)
          × (r ≡ ok (body, t)))
        ⊎ ((context : Json) × (id : String) × (rest : Members) × (body : Bytes) × (t : String)
            × (c.marshal (
                  object (
                    member "context" context
                      (member "subject" (object (member "id" (text id) rest)) done)))
                ≡ ok body)
            × (contains id "/" ≡ true)
            × (r ≡ ok (body, t))))

guarded-IsQualified :
    (c : Cdevents) (l : Subjects c) (test : Bool) (e : Err) (r : Result (Bytes × String))
    → IsQualified c l r
    → IsQualified c l (if test then err e else r)
guarded-IsQualified c l true e r h = inl (e, refl)
guarded-IsQualified c l false e r h = h

published-IsQualified :
    (c : Cdevents) (l : Subjects c) (k : Kind) (fill : c.Draft → c.Draft)
    → ((d : c.Draft) → contains (l.subject_of (fill d)) "/" ≡ true)
    → IsQualified c l (published c k fill)
published-IsQualified c l k fill h = elim (Result-cases (c.new_event k)) [
  | inl (e, failed) ↦ rw failed (inl (e, refl))
  | inr (d, made) ↦ elim (Result-cases (c.as_json_bytes (fill d))) [
    | inl (e, failed) ↦ rw (made, failed) (inl (e, refl))
    | inr (body, sent) ↦ rw (made, sent) (inr (inl (fill d, body, c.type_name k, sent, h d, refl)))
  ]
]

build_kind-IsQualified :
    (c : Cdevents) (l : Subjects c) (e : Event) (subject : String) (k : Kind)
    → contains subject "/" ≡ true
    → IsQualified c l (build_kind c e subject k)
build_kind-IsQualified c l e subject service_deployed h =
    guarded-IsQualified c l _ _ _
      (published-IsQualified c l _ _ (λ d. rw (l.artifact_keeps, l.environment_keeps, l.set) h))
build_kind-IsQualified c l e subject service_upgraded h =
    guarded-IsQualified c l _ _ _
      (published-IsQualified c l _ _ (λ d. rw (l.artifact_keeps, l.environment_keeps, l.set) h))
build_kind-IsQualified c l e subject service_rolledback h =
    guarded-IsQualified c l _ _ _
      (published-IsQualified c l _ _ (λ d. rw (l.artifact_keeps, l.environment_keeps, l.set) h))
build_kind-IsQualified c l e subject service_removed h =
    guarded-IsQualified c l _ _ _
      (published-IsQualified c l _ _ (λ d. rw (l.environment_keeps, l.set) h))
build_kind-IsQualified c l e subject service_published h =
    guarded-IsQualified c l _ _ _
      (published-IsQualified c l _ _ (λ d. rw (l.environment_keeps, l.set) h))
build_kind-IsQualified c l e subject environment_created h =
    guarded-IsQualified c l _ _ _ (published-IsQualified c l _ _ (λ d. rw (l.set) h))
build_kind-IsQualified c l e subject environment_modified h =
    guarded-IsQualified c l _ _ _ (published-IsQualified c l _ _ (λ d. rw (l.set) h))
build_kind-IsQualified c l e subject environment_deleted h =
    guarded-IsQualified c l _ _ _ (published-IsQualified c l _ _ (λ d. rw (l.set) h))

payload-IsQualified :
    (c : Cdevents) (l : Subjects c) (json context : Json) (id : String) (rest : Members)
    (t : String)
    → json
      ≡ object
          (member "context" context (member "subject" (object (member "id" (text id) rest)) done))
    → contains id "/" ≡ true
    → IsQualified c l (and_then (c.marshal json) (λ body. ok (body, t)))
payload-IsQualified c l json context id rest t same h = elim (Result-cases (c.marshal json)) [
  | inl (e, failed) ↦ rw failed (inl (e, refl))
  | inr (body, sent) ↦
      rw sent
        (inr (inr (context, id, rest, body, t, ap (λ j. c.marshal j) (sym same) ∙ sent, h, refl)))
]

build_custom-IsQualified :
    (c : Cdevents) (l : Subjects c) (now : Now) (raw : String) (e : Event) (subject : String)
    → contains subject "/" ≡ true
    → IsQualified c l (build_custom c now raw e subject)
unfolding generic_payload
build_custom-IsQualified c l now raw e subject h =
    elim (Bool-cases (is_accepted_custom_type e.event_type)) [
      | inr foreign ↦ rw foreign (inl (_, refl))
      | inl accepted ↦ rw accepted (payload-IsQualified c l _ _ subject _ _ refl h)
    ]

build_resolved-IsQualified :
    (c : Cdevents) (l : Subjects c) (now : Now) (raw : String) (e : Event)
    → is_empty e.subject_type ≡ false
    → IsQualified c l (build_resolved c now raw e)
build_resolved-IsQualified c l now raw e typed =
    let slash = qualified_subject-contains e.subject_type e.subject_id typed in
    guarded-IsQualified c l (is_empty e.subject_id) _ _
      (elim (Option-cases (switch e.event_type kinds)) [
        | inl unknown ↦ rw unknown (build_custom-IsQualified c l now raw e _ slash)
        | inr (k, found) ↦ rw found (build_kind-IsQualified c l e _ k slash)
      ])

-- Where a draft keeps the subject id that was set: building an event gives an error, or the bytes of
-- a draft or of a payload whose subject id has a slash.
pub build_event_body-IsQualified :
    (c : Cdevents) (l : Subjects c) (now : Now) (event : Event)
    → IsQualified c l (build_event_body c now event)
unfolding build_event_body
build_event_body-IsQualified c l now event =
    build_resolved-IsQualified c l now event.event_type (resolved_event now event)
      (resolved_type-full now event)
