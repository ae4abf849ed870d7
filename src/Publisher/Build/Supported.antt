-- ===== src/Publisher/Build/Supported.antt =====
-- The ingestion supports the type of each event that is built.
use ddash.Base.{
  String, ◌==◌, eq_iff, Bool, true, false, none, some, List, [], ◌∷◌, any, map, ◌≡◌, not,
  if◌then◌else◌, Option-cases, refl, arith, ◌⊎◌, inl, inr, Bool-cases,
}
use ddash.Base.Text.{trim_space, to_lower, is_empty, has_prefix}
use ddash.Base.Text.Laws.{to_lower_idem}
use ddash.Effect.{Err, Result, ok, err}
use ddash.Ingest.Sdk.{Bytes, Sdk}
use ddash.Ingest.Validate.Types.{prefixed_non_empty}
use ddash.Ingest.Validate.{allowed_type_prefixes, and_then, is_supported_event_type}
use ddash.Publisher.{
  Event, Kind, service_deployed, service_upgraded, service_rolledback, service_removed,
  service_published, environment_created, environment_modified, environment_deleted, Now, Cdevents,
  switch, normal_types, normalize_type, is_accepted_custom_type,
}
use ddash.Publisher.Build.{
  kinds, resolved_event, published, build_kind, build_custom, build_resolved, build_event_body,
}

-- A switch finds nothing, or a value with what every row has.
switch_cases :
    {A : Type 0} (test : A → Bool) (name : String) (rows : List (String × A))
    → any (λ row. not (test row.1)) rows ≡ false
    → (switch name rows ≡ none) ⊎ ((a : A) × (switch name rows ≡ some a) × (test a ≡ true))
unfolding switch
switch_cases test name [] h = inl refl
switch_cases test name (row ∷ rows) h = elim (Bool-cases (row.0 == name)) [
  | inl e ↦ inr (row.1, rw e refl, ground (arith, h))
  | inr e ↦ rw e (switch_cases test name rows (ground (arith, h)))
]

normal_types_small : any (λ row. not (to_lower row.1 == row.1)) normal_types ≡ false
unfolding to_lower
normal_types_small = refl

to_lower-normalize_type : (value : String) → to_lower (normalize_type value) ≡ normalize_type value
unfolding normalize_type
to_lower-normalize_type value =
    let v = to_lower (trim_space value) in
    let small : any (λ row. not (to_lower row.1 == row.1)) normal_types ≡ false =
      normal_types_small in
    elim (switch_cases (λ s. to_lower s == s) v normal_types small) [
      | inl e ↦ rw (e, normalize_type) (to_lower_idem (trim_space value))
      | inr (s, e, same) ↦ rw (e, normalize_type) ((eq_iff _ _).0 same)
    ]

-- All the kinds of events.
abbrev pub all_kinds : List Kind
all_kinds =
    environment_created ∷ environment_modified ∷ environment_deleted ∷ service_deployed
    ∷ service_upgraded ∷ service_rolledback ∷ service_removed ∷ service_published ∷ []

eq_refl : (s : String) → (s == s) ≡ true
eq_refl s = (eq_iff s s).1 refl

named : (name : Kind → String) (k : Kind) → any (λ d. d == name k) (map name all_kinds) ≡ true
named name service_deployed = rw (eq_refl (name service_deployed)) (ground arith)
named name service_upgraded = rw (eq_refl (name service_upgraded)) (ground arith)
named name service_rolledback = rw (eq_refl (name service_rolledback)) (ground arith)
named name service_removed = rw (eq_refl (name service_removed)) (ground arith)
named name service_published = rw (eq_refl (name service_published)) (ground arith)
named name environment_created = rw (eq_refl (name environment_created)) refl
named name environment_modified = rw (eq_refl (name environment_modified)) (ground arith)
named name environment_deleted = rw (eq_refl (name environment_deleted)) (ground arith)

-- What the ingestion and the publisher share: the names of the types, none of them blank.
abbrev pub SameTypes : Cdevents → Sdk → Type 0
SameTypes c sdk =
    (sdk.delivery_types ≡ map c.type_name all_kinds)
    × ((k : Kind)
        → (trim_space (c.type_name k) ≡ c.type_name k) × (is_empty (c.type_name k) ≡ false))

type_name-is_supported :
    (c : Cdevents) (sdk : Sdk) (k : Kind)
    → SameTypes c sdk
    → is_supported_event_type sdk (c.type_name k) ≡ true
unfolding is_supported_event_type
type_name-is_supported c sdk k (types, solid) =
    rw (types, (solid k).0, (solid k).1, named c.type_name k) refl

-- An accepted text in small letters is supported.
accepted-is_supported :
    (sdk : Sdk) (t : String)
    → to_lower t ≡ t
    → is_accepted_custom_type t ≡ true
    → is_supported_event_type sdk t ≡ true
unfolding is_supported_event_type is_accepted_custom_type
accepted-is_supported sdk t small h =
    let prefixed : any (λ prefix. has_prefix (trim_space t) prefix) allowed_type_prefixes ≡ true =
      let spelled = rw small at h in ground (arith, spelled) in
    rw (prefixed_non_empty (trim_space t) prefixed, prefixed) (ground arith)

-- The answer is an error, or a body with a type that the ingestion supports.
abbrev pub IsSupported : Sdk → Result (Bytes × String) → Type 0
IsSupported sdk r =
    ((e : Err) × (r ≡ err e))
    ⊎ ((body : Bytes) × (t : String) × (r ≡ ok (body, t)) × (is_supported_event_type sdk t ≡ true))

and_then-IsSupported :
    {A : Type 0} (sdk : Sdk) (r : Result A) (next : A → Result (Bytes × String))
    → ((a : A) → IsSupported sdk (next a))
    → IsSupported sdk (and_then r next)
and_then-IsSupported sdk (ok a) next h = h a
and_then-IsSupported sdk (err e) next h = inl (e, refl)

published-IsSupported :
    (c : Cdevents) (sdk : Sdk) (k : Kind) (fill : c.Draft → c.Draft)
    → SameTypes c sdk
    → IsSupported sdk (published c k fill)
published-IsSupported c sdk k fill same = and_then-IsSupported sdk (c.new_event k) _ (λ draft.
    and_then-IsSupported sdk (c.as_json_bytes (fill draft)) _
      (λ body. inr (body, c.type_name k, refl, type_name-is_supported c sdk k same)))

guarded-IsSupported :
    (sdk : Sdk) (test : Bool) (e : Err) (r : Result (Bytes × String))
    → IsSupported sdk r
    → IsSupported sdk (if test then err e else r)
guarded-IsSupported sdk true e r h = inl (e, refl)
guarded-IsSupported sdk false e r h = h

build_kind-IsSupported :
    (c : Cdevents) (sdk : Sdk) (e : Event) (subject : String) (k : Kind)
    → SameTypes c sdk
    → IsSupported sdk (build_kind c e subject k)
build_kind-IsSupported c sdk e subject service_deployed same =
    guarded-IsSupported sdk _ _ _ (published-IsSupported c sdk _ _ same)
build_kind-IsSupported c sdk e subject service_upgraded same =
    guarded-IsSupported sdk _ _ _ (published-IsSupported c sdk _ _ same)
build_kind-IsSupported c sdk e subject service_rolledback same =
    guarded-IsSupported sdk _ _ _ (published-IsSupported c sdk _ _ same)
build_kind-IsSupported c sdk e subject service_removed same =
    guarded-IsSupported sdk _ _ _ (published-IsSupported c sdk _ _ same)
build_kind-IsSupported c sdk e subject service_published same =
    guarded-IsSupported sdk _ _ _ (published-IsSupported c sdk _ _ same)
build_kind-IsSupported c sdk e subject environment_created same =
    guarded-IsSupported sdk _ _ _ (published-IsSupported c sdk _ _ same)
build_kind-IsSupported c sdk e subject environment_modified same =
    guarded-IsSupported sdk _ _ _ (published-IsSupported c sdk _ _ same)
build_kind-IsSupported c sdk e subject environment_deleted same =
    guarded-IsSupported sdk _ _ _ (published-IsSupported c sdk _ _ same)

build_custom-IsSupported :
    (c : Cdevents) (sdk : Sdk) (now : Now) (raw : String) (e : Event) (subject : String)
    → to_lower e.event_type ≡ e.event_type
    → IsSupported sdk (build_custom c now raw e subject)
build_custom-IsSupported c sdk now raw e subject small =
    elim (Bool-cases (is_accepted_custom_type e.event_type)) [
      | inl accepted ↦ rw accepted (
          and_then-IsSupported sdk _ _ (λ body.
            inr (body, e.event_type, refl, accepted-is_supported sdk e.event_type small accepted)))
      | inr other ↦ rw other (inl (_, refl))
    ]

build_resolved-IsSupported :
    (c : Cdevents) (sdk : Sdk) (now : Now) (raw : String) (e : Event)
    → SameTypes c sdk
    → to_lower e.event_type ≡ e.event_type
    → IsSupported sdk (build_resolved c now raw e)
build_resolved-IsSupported c sdk now raw e same small =
    guarded-IsSupported sdk (is_empty e.subject_id) _ _
      (elim (Option-cases (switch e.event_type kinds)) [
        | inl none_named ↦ rw none_named (build_custom-IsSupported c sdk now raw e _ small)
        | inr (k, found) ↦ rw found (build_kind-IsSupported c sdk e _ k same)
      ])

-- Where the ingestion's delivery types are the names of the events that the publisher constructs,
-- and none of them is blank or has blanks around it: the body of an event, if it is built, comes
-- with a type that the ingestion supports.
pub build_event_body-IsSupported :
    (c : Cdevents) (sdk : Sdk) (now : Now) (event : Event)
    → SameTypes c sdk
    → IsSupported sdk (build_event_body c now event)
unfolding build_event_body
build_event_body-IsSupported c sdk now event same =
    build_resolved-IsSupported c sdk now event.event_type (resolved_event now event) same
      (to_lower-normalize_type event.event_type)
