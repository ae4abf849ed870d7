-- ===== src/Catalog/Dependencies/Parsed.antt =====
-- What a list of dependencies in one text names.
use ddash.Base.{
  String, ◌==◌, eq_iff, ◌||◌, List, [], ◌∷◌, any, count, ◌≡◌, refl, ◌∙◌, arith, inl, inr,
  Bool-cases, if◌then◌else◌,
}
use ddash.Base.Text.{trim_space, to_lower, is_empty, equal_fold, split_char}
use ddash.Environments.{has, normalize}
use ddash.Environments.Once.{stands_for, names, once, count-normalize}
use ddash.Catalog.Dependencies.Parsing.{candidates, parse_dependency_inputs, replace_separators}

eq_comm : (a b : String) → (a == b) ≡ (b == a)
eq_comm a b = ground (arith, eq_iff a b, eq_iff b a)

-- The loop is that of the environment order, with the service's own key known from the start.
candidates-eq-normalize :
    (service : String) (seen seen' parts : List String)
    → ((k : String) → has k seen' ≡ (to_lower service == k || has k seen))
    → candidates service seen parts ≡ normalize seen' parts
unfolding candidates normalize equal_fold
candidates-eq-normalize service seen seen' [] known = refl
candidates-eq-normalize service seen seen' (part ∷ parts) known =
    elim (Bool-cases (is_empty (trim_space part))) [
      | inl blank ↦ rw blank (candidates-eq-normalize service seen seen' parts known)
      | inr given ↦
          let rest = candidates-eq-normalize service seen seen' parts known in
          let more =
            candidates-eq-normalize service (to_lower (trim_space part) ∷ seen)
              (to_lower (trim_space part) ∷ seen') parts (λ k. ground (arith, known k)) in
          rw (given, eq_comm (to_lower (trim_space part)) (to_lower service))
            (ground (arith, known (to_lower (trim_space part)), rest, more))
    ]

-- A service that is not blank gets each dependency that the text names once, whatever the case of
-- its letters, but itself; a blank one gets none.
pub parse_dependency_inputs-once :
    (key service raw : String)
    → count (stands_for key) (parse_dependency_inputs service raw) ≡ (
        if is_empty (trim_space service) || to_lower (trim_space service) == key
        then 0
        else once (any (names key) (split_char 44 (replace_separators raw))))
unfolding parse_dependency_inputs
parse_dependency_inputs-once key service raw = elim (Bool-cases (is_empty (trim_space service))) [
  | inl blank ↦ rw blank
  | inr given ↦
      let same =
        candidates-eq-normalize (trim_space service) [] (to_lower (trim_space service) ∷ [])
          (split_char 44 (replace_separators raw)) (λ k. refl) in
      rw (given, same) (count-normalize key (to_lower (trim_space service) ∷ []) _ ∙ ground arith)
]
