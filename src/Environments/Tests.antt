-- ===== src/Environments/Tests.antt =====
-- An order in which an environment stands twice.
use ddash.Base.{String, ◌==◌, List, [], ◌∷◌, ◌||◌, any, count, ◌≡◌, refl}
use ddash.Environments.{normalize_environment_order_input, merge_environment_order}
use ddash.Environments.Once.{
  stands_for, names, once, normalize_environment_order_input-once,
  normalize_environment_order_input_idem, merge_environment_order-once,
}

abbrev raw : List String
raw = " Prod" ∷ "staging" ∷ "" ∷ "PROD" ∷ []

cleaned : normalize_environment_order_input raw ≡ "Prod" ∷ "staging" ∷ []
unfolding normalize_environment_order_input ddash.Base.Text.trim_space ddash.Base.Text.to_lower
cleaned = refl

merged :
    merge_environment_order ("staging" ∷ []) ("qa" ∷ "Staging " ∷ "dev" ∷ [])
    ≡ "staging" ∷ "dev" ∷ "qa" ∷ []
unfolding merge_environment_order ddash.Base.Text.trim_space ddash.Base.sort_by
    ddash.Base.Text.to_lower ddash.Environments.text_le
merged = refl

normalize_environment_order_input-once_example :
    count (stands_for "prod") (normalize_environment_order_input raw)
    ≡ once (any (names "prod") raw)
normalize_environment_order_input-once_example = normalize_environment_order_input-once "prod" raw

normalize_environment_order_input_idem_example :
    normalize_environment_order_input (normalize_environment_order_input raw)
    ≡ normalize_environment_order_input raw
normalize_environment_order_input_idem_example = normalize_environment_order_input_idem raw

merge_environment_order-once_example :
    count (stands_for "prod") (merge_environment_order raw ("prod" ∷ "qa" ∷ []))
    ≡ once (any (names "prod") raw || any (names "prod") ("prod" ∷ "qa" ∷ []))
merge_environment_order-once_example = merge_environment_order-once "prod" raw ("prod" ∷ "qa" ∷ [])
