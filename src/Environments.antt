-- ===== src/Environments.antt =====
-- The order of environments: `normalizeEnvironmentOrderInput` of
-- apps/ddash/internal/app/services/service_read.go and `mergeEnvironmentOrder` of
-- apps/ddash/internal/app/services/org_config.go. The maps `seen` are lists of the keys put in.
pub mod Once
mod Tests
use Prim.Native.String.{compare}
use Prim.Native.Nat.{Ordering}
use ddash.Base.{
  String, ◌==◌, Bool, true, false, List, [], ◌∷◌, ◌++◌, map, any, sort_by, if◌then◌else◌,
}
use ddash.Base.Text.{trim_space, to_lower, is_empty}

abbrev pub has : String → List String → Bool
has key seen = any (λ s. s == key) seen

-- The loop of `normalizeEnvironmentOrderInput`.
unfoldable pub normalize : List String → List String → List String
normalize seen [] = []
normalize seen (v ∷ vs) =
    let value = trim_space v in
    let key = to_lower value in
    let skipped = normalize seen vs in
    let kept = value ∷ normalize (key ∷ seen) vs in
    if is_empty value then skipped else if has key seen then skipped else kept

unfoldable pub normalize_environment_order_input : List String → List String
unfolding normalize
normalize_environment_order_input values = normalize [] values

-- The loop of `mergeEnvironmentOrder` over the discovered values.
unfoldable pub unseen : List String → List String → List String
unseen seen [] = []
unseen seen (v ∷ vs) =
    let skipped = unseen seen vs in
    let kept = v ∷ unseen (to_lower v ∷ seen) vs in if has (to_lower v) seen then skipped else kept

-- `sort.Strings`
unfoldable pub text_le : String → String → Bool
text_le a b = elim (compare a b) [ Ordering.gt ↦ false | _ ↦ true ]

unfoldable pub merge_environment_order : List String → List String → List String
unfolding normalize_environment_order_input unseen
merge_environment_order prioritized discovered =
    let merged = normalize_environment_order_input prioritized in
    let rest = unseen (map to_lower merged) (normalize_environment_order_input discovered) in
    merged ++ sort_by text_le rest
