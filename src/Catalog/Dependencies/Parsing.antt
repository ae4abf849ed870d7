-- ===== src/Catalog/Dependencies/Parsing.antt =====
-- apps/ddash/internal/domains/servicecatalog/dependencies.go
use Prim.Native.Char.{Char, code}
use Prim.Native.String.{char_at}
use Prim.Native.String as Str
use ddash.Base.{String, eqb, ◌||◌, Option, none, some, List, [], ◌∷◌, if◌then◌else◌}
use ddash.Base.Text.{trim_space, to_lower, is_empty, equal_fold, split_char}
use ddash.Environments.{has}

unfoldable pub normalize_dependency_input : String → String → Option (String × String)
normalize_dependency_input service depends_on =
    if is_empty (trim_space service) || is_empty (trim_space depends_on)
    then none
    else if equal_fold (trim_space service) (trim_space depends_on)
    then none
    else some (trim_space service, trim_space depends_on)

-- strings.NewReplacer("\n", ",", "\r", ",", ";", ",")
abbrev comma_for : Char → Char
comma_for c = if eqb (code c) 10 || eqb (code c) 13 || eqb (code c) 59 then char_at "," 0 else c

unfoldable pub replace_separators : String → String
replace_separators Str.[] = ""
replace_separators (Str.◌∷◌ c s) = Str.◌∷◌ (comma_for c) (replace_separators s)

-- The loop of `ParseDependencyInputs`, with the keys put in so far.
unfoldable pub candidates : String → List String → List String → List String
candidates service seen [] = []
candidates service seen (part ∷ parts) =
    let candidate = trim_space part in
    let skipped = candidates service seen parts in
    let kept = candidate ∷ candidates service (to_lower candidate ∷ seen) parts in
    if is_empty candidate
    then skipped
    else if equal_fold candidate service
    then skipped
    else if has (to_lower candidate) seen
    then skipped
    else kept

unfoldable pub parse_dependency_inputs : String → String → List String
unfolding replace_separators candidates
parse_dependency_inputs service raw =
    if is_empty (trim_space service)
    then []
    else candidates (trim_space service) [] (split_char 44 (replace_separators raw))
