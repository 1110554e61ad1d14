-- ===== src/SolverStats/Known.antt =====
-- The intents that the orchestrator knows of: listKnownIntentIds of orchestrator/src/solver_stats.ts.
-- A directory that cannot be read is none, and so is a ledger that is missing or not an object.
use ma_at.Prelude.{
  Bool, false, ◌||◌, Option, none, some, List, [], ◌∷◌, ◌++◌, map, if◌then◌else◌, Text, text,
  text_eq, key_of, or_else,
}

-- `.endsWith(".json")` with the `.slice` that drops it.
unfoldable pub strip_json : Text → Option Text
strip_json [] = none
strip_json (c ∷ t) =
    let rest = strip_json t in
    if text_eq (c ∷ t) (text ".json")
    then some []
    else elim rest [ none ↦ none | some r ↦ some (c ∷ r) ]

push_name : Option Text → List Text → List Text
push_name none names = names
push_name (some n) names = n ∷ names

unfoldable pub state_file_intent_ids : List Text → List Text
unfolding strip_json push_name
state_file_intent_ids [] = []
state_file_intent_ids (name ∷ names) = push_name (strip_json name) (state_file_intent_ids names)

unfoldable pub has : Text → List Text → Bool
has k [] = false
has k (x ∷ xs) = text_eq x k || has k xs

-- `ids.add(k)` for each key; a set keeps the order in which its members came.
unfoldable pub add_all : List Text → List Text → List Text
unfolding has
add_all [] ids = ids
add_all (k ∷ ks) ids = add_all ks (if has k ids then ids else ids ++ (k ∷ []))

-- `[...new Set(ids.map(keyOf))]`
unfoldable pub distinct_keys : List Text → List Text
unfolding add_all
distinct_keys ids = add_all (map key_of ids) []

unfoldable pub list_known_intent_ids : Option (List Text) → Option (List Text) → List Text
unfolding distinct_keys state_file_intent_ids
list_known_intent_ids state_files ledger_keys =
    distinct_keys (state_file_intent_ids (or_else state_files []) ++ or_else ledger_keys [])
