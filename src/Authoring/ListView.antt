-- ===== src/Authoring/ListView.antt =====
-- src/config_objects/list-view-config/list-view-config.validator.ts
use six_1_core_api.Prelude.{String, Bool, false, Option, none, some, List, [], ◌∷◌}
use six_1_core_api.Prelude.Tests.{ltb, if◌then◌else◌}
use six_1_core_api.Prelude.Texts.{has_text, trim}
use six_1_core_api.Json.{Json, num, str, obj, Object}
use six_1_core_api.Authoring.{
  handle, present, not_text, bad_choice, not_integer, required, Result, ok, failed, optional,
  needed, keep_if, is_object, is_text, is_one_of, trimmed, kept, omitted, array_of, array_map,
  normal, unless_empty, object_with, object_then, object_of, default_or, Rule, rule, text_rule,
  choice_rule, strings_rule, needed_text_rule, schema_version, not_object_at,
}

-- A label: a text that is trimmed, and left out where nothing is left of it.
unfoldable pub label : Json → Result (Option Json)
label (str s) = if has_text s then ok (some (str (trim s))) else ok none
label _ = failed (not_text "label")

-- An entry of a list: a text, or an object.
unfoldable pub text_or : (Json → Result (Option Json)) → String → Json → Result (Option Json)
text_or f name (str s) = trimmed (not_text name) (str s)
text_or f name (obj fs) = f (obj fs)
text_or f name _ = failed (bad_choice name)

abbrev pub column_rules : List Rule
column_rules = needed_text_rule "field" ∷ rule "label" (optional label) ∷ []

-- `parseColumnEntries`
unfoldable pub columns : Json → Result (Option Json)
columns =
    array_map
      (text_or (object_with "table.columns" ("field" ∷ "label" ∷ []) (λ _. column_rules) normal)
        "table.columns")
      omitted "table.columns"

abbrev pub is_positive : Json → Bool
is_positive (num n) = ltb 0 n
is_positive _ = false

-- `parsePagination`
abbrev pub pagination_rules : List Rule
pagination_rules =
    rule "defaultLimit" (optional (keep_if is_positive (not_integer "defaultLimit")))
    ∷ rule "limitOptions"
        (optional (array_of is_positive (λ i. not_integer "limitOptions") kept "limitOptions"))
    ∷ []

unfoldable pub pagination : Json → Result (Option Json)
pagination =
    object_with "table.pagination" ("defaultLimit" ∷ "limitOptions" ∷ []) (λ _. pagination_rules)
      unless_empty

abbrev pub methods : List String
methods = "GET" ∷ "POST" ∷ "PUT" ∷ "PATCH" ∷ "DELETE" ∷ []

abbrev pub action_rules : List Rule
action_rules =
    needed_text_rule "bindingKey"
    ∷ rule "label" (optional label)
    ∷ text_rule "path"
    ∷ choice_rule "method" methods
    ∷ []

-- `parseActionEntries`
unfoldable pub actions : Json → Result (Option Json)
actions =
    array_map
      (text_or
        (object_with "table.actions" ("bindingKey" ∷ "label" ∷ "path" ∷ "method" ∷ [])
          (λ _. action_rules) normal)
        "table.actions")
      omitted "table.actions"

-- `parseSort`: the field is kept as it is, and other keys are dropped.
abbrev pub sort_rules : List Rule
sort_rules =
    rule "field" (needed (required "field") (keep_if is_text (required "field")))
    ∷ rule "direction" (
        needed (bad_choice "direction")
          (keep_if (is_one_of ("asc" ∷ "desc" ∷ [])) (bad_choice "direction")))
    ∷ []

unfoldable pub sort : Json → Result (Option Json)
sort = object_of "table.defaultSort" sort_rules

abbrev pub table_rules : List Rule
table_rules =
    rule "columns" (optional columns)
    ∷ rule "defaultSort" (optional sort)
    ∷ strings_rule "rowActions" kept
    ∷ strings_rule "bulkActions" kept
    ∷ rule "pagination" (optional pagination)
    ∷ rule "filters" (optional (array_of is_object (not_object_at "filters") omitted "filters"))
    ∷ rule "actions" (optional actions)
    ∷ []

abbrev pub table_keys : List String
table_keys =
    "columns" ∷ "defaultSort" ∷ "rowActions" ∷ "bulkActions" ∷ "pagination" ∷ "filters" ∷ "actions"
    ∷ []

-- `parseTableSection`. The section always has the key `defaultSort`, if only with `undefined`, so a
-- table without entries is not left out; as JSON it is an empty object.
unfoldable pub table : Json → Result (Option Json)
table = object_then "table" table_keys table_rules normal

abbrev pub board_rules : List Rule
board_rules =
    rule "groupByField" (optional (keep_if is_text (not_text "groupByField")))
    ∷ rule "cardTitleField" (optional (keep_if is_text (not_text "cardTitleField")))
    ∷ strings_rule "cardSubtitleFields" kept
    ∷ strings_rule "swimlaneOrder" kept
    ∷ []

abbrev pub board_keys : List String
board_keys = "groupByField" ∷ "cardTitleField" ∷ "cardSubtitleFields" ∷ "swimlaneOrder" ∷ []

-- `parseBoardSection`; an empty section is left out.
unfoldable pub board : Json → Result (Option Json)
board = object_then "board" board_keys board_rules unless_empty

abbrev pub list_entries : List Rule
list_entries =
    choice_rule "defaultPresentation" ("table" ∷ "board" ∷ [])
    ∷ rule "table" (optional table)
    ∷ rule "board" (optional board)
    ∷ []

abbrev pub list_rules : List Rule
list_rules = schema_version ∷ list_entries

-- `LIST_VIEW_CONFIG_TOP_LEVEL_KEYS`
abbrev pub list_keys : List String
list_keys = "schemaVersion" ∷ "defaultPresentation" ∷ "table" ∷ "board" ∷ []

abbrev pub only_version : Object
only_version = ("schemaVersion", num 1) ∷ []

-- `validateAndNormalizeListViewConfigJson`
unfoldable pub validate_list_view : Option Json → Result (Option Json)
validate_list_view v =
    handle (normal only_version) (default_or only_version "list config_json" list_keys list_rules)
      (present v)
