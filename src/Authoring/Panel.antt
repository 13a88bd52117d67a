-- ===== src/Authoring/Panel.antt =====
-- src/config_objects/panel-layout/panel-layout.validator.ts
use six_1_core_api.Prelude.{String, Bool, ◌||◌, Option, none, some, List, [], ◌∷◌, ◌++◌}
use six_1_core_api.Prelude.Tests.{str_eq, if◌then◌else◌}
use six_1_core_api.Prelude.Texts.{has_text, trim}
use six_1_core_api.Json.{Json, str, arr, nil, Object, get, put}
use six_1_core_api.Authoring.{
  not_object, not_text, required, bad_choice, nothing_given, Result, ok, failed, ◌>>=◌, Check,
  optional, needed, keep_if, is_object, is_string, is_one_of, omitted, refused, objects, Rule, run,
  only, as_object, normal, unless_empty, object_with, object_then, schema_version, rule, text_rule,
  object_rule, choice_rule, strings_rule, needed_strings_rule, needed_text_rule,
}

-- A key and its label, trimmed.
unfoldable pub label_of : String × Json → Result (String × String)
label_of (k, str s) =
    if has_text k
    then (if has_text s then ok (trim k, trim s) else failed (not_text "layout.fieldLabelByKey"))
    else failed (not_text "layout.fieldLabelByKey keys")
label_of (k, _) =
    if has_text k
    then failed (not_text "layout.fieldLabelByKey")
    else failed (not_text "layout.fieldLabelByKey keys")

-- `normalizeFieldLabelByKeyMap`: a key that two keys are trimmed to keeps its first place and has the
-- last label.
unfoldable pub normalize_labels : Object → Object → Result Object
unfolding put
normalize_labels acc [] = ok acc
normalize_labels acc (e ∷ o) =
    label_of e >>= λ (l : String × String). normalize_labels (put l.0 (str l.1) acc) o

unfoldable pub labels : Json → Result (Option Json)
labels j = as_object "layout.fieldLabelByKey" j >>= λ o. normalize_labels [] o >>= unless_empty

abbrev pub labels_rule : Rule
labels_rule = rule "fieldLabelByKey" (optional labels)

abbrev pub data_binding_rule : Rule
data_binding_rule = choice_rule "dataBinding" ("main" ∷ "relation" ∷ "derived" ∷ [])

abbrev pub relation_panel_modes : List String
relation_panel_modes =
    "relation_membership" ∷ "related_list" ∷ "inline_required" ∷ "inline_optional" ∷ "embedded_form"
    ∷ []

abbrev pub default_sort_rules : List Rule
default_sort_rules =
    needed_text_rule "field"
    ∷ rule "direction" (
        needed (bad_choice "direction")
          (keep_if (is_one_of ("asc" ∷ "desc" ∷ [])) (bad_choice "direction")))
    ∷ []

unfoldable pub default_sort : Json → Result (Option Json)
default_sort =
    object_then "layout.defaultSort" ("field" ∷ "direction" ∷ []) default_sort_rules normal

-- `case 'table'` of `validateLayoutForMode`
abbrev pub table_rules : List Rule
table_rules =
    needed_strings_rule "columns"
    ∷ strings_rule "rowActions" omitted
    ∷ strings_rule "bulkActions" omitted
    ∷ rule "defaultSort" (optional default_sort)
    ∷ text_rule "relationKey"
    ∷ text_rule "targetEntityKey"
    ∷ choice_rule "selectionControl" ("checkbox" ∷ "radio" ∷ [])
    ∷ labels_rule
    ∷ data_binding_rule
    ∷ choice_rule "relationPanelMode" relation_panel_modes
    ∷ object_rule "form"
    ∷ object_rule "list"
    ∷ []

abbrev pub table_keys : List String
table_keys =
    "columns" ∷ "rowActions" ∷ "bulkActions" ∷ "defaultSort" ∷ "relationKey" ∷ "targetEntityKey"
    ∷ "selectionControl" ∷ "fieldLabelByKey" ∷ "dataBinding" ∷ "relationPanelMode" ∷ "form" ∷ "list"
    ∷ []

-- `case 'cards'`
abbrev pub cards_rules : List Rule
cards_rules =
    needed_strings_rule "cardFields" ∷ text_rule "groupBy" ∷ object_rule "badges" ∷ labels_rule ∷ []

abbrev pub cards_keys : List String
cards_keys = "cardFields" ∷ "groupBy" ∷ "badges" ∷ "fieldLabelByKey" ∷ []

-- `case 'summary'`
abbrev pub summary_rules : List Rule
summary_rules =
    strings_rule "keyValueFields" omitted ∷ rule "metrics" (optional (objects "metrics")) ∷ []

-- `case 'form-section'`: what must be there, and what may be.
abbrev pub sections_rules : List Rule
sections_rules =
    strings_rule "fieldOrder" refused ∷ rule "sections" (optional (objects "sections")) ∷ []

abbrev pub form_rules : List Rule
form_rules = text_rule "relationKey" ∷ text_rule "targetEntityKey" ∷ data_binding_rule ∷ []

-- `case 'timeline'`
abbrev pub timeline_rules : List Rule
timeline_rules = needed_text_rule "timeField" ∷ strings_rule "eventFields" omitted ∷ []

-- `case 'custom-slot'`
abbrev pub slot_rules : List Rule
slot_rules =
    needed_text_rule "slotKey"
    ∷ text_rule "widgetRef"
    ∷ object_rule "inputBindings"
    ∷ object_rule "eventBindings"
    ∷ []

abbrev pub some_entry : String → Object → Result (Unit {0})
some_entry label [] = failed (nothing_given label)
some_entry label (e ∷ o) = ok tt

-- Rules of which one must give an entry, followed by others.
unfoldable pub layout_with : List String → List Rule → List Rule → Json → Result (Option Json)
unfolding only
layout_with allowed first more j = as_object "layout" j >>= λ o. only "layout" allowed o >>= λ _.
    run first o >>= λ a. some_entry "layout" a >>= λ _. run more o >>= λ b. normal (a ++ b)

abbrev pub layout_of : List String → List Rule → Json → Result (Option Json)
layout_of allowed rules = object_with "layout" allowed (λ _. rules) normal

-- `validateLayoutForMode`
unfoldable pub validate_layout : String → Json → Result (Option Json)
validate_layout mode =
    if str_eq mode "table"
    then layout_of table_keys table_rules
    else if str_eq mode "cards"
    then layout_of cards_keys cards_rules
    else if str_eq mode "summary"
    then layout_with ("metrics" ∷ "keyValueFields" ∷ []) summary_rules []
    else if str_eq mode "form-section"
    then layout_with
        ("sections" ∷ "fieldOrder" ∷ "relationKey" ∷ "targetEntityKey" ∷ "dataBinding" ∷ [])
        sections_rules form_rules
    else if str_eq mode "timeline"
    then layout_of ("timeField" ∷ "eventFields" ∷ []) timeline_rules
    else if str_eq mode "custom-slot"
    then layout_of ("slotKey" ∷ "widgetRef" ∷ "inputBindings" ∷ "eventBindings" ∷ []) slot_rules
    else λ j. failed (bad_choice "displayMode")

-- `PANEL_LAYOUT_DISPLAY_MODES`
abbrev pub display_modes : List String
display_modes = "table" ∷ "cards" ∷ "summary" ∷ "form-section" ∷ "timeline" ∷ "custom-slot" ∷ []

-- `assertOptionalPlainObjectOrAbsentEmptyArray`
unfoldable pub object_or_empty : String → Json → Result (Option Json)
object_or_empty label (arr nil) = ok none
object_or_empty label j = keep_if is_object (not_object label) j

-- `assertOptionalPassthrough`
abbrev pub is_passed_through : Json → Bool
is_passed_through j = is_string j || is_object j

abbrev pub text_of : Option Json → String
text_of (some (str s)) = s
text_of _ = ""

abbrev pub panel_rules : String → List Rule
panel_rules mode =
    schema_version
    ∷ rule "displayMode" (
        needed (required "displayMode")
          (keep_if (is_one_of display_modes) (bad_choice "displayMode")))
    ∷ data_binding_rule
    ∷ rule "layout" (needed (required "layout") (validate_layout mode))
    ∷ rule "actions" (optional (object_or_empty "actions"))
    ∷ object_rule "style"
    ∷ object_rule "permissions"
    ∷ object_rule "pagination"
    ∷ object_rule "sort"
    ∷ rule "emptyState" (optional (keep_if is_passed_through (not_text "emptyState")))
    ∷ []

-- `PANEL_LAYOUT_CONFIG_TOP_LEVEL_KEYS`
abbrev pub panel_keys : List String
panel_keys =
    "schemaVersion" ∷ "displayMode" ∷ "dataBinding" ∷ "layout" ∷ "actions" ∷ "style" ∷ "permissions"
    ∷ "pagination" ∷ "sort" ∷ "emptyState" ∷ []

-- `validateAndNormalizePanelLayoutConfigJson`
unfoldable pub validate_panel : Check
unfolding get
validate_panel = optional (
    object_with "layout_config" panel_keys (λ o. panel_rules (text_of (get "displayMode" o)))
      normal)
