-- ===== src/Authoring/Metadata.antt =====
-- src/config_objects: derived-display-authoring/derived-display-authoring.validator.ts,
-- field-runtime-authoring/field-runtime-authoring.validator.ts, and
-- detail-form-view-config/detail-form-view-config.validator.ts
use Prim.Native.Char.{Char, code}
use six_1_core_api.Prelude.{String, Bool, true, false, ◌&&◌, ◌||◌, Option, some, List, [], ◌∷◌}
use six_1_core_api.Prelude.Tests.{◌==◌, leb, str_eq, if◌then◌else◌}
use six_1_core_api.Prelude.Lists.{any}
use six_1_core_api.Prelude.Texts.{has_text, trim}
use six_1_core_api.Json.{Json, num, str, arr, nil, Object, elements, items}
use six_1_core_api.Authoring.{
  Check, not_object, not_text, bad_choice, required, duplicate, not_array, not_bool, Result, ok,
  failed, ◌>>=◌, optional, needed, defined, handle, present, keep_if, is_object, is_string, is_bool,
  is_one_of, trimmed, refused, array_map, run, only, as_object, normal, object_with, default_or,
  schema_version, Rule, rule,
}
use six_1_core_api.Authoring.ListView.{only_version}

-- `validateDerivedDisplayAuthoringMetadata`
abbrev pub display_entries : List Rule
display_entries =
    rule "languageFallbackChain" (
      optional
        (array_map (trimmed (not_text "languageFallbackChain")) refused "languageFallbackChain"))
    ∷ []

abbrev pub display_rules : List Rule
display_rules = schema_version ∷ display_entries

unfoldable pub validate_derived_display : Check
validate_derived_display = needed (not_object "_six1DerivedDisplayAuthoring") (
    default_or only_version "_six1DerivedDisplayAuthoring"
      ("schemaVersion" ∷ "languageFallbackChain" ∷ []) display_rules)

-- The loop over the panels: the keys are trimmed, and no two are the same.
unfoldable pub unique_texts : List String → List Json → Result (List Json)
unique_texts seen [] = ok []
unique_texts seen (str s ∷ js) =
    let rest = unique_texts (trim s ∷ seen) js in
    if has_text s
    then (if any (str_eq (trim s)) seen
        then failed (duplicate "panels" (trim s))
        else rest >>= λ vs. ok (str (trim s) ∷ vs))
    else failed (not_text "panels")
unique_texts seen (_ ∷ js) = failed (not_text "panels")

unfoldable pub panels : Json → Result (Option Json)
panels (arr js) = unique_texts [] (elements js) >>= λ vs. ok (some (arr (items vs)))
panels _ = failed (not_array "panels")

abbrev pub detail_entries : List Rule
detail_entries = rule "panels" (λ v. handle (ok (some (arr nil))) panels (present v)) ∷ []

abbrev pub detail_rules : List Rule
detail_rules = schema_version ∷ detail_entries

abbrev pub no_panels : Object
no_panels = ("schemaVersion", num 1) ∷ ("panels", arr nil) ∷ []

-- `validateAndNormalizeDetailFormViewConfigJson`
unfoldable pub validate_detail_form : Check
validate_detail_form =
    optional (
      default_or no_panels "detail/form config_json" ("schemaVersion" ∷ "panels" ∷ []) detail_rules)

abbrev pub is_letter : Char → Bool
is_letter c = (leb 65 (code c) && leb (code c) 90) || (leb 97 (code c) && leb (code c) 122)

abbrev pub is_separator : String → Bool
is_separator (String.◌∷◌ a (String.◌∷◌ b (String.◌∷◌ c s))) =
    (code a == 58) && ((code b == 47) && (code c == 47))
is_separator _ = false

-- `/^[a-z]+:\/\//i.test(…)`; the flag says that a letter has been read.
unfoldable pub is_url : Bool → String → Bool
is_url seen String.[] = false
is_url seen (String.◌∷◌ c s) =
    let more = is_url true s in if is_letter c then more else seen && is_separator (String.◌∷◌ c s)

-- `assertRefToken`
unfoldable pub ref_token : String → Json → Result (Option Json)
ref_token name (str s) =
    if has_text s
    then (if is_url false (trim s) then failed (bad_choice name) else ok (some (str (trim s))))
    else failed (not_text name)
ref_token name _ = failed (required name)

abbrev pub is_one : Json → Bool
is_one (num n) = n == 1
is_one _ = false

abbrev pub version_rule : Rule
version_rule =
    rule "schemaVersion"
      (needed (bad_choice "schemaVersion") (keep_if is_one (bad_choice "schemaVersion")))

abbrev pub string_rule : String → Rule
string_rule key = rule key (needed (required key) (keep_if is_string (required key)))

abbrev pub token_rule : String → Rule
token_rule key = rule key (needed (required key) (ref_token key))

abbrev pub flag_rule : String → Rule
flag_rule key = rule key (defined (keep_if is_bool (not_bool key)))

-- What is checked before the texts are read.
abbrev pub lookup_types : List Rule
lookup_types =
    version_rule ∷ string_rule "dataRef" ∷ string_rule "valueKey" ∷ string_rule "labelKey" ∷ []

abbrev pub lookup_rules : List Rule
lookup_rules =
    version_rule
    ∷ token_rule "dataRef"
    ∷ token_rule "valueKey"
    ∷ token_rule "labelKey"
    ∷ rule "queryDefaults" (defined (keep_if is_object (not_object "queryDefaults")))
    ∷ flag_rule "searchable"
    ∷ flag_rule "multi"
    ∷ []

abbrev pub lookup_keys : List String
lookup_keys =
    "schemaVersion" ∷ "dataRef" ∷ "valueKey" ∷ "labelKey" ∷ "queryDefaults" ∷ "searchable" ∷ "multi"
    ∷ []

unfoldable pub lookup_select : Json → Result (Option Json)
unfolding only
lookup_select j = as_object "_six1LookupSelectAuthoring" j >>= λ o.
    only "_six1LookupSelectAuthoring" lookup_keys o >>= λ _.
    run lookup_types o >>= λ _. run lookup_rules o >>= normal

-- `validateLookupSelectAuthoringMetadata`
unfoldable pub validate_lookup_select : Check
validate_lookup_select = needed (not_object "_six1LookupSelectAuthoring") lookup_select

abbrev pub text_value_rule : String → Rule
text_value_rule key = rule key (defined (keep_if is_string (not_text key)))

abbrev pub runtime_rules : List Rule
runtime_rules =
    version_rule
    ∷ rule "operation" (
        needed (bad_choice "operation")
          (keep_if (is_one_of ("concat" ∷ "coalesce" ∷ [])) (bad_choice "operation")))
    ∷ rule "sourceFieldKeys" (
        needed (required "sourceFieldKeys")
          (array_map (trimmed (not_text "sourceFieldKeys")) refused "sourceFieldKeys"))
    ∷ text_value_rule "separator"
    ∷ text_value_rule "nullDisplayValue"
    ∷ flag_rule "trim"
    ∷ []

abbrev pub runtime_keys : List String
runtime_keys =
    "schemaVersion" ∷ "operation" ∷ "sourceFieldKeys" ∷ "separator" ∷ "nullDisplayValue" ∷ "trim"
    ∷ []

-- `validateDerivedRuntimeAuthoringMetadata`
unfoldable pub validate_derived_runtime : Check
validate_derived_runtime =
    needed (not_object "_six1DerivedRuntimeAuthoring")
      (object_with "_six1DerivedRuntimeAuthoring" runtime_keys (λ _. runtime_rules) normal)
