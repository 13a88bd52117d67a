-- ===== src/Descriptors.antt =====
-- src/config_objects/core-field-descriptor: the descriptors of the fields of a configurable object, their
-- validation (core-field-descriptor.validator.ts, core-field-descriptor.schema.ts), and what the author of
-- a field sets in one (core-field-descriptor.merge.ts).
use six_1_core_api.Prelude.{
  ℕ, String, Bool, true, false, not, ◌&&◌, ◌||◌, Option, none, some, List, [], ◌∷◌, ◌++◌, map,
}
use six_1_core_api.Prelude.Tests.{◌==◌, leb, str_eq, if◌then◌else◌}
use six_1_core_api.Prelude.Lists.{any, filter}
use six_1_core_api.Prelude.Texts.{has_text, trim}
use six_1_core_api.Json.{Json, Object, get}
use six_1_core_api.Authoring.{Result, ok, failed, Check}
use six_1_core_api.Authoring.Metadata.{validate_lookup_select, validate_derived_runtime}
pub mod Merging
pub mod Pairs
pub mod Merged
pub mod Sorting
pub mod Catalog
pub mod Writing
pub mod Writable
pub mod Examples

-- The integers.
pub data ℤ : Type 0 where
  pos negsuc : ℕ → ℤ

unfoldable pub leℤ : ℤ → ℤ → Bool
leℤ (pos m) (pos n) = leb m n
leℤ (pos m) (negsuc n) = false
leℤ (negsuc m) (pos n) = true
leℤ (negsuc m) (negsuc n) = leb n m

pub data FieldType : Type 0 where
  text textarea number boolean date select json : FieldType

-- `localeCompare`
pub data Comparison : Type 0 where
  before same after : Comparison

-- What JavaScript does with texts.
pub record Texts : Type 0 where
  pub lower : String → String
  pub units : String → ℕ
  pub locale_compare : String → String → Comparison

pub record Descriptor : Type 0 where
  pub field_key : String
  pub label : String
  pub field_type : FieldType
  pub order_index : ℤ
  pub read_only : Option Bool
  pub can_create : Option Bool
  pub can_update : Option Bool
  pub required_on_create : Option Bool
  pub required_on_update : Option Bool
  pub path : Option String
  pub section_key : Option String
  pub description : Option String
  pub lookup_select_config : Option Json
  pub derived_runtime_config : Option Json

pub record FieldRule : Type 0 where
  pub lifecycle_state_key : Option String
  pub role_key : Option String
  pub is_readonly : Bool

-- config_object_fields, with the rules of the field.
pub record FieldView : Type 0 where
  pub field_key : String
  pub label : String
  pub field_type : String
  pub order_index : ℤ
  pub section_key : Option String
  pub description : Option String
  pub is_required : Bool
  pub validation_json : Option Object
  pub rules : List FieldRule

-- The names of the types, and the other names that authors use for them.
abbrev pub type_names : List (String × FieldType)
type_names =
    ("text", text)
    ∷ ("textarea", textarea)
    ∷ ("number", number)
    ∷ ("boolean", boolean)
    ∷ ("date", date)
    ∷ ("select", select)
    ∷ ("json", json)
    ∷ []

abbrev pub aliases : List (String × FieldType)
aliases =
    ("string", text)
    ∷ ("varchar", text)
    ∷ ("int", number)
    ∷ ("integer", number)
    ∷ ("float", number)
    ∷ ("double", number)
    ∷ ("bool", boolean)
    ∷ ("datetime", date)
    ∷ ("timestamp", date)
    ∷ []

abbrev pub type_or_text : Option FieldType → FieldType
type_or_text none = text
type_or_text (some t) = t

-- The names, without large letters, that every object of JavaScript inherits a value for.
abbrev pub is_inherited : String → Bool
is_inherited s = str_eq s "constructor" || str_eq s "__proto__"

-- `normalizeCustomFieldType`; an inherited value is no type.
unfoldable pub normalize_custom_field_type : Texts → String → Option FieldType
normalize_custom_field_type js raw =
    let trimmed = js.lower (trim raw) in
    elim (get trimmed type_names) [
      | some t ↦ some t
      | none ↦ if is_inherited trimmed then none else some (type_or_text (get trimmed aliases))
    ]

abbrev pub absent_or_empty : Option String → Bool
absent_or_empty none = true
absent_or_empty (some s) = str_eq s ""

-- `isGlobalDefaultRule`
abbrev pub is_global_default_rule : FieldRule → Bool
is_global_default_rule r = absent_or_empty r.lifecycle_state_key && absent_or_empty r.role_key

-- `applyGlobalRulesToDescriptor`
unfoldable pub apply_global_rules_to_descriptor : Descriptor → List FieldRule → Descriptor
apply_global_rules_to_descriptor d rules =
    if any (λ (r : FieldRule). r.is_readonly) (filter is_global_default_rule rules)
    then record d { read_only = some true }
    else d

-- Metadata that does not pass is ignored.
abbrev pub accepted : Result (Option Json) → Option Json
accepted (ok c) = c
accepted (failed p) = none

-- An own key of the metadata of a field, by its check.
unfoldable pub metadata_of : Check → String → Option Object → Option Json
metadata_of check key none = none
metadata_of check key (some o) = elim (get key o) [
  | none ↦ none
  | some v ↦ accepted (check (some v))
]

abbrev pub or_else {ℓ} : {A : Type ℓ} → Option A → Option A → Option A
or_else none d = d
or_else (some a) d = some a

-- `extractRuntimeMetadataFromValidationJson`, spread over a descriptor.
unfoldable pub with_metadata : Option Object → Descriptor → Descriptor
with_metadata o d = record d {
  lookup_select_config =
      or_else (metadata_of validate_lookup_select "_six1LookupSelectAuthoring" o)
        d.lookup_select_config;
  derived_runtime_config =
      or_else (metadata_of validate_derived_runtime "_six1DerivedRuntimeAuthoring" o)
        d.derived_runtime_config;
}

abbrev pub with_required : Bool → Descriptor → Descriptor
with_required false d = d
with_required true d = record d { required_on_create = some true; required_on_update = some true }

abbrev pub at_most : Texts → ℕ → Option String → Bool
at_most js n none = true
at_most js n (some s) = leb (js.units s) n

abbrev pub named : Texts → ℕ → String → Bool
named js n s = not (str_eq s "") && leb (js.units s) n

-- The constraints of CoreFieldDescriptorValidationClass that the types leave open.
unfoldable pub is_valid : Texts → Descriptor → Bool
is_valid js d =
    named js 100 d.field_key
    && (named js 255 d.label
        && (leℤ (pos 0) d.order_index
            && (at_most js 500 d.path
                && (at_most js 100 d.section_key && at_most js 4000 d.description))))

-- `validateCoreFieldDescriptor`
unfoldable pub validate_core_field_descriptor : Texts → Descriptor → Option Descriptor
validate_core_field_descriptor js d = if is_valid js d then some d else none
