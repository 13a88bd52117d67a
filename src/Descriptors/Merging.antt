-- ===== src/Descriptors/Merging.antt =====
-- src/config_objects/core-field-descriptor/core-field-descriptor.merge.ts: the fields that the code has
-- with what an author says of them, and the fields that an author has added.
use six_1_core_api.Prelude.{String, Bool, true, false, not, Option, none, some, List, [], ◌∷◌, ◌++◌}
use six_1_core_api.Prelude.Tests.{str_eq, if◌then◌else◌}
use six_1_core_api.Prelude.Lists.{any, filter}
use six_1_core_api.Prelude.Texts.{has_text}
use six_1_core_api.Descriptors.{
  Texts, Comparison, after, Descriptor, FieldType, FieldView, leℤ, or_else,
  normalize_custom_field_type, with_required, with_metadata, apply_global_rules_to_descriptor,
  validate_core_field_descriptor,
}

-- `mergeBaseWithFieldView`
unfoldable pub merge_base_with_field_view : Texts → Descriptor → FieldView → Option Descriptor
merge_base_with_field_view js base f = validate_core_field_descriptor js (
    apply_global_rules_to_descriptor
      (with_required f.is_required (
        with_metadata f.validation_json (record base {
          label = if has_text f.label then f.label else base.label;
          order_index = f.order_index;
          section_key = f.section_key;
          description = f.description;
        })))
      f.rules)

abbrev pub custom_descriptor : Texts → FieldView → FieldType → Option Descriptor
custom_descriptor js f field_type = validate_core_field_descriptor js (
    apply_global_rules_to_descriptor
      (with_required f.is_required (
        with_metadata f.validation_json (record {
          field_key = f.field_key;
          label = f.label;
          field_type = field_type;
          order_index = f.order_index;
          read_only = none;
          can_create = none;
          can_update = none;
          required_on_create = none;
          required_on_update = none;
          path = none;
          section_key = f.section_key;
          description = f.description;
          lookup_select_config = none;
          derived_runtime_config = none;
        })))
      f.rules)

-- `descriptorFromCustomFieldView`; the validation refuses what is no type.
unfoldable pub descriptor_from_custom_field_view : Texts → FieldView → Option Descriptor
descriptor_from_custom_field_view js f = elim (normalize_custom_field_type js f.field_type) [
  | none ↦ none
  | some t ↦ custom_descriptor js f t
]

abbrev pub or_empty : Option String → String
or_empty none = ""
or_empty (some s) = s

abbrev pub not_after : Comparison → Bool
not_after after = false
not_after _ = true

-- The comparison of `sortFieldViewsForAppend` is not positive.
unfoldable pub in_order : Texts → FieldView → FieldView → Bool
in_order js a b =
    if str_eq (or_empty a.section_key) (or_empty b.section_key)
    then leℤ a.order_index b.order_index
    else not_after (js.locale_compare (or_empty a.section_key) (or_empty b.section_key))

unfoldable pub insert_view : Texts → FieldView → List FieldView → List FieldView
insert_view js v [] = v ∷ []
insert_view js v (w ∷ ws) =
    let rest = insert_view js v ws in if in_order js v w then v ∷ w ∷ ws else w ∷ rest

-- `sortFieldViewsForAppend`; the sort is stable.
unfoldable pub sort_field_views_for_append : Texts → List FieldView → List FieldView
sort_field_views_for_append js [] = []
sort_field_views_for_append js (v ∷ vs) = insert_view js v (sort_field_views_for_append js vs)

-- The value of a key in a Map of the views: the last one given.
unfoldable pub view_of : String → List FieldView → Option FieldView
view_of key [] = none
view_of key (v ∷ vs) = or_else (view_of key vs) (if str_eq v.field_key key then some v else none)

-- The elements of a list, one after another, until one throws.
unfoldable pub map_each {ℓ κ} :
    {A : Type ℓ} {B : Type κ} → (A → Option B) → List A → Option (List B)
map_each f [] = some []
map_each f (a ∷ rest_of) =
    let rest = map_each f rest_of in
    elim (f a) [ none ↦ none | some b ↦ elim rest [ none ↦ none | some bs ↦ some (b ∷ bs) ] ]

unfoldable pub merge_row : Texts → List FieldView → Descriptor → Option Descriptor
merge_row js views row = elim (view_of row.field_key views) [
  | none ↦ some row
  | some v ↦ merge_base_with_field_view js row v
]

abbrev pub has_key : List Descriptor → FieldView → Bool
has_key base v = any (λ (d : Descriptor). str_eq d.field_key v.field_key) base

abbrev pub custom_only : List Descriptor → List FieldView → List FieldView
custom_only base views = filter (λ (v : FieldView). not (has_key base v)) views

-- `mergeCoreFieldDescriptorsWithFieldViews`
unfoldable pub merge_core_field_descriptors_with_field_views :
    Texts → List Descriptor → List FieldView → Option (List Descriptor)
merge_core_field_descriptors_with_field_views js base views =
    elim (map_each (merge_row js views) base) [
      | none ↦ none
      | some rows ↦
          elim (map_each (descriptor_from_custom_field_view js)
            (sort_field_views_for_append js (custom_only base views))) [
              | none ↦ none
              | some added ↦ some (rows ++ added)
            ]
    ]
