-- ===== src/Descriptors/Examples.antt =====
-- A name that the code has, with an author's label, and a colour that an author has added.
use six_1_core_api.Prelude.{refl, true, false, none, some, List, [], ◌∷◌}
use six_1_core_api.Prelude.Texts.{has_text, blank, trim, trim_end, trim_start}
use six_1_core_api.Json.{get}
use six_1_core_api.Descriptors.{
  Texts, same, Descriptor, text, number, pos, leℤ, FieldView, normalize_custom_field_type,
  apply_global_rules_to_descriptor, with_metadata, metadata_of, is_valid,
  validate_core_field_descriptor,
}
use six_1_core_api.Descriptors.Merging.{
  merge_base_with_field_view, descriptor_from_custom_field_view, sort_field_views_for_append,
  insert_view, in_order, view_of, map_each, merge_row,
  merge_core_field_descriptors_with_field_views,
}
use six_1_core_api.Descriptors.Writing.{
  Schema, sor_bound, dto_override, validates, requires, infer_write_capability_for_descriptor,
  write_capability, merge_write_schema_capabilities, finalize_core_field_descriptors,
}
use six_1_core_api.Descriptors.Writable.{Finalized, finalize_core_field_descriptors-Finalized}
use six_1_core_api.Descriptors.Sorting.{Consistent}
use six_1_core_api.Descriptors.Catalog.{
  Catalog, merge_core_field_descriptors_with_field_views-Catalog,
}

-- Texts of small letters, none of which is long.
abbrev small : Texts
small = record { lower = λ s. s; units = λ s. 9; locale_compare = λ s t. same }

small-Consistent : Consistent small
small-Consistent = record { opposite = λ s t e. cc }

abbrev name : Descriptor
name = record {
  field_key = "name";
  label = "Name";
  field_type = text;
  order_index = pos 0;
  read_only = none;
  can_create = none;
  can_update = none;
  required_on_create = none;
  required_on_update = none;
  path = none;
  section_key = none;
  description = none;
  lookup_select_config = none;
  derived_runtime_config = none;
}

abbrev size : FieldView
size = record {
  field_key = "size";
  label = "Size";
  field_type = " int";
  order_index = pos 2;
  section_key = none;
  description = none;
  is_required = false;
  validation_json = some [];
  rules = record { lifecycle_state_key = none; role_key = some ""; is_readonly = true } ∷ [];
}

abbrev title : FieldView
title = record {
  field_key = "name";
  label = "Title";
  field_type = "number";
  order_index = pos 1;
  section_key = some "main";
  description = none;
  is_required = true;
  validation_json = none;
  rules = [];
}

-- The title keeps the type that the code gives it; the size is read only.
abbrev merged : List Descriptor
merged =
    record name {
      label = "Title";
      order_index = pos 1;
      required_on_create = some true;
      required_on_update = some true;
      section_key = some "main";
    }
    ∷ record name {
      field_key = "size";
      label = "Size";
      field_type = number;
      order_index = pos 2;
      read_only = some true;
    }
    ∷ []

merge_core_field_descriptors_with_field_views-Catalog_example :
    Catalog small (name ∷ []) (size ∷ title ∷ []) merged
unfolding merge_core_field_descriptors_with_field_views map_each merge_row view_of
    merge_base_with_field_view validate_core_field_descriptor is_valid leℤ
    apply_global_rules_to_descriptor with_metadata metadata_of descriptor_from_custom_field_view
    sort_field_views_for_append insert_view in_order normalize_custom_field_type has_text blank get
    trim trim_end trim_start
merge_core_field_descriptors_with_field_views-Catalog_example =
    merge_core_field_descriptors_with_field_views-Catalog small small-Consistent (name ∷ [])
      (size ∷ title ∷ []) merged ((tt, tt), tt) refl

-- The DTOs have both fields; the size stays closed.
abbrev schema : Schema
schema = record {
  binding_mode = sor_bound;
  registry = record { field_key = "name"; read_only = true } ∷ [];
  dtos = some (record {
    create_dto = some (
        record { property_name = "name"; is_optional = false; is_required_like = true }
        ∷ record { property_name = "size"; is_optional = true; is_required_like = false }
        ∷ []);
    update_dto = none;
  });
  overrides = λ key. none;
}

abbrev finalized : List Descriptor
finalized =
    record name {
      label = "Title";
      order_index = pos 1;
      can_create = some true;
      can_update = some false;
      required_on_create = some true;
      required_on_update = some false;
      section_key = some "main";
    }
    ∷ record name {
      field_key = "size";
      label = "Size";
      field_type = number;
      order_index = pos 2;
      read_only = some true;
      can_create = some false;
      can_update = some false;
      required_on_create = some false;
      required_on_update = some false;
    }
    ∷ []

finalize_core_field_descriptors-Finalized_example :
    Finalized small (name ∷ []) (size ∷ title ∷ []) finalized
unfolding finalize_core_field_descriptors merge_write_schema_capabilities write_capability
    dto_override validates requires infer_write_capability_for_descriptor
    merge_core_field_descriptors_with_field_views map_each merge_row view_of
    merge_base_with_field_view validate_core_field_descriptor is_valid leℤ
    apply_global_rules_to_descriptor with_metadata metadata_of descriptor_from_custom_field_view
    sort_field_views_for_append insert_view in_order normalize_custom_field_type has_text blank get
    trim trim_end trim_start
finalize_core_field_descriptors-Finalized_example =
    finalize_core_field_descriptors-Finalized small schema (name ∷ []) (size ∷ title ∷ []) finalized
      refl
