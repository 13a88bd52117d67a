-- ===== src/Descriptors/Writing.antt =====
-- src/config_objects/core-field-descriptor: which fields may be written
-- (core-field-descriptor.write-schema.ts, dto-write-capability.util.ts). The metadata of the
-- DTOs, the SoR registry and the generated descriptors are arguments.
use six_1_core_api.Prelude.{String, Bool, false, not, ◌&&◌, ◌||◌, Option, none, some, List}
use six_1_core_api.Prelude.Tests.{str_eq, if◌then◌else◌}
use six_1_core_api.Prelude.Lists.{any, find}
use six_1_core_api.Descriptors.{
  Texts, Descriptor, FieldView, or_else, validate_core_field_descriptor,
}
use six_1_core_api.Descriptors.Merging.{map_each, merge_core_field_descriptors_with_field_views}

pub data BindingMode : Type 0 where
  sor_bound system_table standalone : BindingMode

-- FieldWriteCapability
pub record Capability : Type 0 where
  pub can_create : Option Bool
  pub can_update : Option Bool
  pub required_on_create : Option Bool
  pub required_on_update : Option Bool

-- A validator of a property: `isOptional`, or one that asks for a value.
pub record ValidationMeta : Type 0 where
  pub property_name : String
  pub is_optional : Bool
  pub is_required_like : Bool

pub record DtoPair : Type 0 where
  pub create_dto : Option (List ValidationMeta)
  pub update_dto : Option (List ValidationMeta)

pub record SorField : Type 0 where
  pub field_key : String
  pub read_only : Bool

abbrev pub of_property : String → ValidationMeta → Bool
of_property name m = str_eq m.property_name name

-- `inferAllValidatedPropertyNames`, of a DTO that may be missing.
unfoldable pub validates : String → Option (List ValidationMeta) → Bool
validates name none = false
validates name (some metas) = any (of_property name) metas

-- `inferRequiredPropertyNames`
unfoldable pub requires : String → Option (List ValidationMeta) → Bool
requires name none = false
requires name (some metas) =
    not (any (λ (m : ValidationMeta). of_property name m && m.is_optional) metas)
    && any (λ (m : ValidationMeta). of_property name m && m.is_required_like) metas

-- `inferDtoCapabilityOverridesForObjectType`, at a key.
unfoldable pub dto_override : Option DtoPair → String → Option Capability
dto_override none key = none
dto_override (some p) key =
    if validates key p.create_dto || validates key p.update_dto
    then some (record {
      can_create = some (validates key p.create_dto);
      can_update = some (validates key p.update_dto);
      required_on_create = some (requires key p.create_dto);
      required_on_update = some (requires key p.update_dto);
    })
    else none

abbrev pub no_override : Capability
no_override = record {
  can_create = none;
  can_update = none;
  required_on_create = none;
  required_on_update = none;
}

abbrev pub capability_or_none : Option Capability → Capability
capability_or_none none = no_override
capability_or_none (some c) = c

-- `{ ...dto, ...explicit }`
abbrev pub spread_over : Capability → Capability → Capability
spread_over dto explicit = record {
  can_create = or_else explicit.can_create dto.can_create;
  can_update = or_else explicit.can_update dto.can_update;
  required_on_create = or_else explicit.required_on_create dto.required_on_create;
  required_on_update = or_else explicit.required_on_update dto.required_on_update;
}

abbrev pub is_true : Option Bool → Bool
is_true none = false
is_true (some b) = b

abbrev pub sor_read_only : Option SorField → Bool
sor_read_only none = false
sor_read_only (some s) = s.read_only

abbrev pub sor_field : List SorField → String → Option SorField
sor_field registry key = find (λ (s : SorField). str_eq s.field_key key) registry

-- `inferWriteCapabilityForDescriptor`: both flags are the same. A custom field has no SoR column.
unfoldable pub infer_write_capability_for_descriptor :
    BindingMode → List SorField → Descriptor → Bool
infer_write_capability_for_descriptor sor_bound registry d =
    not (is_true d.read_only) && not (sor_read_only (sor_field registry d.field_key))
infer_write_capability_for_descriptor _ registry d = not (is_true d.read_only)

abbrev pub flag_or : Option Bool → Bool → Bool
flag_or none b = b
flag_or (some a) b = a

abbrev pub with_override : Bool → Capability → Descriptor → Descriptor
with_override inferred ov d = record d {
  can_create = some (if is_true d.read_only then false else flag_or ov.can_create inferred);
  can_update = some (if is_true d.read_only then false else flag_or ov.can_update inferred);
  required_on_create = or_else ov.required_on_create d.required_on_create;
  required_on_update = or_else ov.required_on_update d.required_on_update;
}

-- What the object type has: its SoR fields, its DTOs, and the overrides of the caller.
pub record Schema : Type 0 where
  pub binding_mode : BindingMode
  pub registry : List SorField
  pub dtos : Option DtoPair
  pub overrides : String → Option Capability

abbrev pub override_of : Schema → Descriptor → Capability
override_of s d =
    spread_over (capability_or_none (dto_override s.dtos d.field_key))
      (capability_or_none (s.overrides d.field_key))

abbrev pub inferred_for : Schema → Descriptor → Bool
inferred_for s d = infer_write_capability_for_descriptor s.binding_mode s.registry d

unfoldable pub write_capability : Texts → Schema → Descriptor → Option Descriptor
write_capability js s d =
    validate_core_field_descriptor js (with_override (inferred_for s d) (override_of s d) d)

-- `mergeWriteSchemaCapabilities`
unfoldable pub merge_write_schema_capabilities :
    Texts → Schema → List Descriptor → Option (List Descriptor)
merge_write_schema_capabilities js s = map_each (write_capability js s)

-- `finalizeCoreFieldDescriptors`, from the generated descriptors.
unfoldable pub finalize_core_field_descriptors :
    Texts → Schema → List Descriptor → List FieldView → Option (List Descriptor)
finalize_core_field_descriptors js s base views =
    elim (merge_core_field_descriptors_with_field_views js base views) [
      | none ↦ none
      | some merged ↦ merge_write_schema_capabilities js s merged
    ]
