-- ===== src/Descriptors/Merged.antt =====
-- One descriptor of a merge: its key, its type and its metadata.
use mathlib.Core.Path.{subst}
use six_1_core_api.Prelude.{
  String, ◌≡◌, refl, sym, inl, inr, Bool, true, false, Option, none, some, List,
}
use six_1_core_api.Prelude.Tests.{if◌then◌else◌, Bool-cases, some_inj, some-none}
use six_1_core_api.Prelude.Lists.{any, filter}
use six_1_core_api.Json.{Json, Object, get}
use six_1_core_api.Authoring.{Result, ok, failed, Check}
use six_1_core_api.Authoring.Metadata.{validate_lookup_select, validate_derived_runtime}
use six_1_core_api.Authoring.LookupAgain.{validate_lookup_select-again}
use six_1_core_api.Authoring.MetadataAgain.{validate_derived_runtime-again}
use six_1_core_api.Descriptors.{
  Texts, Descriptor, FieldType, FieldView, FieldRule, is_global_default_rule,
  apply_global_rules_to_descriptor, accepted, metadata_of, or_else, with_metadata, with_required,
  is_valid, validate_core_field_descriptor, normalize_custom_field_type,
}
use six_1_core_api.Descriptors.Merging.{
  merge_base_with_field_view, custom_descriptor, descriptor_from_custom_field_view, view_of,
  merge_row,
}

-- What a check accepts again as it is.
abbrev pub Stays : Check → Option Json → Type 0
Stays check none = Unit
Stays check (some c) = check (some c) ≡ ok (some c)

-- Both configurations of a descriptor pass their validation again.
abbrev pub ConfigsPass : Descriptor → Type 0
ConfigsPass d =
    Stays validate_lookup_select d.lookup_select_config
    × Stays validate_derived_runtime d.derived_runtime_config

accepted-Stays :
    (check : Check)
    → ((v : Option Json) (w : Json) → check v ≡ ok (some w) → check (some w) ≡ ok (some w))
    → (v : Option Json) → Stays check (accepted (check v))
accepted-Stays check again v = go (check v) refl
  where
    go : (r : Result (Option Json)) → check v ≡ r → Stays check (accepted r)
    go (ok none) e = tt
    go (ok (some w)) e = again v w e
    go (failed p) e = tt

metadata_of-Stays :
    (check : Check)
    → ((v : Option Json) (w : Json) → check v ≡ ok (some w) → check (some w) ≡ ok (some w))
    → (key : String) (o : Option Object) → Stays check (metadata_of check key o)
unfolding metadata_of
metadata_of-Stays check again key none = tt
metadata_of-Stays check again key (some o) = go (get key o)
  where
    go :
        (w : Option Json)
        → Stays check (elim w [ none ↦ none | some v ↦ accepted (check (some v)) ])
    go none = tt
    go (some v) = accepted-Stays check again (some v)

or_else-Stays :
    (check : Check) (a b : Option Json) → Stays check a → Stays check b → Stays check (or_else a b)
or_else-Stays check none b m n = n
or_else-Stays check (some a) b m n = m

with_metadata-ConfigsPass :
    (o : Option Object) (d : Descriptor) → ConfigsPass d → ConfigsPass (with_metadata o d)
unfolding with_metadata
with_metadata-ConfigsPass o d (l, r) = (
  or_else-Stays validate_lookup_select
      (metadata_of validate_lookup_select "_six1LookupSelectAuthoring" o) d.lookup_select_config
      (metadata_of-Stays validate_lookup_select validate_lookup_select-again
        "_six1LookupSelectAuthoring" o)
      l,
  or_else-Stays validate_derived_runtime
      (metadata_of validate_derived_runtime "_six1DerivedRuntimeAuthoring" o)
      d.derived_runtime_config
      (metadata_of-Stays validate_derived_runtime validate_derived_runtime-again
        "_six1DerivedRuntimeAuthoring" o)
      r,
)

-- A descriptor of a key and a type, whose configurations pass.
pub record IsOf (key : String) (type : FieldType) (d : Descriptor) : Type 0 where
  pub has_its_key : d.field_key ≡ key
  pub has_its_type : d.field_type ≡ type
  pub configs : ConfigsPass d

module _ (k : String) (t : FieldType) where
  metadata-IsOf : (o : Option Object) (d : Descriptor) → IsOf k t d → IsOf k t (with_metadata o d)
  unfolding with_metadata
  metadata-IsOf o d i = record {
    has_its_key = i.has_its_key;
    has_its_type = i.has_its_type;
    configs = with_metadata-ConfigsPass o d i.configs;
  }

  required-IsOf : (b : Bool) (d : Descriptor) → IsOf k t d → IsOf k t (with_required b d)
  required-IsOf false d i = i
  required-IsOf true d i = record {
    has_its_key = i.has_its_key;
    has_its_type = i.has_its_type;
    configs = i.configs;
  }

  rules-IsOf :
      (d : Descriptor) (rules : List FieldRule)
      → IsOf k t d
      → IsOf k t (apply_global_rules_to_descriptor d rules)
  unfolding apply_global_rules_to_descriptor
  rules-IsOf d rules i =
      go (any (λ (r : FieldRule). r.is_readonly) (filter is_global_default_rule rules))
    where
      go : (b : Bool) → IsOf k t (if b then record d { read_only = some true } else d)
      go true = record {
        has_its_key = i.has_its_key;
        has_its_type = i.has_its_type;
        configs = i.configs;
      }
      go false = i

  validated-IsOf :
      (js : Texts) (d d' : Descriptor)
      → IsOf k t d
      → validate_core_field_descriptor js d ≡ some d'
      → IsOf k t d'
  unfolding validate_core_field_descriptor
  validated-IsOf js d d' i h = elim (Bool-cases (is_valid js d)) [
    | inl e ↦ subst (IsOf k t) (some_inj (rw e at h)) i
    | inr e ↦ absurd (some-none (sym (rw e at h)))
  ]

  finished-IsOf :
      (js : Texts) (f : FieldView) (d d' : Descriptor)
      → IsOf k t d
      → validate_core_field_descriptor js (
          apply_global_rules_to_descriptor
            (with_required f.is_required (with_metadata f.validation_json d))
            f.rules)
        ≡ some d'
      → IsOf k t d'
  finished-IsOf js f d d' i h =
      validated-IsOf js _ d'
        (rules-IsOf _ f.rules (required-IsOf f.is_required _ (metadata-IsOf f.validation_json d i)))
        h

pub merge_row-IsOf :
    (js : Texts) (views : List FieldView) (d d' : Descriptor)
    → ConfigsPass d
    → merge_row js views d ≡ some d'
    → IsOf d.field_key d.field_type d'
unfolding merge_row merge_base_with_field_view
merge_row-IsOf js views d d' c h = go (view_of d.field_key views) h
  where
    itself : IsOf d.field_key d.field_type d
    itself = record { has_its_key = refl; has_its_type = refl; configs = c }

    go :
        (o : Option FieldView)
        → elim o [ none ↦ some d | some v ↦ merge_base_with_field_view js d v ] ≡ some d'
        → IsOf d.field_key d.field_type d'
    go none e = subst (IsOf d.field_key d.field_type) (some_inj e) itself
    go (some v) e =
        finished-IsOf d.field_key d.field_type js v _ d'
          (record { has_its_key = refl; has_its_type = refl; configs = c }) e

pub custom-IsOf :
    (js : Texts) (f : FieldView) (d : Descriptor)
    → descriptor_from_custom_field_view js f ≡ some d
    → (t : FieldType) × (normalize_custom_field_type js f.field_type ≡ some t)
      × IsOf f.field_key t d
unfolding descriptor_from_custom_field_view
custom-IsOf js f d h = go (normalize_custom_field_type js f.field_type) refl h
  where
    go :
        (o : Option FieldType)
        → normalize_custom_field_type js f.field_type ≡ o
        → elim o [ none ↦ none | some t ↦ custom_descriptor js f t ] ≡ some d
        → (t : FieldType) × (normalize_custom_field_type js f.field_type ≡ some t)
          × IsOf f.field_key t d
    go none e k = absurd (some-none (sym k))
    go (some t) e k = (
      t,
      e,
      finished-IsOf f.field_key t js f _ d
          (record { has_its_key = refl; has_its_type = refl; configs = (tt, tt) }) k,
    )
