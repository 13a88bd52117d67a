-- ===== src/Descriptors/Writable.antt =====
-- What the write schema says of each field.
use mathlib.Core.Path.{subst}
use six_1_core_api.Prelude.{
  ◌≡◌, refl, sym, ap, inl, inr, Bool, true, false, ◌&&◌, Option, none, some, List,
}
use six_1_core_api.Prelude.Tests.{if◌then◌else◌, Bool-cases, some_inj, some-none}
use six_1_core_api.Prelude.Lists.{All, Memᴰ→All}
use six_1_core_api.Descriptors.{
  Texts, Descriptor, FieldView, is_valid, validate_core_field_descriptor,
}
use six_1_core_api.Descriptors.Merging.{merge_core_field_descriptors_with_field_views}
use six_1_core_api.Descriptors.Writing.{
  Schema, Capability, flag_or, override_of, inferred_for, with_override, is_true, write_capability,
  merge_write_schema_capabilities, finalize_core_field_descriptors,
}
use six_1_core_api.Descriptors.Pairs.{map_each-Pairs, Pairs-map, Pairs-All}
use six_1_core_api.Descriptors.Catalog.{keys_of}

-- Both flags are set, and neither is true of a field that is read only.
pub record Settled (d : Descriptor) : Type 0 where
  pub create : Bool
  pub update : Bool
  pub create_flag : d.can_create ≡ some create
  pub update_flag : d.can_update ≡ some update
  pub create_closed : (create && is_true d.read_only) ≡ false
  pub update_closed : (update && is_true d.read_only) ≡ false

unless_read_only : (r b : Bool) → ((if r then false else b) && r) ≡ false
unless_read_only true b = refl
unless_read_only false true = refl
unless_read_only false false = refl

with_override-Settled :
    (b : Bool) (ov : Capability) (d : Descriptor) → Settled (with_override b ov d)
with_override-Settled b ov d = record {
  create = if is_true d.read_only then false else flag_or ov.can_create b;
  update = if is_true d.read_only then false else flag_or ov.can_update b;
  create_flag = refl;
  update_flag = refl;
  create_closed = unless_read_only (is_true d.read_only) _;
  update_closed = unless_read_only (is_true d.read_only) _;
}

valid-same :
    (js : Texts) (d d' : Descriptor) → validate_core_field_descriptor js d ≡ some d' → d ≡ d'
unfolding validate_core_field_descriptor
valid-same js d d' h = elim (Bool-cases (is_valid js d)) [
  | inl e ↦ some_inj (rw e at h)
  | inr e ↦ absurd (some-none (sym (rw e at h)))
]

write_capability-Settled :
    (js : Texts) (s : Schema) (d d' : Descriptor) → write_capability js s d ≡ some d' → Settled d'
unfolding write_capability
write_capability-Settled js s d d' h =
    subst Settled (valid-same js _ d' h)
      (with_override-Settled (inferred_for s d) (override_of s d) d)

write_capability-key :
    (js : Texts) (s : Schema) (d d' : Descriptor)
    → write_capability js s d ≡ some d'
    → d'.field_key ≡ d.field_key
unfolding write_capability
write_capability-key js s d d' h = sym (ap (λ (x : Descriptor). x.field_key) (valid-same js _ d' h))

-- The fields of the merge, each with its flags.
pub record Finalized (js : Texts) (base : List Descriptor) (views : List FieldView)
    (out : List Descriptor) : Type 0 where
  pub merged : List Descriptor
  pub is_merged : merge_core_field_descriptors_with_field_views js base views ≡ some merged
  pub same_keys : keys_of out ≡ keys_of merged
  pub settled : All Settled out

-- The descriptors of a configurable object, where their composition succeeds, are those of the
-- merge with the same keys in the same order; each says whether it may be written on create
-- and on update, and neither is so of a field that is read only, whatever the DTOs, the
-- registry and the overrides say.
pub finalize_core_field_descriptors-Finalized :
    (js : Texts) (s : Schema) (base : List Descriptor) (views : List FieldView)
    (out : List Descriptor)
    → finalize_core_field_descriptors js s base views ≡ some out
    → Finalized js base views out
unfolding finalize_core_field_descriptors merge_write_schema_capabilities
finalize_core_field_descriptors-Finalized js s base views out h =
    go (merge_core_field_descriptors_with_field_views js base views) refl h
  where
    go :
        (o : Option (List Descriptor))
        → merge_core_field_descriptors_with_field_views js base views ≡ o
        → elim o [ none ↦ none | some merged ↦ merge_write_schema_capabilities js s merged ]
          ≡ some out
        → Finalized js base views out
    go none e k = absurd (some-none (sym k))
    go (some merged) e k =
        let pairs = map_each-Pairs (write_capability js s) merged out k in
        let all = Memᴰ→All (λ (d : Descriptor). Unit) merged (λ d m. tt) in
        record {
          merged = merged;
          is_merged = e;
          same_keys =
              Pairs-map _ _ _ (λ (d : Descriptor). Unit) merged out
                (λ d d' u q. write_capability-key js s d d' q) all pairs;
          settled =
              Pairs-All _ (λ (d : Descriptor). Unit) Settled merged out
                (λ d d' u q. write_capability-Settled js s d d' q) all pairs;
        }
