-- ===== src/Authoring/MetadataAgain.antt =====
-- What the metadata of fields is made of is stable; the metadata of derived fields.
use mathlib.Core.Path.{subst}
use six_1_core_api.Prelude.{
  String, ◌≡◌, refl, sym, ap, ◌∙◌, inl, inr, Bool, true, false, Option, none, some, List, [], ◌∷◌,
}
use six_1_core_api.Prelude.Tests.{Bool-cases, some_inj}
use six_1_core_api.Prelude.Texts.{has_text, trim, has_text-trim, trim_idem}
use six_1_core_api.Json.{Json, null, str, get}
use six_1_core_api.Authoring.{
  Problem, ok, failed, optional, needed, defined, present, keep_if, trimmed, not_text, required,
  bad_choice, refused, array_map, version_one, only, run, normal, object_with, default_or,
}
use six_1_core_api.Authoring.Rules.{Stable, ok_inj}
use six_1_core_api.Authoring.Stable.{
  StableOn, optional-Stable, needed-Stable, needed-keep_if, keep_if-StableOn, handled,
  needed-version_one, version_one-some, trimmed-StableOn,
}
use six_1_core_api.Authoring.Objects.{normal-Ends, object_with-StableOn, object_with-some}
use six_1_core_api.Authoring.Mapped.{
  array_map-StableOn, array_map-some, default_or-some, Given-needed, default_or-StableOn,
}
use six_1_core_api.Authoring.ListView.{only_version}
use six_1_core_api.Authoring.Metadata

texts-StableOn : (key : String) → StableOn (array_map (trimmed (not_text key)) refused key)
texts-StableOn key =
    array_map-StableOn (trimmed (not_text key)) refused key (trimmed-StableOn (not_text key))

pub optional_texts :
    (key : String) → Stable (optional (array_map (trimmed (not_text key)) refused key))
optional_texts key = optional-Stable _ (texts-StableOn key)

pub needed_texts :
    (p : Problem) (key : String)
    → Stable (needed p (array_map (trimmed (not_text key)) refused key))
needed_texts p key =
    needed-Stable p _ (texts-StableOn key) (array_map-some (trimmed (not_text key)) key)

pub defined-keep_if :
    (test : Json → Bool) (p : Problem) → test null ≡ false → Stable (defined (keep_if test p))
unfolding defined
defined-keep_if test p n = record {
  keeps = λ v w h.
      let (j, e) = handled (keep_if test p) v w h in (keep_if-StableOn test p n).keeps j w e;
  leaves = λ v h. refl;
}

ref_token-keeps :
    (key : String) (j w : Json)
    → Metadata.ref_token key j ≡ ok (some w)
    → (Metadata.ref_token key w ≡ ok (some w)) × (present (some w) ≡ some w)
unfolding Metadata.ref_token
ref_token-keeps key (str s) w h = elim (Bool-cases (has_text s)) [
  | inr e ↦ let q : failed (not_text key) ≡ ok (some w) = rw e at h in cc
  | inl e ↦ elim (Bool-cases (Metadata.is_url false (trim s))) [
    | inl u ↦ let q : failed (bad_choice key) ≡ ok (some w) = rw (e, u) at h in cc
    | inr u ↦
        let q : str (trim s) ≡ w = some_inj (ok_inj (rw (e, u) at h)) in
        subst (λ z. (Metadata.ref_token key z ≡ ok (some z)) × (present (some z) ≡ some z)) q
          (rw (has_text-trim s, e, trim_idem s, u) refl, refl)
  ]
]
ref_token-keeps key _ w h = cc

ref_token-some : (key : String) (j : Json) → Metadata.ref_token key j ≡ ok none → ⊥
unfolding Metadata.ref_token
ref_token-some key (str s) h = elim (Bool-cases (has_text s)) [
  | inr e ↦ let q : failed (not_text key) ≡ ok none = rw e at h in cc
  | inl e ↦ elim (Bool-cases (Metadata.is_url false (trim s))) [
    | inl u ↦ let q : failed (bad_choice key) ≡ ok none = rw (e, u) at h in cc
    | inr u ↦ let q : ok (some (str (trim s))) ≡ ok none = rw (e, u) at h in cc
  ]
]
ref_token-some key _ h = cc

pub token-Stable : (p : Problem) (key : String) → Stable (needed p (Metadata.ref_token key))
token-Stable p key =
    needed-Stable p (Metadata.ref_token key)
      (record {
        keeps = λ j w h. (ref_token-keeps key j w h).0;
        is_present = λ j w h. (ref_token-keeps key j w h).1;
      })
      (ref_token-some key)

pub ruleset stable = (
  optional_texts, needed_texts, needed-keep_if, defined-keep_if, token-Stable, needed-version_one,
  refl,
)

display-StableOn : StableOn (
    default_or only_version "_six1DerivedDisplayAuthoring"
      ("schemaVersion" ∷ "languageFallbackChain" ∷ [])
      Metadata.display_rules)
unfolding only run get needed optional version_one
display-StableOn =
    default_or-StableOn only_version "_six1DerivedDisplayAuthoring"
      ("schemaVersion" ∷ "languageFallbackChain" ∷ []) Metadata.display_rules
      (record { differ = refl; are_within = refl; all_stable = search stable })
      (Given-needed "schemaVersion" (required "schemaVersion") (version_one "schemaVersion")
        Metadata.display_entries (version_one-some "schemaVersion"))
      refl refl

runtime-StableOn : StableOn (
    object_with "_six1DerivedRuntimeAuthoring" Metadata.runtime_keys
      (λ _. Metadata.runtime_rules)
      normal)
runtime-StableOn =
    object_with-StableOn "_six1DerivedRuntimeAuthoring" Metadata.runtime_keys normal normal-Ends
      (λ _. Metadata.runtime_rules)
      (λ _. record { differ = refl; are_within = refl; all_stable = search stable }) (λ _ _ _. refl)

-- The languages of a derived display that have been validated are accepted again.
pub derived_display-Stable : Stable Metadata.validate_derived_display
unfolding Metadata.validate_derived_display
derived_display-Stable =
    needed-Stable _ _ display-StableOn
      (default_or-some only_version "_six1DerivedDisplayAuthoring" _ Metadata.display_rules)

-- The metadata of a derived field that has been validated is accepted again as it is.
pub validate_derived_runtime-again :
    (v : Option Json) (w : Json)
    → Metadata.validate_derived_runtime v ≡ ok (some w)
    → Metadata.validate_derived_runtime (some w) ≡ ok (some w)
unfolding Metadata.validate_derived_runtime
validate_derived_runtime-again v w h =
    (needed-Stable _ _ runtime-StableOn (
        object_with-some "_six1DerivedRuntimeAuthoring" Metadata.runtime_keys
          (λ _. Metadata.runtime_rules))).keeps
      v w h
