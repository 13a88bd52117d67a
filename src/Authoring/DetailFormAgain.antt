-- ===== src/Authoring/DetailFormAgain.antt =====
-- The panels of a view that have been validated are accepted again.
use mathlib.Core.Path.{subst}
use six_1_core_api.Prelude.{String, ◌≡◌, refl, sym, inl, inr, Option, none, some, List, [], ◌∷◌}
use six_1_core_api.Prelude.Tests.{str_eq, Bool-cases, some_inj}
use six_1_core_api.Prelude.Lists.{any}
use six_1_core_api.Prelude.Texts.{has_text, trim, has_text-trim, trim_idem}
use six_1_core_api.Json.{Json, str, arr, nil, get, elements, items}
use six_1_core_api.Authoring.{
  ok, failed, optional, needed, present, handle, not_text, required, duplicate, version_one, only,
  run, default_or,
}
use six_1_core_api.Authoring.Rules.{Stable, ok_inj, >>=-passed}
use six_1_core_api.Authoring.Stable.{StableOn, optional-Stable, version_one-some}
use six_1_core_api.Authoring.Mapped.{elements-items, Given-needed, default_or-StableOn}
use six_1_core_api.Authoring.Metadata
use six_1_core_api.Authoring.MetadataAgain.{stable}

-- The texts of panels, trimmed and without repetition, are so again.
unique_texts-again :
    (seen : List String) (js vs : List Json)
    → Metadata.unique_texts seen js ≡ ok vs
    → Metadata.unique_texts seen vs ≡ ok vs
unfolding Metadata.unique_texts
unique_texts-again seen [] vs h = rw (← ok_inj h) refl
unique_texts-again seen (str s ∷ js) vs h = elim (Bool-cases (has_text s)) [
  | inr e ↦ let q : failed (not_text "panels") ≡ ok vs = rw e at h in cc
  | inl e ↦ elim (Bool-cases (any (str_eq (trim s)) seen)) [
    | inl u ↦ let q : failed (duplicate "panels" (trim s)) ≡ ok vs = rw (e, u) at h in cc
    | inr u ↦
        let (us, k, n) =
          >>=-passed (Metadata.unique_texts (trim s ∷ seen) js) (λ us. ok (str (trim s) ∷ us))
            (rw (e, u) at h) in
        subst (λ z. Metadata.unique_texts seen z ≡ ok z) (ok_inj n)
          (rw (has_text-trim s, e, trim_idem s, u, unique_texts-again (trim s ∷ seen) js us k) refl)
  ]
]
unique_texts-again seen (_ ∷ js) vs h = cc

panels-keeps :
    (j : Json) (w : Option Json)
    → Metadata.panels j ≡ ok w
    → (vs : List Json) × (w ≡ some (arr (items vs)))
      × (Metadata.panels (arr (items vs)) ≡ ok (some (arr (items vs))))
unfolding Metadata.panels
panels-keeps (arr js) w h =
    let (vs, e, n) = >>=-passed (Metadata.unique_texts [] (elements js)) _ h in
    (vs, sym (ok_inj n), rw (elements-items vs, unique_texts-again [] (elements js) vs e) refl)
panels-keeps _ w h = cc

panels_rule-keeps :
    (p : Option Json) (w : Option Json)
    → handle (ok (some (arr nil))) Metadata.panels p ≡ ok w
    → (j : Json) × (w ≡ some j)
      × (handle (ok (some (arr nil))) Metadata.panels (present (some j)) ≡ ok (some j))
unfolding Metadata.panels Metadata.unique_texts
panels_rule-keeps none w h = (arr nil, sym (ok_inj h), refl)
panels_rule-keeps (some j) w h = let (vs, e, k) = panels-keeps j w h in (arr (items vs), e, k)

panels-Stable : Stable (λ v. handle (ok (some (arr nil))) Metadata.panels (present v))
panels-Stable = record {
  keeps = λ v w h.
      let (j, e, k) = panels_rule-keeps (present v) (some w) h in
      subst (λ z. handle (ok (some (arr nil))) Metadata.panels (present (some z)) ≡ ok (some z))
        (sym (some_inj e)) k;
  leaves = λ v h. let (j, e, k) = panels_rule-keeps (present v) none h in cc;
}

detail-StableOn : StableOn (
    default_or Metadata.no_panels "detail/form config_json"
      ("schemaVersion" ∷ "panels" ∷ [])
      Metadata.detail_rules)
unfolding only run get needed optional version_one Metadata.panels Metadata.unique_texts
detail-StableOn =
    default_or-StableOn Metadata.no_panels "detail/form config_json"
      ("schemaVersion" ∷ "panels" ∷ []) Metadata.detail_rules
      (record { differ = refl; are_within = refl; all_stable = search (stable, panels-Stable) })
      (Given-needed "schemaVersion" (required "schemaVersion") (version_one "schemaVersion")
        Metadata.detail_entries (version_one-some "schemaVersion"))
      refl refl

-- The configuration of a detail or form view that has been validated is accepted again as it
-- is: its panels are trimmed and differ from each other, and stay so.
pub validate_detail_form-again :
    (v : Option Json) (w : Json)
    → Metadata.validate_detail_form v ≡ ok (some w)
    → Metadata.validate_detail_form (some w) ≡ ok (some w)
unfolding Metadata.validate_detail_form
validate_detail_form-again v w h = (optional-Stable _ detail-StableOn).keeps v w h
