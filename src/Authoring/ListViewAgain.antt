-- ===== src/Authoring/ListViewAgain.antt =====
-- A list view's configuration that has been validated is accepted again as it is.
use mathlib.Core.Path.{subst}
use six_1_core_api.Prelude.{String, ◌≡◌, refl, sym, inl, inr, Option, none, some, List, [], ◌∷◌}
use six_1_core_api.Prelude.Tests.{Bool-cases, some_inj}
use six_1_core_api.Prelude.Texts.{has_text, trim, has_text-trim, trim_idem}
use six_1_core_api.Json.{Json, str, obj, Fields, get}
use six_1_core_api.Authoring.{
  Result, ok, failed, only, run, needed, optional, present, handle, trimmed, not_text, omitted,
  required, normal, unless_empty, object_with, array_map, default_or, Rule, version_one,
}
use six_1_core_api.Authoring.Rules.{Stable, ok_inj}
use six_1_core_api.Authoring.Stable.{
  StableOn, optional-Stable, optional-keep_if, needed-keep_if, optional-trimmed, needed-trimmed,
  optional-array_of, needed-version_one, version_one-some,
}
use six_1_core_api.Authoring.Objects.{
  Sound, normal-Ends, unless_empty-Ends, object_with-StableOn, object_then-StableOn,
  object_of-StableOn, object_with-obj,
}
use six_1_core_api.Authoring.Mapped.{array_map-StableOn, Given-needed, default_or-StableOn}
use six_1_core_api.Authoring.ListView

label-keeps :
    (j w : Json)
    → ListView.label j ≡ ok (some w)
    → (ListView.label w ≡ ok (some w)) × (present (some w) ≡ some w)
unfolding ListView.label
label-keeps (str s) w h = elim (Bool-cases (has_text s)) [
  | inr e ↦ let q : ok none ≡ ok (some w) = rw e at h in cc
  | inl e ↦
      let q : str (trim s) ≡ w = some_inj (ok_inj (rw e at h)) in
      subst (λ z. (ListView.label z ≡ ok (some z)) × (present (some z) ≡ some z)) q
        (rw (has_text-trim s, e, trim_idem s) refl, refl)
]
label-keeps _ w h = cc

label-Stable : Stable (optional ListView.label)
label-Stable =
    optional-Stable ListView.label (record {
      keeps = λ j w h. (label-keeps j w h).0;
      is_present = λ j w h. (label-keeps j w h).1;
    })

-- A text stays a text and an object an object.
text_or-keeps :
    (f : Json → Result (Option Json)) (name : String) (j w : Json)
    → StableOn f
    → ((j w : Json) → f j ≡ ok (some w) → (fs : Fields) × (obj fs ≡ w))
    → ListView.text_or f name j ≡ ok (some w)
    → (ListView.text_or f name w ≡ ok (some w)) × (present (some w) ≡ some w)
unfolding ListView.text_or trimmed
text_or-keeps f name (str s) w st o h = elim (Bool-cases (has_text s)) [
  | inr e ↦ let q : failed (not_text name) ≡ ok (some w) = rw e at h in cc
  | inl e ↦
      let q : str (trim s) ≡ w = some_inj (ok_inj (rw e at h)) in
      subst (λ z. (ListView.text_or f name z ≡ ok (some z)) × (present (some z) ≡ some z)) q
        (rw (has_text-trim s, e, trim_idem s) refl, refl)
]
text_or-keeps f name (obj fs) w st o h =
    let (gs, e) = o (obj fs) w h in
    let again = st.keeps (obj fs) w h in
    subst (λ z. (ListView.text_or f name z ≡ ok (some z)) × (present (some z) ≡ some z)) e
      (subst (λ z. f z ≡ ok (some z)) (sym e) again, refl)
text_or-keeps f name _ w st o h = cc

module _ (name : String) (allowed : List String) (rules : List Rule) (s : Sound allowed rules) where
  entries-StableOn : StableOn (
      array_map (ListView.text_or (object_with name allowed (λ _. rules) normal) name) omitted name)
  entries-StableOn = array_map-StableOn (ListView.text_or f name) omitted name (record {
    keeps = λ j w h. (text_or-keeps f name j w stable are_objects h).0;
    is_present = λ j w h. (text_or-keeps f name j w stable are_objects h).1;
  })
    where
      f : Json → Result (Option Json)
      f = object_with name allowed (λ _. rules) normal

      stable : StableOn f
      stable =
          object_with-StableOn name allowed normal normal-Ends (λ _. rules) (λ _. s) (λ _ _ _. refl)

      are_objects : (j w : Json) → f j ≡ ok (some w) → (fs : Fields) × (obj fs ≡ w)
      are_objects = object_with-obj name allowed (λ _. rules)

ruleset stable = (
  optional-trimmed, needed-trimmed, optional-keep_if, needed-keep_if, optional-array_of,
  needed-version_one, label-Stable, refl,
)

columns-Stable : Stable (optional ListView.columns)
unfolding ListView.columns
columns-Stable = optional-Stable _ (
    entries-StableOn "table.columns" ("field" ∷ "label" ∷ []) ListView.column_rules
      (record { differ = refl; are_within = refl; all_stable = search stable }))

actions-Stable : Stable (optional ListView.actions)
unfolding ListView.actions
actions-Stable = optional-Stable _ (
    entries-StableOn "table.actions" ("bindingKey" ∷ "label" ∷ "path" ∷ "method" ∷ [])
      ListView.action_rules
      (record { differ = refl; are_within = refl; all_stable = search stable }))

pagination-Stable : Stable (optional ListView.pagination)
unfolding ListView.pagination
pagination-Stable = optional-Stable _ (
    object_with-StableOn "table.pagination" ("defaultLimit" ∷ "limitOptions" ∷ []) unless_empty
      unless_empty-Ends (λ _. ListView.pagination_rules)
      (λ _. record { differ = refl; are_within = refl; all_stable = search stable })
      (λ _ _ _. refl))

sort-Stable : Stable (optional ListView.sort)
unfolding ListView.sort
sort-Stable = optional-Stable _ (
    object_of-StableOn "table.defaultSort" ("field" ∷ "direction" ∷ []) ListView.sort_rules
      (record { differ = refl; are_within = refl; all_stable = search stable }))

table-Stable : Stable (optional ListView.table)
unfolding ListView.table
table-Stable = optional-Stable _ (
    object_then-StableOn "table" ListView.table_keys normal normal-Ends ListView.table_rules
      (record {
        differ = refl;
        are_within = refl;
        all_stable =
            search (stable, columns-Stable, actions-Stable, pagination-Stable, sort-Stable);
      }))

board-Stable : Stable (optional ListView.board)
unfolding ListView.board
board-Stable = optional-Stable _ (
    object_then-StableOn "board" ListView.board_keys unless_empty unless_empty-Ends
      ListView.board_rules
      (record { differ = refl; are_within = refl; all_stable = search stable }))

list-StableOn :
    StableOn
      (default_or ListView.only_version "list config_json" ListView.list_keys ListView.list_rules)
unfolding only run get needed optional version_one
list-StableOn =
    default_or-StableOn ListView.only_version "list config_json" ListView.list_keys
      ListView.list_rules
      (record {
        differ = refl;
        are_within = refl;
        all_stable = search (stable, table-Stable, board-Stable);
      })
      (Given-needed "schemaVersion" (required "schemaVersion") (version_one "schemaVersion")
        ListView.list_entries (version_one-some "schemaVersion"))
      refl refl

handled_again :
    (p : Option Json) (w : Json)
    → handle
        (normal ListView.only_version)
        (default_or ListView.only_version "list config_json" ListView.list_keys ListView.list_rules)
        p
      ≡ ok (some w)
    → (default_or ListView.only_version "list config_json" ListView.list_keys ListView.list_rules w
        ≡ ok (some w))
      × (present (some w) ≡ some w)
unfolding default_or only run get needed optional version_one
handled_again none w h =
    subst
      (λ z.
        (default_or ListView.only_version "list config_json" ListView.list_keys ListView.list_rules
            z
          ≡ ok (some z))
        × (present (some z) ≡ some z))
      (some_inj (ok_inj h)) (refl, refl)
handled_again (some j) w h = (list-StableOn.keeps j w h, list-StableOn.is_present j w h)

-- A list view's configuration that has been validated is accepted again as it is, with its
-- columns, actions, pagination, filters, sorting and board.
pub validate_list_view-again :
    (v : Option Json) (w : Json)
    → ListView.validate_list_view v ≡ ok (some w)
    → ListView.validate_list_view (some w) ≡ ok (some w)
unfolding ListView.validate_list_view
validate_list_view-again v w h = let (a, b) = handled_again (present v) w h in rw b a
