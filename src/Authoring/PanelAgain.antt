-- ===== src/Authoring/PanelAgain.antt =====
-- A panel's layout that has been validated is accepted again as it is.
use six_1_core_api.Prelude.{
  String, ◌≡◌, refl, ap, sym, ◌∙◌, true, false, Bool, Option, none, some, List, [], ◌∷◌,
}
use six_1_core_api.Prelude.Tests.{str_eq, if◌then◌else◌}
use six_1_core_api.Json.{Json, null, arr, nil, cons, Object, get}
use six_1_core_api.Authoring.{
  Problem, Result, ok, failed, normal, present, optional, needed, keep_if, is_object, is_one_of,
  not_object, Rule, run, bad_choice, required,
}
use six_1_core_api.Authoring.Rules.{
  Stable, run-Ran, run-keys, get-with_entry_other, get-with_entry_self,
}
use six_1_core_api.Authoring.Stable.{
  StableOn, optional-Stable, needed-Stable, optional-keep_if, needed-keep_if, optional-trimmed,
  needed-trimmed, optional-array_of, needed-array_of, needed-version_one, same-StableOn,
  keep_if-same, keep_if-some, handled_needed,
}
use six_1_core_api.Authoring.Objects.{
  Sound, normal-Ends, object_with-StableOn, object_with-some, object_then-StableOn,
}
use six_1_core_api.Authoring.Layouts.{layout_with-StableOn, layout_with-some}
use six_1_core_api.Authoring.Labels.{labels-StableOn}
use six_1_core_api.Authoring.Panel

ruleset stable = (
  optional-trimmed, needed-trimmed, optional-keep_if, needed-keep_if, optional-array_of,
  needed-array_of, needed-version_one, refl,
)

default_sort-Sound : Sound ("field" ∷ "direction" ∷ []) Panel.default_sort_rules
default_sort-Sound = record { differ = refl; are_within = refl; all_stable = search stable }

default_sort-Stable : Stable (optional Panel.default_sort)
unfolding Panel.default_sort
default_sort-Stable = optional-Stable Panel.default_sort (
    object_then-StableOn "layout.defaultSort" ("field" ∷ "direction" ∷ []) normal normal-Ends
      Panel.default_sort_rules default_sort-Sound)

labels-Stable : Stable (optional Panel.labels)
labels-Stable = optional-Stable Panel.labels labels-StableOn

table-Sound : Sound Panel.table_keys Panel.table_rules
table-Sound = record {
  differ = refl;
  are_within = refl;
  all_stable = search (stable, default_sort-Stable, labels-Stable);
}

-- What a needed check has to be.
abbrev Fit : (Json → Result (Option Json)) → Type 0
Fit f = StableOn f × ((j : Json) → f j ≡ ok none → ⊥)

if-Fit : (b : Bool) (f g : Json → Result (Option Json)) → Fit f → Fit g → Fit (if b then f else g)
if-Fit true f g a b = a
if-Fit false f g a b = b

failed-Fit : (p : Problem) → Fit (λ (j : Json). failed p)
failed-Fit p = (record { keeps = λ j w h. (cc); is_present = λ j w h. (cc) }, λ j h. (cc))

layout_of-Fit :
    (keys : List String) (rules : List Rule) → Sound keys rules → Fit (Panel.layout_of keys rules)
layout_of-Fit keys rules s = (
  object_with-StableOn "layout" keys normal normal-Ends (λ o. rules) (λ o. s) (λ o out h. refl),
  object_with-some "layout" keys (λ o. rules),
)

cards-Sound : Sound Panel.cards_keys Panel.cards_rules
cards-Sound = record {
  differ = refl;
  are_within = refl;
  all_stable = search (stable, labels-Stable);
}

summary-Fit : Fit (Panel.layout_with ("metrics" ∷ "keyValueFields" ∷ []) Panel.summary_rules [])
summary-Fit = (
  layout_with-StableOn ("metrics" ∷ "keyValueFields" ∷ []) Panel.summary_rules [] given nothing refl
      refl,
  layout_with-some ("metrics" ∷ "keyValueFields" ∷ []) Panel.summary_rules [] given nothing refl
      refl,
)
  where
    given : Sound ("metrics" ∷ "keyValueFields" ∷ []) Panel.summary_rules
    given = record { differ = refl; are_within = refl; all_stable = search stable }

    nothing : Sound ("metrics" ∷ "keyValueFields" ∷ []) []
    nothing = record { differ = refl; are_within = refl; all_stable = tt }

abbrev form_keys : List String
form_keys = "sections" ∷ "fieldOrder" ∷ "relationKey" ∷ "targetEntityKey" ∷ "dataBinding" ∷ []

form-Fit : Fit (Panel.layout_with form_keys Panel.sections_rules Panel.form_rules)
form-Fit = (
  layout_with-StableOn form_keys Panel.sections_rules Panel.form_rules given others refl refl,
  layout_with-some form_keys Panel.sections_rules Panel.form_rules given others refl refl,
)
  where
    given : Sound form_keys Panel.sections_rules
    given = record { differ = refl; are_within = refl; all_stable = search stable }

    others : Sound form_keys Panel.form_rules
    others = record { differ = refl; are_within = refl; all_stable = search stable }

timeline-Sound : Sound ("timeField" ∷ "eventFields" ∷ []) Panel.timeline_rules
timeline-Sound = record { differ = refl; are_within = refl; all_stable = search stable }

slot-Sound :
    Sound ("slotKey" ∷ "widgetRef" ∷ "inputBindings" ∷ "eventBindings" ∷ []) Panel.slot_rules
slot-Sound = record { differ = refl; are_within = refl; all_stable = search stable }

validate_layout-Fit : (mode : String) → Fit (Panel.validate_layout mode)
unfolding Panel.validate_layout
validate_layout-Fit mode =
    if-Fit (str_eq mode "table") _ _ (layout_of-Fit Panel.table_keys Panel.table_rules table-Sound)
      (if-Fit (str_eq mode "cards") _ _
        (layout_of-Fit Panel.cards_keys Panel.cards_rules cards-Sound)
        (if-Fit (str_eq mode "summary") _ _ summary-Fit (
          if-Fit (str_eq mode "form-section") _ _ form-Fit (
            if-Fit (str_eq mode "timeline") _ _ (layout_of-Fit _ _ timeline-Sound) (
              if-Fit (str_eq mode "custom-slot") _ _ (layout_of-Fit _ _ slot-Sound)
                (failed-Fit (bad_choice "displayMode")))))))

object_or_empty-same :
    (label : String) (j w : Json) → Panel.object_or_empty label j ≡ ok (some w) → j ≡ w
unfolding Panel.object_or_empty
object_or_empty-same label (arr nil) w h = cc
object_or_empty-same label (arr (cons x xs)) w h =
    (keep_if-same is_object (not_object label) (arr (cons x xs)) w h).0
object_or_empty-same label _ w h = (keep_if-same is_object (not_object label) _ w h).0

object_or_empty-null :
    (label : String) (w : Json) → Panel.object_or_empty label null ≡ ok (some w) → ⊥
unfolding Panel.object_or_empty
object_or_empty-null label w h =
    let e = (keep_if-same is_object (not_object label) null w h).1 in cc

object_or_empty-Stable : (label : String) → Stable (optional (Panel.object_or_empty label))
object_or_empty-Stable label = optional-Stable (Panel.object_or_empty label) (
    same-StableOn (Panel.object_or_empty label) (object_or_empty-same label)
      (object_or_empty-null label))

layout-Stable : (mode : String) → Stable (needed (required "layout") (Panel.validate_layout mode))
layout-Stable mode =
    let f = validate_layout-Fit mode in
    needed-Stable (required "layout") (Panel.validate_layout mode) f.0 f.1

panel-Sound : (mode : String) → Sound Panel.panel_keys (Panel.panel_rules mode)
panel-Sound mode = record {
  differ = refl;
  are_within = refl;
  all_stable = search (stable, layout-Stable mode, object_or_empty-Stable);
}

-- A value that a needed test lets pass is the value itself.
needed-keep_if-same :
    (q : Problem) (test : Json → Bool) (p : Problem) (v w : Option Json)
    → needed q (keep_if test p) v ≡ ok w
    → w ≡ v
unfolding needed
needed-keep_if-same q test p none w h = cc
needed-keep_if-same q test p (some j) none h =
    let (i, e) = handled_needed q (keep_if test p) (present (some j)) none h in
    absurd (keep_if-some test p i e)
needed-keep_if-same q test p (some null) (some w) h = cc
needed-keep_if-same q test p (some j) (some w) h = ap some (sym (keep_if-same test p _ w h).0)

-- The mode is read from the normal form as from the object.
panel_rules-same :
    (mode : String) (o out : Object)
    → run (Panel.panel_rules mode) o ≡ ok out
    → get "displayMode" out ≡ get "displayMode" o
panel_rules-same mode o out h =
    let a = run-Ran _ _ o out h in
    let b = run-Ran _ _ o a.rest a.others in
    let absent = run-keys _ o b.rest "displayMode" b.others refl in
    ap (get "displayMode") a.result
    ∙ get-with_entry_other "schemaVersion" "displayMode" a.value a.rest refl
    ∙ ap (get "displayMode") b.result
    ∙ get-with_entry_self "displayMode" b.value b.rest absent
    ∙ needed-keep_if-same (required "displayMode") (is_one_of Panel.display_modes)
        (bad_choice "displayMode") (get "displayMode" o) b.value b.checked

panel-Stable : Stable Panel.validate_panel
unfolding Panel.validate_panel
panel-Stable = optional-Stable _ (
    object_with-StableOn "layout_config" Panel.panel_keys normal normal-Ends
      (λ o. Panel.panel_rules (Panel.text_of (get "displayMode" o)))
      (λ o. panel-Sound (Panel.text_of (get "displayMode" o)))
      (λ o out h.
        ap (λ v. Panel.panel_rules (Panel.text_of v))
          (panel_rules-same (Panel.text_of (get "displayMode" o)) o out h)))

-- A panel's layout that has been validated is accepted again as it is: what the validator
-- makes of any value, where it makes a configuration of it, it makes of that configuration
-- again, whatever the display mode.
pub validate_panel-again :
    (v : Option Json) (w : Json)
    → Panel.validate_panel v ≡ ok (some w)
    → Panel.validate_panel (some w) ≡ ok (some w)
validate_panel-again v w h = panel-Stable.keeps v w h
