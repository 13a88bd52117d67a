-- ===== src/Authoring/Examples.antt =====
-- Configurations as an author may save them.
use six_1_core_api.Prelude.{◌≡◌, refl, true, false, none, some, [], ◌∷◌}
use six_1_core_api.Prelude.Texts.{blank, has_text, trim, trim_start, trim_end}
use six_1_core_api.Json.{Json, bool, num, str, arr, obj, nil, cons, Object, get, put, fields}
use six_1_core_api.Authoring.{
  ok, optional, needed, defined, keep_if, trimmed, check_elements, array_of, map_elements,
  array_map, version_one, only, run, object_with, object_then, default_or,
}
use six_1_core_api.Authoring.Panel
use six_1_core_api.Authoring.ListView
use six_1_core_api.Authoring.Metadata
use six_1_core_api.Authoring.PanelAgain.{validate_panel-again}
use six_1_core_api.Authoring.ListViewAgain.{validate_list_view-again}
use six_1_core_api.Authoring.LookupAgain.{validate_lookup_select-again}
use six_1_core_api.Authoring.DetailFormAgain.{validate_detail_form-again}

abbrev object : Object → Json
object o = obj (fields o)

abbrev layout_given : Object
layout_given = ("slotKey", str " chart ") ∷ ("widgetRef", str "w1") ∷ []

abbrev panel_given : Json
panel_given = object (
    ("displayMode", str "custom-slot")
    ∷ ("schemaVersion", num 1)
    ∷ ("layout", object layout_given)
    ∷ ("actions", arr nil)
    ∷ [])

abbrev panel_normal : Json
panel_normal = object (
    ("schemaVersion", num 1)
    ∷ ("displayMode", str "custom-slot")
    ∷ ("layout", object (("slotKey", str "chart") ∷ ("widgetRef", str "w1") ∷ []))
    ∷ [])

validate_panel-again_example : Panel.validate_panel (some panel_normal) ≡ ok (some panel_normal)
unfolding Panel.validate_panel Panel.validate_layout Panel.object_or_empty object_with only run get
    optional needed keep_if trimmed version_one trim trim_start trim_end has_text blank
validate_panel-again_example = validate_panel-again (some panel_given) panel_normal refl

-- A table with labels of its fields, of which two keys are the same when they are trimmed.
abbrev labels_given : Object
labels_given = ("name", str "Name") ∷ (" name", str " Full name ") ∷ []

labels_normal :
    Panel.labels (object labels_given) ≡ ok (some (object (("name", str "Full name") ∷ [])))
unfolding Panel.labels Panel.normalize_labels Panel.label_of put trim trim_start trim_end has_text
    blank
labels_normal = refl

abbrev table_given : Object
table_given =
    (
      "columns",
      arr (
          cons (str " name ") (cons (object (("field", str "age") ∷ ("label", str " ") ∷ [])) nil)),
    )
    ∷ ("rowActions", arr nil)
    ∷ []

abbrev list_given : Json
list_given =
    object (("schemaVersion", num 1) ∷ ("table", object table_given) ∷ ("board", object []) ∷ [])

abbrev list_normal : Json
list_normal = object (
    ("schemaVersion", num 1)
    ∷ (
      "table",
      object (
          ("columns", arr (cons (str "name") (cons (object (("field", str "age") ∷ [])) nil)))
          ∷ ("rowActions", arr nil)
          ∷ []),
    )
    ∷ [])

validate_list_view-again_example :
    ListView.validate_list_view (some list_normal) ≡ ok (some list_normal)
unfolding ListView.validate_list_view ListView.table ListView.board ListView.columns
    ListView.text_or ListView.label object_with object_then default_or only run get optional needed
    keep_if trimmed version_one array_map map_elements array_of check_elements trim trim_start
    trim_end has_text blank
validate_list_view-again_example = validate_list_view-again (some list_given) list_normal refl

-- A board without entries is left out, a table without entries is kept.
empty_board : ListView.board (object []) ≡ ok none
unfolding ListView.board object_then only run get optional keep_if array_of
empty_board = refl

empty_table : ListView.table (object []) ≡ ok (some (object []))
unfolding ListView.table ListView.columns ListView.pagination ListView.actions ListView.sort
    object_then only run get optional keep_if array_of array_map
empty_table = refl

abbrev runtime_given : Json
runtime_given = object (
    ("schemaVersion", num 1)
    ∷ ("operation", str "concat")
    ∷ ("sourceFieldKeys", arr (cons (str " first ") (cons (str "last") nil)))
    ∷ ("separator", str " ")
    ∷ [])

abbrev runtime_normal : Json
runtime_normal = object (
    ("schemaVersion", num 1)
    ∷ ("operation", str "concat")
    ∷ ("sourceFieldKeys", arr (cons (str "first") (cons (str "last") nil)))
    ∷ ("separator", str " ")
    ∷ [])

-- What has been given is put in its normal form.
runtime_normalized :
    Metadata.validate_derived_runtime (some runtime_given) ≡ ok (some runtime_normal)
unfolding Metadata.validate_derived_runtime object_with only run get needed defined keep_if trimmed
    array_map map_elements trim trim_start trim_end has_text blank
runtime_normalized = refl

abbrev lookup_given : Json
lookup_given = object (
    ("schemaVersion", num 1)
    ∷ ("dataRef", str " customers ")
    ∷ ("valueKey", str "id")
    ∷ ("labelKey", str "name")
    ∷ ("multi", bool true)
    ∷ [])

abbrev lookup_normal : Json
lookup_normal = object (
    ("schemaVersion", num 1)
    ∷ ("dataRef", str "customers")
    ∷ ("valueKey", str "id")
    ∷ ("labelKey", str "name")
    ∷ ("multi", bool true)
    ∷ [])

validate_lookup_select-again_example :
    Metadata.validate_lookup_select (some lookup_normal) ≡ ok (some lookup_normal)
unfolding Metadata.validate_lookup_select Metadata.lookup_select Metadata.ref_token Metadata.is_url
    only run get needed defined keep_if trim trim_start trim_end has_text blank
validate_lookup_select-again_example =
    validate_lookup_select-again (some lookup_given) lookup_normal refl

url_refused : Metadata.is_url false "https://six1.example" ≡ true
unfolding Metadata.is_url
url_refused = refl

abbrev detail_given : Json
detail_given =
    object
      (("schemaVersion", num 1) ∷ ("panels", arr (cons (str " main") (cons (str "side") nil))) ∷ [])

abbrev detail_normal : Json
detail_normal =
    object
      (("schemaVersion", num 1) ∷ ("panels", arr (cons (str "main") (cons (str "side") nil))) ∷ [])

validate_detail_form-again_example :
    Metadata.validate_detail_form (some detail_normal) ≡ ok (some detail_normal)
unfolding Metadata.validate_detail_form Metadata.panels Metadata.unique_texts default_or only run
    get optional needed version_one trim trim_start trim_end has_text blank
validate_detail_form-again_example =
    validate_detail_form-again (some detail_given) detail_normal refl
