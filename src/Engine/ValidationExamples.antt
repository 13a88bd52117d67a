-- ===== src/Engine/ValidationExamples.antt =====
-- A step with a mandatory object, which is filled in and validated.
use mathlib.Core.List.{Memᴰ}
use six_1_core_api.Prelude.{◌≡◌, refl, true, none, some, [], ◌∷◌}
use six_1_core_api.Prelude.Texts.{blank, has_text}
use six_1_core_api.Json.{str, get}
use six_1_core_api.Engine.Rows.{ready, config_object, ObjectStatus, ObjectInstance, World, Env}
use six_1_core_api.Engine.Gates.{load_process, load_step, are_mandatory_bindings_valid}
use six_1_core_api.Engine.Provision.{binding_of, config_object_of}
use six_1_core_api.Engine.Validation.{
  evaluate_completion_rule, meets_min_status, payload_has_content, validate_instance, validate_link,
  validate_by_custom_instance_id, invalid,
}
use six_1_core_api.Engine.Opening.{OnlyBlocks, validate_by_custom_instance_id-opens}
use six_1_core_api.Engine.Examples.{env, process, step, world}

abbrev form_env : Env
form_env = record env {
  template_bindings =
      record {
        binding_id = 1;
        process_template_step_id = 1;
        config_object_id = 3;
        binding_mode = none;
        is_mandatory = true;
        order_index = 0;
        completion_rule = some (("minStatus", str "submitted") ∷ []);
      }
      ∷ [];
  config_objects = record { config_object_id = 3; binding_mode = some "standalone" } ∷ [];
}

abbrev form : ObjectInstance
form = record {
  step_object_instance_id = 4;
  step_instance_id = 1;
  binding_id = some 1;
  config_object_id = 3;
  config_custom_object_instance_id = some 6;
  status = ObjectStatus.active;
  last_error = none;
}

abbrev filled_in : World
filled_in = record (world (process 1 none none ∷ []) (step 1 1 1 config_object ready ∷ []) []) {
  object_instances = form ∷ [];
  custom_instances =
      record {
        config_custom_object_instance_id = 6;
        tenant_id = 1;
        config_object_id = 3;
        payload = ("title", str "Plan") ∷ [];
        status = "PUBLISHED";
        created_by = 1;
      }
      ∷ [];
}

-- Spaces are no content, and a draft is not submitted.
blank_invalid :
    evaluate_completion_rule env none (("title", str "  ") ∷ []) "DRAFT"
    ≡ invalid "Instance payload is empty"
unfolding evaluate_completion_rule meets_min_status payload_has_content has_text blank
blank_invalid = refl

form-OnlyBlocks : OnlyBlocks form_env filled_in form
form-OnlyBlocks x (Memᴰ.head e) b = rw e
form-OnlyBlocks x (Memᴰ.tail m) b = elim m [ ]

validate_by_custom_instance_id-opens_example :
    are_mandatory_bindings_valid form_env 1 (validate_by_custom_instance_id form_env 6 filled_in).1
    ≡ true
unfolding validate_by_custom_instance_id validate_link validate_instance evaluate_completion_rule
    meets_min_status payload_has_content load_process load_step config_object_of binding_of get
    has_text blank
validate_by_custom_instance_id-opens_example =
    validate_by_custom_instance_id-opens form_env 6 form (process 1 none none) filled_in refl
      form-OnlyBlocks refl
