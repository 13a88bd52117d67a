-- ===== src/Lifecycle/Examples.antt =====
-- A tenant's project lifecycle: a state and a transition are created, and a project is moved.
use six_1_core_api.Prelude.{◌≡◌, refl, not, ◌||◌, String, Option, none, some, [], ◌∷◌}
use six_1_core_api.Prelude.Tests.{◌==◌, str_eq}
use six_1_core_api.Json.{Json, null}
use six_1_core_api.Lifecycle.{
  ConfigObject, Lifecycle, Transition, Project, Task, Config, done, refused, transition_exists,
  absent, nothing, update, published_set, published_object, published_object_of_set, member_set,
  object_by_id, find_transition, validate_project_status_transition,
  validate_task_status_transition, task_state_key, decimal, digits, transitions_for,
}
use six_1_core_api.Lifecycle.Changes.{
  CreateLifecycle, create_lifecycle, create_unless, find_lifecycle, object_of_scope, owning_set,
  log_config_change, lifecycle_value, UpdateLifecycle, update_lifecycle, lifecycle_by_id, edited,
}
use six_1_core_api.Lifecycle.Transitions.{
  CreateTransition, create_lifecycle_transition, create_unless_there, parsed, store_transition,
}
use six_1_core_api.Lifecycle.Permitted.{
  is_done, is_some, leads_to, validate_project-listed, validate_task-listed,
}
use six_1_core_api.Lifecycle.Creation.{create_lifecycle-again, create_lifecycle_transition-permits}
use six_1_core_api.Lifecycle.Ownership.{Owned, update_lifecycle-Owned}

abbrev project_object : ConfigObject
project_object = record {
  config_object_id = 5;
  config_template_set_id = 3;
  object_type = "project";
  status = "PUBLISHED";
}

abbrev project : Project
project = record { project_id = 1; tenant_id = 7; status = "draft" }

abbrev task : Task
task = record { task_id = 1; tenant_id = 7; project_id = 1; task_status_id = 12 }

abbrev config : Config
config = record {
  template_sets = record { config_template_set_id = 3; tenant_id = 7; status = "PUBLISHED" } ∷ [];
  config_objects = project_object ∷ [];
  lifecycles = [];
  next_lifecycle_id = 1;
  transitions = [];
  next_transition_id = 1;
  mappings = record { project_id = 1; task_status_id = 12; step_engine_state = "ready" } ∷ [];
  projects = project ∷ [];
  tasks = task ∷ [];
  audit_log = [];
}

abbrev draft : CreateLifecycle
draft = record {
  tenant_id = some 7;
  config_template_set_id = 3;
  object_type = "project";
  created_by = 1;
  state_key = "draft";
  label = "Draft";
  description = absent;
  order_index = none;
}

abbrev activation : CreateTransition
activation = record {
  tenant_id = some 7;
  config_template_set_id = 3;
  object_type = "project";
  created_by = 1;
  from_state_key = "draft";
  to_state_key = "active";
  rules_json = nothing;
}

abbrev parse : String → Option Json
parse s = some null

abbrev draft_state : Lifecycle
draft_state = record {
  config_object_lifecycle_id = 1;
  config_object_id = 5;
  state_key = "draft";
  label = "Draft";
  description = none;
  order_index = 0;
}

abbrev with_draft : Config
with_draft = (create_unless draft 5 none config).1

abbrev with_activation : Config
with_activation = (store_transition activation 5 config none).1

abbrev activated : Transition
activated = (store_transition activation 5 config none).0

-- A status id is a state key by its digits where no mapping gives one.
unmapped_state : task_state_key task 307 config ≡ "307"
unfolding task_state_key decimal digits
unmapped_state = refl

validate_project-listed_example :
    is_done (validate_project_status_transition project "active" config) ≡ (
      str_eq "draft" "active"
      || (not (is_some (published_object "project" config))
          || leads_to "active" (transitions_for "project" "draft" config)))
validate_project-listed_example = validate_project-listed project "active" config

validate_task-listed_example : is_done (validate_task_status_transition task 13 config) ≡ (
    (12 == 13)
    || (not (is_some (published_object "task" config))
        || leads_to
            (task_state_key task 13 config)
            (transitions_for "task" (task_state_key task 12 config) config)))
validate_task-listed_example = validate_task-listed task 13 config

create_lifecycle-again_example :
    create_lifecycle draft with_draft ≡ done ((create_unless draft 5 none config).0, with_draft)
unfolding create_lifecycle object_of_scope published_set published_object_of_set find_lifecycle
create_lifecycle-again_example =
    create_lifecycle-again draft config with_draft (create_unless draft 5 none config).0 refl

-- The transition is there already.
activated_once :
    create_lifecycle_transition parse activation with_activation
    ≡ refused (transition_exists "draft" "active")
unfolding create_lifecycle_transition create_unless_there parsed object_of_scope published_set
    published_object_of_set find_transition store_transition log_config_change
activated_once = refl

create_lifecycle_transition-permits_example :
    validate_project_status_transition project "active" with_activation ≡ done tt
unfolding create_lifecycle_transition create_unless_there parsed object_of_scope published_set
    published_object_of_set find_transition published_object
create_lifecycle_transition-permits_example =
    create_lifecycle_transition-permits parse activation config with_activation activated
      project_object project refl refl refl refl

abbrev rename : UpdateLifecycle
rename = record {
  tenant_id = some 7;
  config_object_lifecycle_id = 1;
  updated_by = 1;
  label = some "Concept";
  description = absent;
  order_index = none;
}

abbrev renamed : Lifecycle × Config
renamed = (
  edited rename draft_state,
  log_config_change 7 "lifecycle" 1 update 1 (some (lifecycle_value draft_state))
      (some (lifecycle_value (edited rename draft_state)))
      (record with_draft { lifecycles = edited rename draft_state ∷ [] }),
)

update_lifecycle-Owned_example : Owned rename with_draft
unfolding update_lifecycle lifecycle_by_id owning_set object_by_id member_set create_unless
    log_config_change
update_lifecycle-Owned_example = update_lifecycle-Owned rename with_draft renamed refl
