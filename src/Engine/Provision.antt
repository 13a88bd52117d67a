-- ===== src/Engine/Provision.antt =====
-- src/automation/config-object-step-executor.service.ts: the standalone instances that are made
-- for the pending bindings of a step that becomes ready.
use six_1_core_api.Prelude.{
  ℕ, suc, String, Bool, true, false, ◌&&◌, Option, none, some, List, [], ◌∷◌, ◌++◌, map,
}
use six_1_core_api.Prelude.Tests.{◌==◌, ltb, str_eq, if◌then◌else◌}
use six_1_core_api.Prelude.Lists.{filter, find}
use six_1_core_api.Engine.Rows.{
  Instance, ObjectStatus, ObjectInstance, Message, World, TemplateBinding, ConfigObject, Env,
}
use six_1_core_api.Engine.Gates.{load_step, load_process}

-- A row of `loadBindingRows`.
pub record BindingRow : Type 0 where
  pub row : ObjectInstance
  pub binding_mode : Option String
  pub order_index : Option ℕ
  pub config_binding_mode : Option String

unfoldable pub binding_of : Env → Option ℕ → Option TemplateBinding
binding_of env none = none
binding_of env (some id) = find (λ (b : TemplateBinding). b.binding_id == id) env.template_bindings

abbrev pub mode_of : Option TemplateBinding → Option String
mode_of none = none
mode_of (some b) = b.binding_mode

abbrev pub order_of : Option TemplateBinding → Option ℕ
order_of none = none
order_of (some b) = some (b.order_index)

abbrev pub joined_row :
    ObjectInstance → Option TemplateBinding → Option ConfigObject → List BindingRow
joined_row oi b none = []
joined_row oi b (some co) =
    record {
      row = oi;
      binding_mode = mode_of b;
      order_index = order_of b;
      config_binding_mode = co.binding_mode;
    }
    ∷ []

unfoldable pub config_object_of : Env → ℕ → Option ConfigObject
config_object_of env id = find (λ (co : ConfigObject). co.config_object_id == id) env.config_objects

-- ORDER BY b.order_index ASC, oi.step_object_instance_id ASC; NULL comes first.
abbrev pub null_first : Option ℕ → ℕ
null_first none = 0
null_first (some n) = suc n

unfoldable pub before : BindingRow → BindingRow → Bool
before a b =
    if null_first a.order_index == null_first b.order_index
    then ltb a.row.step_object_instance_id b.row.step_object_instance_id
    else ltb (null_first a.order_index) (null_first b.order_index)

unfoldable pub insert_row : BindingRow → List BindingRow → List BindingRow
insert_row r [] = r ∷ []
insert_row r (s ∷ rows) =
    let rest = insert_row r rows in if before r s then r ∷ s ∷ rows else s ∷ rest

unfoldable pub join_rows : Env → ℕ → List ObjectInstance → List BindingRow
join_rows env step [] = []
join_rows env step (oi ∷ rest) =
    let rows = join_rows env step rest in
    if oi.step_instance_id == step
    then joined_row oi (binding_of env oi.binding_id) (config_object_of env oi.config_object_id)
      ++ rows
    else rows

unfoldable pub sort_rows : List BindingRow → List BindingRow
sort_rows [] = []
sort_rows (r ∷ rows) = insert_row r (sort_rows rows)

unfoldable pub load_binding_rows : Env → ℕ → World → List BindingRow
unfolding join_rows binding_of config_object_of sort_rows insert_row before
load_binding_rows env step w = sort_rows (join_rows env step w.object_instances)

abbrev pub is_unset : ObjectStatus → Bool
is_unset ObjectStatus.pending = true
is_unset _ = false

-- `binding_mode ?? 'create_on_enter'`
abbrev pub created_on_enter : Option String → Bool
created_on_enter none = true
created_on_enter (some m) = str_eq m "create_on_enter"

-- `config_binding_mode && config_binding_mode !== 'standalone'`
abbrev pub other_mode : Option String → Bool
other_mode none = false
other_mode (some m) = if str_eq m "" then false else if str_eq m "standalone" then false else true

unfoldable pub update_object : (ObjectInstance → ObjectInstance) → ℕ → World → World
update_object f id w = record w {
  object_instances =
      map (λ (oi : ObjectInstance). if oi.step_object_instance_id == id then f oi else oi)
        w.object_instances;
}

unfoldable pub failed_with : String → ObjectInstance → ObjectInstance
failed_with message oi = record oi { status = ObjectStatus.failed; last_error = some message }

-- `createStandaloneInstanceInTransaction`: the id of the new instance, or the message thrown.
pub data Created : Type 0 where
  created : ℕ → World → Created
  refused : String → Created

abbrev pub is_standalone : Option String → Bool
is_standalone none = false
is_standalone (some m) = str_eq m "standalone"

unfoldable pub create_standalone_instance : Env → Instance → ℕ → World → Created
create_standalone_instance env p config_object w = elim (config_object_of env config_object) [
  | none ↦ refused "Config object not found"
  | some co ↦
      if is_standalone co.binding_mode
      then created w.next_custom_instance_id (record w {
        custom_instances =
            w.custom_instances
            ++ record {
              config_custom_object_instance_id = w.next_custom_instance_id;
              tenant_id = p.tenant_id;
              config_object_id = config_object;
              payload = [];
              status = "DRAFT";
              created_by = p.created_by;
            }
              ∷ [];
        next_custom_instance_id = suc (w.next_custom_instance_id);
      })
      else refused "Config object must use standalone binding mode"
]

unfoldable pub link_created : ℕ → Created → World → World
unfolding update_object failed_with
link_created id (refused message) w = update_object (failed_with message) id w
link_created id (created instance_id w') w =
    record (update_object
      (λ (oi : ObjectInstance). record oi {
        config_custom_object_instance_id = some instance_id;
        status = ObjectStatus.active;
        last_error = none;
      })
      id w') {
        outbox = w'.outbox ++ Message.emitted "six1-event.process_step_object_created" id ∷ [];
      }

-- The body of the loop over the pending rows.
unfoldable pub provision_row : Env → Instance → BindingRow → World → World
unfolding create_standalone_instance link_created
provision_row env p r w =
    if other_mode r.config_binding_mode
    then update_object (failed_with "Only standalone config objects are supported in Phase 5")
        r.row.step_object_instance_id w
    else link_created r.row.step_object_instance_id
        (create_standalone_instance env p r.row.config_object_id w) w

unfoldable pub provision_rows : Env → Instance → List BindingRow → World → World
provision_rows env p [] w = w
provision_rows env p (r ∷ rows) w = provision_rows env p rows (provision_row env p r w)

unfoldable pub pending_rows : Env → ℕ → World → List BindingRow
unfolding load_binding_rows
pending_rows env step w =
    filter (λ (r : BindingRow). is_unset r.row.status && created_on_enter r.binding_mode)
      (load_binding_rows env step w)

-- `loadProcessContext`: the step joined with its process.
unfoldable pub process_context : ℕ → World → Option Instance
process_context step w = elim (load_step step w) [
  | none ↦ none
  | some s ↦ load_process s.process_instance_id w
]

unfoldable pub provision_for : Env → ℕ → Option Instance → World → World
unfolding provision_rows provision_row pending_rows
provision_for env step none w = w
provision_for env step (some p) w = provision_rows env p (pending_rows env step w) w

-- `provisionBindingsOnStepReady`
unfoldable pub provision_bindings_on_step_ready : Env → ℕ → World → World
unfolding provision_for process_context
provision_bindings_on_step_ready env step w =
    if env.config_object_steps_enabled then provision_for env step (process_context step w) w else w
