-- ===== src/Lifecycle.antt =====
-- src/config_objects/config_lifecycle.service.ts: the lifecycle states and transitions that are
-- configured for an object type, and the status changes that they allow.
use Prim.Native.Char.{Char}
use six_1_core_api.Prelude.{
  ℕ, zero, suc, ◌+◌, ◌/◌, ◌%◌, String, Bool, true, false, not, ◌&&◌, Option, none, some, List, [],
  ◌∷◌, ◌++◌, map,
}
use six_1_core_api.Prelude.Tests.{◌==◌, ltb, str_eq, if◌then◌else◌}
use six_1_core_api.Prelude.Lists.{any, filter, find}
use six_1_core_api.Json.{Json, null, num, str, Object}
pub mod Changes
pub mod Transitions
pub mod Permitted
pub mod Creation
pub mod Ownership
pub mod Examples

pub record TemplateSet : Type 0 where
  pub config_template_set_id : ℕ
  pub tenant_id : ℕ
  pub status : String

pub record ConfigObject : Type 0 where
  pub config_object_id : ℕ
  pub config_template_set_id : ℕ
  pub object_type : String
  pub status : String

-- config_object_lifecycles
pub record Lifecycle : Type 0 where
  pub config_object_lifecycle_id : ℕ
  pub config_object_id : ℕ
  pub state_key : String
  pub label : String
  pub description : Option String
  pub order_index : ℕ

-- config_object_lifecycle_transitions
pub record Transition : Type 0 where
  pub config_object_lifecycle_transition_id : ℕ
  pub config_object_id : ℕ
  pub from_state_key : String
  pub to_state_key : String
  pub rules_json : Option Json

-- project_step_status_mappings
pub record Mapping : Type 0 where
  pub project_id : ℕ
  pub task_status_id : ℕ
  pub step_engine_state : String

pub record Project : Type 0 where
  pub project_id : ℕ
  pub tenant_id : ℕ
  pub status : String

pub record Task : Type 0 where
  pub task_id : ℕ
  pub tenant_id : ℕ
  pub project_id : ℕ
  pub task_status_id : ℕ

pub data Action : Type 0 where
  create update delete : Action

-- config_audit_logs
pub record Audit : Type 0 where
  pub tenant_id : ℕ
  pub entity_type : String
  pub entity_id : ℕ
  pub action : Action
  pub changed_by : ℕ
  pub old_value : Option Object
  pub new_value : Option Object

-- The tables of the service, in the order in which the database returns their rows.
pub record Config : Type 0 where
  pub template_sets : List TemplateSet
  pub config_objects : List ConfigObject
  pub lifecycles : List Lifecycle
  pub next_lifecycle_id : ℕ
  pub transitions : List Transition
  pub next_transition_id : ℕ
  pub mappings : List Mapping
  pub projects : List Project
  pub tasks : List Task
  pub audit_log : List Audit

-- The messages of `RpcException`, and the error of `JSON.parse`.
pub data Refusal : Type 0 where
  invalid_project_status_transition invalid_task_status_transition : (from to : String) → Refusal
  no_template_set : Refusal
  no_config_object : (object_type : String) → Refusal
  lifecycle_not_found config_object_not_found other_tenant : Refusal
  transition_exists : (from to : String) → Refusal
  transition_not_found project_of_other_tenant task_of_other_tenant invalid_json : Refusal

pub data Outcome {ℓ} (A : Type ℓ) : Type ℓ where
  done : A → Outcome A
  refused : Refusal → Outcome A

infixl 5 ◌>>=◌
abbrev pub ◌>>=◌ {ℓ} : {A B : Type ℓ} → Outcome A → (A → Outcome B) → Outcome B
done a >>= f = f a
refused r >>= f = refused r

-- `if (!found) throw`
abbrev pub need {ℓ} : {A : Type ℓ} → Option A → Refusal → Outcome A
need none r = refused r
need (some a) r = done a

-- A property that is left out, null, or given.
pub data Given {ℓ} (A : Type ℓ) : Type ℓ where
  absent nothing : Given A
  given : A → Given A

-- `getEffectiveTenantId`: 0 is the system's scope.
abbrev pub effective_tenant_id : Option ℕ → ℕ
effective_tenant_id none = 0
effective_tenant_id (some t) = t

abbrev pub is_published : String → Bool
is_published s = str_eq s "PUBLISHED"

-- `templateSetWhereForMembershipScope`; a scope of 0 takes the set of any tenant.
abbrev pub in_scope : ℕ → ℕ → TemplateSet → Bool
in_scope set tenant t =
    (t.config_template_set_id == set) && (if ltb 0 tenant then t.tenant_id == tenant else true)

-- The published set of the id in the scope.
unfoldable pub published_set : ℕ → ℕ → Config → Option TemplateSet
published_set set tenant c =
    find (λ (t : TemplateSet). in_scope set tenant t && is_published t.status) c.template_sets

unfoldable pub member_set : ℕ → ℕ → Config → Option TemplateSet
member_set set tenant c = find (in_scope set tenant) c.template_sets

-- The published object of a type, in whatever template set.
unfoldable pub published_object : String → Config → Option ConfigObject
published_object type c =
    find (λ (o : ConfigObject). str_eq o.object_type type && is_published o.status) c.config_objects

unfoldable pub published_object_of_set : ℕ → String → Config → Option ConfigObject
published_object_of_set set type c =
    find
      (λ (o : ConfigObject).
        (o.config_template_set_id == set) && (str_eq o.object_type type && is_published o.status))
      c.config_objects

unfoldable pub object_by_id : ℕ → Config → Option ConfigObject
object_by_id id c = find (λ (o : ConfigObject). o.config_object_id == id) c.config_objects

abbrev pub connects : ℕ → String → String → Transition → Bool
connects object from to t =
    (t.config_object_id == object) && (str_eq t.from_state_key from && str_eq t.to_state_key to)

unfoldable pub find_transition : ℕ → String → String → Config → Option Transition
find_transition object from to c = find (connects object from to) c.transitions

abbrev pub or_refuse : Option Transition → Refusal → Outcome (Unit {0})
or_refuse none r = refused r
or_refuse (some t) r = done tt

-- The transition that a published object must have; without one, every change is allowed.
unfoldable pub check_transition :
    Option ConfigObject → String → String → Refusal → Config → Outcome (Unit {0})
check_transition none from to r c = done tt
check_transition (some o) from to r c = or_refuse (find_transition o.config_object_id from to c) r

-- `validateProjectStatusTransition`
unfoldable pub validate_project_status_transition : Project → String → Config → Outcome (Unit {0})
validate_project_status_transition p next c =
    if str_eq p.status next
    then done tt
    else check_transition (published_object "project" c) p.status next
        (invalid_project_status_transition p.status next) c

-- `String(n)`
abbrev pub nth_char : List Char → ℕ → Char
nth_char [] n = "9"
nth_char (c ∷ cs) zero = c
nth_char (c ∷ cs) (suc n) = nth_char cs n

abbrev pub digit : ℕ → Char
digit = nth_char ("0" ∷ "1" ∷ "2" ∷ "3" ∷ "4" ∷ "5" ∷ "6" ∷ "7" ∷ "8" ∷ [])

-- The digits of n before a text; n + 1 steps are enough, as each divides by ten.
unfoldable pub digits : ℕ → ℕ → String → String
digits zero n s = s
digits (suc fuel) n s =
    let more = digits fuel (n / 10) (String.◌∷◌ (digit (n % 10)) s) in
    if ltb n 10 then String.◌∷◌ (digit n) s else more

unfoldable pub decimal : ℕ → String
unfolding digits
decimal n = digits (suc n) n ""

abbrev pub state_or_id : Option Mapping → ℕ → String
state_or_id none id = decimal id
state_or_id (some m) id = m.step_engine_state

-- The lifecycle state of a task: by the mapping of its status, or the status id itself.
unfoldable pub task_state_key : Task → ℕ → Config → String
task_state_key t status c =
    state_or_id
      (find (λ (m : Mapping). (m.project_id == t.project_id) && (m.task_status_id == status))
        c.mappings)
      status

-- `validateTaskStatusTransition`
unfoldable pub validate_task_status_transition : Task → ℕ → Config → Outcome (Unit {0})
unfolding task_state_key
validate_task_status_transition t next c =
    if t.task_status_id == next
    then done tt
    else check_transition (published_object "task" c) (task_state_key t t.task_status_id c)
        (task_state_key t next c)
        (invalid_task_status_transition (task_state_key t t.task_status_id c)
          (task_state_key t next c))
        c

pub record Allowed : Type 0 where
  pub to_state_key : String
  pub rules_json : Option Json

abbrev pub allowed : Transition → Allowed
allowed t = record { to_state_key = t.to_state_key; rules_json = t.rules_json }

unfoldable pub transitions_of : Option ConfigObject → String → Config → List Allowed
transitions_of none from c = []
transitions_of (some o) from c = map allowed (
    filter
      (λ (t : Transition).
        (t.config_object_id == o.config_object_id) && str_eq t.from_state_key from)
      c.transitions)

-- `getTransitionsForObjectTypeAndState`
unfoldable pub transitions_for : String → String → Config → List Allowed
transitions_for type from c = transitions_of (published_object type c) from c

pub record InstanceState : Type 0 where
  pub object_type : String
  pub core_id : ℕ
  pub tenant_id : ℕ
  pub current_lifecycle_state : Option String
  pub allowed_transitions : List Allowed

abbrev pub owned_project : ℕ → Option Project → Outcome Project
owned_project tenant none = refused project_of_other_tenant
owned_project tenant (some p) =
    if p.tenant_id == tenant then done p else refused project_of_other_tenant

abbrev pub owned_task : ℕ → Option Task → Outcome Task
owned_task tenant none = refused task_of_other_tenant
owned_task tenant (some t) = if t.tenant_id == tenant then done t else refused task_of_other_tenant

abbrev pub instance_state : String → ℕ → ℕ → String → Config → InstanceState
instance_state type id tenant state c = record {
  object_type = type;
  core_id = id;
  tenant_id = tenant;
  current_lifecycle_state = some state;
  allowed_transitions = transitions_for type state c;
}

-- `getInstanceLifecycleState`
unfoldable pub get_instance_lifecycle_state : ℕ → String → ℕ → Config → Outcome InstanceState
get_instance_lifecycle_state tenant type id c =
    if str_eq type "project"
    then (owned_project tenant (find (λ (p : Project). p.project_id == id) c.projects) >>= λ p.
        done (instance_state type id tenant p.status c))
    else if str_eq type "task"
    then (owned_task tenant (find (λ (t : Task). t.task_id == id) c.tasks) >>= λ t.
        done (instance_state type id tenant (task_state_key t t.task_status_id c) c))
    else done (record {
      object_type = type;
      core_id = id;
      tenant_id = tenant;
      current_lifecycle_state = none;
      allowed_transitions = [];
    })
