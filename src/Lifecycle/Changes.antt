-- ===== src/Lifecycle/Changes.antt =====
-- The operations of src/config_objects/config_lifecycle.service.ts that write: states and
-- transitions are created, updated and deleted, each with a row of the audit log.
use six_1_core_api.Prelude.{ℕ, suc, String, Bool, not, ◌&&◌, Option, none, some, [], ◌∷◌, ◌++◌, map}
use six_1_core_api.Prelude.Tests.{◌==◌, str_eq, if◌then◌else◌}
use six_1_core_api.Prelude.Lists.{filter, find}
use six_1_core_api.Json.{Json, null, num, str, Object}
use six_1_core_api.Lifecycle.{
  TemplateSet, ConfigObject, Lifecycle, Action, create, update, delete, Config, no_template_set,
  no_config_object, lifecycle_not_found, config_object_not_found, other_tenant, Outcome, done,
  ◌>>=◌, need, Given, absent, nothing, given, effective_tenant_id, published_set, member_set,
  published_object_of_set, object_by_id,
}

-- `logConfigChange`
unfoldable pub log_config_change :
    ℕ → String → ℕ → Action → ℕ → Option Object → Option Object → Config → Config
log_config_change tenant type id action by old new c = record c {
  audit_log =
      c.audit_log
      ++ record {
        tenant_id = tenant;
        entity_type = type;
        entity_id = id;
        action = action;
        changed_by = by;
        old_value = old;
        new_value = new;
      }
        ∷ [];
}

abbrev pub text_json : Option String → Json
text_json none = null
text_json (some s) = str s

abbrev pub json_or_null : Option Json → Json
json_or_null none = null
json_or_null (some j) = j

-- The guards that the two creating operations share.
unfoldable pub object_of_scope : ℕ → ℕ → String → Config → Outcome ConfigObject
object_of_scope tenant set type c =
    need (published_set set tenant c) no_template_set >>= λ (s : TemplateSet).
    need (published_object_of_set set type c) (no_config_object type)

-- The guards that the other four share.
unfoldable pub owning_set : ℕ → ℕ → Config → Outcome TemplateSet
owning_set tenant object c =
    need (object_by_id object c) config_object_not_found >>= λ (o : ConfigObject).
    need (member_set o.config_template_set_id tenant c) other_tenant

pub record CreateLifecycle : Type 0 where
  pub tenant_id : Option ℕ
  pub config_template_set_id : ℕ
  pub object_type : String
  pub created_by : ℕ
  pub state_key : String
  pub label : String
  pub description : Given String
  pub order_index : Option ℕ

abbrev pub text_of : Given String → Option String
text_of (given s) = some s
text_of _ = none

abbrev pub order_of : Option ℕ → ℕ
order_of none = 0
order_of (some n) = n

abbrev pub has_state : ℕ → String → Lifecycle → Bool
has_state object key l = (l.config_object_id == object) && str_eq l.state_key key

unfoldable pub find_lifecycle : ℕ → String → Config → Option Lifecycle
find_lifecycle object key c = find (has_state object key) c.lifecycles

abbrev pub new_lifecycle : CreateLifecycle → ℕ → ℕ → Lifecycle
new_lifecycle p object id = record {
  config_object_lifecycle_id = id;
  config_object_id = object;
  state_key = p.state_key;
  label = p.label;
  description = text_of p.description;
  order_index = order_of p.order_index;
}

unfoldable pub lifecycle_value : Lifecycle → Object
lifecycle_value l =
    ("label", str l.label)
    ∷ ("description", text_json l.description)
    ∷ ("orderIndex", num l.order_index)
    ∷ []

unfoldable pub whole_lifecycle : Lifecycle → Object
whole_lifecycle l =
    ("configObjectId", num l.config_object_id) ∷ ("stateKey", str l.state_key) ∷ lifecycle_value l

abbrev pub add_lifecycle : Lifecycle → Config → Config
add_lifecycle l c = record c {
  lifecycles = c.lifecycles ++ l ∷ [];
  next_lifecycle_id = suc c.next_lifecycle_id;
}

-- The end of `createLifecycle`: a state that is there is returned as it is.
unfoldable pub create_unless : CreateLifecycle → ℕ → Option Lifecycle → Config → Lifecycle × Config
create_unless p object (some l) c = (l, c)
create_unless p object none c =
    let l = new_lifecycle p object c.next_lifecycle_id in
    (
      l,
      log_config_change (effective_tenant_id p.tenant_id) "lifecycle" l.config_object_lifecycle_id
          create p.created_by none (some (whole_lifecycle l)) (add_lifecycle l c),
    )

-- `createLifecycle`
unfoldable pub create_lifecycle : CreateLifecycle → Config → Outcome (Lifecycle × Config)
create_lifecycle p c =
    object_of_scope (effective_tenant_id p.tenant_id) p.config_template_set_id p.object_type c
    >>= λ (o : ConfigObject).
        done
          (create_unless p o.config_object_id (find_lifecycle o.config_object_id p.state_key c) c)

pub record UpdateLifecycle : Type 0 where
  pub tenant_id : Option ℕ
  pub config_object_lifecycle_id : ℕ
  pub updated_by : ℕ
  pub label : Option String
  pub description : Given String
  pub order_index : Option ℕ

abbrev pub or_old {ℓ} : {A : Type ℓ} → Option A → A → A
or_old none a = a
or_old (some b) a = b

abbrev pub or_old_text : Given String → Option String → Option String
or_old_text absent o = o
or_old_text nothing o = none
or_old_text (given s) o = some s

unfoldable pub lifecycle_by_id : ℕ → Config → Option Lifecycle
lifecycle_by_id id c = find (λ (l : Lifecycle). l.config_object_lifecycle_id == id) c.lifecycles

abbrev pub edited : UpdateLifecycle → Lifecycle → Lifecycle
edited p l = record l {
  label = or_old p.label l.label;
  description = or_old_text p.description l.description;
  order_index = or_old p.order_index l.order_index;
}

-- `save` of a row that is there: an update by its id.
abbrev pub save_lifecycle : Lifecycle → Config → Config
save_lifecycle l c = record c {
  lifecycles =
      map
        (λ (k : Lifecycle).
          if k.config_object_lifecycle_id == l.config_object_lifecycle_id then l else k)
        c.lifecycles;
}

-- `updateLifecycle`
unfoldable pub update_lifecycle : UpdateLifecycle → Config → Outcome (Lifecycle × Config)
update_lifecycle p c =
    need (lifecycle_by_id p.config_object_lifecycle_id c) lifecycle_not_found >>= λ (l : Lifecycle).
    owning_set (effective_tenant_id p.tenant_id) l.config_object_id c >>= λ (s : TemplateSet).
    done (
      edited p l,
      log_config_change (effective_tenant_id p.tenant_id) "lifecycle" l.config_object_lifecycle_id
          update p.updated_by (some (lifecycle_value l)) (some (lifecycle_value (edited p l)))
          (save_lifecycle (edited p l) c),
    )

abbrev pub remove_lifecycle : ℕ → Config → Config
remove_lifecycle id c = record c {
  lifecycles = filter (λ (l : Lifecycle). not (l.config_object_lifecycle_id == id)) c.lifecycles;
}

unfoldable pub delete_found_lifecycle :
    Option ℕ → ℕ → ℕ → Option Lifecycle → Config → Outcome Config
delete_found_lifecycle tenant id by none c = done c
delete_found_lifecycle tenant id by (some l) c =
    owning_set (effective_tenant_id tenant) l.config_object_id c >>= λ (s : TemplateSet). done (
      log_config_change (effective_tenant_id tenant) "lifecycle" id delete by
        (some (whole_lifecycle l)) none (remove_lifecycle id c))

-- `deleteLifecycle`; one that is not there is no error.
unfoldable pub delete_lifecycle : Option ℕ → ℕ → ℕ → Config → Outcome Config
delete_lifecycle tenant id by c = delete_found_lifecycle tenant id by (lifecycle_by_id id c) c
