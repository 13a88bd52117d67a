-- ===== src/Lifecycle/Transitions.antt =====
-- The transitions of src/config_objects/config_lifecycle.service.ts: created, updated, deleted.
use six_1_core_api.Prelude.{ℕ, suc, String, not, Option, none, some, [], ◌∷◌, ◌++◌, map}
use six_1_core_api.Prelude.Tests.{◌==◌, if◌then◌else◌}
use six_1_core_api.Prelude.Lists.{filter, find}
use six_1_core_api.Json.{Json, num, str, Object}
use six_1_core_api.Lifecycle.{
  TemplateSet, ConfigObject, Transition, create, update, delete, Config, transition_exists,
  transition_not_found, invalid_json, Outcome, done, refused, ◌>>=◌, need, Given, absent, nothing,
  given, effective_tenant_id, find_transition,
}
use six_1_core_api.Lifecycle.Changes.{log_config_change, json_or_null, object_of_scope, owning_set}

pub record CreateTransition : Type 0 where
  pub tenant_id : Option ℕ
  pub config_template_set_id : ℕ
  pub object_type : String
  pub created_by : ℕ
  pub from_state_key : String
  pub to_state_key : String
  pub rules_json : Given String

abbrev pub new_transition : CreateTransition → ℕ → ℕ → Option Json → Transition
new_transition p object id rules = record {
  config_object_lifecycle_transition_id = id;
  config_object_id = object;
  from_state_key = p.from_state_key;
  to_state_key = p.to_state_key;
  rules_json = rules;
}

unfoldable pub transition_value : Transition → Object
transition_value t =
    ("configObjectId", num t.config_object_id)
    ∷ ("fromStateKey", str t.from_state_key)
    ∷ ("toStateKey", str t.to_state_key)
    ∷ ("rulesJson", json_or_null t.rules_json)
    ∷ []

abbrev pub rules_value : Transition → Object
rules_value t = ("rulesJson", json_or_null t.rules_json) ∷ []

abbrev pub add_transition : Transition → Config → Config
add_transition t c = record c {
  transitions = c.transitions ++ t ∷ [];
  next_transition_id = suc c.next_transition_id;
}

unfoldable pub store_transition : CreateTransition → ℕ → Config → Option Json → Transition × Config
store_transition p object c rules =
    let t = new_transition p object c.next_transition_id rules in
    (
      t,
      log_config_change (effective_tenant_id p.tenant_id) "lifecycle_transition"
          t.config_object_lifecycle_transition_id create p.created_by none
          (some (transition_value t)) (add_transition t c),
    )

unfoldable pub transition_by_id : ℕ → Config → Option Transition
transition_by_id id c =
    find (λ (t : Transition). t.config_object_lifecycle_transition_id == id) c.transitions

abbrev pub save_transition : Transition → Config → Config
save_transition t c = record c {
  transitions =
      map
        (λ (u : Transition).
          if u.config_object_lifecycle_transition_id == t.config_object_lifecycle_transition_id
          then t
          else u)
        c.transitions;
}

abbrev pub remove_transition : ℕ → Config → Config
remove_transition id c = record c {
  transitions =
      filter (λ (t : Transition). not (t.config_object_lifecycle_transition_id == id))
        c.transitions;
}

-- `JSON.parse`, a part of the runtime: none where it throws.
module _ (parse : String → Option Json) where
  unfoldable pub parsed : Given String → Outcome (Option Json)
  parsed (given s) = need (parse s) invalid_json >>= λ (j : Json). done (some j)
  parsed _ = done none

  unfoldable pub create_unless_there :
      CreateTransition → ℕ → Option Transition → Config → Outcome (Transition × Config)
  create_unless_there p object (some t) c =
      refused (transition_exists p.from_state_key p.to_state_key)
  create_unless_there p object none c =
      parsed p.rules_json >>= λ (rules : Option Json). done (store_transition p object c rules)

  -- `createLifecycleTransition`
  unfoldable pub create_lifecycle_transition :
      CreateTransition → Config → Outcome (Transition × Config)
  create_lifecycle_transition p c =
      object_of_scope (effective_tenant_id p.tenant_id) p.config_template_set_id p.object_type c
      >>= λ (o : ConfigObject).
          create_unless_there p o.config_object_id
            (find_transition o.config_object_id p.from_state_key p.to_state_key c) c

  -- `rulesJson` of an update: left out, it stays.
  unfoldable pub new_rules : Given String → Option Json → Outcome (Option Json)
  new_rules absent old = done old
  new_rules nothing old = done none
  new_rules (given s) old = parsed (given s)

  -- `updateLifecycleTransition`
  unfoldable pub update_lifecycle_transition :
      Option ℕ → ℕ → ℕ → Given String → Config → Outcome (Transition × Config)
  update_lifecycle_transition tenant id by rules c =
      need (transition_by_id id c) transition_not_found >>= λ (t : Transition).
      owning_set (effective_tenant_id tenant) t.config_object_id c >>= λ (s : TemplateSet).
      new_rules rules t.rules_json >>= λ (r : Option Json). done (
        record t { rules_json = r },
        log_config_change (effective_tenant_id tenant) "lifecycle_transition" id update by
            (some (rules_value t)) (some (rules_value (record t { rules_json = r })))
            (save_transition (record t { rules_json = r }) c),
      )

unfoldable pub delete_found_transition :
    Option ℕ → ℕ → ℕ → Option Transition → Config → Outcome Config
delete_found_transition tenant id by none c = done c
delete_found_transition tenant id by (some t) c =
    owning_set (effective_tenant_id tenant) t.config_object_id c >>= λ (s : TemplateSet). done (
      log_config_change (effective_tenant_id tenant) "lifecycle_transition" id delete by
        (some (transition_value t)) none (remove_transition id c))

-- `deleteLifecycleTransition`
unfoldable pub delete_lifecycle_transition : Option ℕ → ℕ → ℕ → Config → Outcome Config
delete_lifecycle_transition tenant id by c =
    delete_found_transition tenant id by (transition_by_id id c) c
