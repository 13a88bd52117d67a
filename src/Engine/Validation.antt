-- ===== src/Engine/Validation.antt =====
-- src/automation/completion-rule.util.ts, and `validateByCustomInstanceId` of
-- src/automation/config-object-step-executor.service.ts. The snapshot of the payload is left out.
use six_1_core_api.Prelude.{
  ℕ, String, Bool, true, false, not, ◌&&◌, ◌||◌, Option, none, some, List, [], ◌∷◌,
}
use six_1_core_api.Prelude.Tests.{◌==◌, leb, str_eq, if◌then◌else◌}
use six_1_core_api.Prelude.Lists.{any, find}
use six_1_core_api.Prelude.Texts.{has_text}
use six_1_core_api.Json.{
  Json, null, bool, num, negsuc, fraction, str, arr, obj, Items, nil, cons, Fields, end, field,
  Object, get,
}
use six_1_core_api.Engine.Rows.{
  Instance, Step, ObjectStatus, ObjectInstance, CustomInstance, Message, TemplateBinding,
  ConfigObject, World, Env,
}
use six_1_core_api.Engine.Gates.{load_process, load_step}
use six_1_core_api.Engine.Child.{say}
use six_1_core_api.Engine.Provision.{binding_of, update_object, config_object_of}

-- `STATUS_RANK`; a status of another name has rank 0.
abbrev pub status_rank : String → ℕ
status_rank s =
    if str_eq s "DRAFT"
    then 1
    else if str_eq s "PUBLISHED"
    then 2
    else if str_eq s "ARCHIVED"
    then 3
    else 0

-- `MIN_STATUS_ALIASES`; a key of another name stands for DRAFT.
abbrev pub min_status : String → String
min_status k =
    if str_eq k "submitted" || (str_eq k "published" || str_eq k "PUBLISHED")
    then "PUBLISHED"
    else if str_eq k "archived" || str_eq k "ARCHIVED"
    then "ARCHIVED"
    else "DRAFT"

-- `meetsMinStatus`
unfoldable pub meets_min_status : String → String → Bool
meets_min_status actual least = leb (status_rank least) (status_rank actual)

abbrev pub has_items : Items → Bool
has_items nil = false
has_items (cons _ _) = true

abbrev pub has_fields : Fields → Bool
has_fields end = false
has_fields (field _ _ _) = true

abbrev pub has_content : Json → Bool
has_content null = false
has_content (str s) = has_text s
has_content (arr xs) = has_items xs
has_content (obj o) = has_fields o
has_content (bool _) = true
has_content (num _) = true
has_content (negsuc _) = true
has_content (fraction _) = true

-- `payloadHasContent`
unfoldable pub payload_has_content : Object → Bool
payload_has_content = any (λ (e : String × Json). has_content e.1)

-- `String(rule?.[key] ?? fallback)`
abbrev pub or_text : Env → String → Option Json → String
or_text env fallback none = fallback
or_text env fallback (some null) = fallback
or_text env fallback (some (str s)) = s
or_text env fallback (some j) = env.text j

abbrev pub rule_text : Env → String → String → Option Object → String
rule_text env key fallback none = fallback
rule_text env key fallback (some o) = or_text env fallback (get key o)

pub data Evaluation : Type 0 where
  valid : Evaluation
  invalid : (error : String) → Evaluation

-- `evaluateCompletionRule`; the messages without the values that they quote.
unfoldable pub evaluate_completion_rule : Env → Option Object → Object → String → Evaluation
unfolding get
evaluate_completion_rule env rule payload status =
    if not (str_eq (rule_text env "type" "payload_valid" rule) "payload_valid")
    then invalid "Unsupported completion rule type"
    else if not (meets_min_status status (min_status (rule_text env "minStatus" "DRAFT" rule)))
    then invalid "Instance status does not meet minStatus"
    else if not (payload_has_content payload)
    then invalid "Instance payload is empty"
    else valid

abbrev pub status_of : Evaluation → ObjectStatus
status_of valid = ObjectStatus.valid
status_of (invalid _) = ObjectStatus.failed

abbrev pub error_of : Evaluation → Option String
error_of valid = none
error_of (invalid e) = some e

abbrev pub is_valid : Evaluation → Bool
is_valid valid = true
is_valid (invalid _) = false

abbrev pub links : ℕ → ObjectInstance → Bool
links id oi = elim oi.config_custom_object_instance_id [ none ↦ false | some i ↦ i == id ]

abbrev pub process_of : Option Step → World → Option Instance
process_of none w = none
process_of (some s) w = load_process s.process_instance_id w

abbrev pub with_object : Option Instance → Option ConfigObject → Option Instance
with_object p none = none
with_object p (some c) = p

-- A row with the joins of the query: its step, the step's process and its config object are there.
abbrev pub linked_process : Env → World → ObjectInstance → Option Instance
linked_process env w oi =
    with_object (process_of (load_step oi.step_instance_id w) w)
      (config_object_of env oi.config_object_id)

abbrev pub first_linked : Env → World → ℕ → List ObjectInstance → Option (ObjectInstance × Instance)
first_linked env w id [] = none
first_linked env w id (oi ∷ ois) =
    let rest = first_linked env w id ois in
    if links id oi
    then elim (linked_process env w oi) [ none ↦ rest | some p ↦ some (oi, p) ]
    else rest

abbrev pub rule_of : Option TemplateBinding → Option Object
rule_of none = none
rule_of (some b) = b.completion_rule

-- The result: the step, where a row is linked, and whether it is valid.
abbrev pub Validated : Type 0
Validated = Option ℕ × Bool

unfoldable pub settle : ObjectInstance → Evaluation → World → World
settle oi e w =
    update_object
      (λ (o : ObjectInstance). record o { status = status_of e; last_error = error_of e })
      oi.step_object_instance_id w

abbrev pub announce_valid : Bool → ℕ → World → World
announce_valid false id w = w
announce_valid true id w = say (Message.emitted "six1-event.process_step_object_validated" id) w

unfoldable pub validate_instance :
    Env → ObjectInstance → Option CustomInstance → World → Validated × World
validate_instance env oi none w = ((some (oi.step_instance_id), false), w)
validate_instance env oi (some c) w =
    let e =
      evaluate_completion_rule env (rule_of (binding_of env oi.binding_id)) c.payload c.status in
    (
      (some (oi.step_instance_id), is_valid e),
      announce_valid (is_valid e) oi.step_object_instance_id (settle oi e w),
    )

unfoldable pub validate_link :
    Env → ℕ → Option (ObjectInstance × Instance) → World → Validated × World
validate_link env id none w = ((none, false), w)
validate_link env id (some (oi, p)) w =
    validate_instance env oi
      (find
        (λ (c : CustomInstance).
          (c.config_custom_object_instance_id == id) && (c.tenant_id == p.tenant_id))
        w.custom_instances)
      w

-- `validateByCustomInstanceId`
unfoldable pub validate_by_custom_instance_id : Env → ℕ → World → Validated × World
validate_by_custom_instance_id env id w =
    if env.config_object_steps_enabled
    then validate_link env id (first_linked env w id w.object_instances) w
    else ((none, false), w)
