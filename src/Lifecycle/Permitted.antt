-- ===== src/Lifecycle/Permitted.antt =====
-- Which status changes are permitted, and that a change to the configuration has the effect it
-- should have on them.
use six_1_core_api.Prelude.{
  ℕ, String, ◌≡◌, refl, ◌∙◌, inl, inr, Bool, true, false, not, ◌&&◌, ◌||◌, Option, none, some, List,
  [], ◌∷◌, map,
}
use six_1_core_api.Prelude.Tests.{◌==◌, str_eq, Bool-cases}
use six_1_core_api.Prelude.Lists.{any, filter, find}
use six_1_core_api.Lifecycle.{
  ConfigObject, Transition, Project, Task, Config, Refusal, Outcome, done, refused,
  published_object, connects, find_transition, or_refuse, check_transition,
  validate_project_status_transition, validate_task_status_transition, task_state_key, Allowed,
  allowed, transitions_of, transitions_for, invalid_project_status_transition,
}

-- The listed transitions lead to this state.
abbrev pub leads_to : String → List Allowed → Bool
leads_to to = any (λ (a : Allowed). str_eq a.to_state_key to)

abbrev pub is_done {ℓ} : {A : Type ℓ} → Outcome A → Bool
is_done (done a) = true
is_done (refused r) = false

abbrev pub is_some {ℓ} : {A : Type ℓ} → Option A → Bool
is_some none = false
is_some (some a) = true

-- A transition is found exactly where one of those that are listed leads to the state.
find_leads :
    (object : ℕ) (from to : String) (ts : List Transition)
    → is_some (find (connects object from to) ts)
      ≡ leads_to to (
          map allowed (
            filter
              (λ (t : Transition). (t.config_object_id == object) && str_eq t.from_state_key from)
              ts))
find_leads object from to [] = refl
find_leads object from to (t ∷ ts) =
    let ih = find_leads object from to ts in
    elim (Bool-cases (t.config_object_id == object)) [
      | inr a ↦ rw (a, ih)
      | inl a ↦ elim (Bool-cases (str_eq t.from_state_key from)) [
        | inr b ↦ rw (a, b, ih)
        | inl b ↦ elim (Bool-cases (str_eq t.to_state_key to)) [
          | inr c ↦ rw (a, b, c, ih)
          | inl c ↦ rw (a, b, c)
        ]
      ]
    ]

or_refuse-is_some : (o : Option Transition) (r : Refusal) → is_done (or_refuse o r) ≡ is_some o
or_refuse-is_some none r = refl
or_refuse-is_some (some t) r = refl

check_transition-leads :
    (o : Option ConfigObject) (from to : String) (r : Refusal) (c : Config)
    → is_done (check_transition o from to r c)
      ≡ (not (is_some o) || leads_to to (transitions_of o from c))
unfolding check_transition find_transition transitions_of
check_transition-leads none from to r c = refl
check_transition-leads (some o) from to r c =
    or_refuse-is_some (find (connects o.config_object_id from to) c.transitions) r
    ∙ find_leads o.config_object_id from to c.transitions

-- A project may change to a status exactly where it is in it already, where no object of type
-- project is published, or where one of the transitions that
-- `getTransitionsForObjectTypeAndState` lists for it leads there.
pub validate_project-listed :
    (p : Project) (next : String) (c : Config)
    → is_done (validate_project_status_transition p next c) ≡ (
        str_eq p.status next
        || (not (is_some (published_object "project" c))
            || leads_to next (transitions_for "project" p.status c)))
unfolding validate_project_status_transition transitions_for
validate_project-listed p next c = elim (Bool-cases (str_eq p.status next)) [
  | inl e ↦ rw e
  | inr e ↦ rw e (
      check_transition-leads (published_object "project" c) p.status next
        (invalid_project_status_transition p.status next) c)
]

-- A task may change to a status id exactly where it has it already, where no object of type
-- task is published, or where one of the transitions that
-- `getTransitionsForObjectTypeAndState` lists for the lifecycle state of its status leads to
-- the lifecycle state of the new one.
pub validate_task-listed :
    (t : Task) (next : ℕ) (c : Config)
    → is_done (validate_task_status_transition t next c) ≡ (
        (t.task_status_id == next)
        || (not (is_some (published_object "task" c))
            || leads_to
                (task_state_key t next c)
                (transitions_for "task" (task_state_key t t.task_status_id c) c)))
unfolding validate_task_status_transition transitions_for
validate_task-listed t next c = elim (Bool-cases (t.task_status_id == next)) [
  | inl e ↦ rw e
  | inr e ↦ rw e (
      check_transition-leads (published_object "task" c) (task_state_key t t.task_status_id c)
        (task_state_key t next c) _ c)
]
