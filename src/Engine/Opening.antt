-- ===== src/Engine/Opening.antt =====
-- What a successful validation of a custom instance does to the gates of its step.
use mathlib.Core.List.{Memᴰ}
use six_1_core_api.Prelude.{ℕ, ◌≡◌, sym, ◌∙◌, ap, inl, inr, true, false, Option, none, some, arith}
use six_1_core_api.Prelude.Tests.{◌==◌, ==_iff, Bool-cases, if◌then◌else◌}
use six_1_core_api.Prelude.Lists.{any, any→Memᴰ, map→Memᴰ}
use six_1_core_api.Engine.Rows.{Instance, ObjectInstance, CustomInstance, World, Env}
use six_1_core_api.Engine.Gates.{are_mandatory_bindings_valid, blocking}
use six_1_core_api.Engine.Child.{say}
use six_1_core_api.Engine.Provision.{update_object}
use six_1_core_api.Engine.Validation.{
  Evaluation, valid, invalid, status_of, error_of, is_valid, first_linked, settle, announce_valid,
  validate_instance, validate_link, validate_by_custom_instance_id,
}

-- No row but the one of this id keeps the step's gate shut.
abbrev pub OnlyBlocks : Env → World → ObjectInstance → Type 0
OnlyBlocks env w oi =
    (x : ObjectInstance)
    → Memᴰ x w.object_instances
    → blocking env oi.step_instance_id x ≡ true
    → x.step_object_instance_id ≡ oi.step_object_instance_id

abbrev settled : Evaluation → ObjectInstance → ObjectInstance
settled e o = record o { status = status_of e; last_error = error_of e }

true-false : true ≡ false → ⊥
true-false h = cc

settled-opens :
    (env : Env) (step : ℕ) (o : ObjectInstance) → blocking env step (settled valid o) ≡ false
settled-opens env step o = ground arith

updated-opens :
    (env : Env) (w : World) (oi x : ObjectInstance)
    → OnlyBlocks env w oi
    → Memᴰ x w.object_instances
    → blocking env oi.step_instance_id
        (if x.step_object_instance_id == oi.step_object_instance_id then settled valid x else x)
      ≡ false
updated-opens env w oi x h m =
    elim (Bool-cases (x.step_object_instance_id == oi.step_object_instance_id)) [
      | inl e ↦ rw e (settled-opens env oi.step_instance_id x)
      | inr e ↦ rw e (elim (Bool-cases (blocking env oi.step_instance_id x)) [
        | inr b ↦ b
        | inl b ↦ absurd (true-false (sym ((==_iff _ _).1 (h x m b)) ∙ e))
      ])
    ]

settle-opens :
    (env : Env) (w : World) (oi : ObjectInstance)
    → OnlyBlocks env w oi
    → any (blocking env oi.step_instance_id) (settle oi valid w).object_instances ≡ false
unfolding settle update_object
settle-opens env w oi h =
    elim (Bool-cases
      (any (blocking env oi.step_instance_id) (settle oi valid w).object_instances)) [
        | inr e ↦ e
        | inl e ↦
            let (y, m, b) =
              any→Memᴰ (blocking env oi.step_instance_id) (settle oi valid w).object_instances e in
            let (x, mx, q) = map→Memᴰ _ w.object_instances m in
            absurd (
              true-false
                (sym b ∙ (ap (blocking env oi.step_instance_id) q ∙ updated-opens env w oi x h mx)))
      ]

opened :
    (env : Env) (w : World) (oi : ObjectInstance)
    → OnlyBlocks env w oi
    → are_mandatory_bindings_valid env oi.step_instance_id
        (announce_valid true oi.step_object_instance_id (settle oi valid w))
      ≡ true
unfolding are_mandatory_bindings_valid say
opened env w oi h = elim (Bool-cases env.config_object_steps_enabled) [
  | inr e ↦ simp e
  | inl e ↦ simp (e, settle-opens env w oi h)
]

opened_by :
    (env : Env) (w : World) (oi : ObjectInstance) (e : Evaluation)
    → OnlyBlocks env w oi
    → is_valid e ≡ true
    → are_mandatory_bindings_valid env oi.step_instance_id
        (announce_valid (is_valid e) oi.step_object_instance_id (settle oi e w))
      ≡ true
opened_by env w oi valid h v = opened env w oi h
opened_by env w oi (invalid m) h v = cc

validate_instance-opens :
    (env : Env) (w : World) (oi : ObjectInstance) (c : Option CustomInstance)
    → OnlyBlocks env w oi
    → (validate_instance env oi c w).0.1 ≡ true
    → are_mandatory_bindings_valid env oi.step_instance_id (validate_instance env oi c w).1 ≡ true
unfolding validate_instance
validate_instance-opens env w oi none h v = cc
validate_instance-opens env w oi (some c) h v = opened_by env w oi _ h v

-- Where a custom instance is linked to a row of a step and no other row keeps the step's
-- bindings from being valid, a validation of the instance that succeeds leaves the bindings of
-- the step valid.
pub validate_by_custom_instance_id-opens :
    (env : Env) (id : ℕ) (oi : ObjectInstance) (p : Instance) (w : World)
    → first_linked env w id w.object_instances ≡ some (oi, p)
    → OnlyBlocks env w oi
    → (validate_by_custom_instance_id env id w).0.1 ≡ true
    → are_mandatory_bindings_valid env oi.step_instance_id
        (validate_by_custom_instance_id env id w).1
      ≡ true
unfolding validate_by_custom_instance_id validate_link
validate_by_custom_instance_id-opens env id oi p w f h v =
    elim (Bool-cases env.config_object_steps_enabled) [
      | inr e ↦ absurd (true-false (sym v ∙ simp e))
      | inl e ↦ simp (e, f) (validate_instance-opens env w oi _ h (simp (e, f) at v))
    ]
