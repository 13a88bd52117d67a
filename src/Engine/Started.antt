-- ===== src/Engine/Started.antt =====
-- Starting a child process adds its rows behind the ones that are there.
use six_1_core_api.Prelude.{
  ℕ, suc, ◌≤◌, refl, inl, inr, Option, none, some, List, [], ◌∷◌, arith, String,
}
use six_1_core_api.Prelude.Tests.{Bool-cases}
use six_1_core_api.Engine.Rows.{Step, TemplateStep, World, Env}
use six_1_core_api.Engine.Exec.{pure}
use six_1_core_api.Engine.Instantiate.{
  StartParams, new_step, new_steps, after, template_steps_of, instantiate_process_in,
  set_correlation, announce, is_subject_type, has_adapter, tier_enabled, start_in_transaction,
  start_process,
}
use six_1_core_api.Engine.Tables.{Rising}
use six_1_core_api.Engine.Touch.{
  Sound, Touches, Touches-refl, Touches-append, Touches-trans, Touches-Same, Same, core-Same,
  bind-lem, when-core,
}

after-le : (n : ℕ) (ss : List Step) → n ≤ after n ss
after-le n [] = omega arith
after-le n (s ∷ ss) = omega (arith, after-le (suc n) ss)

-- The new rows have the ids from the next one on.
new_steps-Rising :
    (now process id : ℕ) (ts : List TemplateStep)
    → Rising id (new_steps now process id ts) (after id (new_steps now process id ts))
unfolding new_steps new_step
new_steps-Rising now process id [] = omega arith
new_steps-Rising now process id (t ∷ ts) = (omega arith, new_steps-Rising now process (suc id) ts)

instantiate-Touches :
    (id : ℕ) (env : Env) (p : StartParams) (w : World)
    → Sound w
    → Touches id w (instantiate_process_in env p w).1
unfolding instantiate_process_in
instantiate-Touches id env p w g =
    Touches-append id w (instantiate_process_in env p w).1
      (new_steps w.clock w.core.next_instance_id w.core.next_step_id
        (template_steps_of env p.template_id))
      g refl
      (new_steps-Rising w.clock w.core.next_instance_id w.core.next_step_id
        (template_steps_of env p.template_id))

set_correlation-Same : (c : Option String) (id : ℕ) (w : World) → Same w (set_correlation c id w)
unfolding set_correlation
set_correlation-Same none id w = record { same_steps = refl; same_next = refl }
set_correlation-Same (some c) id w = record { same_steps = refl; same_next = refl }

pub start_process-Touches :
    (id : ℕ) (env : Env) (p : StartParams) (w : World)
    → Sound w
    → Touches id w (start_process env p w).1
unfolding start_process start_in_transaction
start_process-Touches id env p w g = elim (Bool-cases (is_subject_type p.subject.subject_type)) [
  | inr a ↦ rw a (Touches-refl id w g)
  | inl a ↦ elim (Bool-cases (has_adapter p.subject.subject_type)) [
    | inr b ↦ rw (a, b) (Touches-refl id w g)
    | inl b ↦ elim (Bool-cases (tier_enabled env p.subject.subject_type)) [
      | inr c ↦ rw (a, b, c) (Touches-refl id w g)
      | inl c ↦
          rw (a, b, c)
            (bind-lem (Touches id w) (announce env made_id) (λ u. pure made_id)
              (set_correlation p.correlation_id made_id made) announced (λ u e. announced))
    ]
  ]
]
  where
    made : World
    made = (instantiate_process_in env p w).1

    made_id : ℕ
    made_id = (instantiate_process_in env p w).0

    correlated : Touches id w (set_correlation p.correlation_id made_id made)
    correlated =
        let t = instantiate-Touches id env p w g in
        Touches-trans t
          (Touches-Same id made _ t.sound (set_correlation-Same p.correlation_id made_id made))

    announced :
        Touches id w (announce env made_id (set_correlation p.correlation_id made_id made)).1
    announced = Touches-trans correlated (
        Touches-Same id _ _ correlated.sound
          (core-Same (when-core env.subject_model_enabled _ _ refl)))
