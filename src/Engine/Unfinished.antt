-- ===== src/Engine/Unfinished.antt =====
-- `maybeCompleteJob` before all steps are completed.
use six_1_core_api.Prelude.{
  ℕ, ◌≡◌, refl, sym, ◌∙◌, ap, inl, inr, Bool, true, false, Option, none, some, List, [], ◌∷◌,
}
use mathlib.Core.List.{Memᴰ}
use six_1_core_api.Prelude.Tests.{◌==◌, ==_iff, Bool-cases, some_inj}
use six_1_core_api.Prelude.Lists.{find, all, all→Memᴰ, Memᴰ→filter}
use six_1_core_api.Engine.Rows.{Instance, Step, World, Env}
use six_1_core_api.Engine.Exec.{Exec, when, gets, pure, ◌>>=◌}
use six_1_core_api.Engine.Gates.{load_process, steps_of, is_completed, are_all_steps_completed}
use six_1_core_api.Engine.Hosts.{
  Adapter, project_host, scheduled_task_host, configurable_instance_host, generic_workflow_host,
  can_complete_job,
}
use six_1_core_api.Engine.Stepping.{
  adapter_of, complete_job, close_job, complete_found, close_process, settle_process,
  can_complete_process, maybe_complete_job,
}
use six_1_core_api.Engine.Touch.{after-lem}
use six_1_core_api.Engine.Evolution.{adapter_of-world}

load_process-id :
    (id : ℕ) (w : World) (p : Instance) → load_process id w ≡ some p → p.process_instance_id ≡ id
unfolding load_process
load_process-id id w p e = found w.core.instances e
  where
    found :
        (xs : List Instance)
        → find (λ (i : Instance). i.process_instance_id == id) xs ≡ some p
        → p.process_instance_id ≡ id
    found [] e = cc
    found (x ∷ xs) e = elim (Bool-cases (x.process_instance_id == id)) [
      | inl h ↦
          ap (λ (z : Instance). z.process_instance_id) (sym (some_inj (rw h at e)))
          ∙ (==_iff _ _).0 h
      | inr h ↦ found xs (rw h at e)
    ]

can_complete_job-all :
    (a : Adapter) (p : Instance) (w : World)
    → can_complete_job a p w ≡ are_all_steps_completed p.process_instance_id w
unfolding can_complete_job
can_complete_job-all project_host p w = refl
can_complete_job-all scheduled_task_host p w = refl
can_complete_job-all configurable_instance_host p w = refl
can_complete_job-all generic_workflow_host p w = refl

when-world : (b : Bool) (m : Exec (Unit {0})) (w : World) → (m w).1 ≡ w → (when b m w).1 ≡ w
when-world true m w e = e
when-world false m w e = refl

complete_job-open :
    (p : Instance) (w : World)
    → are_all_steps_completed p.process_instance_id w ≡ false
    → (complete_job false p w).1 ≡ w
unfolding complete_job
complete_job-open p w h =
    after-lem (λ v. v ≡ w) (adapter_of p.subject_type)
      (λ a. gets (can_complete_job a p) >>= λ able. when able (close_job false a p)) w
      (adapter_of-world p.subject_type w) refl (λ a. rw (can_complete_job-all a p w, h))

complete_found-open :
    (id : ℕ) (p : Option Instance) (w : World)
    → load_process id w ≡ p
    → are_all_steps_completed id w ≡ false
    → (complete_found false p w).1 ≡ w
complete_found-open id none w e h = refl
complete_found-open id (some p) w e h = complete_job-open p w (rw (load_process-id id w p e) h)

close_process-open :
    (env : Env) (id : ℕ) (w : World)
    → are_all_steps_completed id w ≡ false
    → (close_process env id false w).1 ≡ w
unfolding close_process
close_process-open env id w h =
    let c =
      when-world (can_complete_process env id w) (complete_found false (load_process id w)) w
        (complete_found-open id (load_process id w) w refl h) in
    after-lem (λ v. v ≡ w)
      (when (can_complete_process env id w) (complete_found false (load_process id w)))
      (λ u. pure none) w c refl (λ u. refl)

maybe_complete_job-open :
    (env : Env) (id : ℕ) (w : World)
    → are_all_steps_completed id w ≡ false
    → (maybe_complete_job env id w).1 ≡ w
unfolding maybe_complete_job settle_process
maybe_complete_job-open env id w h = rw h (close_process-open env id w h)

true-false : true ≡ false → ⊥
true-false h = cc

-- A process is not completed before all its steps are completed, which a canceled step never
-- is: where some step of it is not completed, `maybeCompleteJob` changes and emits nothing,
-- whatever `ProcessCompletionService` finds.
pub maybe_complete_job-unfinished :
    (env : Env) (id : ℕ) (s : Step) (w : World)
    → Memᴰ s w.core.steps
    → s.process_instance_id ≡ id
    → is_completed s ≡ false
    → (maybe_complete_job env id w).1 ≡ w
unfolding are_all_steps_completed
maybe_complete_job-unfinished env id s w m e h =
    maybe_complete_job-open env id w (elim (Bool-cases (all is_completed (steps_of id w))) [
      | inl a ↦ absurd (
          true-false (
            sym (all→Memᴰ is_completed (steps_of id w) a (Memᴰ→filter _ m ((==_iff _ _).1 e))) ∙ h))
      | inr a ↦ rw a
    ])
