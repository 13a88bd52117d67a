-- ===== src/Scheduler/Predecessors.antt =====
-- The commands on a row, and the window of a task after its predecessors.
use mathlib.Core.List.{Memᴰ}
use six_1_core_api.Prelude.{
  ℕ, String, ◌≤◌, ◌<◌, ◌≡◌, ◌≢◌, ◌⊎◌, refl, ap, ◌∙◌, inl, inr, Bool, true, false, Option, none,
  some, List, arith,
}
use six_1_core_api.Prelude.Tests.{
  ◌==◌, leb, leb→le, Bool-cases, Option-cases, if_same, ==_refl, if◌then◌else◌,
}
use six_1_core_api.Prelude.Lists.{find-map}
use six_1_core_api.Scheduler.{ScheduledTask, Store, update_row, find_row}
use six_1_core_api.Scheduler.Worker.{Calendar, start_found, handle_start, end_found, handle_end}
use six_1_core_api.Scheduler.Allowed.{Sound}
use six_1_core_api.Scheduler.Dependencies.{Dependency, ss, end_of, earliest_gate_utc}
use six_1_core_api.Scheduler.Gate.{earliest_gate_utc-after_ends}
use six_1_core_api.Scheduler.Active.{is_admitted, created_row, create_active}
use six_1_core_api.Scheduler.Shifts.{Services}
use six_1_core_api.Scheduler.Scheduling.{draw_tokens}
use six_1_core_api.Scheduler.Commands.{
  Constraint, unconstrained, asap, no_later_than, no_earlier_than, on, must_start_on,
  must_finish_on, Window, WindowRequest, window_draft, later, apply_gate, apply_constraint,
  constrained_window, fitted_window, tenant_days, requested_window, window_outcome,
  schedule_task_window, cancel, set_cancelled, or_unchanged, save_row,
}
use six_1_core_api.Scheduler.Serial.{next_allowed_utc-not_before}
use six_1_core_api.Scheduler.Matched.{Matched, find-new, find-latest}

-- A row that is found is found again after an update of its number.
find_row-updated :
    (f : ScheduledTask → ScheduledTask) (id : ℕ) (st : Store) (r : ScheduledTask)
    → ((x : ScheduledTask) → (f x).scheduled_task_id ≡ x.scheduled_task_id)
    → find_row id st ≡ some r
    → find_row id (update_row f r.scheduled_task_id st) ≡ some (f r)
unfolding find_row update_row
find_row-updated f id st r k e =
    let test = λ (x : ScheduledTask). x.scheduled_task_id == r.scheduled_task_id in
    find-map (λ (x : ScheduledTask). x.scheduled_task_id == id)
      (λ (x : ScheduledTask). if test x then f x else x) st.rows r
      (λ x.
        ap (λ n. n == id)
          (if_same (λ (y : ScheduledTask). y.scheduled_task_id) (test x) (f x) x (k x)))
      e
    ∙ ap (λ b. some (if b then f r else r)) (==_refl r.scheduled_task_id)

cancel-inactive :
    (id : ℕ) (st : Store)
    → (find_row id (cancel id st) ≡ none)
      ⊎ ((r : ScheduledTask) × (find_row id (cancel id st) ≡ some (set_cancelled r)))
unfolding cancel find_row
cancel-inactive id st = elim (Option-cases (find_row id st)) [
  | inl e ↦ inl (ap (λ o. find_row id (or_unchanged (save_row set_cancelled) o st)) e ∙ e)
  | inr (r, e) ↦ inr (
    r,
    ap (λ o. find_row id (or_unchanged (save_row set_cancelled) o st)) e
        ∙ find_row-updated set_cancelled id st r (λ x. refl) e,
  )
]

-- Neither job of a schedule that has been cancelled does anything, whatever its token, its
-- time and the calendar are.
pub cancel-silences :
    (cal : Calendar) (now id : ℕ) (token : String) (st : Store)
    → (handle_start cal now id token (cancel id st) ≡ cancel id st)
      × (handle_end now id token (cancel id st) ≡ cancel id st)
unfolding handle_start handle_end start_found end_found
cancel-silences cal now id token st = elim (cancel-inactive id st) [
  | inl e ↦ (rw e refl, rw e refl)
  | inr (r, e) ↦ (rw e refl, rw e refl)
]

-- The constraint does not set a time that holds whatever the gate is.
abbrev pub leaves_gate : Constraint → Bool
leaves_gate (on c) = false
leaves_gate (must_start_on c) = false
leaves_gate (must_finish_on c) = false
leaves_gate _ = true

apply_constraint-later :
    (c : Constraint) (w : Window) → leaves_gate c ≡ true → w.start ≤ (apply_constraint c w).start
unfolding apply_constraint
apply_constraint-later unconstrained w h = omega arith
apply_constraint-later asap w h = omega arith
apply_constraint-later no_later_than w h = omega arith
apply_constraint-later (no_earlier_than c) w h = ground arith
apply_constraint-later (on c) w h = cc
apply_constraint-later (must_start_on c) w h = cc
apply_constraint-later (must_finish_on c) w h = cc

later-right : (a g : ℕ) → g ≤ later a g
later-right a g = ground arith

-- The window asked for ends before it begins and the call throws, without a row; or it does not,
-- and the call makes a row, which begins no earlier than the time and ends no earlier than it
-- begins.
abbrev pub AfterEnd : ℕ → ℕ → Window → Option ScheduledTask × Store → Type 0
AfterEnd t id asked (made, st) =
    ((asked.finish < asked.start) × (made ≡ none) × (find_row id st ≡ none))
    ⊎ ((asked.start ≤ asked.finish)
        × (r : ScheduledTask) × (made ≡ some r)
        × (find_row id st ≡ some r)
        × (t ≤ r.effective_start_utc)
        × (r.effective_start_utc ≤ r.effective_end_utc))

window_outcome-AfterEnd :
    (draft : ScheduledTask) (t : ℕ) (st : Store)
    → Matched st
    → t ≤ draft.effective_start_utc
    → draft.effective_start_utc ≤ draft.effective_end_utc
    → AfterEnd t st.next_id
        (record { start = draft.requested_start_utc; finish = draft.requested_end_utc })
        (window_outcome st.next_id draft (draw_tokens st) (create_active draft (draw_tokens st)))
unfolding create_active find_row
window_outcome-AfterEnd draft t st m l k =
    elim (Bool-cases (leb draft.requested_start_utc draft.requested_end_utc)) [
      | inl h ↦
          let e : is_admitted draft ≡ true = ground arith in
          rw e (
            inr (
              leb→le _ _ h,
              _,
              refl,
              find-latest st.rows st.queue st.next_id m (created_row st.next_id draft) refl,
              l,
              k,
            ))
      | inr h ↦
          let e : is_admitted draft ≡ false = ground arith in
          rw e (inl (ground arith, refl, find-new st.rows st.next_id m.numbered))
    ]

-- The window that `scheduleTaskWindow` makes for a task begins no earlier than the end of any
-- active row of a task that it depends on, in any way but start to start, and ends no earlier
-- than it begins; no row is made, and the call throws, exactly if the constraint leaves a
-- requested end before the requested start. It is so where the task has no constraint of type
-- On, MustStartOn or MustFinishOn, the days are Sound, and the numbers of rows are below the
-- next one.
pub schedule_task_window-after_predecessors :
    (v : Services) (deps : List Dependency) (c : Constraint) (q : WindowRequest) (st : Store)
    (dep : Dependency) (before : ScheduledTask)
    → ((t : ℕ) (u : Option ℕ) (z : String) → Sound (v.days t u z))
    → Matched st
    → leaves_gate c ≡ true
    → Memᴰ dep deps
    → dep.task_id ≡ q.task_id
    → dep.dependency_type ≢ ss
    → Memᴰ before st.rows
    → before.task_id ≡ dep.depends_on_task_id
    → before.is_active ≡ true
    → AfterEnd
        (end_of before)
        st.next_id
        (constrained_window deps c q st)
        (schedule_task_window v deps c q st)
unfolding schedule_task_window create_active find_row constrained_window fitted_window apply_gate
schedule_task_window-after_predecessors v deps c q st dep before sound m soft i e k j f a =
    let (g, h, l) = earliest_gate_utc-after_ends deps st.rows q.task_id dep before i e k j a f in
    let w = apply_gate (some g) (requested_window q) in
    let up =
      next_allowed_utc-not_before (tenant_days v (v.context q.task_id).tenant_id none) (sound _ _ _)
        (apply_constraint c w).start in
    let asked = constrained_window deps c q st in
    let fitted = fitted_window (tenant_days v (v.context q.task_id).tenant_id none) asked in
    window_outcome-AfterEnd
      (window_draft v q (earliest_gate_utc deps st.rows q.task_id) asked fitted st.drawn)
      (end_of before) st m
      (rw h (
        omega (arith, l, later-right q.requested_start_utc g, apply_constraint-later c w soft, up)))
      (omega arith)
