-- ===== src/Scheduler/Free.antt =====
-- A call of `scheduleFromShifts` for users who have no other schedule.
use mathlib.Core.List.{Memᴰ}
use six_1_core_api.Prelude.{ℕ, ◌≤◌, ◌≡◌, Bool, true, ◌&&◌, List, map}
use six_1_core_api.Prelude.Lists.{All}
use six_1_core_api.Scheduler.{ScheduledTask}
use six_1_core_api.Scheduler.Active.{same_user}
use six_1_core_api.Scheduler.Shifts.{Shift, Request}

-- An active row of a user.
abbrev pub holds : ℕ → ScheduledTask → Bool
holds u r = same_user u r.tenant_user_id && r.is_active

-- No user of the call has an active row that ends after t.
abbrev Past : (ℕ → Type 0) → ℕ → List ScheduledTask → Type 0
Past U t rows =
    (r : ScheduledTask) (u : ℕ) → Memᴰ r rows → U u → holds u r ≡ true → r.effective_end_utc ≤ t

module _ (U : ℕ → Type 0) where
  -- The shift is one of a user of the call, and does not end before it begins.
  abbrev Fits : Shift → Type 0
  Fits s = U s.tenant_user_id × (s.planned_start_utc ≤ s.planned_end_utc)

  UsersIn : List Shift → Type 0
  UsersIn ss = All Fits ss

-- The user has a shift in the call.
abbrev HasShift : Request → ℕ → Type 0
HasShift q u = (s : Shift) × Memᴰ s q.shifts × (u ≡ s.tenant_user_id)

abbrev pub assignment_ids : List Shift → List ℕ
assignment_ids ss = map (λ (x : Shift). x.resource_assignment_id) ss
