-- ===== src/Scheduler/Serial.antt =====
-- The order of the shifts that `scheduleFromShifts` plans.
use six_1_core_api.Prelude.{
  ℕ, suc, ◌+◌, String, ◌≤◌, ◌≡◌, ◌⊎◌, refl, sym, ap, ◌∙◌, inl, inr, Option, none, some, List, [],
  ◌∷◌, map, arith,
}
use six_1_core_api.Prelude.Tests.{ltb, leb, ltb→lt, Bool-cases, Option-cases}
use six_1_core_api.Prelude.Lists.{length}
use six_1_core_api.Scheduler.{ScheduledTask, Store}
use six_1_core_api.Scheduler.Planning.{Days, next_allowed_utc}
use six_1_core_api.Scheduler.Allowed.{Sound, next_allowed_utc-First}
use six_1_core_api.Scheduler.Active.{find_task_child_overlaps}
use six_1_core_api.Scheduler.Shifts.{
  Services, Shift, Request, Placement, placed, clashing, insert_shift, sort_shifts, sequence_of,
  after_previous, serialize_after, serialize, serial_start, end_from, latest_end, pushed_start,
  place_among, place, validate_existence,
}
use six_1_core_api.Scheduler.Written.{schedule_all-placed, schedule_all-rejected}
use six_1_core_api.Scheduler.Scheduling.{
  Created, Outcome, Refusal, done, refused, with_first, save_shift, write_child, placement,
  schedule_all, schedule_from_shifts,
}

pub List-cases {ℓ} :
    {A : Type ℓ} (xs : List A) → (xs ≡ []) ⊎ ((y : A) × (ys : List A) × (xs ≡ y ∷ ys))
List-cases [] = inl refl
List-cases (y ∷ ys) = inr (y, ys, refl)

pub Placement-cases : (p : Placement) → ((a : ℕ) × (b : ℕ) × (p ≡ placed a b)) ⊎ (p ≡ clashing)
Placement-cases (placed a b) = inl (a, b, refl)
Placement-cases clashing = inr refl

abbrev start_or : ℕ → Placement → ℕ
start_or n (placed a b) = a
start_or n clashing = n

abbrev finish_or : ℕ → Placement → ℕ
finish_or n (placed a b) = b
finish_or n clashing = n

pub placed_inj : (a b a' b' : ℕ) → placed a b ≡ placed a' b' → (a ≡ a') × (b ≡ b')
placed_inj a b a' b' h = (ap (start_or 0) h, ap (finish_or 0) h)

-- No allowed time lies before the one asked for.
pub next_allowed_utc-not_before : (d : Days) → Sound d → (t : ℕ) → t ≤ next_allowed_utc d t
next_allowed_utc-not_before d sound t = elim (next_allowed_utc-First d sound t) [
  | inl f ↦ f.not_before
  | inr (e, i) ↦ omega (arith, e)
]

pub latest_end-from : (m : ℕ) (rs : List ScheduledTask) → m ≤ latest_end m rs
unfolding latest_end
latest_end-from m [] = omega arith
latest_end-from m (r ∷ rs) = elim (Bool-cases (ltb m r.effective_end_utc)) [
  | inl h ↦ rw h (omega (arith, ltb→lt _ _ h, latest_end-from r.effective_end_utc rs))
  | inr h ↦ rw h (latest_end-from m rs)
]

module _ (d : Days) (sound : Sound d) where
  place_among-InOrder :
      (rows : List ScheduledTask) (task duration start : ℕ) (cs : List ScheduledTask) (a b : ℕ)
      → place_among d rows task duration start cs ≡ placed a b
      → (start ≤ a) × (a ≤ b)
  unfolding place_among
  place_among-InOrder rows task duration start [] a b h =
      let (e, f) = placed_inj _ _ a b h in (omega (arith, e), omega (arith, e, f))
  place_among-InOrder rows task duration start (c ∷ cs) a b h =
      let pushed = pushed_start d start (c ∷ cs) in
      elim (List-cases (find_task_child_overlaps task pushed (end_from d duration pushed) rows)) [
        | inr (r, rs, k) ↦ cc
        | inl k ↦
            let (e, f) = placed_inj _ _ a b (rw k at h) in
            let up = next_allowed_utc-not_before d sound (latest_end start (c ∷ cs) + 60000) in
            let from = latest_end-from start (c ∷ cs) in
            (omega (arith, e, up, from), omega (arith, e, f))
      ]

  place-InOrder :
      (rows : List ScheduledTask) (user task duration from a b : ℕ)
      → place d rows user task duration from ≡ placed a b
      → (from ≤ a) × (a ≤ b)
  unfolding place
  place-InOrder rows user task duration from a b h =
      let (l, m) = place_among-InOrder rows task duration (next_allowed_utc d from) _ a b h in
      (omega (arith, l, next_allowed_utc-not_before d sound from), m)

-- Each shift begins no earlier than the time before it, and no later than it ends.
abbrev pub Serial : ℕ → List Created → Type 0
Serial t [] = Unit
Serial t (c ∷ cs) =
    (t ≤ c.effective_start_utc)
    × (c.effective_start_utc ≤ c.effective_end_utc)
    × Serial c.effective_end_utc cs

abbrev pub floor : Option ℕ → ℕ
floor none = 0
floor (some t) = t

pub serial_start-floor : (o : Option ℕ) (s : Shift) → floor o ≤ serial_start o s
serial_start-floor none s = omega arith
serial_start-floor (some t) s = ground arith

pub with_first-done :
    (c : Created) (o : Outcome) (st : Store) (cs : List Created)
    → with_first c o ≡ done st cs
    → (ds : List Created) × (cs ≡ c ∷ ds) × (o ≡ done st ds)
with_first-done c (done st' ds) st cs h = (ds, sym (list h), cc)
  where
    created : Outcome → List Created
    created (done s xs) = xs
    created (refused s w) = []

    list : done st' (c ∷ ds) ≡ done st cs → c ∷ ds ≡ cs
    list e = ap created e
with_first-done c (refused st' w) st cs h = cc

length-insert : (s : Shift) (ss : List Shift) → length (insert_shift s ss) ≡ suc (length ss)
unfolding insert_shift
length-insert s [] = refl
length-insert s (t ∷ ts) = elim (Bool-cases (leb (sequence_of s) (sequence_of t))) [
  | inl h ↦ rw h refl
  | inr h ↦ rw h (ap suc (length-insert s ts))
]

length-sort : (ss : List Shift) → length (sort_shifts ss) ≡ length ss
unfolding sort_shifts
length-sort [] = refl
length-sort (s ∷ ss) = length-insert s (sort_shifts ss) ∙ ap suc (length-sort ss)

length-serialize_after : (t : ℕ) (ss : List Shift) → length (serialize_after t ss) ≡ length ss
unfolding serialize_after
length-serialize_after t [] = refl
length-serialize_after t (s ∷ ss) =
    ap suc (length-serialize_after (after_previous t s).planned_end_utc ss)

pub length-serialize : (ss : List Shift) → length (serialize (sort_shifts ss)) ≡ length ss
unfolding serialize
length-serialize ss = go (sort_shifts ss) ∙ length-sort ss
  where
    go : (ts : List Shift) → length (serialize ts) ≡ length ts
    go [] = refl
    go (t ∷ ts) = ap suc (length-serialize_after _ ts)

-- A call is refused at once, or runs the loop over all the shifts in order.
pub schedule_from_shifts-cases :
    (v : Services) (q : Request) (st : Store)
    → ((w : Refusal) × (schedule_from_shifts v q st ≡ refused st w))
      ⊎ (schedule_from_shifts v q st ≡ schedule_all v q none (serialize (sort_shifts q.shifts)) st)
unfolding schedule_from_shifts
schedule_from_shifts-cases v q st = elim (List-cases q.shifts) [
  | inl k ↦ inl (Refusal.no_shifts, rw k refl)
  | inr (s, ss, k) ↦
      elim (Bool-cases (
        validate_existence v.assignments
          (map (λ (x : Shift). x.resource_assignment_id) (s ∷ ss)))) [
            | inl e ↦ inr (rw k (rw e refl))
            | inr e ↦ inl (Refusal.assignments_not_found, rw k (rw e refl))
          ]
]

-- The shifts of a call: as many as were asked for, one after another.
pub record Planned (q : Request) (cs : List Created) : Type 0 where
  pub serial : Serial 0 cs
  pub all_of_them : length cs ≡ length q.shifts

refused-ne-done :
    {st st' : Store} {w : Refusal} {cs : List Created} → refused st w ≡ done st' cs → ⊥
refused-ne-done e = cc

module _ (v : Services) (q : Request)
    (sound : (t : ℕ) (u : Option ℕ) (z : String) → Sound (v.days t u z)) where
  schedule_all-Serial :
      (o : Option ℕ) (ss : List Shift) (st st' : Store) (cs : List Created)
      → schedule_all v q o ss st ≡ done st' cs
      → Serial (floor o) cs × (length cs ≡ length ss)
  unfolding schedule_all
  schedule_all-Serial o [] st st' cs h = nothing cs h
    where
      created : Outcome → List Created
      created (done s xs) = xs
      created (refused s w) = []

      nothing :
          (cs : List Created) → done st [] ≡ done st' cs → Serial (floor o) cs × (length cs ≡ 0)
      nothing [] e = (tt, refl)
      nothing (x ∷ xs) e = absurd (empty (ap created e))
        where
          empty : [] ≡ x ∷ xs → ⊥
          empty k = cc
  schedule_all-Serial o (s ∷ ss) st st' cs h = elim (Placement-cases (placement v q o s st)) [
    | inr k ↦ cc
    | inl (a, b, k) ↦ elim (Option-cases (write_child v q s st.next_shift a b (save_shift s st))) [
      | inl w ↦ absurd (refused-ne-done (sym (schedule_all-rejected v q o s ss st a b k w) ∙ h))
      | inr (written, w) ↦
          let (ds, e, f) =
            with_first-done _ _ st' cs
              (sym (schedule_all-placed v q o s ss st written a b k w) ∙ h) in
          let (l, m) = place-InOrder _ (sound _ _ _) st.rows _ _ _ (serial_start o s) a b k in
          let (ser, len) = schedule_all-Serial (some b) ss written st' ds f in
          rw e ((omega (arith, l, serial_start-floor o s), m, ser), ap suc len)
    ]
  ]

  -- Where `scheduleFromShifts` succeeds, it has made as many schedules as there are shifts,
  -- and they stand one after another: each ends no earlier than it begins, and the next begins
  -- no earlier than that end, whatever calendars the users of the shifts have and whatever
  -- else is scheduled. The days of the calendars are Sound.
  pub schedule_from_shifts-Planned :
      (st st' : Store) (cs : List Created)
      → schedule_from_shifts v q st ≡ done st' cs
      → Planned q cs
  schedule_from_shifts-Planned st st' cs h = elim (schedule_from_shifts-cases v q st) [
    | inl (w, e) ↦ absurd (no (sym e ∙ h))
    | inr e ↦
        let (ser, len) = schedule_all-Serial none _ st st' cs (sym e ∙ h) in
        record { serial = ser; all_of_them = len ∙ length-serialize q.shifts }
  ]
    where
      no : {w : Refusal} → refused st w ≡ done st' cs → ⊥
      no e = cc
