-- ===== src/Scheduler/Clear.antt =====
-- What the time of a shift has to do with the rows that stand already.
use mathlib.Core.List.{Memᴰ}
use mathlib.Core.Path.{subst}
use six_1_core_api.Prelude.{
  ℕ, ◌+◌, ◌≤◌, ◌<◌, ◌≡◌, ◌⊎◌, refl, sym, inl, inr, Bool, true, false, List, [], ◌∷◌, arith,
}
use six_1_core_api.Prelude.Tests.{ltb, Bool-cases, if◌then◌else◌}
use six_1_core_api.Prelude.Lists.{All, filter, filter→Memᴰ, Memᴰ→All}
use six_1_core_api.Scheduler.{ScheduledTask}
use six_1_core_api.Scheduler.Planning.{Days, next_allowed_utc}
use six_1_core_api.Scheduler.Allowed.{Sound}
use six_1_core_api.Scheduler.Active.{find_user_overlaps, find_task_child_overlaps, busy, child_of}
use six_1_core_api.Scheduler.Shifts.{
  Placement, placed, clashing, end_from, latest_end, pushed_start, place_among, place,
}
use six_1_core_api.Scheduler.Serial.{List-cases, next_allowed_utc-not_before, latest_end-from}

filter-none {ℓ} :
    {A : Type ℓ} (p : A → Bool) (xs : List A) → filter p xs ≡ [] → All (λ (x : A). p x ≡ false) xs
filter-none p [] h = tt
filter-none p (x ∷ xs) h = elim (Bool-cases (p x)) [
  | inl e ↦ absurd (no (rw e at h))
  | inr e ↦ (e, filter-none p xs (rw e at h))
]
  where
    no : x ∷ filter p xs ≡ [] → ⊥
    no k = cc

latest_end-Memᴰ :
    (m : ℕ) {r : ScheduledTask} (rs : List ScheduledTask)
    → Memᴰ r rs
    → r.effective_end_utc ≤ latest_end m rs
unfolding latest_end
latest_end-Memᴰ m [] k = elim k [ ]
latest_end-Memᴰ m (x ∷ rs) (Memᴰ.tail k) =
    latest_end-Memᴰ (if ltb m x.effective_end_utc then x.effective_end_utc else m) rs k
latest_end-Memᴰ m {r} (x ∷ rs) (Memᴰ.head e) = elim (Bool-cases (ltb m x.effective_end_utc)) [
  | inl h ↦ rw (e, h) (latest_end-from x.effective_end_utc rs)
  | inr h ↦ rw (e, h) (omega (arith, not_before h, latest_end-from m rs))
]
  where
    not_before : ltb m x.effective_end_utc ≡ false → x.effective_end_utc ≤ m
    not_before h = ground arith

-- No row of the list passes the test.
abbrev pub NoneOf : (ScheduledTask → Bool) → List ScheduledTask → Type 0
NoneOf p rows = All (λ (r : ScheduledTask). p r ≡ false) rows

-- The latest end is the given time, or the end of one of the rows.
latest_end-attained :
    (m : ℕ) (rs : List ScheduledTask)
    → (latest_end m rs ≡ m)
      ⊎ ((r : ScheduledTask) × Memᴰ r rs × (latest_end m rs ≡ r.effective_end_utc))
unfolding latest_end
latest_end-attained m [] = inl refl
latest_end-attained m (x ∷ rs) = elim (Bool-cases (ltb m x.effective_end_utc)) [
  | inl h ↦ elim (latest_end-attained x.effective_end_utc rs) [
    | inl e ↦ inr (x, Memᴰ.head refl, rw h e)
    | inr (r, k, e) ↦ inr (r, Memᴰ.tail k, rw h e)
  ]
  | inr h ↦ elim (latest_end-attained m rs) [
    | inl e ↦ inl (rw h e)
    | inr (r, k, e) ↦ inr (r, Memᴰ.tail k, rw h e)
  ]
]

module _ (d : Days) (rows : List ScheduledTask) (user task duration from : ℕ) where
  abbrev pub first_time : ℕ
  first_time = next_allowed_utc d from

  -- The row is in the way of the first allowed time.
  abbrev pub in_the_way : ScheduledTask → Bool
  in_the_way = busy user first_time (end_from d duration first_time)

  -- A time for a shift that may not have its first allowed one: the first allowed time from a
  -- minute after the latest end of the rows in the way, or after the first time, if they end by
  -- then; and no child of the task is there.
  pub record Pushed (a b : ℕ) : Type 0 where
    pub way : ScheduledTask
    pub way_there : Memᴰ way rows
    pub way_busy : in_the_way way ≡ true
    pub last : ℕ
    pub is_first_after : a ≡ next_allowed_utc d (last + 60000)
    pub all_ended : All (λ (r : ScheduledTask). r.effective_end_utc ≤ last) (filter in_the_way rows)
    pub is_an_end :
        (last ≡ first_time)
        ⊎ ((r : ScheduledTask) × Memᴰ r (filter in_the_way rows) × (last ≡ r.effective_end_utc))
    pub later : first_time < a
    pub free : NoneOf (child_of task a b) rows

  -- No row is in the way, and the shift has its first allowed time; or a row is in the way, and
  -- the shift is pushed, or clashes with a child of the task.
  abbrev pub WellAmong : Placement → Type 0
  WellAmong (placed a b) =
      (b ≡ end_from d duration a) × (((a ≡ first_time) × NoneOf (busy user a b) rows) ⊎ Pushed a b)
  WellAmong clashing =
      let next = pushed_start d first_time (filter in_the_way rows) in
      (c : ScheduledTask) × Memᴰ c rows
      × (in_the_way c ≡ true)
      × (r : ScheduledTask) × Memᴰ r rows
      × (child_of task next (end_from d duration next) r ≡ true)

  first-Memᴰ :
      (p : ScheduledTask → Bool) {r : ScheduledTask} {rs : List ScheduledTask}
      → filter p rows ≡ r ∷ rs
      → Memᴰ r (filter p rows)
  first-Memᴰ p k = rw k (Memᴰ.head refl)

  pushed-WellAmong :
      Sound d
      → (c : ScheduledTask) (cs : List ScheduledTask) → filter in_the_way rows ≡ c ∷ cs
      → WellAmong (place_among d rows task duration first_time (c ∷ cs))
  unfolding place_among find_task_child_overlaps
  pushed-WellAmong sound c cs e =
      let last = latest_end first_time (c ∷ cs) in
      let next = pushed_start d first_time (c ∷ cs) in
      let (there, blocks) = filter→Memᴰ in_the_way rows (first-Memᴰ in_the_way e) in
      elim (List-cases (filter (child_of task next (end_from d duration next)) rows)) [
        | inl k ↦ rw k (
          refl,
          inr (record {
            way = c;
            way_there = there;
            way_busy = blocks;
            last = last;
            is_first_after = refl;
            all_ended = rw e (
                Memᴰ→All (λ (r : ScheduledTask). r.effective_end_utc ≤ last) (c ∷ cs)
                  (λ r m. latest_end-Memᴰ first_time (c ∷ cs) m));
            is_an_end = rw e (latest_end-attained first_time (c ∷ cs));
            later = omega (
              arith,
              next_allowed_utc-not_before d sound (last + 60000),
              latest_end-from first_time (c ∷ cs),
            );
            free = filter-none _ rows k;
          }),
        )
        | inr (r, rs, k) ↦
            let (m, h) =
              filter→Memᴰ (child_of task next (end_from d duration next)) rows (first-Memᴰ _ k) in
            rw k (c, there, blocks, r, m, rw e h)
      ]

  place_among-WellAmong :
      Sound d → WellAmong (place_among d rows task duration first_time (filter in_the_way rows))
  unfolding place_among
  place_among-WellAmong sound = elim (List-cases (filter in_the_way rows)) [
    | inl k ↦ rw k (refl, inl (refl, filter-none _ rows k))
    | inr (c, cs, k) ↦
        subst (λ ways. WellAmong (place_among d rows task duration first_time ways)) (sym k)
          (pushed-WellAmong sound c cs k)
  ]

  -- The time of a shift: its first allowed one, if no active row of its user overlaps that,
  -- and no other; if such rows are in the way, the first allowed time from a minute after the
  -- latest end of those rows, or after the first allowed time if they end by then, provided
  -- that no active child of the task overlaps it; or a clash, where a row is in the way and a
  -- child of the task overlaps that next time. The end is found from the start, whose days are
  -- Sound.
  pub place-WellAmong : Sound d → WellAmong (place d rows user task duration from)
  unfolding place find_user_overlaps
  place-WellAmong sound = place_among-WellAmong sound
