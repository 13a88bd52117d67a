-- ===== src/Scheduler/PlanningExamples.antt =====
-- A calendar in UTC that works from nine to five on every day.
use mathlib.Core.List.{Memᴰ}
use six_1_core_api.Prelude.{ℕ, ◌+◌, ◌*◌, ◌/◌, ◌≤◌, ◌<◌, ◌≡◌, ◌⊎◌, refl, ap, false, [], ◌∷◌, arith}
use six_1_core_api.Scheduler.{Interval, is_within_any_interval, next_start_after}
use six_1_core_api.Scheduler.Planning.{
  Days, allowed_on, next_allowed_from, next_allowed_utc, serve, serve_all, add_from,
  add_duration_within_working_hours,
}
use six_1_core_api.Scheduler.Working.{Ended}
use six_1_core_api.Scheduler.Added.{Short, add_duration_within_working_hours-Counts}
use six_1_core_api.Scheduler.Allowed.{
  works, Sound, FirstWorking, Idle, days_after, next_allowed_utc-First,
}

-- The milliseconds of a day.
abbrev pub day : ℕ
day = 86400000

abbrev pub office_hours : ℕ → Interval
office_hours n = record { start = n * 86400000 + 32400000; finish = n * 86400000 + 61200000 }

abbrev pub office : Days
office = record {
  is_off = λ t. false;
  slots = λ t. office_hours (t / 86400000) ∷ [];
  next_day = λ t. (t / 86400000) * 86400000 + 86400000;
}

pub office-Sound : Sound office
office-Sound = record {
  rises = λ t. omega arith;
  same_day = λ t u a b. ap (λ n. office_hours n ∷ []) (same t u a b);
  inside = λ t i m. fits t i m;
  not_empty = λ t i m. full t i m;
}
  where
    same :
        (t u : ℕ) → t ≤ u → u < (t / 86400000) * 86400000 + 86400000 → u / 86400000 ≡ t / 86400000
    same t u a b = omega arith

    fits :
        (t : ℕ) (i : Interval)
        → Memᴰ i (office_hours (t / 86400000) ∷ [])
        → i.finish ≤ (t / 86400000) * 86400000 + 86400000
    fits t i (Memᴰ.head e) = rw e (omega arith)
    fits t i (Memᴰ.tail m) = elim m [ ]

    full : (t : ℕ) (i : Interval) → Memᴰ i (office_hours (t / 86400000) ∷ []) → i.start < i.finish
    full t i (Memᴰ.head e) = rw e (omega arith)
    full t i (Memᴰ.tail m) = elim m [ ]

-- Seven in the evening: the next morning at nine.
evening : next_allowed_utc office 68400000 ≡ 118800000
unfolding next_allowed_utc next_allowed_from allowed_on is_within_any_interval next_start_after
evening = refl

next_allowed_utc-First_example :
    FirstWorking office 68400000 (next_allowed_utc office 68400000)
    ⊎ ((next_allowed_utc office 68400000 ≡ 68400000)
        × Idle office 68400000 (days_after 366 office 68400000))
next_allowed_utc-First_example = next_allowed_utc-First office office-Sound 68400000

-- Three hours from four in the afternoon on: until eleven on the next day.
afternoon : add_duration_within_working_hours office 57600000 10800000 ≡ 126000000
unfolding add_duration_within_working_hours add_from serve_all serve
afternoon = refl

add_duration_within_working_hours-Counts_example :
    Ended
      (works office)
      57600000
      10800000
      (add_duration_within_working_hours office 57600000 10800000)
    ⊎ ((add_duration_within_working_hours office 57600000 10800000 ≡ 57600000 + 10800000)
        × ((rest : ℕ) × Short office 366 57600000 10800000 rest))
add_duration_within_working_hours-Counts_example =
    add_duration_within_working_hours-Counts office office-Sound (λ t. (tt, tt)) 57600000 10800000
