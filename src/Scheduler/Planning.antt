-- ===== src/Scheduler/Planning.antt =====
-- src/scheduler/services/scheduler.service.ts: `nextAllowedUtc` and
-- `addDurationWithinWorkingHours`, which fit a time and a duration to a calendar.
use six_1_core_api.Prelude.{ℕ, zero, suc, ◌+◌, ◌-◌, Bool, Option, none, some, List, [], ◌∷◌}
use six_1_core_api.Prelude.Tests.{leb, ltb, if◌then◌else◌}
use six_1_core_api.Scheduler.{Interval, is_within_any_interval, next_start_after}

-- The calendar of a tenant or a user, in its time zone: whether the local day of a time is off, the
-- working intervals of that day, and the start of the next local day. It stands for the provider and
-- for luxon's time zones.
pub record Days : Type 0 where
  pub is_off : ℕ → Bool
  pub slots : ℕ → List Interval
  pub next_day : ℕ → ℕ

abbrev pub intervals_on : Days → ℕ → List Interval
intervals_on d t = if d.is_off t then [] else d.slots t

-- The body of the loop: the cursor, or the next start of its day.
unfoldable pub allowed_on : Days → ℕ → Option ℕ
allowed_on d cursor =
    if is_within_any_interval cursor (intervals_on d cursor)
    then some cursor
    else next_start_after cursor (intervals_on d cursor)

unfoldable pub next_allowed_from : ℕ → Days → ℕ → ℕ → ℕ
next_allowed_from zero d requested cursor = requested
next_allowed_from (suc n) d requested cursor = elim (allowed_on d cursor) [
  | some t ↦ t
  | none ↦ next_allowed_from n d requested (d.next_day cursor)
]

-- `nextAllowedUtc`
unfoldable pub next_allowed_utc : Days → ℕ → ℕ
next_allowed_utc d requested = next_allowed_from 366 d requested requested

-- Where the duration ends, or what has been reached and what remains of it.
pub data Progress : Type 0 where
  finished : (at : ℕ) → Progress
  going : (pointer remaining : ℕ) → Progress

-- The body of the inner loop; `continue` keeps the pointer.
unfoldable pub serve : Interval → ℕ → ℕ → Progress
serve i pointer remaining =
    let usable = if ltb i.start pointer then pointer else i.start in
    if leb i.finish usable
    then going pointer remaining
    else if leb remaining (i.finish - usable)
    then finished (usable + remaining)
    else going i.finish (remaining - (i.finish - usable))

unfoldable pub serve_all : List Interval → ℕ → ℕ → Progress
serve_all [] pointer remaining = going pointer remaining
serve_all (i ∷ is) pointer remaining = elim (serve i pointer remaining) [
  | finished t ↦ finished t
  | going p r ↦ serve_all is p r
]

-- The loop over the days, `remaining > 0`.
unfoldable pub add_from : ℕ → Days → ℕ → ℕ → Progress
add_from zero d pointer remaining = going pointer remaining
add_from (suc n) d pointer zero = going pointer zero
add_from (suc n) d pointer (suc r) = elim (serve_all (intervals_on d pointer) pointer (suc r)) [
  | finished t ↦ finished t
  | going p remaining ↦ add_from n d (d.next_day pointer) remaining
]

abbrev pub finish_or : ℕ → Progress → ℕ
finish_or t (finished u) = u
finish_or t (going p r) = t

-- `addDurationWithinWorkingHours`
unfoldable pub add_duration_within_working_hours : Days → ℕ → ℕ → ℕ
add_duration_within_working_hours d start duration =
    if leb duration 0 then start else finish_or (start + duration) (add_from 366 d start duration)
