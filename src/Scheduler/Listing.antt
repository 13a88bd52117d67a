-- ===== src/Scheduler/Listing.antt =====
-- src/scheduler/services/scheduler.service.ts: `findAll`, `findAllByTask` and `findOne`, and
-- src/common/runtime-v2-list-pagination.ts.
use six_1_core_api.Prelude.{
  ℕ, zero, suc, ◌+◌, ◌-◌, ◌*◌, ◌/◌, String, Bool, true, ◌&&◌, Option, none, some, List, [], ◌∷◌,
  max,
}
use six_1_core_api.Prelude.Tests.{◌==◌, leb, if◌then◌else◌}
use six_1_core_api.Prelude.Lists.{length, filter, take, drop}
use six_1_core_api.Scheduler.{ScheduledTask, Store, find_row}

pub record Filters : Type 0 where
  pub tenant_id : Option ℕ
  pub task_id : Option ℕ
  pub page : Option ℕ
  pub limit : Option ℕ
  pub sort_by : Option String
  pub sort_order : Option String

pub record Order : Type 0 where
  pub column : String
  pub direction : String

pub record Query : Type 0 where
  pub tenant_id : Option ℕ
  pub task_id : Option ℕ
  pub order : Option Order
  pub taken : Option ℕ
  pub skipped : ℕ

-- A number that counts as true.
abbrev pub truthy : Option ℕ → Option ℕ
truthy none = none
truthy (some zero) = none
truthy (some (suc n)) = some (suc n)

abbrev pub page_or_first : Option ℕ → ℕ
page_or_first p = elim (truthy p) [ none ↦ 1 | some n ↦ n ]

-- `Math.min(limit, 10)`
abbrev pub at_most_ten : ℕ → ℕ
at_most_ten l = if leb l 10 then l else 10

-- What `buildFindQuery` makes of the filters that it is given, where there is a limit.
abbrev pub with_page : Filters → Filters
with_page f = elim (truthy f.limit) [
  | none ↦ f
  | some l ↦ record f { page = some (page_or_first f.page); limit = some (at_most_ten l) }
]

abbrev pub direction_or : Option String → String
direction_or none = "ASC"
direction_or (some d) = d

abbrev pub order_of : Option String → Option String → Option Order
order_of none d = none
order_of (some c) d = some (record { column = c; direction = direction_or d })

-- `buildFindQuery`; a text that is given is not empty.
unfoldable pub build_find_query : Filters → Query
build_find_query f = record {
  tenant_id = f.tenant_id;
  task_id = none;
  order = order_of f.sort_by f.sort_order;
  taken = elim (truthy f.limit) [ none ↦ none | some l ↦ some (at_most_ten l) ];
  skipped = elim (truthy f.limit) [
    | none ↦ 0
    | some l ↦ (page_or_first f.page - 1) * at_most_ten l
  ];
}

-- A condition on undefined is none.
abbrev pub same_or_any : Option ℕ → ℕ → Bool
same_or_any none n = true
same_or_any (some m) n = n == m

abbrev pub matching : Query → ScheduledTask → Bool
matching q r =
    r.is_active && (same_or_any q.tenant_id r.tenant_id && same_or_any q.task_id r.task_id)

abbrev pub taken_of : Option ℕ → List ScheduledTask → List ScheduledTask
taken_of none rows = rows
taken_of (some n) rows = take n rows

-- How the database orders the rows that a query finds; it may do so differently for each query.
abbrev pub Sorting : Type 0
Sorting = Query → List ScheduledTask → List ScheduledTask

-- `findAndCount`
unfoldable pub found_items : Sorting → Query → List ScheduledTask → List ScheduledTask
found_items sort q rows = taken_of q.taken (drop q.skipped (sort q (filter (matching q) rows)))

unfoldable pub found_total : Query → List ScheduledTask → ℕ
found_total q rows = length (filter (matching q) rows)

pub record Pagination : Type 0 where
  pub total : ℕ
  pub page : ℕ
  pub limit : ℕ
  pub total_pages : ℕ

abbrev pub positive_or : Option ℕ → ℕ → ℕ
positive_or none d = d
positive_or (some zero) d = d
positive_or (some (suc n)) d = suc n

-- `buildRuntimeV2ListPagination`; the quotient is rounded up.
unfoldable pub build_runtime_v2_list_pagination : Option ℕ → Option ℕ → ℕ → ℕ → Pagination
build_runtime_v2_list_pagination page limit total default_limit =
    let effective = positive_or limit default_limit in
    record {
      total = total;
      page = positive_or page 1;
      limit = effective;
      total_pages = max 1 ((total + (effective - 1)) / effective);
    }

pub record Listed : Type 0 where
  pub items : List ScheduledTask
  pub pagination : Pagination

-- A list without items throws.
abbrev pub unless_empty : List ScheduledTask → Pagination → Option Listed
unless_empty [] p = none
unless_empty (r ∷ rs) p = some (record { items = r ∷ rs; pagination = p })

-- `findAll`: the filters have been changed by `buildFindQuery`.
unfoldable pub find_all : Sorting → Filters → List ScheduledTask → Option Listed
find_all sort f rows =
    let q = build_find_query f in
    unless_empty (found_items sort q rows) (
      build_runtime_v2_list_pagination (with_page f).page (with_page f).limit (found_total q rows)
        10)

-- `findAllByTask`: `buildFindQuery` gets a copy of the filters, so the pagination is of the
-- filters as they came.
unfoldable pub find_all_by_task : Sorting → Filters → List ScheduledTask → Option Listed
find_all_by_task sort f rows =
    let q = record (build_find_query f) { task_id = truthy f.task_id } in
    unless_empty (found_items sort q rows)
      (build_runtime_v2_list_pagination f.page f.limit (found_total q rows) 10)

-- `findOne`
unfoldable pub find_one : ℕ → Store → Option ScheduledTask
find_one id s = find_row id s
