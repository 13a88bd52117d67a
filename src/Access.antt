-- ===== src/Access.antt =====
-- src/authorization/authorization.service.ts and authorization.guard.ts: the permission query,
-- the check of required permissions and the guard. The four tables that the query joins are
-- lists of rows; a permission name is the list of its code units.
pub mod Spec
pub mod Grants
pub mod Guard
mod Examples
use Prim.Native.Char.{code}
use mathlib.Core.Option
use mathlib.Core.List.{flat_map}
use six_1_core_api.Prelude.{
  ℕ, String, Bool, true, false, not, ◌&&◌, ◌||◌, Option, none, some, List, [], ◌∷◌, ◌++◌, map,
}
use six_1_core_api.Prelude.Tests.{◌==◌, if◌then◌else◌}
use six_1_core_api.Prelude.Lists.{any, all, filter}

-- A name as its code units, so that it can be split.
abbrev pub Name : Type 0
Name = List ℕ

abbrev pub codes : String → Name
codes String.[] = []
codes (String.◌∷◌ c s) = code c ∷ codes s

abbrev pub name_eq : Name → Name → Bool
name_eq [] [] = true
name_eq [] (_ ∷ _) = false
name_eq (_ ∷ _) [] = false
name_eq (a ∷ s) (b ∷ t) = a == b && name_eq s t

-- user_roles
pub record UserRole : Type 0 where
  pub user_id : ℕ
  pub role_id : ℕ

-- tenant_user_roles
pub record TenantUserRole : Type 0 where
  pub tenant_user_id : ℕ
  pub role_id : ℕ

-- role_permissions
pub record RolePermission : Type 0 where
  pub role_id : ℕ
  pub permission_id : ℕ

-- permission_descriptions
pub record PermissionDescription : Type 0 where
  pub permission_id : ℕ
  pub name : Name

pub record Tables : Type 0 where
  pub user_roles : List UserRole
  pub tenant_user_roles : List TenantUserRole
  pub role_permissions : List RolePermission
  pub permission_descriptions : List PermissionDescription

-- A row of the joined query: the name, the user of the inner join, and the tenant user of the
-- left join, which is absent where no row of that table fits.
pub record Joined : Type 0 where
  pub name : Name
  pub user : ℕ
  pub tenant_user : Option ℕ

-- LEFT JOIN tenant_user_roles tur ON tur.role_id = rp.role_id
pub left_join : Name → ℕ → List TenantUserRole → List Joined
left_join n u [] = record { name = n; user = u; tenant_user = none } ∷ []
left_join n u (t ∷ ts) =
    map
      (λ (r : TenantUserRole). record { name = n; user = u; tenant_user = some (r.tenant_user_id) })
      (t ∷ ts)

-- LEFT JOIN of one role's rows with the assignments of that role to tenant users.
pub tenants_of : Tables → RolePermission → List TenantUserRole
tenants_of db rp = filter (λ (t : TenantUserRole). t.role_id == rp.role_id) db.tenant_user_roles

-- INNER JOIN user_roles ur ON ur.role_id = rp.role_id
pub users_of : Tables → RolePermission → List UserRole
users_of db rp = filter (λ (u : UserRole). u.role_id == rp.role_id) db.user_roles

pub join_user : Tables → Name → RolePermission → UserRole → List Joined
join_user db n rp ur = left_join n ur.user_id (tenants_of db rp)

pub join_role : Tables → Name → RolePermission → List Joined
join_role db n rp = flat_map (join_user db n rp) (users_of db rp)

-- INNER JOIN role_permissions rp ON rp.permission_id = pd.permission_id
pub roles_of : Tables → PermissionDescription → List RolePermission
roles_of db pd =
    filter (λ (r : RolePermission). r.permission_id == pd.permission_id) db.role_permissions

pub join_description : Tables → PermissionDescription → List Joined
join_description db pd = flat_map (join_role db pd.name) (roles_of db pd)

-- The joins of `basePermissionQuery`.
pub base_permission_query : Tables → List Joined
unfolding left_join tenants_of users_of join_user join_role roles_of join_description flat_map
base_permission_query db = flat_map (join_description db) db.permission_descriptions

-- `if (tenantUserId)`: an absent id and the id 0 add no alternative to the condition.
tenant_matches : Option ℕ → Option ℕ → Bool
tenant_matches none found = false
tenant_matches (some t) none = false
tenant_matches (some t) (some f) = if t == 0 then false else f == t

-- A number of JavaScript, as the id of a row: a negative number and a fraction are the id of none,
-- and an infinite one and NaN are no values of the database.
pub data Number : Type 0 where
  whole : ℕ → Number
  other infinite nan : Number

abbrev pub same_id : Number → ℕ → Bool
same_id (whole u) found = found == u
same_id _ found = false

-- The WHERE clause of `getPermissionSet`.
pub selected : Number → Option ℕ → Joined → Bool
unfolding tenant_matches
selected user tenant_user row = same_id user row.user || tenant_matches tenant_user row.tenant_user

pub get_permission_set : Tables → Number → Option ℕ → List Name
unfolding base_permission_query selected
get_permission_set db user tenant_user =
    map (λ (r : Joined). r.name) (filter (selected user tenant_user) (base_permission_query db))

abbrev pub has : List Name → Name → Bool
has granted n = any (name_eq n) granted

-- `requiredPermission.split('.')[0]`
abbrev pub module_of : Name → Name
module_of [] = []
module_of (c ∷ s) = let rest = module_of s in if c == b'.' then [] else c ∷ rest

abbrev pub manage_permission : Name → Name
manage_permission n = module_of n ++ codes ".manage"

pub permission_satisfied : Name → List Name → Bool
permission_satisfied required granted =
    if has granted required then true else has granted (manage_permission required)

pub has_permissions : Tables → Number → List Name → Option ℕ → Bool
unfolding permission_satisfied
has_permissions db user permissions tenant_user =
    let granted = get_permission_set db user tenant_user in
    all (λ p. permission_satisfied p granted) permissions

-- An id in a request.
pub data RawId : Type 0 where
  number : Number → RawId
  text : String → RawId

-- What the guard reads of a request: the ids under `user` and, if they are absent there, under
-- `body`; or the two spellings in the payload of a call.
pub data Caller : Type 0 where
  http : (user_id body_user_id tenant_user_id body_tenant_user_id : Option RawId) → Caller
  rpc : (user_id user_id_snake tenant_user_id tenant_user_id_snake : Option RawId) → Caller
  other : Caller

pub data Verdict : Type 0 where
  allowed missing_user unsupported_context insufficient query_failed : Verdict

-- `a ?? b`
abbrev pub or_else : Option RawId → Option RawId → Option RawId
or_else none b = b
or_else (some a) b = some a

-- An id counts as true: the text "0" does, the number 0 and the empty text do not.
abbrev pub is_given : RawId → Bool
is_given (number (whole n)) = not (n == 0)
is_given (number Number.other) = true
is_given (number infinite) = true
is_given (number nan) = false
is_given (text String.[]) = false
is_given (text (String.◌∷◌ c s)) = true

abbrev pub given : Option RawId → Option RawId
given none = none
given (some i) = if is_given i then some i else none

pub data Identified : Type 0 where
  identified : Number → Option Number → Identified
  refused : Verdict → Identified

-- The tenant user that the query asks for: NaN adds no alternative to the condition, and no row
-- meets the alternative of a number that is no id.
abbrev pub asked_tenant : Option Number → Option ℕ
asked_tenant (some (whole n)) = some n
asked_tenant _ = none

-- The ids of the query are values of the database; the condition leaves out a tenant user NaN.
abbrev pub is_value : Number → Bool
is_value infinite = false
is_value nan = false
is_value _ = true

abbrev pub is_askable : Number → Option Number → Bool
is_askable u (some infinite) = false
is_askable u _ = is_value u

-- `Number` of a text is a parameter.
module _ (to_number : String → Number) where
  abbrev pub number_of : RawId → Number
  number_of (number n) = n
  number_of (text s) = to_number s

  pub ensure_user : Option RawId → Option RawId → Identified
  ensure_user user tenant_user = elim (given user) [
    | none ↦ refused missing_user
    | some u ↦ identified (number_of u) (Option.map number_of (given tenant_user))
  ]

  pub get_caller : Caller → Identified
  unfolding ensure_user
  get_caller (http u bu t bt) = ensure_user (or_else u bu) (or_else t bt)
  get_caller (rpc u us t ts) = ensure_user (or_else u us) (or_else t ts)
  get_caller Caller.other = refused unsupported_context

  -- A query for what is no value of the database throws.
  pub check_caller : Tables → List Name → Identified → Verdict
  check_caller db permissions (refused v) = v
  check_caller db permissions (identified u t) =
      if is_askable u t
      then (if has_permissions db u permissions (asked_tenant t) then allowed else insufficient)
      else query_failed

  pub can_activate : Tables → Option (List Name) → Caller → Verdict
  unfolding get_caller check_caller
  can_activate db none caller = allowed
  can_activate db (some []) caller = allowed
  can_activate db (some (p ∷ ps)) caller = check_caller db (p ∷ ps) (get_caller caller)
