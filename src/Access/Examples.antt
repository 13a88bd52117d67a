-- ===== src/Access/Examples.antt =====
-- Witnesses and tests of the permission check.
use Prim.Native.Char.{code}
use mathlib.Core.List.{Memᴰ}
use six_1_core_api.Prelude.{
  ℕ, String, ◌+◌, ◌-◌, ◌*◌, ◌||◌, ◌≡◌, refl, true, false, none, some, List, [], ◌∷◌, ◌++◌, arith,
}
use six_1_core_api.Prelude.Tests.{ltb, if◌then◌else◌}
use six_1_core_api.Access.{
  Name, codes, UserRole, TenantUserRole, Tables, has_permissions, Caller, insufficient,
  missing_user, query_failed, can_activate, Number, whole, nan, number, text, get_permission_set,
}
use six_1_core_api.Access.Spec.{Grant}
use six_1_core_api.Access.Grants.{has_permissions_iff}
use six_1_core_api.Access.Guard.{
  AllGranted, Entitled, can_activate-allowed_iff, tenant_roles-unseen,
}

-- User 1 manages projects by role 10; tenant user 7 has role 20, which no user has.
abbrev tables : Tables
tables = record {
  user_roles = record { user_id = 1; role_id = 10 } ∷ [];
  tenant_user_roles = record { tenant_user_id = 7; role_id = 20 } ∷ [];
  role_permissions =
      record { role_id = 10; permission_id = 100 }
      ∷ record { role_id = 20; permission_id = 200 }
      ∷ [];
  permission_descriptions =
      record { permission_id = 100; name = codes "projects.manage" }
      ∷ record { permission_id = 200; name = codes "tasks.read" }
      ∷ [];
}

-- `Number` on texts of digits, signs, points and exponents left out.
abbrev of_digits : ℕ → String → Number
of_digits n String.[] = whole n
of_digits n (String.◌∷◌ c s) =
    let rest = of_digits (10 * n + (code c - 48)) s in
    if ltb (code c) 48 || ltb 57 (code c) then nan else rest

abbrev to_number : String → Number
to_number s = of_digits 0 s

abbrev required : List Name
required = codes "projects.create" ∷ codes "projects.manage" ∷ []

projects_checked : has_permissions tables (whole 1) required none ≡ true
unfolding has_permissions get_permission_set
projects_checked = refl

tasks_refused :
    can_activate to_number tables
      (some (codes "tasks.read" ∷ []))
      (Caller.rpc (some (number (whole 1))) none (some (text "7")) none)
    ≡ insufficient
unfolding can_activate has_permissions get_permission_set
tasks_refused = refl

nobody_refused :
    can_activate to_number tables
      (some required)
      (Caller.http (some (number (whole 0))) none none none)
    ≡ missing_user
unfolding can_activate
nobody_refused = refl

-- The text "0" counts as an id, and a text that is no number makes the query throw.
texts_identified :
    (can_activate to_number tables (some required) (Caller.http (some (text "0")) none none none)
      ≡ insufficient)
    × (can_activate to_number tables
          (some required)
          (Caller.http (some (text "abc")) none none none)
        ≡ query_failed)
unfolding can_activate has_permissions get_permission_set
texts_identified = (refl, refl)

has_permissions_iff_example : AllGranted tables (whole 1) none required
has_permissions_iff_example =
    (has_permissions_iff tables (whole 1) none required).0 projects_checked

granted_projects : Grant tables (whole 1) none (codes "projects" ++ codes ".manage")
granted_projects = record {
  described = record { permission_id = 100; name = codes "projects.manage" };
  described_in = Memᴰ.head refl;
  named = refl;
  role = record { role_id = 10; permission_id = 100 };
  role_in = Memᴰ.head refl;
  of_permission = refl;
  assigned = record { user_id = 1; role_id = 10 };
  assigned_in = Memᴰ.head refl;
  of_role = refl;
  held = refl;
}

can_activate-allowed_iff_example :
    Entitled to_number tables required (Caller.http none (some (text "1")) none none)
can_activate-allowed_iff_example =
    (can_activate-allowed_iff to_number tables (codes "projects.create")
        (codes "projects.manage" ∷ []) (Caller.http none (some (text "1")) none none)).0
      (unfold can_activate has_permissions get_permission_set in refl)

only_user : (ur : UserRole) → Memᴰ ur tables.user_roles → (ur.user_id ≡ 1) × (ur.role_id ≡ 10)
only_user ur (Memᴰ.head e) = ground arith
only_user ur (Memᴰ.tail m) = elim m [ ]

only_tenant_user : (tur : TenantUserRole) → Memᴰ tur tables.tenant_user_roles → tur.role_id ≡ 20
only_tenant_user tur (Memᴰ.head e) = ground arith
only_tenant_user tur (Memᴰ.tail m) = elim m [ ]

tenant_roles-unseen_example :
    has_permissions tables (whole 2) (codes "tasks.read" ∷ []) (some 7) ≡ false
tenant_roles-unseen_example =
    tenant_roles-unseen tables 2 7 (codes "tasks.read") []
      (λ ur m e. let k = only_user ur m in absurd (omega arith))
      (λ ur tur m m' e e'.
        let k = only_user ur m in let k' = only_tenant_user tur m' in absurd (omega arith))
