-- ===== src/Access/Spec.antt =====
-- What the permission check promises: which grants there are, stated by the rows of the tables.
use mathlib.Core.Path.{subst}
use mathlib.Core.List.{Memᴰ}
use six_1_core_api.Prelude.{
  ℕ, ◌≡◌, refl, ◌≢◌, ◌↔◌, ◌⊎◌, inl, inr, true, Option, none, some, List, [], ◌∷◌, arith, ap,
}
use six_1_core_api.Prelude.Tests.{◌==◌, ==_iff, Bool-cases}
use six_1_core_api.Prelude.Lists.{filter→Memᴰ, Memᴰ→filter, map→Memᴰ, Memᴰ→map}
use six_1_core_api.Access.{
  Name, name_eq, UserRole, TenantUserRole, RolePermission, PermissionDescription, Tables, Joined,
  Number, whole, other, infinite, nan, same_id, left_join, tenants_of, join_user, selected,
}

pub name_eq_iff : (s t : Name) → (name_eq s t ≡ true) ↔ (s ≡ t)
name_eq_iff [] [] = (λ _. refl, λ _. refl)
name_eq_iff [] (b ∷ t) = (λ h. cc, λ h. cc)
name_eq_iff (a ∷ s) [] = (λ h. cc, λ h. cc)
name_eq_iff (a ∷ s) (b ∷ t) = let ih = name_eq_iff s t in (λ h. ground arith, λ h. ground arith)

-- The tenant user that asks has the role, with an id that counts as given.
pub record TenantHolds (db : Tables) (role : ℕ) (asked : ℕ) : Type 0 where
  pub row : TenantUserRole
  pub stored : Memᴰ row db.tenant_user_roles
  pub of_role : row.role_id ≡ role
  pub of_asked : row.tenant_user_id ≡ asked
  pub given : asked ≢ 0

-- The number is that id.
abbrev pub Is : Number → ℕ → Type 0
Is (whole u) found = found ≡ u
Is _ found = ⊥

same_id_iff : (n : Number) (found : ℕ) → (same_id n found ≡ true) ↔ Is n found
same_id_iff (whole u) found = ==_iff found u
same_id_iff other found = (λ h. cc, λ h. absurd h)
same_id_iff infinite found = (λ h. cc, λ h. absurd h)
same_id_iff nan found = (λ h. cc, λ h. absurd h)

abbrev pub Holds : Tables → Number → Option ℕ → UserRole → Type 0
Holds db user none ur = Is user ur.user_id
Holds db user (some t) ur = Is user ur.user_id ⊎ TenantHolds db ur.role_id t

-- The name is granted: a described permission of a role that some row of user_roles assigns, to
-- the user who asks or, if the tenant user who asks has the role too, to anybody.
pub record Grant (db : Tables) (user : Number) (tenant_user : Option ℕ) (n : Name) : Type 0 where
  pub described : PermissionDescription
  pub described_in : Memᴰ described db.permission_descriptions
  pub named : described.name ≡ n
  pub role : RolePermission
  pub role_in : Memᴰ role db.role_permissions
  pub of_permission : role.permission_id ≡ described.permission_id
  pub assigned : UserRole
  pub assigned_in : Memᴰ assigned db.user_roles
  pub of_role : assigned.role_id ≡ role.role_id
  pub held : Holds db user tenant_user assigned

abbrev tagged : Name → ℕ → TenantUserRole → Joined
tagged n u r = record { name = n; user = u; tenant_user = some (r.tenant_user_id) }

abbrev Stored : Tables → ℕ → List TenantUserRole → Type 0
Stored db role ts =
    (x : TenantUserRole) → Memᴰ x ts → Memᴰ x db.tenant_user_roles × ((x.role_id == role) ≡ true)

module _ (db : Tables) (user : Number) (n : Name) (ur : UserRole) where
  -- The condition on a row of the left join that carries no tenant user.
  bare-Holds :
      (tenant_user : Option ℕ)
      → selected user tenant_user (record { name = n; user = ur.user_id; tenant_user = none })
        ≡ true
      → Holds db user tenant_user ur
  unfolding selected
  bare-Holds none h = (same_id_iff user ur.user_id).0 (ground arith)
  bare-Holds (some t) h = inl ((same_id_iff user ur.user_id).0 (ground arith))

  -- The condition on a row that carries one.
  found-Holds :
      (tenant_user : Option ℕ) (r : TenantUserRole)
      → Memᴰ r db.tenant_user_roles
      → r.role_id ≡ ur.role_id
      → selected user tenant_user
          (record { name = n; user = ur.user_id; tenant_user = some (r.tenant_user_id) })
        ≡ true
      → Holds db user tenant_user ur
  unfolding selected
  found-Holds none r m e h = (same_id_iff user ur.user_id).0 (ground arith)
  found-Holds (some t) r m e h = elim (Bool-cases (same_id user ur.user_id)) [
    | inl same ↦ inl ((same_id_iff user ur.user_id).0 same)
    | inr differs ↦
        inr (record {
          row = r;
          stored = m;
          of_role = e;
          of_asked = ground arith;
          given = ground arith;
        })
  ]

  -- A row of the left join that the condition selects.
  left_join-Holds :
      (tenant_user : Option ℕ) (ts : List TenantUserRole) (j : Joined)
      → Stored db ur.role_id ts
      → Memᴰ j (left_join n ur.user_id ts)
      → selected user tenant_user j ≡ true
      → Holds db user tenant_user ur × (j.name ≡ n)
  unfolding left_join
  left_join-Holds tenant_user [] j st (Memᴰ.head e) h = (
    bare-Holds tenant_user (subst (λ x. selected user tenant_user x ≡ true) e h),
    ap (λ (x : Joined). x.name) e,
  )
  left_join-Holds tenant_user [] j st (Memᴰ.tail m) h = elim m [ ]
  left_join-Holds tenant_user (t ∷ ts) j st m h =
      let (r, m', e) = map→Memᴰ (tagged n ur.user_id) (t ∷ ts) m in
      (
        found-Holds tenant_user r (st r m').0 ((==_iff _ _).0 (st r m').1)
            (subst (λ x. selected user tenant_user x ≡ true) e h),
        ap (λ (x : Joined). x.name) e,
      )

  of_user :
      (asked found : Option ℕ)
      → Is user ur.user_id
      → selected user asked (record { name = n; user = ur.user_id; tenant_user = found }) ≡ true
  unfolding selected
  of_user asked found h = let e = (same_id_iff user ur.user_id).1 h in ground arith

  of_tenant :
      (asked : ℕ) (r : TenantUserRole)
      → r.tenant_user_id ≡ asked
      → asked ≢ 0
      → selected user (some asked) (tagged n ur.user_id r) ≡ true
  unfolding selected
  of_tenant asked r h g = ground arith

  -- Every left join has a row that the condition selects, where the role is held.
  Holds-left_join :
      (tenant_user : Option ℕ) (ts : List TenantUserRole)
      → ((x : TenantUserRole)
          → Memᴰ x db.tenant_user_roles
          → (x.role_id == ur.role_id) ≡ true
          → Memᴰ x ts)
      → Holds db user tenant_user ur
      → (j : Joined) × Memᴰ j (left_join n ur.user_id ts)
        × (selected user tenant_user j ≡ true)
        × (j.name ≡ n)
  unfolding left_join
  Holds-left_join none [] all_in h = (_, Memᴰ.head refl, of_user none none h, refl)
  Holds-left_join none (t ∷ ts) all_in h = (_, Memᴰ.head refl, of_user none _ h, refl)
  Holds-left_join (some a) [] all_in (inl h) = (_, Memᴰ.head refl, of_user (some a) none h, refl)
  Holds-left_join (some a) (t ∷ ts) all_in (inl h) = (_, Memᴰ.head refl, of_user (some a) _ h, refl)
  Holds-left_join (some a) [] all_in (inr h) = elim (all_in h.row h.stored (ground arith)) [ ]
  Holds-left_join (some a) (t ∷ ts) all_in (inr h) = (
    tagged n ur.user_id h.row,
    Memᴰ→map (tagged n ur.user_id) (all_in h.row h.stored (ground arith)),
    of_tenant a h.row h.of_asked h.given,
    refl,
  )

module _ (db : Tables) (user : Number) (tenant_user : Option ℕ) where
  -- Some row of the list carries the name and meets the condition.
  abbrev pub Selects : Name → List Joined → Type 0
  Selects n js = (j : Joined) × Memᴰ j js × (selected user tenant_user j ≡ true) × (j.name ≡ n)

  tenants_of-Stored :
      (rp : RolePermission) (ur : UserRole)
      → ur.role_id ≡ rp.role_id
      → Stored db ur.role_id (tenants_of db rp)
  unfolding tenants_of
  tenants_of-Stored rp ur e x m = let (m', h) = filter→Memᴰ _ _ m in (m', ground arith)

  pub join_user→Holds :
      (n : Name) (rp : RolePermission) (ur : UserRole) (j : Joined)
      → ur.role_id ≡ rp.role_id
      → Memᴰ j (join_user db n rp ur)
      → selected user tenant_user j ≡ true
      → Holds db user tenant_user ur × (j.name ≡ n)
  unfolding join_user
  join_user→Holds n rp ur j e m s =
      left_join-Holds db user n ur tenant_user _ j (tenants_of-Stored rp ur e) m s

  pub Holds→join_user :
      (n : Name) (rp : RolePermission) (ur : UserRole)
      → ur.role_id ≡ rp.role_id
      → Holds db user tenant_user ur
      → Selects n (join_user db n rp ur)
  unfolding join_user
  Holds→join_user n rp ur e =
      Holds-left_join db user n ur tenant_user _
        (λ x m h. unfold tenants_of in Memᴰ→filter _ m (ground arith))
