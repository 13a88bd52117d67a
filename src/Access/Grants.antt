-- ===== src/Access/Grants.antt =====
-- The permission query, the check and the guard against the grants of Spec.
use mathlib.Core.List.{Memᴰ}
use six_1_core_api.Prelude.{ℕ, ◌≡◌, sym, ◌∙◌, ◌↔◌, ◌⊎◌, inl, inr, true, Option, List, arith}
use six_1_core_api.Prelude.Tests.{==_iff, Bool-cases}
use six_1_core_api.Prelude.Lists.{
  filter, any→Memᴰ, Memᴰ→any, all→Memᴰ, Memᴰ→all, filter→Memᴰ, Memᴰ→filter, map→Memᴰ, Memᴰ→map,
  flat_map→Memᴰ, Memᴰ→flat_map,
}
use six_1_core_api.Access.{
  Name, Number, Tables, Joined, users_of, join_user, join_role, roles_of, join_description,
  base_permission_query, selected, get_permission_set, has, manage_permission, permission_satisfied,
  has_permissions,
}
use six_1_core_api.Access.Spec.{Grant, name_eq_iff, join_user→Holds, Holds→join_user}

module _ (db : Tables) (user : Number) (tenant_user : Option ℕ) where
  -- A name is in the set that the query returns exactly if it is granted.
  pub has_iff-Grant :
      (n : Name)
      → (has (get_permission_set db user tenant_user) n ≡ true) ↔ Grant db user tenant_user n
  unfolding get_permission_set base_permission_query
  has_iff-Grant n = (forth, back)
    where
      forth : has (get_permission_set db user tenant_user) n ≡ true → Grant db user tenant_user n
      forth h =
          let (n', m, e) = any→Memᴰ _ (get_permission_set db user tenant_user) h in
          let (j, mj, ej) =
            map→Memᴰ (λ (r : Joined). r.name)
              (filter (selected user tenant_user) (base_permission_query db)) m in
          let (mq, sel) = filter→Memᴰ (selected user tenant_user) (base_permission_query db) mj in
          let (pd, mpd, m₁) = flat_map→Memᴰ (join_description db) db.permission_descriptions mq in
          let (rp, mrp, m₂) = flat_map→Memᴰ (join_role db pd.name) (roles_of db pd) m₁ in
          let (ur, mur, m₃) = flat_map→Memᴰ (join_user db pd.name rp) (users_of db rp) m₂ in
          let (rp_in, rp_of) = filter→Memᴰ _ db.role_permissions mrp in
          let (ur_in, ur_of) = filter→Memᴰ _ db.user_roles mur in
          let (held, named) =
            join_user→Holds db user tenant_user pd.name rp ur j ((==_iff _ _).0 ur_of) m₃ sel in
          record {
            described = pd;
            described_in = mpd;
            named = sym named ∙ (sym ej ∙ sym ((name_eq_iff n n').0 e));
            role = rp;
            role_in = rp_in;
            of_permission = (==_iff _ _).0 rp_of;
            assigned = ur;
            assigned_in = ur_in;
            of_role = (==_iff _ _).0 ur_of;
            held = held;
          }

      back : Grant db user tenant_user n → has (get_permission_set db user tenant_user) n ≡ true
      back g =
          let (j, m, s, e) =
            Holds→join_user db user tenant_user g.described.name g.role g.assigned g.of_role
              g.held in
          Memᴰ→any _
            (Memᴰ→map (λ (r : Joined). r.name)
              (Memᴰ→filter (selected user tenant_user)
                (Memᴰ→flat_map (join_description db) g.described_in (
                  Memᴰ→flat_map (join_role db g.described.name)
                    (Memᴰ→filter _ g.role_in (ground arith))
                    (Memᴰ→flat_map (join_user db g.described.name g.role)
                      (Memᴰ→filter _ g.assigned_in (ground arith)) m)))
                s))
            ((name_eq_iff n _).1 (sym g.named ∙ sym e))

  -- A required name is satisfied exactly if it, or the manage permission of its module, is granted.
  pub permission_satisfied_iff :
      (n : Name)
      → (permission_satisfied n (get_permission_set db user tenant_user) ≡ true)
        ↔ (Grant db user tenant_user n ⊎ Grant db user tenant_user (manage_permission n))
  unfolding permission_satisfied
  permission_satisfied_iff n = (forth, back)
    where
      granted : List Name
      granted = get_permission_set db user tenant_user

      forth :
          permission_satisfied n granted ≡ true
          → Grant db user tenant_user n ⊎ Grant db user tenant_user (manage_permission n)
      forth h = elim (Bool-cases (has granted n)) [
        | inl e ↦ inl ((has_iff-Grant n).0 e)
        | inr e ↦ inr ((has_iff-Grant (manage_permission n)).0 (rw e at h))
      ]

      back :
          Grant db user tenant_user n ⊎ Grant db user tenant_user (manage_permission n)
          → permission_satisfied n granted ≡ true
      back (inl g) = rw ((has_iff-Grant n).1 g)
      back (inr g) = elim (Bool-cases (has granted n)) [
        | inl e ↦ rw e
        | inr e ↦ rw e ((has_iff-Grant (manage_permission n)).1 g)
      ]

  -- The permission check passes exactly if every required name, or the manage permission of
  -- its module, is granted: it is the described permission of a role that some row of
  -- user_roles assigns, to the user who asks or, where the tenant user who asks has the role
  -- too, to anybody.
  pub has_permissions_iff :
      (required : List Name)
      → (has_permissions db user required tenant_user ≡ true) ↔ (
          (n : Name)
          → Memᴰ n required
          → Grant db user tenant_user n ⊎ Grant db user tenant_user (manage_permission n))
  unfolding has_permissions
  has_permissions_iff required = (
    λ h n m. (permission_satisfied_iff n).0 (all→Memᴰ _ required h m),
    λ h. Memᴰ→all _ required (λ n m. (permission_satisfied_iff n).1 (h n m)),
  )
