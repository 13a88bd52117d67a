-- ===== src/Lifecycle/Ownership.antt =====
-- Whose lifecycle states an update reaches.
use mathlib.Core.List.{Memᴰ}
use six_1_core_api.Prelude.{ℕ, ◌≡◌, ◌<◌, refl, true, Option, none, some}
use six_1_core_api.Prelude.Tests.{◌==◌, lt→ltb, ==_iff, and_true}
use six_1_core_api.Prelude.Lists.{find-passes, find-Memᴰ}
use six_1_core_api.Lifecycle.{
  TemplateSet, ConfigObject, Lifecycle, update, Config, config_object_not_found,
  lifecycle_not_found, other_tenant, done, ◌>>=◌, need, effective_tenant_id, member_set, in_scope,
  object_by_id,
}
use six_1_core_api.Lifecycle.Changes.{
  log_config_change, owning_set, UpdateLifecycle, lifecycle_by_id, edited, save_lifecycle,
  lifecycle_value, update_lifecycle,
}

-- What an update that succeeded has checked: the state is there, and its object's set is one
-- that the configuration has, of the tenant that calls.
pub record Owned (p : UpdateLifecycle) (c : Config) : Type 0 where
  pub lifecycle : Lifecycle
  pub object : ConfigObject
  pub set : TemplateSet
  pub set_there : Memᴰ set c.template_sets
  pub is_there : lifecycle_by_id p.config_object_lifecycle_id c ≡ some lifecycle
  pub of_object : object_by_id lifecycle.config_object_id c ≡ some object
  pub owned_by :
      (set.config_template_set_id ≡ object.config_template_set_id)
      × (0 < effective_tenant_id p.tenant_id → set.tenant_id ≡ effective_tenant_id p.tenant_id)

in_scope-owner :
    (set tenant : ℕ) (s : TemplateSet)
    → in_scope set tenant s ≡ true
    → (s.config_template_set_id ≡ set) × (0 < tenant → s.tenant_id ≡ tenant)
in_scope-owner set tenant s h =
    let (a, b) = and_true (s.config_template_set_id == set) _ h in
    ((==_iff _ _).0 a, λ l. (==_iff _ _).0 (rw (lt→ltb 0 tenant l) at b))

member_set-Memᴰ :
    (set tenant : ℕ) (c : Config) (s : TemplateSet)
    → member_set set tenant c ≡ some s
    → Memᴰ s c.template_sets
unfolding member_set
member_set-Memᴰ set tenant c s e = find-Memᴰ (in_scope set tenant) c.template_sets s e

member_set-owner :
    (set tenant : ℕ) (c : Config) (s : TemplateSet)
    → member_set set tenant c ≡ some s
    → (s.config_template_set_id ≡ set) × (0 < tenant → s.tenant_id ≡ tenant)
unfolding member_set
member_set-owner set tenant c s e =
    in_scope-owner set tenant s (find-passes (in_scope set tenant) c.template_sets s e)

-- Only a tenant's own states are updated: where an update succeeds for a tenant, the state's
-- object belongs to a template set that the configuration has and that is of that tenant.
pub update_lifecycle-Owned :
    (p : UpdateLifecycle) (c : Config) (q : Lifecycle × Config)
    → update_lifecycle p c ≡ done q
    → Owned p c
unfolding update_lifecycle owning_set
update_lifecycle-Owned p c q e =
    at_lifecycle (lifecycle_by_id p.config_object_lifecycle_id c) refl e
  where
    tenant : ℕ
    tenant = effective_tenant_id p.tenant_id

    saved : Lifecycle → Lifecycle × Config
    saved l = (
      edited p l,
      log_config_change tenant "lifecycle" l.config_object_lifecycle_id update p.updated_by
          (some (lifecycle_value l)) (some (lifecycle_value (edited p l)))
          (save_lifecycle (edited p l) c),
    )

    at_set :
        (l : Lifecycle) (o : ConfigObject) (s : Option TemplateSet)
        → lifecycle_by_id p.config_object_lifecycle_id c ≡ some l
        → object_by_id l.config_object_id c ≡ some o
        → member_set o.config_template_set_id tenant c ≡ s
        → (need s other_tenant >>= λ (s : TemplateSet). done (saved l)) ≡ done q
        → Owned p c
    at_set l o none a b d e = cc
    at_set l o (some s) a b d e = record {
      lifecycle = l;
      object = o;
      set = s;
      set_there = member_set-Memᴰ o.config_template_set_id tenant c s d;
      is_there = a;
      of_object = b;
      owned_by = member_set-owner o.config_template_set_id tenant c s d;
    }

    at_object :
        (l : Lifecycle) (o : Option ConfigObject)
        → lifecycle_by_id p.config_object_lifecycle_id c ≡ some l
        → object_by_id l.config_object_id c ≡ o
        → ((need o config_object_not_found >>= λ (o : ConfigObject).
              need (member_set o.config_template_set_id tenant c) other_tenant)
            >>= λ (s : TemplateSet). done (saved l))
          ≡ done q
        → Owned p c
    at_object l none a b e = cc
    at_object l (some o) a b e =
        at_set l o (member_set o.config_template_set_id tenant c) a b refl e

    at_lifecycle :
        (l : Option Lifecycle)
        → lifecycle_by_id p.config_object_lifecycle_id c ≡ l
        → (need l lifecycle_not_found >>= λ (l : Lifecycle).
            ((need (object_by_id l.config_object_id c) config_object_not_found
                >>= λ (o : ConfigObject).
                    need (member_set o.config_template_set_id tenant c) other_tenant)
              >>= λ (s : TemplateSet). done (saved l)))
          ≡ done q
        → Owned p c
    at_lifecycle none a e = cc
    at_lifecycle (some l) a e = at_object l (object_by_id l.config_object_id c) a refl e
