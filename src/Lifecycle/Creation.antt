-- ===== src/Lifecycle/Creation.antt =====
-- Creating states and transitions: what a second request does, and what a new transition permits.
use mathlib.Core.Path.{subst}
use six_1_core_api.Prelude.{ℕ, String, ◌≡◌, refl, sym, ◌∙◌, ap, inl, inr, Option, none, some}
use six_1_core_api.Prelude.Tests.{==_refl, str_eq, str_eq_refl, Bool-cases}
use six_1_core_api.Prelude.Lists.{find-added}
use six_1_core_api.Json.{Json}
use six_1_core_api.Lifecycle.{
  ConfigObject, Lifecycle, Transition, Project, Config, transition_exists, Outcome, done, refused,
  ◌>>=◌, effective_tenant_id, published_set, published_object, published_object_of_set, connects,
  find_transition, check_transition, validate_project_status_transition,
}
use six_1_core_api.Lifecycle.Changes.{
  log_config_change, object_of_scope, CreateLifecycle, has_state, find_lifecycle, new_lifecycle,
  create_unless, create_lifecycle,
}
use six_1_core_api.Lifecycle.Transitions.{
  CreateTransition, new_transition, store_transition, parsed, create_unless_there,
  create_lifecycle_transition,
}

done_inj {ℓ} : {A : Type ℓ} {a b : A} → done a ≡ done b → a ≡ b
done_inj h = cc

create_unless-scope :
    (p : CreateLifecycle) (object tenant set : ℕ) (type : String) (found : Option Lifecycle)
    (c : Config)
    → object_of_scope tenant set type (create_unless p object found c).1
      ≡ object_of_scope tenant set type c
unfolding object_of_scope published_set published_object_of_set create_unless log_config_change
create_unless-scope p object tenant set type (some l) c = refl
create_unless-scope p object tenant set type none c = refl

create_unless-found :
    (p : CreateLifecycle) (object : ℕ) (found : Option Lifecycle) (c : Config)
    → find_lifecycle object p.state_key c ≡ found
    → find_lifecycle object p.state_key (create_unless p object found c).1
      ≡ some (create_unless p object found c).0
unfolding find_lifecycle create_unless log_config_change
create_unless-found p object (some l) c e = e
create_unless-found p object none c e =
    find-added (has_state object p.state_key) c.lifecycles
      (new_lifecycle p object c.next_lifecycle_id) e (rw (==_refl object, str_eq_refl p.state_key))

create_from : CreateLifecycle → Config → Outcome ConfigObject → Outcome (Lifecycle × Config)
create_from p c r = r >>= λ (o : ConfigObject).
    done (create_unless p o.config_object_id (find_lifecycle o.config_object_id p.state_key c) c)

again :
    (p : CreateLifecycle) (c : Config) (r : Outcome ConfigObject) (q : Lifecycle × Config)
    → object_of_scope (effective_tenant_id p.tenant_id) p.config_template_set_id p.object_type c ≡ r
    → create_from p c r ≡ done q
    → create_lifecycle p q.1 ≡ done q
unfolding create_from create_lifecycle create_unless
again p c (refused r) q s e = cc
again p c (done o) q s e =
    subst (λ (z : Lifecycle × Config). create_lifecycle p z.1 ≡ done z) (done_inj e)
      (rw
        (
          create_unless-scope p o.config_object_id (effective_tenant_id p.tenant_id)
              p.config_template_set_id p.object_type
              (find_lifecycle o.config_object_id p.state_key c) c,
          s,
        )
        (rw (
          create_unless-found p o.config_object_id (find_lifecycle o.config_object_id p.state_key c)
            c refl)))

-- Creating a lifecycle state again, as it was created, returns the same state and changes
-- nothing, the audit log included.
pub create_lifecycle-again :
    (p : CreateLifecycle) (c c' : Config) (l : Lifecycle)
    → create_lifecycle p c ≡ done (l, c')
    → create_lifecycle p c' ≡ done (l, c')
unfolding create_lifecycle create_from
create_lifecycle-again p c c' l e =
    again p c
      (object_of_scope (effective_tenant_id p.tenant_id) p.config_template_set_id p.object_type c)
      (l, c') refl e

module _ (p : CreateTransition) (object : ℕ) (c : Config) (rules : Option Json) where
  abbrev stored : Config
  stored = (store_transition p object c rules).1

  store-scope :
      (tenant set : ℕ) (type : String)
      → object_of_scope tenant set type stored ≡ object_of_scope tenant set type c
  unfolding object_of_scope published_set published_object_of_set store_transition log_config_change
  store-scope tenant set type = refl

  store-found :
      find_transition object p.from_state_key p.to_state_key c ≡ none
      → find_transition object p.from_state_key p.to_state_key stored
        ≡ some (new_transition p object c.next_transition_id rules)
  unfolding find_transition store_transition log_config_change
  store-found e =
      find-added (connects object p.from_state_key p.to_state_key) c.transitions
        (new_transition p object c.next_transition_id rules) e
        (rw (==_refl object, str_eq_refl p.from_state_key, str_eq_refl p.to_state_key))

  store-published : (type : String) → published_object type stored ≡ published_object type c
  unfolding published_object store_transition log_config_change
  store-published type = refl

-- What a creation that succeeded has done: it found its object, and no such transition.
record Created (parse : String → Option Json) (p : CreateTransition) (c : Config)
    (q : Transition × Config) : Type 0 where
  object : ConfigObject
  rules : Option Json
  scope :
      object_of_scope (effective_tenant_id p.tenant_id) p.config_template_set_id p.object_type c
      ≡ done object
  fresh : find_transition object.config_object_id p.from_state_key p.to_state_key c ≡ none
  stores : store_transition p object.config_object_id c rules ≡ q

created :
    (parse : String → Option Json) (p : CreateTransition) (c : Config) (q : Transition × Config)
    → create_lifecycle_transition parse p c ≡ done q
    → Created parse p c q
unfolding create_lifecycle_transition create_unless_there
created parse p c q e =
    at_scope
      (object_of_scope (effective_tenant_id p.tenant_id) p.config_template_set_id p.object_type c)
      refl e
  where
    at_rules :
        (o : ConfigObject) (r : Outcome (Option Json))
        → object_of_scope (effective_tenant_id p.tenant_id) p.config_template_set_id p.object_type c
          ≡ done o
        → find_transition o.config_object_id p.from_state_key p.to_state_key c ≡ none
        → (r >>= λ (rules : Option Json). done (store_transition p o.config_object_id c rules))
          ≡ done q
        → Created parse p c q
    at_rules o (refused r) s f e = cc
    at_rules o (done rules) s f e = record {
      object = o;
      rules = rules;
      scope = s;
      fresh = f;
      stores = done_inj e;
    }

    at_found :
        (o : ConfigObject) (found : Option Transition)
        → object_of_scope (effective_tenant_id p.tenant_id) p.config_template_set_id p.object_type c
          ≡ done o
        → find_transition o.config_object_id p.from_state_key p.to_state_key c ≡ found
        → create_unless_there parse p o.config_object_id found c ≡ done q
        → Created parse p c q
    at_found o (some t) s f e = cc
    at_found o none s f e = at_rules o (parsed parse p.rules_json) s f e

    at_scope :
        (r : Outcome ConfigObject)
        → object_of_scope (effective_tenant_id p.tenant_id) p.config_template_set_id p.object_type c
          ≡ r
        → (r >>= λ (o : ConfigObject).
            create_unless_there parse p o.config_object_id
              (find_transition o.config_object_id p.from_state_key p.to_state_key c)
              c)
          ≡ done q
        → Created parse p c q
    at_scope (refused r) s e = cc
    at_scope (done o) s e = at_found o _ s refl e

-- A transition is created once: the same request again is refused.
create_lifecycle_transition-once :
    (parse : String → Option Json) (p : CreateTransition) (c c' : Config) (t : Transition)
    → create_lifecycle_transition parse p c ≡ done (t, c')
    → create_lifecycle_transition parse p c'
      ≡ refused (transition_exists p.from_state_key p.to_state_key)
unfolding create_lifecycle_transition create_unless_there
create_lifecycle_transition-once parse p c c' t e =
    let k = created parse p c (t, c') e in
    subst
      (λ (q : Transition × Config).
        create_lifecycle_transition parse p q.1
        ≡ refused (transition_exists p.from_state_key p.to_state_key))
      k.stores
      (rw
        (
          store-scope p k.object.config_object_id c k.rules (effective_tenant_id p.tenant_id)
              p.config_template_set_id p.object_type,
          k.scope,
        )
        (rw (store-found p k.object.config_object_id c k.rules k.fresh)))

allowed_if_found :
    (o : ConfigObject) (q : Project) (from to : String) (c : Config) (t : Transition)
    → published_object "project" c ≡ some o
    → q.status ≡ from
    → find_transition o.config_object_id from to c ≡ some t
    → validate_project_status_transition q to c ≡ done tt
unfolding validate_project_status_transition check_transition
allowed_if_found o q from to c t f h e = elim (Bool-cases (str_eq q.status to)) [
  | inl k ↦ rw k
  | inr k ↦ rw (k, f) (rw (h, e))
]

-- A transition that was created permits its change of status: a project in its first state may
-- change to its second one, where the object that it was created for is the published object
-- of type project that is read first.
pub create_lifecycle_transition-permits :
    (parse : String → Option Json) (p : CreateTransition) (c c' : Config) (t : Transition)
    (o : ConfigObject) (q : Project)
    → create_lifecycle_transition parse p c ≡ done (t, c')
    → object_of_scope (effective_tenant_id p.tenant_id) p.config_template_set_id p.object_type c
      ≡ done o
    → published_object "project" c ≡ some o
    → q.status ≡ p.from_state_key
    → validate_project_status_transition q p.to_state_key c' ≡ done tt
create_lifecycle_transition-permits parse p c c' t o q e s f h =
    let k = created parse p c (t, c') e in
    let same = ap (λ (z : ConfigObject). z.config_object_id) (done_inj (sym k.scope ∙ s)) in
    subst
      (λ (z : Transition × Config).
        validate_project_status_transition q p.to_state_key z.1 ≡ done tt)
      k.stores
      (allowed_if_found o q p.from_state_key p.to_state_key
        (stored p k.object.config_object_id c k.rules) _
        (store-published p k.object.config_object_id c k.rules "project" ∙ f) h
        (subst
          (λ n.
            find_transition n p.from_state_key p.to_state_key
              (stored p k.object.config_object_id c k.rules)
            ≡ some (new_transition p k.object.config_object_id c.next_transition_id k.rules))
          same (store-found p k.object.config_object_id c k.rules k.fresh)))
