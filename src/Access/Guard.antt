-- ===== src/Access/Guard.antt =====
-- The guard of authorization.guard.ts, the manage permission of a module, and the roles that the
-- query does not see.
use mathlib.Core.Option
use mathlib.Core.List.{Memᴰ}
use six_1_core_api.Prelude.{
  ℕ, String, none, ◌≡◌, refl, sym, ◌∙◌, ◌≢◌, ◌↔◌, ◌⊎◌, inl, inr, Bool, true, false, Option, some,
  List, [], ◌∷◌, ◌++◌, map, arith, ap,
}
use six_1_core_api.Prelude.Tests.{if◌then◌else◌, ◌==◌, Bool-cases}
use six_1_core_api.Prelude.Lists.{all, map→Memᴰ}
use mathlib.Core.Path.{subst}
use six_1_core_api.Access.{
  Name, Number, whole, RawId, or_else, is_given, given, number_of, asked_tenant, is_askable,
  query_failed, codes, UserRole, TenantUserRole, Tables, module_of, manage_permission,
  has_permissions, Caller, allowed, identified, refused, Verdict, missing_user, unsupported_context,
  insufficient, ensure_user, get_caller, check_caller, can_activate,
}
use six_1_core_api.Access.Spec.{Grant, Holds}
use six_1_core_api.Access.Grants.{has_permissions_iff}

-- Every required name, or the manage permission of its module, is granted.
abbrev pub AllGranted : Tables → Number → Option ℕ → List Name → Type 0
AllGranted db u t required =
    (n : Name) → Memᴰ n required → Grant db u t n ⊎ Grant db u t (manage_permission n)

-- The user's id and the tenant user's id in a request.
abbrev pub user_of : Caller → Option RawId
user_of (Caller.http u bu t bt) = or_else u bu
user_of (Caller.rpc u us t ts) = or_else u us
user_of Caller.other = none

abbrev pub tenant_user_of : Caller → Option RawId
tenant_user_of (Caller.http u bu t bt) = or_else t bt
tenant_user_of (Caller.rpc u us t ts) = or_else t ts
tenant_user_of Caller.other = none

insufficient_ne : insufficient ≢ allowed
insufficient_ne h = cc

failed_ne : query_failed ≢ allowed
failed_ne h = cc

module _ (to_number : String → Number) where
  abbrev pub tenant_of : Caller → Option Number
  tenant_of c = Option.map (number_of to_number) (given (tenant_user_of c))

  -- The request has a user's id that counts as true, the database can be asked for the numbers of
  -- that and of the tenant user beside it, and these have all that is required.
  pub record Entitled (db : Tables) (required : List Name) (caller : Caller) : Type 0 where
    pub id : RawId
    pub is_asked : user_of caller ≡ some id
    pub counts : is_given id ≡ true
    pub is_askable : is_askable (number_of to_number id) (tenant_of caller) ≡ true
    pub all_granted :
        AllGranted db (number_of to_number id) (asked_tenant (tenant_of caller)) required

  ensure_user-lem :
      (u t : Option RawId) (id : RawId)
      → u ≡ some id
      → is_given id ≡ true
      → ensure_user to_number u t
        ≡ identified (number_of to_number id) (Option.map (number_of to_number) (given t))
  unfolding ensure_user
  ensure_user-lem u t id e g = rw (e, ensure_user, g) refl

  -- What the user of a call tells of the guard's answer.
  asks :
      (c : Caller)
      → get_caller to_number c ≡ ensure_user to_number (user_of c) (tenant_user_of c)
        ⊎ ((get_caller to_number c ≡ refused unsupported_context) × (user_of c ≡ none))
  unfolding get_caller
  asks (Caller.http a b c d) = inl refl
  asks (Caller.rpc a b c d) = inl refl
  asks Caller.other = inr (refl, refl)

  get_caller-lem :
      (c : Caller) (id : RawId)
      → user_of c ≡ some id
      → is_given id ≡ true
      → get_caller to_number c ≡ identified (number_of to_number id) (tenant_of c)
  get_caller-lem c id e g = elim (asks c) [
    | inl h ↦ h ∙ ensure_user-lem (user_of c) (tenant_user_of c) id e g
    | inr (h, n) ↦ cc
  ]

  -- The id that a call gives, if the guard identifies its user.
  Refusal : Caller → Type 0
  Refusal c = (v : Verdict) × (get_caller to_number c ≡ refused v) × (v ≢ allowed)

  Given : Caller → Type 0
  Given c = (id : RawId) × (user_of c ≡ some id) × (is_given id ≡ true)

  ensure_user-refused :
      (u t : Option RawId)
      → ((id : RawId) × (u ≡ some id) × (is_given id ≡ true))
        ⊎ (ensure_user to_number u t ≡ refused missing_user)
  unfolding ensure_user
  ensure_user-refused none t = inr refl
  ensure_user-refused (some id) t = elim (Bool-cases (is_given id)) [
    | inl g ↦ inl (id, refl, g)
    | inr g ↦ inr (rw (ensure_user, g) refl)
  ]

  given_or_refused : (c : Caller) → Given c ⊎ Refusal c
  unfolding Given Refusal
  given_or_refused c = elim (asks c) [
    | inr (h, n) ↦ inr (unsupported_context, h, λ q. cc)
    | inl h ↦ elim (ensure_user-refused (user_of c) (tenant_user_of c)) [
      | inl g ↦ inl g
      | inr r ↦ inr (missing_user, h ∙ r, λ q. cc)
    ]
  ]

  -- The check of an identified caller.
  check_caller_iff :
      (db : Tables) (required : List Name) (n : Number) (t : Option Number)
      → (check_caller to_number db required (identified n t) ≡ allowed)
        ↔ ((is_askable n t ≡ true) × AllGranted db n (asked_tenant t) required)
  unfolding check_caller
  check_caller_iff db required n t = elim (Bool-cases (is_askable n t)) [
    | inr f ↦ (λ h. absurd (failed_ne (rw f at h)), λ h. cc)
    | inl a ↦
        let iff = has_permissions_iff db n (asked_tenant t) required in
        (λ h. (a, iff.0 (passed (rw a at h))), λ h. rw (a, iff.1 h.1) refl)
  ]
    where
      passed :
          (if has_permissions db n required (asked_tenant t) then allowed else insufficient)
            ≡ allowed
          → has_permissions db n required (asked_tenant t) ≡ true
      passed h = elim (Bool-cases (has_permissions db n required (asked_tenant t))) [
        | inl e ↦ e
        | inr e ↦ absurd (insufficient_ne (rw e at h))
      ]

  -- The guard lets a request through to a handler that requires permissions exactly if the
  -- caller's user id counts as true (a number that is not 0 or NaN, or a text that is not
  -- empty), is as a number neither NaN nor infinite, the tenant user beside it is not
  -- infinite, and every required name, or the manage permission of its module, is granted to
  -- that number and that tenant user: it is the described permission of a role that some row
  -- of user_roles assigns, to that user or, where the tenant user has the role too, to
  -- anybody.
  pub can_activate-allowed_iff :
      (db : Tables) (p : Name) (ps : List Name) (caller : Caller)
      → (can_activate to_number db (some (p ∷ ps)) caller ≡ allowed) ↔ Entitled db (p ∷ ps) caller
  unfolding can_activate Given Refusal
  can_activate-allowed_iff db p ps caller = (forth, back)
    where
      back :
          Entitled db (p ∷ ps) caller
          → check_caller to_number db (p ∷ ps) (get_caller to_number caller) ≡ allowed
      back e =
          rw (get_caller-lem caller e.id e.is_asked e.counts)
            ((check_caller_iff db (p ∷ ps) _ _).1 (e.is_askable, e.all_granted))

      forth :
          check_caller to_number db (p ∷ ps) (get_caller to_number caller) ≡ allowed
          → Entitled db (p ∷ ps) caller
      forth h = elim (given_or_refused caller) [
        | inr (v, r, k) ↦ absurd (k (unfold check_caller in (rw r at h)))
        | inl (id, e, g) ↦
            let (asked, all_granted) =
              (check_caller_iff db (p ∷ ps) _ _).0 (rw (get_caller-lem caller id e g) at h) in
            record {
              id = id;
              is_asked = e;
              counts = g;
              is_askable = asked;
              all_granted = all_granted;
            }
      ]

-- A module's name has no dot.
abbrev pub is_plain : Name → Bool
is_plain m = all (λ c. if c == b'.' then false else true) m

module_of-dotted : (m a : Name) → is_plain m ≡ true → module_of (m ++ b'.' ∷ a) ≡ m
module_of-dotted [] a h = refl
module_of-dotted (c ∷ m) a h = elim (Bool-cases (c == b'.')) [
  | inl e ↦ ground arith
  | inr e ↦ rw e (ap (λ r. c ∷ r) (module_of-dotted m a (ground arith)))
]

-- The manage permission of a module whose name has no dot covers every action of that module.
manage-covers :
    (db : Tables) (u : Number) (t : Option ℕ) (m : Name) (actions : List Name)
    → is_plain m ≡ true
    → Grant db u t (m ++ codes ".manage")
    → has_permissions db u (map (λ a. m ++ b'.' ∷ a) actions) t ≡ true
manage-covers db u t m actions h g =
    (has_permissions_iff db u t (map (λ a. m ++ b'.' ∷ a) actions)).1 covers
  where
    covers : AllGranted db u t (map (λ a. m ++ b'.' ∷ a) actions)
    covers n mem =
        let (a, _, e) = map→Memᴰ (λ a. m ++ b'.' ∷ a) actions mem in
        inr (
          subst (λ x. Grant db u t (x ++ codes ".manage"))
            (sym (ap module_of e ∙ module_of-dotted m a h)) g)

-- A tenant user's roles grant nothing, whatever is required, where the user has no role of
-- their own and no row of user_roles assigns one of the tenant user's roles to anybody.
pub tenant_roles-unseen :
    (db : Tables) (u t : ℕ) (p : Name) (ps : List Name)
    → ((ur : UserRole) → Memᴰ ur db.user_roles → ur.user_id ≢ u)
    → ((ur : UserRole) (tur : TenantUserRole)
        → Memᴰ ur db.user_roles
        → Memᴰ tur db.tenant_user_roles
        → tur.tenant_user_id ≡ t
        → tur.role_id ≢ ur.role_id)
    → has_permissions db (whole u) (p ∷ ps) (some t) ≡ false
tenant_roles-unseen db u t p ps no_own no_shared =
    elim (Bool-cases (has_permissions db (whole u) (p ∷ ps) (some t))) [
      | inl h ↦
          absurd
            (either ((has_permissions_iff db (whole u) (some t) (p ∷ ps)).0 h p (Memᴰ.head refl)))
      | inr h ↦ h
    ]
  where
    none_held : (n : Name) → Grant db (whole u) (some t) n → ⊥
    none_held n g = refute g.held
      where
        refute : Holds db (whole u) (some t) g.assigned → ⊥
        refute (inl e) = no_own g.assigned g.assigned_in e
        refute (inr h) = no_shared g.assigned h.row g.assigned_in h.stored h.of_asked h.of_role

    either : Grant db (whole u) (some t) p ⊎ Grant db (whole u) (some t) (manage_permission p) → ⊥
    either (inl g) = none_held p g
    either (inr g) = none_held (manage_permission p) g
