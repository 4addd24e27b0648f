-- ===== src/Permissions/Policy.antt =====
-- `evaluatePolicy` of src/middleware/permissions.ts against a description by its rules.
use mathlib.Core.List.Permᴰ
use mathlib.Core.Logic.{∥∥₁_elim}
use mathlib.Core.Bool.{Bool-set}
use mathlib.Core.List.{Perm, Permᴰ}
use veritasor_backend.Prelude.{
  ◌≡◌, ◌≢◌, ◌↔◌, ◌⊎◌, refl, sym, ap, Option, inl, inr, Bool, true, false, List, [], ◌∷◌, none, some,
  arith, Bool-cases, Option-cases,
}
use veritasor_backend.Prelude.Text.{Text, text_eq→≡}
use veritasor_backend.Permissions.{
  UserRole, user, business_admin, admin, role_eq, includes_role, Effect, allow, deny, same,
  PolicyRule, PolicyRequest, rule_matches, matching, effect_eq, find_effect, evaluate_policy,
  same_tenant, role_passes,
}

-- Some rule of the list with the effect applies to the request.
abbrev pub Applies : Effect → PolicyRequest → List PolicyRule → Type 0
Applies e request [] = ⊥
Applies e request (r ∷ rs) =
    ((rule_matches r request ≡ true) × (r.effect ≡ e)) ⊎ Applies e request rs

-- Nothing is found exactly if no rule with the effect applies.
find_none :
    (e : Effect) (request : PolicyRequest) (rules : List PolicyRule)
    → (find_effect e (matching request rules) ≡ none) ↔ (¬ Applies e request rules)
unfolding find_effect matching effect_eq
find_none e request [] = ((λ h a. a), λ h. refl)
find_none allow request (x ∷ xs) = ground (arith, find_none allow request xs)
find_none deny request (x ∷ xs) = ground (arith, find_none deny request xs)

find_some :
    (e : Effect) (request : PolicyRequest) (rules : List PolicyRule) (r : PolicyRule)
    → find_effect e (matching request rules) ≡ some r
    → Applies e request rules
unfolding find_effect matching effect_eq
find_some e request [] r h = ground arith
find_some allow request (x ∷ xs) r h = ground (arith, find_some allow request xs r)
find_some deny request (x ∷ xs) r h = ground (arith, find_some deny request xs r)

-- A request is allowed exactly if some allow rule applies to it and no deny rule does.
pub evaluate_policy_iff :
    (request : PolicyRequest) (rules : List PolicyRule)
    → ((evaluate_policy request rules).allowed ≡ true)
      ↔ (Applies allow request rules × (¬ Applies deny request rules))
unfolding evaluate_policy
evaluate_policy_iff request rules =
    elim (Option-cases (find_effect deny (matching request rules))) [
      | inr (d, denied) ↦ (
        (λ h. cc (rw (denied, evaluate_policy) at h)),
        λ h. absurd (h.1 (find_some deny request rules d denied)),
      )
      | inl free ↦ elim (Option-cases (find_effect allow (matching request rules))) [
        | inr (a, allowed) ↦ (
          (λ h. (find_some allow request rules a allowed, (find_none deny request rules).0 free)),
          λ h. rw (free, allowed, evaluate_policy) refl,
        )
        | inl nothing ↦ (
          (λ h. cc (rw (free, nothing, evaluate_policy) at h)),
          λ h. absurd ((find_none allow request rules).0 nothing h.0),
        )
      ]
    ]

-- The tenants of the actor and of the resource are given, not empty, and the same.
abbrev pub OwnTenant : PolicyRequest → Type 0
OwnTenant request =
    (t : Text) × (¬ (t ≡ []))
    × (request.actor_tenant_id ≡ some t)
    × (request.resource_tenant_id ≡ some t)

abbrev pub NoneIs : UserRole → List UserRole → Type 0
NoneIs r [] = Unit {0}
NoneIs r (x ∷ xs) = (x ≢ r) × NoneIs r xs

-- The rule names roles, and the role of the request is none of them.
abbrev pub LeavesOut : Option (List UserRole) → UserRole → Type 0
LeavesOut none r = ⊥
LeavesOut (some rs) r = NoneIs r rs

-- Every rule denies, or is scoped to the own tenant, or leaves the role of the request out.
abbrev pub Guarded : PolicyRequest → List PolicyRule → Type 0
Guarded request [] = Unit {0}
Guarded request (r ∷ rs) =
    ((r.effect ≡ deny) ⊎ ((r.tenant_scope ≡ some same) ⊎ LeavesOut r.roles request.role))
    × Guarded request rs

same_tenant-OwnTenant :
    (a b : Option Text)
    → same_tenant a b ≡ true
    → (t : Text) × (¬ (t ≡ [])) × (a ≡ some t) × (b ≡ some t)
same_tenant-OwnTenant none b h = ground arith
same_tenant-OwnTenant (some []) b h = ground arith
same_tenant-OwnTenant (some (c ∷ cs)) none h = ground arith
same_tenant-OwnTenant (some (c ∷ cs)) (some b) h =
    (c ∷ cs, (λ e. ground arith), refl, ap some (sym (text_eq→≡ (c ∷ cs) b h)))

foreign_tenant :
    (request : PolicyRequest)
    → ¬ OwnTenant request
    → same_tenant request.actor_tenant_id request.resource_tenant_id ≡ false
foreign_tenant request foreign =
    elim (Bool-cases (same_tenant request.actor_tenant_id request.resource_tenant_id)) [
      | inl own ↦ absurd (foreign (same_tenant-OwnTenant _ _ own))
      | inr other ↦ other
    ]

role_eq→≡ : (x r : UserRole) → role_eq x r ≡ true → x ≡ r
unfolding role_eq
role_eq→≡ user user h = refl
role_eq→≡ user business_admin h = ground arith
role_eq→≡ user admin h = ground arith
role_eq→≡ business_admin user h = ground arith
role_eq→≡ business_admin business_admin h = refl
role_eq→≡ business_admin admin h = ground arith
role_eq→≡ admin user h = ground arith
role_eq→≡ admin business_admin h = ground arith
role_eq→≡ admin admin h = refl

includes_role-NoneIs :
    (rs : List UserRole) (r : UserRole) → NoneIs r rs → includes_role rs r ≡ false
unfolding includes_role
includes_role-NoneIs [] r h = refl
includes_role-NoneIs (x ∷ rs) r h = elim (Bool-cases (role_eq x r)) [
  | inl same_role ↦ absurd (h.0 (role_eq→≡ x r same_role))
  | inr other ↦ rw (other, includes_role-NoneIs rs r h.1) refl
]

role_passes-LeavesOut :
    (o : Option (List UserRole)) (r : UserRole) → LeavesOut o r → role_passes o r ≡ false
role_passes-LeavesOut none r h = absurd h
role_passes-LeavesOut (some rs) r h = includes_role-NoneIs rs r h

scoped_refuses :
    (r : PolicyRule) (request : PolicyRequest)
    → r.tenant_scope ≡ some same
    → same_tenant request.actor_tenant_id request.resource_tenant_id ≡ false
    → rule_matches r request ≡ false
unfolding rule_matches
scoped_refuses r request scoped foreign = rw scoped (rw foreign (ground arith))

role_refuses :
    (r : PolicyRule) (request : PolicyRequest)
    → role_passes r.roles request.role ≡ false
    → rule_matches r request ≡ false
unfolding rule_matches
role_refuses r request h = rw h (ground arith)

Guarded-Applies :
    (request : PolicyRequest) (rules : List PolicyRule)
    → same_tenant request.actor_tenant_id request.resource_tenant_id ≡ false
    → Guarded request rules
    → ¬ Applies allow request rules
Guarded-Applies request [] foreign g a = a
Guarded-Applies request (r ∷ rs) foreign g (inr a) = Guarded-Applies request rs foreign g.1 a
Guarded-Applies request (r ∷ rs) foreign g (inl (applies, allows)) = ground (
  arith,
  scoped_refuses r request,
  role_refuses r request,
  role_passes-LeavesOut r.roles request.role,
  g.0,
)

-- Tenant isolation: where every rule that allows is scoped to the own tenant or leaves the role of
-- the request out, no request is allowed unless the tenants of actor and resource are both given, not
-- empty and equal.
pub tenant_isolation :
    (request : PolicyRequest) (rules : List PolicyRule)
    → ¬ OwnTenant request
    → Guarded request rules
    → (evaluate_policy request rules).allowed ≡ false
tenant_isolation request rules foreign g =
    elim (Bool-cases (evaluate_policy request rules).allowed) [
      | inl allowed ↦ absurd (
          Guarded-Applies request rules (foreign_tenant request foreign) g
            ((evaluate_policy_iff request rules).0 allowed).0)
      | inr refused ↦ refused
    ]

Applies-Permᴰ :
    (e : Effect) (request : PolicyRequest) {rules rules' : List PolicyRule}
    → Permᴰ rules rules'
    → Applies e request rules
    → Applies e request rules'
Applies-Permᴰ e request Permᴰ.nil a = elim a [ ]
Applies-Permᴰ e request (Permᴰ.cons same_rule p) (inl (h, k)) = inl (ground arith, ground arith)
Applies-Permᴰ e request (Permᴰ.cons same_rule p) (inr a) = inr (Applies-Permᴰ e request p a)
Applies-Permᴰ e request (Permᴰ.swap one two) (inl (h, k)) = inr (inl (ground arith, ground arith))
Applies-Permᴰ e request (Permᴰ.swap one two) (inr (inl (h, k))) = inl (ground arith, ground arith)
Applies-Permᴰ e request (Permᴰ.swap one two) (inr (inr a)) = inr (inr a)
Applies-Permᴰ e request (Permᴰ.trans p q) a =
    Applies-Permᴰ e request q (Applies-Permᴰ e request p a)

eq_of_iff : (a b : Bool) → (a ≡ true) ↔ (b ≡ true) → a ≡ b
eq_of_iff true b h = sym (h.0 refl)
eq_of_iff false true h = h.1 refl
eq_of_iff false false h = refl

allowed-Permᴰ :
    (request : PolicyRequest) {rules rules' : List PolicyRule}
    → Permᴰ rules rules'
    → (evaluate_policy request rules).allowed ≡ (evaluate_policy request rules').allowed
allowed-Permᴰ request {rules} {rules'} p = eq_of_iff _ _ (
  (λ h.
      let (a, d) = (evaluate_policy_iff request rules).0 h in
      (evaluate_policy_iff request rules').1
        (Applies-Permᴰ allow request p a, λ x. d (Applies-Permᴰ deny request (Permᴰ.symm p) x))),
  λ h.
      let (a, d) = (evaluate_policy_iff request rules').0 h in
      (evaluate_policy_iff request rules).1
        (Applies-Permᴰ allow request (Permᴰ.symm p) a, λ x. d (Applies-Permᴰ deny request p x)),
)

-- Whether a request is allowed does not depend on the order of the rules.
pub allowed-perm :
    (request : PolicyRequest) (rules rules' : List PolicyRule)
    → Perm rules rules'
    → (evaluate_policy request rules).allowed ≡ (evaluate_policy request rules').allowed
allowed-perm request rules rules' p = ∥∥₁_elim p (Bool-set _ _) (allowed-Permᴰ request)
