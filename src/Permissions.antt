-- ===== src/Permissions.antt =====
-- The policy engine of src/middleware/permissions.ts. Audit records and logs are left out, as they
-- do not change a decision.
pub mod Access
pub mod Policy
pub mod Roles
mod Tests
use veritasor_backend.Prelude.{
  ℕ, ◌==◌, Bool, true, false, not, ◌&&◌, ◌||◌, List, [], ◌∷◌, Option, none, some, if◌then◌else◌,
}
use veritasor_backend.Prelude.Text.{Text, codes, text_eq, includes}

pub data UserRole : Type 0 where
  user business_admin admin : UserRole

pub data Effect : Type 0 where
  allow deny : Effect

pub data TenantScope : Type 0 where
  same any : TenantScope

pub record PolicyRule : Type 0 where
  pub id : Text
  pub effect : Effect
  pub actions : List Text
  pub resources : List Text
  pub roles : Option (List UserRole)
  pub tenant_scope : Option TenantScope

pub record PolicyRequest : Type 0 where
  pub action : Text
  pub resource : Text
  pub role : UserRole
  pub actor_tenant_id : Option Text
  pub resource_tenant_id : Option Text

pub data Reason : Type 0 where
  denied_by_rule allowed_by_rule : Text → Reason
  different_tenant no_matching_rule : Reason

pub record PolicyDecision : Type 0 where
  pub allowed : Bool
  pub reason : Reason
  pub rule_id : Option Text

unfoldable pub role_eq : UserRole → UserRole → Bool
role_eq user user = true
role_eq business_admin business_admin = true
role_eq admin admin = true
role_eq _ _ = false

unfoldable pub includes_role : List UserRole → UserRole → Bool
includes_role [] r = false
includes_role (x ∷ xs) r = role_eq x r || includes_role xs r

abbrev pub star : Text
star = b'*' ∷ []

unfoldable pub matches : Text → List Text → Bool
matches value values = includes values star || includes values value

-- `rule.roles && !rule.roles.includes(request.role)`, negated.
abbrev pub role_passes : Option (List UserRole) → UserRole → Bool
role_passes none r = true
role_passes (some rs) r = includes_role rs r

-- `Boolean(a) && a === b`: the empty string is falsy.
abbrev pub same_tenant : Option Text → Option Text → Bool
same_tenant none b = false
same_tenant (some []) b = false
same_tenant (some (c ∷ cs)) none = false
same_tenant (some (c ∷ cs)) (some b) = text_eq (c ∷ cs) b

abbrev pub scope_passes : Option TenantScope → Option Text → Option Text → Bool
scope_passes (some same) a b = same_tenant a b
scope_passes (some any) a b = true
scope_passes none a b = true

unfoldable pub rule_matches : PolicyRule → PolicyRequest → Bool
rule_matches rule request =
    if not (matches request.action rule.actions) || not (matches request.resource rule.resources)
    then false
    else if not (role_passes rule.roles request.role)
    then false
    else scope_passes rule.tenant_scope request.actor_tenant_id request.resource_tenant_id

-- `rules.filter((rule) => ruleMatches(rule, request))`
unfoldable pub matching : PolicyRequest → List PolicyRule → List PolicyRule
matching request [] = []
matching request (r ∷ rs) =
    if rule_matches r request then r ∷ matching request rs else matching request rs

unfoldable pub effect_eq : Effect → Effect → Bool
effect_eq allow allow = true
effect_eq deny deny = true
effect_eq _ _ = false

-- `matching.find((rule) => rule.effect === effect)`
unfoldable pub find_effect : Effect → List PolicyRule → Option PolicyRule
unfolding effect_eq
find_effect e [] = none
find_effect e (r ∷ rs) = if effect_eq r.effect e then some r else find_effect e rs

-- `actorTenantId !== resourceTenantId`, where both may be undefined.
abbrev pub tenants_differ : Option Text → Option Text → Bool
tenants_differ none none = false
tenants_differ none (some b) = true
tenants_differ (some a) none = true
tenants_differ (some a) (some b) = not (text_eq a b)

abbrev pub is_defined : Option Text → Bool
is_defined none = false
is_defined (some t) = true

abbrev pub default_decision : PolicyRequest → PolicyDecision
default_decision request = record {
  allowed = false;
  reason =
      if is_defined request.resource_tenant_id
        && tenants_differ request.actor_tenant_id request.resource_tenant_id
      then different_tenant
      else no_matching_rule;
  rule_id = none;
}

unfoldable pub evaluate_policy : PolicyRequest → List PolicyRule → PolicyDecision
evaluate_policy request rules =
    let found = matching request rules in
    elim (find_effect deny found) [
      | some r ↦ record { allowed = false; reason = denied_by_rule r.id; rule_id = some r.id }
      | none ↦ elim (find_effect allow found) [
        | some r ↦ record { allowed = true; reason = allowed_by_rule r.id; rule_id = some r.id }
        | none ↦ default_decision request
      ]
    ]

abbrev pub integration : Text
integration = codes "integration"

abbrev pub default_policy : List PolicyRule
default_policy =
    record {
      id = codes "integration-user-own";
      effect = allow;
      actions = codes "read" ∷ codes "create" ∷ codes "update" ∷ codes "delete" ∷ [];
      resources = integration ∷ [];
      roles = some (user ∷ []);
      tenant_scope = some same;
    }
    ∷ record {
      id = codes "integration-business-admin";
      effect = allow;
      actions = star ∷ [];
      resources = integration ∷ [];
      roles = some (business_admin ∷ []);
      tenant_scope = some same;
    }
    ∷ record {
      id = codes "platform-admin";
      effect = allow;
      actions = star ∷ [];
      resources = star ∷ [];
      roles = some (admin ∷ []);
      tenant_scope = some any;
    }
    ∷ []
