-- ===== src/Permissions/Tests.antt =====
-- The theorems about src/middleware/permissions.ts at concrete inputs.
use veritasor_backend.Prelude.{◌≡◌, arith, ◌↔◌, refl, inl, inr, true, false, [], ◌∷◌, none, some}
use veritasor_backend.Prelude.Text.{Text, codes, text_eq}
use veritasor_backend.Permissions.{
  user, business_admin, admin, allow, deny, PolicyRule, PolicyRequest, evaluate_policy,
  default_policy, integration, star, role_eq, includes_role,
}
use veritasor_backend.Permissions.Access.{known, PermissionRequest}
use veritasor_backend.Permissions.Policy.{Applies, evaluate_policy_iff, OwnTenant, tenant_isolation}

abbrev acme : Text
acme = codes "acme"

abbrev globex : Text
globex = codes "globex"

abbrev freeze : PolicyRule
freeze = record {
  id = codes "freeze";
  effect = deny;
  actions = codes "delete" ∷ [];
  resources = star ∷ [];
  roles = none;
  tenant_scope = none;
}

abbrev cross_tenant : PolicyRequest
cross_tenant = record {
  action = codes "delete";
  resource = integration;
  role = business_admin;
  actor_tenant_id = some acme;
  resource_tenant_id = some globex;
}

evaluate_policy_iff_example :
    ((evaluate_policy cross_tenant (freeze ∷ default_policy)).allowed ≡ true) ↔ (
      Applies allow cross_tenant (freeze ∷ default_policy)
      × (¬ Applies deny cross_tenant (freeze ∷ default_policy)))
evaluate_policy_iff_example = evaluate_policy_iff cross_tenant (freeze ∷ default_policy)

other_tenants : ¬ OwnTenant cross_tenant
other_tenants (t, filled, a, b) = cc (a, b)

tenant_isolation_example : (evaluate_policy cross_tenant default_policy).allowed ≡ false
unfolding text_eq role_eq includes_role
tenant_isolation_example =
    tenant_isolation cross_tenant default_policy other_tenants
      (inr (inl refl), (inr (inl refl), (inr (inr (λ e. ground arith, tt)), tt)))

abbrev request : PermissionRequest
request = record {
  user_id = some (codes "u1");
  user_role = some (known user);
  header_role = some (known admin);
  header_business_id = none;
  integration_id = some (codes "stripe");
}
