-- ===== src/Permissions/Roles.antt =====
-- Role permissions and `requirePermissions` of src/middleware/permissions.ts.
use veritasor_backend.Prelude.{
  ◌≡◌, ◌↔◌, refl, inl, inr, Bool, true, false, not, List, [], ◌∷◌, Option, none, some, arith,
  if◌then◌else◌, Option-cases,
}
use veritasor_backend.Prelude.Text.{Text}
use veritasor_backend.Permissions.{user, business_admin, admin}
use veritasor_backend.Permissions.Access.{
  RoleName, known, IntegrationPermission, PermissionRequest, next, insufficient_permissions,
  not_owner, custom_failed, read_available, read_connected, read_own, connect, disconnect_own,
  disconnect_any, manage_own, manage_any, admin_all, admin_read_stats, admin_manage_users,
  admin_read_audit_logs, get_user_permissions, includes_permission, check_permissions, resolve_role,
  require_permissions, ownership_passes,
}

-- Every permission of a list is among those held.
abbrev pub AllHeld : List IntegrationPermission → List IntegrationPermission → Type 0
AllHeld held [] = Unit {0}
AllHeld held (p ∷ ps) = (includes_permission held p ≡ true) × AllHeld held ps

check→AllHeld :
    (held required : List IntegrationPermission)
    → check_permissions held required ≡ true
    → AllHeld held required
unfolding check_permissions
check→AllHeld held [] h = tt
check→AllHeld held (p ∷ ps) h = ground (arith, check→AllHeld held ps)

AllHeld→check :
    (held required : List IntegrationPermission)
    → AllHeld held required
    → check_permissions held required ≡ true
unfolding check_permissions
AllHeld→check held [] h = refl
AllHeld→check held (p ∷ ps) h = ground (arith, AllHeld→check held ps h.1)

module _ (low high : RoleName) where
  abbrev Extends : Type 0
  Extends =
      (p : IntegrationPermission)
      → includes_permission (get_user_permissions low) p ≡ true
      → includes_permission (get_user_permissions high) p ≡ true

  AllHeld-Extends :
      Extends
      → (required : List IntegrationPermission) → AllHeld (get_user_permissions low) required
      → AllHeld (get_user_permissions high) required
  AllHeld-Extends e [] h = tt
  AllHeld-Extends e (p ∷ ps) h = (e p h.0, AllHeld-Extends e ps h.1)

user_extends : Extends (known user) (known business_admin)
unfolding includes_permission get_user_permissions
user_extends read_available h = refl
user_extends read_connected h = refl
user_extends read_own h = refl
user_extends connect h = refl
user_extends disconnect_own h = refl
user_extends manage_own h = refl
user_extends disconnect_any h = refl
user_extends manage_any h = refl
user_extends admin_all h = cc
user_extends admin_read_stats h = cc
user_extends admin_manage_users h = cc
user_extends admin_read_audit_logs h = cc

admin_holds :
    (p : IntegrationPermission) → includes_permission (get_user_permissions (known admin)) p ≡ true
unfolding includes_permission get_user_permissions
admin_holds read_available = refl
admin_holds _ = refl

-- Whatever a user may do a business admin may do, and what a business admin may do a platform admin
-- may do, for every list of required permissions.
pub role_order :
    (required : List IntegrationPermission)
    → (check_permissions (get_user_permissions (known user)) required ≡ true
        → check_permissions (get_user_permissions (known business_admin)) required ≡ true)
      × (check_permissions (get_user_permissions (known business_admin)) required ≡ true
          → check_permissions (get_user_permissions (known admin)) required ≡ true)
role_order required = (
  (λ h. AllHeld→check _ required (
      AllHeld-Extends (known user) (known business_admin) user_extends required
        (check→AllHeld _ required h))),
  λ h. AllHeld→check _ required (
      AllHeld-Extends (known business_admin) (known admin) (λ p _. admin_holds p) required
        (check→AllHeld _ required h)),
)

gates :
    (a b c : Bool)
    → (if not a
        then insufficient_permissions
        else if not b
        then not_owner
        else if c
        then next
        else custom_failed)
      ≡ next
    → (a ≡ true) × (b ≡ true) × (c ≡ true)
gates a b c h = ground arith

-- The route handler is reached exactly by an authenticated user whose resolved role holds every
-- required permission, who passes the ownership check if there is one, and the custom check.
pub require_permissions_iff :
    (required : List IntegrationPermission) (check_ownership : Bool)
    (custom : PermissionRequest → Bool) (r : PermissionRequest)
    → (require_permissions required check_ownership custom r ≡ next) ↔ (
        ((id : Text) × (r.user_id ≡ some id))
        × AllHeld (get_user_permissions (resolve_role r.user_role r.header_role)) required
        × (ownership_passes check_ownership r r.integration_id ≡ true)
        × (custom r ≡ true))
unfolding require_permissions
require_permissions_iff required check_ownership custom r =
    let held = get_user_permissions (resolve_role r.user_role r.header_role) in
    elim (Option-cases r.user_id) [
      | inl absent ↦
          ((λ h. cc (rw (absent, require_permissions) at h)), λ h. ground (arith, absent, h.0.1))
      | inr (id, present) ↦ (
        (λ h.
            let g =
              gates (check_permissions held required)
                (ownership_passes check_ownership r r.integration_id) (custom r)
                (rw (present, require_permissions) at h) in
            ((id, present), check→AllHeld held required g.0, g.1, g.2)),
        λ h. rw (present, AllHeld→check held required h.1, h.2, h.3, require_permissions) refl,
      )
    ]

-- Header `x-user-role` has no say for a user whose token carries a role, and decides alone for one
-- whose token carries none.
pub header_role_lem :
    (required : List IntegrationPermission) (r : PermissionRequest) (id : Text) (role : RoleName)
    (header : Option RoleName)
    → (require_permissions required false
          (λ _. true)
          (record r { user_role = some role; header_role = header })
        ≡ require_permissions required false (λ _. true) (record r { user_role = some role }))
      × (require_permissions required false
            (λ _. true)
            (record r { user_id = some id; user_role = none; header_role = some (known admin) })
          ≡ next)
unfolding require_permissions
header_role_lem required r id role header =
    (ground arith, rw (AllHeld→check (get_user_permissions (known admin)) required (all required)))
  where
    all : (ps : List IntegrationPermission) → AllHeld (get_user_permissions (known admin)) ps
    all [] = tt
    all (p ∷ ps) = (admin_holds p, all ps)
