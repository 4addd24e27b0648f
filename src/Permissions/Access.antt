-- ===== src/Permissions/Access.antt =====
-- Permissions by role in src/types/permissions.ts, and `requirePermissions` of
-- src/middleware/permissions.ts. Responses are values; logs are left out, and so is the answer 500
-- to a custom check that throws.
use veritasor_backend.Prelude.{
  ℕ, ◌==◌, Bool, true, false, not, ◌&&◌, ◌||◌, List, [], ◌∷◌, Option, none, some, if◌then◌else◌,
}
use veritasor_backend.Prelude.Text.{Text}
use veritasor_backend.Permissions.{UserRole, user, business_admin, admin}

pub data IntegrationPermission : Type 0 where
  read_available read_connected read_own : IntegrationPermission
  connect disconnect_own disconnect_any : IntegrationPermission
  manage_own manage_any admin_all : IntegrationPermission
  admin_read_stats admin_manage_users admin_read_audit_logs : IntegrationPermission

unfoldable pub permission_code : IntegrationPermission → ℕ
permission_code read_available = 0
permission_code read_connected = 1
permission_code read_own = 2
permission_code connect = 3
permission_code disconnect_own = 4
permission_code disconnect_any = 5
permission_code manage_own = 6
permission_code manage_any = 7
permission_code admin_all = 8
permission_code admin_read_stats = 9
permission_code admin_manage_users = 10
permission_code admin_read_audit_logs = 11

-- A role as a header or a token spells it; `ROLE_PERMISSIONS` has no entry for another string.
pub data RoleName : Type 0 where
  known : UserRole → RoleName
  other : RoleName

unfoldable pub get_user_permissions : RoleName → List IntegrationPermission
get_user_permissions (known user) =
    read_available ∷ read_connected ∷ read_own ∷ connect ∷ disconnect_own ∷ manage_own ∷ []
get_user_permissions (known business_admin) =
    read_available ∷ read_connected ∷ read_own ∷ connect ∷ disconnect_own ∷ disconnect_any
    ∷ manage_own ∷ manage_any ∷ []
get_user_permissions (known admin) =
    read_available ∷ read_connected ∷ read_own ∷ connect ∷ disconnect_own ∷ disconnect_any
    ∷ manage_own ∷ manage_any ∷ admin_all ∷ admin_read_stats ∷ admin_manage_users
    ∷ admin_read_audit_logs ∷ []
get_user_permissions other = []

unfoldable pub includes_permission : List IntegrationPermission → IntegrationPermission → Bool
unfolding permission_code
includes_permission [] p = false
includes_permission (x ∷ xs) p = permission_code x == permission_code p || includes_permission xs p

-- `requiredPermissions.filter(p => !userPermissions.includes(p))`
unfoldable pub missing :
    List IntegrationPermission → List IntegrationPermission → List IntegrationPermission
missing held [] = []
missing held (p ∷ ps) = if includes_permission held p then missing held ps else p ∷ missing held ps

abbrev pub no_permissions : List IntegrationPermission → Bool
no_permissions [] = true
no_permissions (p ∷ ps) = false

unfoldable pub check_permissions : List IntegrationPermission → List IntegrationPermission → Bool
unfolding missing
check_permissions held required = no_permissions (missing held required)

-- What the middleware reads of a request: the authenticated user (`none` without a user id) with
-- the role of the token, and the two headers.
pub record PermissionRequest : Type 0 where
  pub user_id : Option Text
  pub user_role : Option RoleName
  pub header_role : Option RoleName
  pub header_business_id : Option Text
  -- `req.params.id || req.params.provider`
  pub integration_id : Option Text

pub data Response : Type 0 where
  next unauthorized insufficient_permissions not_owner custom_failed : Response

-- `req.user.role || req.headers['x-user-role'] || 'user'`
abbrev pub resolve_role : Option RoleName → Option RoleName → RoleName
resolve_role (some r) h = r
resolve_role none (some r) = r
resolve_role none none = known user

unfoldable pub starts_with : Text → Text → Bool
starts_with [] t = true
starts_with (c ∷ cs) [] = false
starts_with (c ∷ cs) (d ∷ ds) = c == d && starts_with cs ds

-- `text.includes(part)`
unfoldable pub contains : Text → Text → Bool
unfolding starts_with
contains part [] = starts_with part []
contains part (c ∷ cs) = starts_with part (c ∷ cs) || contains part cs

-- `!businessId || integrationId.includes(businessId)`
abbrev pub check_integration_ownership : Text → Option Text → Bool
check_integration_ownership integration_id none = true
check_integration_ownership integration_id (some []) = true
check_integration_ownership integration_id (some (c ∷ cs)) = contains (c ∷ cs) integration_id

abbrev pub ownership_passes : Bool → PermissionRequest → Option Text → Bool
ownership_passes false r id = true
ownership_passes true r none = true
ownership_passes true r (some id) = check_integration_ownership id r.header_business_id

-- `custom` is the caller's `customCheck`.
unfoldable pub require_permissions :
    List IntegrationPermission → Bool → (PermissionRequest → Bool) → PermissionRequest → Response
require_permissions required check_ownership custom r = elim r.user_id [
  | none ↦ unauthorized
  | some id ↦
      if not
        (check_permissions (get_user_permissions (resolve_role r.user_role r.header_role)) required)
      then insufficient_permissions
      else if not (ownership_passes check_ownership r r.integration_id)
      then not_owner
      else if custom r
      then next
      else custom_failed
]
