-- ===== src/Permissions.antt =====
-- backend/app/core/permissions.py and UserRole of models/enums.py: the roles, their levels, the matrix
-- of permissions, and who may manage or invite whom.
pub mod Hierarchy
mod Examples
use agency_os.Prelude.{
  ℕ, Bool, true, false, ◌&&◌, ◌||◌, not, List, [], ◌∷◌, ◌==◌, ltb, select, if◌then◌else◌,
}
use agency_os.Db.Session.{M, pure, raise}

pub data UserRole : Type 0 where
  owner admin manager member sales_agent viewer : UserRole

pub data Permission : Type 0 where
  lead_read lead_write lead_delete lead_assign pipeline_manage ai_manage : Permission
  task_read task_write task_manage note_read note_write search : Permission
  export analytics_read team_manage invite_manage audit_read workflow_read : Permission
  workflow_write workflow_manage execution_read execution_write execution_manage automation_read :
      Permission
  automation_write automation_manage automation_control credential_manage credential_read
        credential_write :
      Permission
  credential_delete memory_read memory_write approval_read approval_manage notification_read :
      Permission
  notification_write growth_read growth_manage agent_read agent_manage delivery_read : Permission
  delivery_write delivery_manage founder_read founder_manage ai_run intelligence_read : Permission

-- `ROLE_LEVELS`
abbrev pub role_level : UserRole → ℕ
role_level viewer = 0
role_level member = 1
role_level sales_agent = 1
role_level manager = 2
role_level admin = 3
role_level owner = 4

-- the identity of enum members
abbrev role_number : UserRole → ℕ
role_number owner = 0
role_number admin = 1
role_number manager = 2
role_number member = 3
role_number sales_agent = 4
role_number viewer = 5

abbrev pub same_role : UserRole → UserRole → Bool
same_role a b = role_number a == role_number b

-- `role in roles`
abbrev pub among : List UserRole → UserRole → Bool
among [] role = false
among (r ∷ rs) role = same_role r role || among rs role

abbrev pub can_read : List UserRole
can_read = owner ∷ admin ∷ manager ∷ member ∷ sales_agent ∷ viewer ∷ []

abbrev pub can_write : List UserRole
can_write = owner ∷ admin ∷ manager ∷ member ∷ sales_agent ∷ []

abbrev pub can_manage : List UserRole
can_manage = owner ∷ admin ∷ manager ∷ []

abbrev pub admin_only : List UserRole
admin_only = owner ∷ admin ∷ []

-- `PERMISSION_MATRIX`
abbrev pub permission_matrix : Permission → List UserRole
permission_matrix lead_read = can_read
permission_matrix lead_write = can_write
permission_matrix lead_delete = can_manage
permission_matrix lead_assign = can_manage
permission_matrix pipeline_manage = admin_only
permission_matrix ai_manage = can_manage
permission_matrix task_read = can_read
permission_matrix task_write = can_write
permission_matrix task_manage = can_manage
permission_matrix note_read = can_read
permission_matrix note_write = can_write
permission_matrix search = can_read
permission_matrix export = can_manage
permission_matrix analytics_read = can_manage
permission_matrix team_manage = admin_only
permission_matrix invite_manage = admin_only
permission_matrix audit_read = admin_only
permission_matrix workflow_read = can_read
permission_matrix workflow_write = can_write
permission_matrix workflow_manage = can_manage
permission_matrix execution_read = can_read
permission_matrix execution_write = can_write
permission_matrix execution_manage = admin_only
permission_matrix automation_read = can_read
permission_matrix automation_write = can_write
permission_matrix automation_manage = admin_only
permission_matrix automation_control = admin_only
permission_matrix credential_manage = admin_only
permission_matrix credential_read = can_read
permission_matrix credential_write = can_write
permission_matrix credential_delete = admin_only
permission_matrix memory_read = can_read
permission_matrix memory_write = can_manage
permission_matrix approval_read = can_read
permission_matrix approval_manage = can_manage
permission_matrix notification_read = can_read
permission_matrix notification_write = can_write
permission_matrix growth_read = can_manage
permission_matrix growth_manage = admin_only
permission_matrix agent_read = can_read
permission_matrix agent_manage = admin_only
permission_matrix delivery_read = can_read
permission_matrix delivery_write = can_write
permission_matrix delivery_manage = admin_only
permission_matrix founder_read = can_read
permission_matrix founder_manage = can_manage
permission_matrix ai_run = can_write
permission_matrix intelligence_read = can_read

abbrev pub has_permission : UserRole → Permission → Bool
has_permission role permission = among (permission_matrix permission) role

-- the members of `Permission`, in the order of their declaration
abbrev pub all_permissions : List Permission
all_permissions =
    lead_read ∷ lead_write ∷ lead_delete ∷ lead_assign ∷ pipeline_manage ∷ ai_manage ∷ task_read
    ∷ task_write ∷ task_manage ∷ note_read ∷ note_write ∷ search ∷ export ∷ analytics_read
    ∷ team_manage ∷ invite_manage ∷ audit_read ∷ workflow_read ∷ workflow_write ∷ workflow_manage
    ∷ execution_read ∷ execution_write ∷ execution_manage ∷ automation_read ∷ automation_write
    ∷ automation_manage ∷ automation_control ∷ credential_manage ∷ credential_read
    ∷ credential_write ∷ credential_delete ∷ memory_read ∷ memory_write ∷ approval_read
    ∷ approval_manage ∷ notification_read ∷ notification_write ∷ growth_read ∷ growth_manage
    ∷ agent_read ∷ agent_manage ∷ delivery_read ∷ delivery_write ∷ delivery_manage ∷ founder_read
    ∷ founder_manage ∷ ai_run ∷ intelligence_read ∷ []

unfoldable pub permissions_for_role : UserRole → List Permission
permissions_for_role role = select (has_permission role) all_permissions

abbrev is_owner : UserRole → Bool
is_owner role = same_role role owner

abbrev pub role_can_manage : UserRole → UserRole → Bool
role_can_manage actor target =
    if is_owner actor then true else ltb (role_level target) (role_level actor)

abbrev pub role_can_invite : UserRole → UserRole → Bool
role_can_invite actor role = not (is_owner role) && role_can_manage actor role

abbrev pub any_of : UserRole → List Permission → Bool
any_of role [] = false
any_of role (p ∷ ps) = has_permission role p || any_of role ps

-- the dependency: the user's role if it holds one of the permissions, else 403
unfoldable pub require_permission : List Permission → UserRole → M UserRole
require_permission permissions role =
    if any_of role permissions then pure role else raise "HTTPException" 403
