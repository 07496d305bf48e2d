-- ===== src/Permissions/Hierarchy.antt =====
-- permissions.py: the order of the roles against what they are permitted to do.
use agency_os.Prelude.{◌≤◌, ◌≡◌, ◌≢◌, refl, true, false, List, arith}
use agency_os.Permissions.{
  UserRole, owner, admin, manager, member, sales_agent, viewer, Permission, lead_read, lead_write,
  lead_delete, lead_assign, pipeline_manage, ai_manage, task_read, task_write, task_manage,
  note_read, note_write, search, export, analytics_read, team_manage, invite_manage, audit_read,
  workflow_read, workflow_write, workflow_manage, execution_read, execution_write, execution_manage,
  automation_read, automation_write, automation_manage, automation_control, credential_manage,
  credential_read, credential_write, credential_delete, memory_read, memory_write, approval_read,
  approval_manage, notification_read, notification_write, growth_read, growth_manage, agent_read,
  agent_manage, delivery_read, delivery_write, delivery_manage, founder_read, founder_manage,
  ai_run, intelligence_read, role_level, among, can_read, can_write, can_manage, admin_only,
  permission_matrix, has_permission, role_can_manage, role_can_invite,
}

-- A set of roles holds with a role every role of its level or above.
abbrev Upward : List UserRole → Type 0
Upward roles =
    (a b : UserRole) → role_level a ≤ role_level b → among roles a ≡ true → among roles b ≡ true

can_read-Upward : Upward can_read
can_read-Upward a b le h = ground arith

can_write-Upward : Upward can_write
can_write-Upward a b le h = ground arith

can_manage-Upward : Upward can_manage
can_manage-Upward a b le h = ground arith

admin_only-Upward : Upward admin_only
admin_only-Upward a b le h = ground arith

matrix-Upward : (p : Permission) → Upward (permission_matrix p)
matrix-Upward lead_read = can_read-Upward
matrix-Upward lead_write = can_write-Upward
matrix-Upward lead_delete = can_manage-Upward
matrix-Upward lead_assign = can_manage-Upward
matrix-Upward pipeline_manage = admin_only-Upward
matrix-Upward ai_manage = can_manage-Upward
matrix-Upward task_read = can_read-Upward
matrix-Upward task_write = can_write-Upward
matrix-Upward task_manage = can_manage-Upward
matrix-Upward note_read = can_read-Upward
matrix-Upward note_write = can_write-Upward
matrix-Upward search = can_read-Upward
matrix-Upward export = can_manage-Upward
matrix-Upward analytics_read = can_manage-Upward
matrix-Upward team_manage = admin_only-Upward
matrix-Upward invite_manage = admin_only-Upward
matrix-Upward audit_read = admin_only-Upward
matrix-Upward workflow_read = can_read-Upward
matrix-Upward workflow_write = can_write-Upward
matrix-Upward workflow_manage = can_manage-Upward
matrix-Upward execution_read = can_read-Upward
matrix-Upward execution_write = can_write-Upward
matrix-Upward execution_manage = admin_only-Upward
matrix-Upward automation_read = can_read-Upward
matrix-Upward automation_write = can_write-Upward
matrix-Upward automation_manage = admin_only-Upward
matrix-Upward automation_control = admin_only-Upward
matrix-Upward credential_manage = admin_only-Upward
matrix-Upward credential_read = can_read-Upward
matrix-Upward credential_write = can_write-Upward
matrix-Upward credential_delete = admin_only-Upward
matrix-Upward memory_read = can_read-Upward
matrix-Upward memory_write = can_manage-Upward
matrix-Upward approval_read = can_read-Upward
matrix-Upward approval_manage = can_manage-Upward
matrix-Upward notification_read = can_read-Upward
matrix-Upward notification_write = can_write-Upward
matrix-Upward growth_read = can_manage-Upward
matrix-Upward growth_manage = admin_only-Upward
matrix-Upward agent_read = can_read-Upward
matrix-Upward agent_manage = admin_only-Upward
matrix-Upward delivery_read = can_read-Upward
matrix-Upward delivery_write = can_write-Upward
matrix-Upward delivery_manage = admin_only-Upward
matrix-Upward founder_read = can_read-Upward
matrix-Upward founder_manage = can_manage-Upward
matrix-Upward ai_run = can_write-Upward
matrix-Upward intelligence_read = can_read-Upward

-- The permission matrix respects the role levels: a role holds every permission that a role of the
-- same or a lower level holds.
pub has_permission_monotone :
    (a b : UserRole) (p : Permission)
    → role_level a ≤ role_level b
    → has_permission a p ≡ true
    → has_permission b p ≡ true
has_permission_monotone a b p le h = matrix-Upward p a b le h

invited_level :
    (actor role : UserRole) → role_can_invite actor role ≡ true → role_level role ≤ role_level actor
invited_level actor role h = ground arith

invited_below :
    (actor role : UserRole) → role_can_invite actor role ≡ true → role_can_manage role actor ≡ false
invited_below actor role h = ground arith

-- An invitation never escalates privileges: the invited role is not the owner's, cannot manage the
-- inviting role, and holds no permission that the inviting role lacks.
pub invite_never_escalates :
    (actor role : UserRole)
    → role_can_invite actor role ≡ true
    → (role ≢ owner)
      × (role_can_manage role actor ≡ false)
      × ((p : Permission) → has_permission role p ≡ true → has_permission actor p ≡ true)
invite_never_escalates actor role h = (
  λ e. cc (rw e at h),
  invited_below actor role h,
  λ p held. has_permission_monotone role actor p (invited_level actor role h) held,
)

owner_of_mutual :
    (a b : UserRole) → role_can_manage a b ≡ true → role_can_manage b a ≡ true → a ≡ owner
owner_of_mutual owner b h h' = refl
owner_of_mutual admin b h h' = absurd (ground arith)
owner_of_mutual manager b h h' = absurd (ground arith)
owner_of_mutual member b h h' = absurd (ground arith)
owner_of_mutual sales_agent b h h' = absurd (ground arith)
owner_of_mutual viewer b h h' = absurd (ground arith)

-- Two roles that may manage each other are both owners.
pub managed_both_ways :
    (a b : UserRole)
    → role_can_manage a b ≡ true
    → role_can_manage b a ≡ true
    → (a ≡ owner) × (b ≡ owner)
managed_both_ways a b h h' = (owner_of_mutual a b h h', owner_of_mutual b a h' h)
