-- ===== src/Permissions/Examples.antt =====
-- A manager who invites a member.
use agency_os.Prelude.{◌≡◌, ◌≢◌, refl, true, false}
use agency_os.Permissions.{Permission, manager, member, owner, has_permission, role_can_manage}
use agency_os.Permissions.Hierarchy.{invite_never_escalates}

invite_never_escalates_example :
    (member ≢ owner)
    × (role_can_manage member manager ≡ false)
    × ((p : Permission) → has_permission member p ≡ true → has_permission manager p ≡ true)
invite_never_escalates_example = invite_never_escalates manager member refl
