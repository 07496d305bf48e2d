-- ===== src/Team/Examples.antt =====
-- Tests of user_service.py: an owner and an administrator.
use agency_os.Prelude.{◌≤◌, ◌≡◌, refl, String, true, none, some, [], ◌∷◌, arith}
use agency_os.Db.Session.{ok}
use agency_os.Permissions.{owner, member, manager}
use agency_os.Team.Changes.{Updates, update-Updates}
use agency_os.Team.Counts.{owners}
use agency_os.Team.Owners.{update-keeps_owner}
use agency_os.Team.Users.{
  User, UserChange, Team, get_or_404, put, store, count_active_role, ensure_owner_safety,
  validate_role, validate_status, validate_actor, change_role, change_status, update,
}

abbrev founder : User
founder = record {
  id = 1;
  organization_id = 9;
  email = "founder@agency.test";
  full_name = "Founder";
  role = owner;
  is_active = true;
  password_hash = none;
}

abbrev partner : User
partner = record founder { id = 2; email = "partner@agency.test"; full_name = "Partner" }

abbrev clerk : User
clerk = record founder { id = 3; email = "clerk@agency.test"; full_name = "Clerk"; role = member }

abbrev pair : Team
pair = record { users = founder ∷ partner ∷ clerk ∷ []; log = [] }

abbrev alone : Team
alone = record { users = founder ∷ clerk ∷ []; log = [] }

abbrev hash : String → String
hash s = s

abbrev demote : UserChange
demote = record { full_name = none; role = some manager; is_active = none; password = none }

-- one of two owners may demote the other
demoted : (update hash 9 founder 2 demote pair).0 ≡ ok (record partner { role = manager })
unfolding update get_or_404 validate_actor validate_role validate_status change_role change_status
    ensure_owner_safety store put
demoted = refl

one_owner : 1 ≤ owners 9 pair
unfolding count_active_role
one_owner = omega arith

update-keeps_owner_example : 1 ≤ owners 9 (update hash 9 founder 2 demote pair).1
update-keeps_owner_example = update-keeps_owner hash 9 2 founder demote pair one_owner

update-Updates_example :
    Updates hash founder demote partner pair (update hash 9 founder 2 demote pair)
update-Updates_example = update-Updates hash 9 2 founder demote partner pair one_owner refl
