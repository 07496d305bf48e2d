-- ===== src/Team/Users.antt =====
-- backend/app/services/user_service.py, `create` and `update`, over repositories/user.py and
-- models/user.py. `hash_password` and the new id are parameters. An email stands as `strip` and
-- `lower` leave it. Every change of a row is flushed before the next query.
use agency_os.Prelude.{
  ℕ, String, Bool, true, false, ◌&&◌, ◌||◌, not, Option, none, some, List, [], ◌∷◌, ◌==◌, ltb,
  is_some, select, length, if◌then◌else◌,
}
use text.Mathlib.Text.{◌==◌ as str_eq}
use agency_os.Db.Rows.{first_row}
use agency_os.Db.Store.{Action, ◌>>=◌, ◌>>◌, pure, gets, modify, refuse_if, or_raise, rolled_back}
use agency_os.Permissions.{UserRole, owner, same_role, role_can_manage}

pub record User : Type 0 where
  pub id : ℕ
  pub organization_id : ℕ
  pub email : String
  pub full_name : String
  pub role : UserRole
  pub is_active : Bool
  pub password_hash : Option String

pub data UserEvent : Type 0 where
  role_changed : ℕ → UserRole → UserRole → UserEvent
  status_changed : ℕ → Bool → UserEvent

pub record Team : Type 0 where
  pub users : List User
  pub log : List UserEvent

abbrev pub M : Type 0 → Type 0
M A = Action Team A

-- the keys that the body of a request sets
pub record UserChange : Type 0 where
  pub full_name : Option String
  pub role : Option UserRole
  pub is_active : Option Bool
  pub password : Option String

abbrev pub has_id : ℕ → User → Bool
has_id i u = u.id == i

-- `user is None or user.organization_id != organization_id`
abbrev pub of_organization : ℕ → Option User → Option User
of_organization o none = none
of_organization o (some u) = if u.organization_id == o then some u else none

unfoldable pub get_or_404 : ℕ → ℕ → M User
get_or_404 organization_id user_id = do
  found ← gets (λ t. of_organization organization_id (first_row (has_id user_id) t.users))
  or_raise found "user.not_found" 404

-- a primary key names one row at most
unfoldable pub put : User → List User → List User
put u [] = []
put u (v ∷ users) = let rest = put u users in if v.id == u.id then u ∷ users else v ∷ rest

unfoldable pub store : User → M (Unit {0})
unfolding put
store u = modify (λ t. record t { users = put u t.users })

abbrev pub is_active_role : ℕ → UserRole → User → Bool
is_active_role organization_id role u =
    u.organization_id == organization_id && same_role u.role role && u.is_active

unfoldable pub count_active_role : ℕ → UserRole → List User → ℕ
count_active_role organization_id role users =
    length (select (is_active_role organization_id role) users)

unfoldable pub get_by_email : String → List User → Option User
get_by_email email users = first_row (λ u. str_eq u.email email) users

-- `new_role is not None and new_role is not OWNER`, and `activating is False`
abbrev pub demotes : Option UserRole → Bool
demotes none = false
demotes (some role) = not (same_role role owner)

abbrev pub deactivates : Option Bool → Bool
deactivates none = false
deactivates (some active) = not active

unfoldable pub ensure_owner_safety : ℕ → User → Option UserRole → Option Bool → M (Unit {0})
unfolding count_active_role
ensure_owner_safety organization_id u new_role activating = do
  active_owners ← gets (λ t. count_active_role organization_id owner t.users)
  refuse_if
      (same_role u.role owner
        && (demotes new_role || deactivates activating)
        && ltb active_owners 2)
      "user.last_owner" 400

unfoldable pub validate_role : User → User → Option UserRole → M (Unit {0})
validate_role actor target none = pure tt
validate_role actor target (some role) = do
  refuse_if (actor.id == target.id) "user.self_role_change" 400
  refuse_if (not (role_can_manage actor.role role)) "user.role_denied" 403
  refuse_if (not (role_can_manage actor.role target.role)) "user.manage_denied" 403

unfoldable pub validate_status : User → User → Option Bool → M (Unit {0})
validate_status actor target none = pure tt
validate_status actor target (some active) = do
  refuse_if (actor.id == target.id) "user.self_status_change" 400
  refuse_if (not (role_can_manage actor.role target.role)) "user.manage_denied" 403

unfoldable pub validate_actor : User → User → UserChange → M (Unit {0})
unfolding validate_role validate_status
validate_actor actor target change = do
  validate_role actor target change.role
  validate_status actor target change.is_active

unfoldable pub change_role : ℕ → User → Option UserRole → M User
unfolding ensure_owner_safety store
change_role organization_id u none = pure u
change_role organization_id u (some role) = if same_role role u.role then pure u else (do
  ensure_owner_safety organization_id u (some role) none
  store (record u { role = role })
  modify (λ t. record t { log = role_changed u.id u.role role ∷ t.log })
  pure (record u { role = role }))

abbrev pub same_flag : Bool → Bool → Bool
same_flag true b = b
same_flag false b = not b

unfoldable pub change_status : ℕ → User → Option Bool → M User
unfolding ensure_owner_safety store
change_status organization_id u none = pure u
change_status organization_id u (some active) = if same_flag active u.is_active then pure u else (do
  ensure_owner_safety organization_id u none (some active)
  store (record u { is_active = active })
  modify (λ t. record t { log = status_changed u.id active ∷ t.log })
  pure (record u { is_active = active }))

abbrev pub or_name : Option String → String → String
or_name none old = old
or_name (some name) old = name

module _ (hash_password : String → String) where
  -- `data["password"]` counts only when it is not empty
  abbrev pub or_hash : Option String → Option String → Option String
  or_hash none old = old
  or_hash (some password) old = if str_eq password "" then old else some (hash_password password)

  unfoldable pub update : ℕ → User → ℕ → UserChange → M User
  unfolding get_or_404 validate_actor change_role change_status store
  update organization_id actor user_id change = rolled_back (do
    user ← get_or_404 organization_id user_id
    validate_actor actor user change
    placed ← change_role organization_id user change.role
    store (record placed { full_name = or_name change.full_name placed.full_name })
    switched ←
        change_status organization_id
          (record placed { full_name = or_name change.full_name placed.full_name }) change.is_active
    store (record switched { password_hash = or_hash change.password switched.password_hash })
    pure (record switched { password_hash = or_hash change.password switched.password_hash }))

  -- the flush, which refuses an email that another session has inserted meanwhile, always succeeds
  unfoldable pub create : ℕ → User → ℕ → String → String → UserRole → Bool → Option String → M User
  unfolding get_by_email
  create organization_id actor id email full_name role is_active password = do
    taken ← gets (λ t. get_by_email email t.users)
    refuse_if (is_some taken) "user.email_taken" 409
    refuse_if (not (role_can_manage actor.role role)) "user.role_denied" 403
    let user : User = record {
      id = id;
      organization_id = organization_id;
      email = email;
      full_name = full_name;
      role = role;
      is_active = is_active;
      password_hash = or_hash password none;
    }
    modify (λ t. record t { users = user ∷ t.users })
    pure user
