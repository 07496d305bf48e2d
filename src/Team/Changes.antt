-- ===== src/Team/Changes.antt =====
-- user_service.py, `update`: what it changes, and whom `_validate_actor` lets change it.
use agency_os.Prelude.{
  ℕ, ◌≤◌, ◌≡◌, refl, ap, ◌∙◌, String, Bool, true, ◌&&◌, ◌||◌, not, Option, none, some, ◌==◌, ltb,
  arith, Bool-cases, inl, inr,
}
use agency_os.Db.Rows.{first_row}
use agency_os.Db.Session.{Result, ok, err}
use agency_os.Db.Store.{◌>>=◌, rolled_back}
use agency_os.Permissions.{UserRole, owner, same_role, role_can_manage}
use agency_os.Team.Owners.{
  After, After-bind, renamed, rehashed, finish, switch, updating, updating-Holds,
  of_organization-some,
}
use agency_os.Team.Counts.{owners, Holds}
use agency_os.Team.Users.{
  User, UserChange, Team, has_id, of_organization, get_or_404, store, ensure_owner_safety, demotes,
  deactivates, count_active_role, validate_role, validate_status, validate_actor, change_role,
  same_flag, change_status, or_name, or_hash, update,
}

abbrev pub or_role : Option UserRole → UserRole → UserRole
or_role none old = old
or_role (some role) old = role

abbrev pub or_flag : Option Bool → Bool → Bool
or_flag none old = old
or_flag (some active) old = active

-- the member with the keys that the request sets
abbrev pub applied : (String → String) → UserChange → User → User
applied hash change u = record u {
  role = or_role change.role u.role;
  full_name = or_name change.full_name u.full_name;
  is_active = or_flag change.is_active u.is_active;
  password_hash = or_hash hash change.password u.password_hash;
}

-- nobody changes his own role or status, and others only where he may manage the old and the new role
abbrev pub may_give : User → User → Option UserRole → Bool
may_give actor u none = true
may_give actor u (some role) =
    not (actor.id == u.id) && role_can_manage actor.role role && role_can_manage actor.role u.role

abbrev pub may_switch : User → User → Option Bool → Bool
may_switch actor u none = true
may_switch actor u (some active) = not (actor.id == u.id) && role_can_manage actor.role u.role

validate_role-After :
    (actor u : User) (role : Option UserRole) (t : Team)
    → After (λ t' x. may_give actor u role ≡ true) (validate_role actor u role t)
unfolding validate_role
validate_role-After actor u none t = refl
validate_role-After actor u (some r) t = elim (Bool-cases (actor.id == u.id)) [
  | inl self ↦ rw self tt
  | inr other ↦ elim (Bool-cases (role_can_manage actor.role r)) [
    | inr low ↦ rw (other, low) tt
    | inl new ↦ elim (Bool-cases (role_can_manage actor.role u.role)) [
      | inr low ↦ rw (other, new, low) tt
      | inl old ↦ rw (other, new, old) refl
    ]
  ]
]

validate_status-After :
    (actor u : User) (active : Option Bool) (t : Team)
    → After (λ t' x. may_switch actor u active ≡ true) (validate_status actor u active t)
unfolding validate_status
validate_status-After actor u none t = refl
validate_status-After actor u (some a) t = elim (Bool-cases (actor.id == u.id)) [
  | inl self ↦ rw self tt
  | inr other ↦ elim (Bool-cases (role_can_manage actor.role u.role)) [
    | inr low ↦ rw (other, low) tt
    | inl old ↦ rw (other, old) refl
  ]
]

validate_actor-After :
    (actor u : User) (change : UserChange) (t : Team)
    → After
        (λ t' x. (may_give actor u change.role && may_switch actor u change.is_active) ≡ true)
        (validate_actor actor u change t)
unfolding validate_actor
validate_actor-After actor u change t =
    After-bind (λ t' x. may_give actor u change.role ≡ true)
      (λ t' x. (may_give actor u change.role && may_switch actor u change.is_active) ≡ true)
      (validate_role actor u change.role) (λ x. validate_status actor u change.is_active) t
      (validate_role-After actor u change.role t)
      (λ x t' e. rw e (validate_status-After actor u change.is_active t'))

abbrev last_owner : ℕ → User → Option UserRole → Option Bool → Team → Bool
last_owner o u role active t =
    same_role u.role owner
    && (demotes role || deactivates active)
    && ltb (count_active_role o owner t.users) 2

change_role-After :
    (o : ℕ) (u : User) (role : Option UserRole) (t : Team)
    → After (λ t' v. v ≡ record u { role = or_role role u.role }) (change_role o u role t)
unfolding change_role ensure_owner_safety store
change_role-After o u none t = refl
change_role-After o u (some r) t = elim (Bool-cases (same_role r u.role)) [
  | inl same ↦ let e : u.role ≡ r = ground arith in rw same (ap (λ x. record u { role = x }) e)
  | inr other ↦ elim (Bool-cases (last_owner o u (some r) none t)) [
    | inl stop ↦ rw (other, stop) tt
    | inr go ↦ rw (other, go) refl
  ]
]

change_status-After :
    (o : ℕ) (u : User) (active : Option Bool) (t : Team)
    → After
        (λ t' v. v ≡ record u { is_active = or_flag active u.is_active })
        (change_status o u active t)
unfolding change_status ensure_owner_safety store
change_status-After o u none t = refl
change_status-After o u (some a) t = elim (Bool-cases (same_flag a u.is_active)) [
  | inl same ↦
      let e : u.is_active ≡ a = ground arith in rw same (ap (λ x. record u { is_active = x }) e)
  | inr other ↦ elim (Bool-cases (last_owner o u none (some a) t)) [
    | inl stop ↦ rw (other, stop) tt
    | inr go ↦ rw (other, go) refl
  ]
]

granted :
    {P : Type 0} {A : Type 0} (Q : Team → A → Type 0)
    → P
    → (r : Result A) (t : Team) → After Q (r, t)
    → After (λ t' v. P × Q t' v) (r, t)
granted Q p (ok v) t h = (p, h)
granted Q p (err e) t h = tt

module _ (hash : String → String) (o : ℕ) (actor : User) (change : UserChange) where
  abbrev permitted : User → Bool
  permitted u = may_give actor u change.role && may_switch actor u change.is_active

  finish-After :
      (u : User) (t : Team)
      → After (λ t' v. v ≡ rehashed hash o actor change u) (finish hash o actor change u t)
  unfolding store
  finish-After u t = refl

  switch-After :
      (old u : User) (t : Team)
      → u ≡ record old { role = or_role change.role old.role }
      → After (λ t' v. v ≡ applied hash change old) (switch hash o actor change u t)
  unfolding store
  switch-After old u t e =
      After-bind
        (λ t' v. v ≡ record (renamed hash o actor change u) {
          is_active = or_flag change.is_active u.is_active;
        })
        (λ t' v. v ≡ applied hash change old)
        (change_status o (renamed hash o actor change u) change.is_active)
        (finish hash o actor change) (store (renamed hash o actor change u) t).1
        (change_status-After o (renamed hash o actor change u) change.is_active _)
        (λ v t' f.
          ap (λ x. rehashed hash o actor change x) f
          ∙ ap
              (λ x. rehashed hash o actor change (record (renamed hash o actor change x) {
                is_active = or_flag change.is_active x.is_active;
              }))
              e)

  updating-After :
      (old : User) (t : Team)
      → After
          (λ t' v. (permitted old ≡ true) × (v ≡ applied hash change old))
          (updating hash o actor change (some old) t)
  updating-After old t =
      After-bind (λ t' x. permitted old ≡ true)
        (λ t' v. (permitted old ≡ true) × (v ≡ applied hash change old))
        (validate_actor actor old change)
        (λ x. change_role o old change.role >>= switch hash o actor change) t
        (validate_actor-After actor old change t)
        (λ x t' g.
          After-bind (λ t'' v. v ≡ record old { role = or_role change.role old.role })
            (λ t'' v. (permitted old ≡ true) × (v ≡ applied hash change old))
            (change_role o old change.role) (switch hash o actor change) t'
            (change_role-After o old change.role t')
            (λ v t'' e.
              granted (λ t'' v. v ≡ applied hash change old) g (switch hash o actor change v t'').0
                (switch hash o actor change v t'').1 (switch-After old v t'' e)))

-- a call that makes the change, which the actor may make, or that is refused and changes nothing
abbrev pub Updates :
    (String → String) → User → UserChange → User → Team → Result User × Team → Type 0
Updates hash actor change old t (ok v, t') =
    ((may_give actor old change.role && may_switch actor old change.is_active) ≡ true)
    × (v ≡ applied hash change old)
    × (first_row (has_id v.id) t'.users ≡ some v)
Updates hash actor change old t (err e, t') = t' ≡ t

updated :
    (hash : String → String) (o : ℕ) (actor : User) (change : UserChange) (old : User) (t t' : Team)
    (r : Result User)
    → After
        (λ t'' v.
          ((may_give actor old change.role && may_switch actor old change.is_active) ≡ true)
          × (v ≡ applied hash change old))
        (r, t')
    → After (Holds o) (r, t')
    → Updates hash actor change old t (rolled_back (λ (x : Team). (r, t')) t)
updated hash o actor change old t t' (ok v) (g, e) h = (g, e, h.found)
updated hash o actor change old t t' (err x) g h = refl

-- An update of a member of an organization with an active owner makes exactly the changes that the
-- request sets, and stores them, and does so only where the actor may: nobody changes his own role
-- or status, and another's only if he may manage both the role that the other has and the one he is
-- to get. Otherwise it is refused and nothing changes.
pub update-Updates :
    (hash : String → String) (o i : ℕ) (actor : User) (change : UserChange) (old : User) (t : Team)
    → 1 ≤ owners o t
    → of_organization o (first_row (has_id i) t.users) ≡ some old
    → Updates hash actor change old t (update hash o actor i change t)
unfolding update get_or_404
update-Updates hash o i actor change old t h e =
    let holds : (u : User) → some old ≡ some u → Holds o t u =
      λ u f. record { owned = h; found = of_organization-some o i t.users u (e ∙ f) } in
    let done = updating hash o actor change (some old) t in
    rw e (
      updated hash o actor change old t done.1 done.0 (updating-After hash o actor change old t)
        (updating-Holds hash o actor change (some old) t holds))
