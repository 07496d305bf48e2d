-- ===== src/Team/Owners.antt =====
-- user_service.py, `_ensure_owner_safety`: an organization keeps an active owner.
use agency_os.Prelude.{
  ℕ, ◌≤◌, ◌≡◌, refl, sym, String, Bool, true, false, ◌&&◌, ◌||◌, not, Option, none, some, List,
  ◌==◌, leb, ltb, arith, Bool-cases, inl, inr,
}
use mathlib.Core.Path.{subst}
use agency_os.Db.Rows.{first_row}
use agency_os.Db.Search.{first_row-fits}
use agency_os.Db.Session.{Result, ok, err}
use agency_os.Db.Store.{and_then, ◌>>=◌, ◌>>◌, pure, refuse_if, or_raise, rolled_back}
use agency_os.Permissions.{UserRole, owner, same_role, role_can_manage}
use agency_os.Team.Users.{
  User, UserChange, Team, M, has_id, of_organization, get_or_404, store, is_active_role, demotes,
  deactivates, ensure_owner_safety, validate_role, validate_status, validate_actor, change_role,
  same_flag, change_status, or_name, or_hash, update,
}
use agency_os.Team.Counts.{owners, Holds, spares, store-Holds, role_spares, status_spares}

-- what a step leaves, where it returns
abbrev pub After : {A : Type 0} → (Team → A → Type 0) → Result A × Team → Type 0
After P (ok u, t) = P t u
After P (err e, t) = Unit

change_role-Holds :
    (o : ℕ) (u : User) (role : Option UserRole) (t : Team)
    → Holds o t u
    → After (Holds o) (change_role o u role t)
unfolding change_role ensure_owner_safety
change_role-Holds o u none t h = h
change_role-Holds o u (some r) t h = elim (Bool-cases (same_role r u.role)) [
  | inl same ↦ rw same h
  | inr other ↦
      elim (Bool-cases
        (same_role u.role owner && (demotes (some r) || deactivates none) && ltb (owners o t) 2)) [
          | inl stop ↦ rw (other, stop) tt
          | inr go ↦
              let u' : User = record u { role = r } in
              let s : spares o u u' (owners o t) ≡ true = role_spares o u r (owners o t) go in
              let k = store-Holds o t u u' refl h s in
              rw (other, go) (record { owned = k.owned; found = k.found })
        ]
]

change_status-Holds :
    (o : ℕ) (u : User) (active : Option Bool) (t : Team)
    → Holds o t u
    → After (Holds o) (change_status o u active t)
unfolding change_status ensure_owner_safety
change_status-Holds o u none t h = h
change_status-Holds o u (some a) t h = elim (Bool-cases (same_flag a u.is_active)) [
  | inl same ↦ rw same h
  | inr other ↦
      elim (Bool-cases
        (same_role u.role owner && (demotes none || deactivates (some a)) && ltb (owners o t) 2)) [
          | inl stop ↦ rw (other, stop) tt
          | inr go ↦
              let u' : User = record u { is_active = a } in
              let s : spares o u u' (owners o t) ≡ true = status_spares o u a (owners o t) go in
              let k = store-Holds o t u u' refl h s in
              rw (other, go) (record { owned = k.owned; found = k.found })
        ]
]

and_then-After :
    {A B : Type 0} (P : Team → A → Type 0) (Q : Team → B → Type 0) (r : Result A) (f : A → M B)
    (t : Team)
    → After P (r, t)
    → ((a : A) (t' : Team) → P t' a → After Q (f a t'))
    → After Q (and_then r f t)
and_then-After P Q (ok a) f t h g = g a t h
and_then-After P Q (err e) f t h g = tt

pub After-bind :
    {A B : Type 0} (P : Team → A → Type 0) (Q : Team → B → Type 0) (m : M A) (f : A → M B)
    (t : Team)
    → After P (m t)
    → ((a : A) (t' : Team) → P t' a → After Q (f a t'))
    → After Q ((m >>= f) t)
After-bind P Q m f t h g = and_then-After P Q (m t).0 f (m t).1 h g

refuse_if-After :
    (P : Team → Unit {0} → Type 0) (b : Bool) (code : String) (status : ℕ) (t : Team)
    → P t tt
    → After P (refuse_if b code status t)
refuse_if-After P true code status t h = tt
refuse_if-After P false code status t h = h

refused_or :
    (P : Team → Unit {0} → Type 0) (b : Bool) (code : String) (status : ℕ) (m : M (Unit {0}))
    (t : Team)
    → After P (m t)
    → After P ((refuse_if b code status >> m) t)
refused_or P true code status m t h = tt
refused_or P false code status m t h = h

-- the checks of an actor change nothing
module _ (P : Team → Unit {0} → Type 0) (actor u : User) (t : Team) (h : P t tt) where
  validate_role-After : (role : Option UserRole) → After P (validate_role actor u role t)
  unfolding validate_role
  validate_role-After none = h
  validate_role-After (some r) =
      refused_or P (actor.id == u.id) "user.self_role_change" 400
        (refuse_if (not (role_can_manage actor.role r)) "user.role_denied" 403
          >> refuse_if (not (role_can_manage actor.role u.role)) "user.manage_denied" 403)
        t
        (refused_or P (not (role_can_manage actor.role r)) "user.role_denied" 403
          (refuse_if (not (role_can_manage actor.role u.role)) "user.manage_denied" 403) t
          (refuse_if-After P (not (role_can_manage actor.role u.role)) "user.manage_denied" 403 t
            h))

  validate_status-After : (active : Option Bool) → After P (validate_status actor u active t)
  unfolding validate_status
  validate_status-After none = h
  validate_status-After (some a) =
      refused_or P (actor.id == u.id) "user.self_status_change" 400
        (refuse_if (not (role_can_manage actor.role u.role)) "user.manage_denied" 403) t
        (refuse_if-After P (not (role_can_manage actor.role u.role)) "user.manage_denied" 403 t h)

validate_actor-After :
    (P : Team → Unit {0} → Type 0) (actor u : User) (change : UserChange) (t : Team)
    → P t tt
    → After P (validate_actor actor u change t)
unfolding validate_actor
validate_actor-After P actor u change t h =
    After-bind P P (validate_role actor u change.role)
      (λ x. validate_status actor u change.is_active) t
      (validate_role-After P actor u t h change.role)
      (λ x t' h'. validate_status-After P actor u t' h' change.is_active)

or_true : (a b : Bool) → (not a || a || b) ≡ true
or_true a b = ground arith

harmless :
    (o n : ℕ) (u u' : User)
    → is_active_role o owner u' ≡ is_active_role o owner u
    → spares o u u' n ≡ true
unfolding spares
harmless o n u u' e = rw e (or_true (is_active_role o owner u) (leb 2 n))

module _ (hash : String → String) (o : ℕ) (actor : User) (change : UserChange) where
  -- `update` from its ends backwards
  abbrev pub renamed : User → User
  renamed u = record u { full_name = or_name change.full_name u.full_name }

  abbrev pub rehashed : User → User
  rehashed u = record u { password_hash = or_hash hash change.password u.password_hash }

  abbrev pub finish : User → M User
  finish u = store (rehashed u) >> pure (rehashed u)

  abbrev pub switch : User → M User
  switch u = store (renamed u) >> (change_status o (renamed u) change.is_active >>= finish)

  abbrev pub updating : Option User → M User
  updating found = or_raise found "user.not_found" 404 >>= λ u.
      validate_actor actor u change >> (change_role o u change.role >>= switch)

  finish-Holds : (u : User) (t : Team) → Holds o t u → After (Holds o) (finish u t)
  unfolding store
  finish-Holds u t h =
      let k = store-Holds o t u (rehashed u) refl h (harmless o (owners o t) u (rehashed u) refl) in
      record { owned = k.owned; found = k.found }

  switch-Holds : (u : User) (t : Team) → Holds o t u → After (Holds o) (switch u t)
  unfolding store
  switch-Holds u t h =
      let k = store-Holds o t u (renamed u) refl h (harmless o (owners o t) u (renamed u) refl) in
      After-bind (Holds o) (Holds o) (change_status o (renamed u) change.is_active) finish
        (store (renamed u) t).1
        (change_status-Holds o (renamed u) change.is_active (store (renamed u) t).1 k)
        (λ v t' h'. finish-Holds v t' h')

  pub updating-Holds :
      (found : Option User) (t : Team)
      → ((u : User) → found ≡ some u → Holds o t u)
      → After (Holds o) (updating found t)
  updating-Holds none t h = tt
  updating-Holds (some u) t h =
      After-bind (λ t' x. Holds o t' u) (Holds o) (validate_actor actor u change)
        (λ x. change_role o u change.role >>= switch) t
        (validate_actor-After (λ t' x. Holds o t' u) actor u change t (h u refl))
        (λ x t' h'.
          After-bind (Holds o) (Holds o) (change_role o u change.role) switch t'
            (change_role-Holds o u change.role t' h') (λ v t'' h''. switch-Holds v t'' h''))

kept_or_not :
    (o : ℕ) (r : Result User) (t t' : Team)
    → 1 ≤ owners o t
    → After (Holds o) (r, t')
    → 1 ≤ owners o (rolled_back (λ (x : Team). (r, t')) t).1
kept_or_not o (ok u) t t' h a = a.owned
kept_or_not o (err e) t t' h a = h

of_organization_same :
    (o : ℕ) (found : Option User) (u : User) → of_organization o found ≡ some u → found ≡ some u
of_organization_same o none u h = h
of_organization_same o (some v) u h = elim (Bool-cases (v.organization_id == o)) [
  | inl own ↦ let e : ◌≡◌ {A = Option User} (some v) (some u) = rw own at h in e
  | inr other ↦ let e : ◌≡◌ {A = Option User} none (some u) = rw other at h in cc
]

pub of_organization-some :
    (o i : ℕ) (users : List User) (u : User)
    → of_organization o (first_row (has_id i) users) ≡ some u
    → first_row (has_id u.id) users ≡ some u
of_organization-some o i users u h =
    let e = of_organization_same o (first_row (has_id i) users) u h in
    let k = first_row-fits (has_id i) u users e in
    let same : u.id ≡ i = ground arith in
    subst (λ x. first_row (has_id x) users ≡ some u) (sym same) e

-- An update of a member, whoever asks for it and whatever it changes, leaves the organization an active
-- owner if it had one, also where it is refused.
pub update-keeps_owner :
    (hash : String → String) (o i : ℕ) (actor : User) (change : UserChange) (t : Team)
    → 1 ≤ owners o t
    → 1 ≤ owners o (update hash o actor i change t).1
unfolding update get_or_404
update-keeps_owner hash o i actor change t h =
    let found = of_organization o (first_row (has_id i) t.users) in
    let done = updating hash o actor change found t in
    kept_or_not o done.0 t done.1 h (
      updating-Holds hash o actor change found t
        (λ u e. record { owned = h; found = of_organization-some o i t.users u e }))
