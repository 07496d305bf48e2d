-- ===== src/Team/Counts.antt =====
-- user_service.py: a changed row and the count of active owners.
use agency_os.Prelude.{
  ℕ, ◌+◌, ◌≤◌, ◌≡◌, refl, ap, Bool, true, false, ◌&&◌, ◌||◌, not, Option, none, some, List, [], ◌∷◌,
  ◌==◌, leb, ltb, select, length, if◌then◌else◌, arith, Bool-cases, inl, inr,
}
use agency_os.Db.Rows.{first_row}
use agency_os.Permissions.{UserRole, owner, same_role}
use agency_os.Team.Users.{
  User, Team, has_id, put, store, is_active_role, count_active_role, demotes, deactivates,
}

abbrev pub owners : ℕ → Team → ℕ
owners o t = count_active_role o owner t.users

bit : Bool → ℕ
bit b = if b then 1 else 0

count-cons :
    (p : User → Bool) (u : User) (users : List User)
    → length (select p (u ∷ users)) ≡ bit (p u) + length (select p users)
unfolding bit
count-cons p u users = elim (Bool-cases (p u)) [
  | inl h ↦ rw h (omega arith)
  | inr h ↦ rw h (omega arith)
]

put-count :
    (p : User → Bool) (u v : User) (users : List User)
    → first_row (has_id u.id) users ≡ some v
    → length (select p (put u users)) + bit (p v) ≡ length (select p users) + bit (p u)
unfolding put
put-count p u v [] h = absurd (let e : ⊥ = cc in e)
put-count p u v (w ∷ users) h = elim (Bool-cases (w.id == u.id)) [
  | inl hit ↦
      let e : ◌≡◌ {A = Option User} (some w) (some v) = rw hit at h in
      let e' : w ≡ v = cc in
      let f : bit (p w) ≡ bit (p v) = ap (λ x. bit (p x)) e' in
      rw hit (omega (arith, count-cons p u users, count-cons p w users, f))
  | inr miss ↦
      let ih = put-count p u v users (rw miss at h) in
      rw miss (omega (arith, ih, count-cons p w (put u users), count-cons p w users))
]

first_row-put :
    (u v : User) (users : List User)
    → first_row (has_id u.id) users ≡ some v
    → first_row (has_id u.id) (put u users) ≡ some u
unfolding put
first_row-put u v [] h = absurd (let e : ⊥ = cc in e)
first_row-put u v (w ∷ users) h = elim (Bool-cases (w.id == u.id)) [
  | inl hit ↦ let self : (u.id == u.id) ≡ true = ground arith in rw (hit, self) refl
  | inr miss ↦ rw (miss, miss) (first_row-put u v users (rw miss at h))
]

-- the row of `u`, and an active owner of the organization
pub record Holds (o : ℕ) (t : Team) (u : User) : Type 0 where
  pub owned : 1 ≤ owners o t
  pub found : first_row (has_id u.id) t.users ≡ some u

-- a change of the row of `u` that leaves an active owner
unfoldable pub spares : ℕ → User → User → ℕ → Bool
spares o u u' n = not (is_active_role o owner u) || is_active_role o owner u' || leb 2 n

one_left :
    (a b : Bool) (n n' : ℕ)
    → n' + bit a ≡ n + bit b
    → (not a || b || leb 2 n) ≡ true
    → 1 ≤ n
    → 1 ≤ n'
unfolding bit
one_left a b n n' c s h = ground arith

pub store-Holds :
    (o : ℕ) (t : Team) (u u' : User)
    → u'.id ≡ u.id
    → Holds o t u
    → spares o u u' (owners o t) ≡ true
    → Holds o (store u' t).1 u'
unfolding store count_active_role spares bit
store-Holds o t u u' e h s =
    let f : first_row (has_id u'.id) t.users ≡ some u = rw e h.found in
    let c = put-count (is_active_role o owner) u' u t.users f in
    record {
      owned = one_left (is_active_role o owner u) (is_active_role o owner u') _ _ c s h.owned;
      found = first_row-put u' u t.users f;
    }

pub role_spares :
    (o : ℕ) (u : User) (r : UserRole) (n : ℕ)
    → (same_role u.role owner && (demotes (some r) || deactivates none) && ltb n 2) ≡ false
    → spares o u (record u { role = r }) n ≡ true
unfolding spares
role_spares o u r n h = ground arith

pub status_spares :
    (o : ℕ) (u : User) (active : Bool) (n : ℕ)
    → (same_role u.role owner && (demotes none || deactivates (some active)) && ltb n 2) ≡ false
    → spares o u (record u { is_active = active }) n ≡ true
unfolding spares
status_spares o u active n h = ground arith
