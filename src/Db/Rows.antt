-- ===== src/Db/Rows.antt =====
-- A table as a list of rows under `UPDATE ... WHERE guard SET values`, for any type of row.
use agency_os.Prelude.{
  ◌≡◌, Bool, true, Option, none, some, List, [], ◌∷◌, map, if◌then◌else◌, Bool-cases, inl, inr, All,
}

module _ {ℓ} {A : Type ℓ} where
  abbrev pub update_row : (A → Bool) → (A → A) → A → A
  update_row guard values r = if guard r then values r else r

  abbrev pub update_rows : (A → Bool) → (A → A) → List A → List A
  update_rows guard values rows = map (update_row guard values) rows

  -- `RETURNING` of an UPDATE that matches one row at most
  abbrev pub returned : (A → Bool) → (A → A) → List A → Option A
  returned guard values [] = none
  returned guard values (r ∷ rs) =
      let rest = returned guard values rs in if guard r then some (values r) else rest

  -- the first row that the WHERE matches
  abbrev pub first_row : (A → Bool) → List A → Option A
  first_row guard [] = none
  first_row guard (r ∷ rs) = let rest = first_row guard rs in if guard r then some r else rest

  -- `ORDER BY`: rows that the order does not tell apart keep the order of the table
  unfoldable pub insert_row : (A → A → Bool) → A → List A → List A
  insert_row before r [] = r ∷ []
  insert_row before r (u ∷ us) =
      let rest = insert_row before r us in if before r u then r ∷ u ∷ us else u ∷ rest

  unfoldable pub order_by : (A → A → Bool) → List A → List A
  unfolding insert_row
  order_by before [] = []
  order_by before (r ∷ rs) = insert_row before r (order_by before rs)

  pub All-update_rows {κ} :
      (P : A → Type κ) (guard : A → Bool) (values : A → A)
      → ((r : A) → guard r ≡ true → P r → P (values r))
      → (rs : List A) → All P rs
      → All P (update_rows guard values rs)
  All-update_rows P guard values kept [] h = tt
  All-update_rows P guard values kept (r ∷ rs) (p, ps) = elim (Bool-cases (guard r)) [
    | inl hit ↦ rw hit (kept r hit p, All-update_rows P guard values kept rs ps)
    | inr miss ↦ rw miss (p, All-update_rows P guard values kept rs ps)
  ]

-- A relation between two tables, row by row.
pub data Rowwise {ℓ κ} {A : Type ℓ} (R : A → A → Type κ) : List A → List A → Type (ℓ ⊔ κ) where
  no_rows : Rowwise R [] []
  row : {r r' : A} {rs rs' : List A} → R r r' → Rowwise R rs rs' → Rowwise R (r ∷ rs) (r' ∷ rs')

module _ {ℓ κ} {A : Type ℓ} (R : A → A → Type κ) where
  pub Rowwise-refl : ((r : A) → R r r) → (rs : List A) → Rowwise R rs rs
  Rowwise-refl same [] = no_rows
  Rowwise-refl same (r ∷ rs) = row (same r) (Rowwise-refl same rs)

  pub Rowwise-trans :
      ((a b c : A) → R a b → R b c → R a c)
      → {xs ys zs : List A} → Rowwise R xs ys
      → Rowwise R ys zs
      → Rowwise R xs zs
  Rowwise-trans join no_rows no_rows = no_rows
  Rowwise-trans join (row s t) (row s' t') = row (join _ _ _ s s') (Rowwise-trans join t t')

  pub Rowwise-update_rows :
      (guard : A → Bool) (values : A → A)
      → ((r : A) → R r r)
      → ((r : A) → guard r ≡ true → R r (values r))
      → (rs : List A) → Rowwise R rs (update_rows guard values rs)
  Rowwise-update_rows guard values same moved [] = no_rows
  Rowwise-update_rows guard values same moved (r ∷ rs) = elim (Bool-cases (guard r)) [
    | inl hit ↦ rw hit (row (moved r hit) (Rowwise-update_rows guard values same moved rs))
    | inr miss ↦ rw miss (row (same r) (Rowwise-update_rows guard values same moved rs))
  ]
