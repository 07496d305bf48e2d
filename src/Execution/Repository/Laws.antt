-- ===== src/Execution/Repository/Laws.antt =====
-- What a guarded UPDATE does to the row of its key.
use agency_os.Prelude.{
  ℕ, ◌≡◌, refl, Bool, true, false, none, some, List, [], ◌∷◌, arith, Bool-cases, inl, inr,
}
use agency_os.Db.Tables.{Db, Execution}
use agency_os.Db.Session.{ok}
use agency_os.Execution.Repository.{is_row, find_row, update_row, get_or_404}

module _ (o i : ℕ) (guard : Execution → Bool) (values : Execution → Execution) where
  pub update_row_hit :
      (xs : List Execution) (e : Execution)
      → find_row o i xs ≡ some e
      → guard e ≡ true
      → (update_row o i guard values xs).1 ≡ some (values e)
  unfolding find_row update_row
  update_row_hit [] e f g = cc
  update_row_hit (x ∷ xs) e f g = elim (Bool-cases (is_row o i x)) [
    | inl here ↦ rw here (let same : x ≡ e = ground arith in rw (same, g))
    | inr other ↦ rw other (update_row_hit xs e (rw other at f) g)
  ]

  pub update_row_found :
      (xs : List Execution) (e : Execution)
      → find_row o i xs ≡ some e
      → guard e ≡ true
      → is_row o i (values e) ≡ true
      → find_row o i (update_row o i guard values xs).0 ≡ some (values e)
  unfolding find_row update_row
  update_row_found [] e f g k = cc
  update_row_found (x ∷ xs) e f g k = elim (Bool-cases (is_row o i x)) [
    | inl here ↦ rw here (let same : x ≡ e = ground arith in rw (same, g) (rw k))
    | inr other ↦ rw other (rw other (update_row_found xs e (rw other at f) g k))
  ]

  pub update_row_miss :
      (xs : List Execution) (e : Execution)
      → find_row o i xs ≡ some e
      → guard e ≡ false
      → update_row o i guard values xs ≡ (xs, none)
  unfolding find_row update_row
  update_row_miss [] e f g = cc
  update_row_miss (x ∷ xs) e f g = elim (Bool-cases (is_row o i x)) [
    | inl here ↦ rw here (let same : x ≡ e = ground arith in rw (same, g))
    | inr other ↦ let ih = update_row_miss xs e (rw other at f) g in rw other (rw ih)
  ]

  pub update_row_absent :
      (xs : List Execution) → find_row o i xs ≡ none → update_row o i guard values xs ≡ (xs, none)
  unfolding find_row update_row
  update_row_absent [] f = refl
  update_row_absent (x ∷ xs) f = elim (Bool-cases (is_row o i x)) [
    | inl here ↦ cc (rw here at f)
    | inr other ↦ let ih = update_row_absent xs (rw other at f) in rw other (rw ih)
  ]

-- a row that is found has the key
pub find_row-is_row :
    (o i : ℕ) (xs : List Execution) (e : Execution) → find_row o i xs ≡ some e → is_row o i e ≡ true
unfolding find_row
find_row-is_row o i [] e f = cc
find_row-is_row o i (x ∷ xs) e f = ground (arith, find_row-is_row o i xs e)

pub get_or_404_found :
    (o i : ℕ) (db : Db) (e : Execution)
    → find_row o i db.executions ≡ some e
    → get_or_404 o i db ≡ (ok e, db)
unfolding get_or_404
get_or_404_found o i db e f = rw f
