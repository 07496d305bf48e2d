-- ===== src/Db/Search.antt =====
-- What a search in a filtered and ordered table finds, for any type of row.
use agency_os.Prelude.{
  ◌≡◌, refl, sym, ◌∙◌, ap, inl, inr, Bool, true, false, ◌&&◌, ◌||◌, Option, some, List, [], ◌∷◌,
  ◌++◌, select, is_some, arith, Bool-cases, All,
}
use mathlib.Core.Path.{subst}
use mathlib.Core.Option
use agency_os.Db.Rows.{first_row, order_by, insert_row, update_row, update_rows}

module _ {ℓ} {A : Type ℓ} where
  abbrev pub any : (A → Bool) → List A → Bool
  any p [] = false
  any p (x ∷ xs) = p x || any p xs

  pub data Has (x : A) : List A → Type ℓ where
    here : {xs : List A} → Has x (x ∷ xs)
    there : {y : A} {xs : List A} → Has x xs → Has x (y ∷ xs)

  pub first_row-any : (p : A → Bool) (xs : List A) → is_some (first_row p xs) ≡ any p xs
  first_row-any p [] = refl
  first_row-any p (x ∷ xs) = elim (Bool-cases (p x)) [
    | inl h ↦ rw h refl
    | inr h ↦ rw h (first_row-any p xs)
  ]

  any-insert_row :
      (p : A → Bool) (le : A → A → Bool) (x : A) (xs : List A)
      → any p (insert_row le x xs) ≡ (p x || any p xs)
  unfolding insert_row
  any-insert_row p le x [] = refl
  any-insert_row p le x (y ∷ ys) = elim (Bool-cases (le x y)) [
    | inl h ↦ rw h refl
    | inr h ↦ rw (h, any-insert_row p le x ys) (ground arith)
  ]

  pub any-order_by :
      (p : A → Bool) (le : A → A → Bool) (xs : List A) → any p (order_by le xs) ≡ any p xs
  unfolding order_by
  any-order_by p le [] = refl
  any-order_by p le (x ∷ xs) =
      any-insert_row p le x (order_by le xs) ∙ ap (λ b. p x || b) (any-order_by p le xs)

  pub any-select : (p q : A → Bool) (xs : List A) → any p (select q xs) ≡ any (λ x. q x && p x) xs
  any-select p q [] = refl
  any-select p q (x ∷ xs) = elim (Bool-cases (q x)) [
    | inl h ↦ rw (h, any-select p q xs) refl
    | inr h ↦ rw (h, any-select p q xs) refl
  ]

  pub any-same : (p q : A → Bool) → ((x : A) → p x ≡ q x) → (xs : List A) → any p xs ≡ any q xs
  any-same p q h [] = refl
  any-same p q h (x ∷ xs) = rw (h x, any-same p q h xs) refl

  pub any_weaken :
      (p q : A → Bool) (xs : List A) → any (λ x. p x && q x) xs ≡ true → any p xs ≡ true
  any_weaken p q [] h = h
  any_weaken p q (x ∷ xs) h = elim (Bool-cases (p x)) [
    | inl t ↦ rw t refl
    | inr t ↦ rw t (any_weaken p q xs (rw t at h))
  ]

  pub any-append : (p : A → Bool) (xs ys : List A) → any p (xs ++ ys) ≡ (any p xs || any p ys)
  any-append p [] ys = refl
  any-append p (x ∷ xs) ys = rw (any-append p xs ys) (ground arith)

  pub first_row-fits : (p : A → Bool) (x : A) (xs : List A) → first_row p xs ≡ some x → p x ≡ true
  first_row-fits p x [] h = cc
  first_row-fits p x (y ∷ ys) h = elim (Bool-cases (p y)) [
    | inl t ↦
        let e : ◌≡◌ {A = Option A} (some y) (some x) = rw t at h in
        let e' : y ≡ x = cc in ap p (sym e') ∙ t
    | inr t ↦ first_row-fits p x ys (rw t at h)
  ]

  pub first_row-Has : (p : A → Bool) (x : A) (xs : List A) → first_row p xs ≡ some x → Has x xs
  first_row-Has p x [] h = absurd (let e : ⊥ = cc in e)
  first_row-Has p x (y ∷ ys) h = elim (Bool-cases (p y)) [
    | inl t ↦
        let e : ◌≡◌ {A = Option A} (some y) (some x) = rw t at h in
        let e' : y ≡ x = cc in subst (λ z. Has z (y ∷ ys)) e' here
    | inr t ↦ there (first_row-Has p x ys (rw t at h))
  ]

  pub first_row-All {κ} :
      (P : A → Type κ) (p : A → Bool) (x : A) (xs : List A)
      → All P xs
      → first_row p xs ≡ some x
      → P x
  first_row-All P p x [] a h = (let e : ⊥ = cc in absurd e)
  first_row-All P p x (y ∷ ys) (q, a) h = elim (Bool-cases (p y)) [
    | inl t ↦
        let e : ◌≡◌ {A = Option A} (some y) (some x) = rw t at h in
        let e' : y ≡ x = cc in subst P e' q
    | inr t ↦ first_row-All P p x ys a (rw t at h)
  ]

  pub All-select {κ} :
      (P : A → Type κ) (q : A → Bool) (xs : List A)
      → ((x : A) → q x ≡ true → Has x xs → P x)
      → All P (select q xs)
  All-select P q [] h = tt
  All-select P q (x ∷ xs) h = elim (Bool-cases (q x)) [
    | inl t ↦ rw t (h x t here, All-select P q xs (λ y u m. h y u (there m)))
    | inr t ↦ rw t (All-select P q xs (λ y u m. h y u (there m)))
  ]

  All-insert_row {κ} :
      (P : A → Type κ) (le : A → A → Bool) (x : A) (xs : List A)
      → P x
      → All P xs
      → All P (insert_row le x xs)
  unfolding insert_row
  All-insert_row P le x [] p a = (p, tt)
  All-insert_row P le x (y ∷ ys) p (q, a) = elim (Bool-cases (le x y)) [
    | inl h ↦ rw h (p, (q, a))
    | inr h ↦ rw h (q, All-insert_row P le x ys p a)
  ]

  pub All-order_by {κ} :
      (P : A → Type κ) (le : A → A → Bool) (xs : List A) → All P xs → All P (order_by le xs)
  unfolding order_by
  All-order_by P le [] a = tt
  All-order_by P le (x ∷ xs) (p, a) =
      All-insert_row P le x (order_by le xs) p (All-order_by P le xs a)

  All-uninserted {κ} :
      (P : A → Type κ) (le : A → A → Bool) (x : A) (xs : List A)
      → All P (insert_row le x xs)
      → P x × All P xs
  unfolding insert_row
  All-uninserted P le x [] a = a
  All-uninserted P le x (y ∷ ys) a = elim (Bool-cases (le x y)) [
    | inl h ↦ let b : P x × (P y × All P ys) = rw h at a in b
    | inr h ↦
        let b : P y × All P (insert_row le x ys) = rw h at a in
        let (p, c) = All-uninserted P le x ys b.1 in (p, (b.0, c))
  ]

  pub All-unordered {κ} :
      (P : A → Type κ) (le : A → A → Bool) (xs : List A) → All P (order_by le xs) → All P xs
  unfolding order_by
  All-unordered P le [] a = tt
  All-unordered P le (x ∷ xs) a =
      let (p, b) = All-uninserted P le x (order_by le xs) a in (p, All-unordered P le xs b)

  -- An UPDATE that leaves the key alone is seen by a search for the key.
  pub first_row-update_rows :
      (p : A → Bool) (guard : A → Bool) (values : A → A)
      → ((x : A) → p (values x) ≡ p x)
      → (xs : List A)
      → first_row p (update_rows guard values xs)
        ≡ Option.map (update_row guard values) (first_row p xs)
  first_row-update_rows p guard values keyed [] = refl
  first_row-update_rows p guard values keyed (x ∷ xs) = elim (Bool-cases (guard x)) [
    | inl g ↦ elim (Bool-cases (p x)) [
      | inl h ↦ rw (g, keyed x, h) (rw g refl)
      | inr h ↦ rw (g, keyed x, h) (first_row-update_rows p guard values keyed xs)
    ]
    | inr g ↦ elim (Bool-cases (p x)) [
      | inl h ↦ rw (g, h) (rw g refl)
      | inr h ↦ rw (g, h) (first_row-update_rows p guard values keyed xs)
    ]
  ]

  -- rows that the key tells from those of the UPDATE are found as they were
  pub first_row-untouched :
      (p : A → Bool) (guard : A → Bool) (values : A → A)
      → ((x : A) → p (values x) ≡ p x)
      → ((x : A) → guard x ≡ true → p x ≡ false)
      → (xs : List A) → first_row p (update_rows guard values xs) ≡ first_row p xs
  first_row-untouched p guard values keyed apart [] = refl
  first_row-untouched p guard values keyed apart (x ∷ xs) = elim (Bool-cases (guard x)) [
    | inl g ↦ rw (g, keyed x, apart x g) (first_row-untouched p guard values keyed apart xs)
    | inr g ↦ elim (Bool-cases (p x)) [
      | inl h ↦ rw (g, h) refl
      | inr h ↦ rw (g, h) (first_row-untouched p guard values keyed apart xs)
    ]
  ]

  -- an UPDATE after which no row matches leaves none, and one that matches none changes nothing
  pub any-update_rows_self :
      (guard : A → Bool) (values : A → A)
      → ((x : A) → guard (values x) ≡ false)
      → (xs : List A) → any guard (update_rows guard values xs) ≡ false
  any-update_rows_self guard values spent [] = refl
  any-update_rows_self guard values spent (x ∷ xs) = elim (Bool-cases (guard x)) [
    | inl g ↦ rw (g, spent x) (any-update_rows_self guard values spent xs)
    | inr g ↦ rw (g, g) (any-update_rows_self guard values spent xs)
  ]

  pub update_rows-none :
      (guard : A → Bool) (values : A → A) (xs : List A)
      → any guard xs ≡ false
      → update_rows guard values xs ≡ xs
  update_rows-none guard values [] h = refl
  update_rows-none guard values (x ∷ xs) h = elim (Bool-cases (guard x)) [
    | inl g ↦ let e : true ≡ false = rw g at h in cc
    | inr g ↦ rw g (ap (λ ys. x ∷ ys) (update_rows-none guard values xs (rw g at h)))
  ]
