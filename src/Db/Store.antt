-- ===== src/Db/Store.antt =====
-- A service method on a store of any type, for the services whose tables stand apart from
-- `Db.Tables.Db`: it returns a result or raises, and leaves a store.
use agency_os.Prelude.{ℕ, String, Bool, true, false, Option, none, some}
use agency_os.Db.Session.{Result, ok, err}

abbrev pub Action : Type 0 → Type 0 → Type 0
Action S A = S → Result A × S

module _ {S : Type 0} where
  abbrev pub and_then : {A B : Type 0} → Result A → (A → Action S B) → Action S B
  and_then (ok a) f s = f a s
  and_then (err e) f s = (err e, s)

  infixl 10 ◌>>=◌ ◌>>◌
  abbrev pub ◌>>=◌ : {A B : Type 0} → Action S A → (A → Action S B) → Action S B
  ◌>>=◌ m f s = let (r, s') = m s in and_then r f s'

  abbrev pub ◌>>◌ : {B : Type 0} → Action S (Unit {0}) → Action S B → Action S B
  m >> k = m >>= λ _. k

  abbrev pub pure : {A : Type 0} → A → Action S A
  pure a s = (ok a, s)

  abbrev pub raise : {A : Type 0} → String → ℕ → Action S A
  raise code status s = (err (record { code = code; status_code = status }), s)

  abbrev pub gets : {A : Type 0} → (S → A) → Action S A
  gets f s = (ok (f s), s)

  abbrev pub modify : (S → S) → Action S (Unit {0})
  modify f s = (ok tt, f s)

  -- `if test: raise AppError(...)`
  abbrev pub refuse_if : Bool → String → ℕ → Action S (Unit {0})
  refuse_if true code status = raise code status
  refuse_if false code status = pure tt

  -- `if found is None: raise AppError(...)`
  abbrev pub or_raise : {A : Type 0} → Option A → String → ℕ → Action S A
  or_raise none code status = raise code status
  or_raise (some a) code status = pure a

  -- a request whose session is closed without a commit when it raises
  abbrev kept : {A : Type 0} → Result A → S → S → S
  kept (ok a) before after = after
  kept (err e) before after = before

  abbrev pub rolled_back : {A : Type 0} → Action S A → Action S A
  rolled_back m s = let (r, s') = m s in (r, kept r s s')
