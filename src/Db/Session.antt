-- ===== src/Db/Session.antt =====
-- A service method runs in a session: it reads and writes the database and may raise `AppError`.
-- Every method of the modelled services commits at its end, and rolls back only after a guarded
-- UPDATE that matched no row, so what stays after an error is what was there before it.
use agency_os.Prelude.{ℕ, String, Bool, true, false}
use agency_os.Db.Tables.{Db}

-- core/errors.py; the message is left out
pub record AppError : Type 0 where
  pub code : String
  pub status_code : ℕ

pub data Result {ℓ} (A : Type ℓ) : Type ℓ where
  ok : A → Result A
  err : AppError → Result A

abbrev pub M : Type 0 → Type 0
M A = Db → Result A × Db

abbrev pub and_then : {A B : Type 0} → Result A → (A → M B) → M B
and_then (ok a) f db = f a db
and_then (err e) f db = (err e, db)

infixl 10 ◌>>=◌ ◌>>◌
abbrev pub ◌>>=◌ : {A B : Type 0} → M A → (A → M B) → M B
◌>>=◌ m f db = let (r, db') = m db in and_then r f db'

abbrev pub ◌>>◌ : {B : Type 0} → M (Unit {0}) → M B → M B
m >> k = m >>= λ _. k

abbrev pub pure : {A : Type 0} → A → M A
pure a db = (ok a, db)

abbrev pub raise : {A : Type 0} → String → ℕ → M A
raise code status db = (err (record { code = code; status_code = status }), db)

abbrev pub gets : {A : Type 0} → (Db → A) → M A
gets f db = (ok (f db), db)

abbrev pub modify : (Db → Db) → M (Unit {0})
modify f db = (ok tt, f db)

-- `if test: raise AppError(...)`
abbrev pub refuse_if : Bool → String → ℕ → M (Unit {0})
refuse_if true code status = raise code status
refuse_if false code status = pure tt
