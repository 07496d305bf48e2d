-- ===== src/Execution/Outcomes/Clean.antt =====
-- Methods that change nothing when they raise: steps that only read, then a tail that is clean.
use agency_os.Prelude.{ℕ, String, ◌≡◌, refl, Bool, true, false, ◌∙◌}
use agency_os.Db.Tables.{Db}
use agency_os.Db.Session.{
  M, AppError, Result, ok, err, ◌>>=◌, and_then, pure, raise, gets, refuse_if,
}

-- `m` changes nothing, whether it returns or raises.
pub record Reads {A : Type 0} (m : M A) : Type 0 where
  pub same : (db : Db) → (m db).1 ≡ db

-- `m` changes nothing when it raises.
pub record Clean {A : Type 0} (m : M A) : Type 0 where
  pub same : (db : Db) (x : AppError) → (m db).0 ≡ err x → (m db).1 ≡ db

pub Reads-gets : {A : Type 0} (f : Db → A) → Reads (gets f)
Reads-gets f = record { same = λ db. refl }

pub Reads-pure : {A : Type 0} (a : A) → Reads (pure a)
Reads-pure a = record { same = λ db. refl }

pub Reads-raise : {A : Type 0} (code : String) (status : ℕ) → Reads (raise {A = A} code status)
Reads-raise code status = record { same = λ db. refl }

pub Reads-refuse_if : (b : Bool) (code : String) (status : ℕ) → Reads (refuse_if b code status)
Reads-refuse_if true code status = record { same = λ db. refl }
Reads-refuse_if false code status = record { same = λ db. refl }

and_then-Clean :
    {A B : Type 0} (r : Result A) (f : A → M B)
    → ((a : A) → Clean (f a))
    → (db : Db) (x : AppError) → (and_then r f db).0 ≡ err x
    → (and_then r f db).1 ≡ db
and_then-Clean (ok a) f g db x h = (g a).same db x h
and_then-Clean (err e) f g db x h = refl

and_then-Reads :
    {A B : Type 0} (r : Result A) (f : A → M B)
    → ((a : A) → Reads (f a))
    → (db : Db) → (and_then r f db).1 ≡ db
and_then-Reads (ok a) f g db = (g a).same db
and_then-Reads (err e) f g db = refl

pub Reads-bind :
    {A B : Type 0} (m : M A) (f : A → M B) → Reads m → ((a : A) → Reads (f a)) → Reads (m >>= f)
Reads-bind m f rm rf = record { same = λ db. and_then-Reads (m db).0 f rf (m db).1 ∙ rm.same db }

pub Clean-bind :
    {A B : Type 0} (m : M A) (f : A → M B) → Reads m → ((a : A) → Clean (f a)) → Clean (m >>= f)
Clean-bind m f rm cf = record {
  same = λ db x h. and_then-Clean (m db).0 f cf (m db).1 x h ∙ rm.same db;
}

pub ruleset clean_rules =
    (Reads-gets, Reads-pure, Reads-raise, Reads-refuse_if, Reads-bind, Clean-bind)
