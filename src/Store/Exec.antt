-- ===== src/Store/Exec.antt =====
-- Statements over the database. Inside `prisma.$transaction` an exception rolls every write back
-- (`Tx`); outside, what was written before the exception stays (`Exec`).
use express_core.Base.{◌⊎◌, inl, inr, ℕ, String, ◌≡◌, refl}
use express_core.Store.{Db}

-- `app` is an AppError with its message and status; `db` an error of the database client; `other`
-- any other Error with its message.
pub data Error : Type 0 where
  app : String → ℕ → Error
  db : String → Error
  other : String → Error

pub data Result {ℓ} (A : Type ℓ) : Type ℓ where
  ok : A → Result A
  err : Error → Result A

abbrev pub Tx : Type 0 → Type 0
Tx A = Db → Result (A × Db)

abbrev pub Exec : Type 0 → Type 0
Exec A = Db → Result A × Db

abbrev pub and_then {ℓ κ} : {A : Type ℓ} {B : Type κ} → Result A → (A → Result B) → Result B
and_then (ok a) f = f a
and_then (err e) f = err e

infixl 5 ◌>>=◌ ◌>>◌
abbrev pub ◌>>=◌ : {A B : Type 0} → Tx A → (A → Tx B) → Tx B
◌>>=◌ m f s = and_then (m s) (λ (r : _ × Db). f r.0 r.1)

abbrev pub ◌>>◌ : {A B : Type 0} → Tx A → Tx B → Tx B
m >> k = m >>= λ _. k

abbrev pub pure : {A : Type 0} → A → Tx A
pure a s = ok (a, s)

abbrev pub throw : {A : Type 0} → Error → Tx A
throw e s = err e

abbrev pub gets : {A : Type 0} → (Db → A) → Tx A
gets f s = ok (f s, s)

abbrev pub modify : (Db → Db) → Tx (Unit {0})
modify f s = ok (tt, f s)

-- prisma.$transaction
abbrev pub transaction : {A : Type 0} → Tx A → Exec A
transaction m s = elim (m s) [ ok r ↦ (ok r.0, r.1) | err e ↦ (err e, s) ]

pub and_then-eq-ok {ℓ κ} :
    {A : Type ℓ} {B : Type κ} (r : Result A) (f : A → Result B) {b : B}
    → and_then r f ≡ ok b
    → (a : A) × (r ≡ ok a) × (f a ≡ ok b)
and_then-eq-ok (ok a) f h = (a, refl, h)
and_then-eq-ok (err e) f h = cc

pub Result-cases {ℓ} :
    {A : Type ℓ} (r : Result A) → ((a : A) × (r ≡ ok a)) ⊎ ((e : Error) × (r ≡ err e))
Result-cases (ok a) = inl (a, refl)
Result-cases (err e) = inr (e, refl)

module _ {A : Type 0} (m : Tx A) (s : Db) where
  pub transaction-ok : (r : A × Db) → m s ≡ ok r → transaction m s ≡ (ok r.0, r.1)
  transaction-ok r h = rw (h, transaction) refl

  pub transaction-err : (e : Error) → m s ≡ err e → transaction m s ≡ (err e, s)
  transaction-err e h = rw (h, transaction) refl
