-- ===== src/Accounts/Inversion.antt =====
-- What a method of givEVC-ocppv2/app/auth_store.py has passed when it does not raise.
use giv_evc_ocppv.Base.{Bool, true, false, Option, none, some, ◌≡◌, refl, ◌⊎◌, inl, inr}
use giv_evc_ocppv.Accounts.Tables.{Result, ok, err, Error, ◌>>=◌, ◌>>◌, require, row_or}

pub ok_inj {ℓ} : {A : Type ℓ} {a b : A} → ok a ≡ ok b → a ≡ b
ok_inj h = cc

pub require-ok {ℓ} :
    {B : Type ℓ} (test : Bool) (e : Error) (rest : Result B) {b : B}
    → (require test e >> rest) ≡ ok b
    → (test ≡ true) × (rest ≡ ok b)
require-ok true e rest h = (refl, h)
require-ok false e rest h = cc

pub row_or-ok {ℓ κ} :
    {A : Type ℓ} {B : Type κ} (row : Option A) (e : Error) (f : A → Result B) {b : B}
    → (row_or row e >>= f) ≡ ok b
    → (a : A) × (row ≡ some a) × (f a ≡ ok b)
row_or-ok none e f h = cc
row_or-ok (some a) e f h = (a, refl, h)

pub Result-cases {ℓ} :
    {A : Type ℓ} (m : Result A) → ((e : Error) × (m ≡ err e)) ⊎ ((a : A) × (m ≡ ok a))
Result-cases (err e) = inl (e, refl)
Result-cases (ok a) = inr (a, refl)

-- The statement after a method that did not raise.
pub then-ok {ι} :
    {Row : Type ι} {Last : Type ι} (next : Row → Result Last) (first : Result Row) {last : Last}
    → (first >>= next) ≡ ok last
    → (row : Row) × (next row ≡ ok last)
then-ok next (err raised) h = cc
then-ok next (ok row) h = (row, h)
