-- ===== src/Accounts/Tables.antt =====
-- The tables of givEVC-ocppv2/app/auth_store.py as lists of rows, what the code asks of SQLite on them,
-- and the cryptography that it calls. A method that raises inside its transaction leaves the tables as
-- they were, so a method is a function to a result that holds the tables it commits.
use giv_evc_ocppv.Base.{
  ℕ, Bool, true, false, not, Option, none, some, List, [], ◌∷◌, if◌then◌else◌, ltb, Text, filter,
}

-- Moments are seconds since 0001-01-01T00:00:00 UTC.
pub record User : Type 0 where
  pub user_id : Text
  pub email : Text
  pub password_hash : Text
  pub display_name : Option Text
  pub is_admin : Bool
  pub disabled_at : Option ℕ
  pub active_charger_id : Option Text
  pub email_verified_at : Option ℕ
  pub totp_secret : Option Text
  pub totp_enabled_at : Option ℕ
  pub totp_pending_secret : Option Text
  pub totp_pending_created_at : Option ℕ
  pub is_demo : Bool
  pub theme_preference : Option Text
  pub created_at : ℕ
  pub updated_at : ℕ

-- The row of a session has the hash of its token for its identifier.
pub record LoginSession : Type 0 where
  pub session_hash : Text
  pub session_user : Text
  pub session_expires : ℕ

-- A row of `email_verification_otps` or of `password_reset_tokens`.
pub record OneTimeCode : Type 0 where
  pub code_id : Text
  pub code_user : Text
  pub code_hash : Text
  pub code_created : ℕ
  pub code_expires : ℕ
  pub consumed_at : Option ℕ

pub record Charger : Type 0 where
  pub charger_id : Text
  pub owner_id : Text
  pub charge_point_id : Text
  pub charger_name : Text
  pub ocpp_password_hash : Option Text
  pub went_offline_at : Option ℕ
  pub adopted_at : ℕ
  pub deleted_at : Option ℕ

pub record Onboarding : Type 0 where
  pub onboarding_id : Text
  pub onboarding_user : Text
  pub onboarding_hash : Text
  pub onboarding_created : ℕ
  pub onboarding_expires : ℕ
  pub onboarding_consumed : Option ℕ

-- `key_expires` is the first moment of the day of expiry.
pub record ApiKey : Type 0 where
  pub key_id : Text
  pub key_user : Text
  pub key_name : Text
  pub key_writes : Bool
  pub key_hash : Text
  pub key_created : ℕ
  pub key_expires : Option ℕ
  pub key_last_used : Option ℕ
  pub key_revoked : Option ℕ

pub record Store : Type 0 where
  pub users : List User
  pub sessions : List LoginSession
  pub otps : List OneTimeCode
  pub resets : List OneTimeCode
  pub chargers : List Charger
  pub onboardings : List Onboarding
  pub api_keys : List ApiKey

-- Hashes, encryption and one-time passwords, which the code takes from its libraries: `_hash_secret`,
-- `_hash_password` with its salt, `_verify_password`, `_encrypt_secret`, `_decrypt_secret` and
-- `_totp_code` of a secret and a step of thirty seconds.
pub record Crypto : Type 0 where
  pub hash_secret : Text → Text
  pub hash_password : Text → Text → Text
  pub verify_password : Text → Text → Bool
  pub encrypt_secret : Text → Text
  pub decrypt_secret : Text → Text
  pub totp_code : Text → ℕ → Text

pub data Error : Type 0 where
  invalid_email email_taken weak_password wrong_password : Error
  account_unavailable account_disabled already_verified verification_required : Error
  wait_before_resend malformed_code wrong_code invalid_reset_link : Error
  no_pending_totp wrong_totp user_not_found : Error
  charger_not_found charger_taken missing_charge_point_id : Error
  missing_key_name long_key_name wrong_scope wrong_expiry wrong_theme : Error

-- `raise ValueError`, or what the method returns.
pub data Result {κ} (Answer : Type κ) : Type κ where
  err : Error → Result Answer
  ok : Answer → Result Answer

infixl 6 ◌>>◌ ◌>>=◌
-- The next statement of a method, which is reached when the last one has not raised.
abbrev pub ◌>>=◌ {κ ι} :
    {Row : Type κ} {Answer : Type ι} → Result Row → (Row → Result Answer) → Result Answer
err raised >>= next = err raised
ok row >>= next = next row

abbrev pub ◌>>◌ {κ} : {Answer : Type κ} → Result (Unit {0}) → Result Answer → Result Answer
err raised >> next = err raised
ok passed >> next = next

-- `if not test: raise`
abbrev pub require : Bool → Error → Result (Unit {0})
require false raised = err raised
require true raised = ok tt

-- `if row is None: raise`
abbrev pub row_or {ℓ} : {A : Type ℓ} → Option A → Error → Result A
row_or none e = err e
row_or (some a) e = ok a

abbrev pub is_set {ℓ} : {A : Type ℓ} → Option A → Bool
is_set none = false
is_set (some a) = true

module _ {ℓ} {A : Type ℓ} where
  -- `UPDATE … SET … WHERE`
  unfoldable pub update_where : (A → Bool) → (A → A) → List A → List A
  update_where test change [] = []
  update_where test change (row ∷ rows) =
      (if test row then change row else row) ∷ update_where test change rows

  -- `DELETE FROM … WHERE`
  unfoldable pub delete_where : (A → Bool) → List A → List A
  delete_where test rows = filter (λ row. not (test row)) rows

  -- `ORDER BY … DESC LIMIT 1`: of rows of the same moment the later one.
  unfoldable pub latest_by : (A → ℕ) → List A → Option A
  latest_by moment [] = none
  latest_by moment (row ∷ rows) = elim (latest_by moment rows) [
    | none ↦ some row
    | some other ↦ if ltb (moment other) (moment row) then some row else some other
  ]
