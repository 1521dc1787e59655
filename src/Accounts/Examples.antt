-- ===== src/Accounts/Examples.antt =====
-- A small table of accounts, on which the theorems about givEVC-ocppv2/app/auth_store.py and its
-- handlers are applied.
use giv_evc_ocppv.Base.{
  ℕ, ◌+◌, ◌≤◌, ◌<◌, ◌*◌, true, false, ◌&&◌, none, some, [], ◌∷◌, ◌≡◌, refl, if◌then◌else◌, ltb,
  ◌==◌, nat_comparable, text_comparable, any, length, filter, codes, is_digit, strip, text_beq,
}
use giv_evc_ocppv.Accounts.Tables.{
  User, OneTimeCode, Charger, Onboarding, ApiKey, Store, Crypto, is_set,
}
use giv_evc_ocppv.Accounts.Email.{normalise_email}
use giv_evc_ocppv.Accounts.Users.{
  with_disabled, new_user, new_session, user_by_id, user_by_email, with_password, create_user,
  create_session, session_seconds, get_user_for_session, set_user_disabled,
}
use giv_evc_ocppv.Accounts.Codes.{
  issue, verify_email_otp, current_otp, hash_email_otp, usable_reset, reset_password_with_token,
  validate_password_reset_token,
}
use giv_evc_ocppv.Accounts.Totp.{verify_user_totp}
use giv_evc_ocppv.Accounts.Keys.{validate_api_key, revoke_api_key, api_key_expiry_date}
use giv_evc_ocppv.Accounts.Chargers.{
  with_active, new_charger, claim_charger_by_password, pending_onboarding, verify_charger_password,
}
use giv_evc_ocppv.Accounts.Rows.{map_option}
use giv_evc_ocppv.Accounts.Sessions.{
  is_fresh, CanSignIn, login_of, create_session-get_user_for_session,
}
use giv_evc_ocppv.Accounts.SignIn.{Settings, Draws, signed_in, verify_email, login}
use giv_evc_ocppv.Accounts.Admission.{
  HasPassword, login-checks, verify_email-verified, verify_email_otp-checks,
}
use giv_evc_ocppv.Accounts.Passwords.{is_unique, reset_password_with_token-once}
use giv_evc_ocppv.Accounts.Disabled.{Barred, set_user_disabled-Barred}
use giv_evc_ocppv.Accounts.KeyUse.{revoke_api_key-final, api_key_expiry_date-bounds}
use giv_evc_ocppv.Accounts.Registration.{UniqueUsers, create_user-UniqueUsers}
use giv_evc_ocppv.Accounts.Reach.{start, step, registers, Reachable-IsValid}
use giv_evc_ocppv.Accounts.Ownership.{IsValid}
use giv_evc_ocppv.Accounts.OneOpen.{count_open, issue-count_open}
use giv_evc_ocppv.Accounts.Claims.{claim_charger_by_password-verify_charger_password}

-- A cryptography that hides nothing.
abbrev plain : Crypto
plain = record {
  hash_secret = λ secret. secret;
  hash_password = λ salt password. password;
  verify_password = λ password hash. password == hash;
  encrypt_secret = λ secret. secret;
  decrypt_secret = λ secret. secret;
  totp_code = λ secret moment. codes "123456";
}

abbrev ann : User
ann = record (new_user (codes "u1") (codes "ann@site.uk") (codes "ann's secret") none true 50) {
  email_verified_at = some 60;
}

abbrev bob : User
bob = new_user (codes "u2") (codes "bob@site.uk") (codes "bob's secret") none false 70

abbrev bob_code : OneTimeCode
bob_code = record {
  code_id = codes "o1";
  code_user = codes "u2";
  code_hash = codes "email-otp:u2:246810";
  code_created = 80;
  code_expires = 680;
  consumed_at = none;
}

abbrev ann_reset : OneTimeCode
ann_reset = record {
  code_id = codes "r1";
  code_user = codes "u1";
  code_hash = codes "link";
  code_created = 90;
  code_expires = 990;
  consumed_at = none;
}

abbrev ann_key : ApiKey
ann_key = record {
  key_id = codes "k1";
  key_user = codes "u1";
  key_name = codes "meter";
  key_writes = false;
  key_hash = codes "gevc_1";
  key_created = 90;
  key_expires = none;
  key_last_used = none;
  key_revoked = none;
}

abbrev ann_onboarding : Onboarding
ann_onboarding = record {
  onboarding_id = codes "b1";
  onboarding_user = codes "u1";
  onboarding_hash = codes "plug";
  onboarding_created = 90;
  onboarding_expires = 1890;
  onboarding_consumed = none;
}

abbrev tables : Store
tables = record {
  users = ann ∷ bob ∷ [];
  sessions = new_session (codes "old") (codes "u1") 5000 ∷ [];
  otps = bob_code ∷ [];
  resets = ann_reset ∷ [];
  chargers = [];
  onboardings = ann_onboarding ∷ [];
  api_keys = ann_key ∷ [];
}

abbrev draws : Draws
draws = record {
  drawn_user = codes "u3";
  drawn_row = codes "o2";
  drawn_otp = codes "135790";
  drawn_salt = [];
  drawn_token = codes "token";
  now = 100;
  epoch = 100;
}

abbrev settings : Settings
settings = record {
  registration_enabled = true;
  email_verification_enabled = true;
  smtp_configured = true;
}

abbrev cat : User
cat = new_user (codes "u3") (codes "cat@site.uk") (codes "cat's secret") none false 100

-- The tables after ann's password is reset, and after ann is disabled.
abbrev reset_tables : Store
reset_tables = record tables {
  users = with_password (codes "ten letters") 100 ann ∷ bob ∷ [];
  sessions = [];
  resets = record ann_reset { consumed_at = some 100 } ∷ [];
}

abbrev disabled_tables : Store
disabled_tables = record tables {
  users = with_disabled (some 100) 100 ann ∷ bob ∷ [];
  sessions = [];
}

-- Ann's charger, and the tables after it connected for the first time.
abbrev ann_charger : Charger
ann_charger =
    new_charger (codes "c1") (codes "u1") (codes "CP-1") (codes "CP-1") (some (codes "plug")) 100

abbrev claimed : Store
claimed = record tables {
  users = with_active (some (codes "c1")) 100 ann ∷ bob ∷ [];
  chargers = ann_charger ∷ [];
  onboardings = record ann_onboarding { onboarding_consumed = some 100 } ∷ [];
}

abbrev no_rows : Store
no_rows = record {
  users = [];
  sessions = [];
  otps = [];
  resets = [];
  chargers = [];
  onboardings = [];
  api_keys = [];
}

abbrev dan : User
dan = new_user (codes "u1") (codes "dan@site.uk") (codes "dan's secret") none true 100

ann_can : CanSignIn ann
ann_can = record { enabled = refl; verified = refl }

verify_email-verified_example :
    ((verify_email plain draws (codes "ann@site.uk") (codes "000000") tables).0
      ≡ signed_in (codes "token"))
    × (login_of (
          get_user_for_session plain
            (codes "token")
            100
            (verify_email plain draws (codes "ann@site.uk") (codes "000000") tables).1)
        ≡ some (codes "u1"))
unfolding normalise_email user_by_email user_by_id is_fresh text_beq
verify_email-verified_example =
    verify_email-verified plain draws (codes "ann@site.uk") (codes "000000") tables
      {address = codes "ann@site.uk"} {user = ann} refl refl refl ann_can refl refl refl

login-checks_example :
    (user : User) × HasPassword plain (codes "ann@site.uk") (codes "ann's secret") tables user
    × (is_set user.totp_enabled_at ≡ true
        → verify_user_totp plain 100 user.user_id (strip []) tables ≡ true)
unfolding login text_beq
login-checks_example =
    login-checks plain settings draws (codes "ann@site.uk") (codes "ann's secret") []
      (codes "token") tables refl

verify_email_otp-checks_example :
    (row : OneTimeCode) × (current_otp (codes "u2") 100 tables.otps ≡ some row)
    × ((row.code_hash == hash_email_otp plain (codes "u2") (filter is_digit (codes "246-810")))
        ≡ true)
unfolding normalise_email user_by_email verify_email_otp text_beq
verify_email_otp-checks_example =
    verify_email_otp-checks plain 100 (codes "bob@site.uk") (codes "246-810") tables
      {address = codes "bob@site.uk"} {user = bob} refl refl refl refl

create_session-get_user_for_session_example :
    get_user_for_session plain (codes "token") 200 (record tables {
      sessions =
          new_session (codes "old") (codes "u1") 5000
          ∷ new_session (codes "token") (codes "u1") 1209700
          ∷ [];
    })
    ≡ (if ltb 200 (100 + session_seconds) then user_by_id (codes "u1") tables.users else none)
unfolding create_session is_fresh text_beq
create_session-get_user_for_session_example =
    create_session-get_user_for_session plain (codes "token") 100 200 (codes "u1") tables refl refl
      refl

reset_password_with_token-once_example :
    (row : OneTimeCode) × (usable_reset (codes "link") 100 tables.resets ≡ some row)
    × ((later : ℕ)
        → validate_password_reset_token plain later (codes "link") (reset_tables) ≡ false)
    × (any (λ r. r.session_user == row.code_user) reset_tables.sessions ≡ false)
    × (user_by_id row.code_user reset_tables.users
        ≡ map_option
            (with_password (codes "ten letters") 100)
            (user_by_id row.code_user tables.users))
unfolding reset_password_with_token is_unique text_beq
reset_password_with_token-once_example =
    reset_password_with_token-once plain [] 100 (codes "link") (codes "ten letters") tables refl
      refl

set_user_disabled-Barred_example : Barred plain (codes "u1") disabled_tables
unfolding set_user_disabled text_beq
set_user_disabled-Barred_example = set_user_disabled-Barred plain 100 (codes "u1") tables refl

revoke_api_key-final_example :
    (ann_key.key_id == codes "k9" && ann_key.key_user == codes "u1") ≡ false
unfolding validate_api_key revoke_api_key text_beq
revoke_api_key-final_example =
    revoke_api_key-final plain 100 200 (codes "u1") (codes "k9") (codes "gevc_1") tables
      {user = ann} {row = ann_key} refl

api_key_expiry_date-bounds_example : (100 < 2592000) × (2592000 ≤ 100 + 365 * 86400)
unfolding api_key_expiry_date text_beq strip
api_key_expiry_date-bounds_example = api_key_expiry_date-bounds 100 (codes " 30D ") refl

create_user-UniqueUsers_example :
    UniqueUsers (ann ∷ bob ∷ cat ∷ []) × (cat.is_admin ≡ (length tables.users == 0))
unfolding create_user UniqueUsers text_beq strip
create_user-UniqueUsers_example =
    create_user-UniqueUsers plain (codes "u3") [] 100 (codes " Cat@site.uk") (codes "cat's secret")
      none tables (refl, (refl, tt)) refl

claim_charger_by_password-verify_charger_password_example :
    (onboarding : Onboarding) × (pending_onboarding (codes "plug") 100 tables.onboardings
      ≡ some onboarding)
    × (ann_charger.owner_id ≡ onboarding.onboarding_user)
    × (ann_charger.charge_point_id ≡ strip (codes "CP-1"))
    × (verify_charger_password plain (strip (codes "CP-1")) (codes "plug") claimed ≡ true)
unfolding claim_charger_by_password text_beq strip
claim_charger_by_password-verify_charger_password_example =
    claim_charger_by_password-verify_charger_password plain (codes "c1") 100 (codes "CP-1")
      (codes "plug") tables refl

Reachable-IsValid_example : IsValid (record no_rows { users = dan ∷ [] })
unfolding create_user text_beq
Reachable-IsValid_example =
    Reachable-IsValid (record no_rows { users = dan ∷ [] })
      (step no_rows (record no_rows { users = dan ∷ [] }) (start no_rows refl refl)
        (registers plain (codes "u1") [] 100 (codes "dan@site.uk") (codes "dan's secret") none dan
          no_rows (record no_rows { users = dan ∷ [] }) refl))

issue-count_open_example :
    count_open
      (codes "u2")
      (issue (codes "o9") (codes "u2") (codes "123456") 100 600 (bob_code ∷ []))
    ≡ (if codes "u2" == codes "u2" then 1 else count_open (codes "u2") (bob_code ∷ []))
issue-count_open_example =
    issue-count_open (codes "o9") (codes "u2") (codes "u2") (codes "123456") 100 600 (bob_code ∷ [])
