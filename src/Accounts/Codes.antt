-- ===== src/Accounts/Codes.antt =====
-- One-time codes of givEVC-ocppv2/app/auth_store.py: the codes that verify an address and the tokens
-- that reset a password. Random codes, tokens, identifiers and salts are arguments; the answers that
-- repeat them are left out.
use giv_evc_ocppv.Base.{
  ℕ, ◌+◌, ◌-◌, Bool, true, false, ◌&&◌, not, Option, none, some, List, [], ◌∷◌, ◌++◌, if◌then◌else◌,
  ltb, ◌==◌, nat_comparable, text_comparable, length, find, filter, Text, codes, is_digit,
}
use giv_evc_ocppv.Accounts.Tables.{
  User, OneTimeCode, Store, Crypto, Result, ok, ◌>>=◌, ◌>>◌, require, row_or, is_set, invalid_email,
  weak_password, account_unavailable, already_verified, wait_before_resend, malformed_code,
  wrong_code, invalid_reset_link, user_not_found, update_where, latest_by,
}
use giv_evc_ocppv.Accounts.Email.{normalise_email}
use giv_evc_ocppv.Accounts.Users.{
  user_by_id, user_by_email, update_user, with_password, end_sessions, is_long_enough,
}

abbrev pub is_open : OneTimeCode → Bool
is_open row = not (is_set row.consumed_at)

abbrev pub consume : ℕ → OneTimeCode → OneTimeCode
consume now row = record row { consumed_at = some now }

-- `SET consumed_at = ? WHERE user_id = ? AND consumed_at IS NULL`
unfoldable pub consume_open : Text → ℕ → List OneTimeCode → List OneTimeCode
unfolding update_where
consume_open id now rows =
    update_where (λ row. row.code_user == id && is_open row) (consume now) rows

-- The open codes of the user are consumed, and a new one is inserted.
unfoldable pub issue : Text → Text → Text → ℕ → ℕ → List OneTimeCode → List OneTimeCode
unfolding consume_open
issue row_id id hash now seconds rows =
    consume_open id now rows
    ++ record {
      code_id = row_id;
      code_user = id;
      code_hash = hash;
      code_created = now;
      code_expires = now + seconds;
      consumed_at = none;
    }
      ∷ []

abbrev pub otp_seconds : ℕ
otp_seconds = 600

abbrev pub resend_seconds : ℕ
resend_seconds = 30

abbrev pub reset_seconds : ℕ
reset_seconds = 900

unfoldable pub hash_email_otp : Crypto → Text → Text → Text
hash_email_otp crypto id otp = crypto.hash_secret (codes "email-otp:" ++ (id ++ (codes ":" ++ otp)))

abbrev pub issue_otp : Crypto → Text → Text → ℕ → Text → Store → Store
issue_otp crypto row_id otp now id s = record s {
  otps = issue row_id id (hash_email_otp crypto id otp) now otp_seconds s.otps;
}

-- The account is there, enabled, and its address not verified yet.
unfoldable pub unverified : Option User → Result User
unverified row = do
  user ← row_or row account_unavailable
  require (not (is_set user.disabled_at)) account_unavailable
  require (not (is_set user.email_verified_at)) already_verified
  ok user

unfoldable pub create_email_verification_otp :
    Crypto → Text → Text → ℕ → Text → Store → Result Store
unfolding unverified user_by_id hash_email_otp issue
create_email_verification_otp crypto row_id otp now id s = do
  user ← unverified (user_by_id id s.users)
  ok (issue_otp crypto row_id otp now id s)

-- Less than half a minute has passed since the last code.
unfoldable pub too_early : ℕ → Option OneTimeCode → Bool
too_early now none = false
too_early now (some row) = ltb (now - row.code_created) resend_seconds

unfoldable pub resend_email_verification_otp :
    Crypto → Text → Text → ℕ → Text → Store → Result Store
unfolding unverified user_by_email normalise_email too_early latest_by hash_email_otp issue
resend_email_verification_otp crypto row_id otp now email s = do
  address ← row_or (normalise_email email) invalid_email
  user ← unverified (user_by_email address s.users)
  let latest =
      latest_by (λ row. row.code_created) (filter (λ row. row.code_user == user.user_id) s.otps)
  require (not (too_early now latest)) wait_before_resend
  ok (issue_otp crypto row_id otp now user.user_id s)

abbrev pub with_verified : ℕ → User → User
with_verified now user = record user { email_verified_at = some now; updated_at = now }

-- The code that an answer is compared with: the latest that is open and has not expired.
unfoldable pub current_otp : Text → ℕ → List OneTimeCode → Option OneTimeCode
unfolding latest_by
current_otp id now rows =
    latest_by (λ row. row.code_created)
      (filter (λ row. row.code_user == id && (is_open row && ltb now row.code_expires)) rows)

-- The part for an account whose address is not verified.
unfoldable pub verify_current : Crypto → Text → ℕ → User → Store → Result (User × Store)
unfolding current_otp hash_email_otp update_user update_where
verify_current crypto otp now user s = do
  row ← row_or (current_otp user.user_id now s.otps) wrong_code
  require (row.code_hash == hash_email_otp crypto user.user_id otp) wrong_code
  let consumed = record s {
    otps = update_where (λ r. r.code_id == row.code_id) (consume now) s.otps;
  }
  ok (with_verified now user, update_user user.user_id (with_verified now) consumed)

unfoldable pub verify_email_otp : Crypto → ℕ → Text → Text → Store → Result (User × Store)
unfolding normalise_email user_by_email verify_current
verify_email_otp crypto now email otp s = do
  address ← row_or (normalise_email email) invalid_email
  require (length (filter is_digit otp) == 6) malformed_code
  user ← row_or (user_by_email address s.users) account_unavailable
  require (not (is_set user.disabled_at)) account_unavailable
  if is_set user.email_verified_at
      then ok (user, s)
      else verify_current crypto (filter is_digit otp) now user s

unfoldable pub mark_user_email_verified : ℕ → Text → Store → Result Store
unfolding user_by_id consume_open update_user
mark_user_email_verified now id s = do
  user ← row_or (user_by_id id s.users) user_not_found
  ok (update_user id (with_verified now) (record s { otps = consume_open id now s.otps }))

-- Whether a token was made; none is for an address without an enabled account.
unfoldable pub issue_reset : Crypto → Text → Text → ℕ → Option User → Store → Bool × Store
unfolding issue
issue_reset crypto row_id token now none s = (false, s)
issue_reset crypto row_id token now (some user) s = (
  true,
  record s {
    resets = issue row_id user.user_id (crypto.hash_secret token) now reset_seconds s.resets;
  },
)

unfoldable pub enabled_by_email : Option Text → List User → Option User
enabled_by_email none users = none
enabled_by_email (some address) users =
    find (λ u. u.email == address && not (is_set u.disabled_at)) users

unfoldable pub create_password_reset_token : Crypto → Text → Text → ℕ → Text → Store → Bool × Store
unfolding issue_reset enabled_by_email normalise_email
create_password_reset_token crypto row_id token now email s =
    issue_reset crypto row_id token now (enabled_by_email (normalise_email email) s.users) s

-- The row of a token that has neither been consumed nor expired.
unfoldable pub usable_reset : Text → ℕ → List OneTimeCode → Option OneTimeCode
usable_reset hash now rows =
    find (λ row. row.code_hash == hash && (is_open row && ltb now row.code_expires)) rows

unfoldable pub validate_password_reset_token : Crypto → ℕ → Text → Store → Bool
unfolding usable_reset
validate_password_reset_token crypto now token s =
    is_set (usable_reset (crypto.hash_secret token) now s.resets)

unfoldable pub use_reset : Crypto → Text → ℕ → Text → OneTimeCode → Store → Store
unfolding update_user end_sessions update_where
use_reset crypto salt now new row s =
    let changed = update_user row.code_user (with_password (crypto.hash_password salt new) now) s in
    let ended = end_sessions row.code_user changed in
    record ended {
      resets = update_where (λ r. r.code_id == row.code_id) (consume now) ended.resets;
    }

unfoldable pub reset_password_with_token : Crypto → Text → ℕ → Text → Text → Store → Result Store
unfolding usable_reset use_reset
reset_password_with_token crypto salt now token new s = do
  require (is_long_enough new) weak_password
  row ← row_or (usable_reset (crypto.hash_secret token) now s.resets) invalid_reset_link
  ok (use_reset crypto salt now new row s)
