-- ===== src/Accounts/Totp.antt =====
-- Two-factor authentication in givEVC-ocppv2/app/auth_store.py. A new secret is an argument; the answer
-- of the setup, which shows it, is left out.
use giv_evc_ocppv.Base.{
  ℕ, ◌+◌, ◌-◌, ◌/◌, Bool, true, false, ◌&&◌, ◌||◌, Option, none, some, ◌==◌, nat_comparable,
  text_comparable, length, filter, Text, is_digit,
}
use giv_evc_ocppv.Accounts.Tables.{
  User, Store, Crypto, Result, ok, ◌>>=◌, ◌>>◌, require, row_or, is_set, no_pending_totp,
  wrong_totp, user_not_found,
}
use giv_evc_ocppv.Accounts.Users.{user_by_id, update_user, user_for_password_check}

-- `_verify_totp`, `epoch` being the time of the clock in seconds since 1970: the code of the step
-- before, of this one or of the next. At step 0 the code before does not exist.
unfoldable pub verify_totp : Crypto → ℕ → Text → Text → Bool
verify_totp crypto epoch secret code =
    let digits = filter is_digit code in
    let step = epoch / 30 in
    length digits == 6
    && (crypto.totp_code secret (step - 1) == digits
        || (crypto.totp_code secret step == digits || crypto.totp_code secret (step + 1) == digits))

abbrev pub with_pending : Text → ℕ → User → User
with_pending ciphertext now user = record user {
  totp_pending_secret = some ciphertext;
  totp_pending_created_at = some now;
  updated_at = now;
}

unfoldable pub create_totp_setup : Crypto → Text → ℕ → Text → Text → Store → Result Store
unfolding user_for_password_check update_user
create_totp_setup crypto secret now id current_password s = do
  user ← user_for_password_check crypto id current_password s
  ok (update_user id (with_pending (crypto.encrypt_secret secret) now) s)

abbrev pub with_totp : Text → ℕ → User → User
with_totp ciphertext now user = record user {
  totp_secret = some ciphertext;
  totp_enabled_at = some now;
  totp_pending_secret = none;
  totp_pending_created_at = none;
  updated_at = now;
}

unfoldable pub enable_totp : Crypto → ℕ → ℕ → Text → Text → Store → Result Store
unfolding user_by_id verify_totp update_user
enable_totp crypto epoch now id code s = do
  user ← row_or (user_by_id id s.users) no_pending_totp
  ciphertext ← row_or user.totp_pending_secret no_pending_totp
  let secret = crypto.decrypt_secret ciphertext
  require (verify_totp crypto epoch secret code) wrong_totp
  ok (update_user id (with_totp (crypto.encrypt_secret secret) now) s)

abbrev pub without_totp : ℕ → User → User
without_totp now user = record user {
  totp_secret = none;
  totp_enabled_at = none;
  totp_pending_secret = none;
  totp_pending_created_at = none;
  updated_at = now;
}

-- True without a secret, or with its code.
unfoldable pub passes_totp : Crypto → ℕ → Option Text → Text → Bool
unfolding verify_totp
passes_totp crypto epoch none code = true
passes_totp crypto epoch (some ciphertext) code =
    verify_totp crypto epoch (crypto.decrypt_secret ciphertext) code

unfoldable pub disable_totp : Crypto → ℕ → ℕ → Text → Text → Text → Store → Result Store
unfolding user_for_password_check passes_totp update_user
disable_totp crypto epoch now id current_password code s = do
  user ← user_for_password_check crypto id current_password s
  require (passes_totp crypto epoch user.totp_secret code) wrong_totp
  ok (update_user id (without_totp now) s)

unfoldable pub reset_user_totp : ℕ → Text → Store → Result Store
unfolding user_by_id update_user
reset_user_totp now id s = do
  user ← row_or (user_by_id id s.users) user_not_found
  ok (update_user id (without_totp now) s)

unfoldable pub requires_totp : Option User → Bool
requires_totp none = false
requires_totp (some user) = is_set user.totp_enabled_at

unfoldable pub user_requires_totp : Text → Store → Bool
unfolding requires_totp user_by_id
user_requires_totp id s = requires_totp (user_by_id id s.users)

-- The answer of a user who has enabled two-factor authentication.
unfoldable pub answers_totp : Crypto → ℕ → Option User → Text → Bool
answers_totp crypto epoch none code = false
answers_totp crypto epoch (some user) code = is_set user.totp_enabled_at && elim user.totp_secret [
  | none ↦ false
  | some ciphertext ↦ verify_totp crypto epoch (crypto.decrypt_secret ciphertext) code
]

unfoldable pub verify_user_totp : Crypto → ℕ → Text → Text → Store → Bool
unfolding answers_totp user_by_id
verify_user_totp crypto epoch id code s = answers_totp crypto epoch (user_by_id id s.users) code
