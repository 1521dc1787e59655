-- ===== src/Accounts/Users.antt =====
-- Users, passwords and login sessions of givEVC-ocppv2/app/auth_store.py. Random identifiers, tokens
-- and salts, and the clock, are arguments.
use giv_evc_ocppv.Base.{
  ℕ, ◌+◌, Bool, false, ◌&&◌, ◌||◌, not, Option, none, some, List, [], ◌∷◌, ◌++◌, if◌then◌else◌, ltb,
  leb, ◌==◌, nat_comparable, text_comparable, length, any, find, Text, codes, strip,
}
use giv_evc_ocppv.Accounts.Tables.{
  User, LoginSession, Store, Crypto, Result, ok, ◌>>=◌, ◌>>◌, require, row_or, is_set,
  invalid_email, email_taken, weak_password, wrong_password, account_disabled,
  verification_required, user_not_found, wrong_theme, update_where, delete_where,
}
use giv_evc_ocppv.Accounts.Email.{normalise_email, is_nonempty, lower}

-- `WHERE id = ?` and `WHERE email = ?`; both are unique.
unfoldable pub user_by_id : Text → List User → Option User
user_by_id id users = find (λ u. u.user_id == id) users

unfoldable pub user_by_email : Text → List User → Option User
user_by_email address users = find (λ u. u.email == address) users

unfoldable pub update_user : Text → (User → User) → Store → Store
unfolding update_where
update_user id change s = record s { users = update_where (λ u. u.user_id == id) change s.users }

-- `_validate_password`
abbrev pub is_long_enough : Text → Bool
is_long_enough password = leb 10 (length password)

-- The rows that make an insertion fail: another user has the identifier or the address.
unfoldable pub is_taken : Text → Text → List User → Bool
is_taken id address users = any (λ u. u.user_id == id || u.email == address) users

abbrev pub new_user : Text → Text → Text → Option Text → Bool → ℕ → User
new_user id address hash display_name admin now = record {
  user_id = id;
  email = address;
  password_hash = hash;
  display_name = display_name;
  is_admin = admin;
  disabled_at = none;
  active_charger_id = none;
  email_verified_at = none;
  totp_secret = none;
  totp_enabled_at = none;
  totp_pending_secret = none;
  totp_pending_created_at = none;
  is_demo = false;
  theme_preference = none;
  created_at = now;
  updated_at = now;
}

-- The first user is an administrator.
unfoldable pub create_user :
    Crypto → Text → Text → ℕ → Text → Text → Option Text → Store → Result (User × Store)
unfolding is_taken normalise_email
create_user crypto id salt now email password display_name s = do
  address ← row_or (normalise_email email) invalid_email
  require (is_long_enough password) weak_password
  require (not (is_taken id address s.users)) email_taken
  let hash = crypto.hash_password salt password
  let user = new_user id address hash display_name (length s.users == 0) now
  ok (user, record s { users = s.users ++ user ∷ [] })

-- None where the row is none, the password is wrong or the account is disabled.
unfoldable pub admitted : Crypto → Text → Option User → Option User
admitted crypto password none = none
admitted crypto password (some user) =
    if crypto.verify_password password user.password_hash && not (is_set user.disabled_at)
    then some user
    else none

unfoldable pub authenticate_password : Crypto → Text → Text → Store → Result (Option User)
unfolding admitted user_by_email normalise_email
authenticate_password crypto email password s = do
  address ← row_or (normalise_email email) invalid_email
  ok (admitted crypto password (user_by_email address s.users))

abbrev pub session_seconds : ℕ
session_seconds = 1209600

abbrev pub new_session : Text → Text → ℕ → LoginSession
new_session hash id expires = record {
  session_hash = hash;
  session_user = id;
  session_expires = expires;
}

unfoldable pub create_session : Crypto → Text → ℕ → Text → Store → Result Store
unfolding user_by_id
create_session crypto token now id s = do
  user ← row_or (user_by_id id s.users) account_disabled
  require (not (is_set user.disabled_at)) account_disabled
  require (is_set user.email_verified_at) verification_required
  ok (record s {
    sessions = s.sessions ++ new_session (crypto.hash_secret token) id (now + session_seconds) ∷ [];
  })

-- The user of a row of `sessions`, unless disabled.
unfoldable pub session_owner : Option LoginSession → List User → Option User
unfolding user_by_id
session_owner none users = none
session_owner (some session) users =
    find (λ u. u.user_id == session.session_user && not (is_set u.disabled_at)) users

unfoldable pub live_session : Text → ℕ → List LoginSession → Option LoginSession
live_session hash now sessions =
    find (λ r. r.session_hash == hash && ltb now r.session_expires) sessions

unfoldable pub get_user_for_session : Crypto → Text → ℕ → Store → Option User
unfolding session_owner live_session
get_user_for_session crypto token now s =
    if is_nonempty token
    then session_owner (live_session (crypto.hash_secret token) now s.sessions) s.users
    else none

unfoldable pub delete_session : Crypto → Text → Store → Store
unfolding delete_where
delete_session crypto token s =
    if is_nonempty token
    then record s {
      sessions = delete_where (λ r. r.session_hash == crypto.hash_secret token) s.sessions;
    }
    else s

-- `DELETE FROM sessions WHERE user_id = ?`
unfoldable pub end_sessions : Text → Store → Store
unfolding delete_where
end_sessions id s = record s { sessions = delete_where (λ r. r.session_user == id) s.sessions }

-- `DELETE FROM sessions WHERE user_id = ? AND id <> ?`
unfoldable pub end_other_sessions : Text → Text → Store → Store
unfolding delete_where
end_other_sessions id kept s = record s {
  sessions = delete_where (λ r. r.session_user == id && not (r.session_hash == kept)) s.sessions;
}

abbrev pub with_password : Text → ℕ → User → User
with_password hash now user = record user { password_hash = hash; updated_at = now }

-- `_user_for_password_check`
unfoldable pub user_for_password_check : Crypto → Text → Text → Store → Result User
unfolding user_by_id
user_for_password_check crypto id password s = do
  user ← row_or (user_by_id id s.users) wrong_password
  require (crypto.verify_password password user.password_hash) wrong_password
  ok user

-- An empty `keep_session_token` ends no session.
unfoldable pub change_password :
    Crypto → Text → ℕ → Text → Text → Text → Text → Store → Result Store
unfolding user_for_password_check update_user end_other_sessions
change_password crypto salt now id current new keep_session_token s = do
  require (is_long_enough new) weak_password
  user ← user_for_password_check crypto id current s
  let changed = update_user id (with_password (crypto.hash_password salt new) now) s
  ok (
      if is_nonempty keep_session_token
      then end_other_sessions id (crypto.hash_secret keep_session_token) changed
      else changed)

abbrev pub with_theme : Text → ℕ → User → User
with_theme preference now user = record user {
  theme_preference = some preference;
  updated_at = now;
}

abbrev pub is_theme : Text → Bool
is_theme text = text == codes "light" || (text == codes "dark" || text == codes "system")

unfoldable pub set_user_theme_preference : ℕ → Text → Text → Store → Result Store
unfolding user_by_id update_user
set_user_theme_preference now id preference s = do
  let theme = lower (strip preference)
  require (is_theme theme) wrong_theme
  user ← row_or (user_by_id id s.users) user_not_found
  ok (update_user id (with_theme theme now) s)

abbrev pub with_disabled : Option ℕ → ℕ → User → User
with_disabled moment now user = record user { disabled_at = moment; updated_at = now }

unfoldable pub set_user_disabled : ℕ → Text → Bool → Store → Result Store
unfolding user_by_id update_user end_sessions
set_user_disabled now id disabled s = do
  user ← row_or (user_by_id id s.users) user_not_found
  ok (
      if disabled
      then end_sessions id (update_user id (with_disabled (some now) now) s)
      else update_user id (with_disabled none now) s)

-- The rows that refer to the user go with the user (`ON DELETE CASCADE`).
unfoldable pub delete_user : Text → Store → Result Store
unfolding user_by_id delete_where
delete_user id s = do
  user ← row_or (user_by_id id s.users) user_not_found
  ok (record {
    users = delete_where (λ u. u.user_id == id) s.users;
    sessions = delete_where (λ r. r.session_user == id) s.sessions;
    otps = delete_where (λ r. r.code_user == id) s.otps;
    resets = delete_where (λ r. r.code_user == id) s.resets;
    chargers = delete_where (λ r. r.owner_id == id) s.chargers;
    onboardings = delete_where (λ r. r.onboarding_user == id) s.onboardings;
    api_keys = delete_where (λ r. r.key_user == id) s.api_keys;
  })
