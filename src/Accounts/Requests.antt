-- ===== src/Accounts/Requests.antt =====
-- The handlers of givEVC-ocppv2/app/main.py for the account of the user who has signed in and for
-- administrators. The portal log of the administration and the lists in the answers are left out.
use giv_evc_ocppv.Base.{
  ℕ, Bool, true, false, not, none, some, if◌then◌else◌, ◌==◌, text_comparable, Text, codes,
}
use giv_evc_ocppv.Accounts.Tables.{User, Store, Crypto, Result, ok, err}
use giv_evc_ocppv.Accounts.Email.{is_nonempty}
use giv_evc_ocppv.Accounts.Users.{
  user_by_id, get_user_for_session, set_user_theme_preference, change_password, set_user_disabled,
  delete_user,
}
use giv_evc_ocppv.Accounts.Codes.{mark_user_email_verified}
use giv_evc_ocppv.Accounts.Totp.{create_totp_setup, enable_totp, disable_totp, reset_user_totp}
use giv_evc_ocppv.Accounts.Chargers.{
  is_demo_user, create_onboarding_session, delete_onboarding_session,
}
use giv_evc_ocppv.Accounts.Keys.{create_api_key, revoke_api_key}
use giv_evc_ocppv.Accounts.SignIn.{Response, done, refused, Draws, store_or}

-- The requests of an account with the fields of their bodies.
pub data AccountRequest : Type 0 where
  theme_change : Text → AccountRequest
  password_change : Text → Text → Text → AccountRequest
  totp_setup : Text → AccountRequest
  totp_enabling : Text → AccountRequest
  totp_disabling : Text → Text → AccountRequest
  key_creation : Text → Text → Text → AccountRequest
  key_revocation : Text → AccountRequest
  self_deletion onboarding_creation : AccountRequest
  onboarding_deletion : Text → AccountRequest

-- `except ValueError`, with the status that the handler gives it.
abbrev pub answer_of : ℕ → Store → Result Store → Response × Store
answer_of status s (err e) = (refused status, s)
answer_of status s (ok after) = (done, after)

-- A method that says whether it found the row.
abbrev pub found_or : Bool × Store → Response × Store
found_or (true, s) = (done, s)
found_or (false, s) = (refused 404, s)

-- `str(body.get("expiry") or "90")`
abbrev pub expiry_or : Text → Text
expiry_or expiry = if is_nonempty expiry then expiry else codes "90"

-- What the demonstration account may not do.
abbrev pub unless_demo : User → Store → Response × Store → Response × Store
unless_demo user s answer = if user.is_demo then (refused 403, s) else answer

-- The handlers, for the user of the session with the cookie.
unfoldable pub handle_account :
    Crypto → Draws → Text → AccountRequest → User → Store → Response × Store
unfolding set_user_theme_preference change_password create_totp_setup enable_totp disable_totp
    create_api_key revoke_api_key delete_user create_onboarding_session delete_onboarding_session
    store_or
handle_account crypto draws cookie (theme_change preference) user s =
    answer_of 400 s (set_user_theme_preference draws.now user.user_id preference s)
handle_account crypto draws cookie (password_change current new confirmed) user s =
    unless_demo user s (
      if not (new == confirmed)
      then (refused 400, s)
      else answer_of 400 s
          (change_password crypto draws.drawn_salt draws.now user.user_id current new cookie s))
handle_account crypto draws cookie (totp_setup password) user s =
    unless_demo user s (
      answer_of 400 s
        (create_totp_setup crypto draws.drawn_token draws.now user.user_id password s))
handle_account crypto draws cookie (totp_enabling code) user s =
    unless_demo user s
      (answer_of 400 s (enable_totp crypto draws.epoch draws.now user.user_id code s))
handle_account crypto draws cookie (totp_disabling password code) user s =
    unless_demo user s
      (answer_of 400 s (disable_totp crypto draws.epoch draws.now user.user_id password code s))
handle_account crypto draws cookie (key_creation name scope expiry) user s = answer_of 400 s (
    create_api_key crypto draws.drawn_row draws.drawn_token draws.now user.user_id name scope
      (expiry_or expiry) s)
handle_account crypto draws cookie (key_revocation key) user s =
    found_or (revoke_api_key draws.now user.user_id key s)
handle_account crypto draws cookie self_deletion user s =
    unless_demo user s (answer_of 500 s (delete_user user.user_id s))
handle_account crypto draws cookie onboarding_creation user s = unless_demo user s (
  done,
  create_onboarding_session crypto draws.drawn_row draws.drawn_token draws.now user.user_id s,
)
handle_account crypto draws cookie (onboarding_deletion row) user s =
    found_or (delete_onboarding_session user.user_id row s)

-- `auth_middleware` before a handler of an account: without a session nothing is done.
unfoldable pub account_request : Crypto → Draws → Text → AccountRequest → Store → Response × Store
unfolding handle_account get_user_for_session
account_request crypto draws cookie request s =
    elim (get_user_for_session crypto cookie draws.now s) [
      | none ↦ (refused 401, s)
      | some user ↦ handle_account crypto draws cookie request user s
    ]

-- The requests of an administrator with the identifier of the user that they are about.
pub data AdminRequest : Type 0 where
  disabling : Text → Bool → AdminRequest
  totp_reset address_verification user_deletion : Text → AdminRequest

-- What an administrator may not do to the account in use.
abbrev pub unless_own : User → Text → Store → Response × Store → Response × Store
unless_own admin target s answer = if target == admin.user_id then (refused 400, s) else answer

unfoldable pub handle_admin : Draws → AdminRequest → User → Store → Response × Store
unfolding set_user_disabled reset_user_totp mark_user_email_verified delete_user user_by_id
    is_demo_user
handle_admin draws (disabling target disabled) admin s =
    unless_own admin target s (answer_of 400 s (set_user_disabled draws.now target disabled s))
handle_admin draws (totp_reset target) admin s =
    unless_own admin target s (answer_of 400 s (reset_user_totp draws.now target s))
handle_admin draws (address_verification target) admin s =
    answer_of 400 s (mark_user_email_verified draws.now target s)
handle_admin draws (user_deletion target) admin s = unless_own admin target s (
    if is_demo_user (user_by_id target s.users)
    then (refused 400, s)
    else answer_of 404 s (delete_user target s))

-- `auth_middleware` and `_require_admin`.
unfoldable pub admin_request : Crypto → Draws → Text → AdminRequest → Store → Response × Store
unfolding handle_admin get_user_for_session
admin_request crypto draws cookie request s =
    elim (get_user_for_session crypto cookie draws.now s) [
      | none ↦ (refused 401, s)
      | some user ↦ if user.is_admin then handle_admin draws request user s else (refused 403, s)
    ]
