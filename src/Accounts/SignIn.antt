-- ===== src/Accounts/SignIn.antt =====
-- The handlers of givEVC-ocppv2/app/main.py by which a browser gets a login session: registration,
-- login, verification of the address, and the forgotten password. What they draw at random, the clock
-- and the settings are arguments. That an e-mail cannot be sent is logged and changes no answer here.
use giv_evc_ocppv.Base.{
  ℕ, Bool, false, not, ◌&&◌, Option, none, some, [], ◌∷◌, if◌then◌else◌, ◌==◌, text_comparable,
  Text, strip,
}
use giv_evc_ocppv.Accounts.Tables.{User, Store, Crypto, Result, ok, err, is_set}
use giv_evc_ocppv.Accounts.Email.{lower, is_nonempty}
use giv_evc_ocppv.Accounts.Users.{
  create_user, authenticate_password, create_session, delete_session,
}
use giv_evc_ocppv.Accounts.Codes.{
  create_email_verification_otp, resend_email_verification_otp, verify_email_otp,
  mark_user_email_verified, create_password_reset_token, validate_password_reset_token,
  reset_password_with_token,
}
use giv_evc_ocppv.Accounts.Totp.{verify_user_totp}
use giv_evc_ocppv.Accounts.Chargers.{ensure_active_charger}

-- `signed_in` sets the cookie to the token; `refused` has the status of HTTP.
pub data Response : Type 0 where
  done otp_required verification_required_first : Response
  signed_in : Text → Response
  refused : ℕ → Response

-- The settings of the system that the handlers read, and whether a mail server is configured.
pub record Settings : Type 0 where
  pub registration_enabled : Bool
  pub email_verification_enabled : Bool
  pub smtp_configured : Bool

-- What a request draws from `secrets`, and the clock, `epoch` being its seconds since 1970.
pub record Draws : Type 0 where
  pub drawn_user : Text
  pub drawn_row : Text
  pub drawn_otp : Text
  pub drawn_salt : Text
  pub drawn_token : Text
  pub now : ℕ
  pub epoch : ℕ

-- An error that the handler does not catch is answered with 500.
unfoldable pub start_session : Crypto → Draws → ℕ → Text → Store → Response × Store
unfolding create_session ensure_active_charger
start_session crypto draws status id s =
    elim (create_session crypto draws.drawn_token draws.now id s) [
      | err e ↦ (refused status, s)
      | ok after ↦ (signed_in draws.drawn_token, ensure_active_charger draws.now id false after)
    ]

-- The store that a method leaves, whether it raised or not.
unfoldable pub store_or : Store → Result Store → Store
store_or s (err e) = s
store_or s (ok after) = after

-- The password is checked again once the address counts as verified.
unfoldable pub login_marked : Crypto → Draws → Text → Text → Text → Store → Response × Store
unfolding mark_user_email_verified authenticate_password start_session
login_marked crypto draws email password id s = elim (mark_user_email_verified draws.now id s) [
  | err e ↦ (refused 500, s)
  | ok marked ↦ elim (authenticate_password crypto email password marked) [
    | err e ↦ (refused 500, marked)
    | ok none ↦ (refused 401, marked)
    | ok (some user) ↦ start_session crypto draws 500 user.user_id marked
  ]
]

-- The part of the login after the second factor.
unfoldable pub login_admitted :
    Crypto → Settings → Draws → Text → Text → User → Store → Response × Store
unfolding login_marked start_session store_or create_email_verification_otp
login_admitted crypto settings draws email password user s =
    if is_set user.email_verified_at
    then start_session crypto draws 500 user.user_id s
    else if not settings.email_verification_enabled
    then login_marked crypto draws email password user.user_id s
    else if not settings.smtp_configured
    then (refused 503, s)
    else (
      verification_required_first,
      store_or s (
          create_email_verification_otp crypto draws.drawn_row draws.drawn_otp draws.now
            user.user_id s),
    )

unfoldable pub login_user :
    Crypto → Settings → Draws → Text → Text → Text → User → Store → Response × Store
unfolding login_admitted verify_user_totp
login_user crypto settings draws email password otp user s =
    if is_set user.totp_enabled_at
    then (if not (is_nonempty otp)
        then (otp_required, s)
        else if not (verify_user_totp crypto draws.epoch user.user_id otp s)
        then (refused 401, s)
        else login_admitted crypto settings draws email password user s)
    else login_admitted crypto settings draws email password user s

-- `api_auth_login`. An address that is none is not caught.
unfoldable pub login : Crypto → Settings → Draws → Text → Text → Text → Store → Response × Store
unfolding authenticate_password login_user strip
login crypto settings draws email password otp s =
    elim (authenticate_password crypto email password s) [
      | err e ↦ (refused 500, s)
      | ok none ↦ (refused 401, s)
      | ok (some user) ↦ login_user crypto settings draws email password (strip otp) user s
    ]

-- `api_auth_verify_email`
unfoldable pub verify_email : Crypto → Draws → Text → Text → Store → Response × Store
unfolding verify_email_otp start_session
verify_email crypto draws email otp s = elim (verify_email_otp crypto draws.now email otp s) [
  | err e ↦ (refused 400, s)
  | ok (user, after) ↦ start_session crypto draws 400 user.user_id after
]

-- The answer lists no charger, so no choice is made for the user.
unfoldable pub register_verified : Crypto → Draws → User → Store → Response × Store
unfolding mark_user_email_verified create_session
register_verified crypto draws user s = elim (mark_user_email_verified draws.now user.user_id s) [
  | err e ↦ (refused 400, s)
  | ok marked ↦ elim (create_session crypto draws.drawn_token draws.now user.user_id marked) [
    | err e ↦ (refused 400, marked)
    | ok after ↦ (signed_in draws.drawn_token, after)
  ]
]

unfoldable pub register_unverified : Crypto → Draws → User → Store → Response × Store
unfolding create_email_verification_otp
register_unverified crypto draws user s =
    elim (create_email_verification_otp crypto draws.drawn_row draws.drawn_otp draws.now
      user.user_id s) [ err e ↦ (refused 400, s) | ok after ↦ (verification_required_first, after) ]

abbrev text_or_none : Text → Option Text
text_or_none [] = none
text_or_none (c ∷ cs) = some (c ∷ cs)

-- `api_auth_register`
unfoldable pub register :
    Crypto → Settings → Draws → Text → Text → Text → Text → Store → Response × Store
unfolding create_user register_verified register_unverified strip
register crypto settings draws email password confirmed name s =
    if not settings.registration_enabled
    then (refused 403, s)
    else if not (password == confirmed)
    then (refused 400, s)
    else if settings.email_verification_enabled && not settings.smtp_configured
    then (refused 503, s)
    else elim (create_user crypto draws.drawn_user draws.drawn_salt draws.now email password
        (text_or_none (strip name)) s) [
          | err e ↦ (refused 400, s)
          | ok (user, created) ↦
              if settings.email_verification_enabled
              then register_unverified crypto draws user created
              else register_verified crypto draws user created
        ]

abbrev of_result : Store → Result Store → Response × Store
of_result s (err e) = (refused 400, s)
of_result s (ok after) = (done, after)

-- `api_auth_resend_email_otp`, where the message is sent.
unfoldable pub resend_email_otp : Crypto → Settings → Draws → Text → Store → Response × Store
unfolding resend_email_verification_otp
resend_email_otp crypto settings draws email s =
    if not settings.smtp_configured
    then (refused 503, s)
    else of_result s
        (resend_email_verification_otp crypto draws.drawn_row draws.drawn_otp draws.now email s)

-- `api_auth_forgot_password`; `demo_email` is the address of the demonstration account. The answer is
-- the same whether the address has an account or not.
unfoldable pub forgot_password : Crypto → Settings → Draws → Text → Text → Store → Response × Store
unfolding create_password_reset_token strip
forgot_password crypto settings draws demo_email email s =
    if lower (strip email) == lower demo_email
    then (done, s)
    else if not settings.smtp_configured
    then (refused 503, s)
    else (
      done,
      (create_password_reset_token crypto draws.drawn_row draws.drawn_token draws.now email s).1,
    )

-- `api_auth_validate_reset_token`
unfoldable pub validate_reset_token : Crypto → Draws → Text → Store → Response
unfolding validate_password_reset_token strip
validate_reset_token crypto draws token s =
    if is_nonempty (strip token) && validate_password_reset_token crypto draws.now (strip token) s
    then done
    else refused 400

-- `api_auth_reset_password`
unfoldable pub reset_password : Crypto → Draws → Text → Text → Text → Store → Response × Store
unfolding reset_password_with_token strip
reset_password crypto draws token password confirmed s =
    if not (password == confirmed)
    then (refused 400, s)
    else of_result s
        (reset_password_with_token crypto draws.drawn_salt draws.now (strip token) password s)

-- `api_auth_logout`
unfoldable pub logout : Crypto → Text → Store → Response × Store
unfolding delete_session
logout crypto cookie s = (done, delete_session crypto cookie s)
