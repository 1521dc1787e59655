-- ===== src/Accounts/Admission.antt =====
-- To whom the handlers of givEVC-ocppv2/app/main.py give a login session.
use giv_evc_ocppv.Base.{
  ℕ, ◌+◌, Bool, true, false, ◌&&◌, not, Option, none, some, [], ◌∷◌, ◌++◌, ◌≡◌, refl, ◌∙◌, ap, ◌==◌,
  nat_comparable, text_comparable, filter, Text, length, is_digit, arith, Bool-cases, inl, inr,
  strip, lt→ltb,
}
use giv_evc_ocppv.Accounts.Tables.{
  User, OneTimeCode, malformed_code, account_unavailable, wrong_code, Store, Crypto, ok, is_set,
}
use giv_evc_ocppv.Accounts.Email.{is_nonempty, normalise_email}
use giv_evc_ocppv.Accounts.Users.{
  new_session, user_by_id, user_by_email, admitted, authenticate_password, create_session,
  session_seconds, get_user_for_session,
}
use giv_evc_ocppv.Accounts.Codes.{current_otp, hash_email_otp, verify_current, verify_email_otp}
use giv_evc_ocppv.Accounts.Totp.{verify_user_totp}
use giv_evc_ocppv.Accounts.Chargers.{
  with_active, replacement, is_valid_choice, active_of, ensure_active_charger,
}
use giv_evc_ocppv.Accounts.Inversion.{require-ok, ok_inj, row_or-ok, Result-cases}
use giv_evc_ocppv.Accounts.Sessions.{
  CanSignIn, is_fresh, login_of, create_session-get_user_for_session,
  update_user-get_user_for_session,
}
use giv_evc_ocppv.Accounts.SignIn.{
  signed_in, Settings, Draws, start_session, login_user, login, verify_email,
}

-- The choice of a charger admits the same users.
ensure_active_charger-get_user_for_session :
    (crypto : Crypto) (token : Text) (later now : ℕ) (id : Text) (force : Bool) (s : Store)
    → login_of (get_user_for_session crypto token later (ensure_active_charger now id force s))
      ≡ login_of (get_user_for_session crypto token later s)
unfolding ensure_active_charger
ensure_active_charger-get_user_for_session crypto token later now id force s =
    elim (Bool-cases
      (not force && is_valid_choice id (active_of (user_by_id id s.users)) s.chargers)) [
        | inl kept ↦ rw kept
        | inr changed ↦ rw changed (
            update_user-get_user_for_session crypto token later id
              (with_active (replacement id s.chargers) now) s (λ u. (refl, refl)))
      ]

create_session-CanSignIn :
    (crypto : Crypto) (token : Text) (now : ℕ) (id : Text) (s : Store) {user : User}
    → user_by_id id s.users ≡ some user
    → CanSignIn user
    → create_session crypto token now id s
      ≡ ok (record s {
        sessions =
            s.sessions ++ new_session (crypto.hash_secret token) id (now + session_seconds) ∷ [];
      })
unfolding create_session
create_session-CanSignIn crypto token now id s {user} found can =
    rw (found, can.enabled, can.verified)

-- A session that starts.
start_session-signed_in :
    (crypto : Crypto) (draws : Draws) (status : ℕ) (id : Text) (s : Store) {user : User}
    → user_by_id id s.users ≡ some user
    → CanSignIn user
    → is_nonempty draws.drawn_token ≡ true
    → is_fresh crypto draws.drawn_token s ≡ true
    → ((start_session crypto draws status id s).0 ≡ signed_in draws.drawn_token)
      × (login_of (
            get_user_for_session crypto draws.drawn_token draws.now
              (start_session crypto draws status id s).1)
          ≡ some user.user_id)
unfolding start_session
start_session-signed_in crypto draws status id s {user} found can given fresh =
    let made = create_session-CanSignIn crypto draws.drawn_token draws.now id s found can in
    rw (start_session, made)
      (
        refl,
        ensure_active_charger-get_user_for_session crypto draws.drawn_token draws.now draws.now id
              false _
            ∙ (ap login_of (
                  create_session-get_user_for_session crypto draws.drawn_token draws.now draws.now
                    id s given fresh made)
                ∙ rw (found, lt→ltb draws.now (draws.now + session_seconds) (omega arith))),
      )

-- An enabled account with its password.
pub record HasPassword (crypto : Crypto) (email password : Text) (s : Store) (user : User)
    : Type 0 where
  pub address : Text
  pub normal : normalise_email email ≡ some address
  pub found : user_by_email address s.users ≡ some user
  pub right_password : crypto.verify_password password user.password_hash ≡ true
  pub not_disabled : is_set user.disabled_at ≡ false

admitted-password :
    (crypto : Crypto) (password : Text) (row : Option User) {user : User}
    → admitted crypto password row ≡ some user
    → (row ≡ some user)
      × (crypto.verify_password password user.password_hash ≡ true)
      × (is_set user.disabled_at ≡ false)
unfolding admitted
admitted-password crypto password none h = cc
admitted-password crypto password (some other) {user} h =
    elim (Bool-cases (crypto.verify_password password other.password_hash)) [
      | inr wrong ↦ cc (rw wrong at h)
      | inl right ↦ elim (Bool-cases (is_set other.disabled_at)) [
        | inl disabled ↦ cc (rw (right, disabled) at h)
        | inr enabled ↦
            let same : some other ≡ some user = rw (right, enabled) at h in
            let equal : other ≡ user = cc in (same, rw (← equal) right, rw (← equal) enabled)
      ]
    ]

pub authenticate_password-HasPassword :
    (crypto : Crypto) (email password : Text) (s : Store) {user : User}
    → authenticate_password crypto email password s ≡ ok (some user)
    → HasPassword crypto email password s user
unfolding authenticate_password
authenticate_password-HasPassword crypto email password s h =
    let (address, normal, rest) = row_or-ok _ _ _ h in
    let (found, right, enabled) = admitted-password crypto password _ (ok_inj rest) in
    record {
      address = address;
      normal = normal;
      found = found;
      right_password = right;
      not_disabled = enabled;
    }

login_user-totp :
    (crypto : Crypto) (settings : Settings) (draws : Draws) (email password otp token : Text)
    (user : User) (s : Store)
    → (login_user crypto settings draws email password otp user s).0 ≡ signed_in token
    → is_set user.totp_enabled_at ≡ true
    → verify_user_totp crypto draws.epoch user.user_id otp s ≡ true
unfolding login_user
login_user-totp crypto settings draws email password otp token user s h on =
    elim (Bool-cases (verify_user_totp crypto draws.epoch user.user_id otp s)) [
      | inl right ↦ right
      | inr wrong ↦ elim (Bool-cases (is_nonempty otp)) [
        | inl given ↦ cc (rw (on, given, wrong) at h)
        | inr empty ↦ cc (rw (on, empty) at h)
      ]
    ]

-- A login that succeeds is of an enabled account whose password was given, and whose one-time code
-- too where two-factor authentication is on.
pub login-checks :
    (crypto : Crypto) (settings : Settings) (draws : Draws) (email password otp token : Text)
    (s : Store)
    → (login crypto settings draws email password otp s).0 ≡ signed_in token
    → (user : User) × HasPassword crypto email password s user
      × (is_set user.totp_enabled_at ≡ true
          → verify_user_totp crypto draws.epoch user.user_id (strip otp) s ≡ true)
unfolding login
login-checks crypto settings draws email password otp token s h =
    elim (Result-cases (authenticate_password crypto email password s)) [
      | inl (e, failed) ↦ cc (rw (login, failed) at h)
      | inr (none, rejected) ↦ cc (rw (login, rejected) at h)
      | inr (some user, passed) ↦ (
        user,
        authenticate_password-HasPassword crypto email password s passed,
        login_user-totp crypto settings draws email password (strip otp) token user s
            (rw (login, passed) at h),
      )
    ]

verify_email_otp-verified :
    (crypto : Crypto) (now : ℕ) (email otp : Text) (s : Store) {address : Text} {user : User}
    → normalise_email email ≡ some address
    → user_by_email address s.users ≡ some user
    → CanSignIn user
    → (length (filter is_digit otp) == 6) ≡ true
    → verify_email_otp crypto now email otp s ≡ ok (user, s)
unfolding verify_email_otp
verify_email_otp-verified crypto now email otp s normal found can six =
    rw (normal, six, found, can.enabled, can.verified)

-- Any six digits sign in to an enabled account whose address is verified: neither a password nor a
-- one-time code is asked for, and the session admits that account.
pub verify_email-verified :
    (crypto : Crypto) (draws : Draws) (email otp : Text) (s : Store) {address : Text} {user : User}
    → normalise_email email ≡ some address
    → user_by_email address s.users ≡ some user
    → user_by_id user.user_id s.users ≡ some user
    → CanSignIn user
    → (length (filter is_digit otp) == 6) ≡ true
    → is_nonempty draws.drawn_token ≡ true
    → is_fresh crypto draws.drawn_token s ≡ true
    → ((verify_email crypto draws email otp s).0 ≡ signed_in draws.drawn_token)
      × (login_of (
            get_user_for_session crypto draws.drawn_token draws.now
              (verify_email crypto draws email otp s).1)
          ≡ some user.user_id)
unfolding verify_email
verify_email-verified crypto draws email otp s {address} {user} normal found known can six given
      fresh =
    rw (verify_email, verify_email_otp-verified crypto draws.now email otp s normal found can six)
      (start_session-signed_in crypto draws 400 user.user_id s known can given fresh)

verify_current-checks :
    (crypto : Crypto) (otp : Text) (now : ℕ) (user : User) (s : Store) {answer : User × Store}
    → verify_current crypto otp now user s ≡ ok answer
    → (row : OneTimeCode) × (current_otp user.user_id now s.otps ≡ some row)
      × ((row.code_hash == hash_email_otp crypto user.user_id otp) ≡ true)
unfolding verify_current
verify_current-checks crypto otp now user s h =
    let (row, found, rest) = row_or-ok _ _ _ h in
    let (right, _) =
      require-ok (row.code_hash == hash_email_otp crypto user.user_id otp) wrong_code _ rest in
    (row, found, right)

-- For an account whose address is not verified yet, the answer was the code that the account was sent
-- last, and it had neither been used nor expired.
pub verify_email_otp-checks :
    (crypto : Crypto) (now : ℕ) (email otp : Text) (s : Store) {address : Text} {user : User}
    {answer : User × Store}
    → normalise_email email ≡ some address
    → user_by_email address s.users ≡ some user
    → is_set user.email_verified_at ≡ false
    → verify_email_otp crypto now email otp s ≡ ok answer
    → (row : OneTimeCode) × (current_otp user.user_id now s.otps ≡ some row)
      × ((row.code_hash == hash_email_otp crypto user.user_id (filter is_digit otp)) ≡ true)
unfolding verify_email_otp
verify_email_otp-checks crypto now email otp s {address} {user} normal found unverified h =
    let (six, more) =
      require-ok (length (filter is_digit otp) == 6) malformed_code _
        (rw (verify_email_otp, normal) at h) in
    let (enabled, rest) =
      require-ok (not (is_set user.disabled_at)) account_unavailable _ (rw found at more) in
    verify_current-checks crypto (filter is_digit otp) now user s (rw unverified at rest)
