-- ===== src/Accounts/Guarded.antt =====
-- What the handlers of givEVC-ocppv2/app/main.py keep the demonstration account and the administrators
-- from.
use giv_evc_ocppv.Base.{
  ℕ, List, [], ◌∷◌, map, Bool, true, false, not, Option, none, some, ◌≡◌, refl, ◌∙◌, sym, ap,
  if◌then◌else◌, ◌==◌, text_comparable, find, Text, strip, codes, leb, length, ◌&&◌, ◌||◌,
  nat_comparable, Bool-cases, inl, inr,
}
use giv_evc_ocppv.Accounts.Tables.{
  User, Store, Crypto, Result, ok, err, is_set, wrong_scope, missing_key_name, long_key_name,
  user_not_found, wrong_theme, update_where,
}
use giv_evc_ocppv.Accounts.Email.{lower, is_nonempty}
use giv_evc_ocppv.Accounts.Users.{
  user_by_id, update_user, get_user_for_session, end_sessions, with_disabled, set_user_disabled,
  delete_user, is_theme, with_theme, set_user_theme_preference,
}
use giv_evc_ocppv.Accounts.Codes.{mark_user_email_verified, with_verified}
use giv_evc_ocppv.Accounts.Totp.{reset_user_totp, without_totp}
use giv_evc_ocppv.Accounts.Chargers.{is_demo_user, delete_onboarding_session}
use giv_evc_ocppv.Accounts.Keys.{api_key_expiry_date, create_api_key, revoke_api_key}
use giv_evc_ocppv.Accounts.SignIn.{Response, refused, Draws}
use giv_evc_ocppv.Accounts.Inversion.{ok_inj, require-ok, row_or-ok, then-ok}
use giv_evc_ocppv.Accounts.Rows.{
  map_option, find-update_where_apart, find-update_where_view, find-delete_where, beq_apart,
  beq_flip,
}
use giv_evc_ocppv.Accounts.Requests.{
  AccountRequest, theme_change, password_change, totp_setup, totp_enabling, totp_disabling,
  key_creation, key_revocation, self_deletion, onboarding_creation, onboarding_deletion, answer_of,
  found_or, expiry_or, handle_account, account_request, AdminRequest, disabling, totp_reset,
  address_verification, user_deletion, unless_own, handle_admin, admin_request,
}

-- A row of the users but for its theme and the time of its change.
abbrev pub but_theme : User → User
but_theme user = record user { theme_preference = none; updated_at = 0 }

-- The users, but for their themes, and the sessions are the same.
abbrev pub SameAccounts : Store → Store → Type 0
SameAccounts s after =
    (map but_theme after.users ≡ map but_theme s.users) × (after.sessions ≡ s.sessions)

map-update_where :
    (test : User → Bool) (change : User → User) (rows : List User)
    → ((user : User) → but_theme (change user) ≡ but_theme user)
    → map but_theme (update_where test change rows) ≡ map but_theme rows
unfolding update_where
map-update_where test change [] same = refl
map-update_where test change (row ∷ rows) same = elim (Bool-cases (test row)) [
  | inl changed ↦ rw (changed, same row, map-update_where test change rows same) refl
  | inr kept ↦ rw (kept, map-update_where test change rows same) refl
]

set_user_theme_preference-SameAccounts :
    (now : ℕ) (id preference : Text) (s after : Store)
    → set_user_theme_preference now id preference s ≡ ok after
    → SameAccounts s after
unfolding set_user_theme_preference update_user
set_user_theme_preference-SameAccounts now id preference s after h =
    let theme = lower (strip preference) in
    let (_, valid) = require-ok (is_theme theme) wrong_theme _ h in
    let (_, _, made) = row_or-ok (user_by_id id s.users) user_not_found _ valid in
    let equal = sym (ok_inj made) in
    (
      ap (λ t. map but_theme t.users) equal
          ∙ map-update_where (λ u. u.user_id == id) (with_theme theme now) s.users (λ u. refl),
      ap (λ t. t.sessions) equal,
    )

-- What holds of the tables before a method and after it where it does not raise.
answer_of-elim :
    (P : Store → Type 0) (status : ℕ) (s : Store) (method : Result Store)
    → P s
    → ((after : Store) → method ≡ ok after → P after)
    → P (answer_of status s method).1
answer_of-elim P status s (err e) before later = before
answer_of-elim P status s (ok after) before later = later after refl

found_or-store : (found : Bool × Store) → (found_or found).1 ≡ found.1
found_or-store (true, s) = refl
found_or-store (false, s) = refl

create_api_key-SameAccounts :
    (crypto : Crypto) (row key : Text) (now : ℕ) (id name scope expiry : Text) (s after : Store)
    → create_api_key crypto row key now id name scope expiry s ≡ ok after
    → SameAccounts s after
unfolding create_api_key
create_api_key-SameAccounts crypto row key now id name scope expiry s after h =
    let (_, named) = require-ok (is_nonempty (strip name)) missing_key_name _ h in
    let (_, short) = require-ok (leb (length (strip name)) 80) long_key_name _ named in
    let (_, scoped) =
      require-ok (lower (strip scope) == codes "read" || lower (strip scope) == codes "write")
        wrong_scope _ short in
    let (expires, dated) = then-ok _ (api_key_expiry_date now expiry) scoped in
    let (user, _, made) =
      row_or-ok (find (λ u. u.user_id == id && not (is_set u.disabled_at)) s.users) user_not_found _
        dated in
    let equal = sym (ok_inj made) in
    (ap (λ t. map but_theme t.users) equal, ap (λ t. t.sessions) equal)

handle_account-SameAccounts :
    (crypto : Crypto) (draws : Draws) (cookie : Text) (request : AccountRequest) (user : User)
    (s : Store)
    → user.is_demo ≡ true
    → SameAccounts s (handle_account crypto draws cookie request user s).1
unfolding handle_account revoke_api_key delete_onboarding_session
handle_account-SameAccounts crypto draws cookie (theme_change preference) user s demo =
    answer_of-elim (SameAccounts s) 400 s _ (refl, refl)
      (set_user_theme_preference-SameAccounts draws.now user.user_id preference s)
handle_account-SameAccounts crypto draws cookie (password_change current new confirmed) user s
      demo =
    rw demo (refl, refl)
handle_account-SameAccounts crypto draws cookie (totp_setup password) user s demo =
    rw demo (refl, refl)
handle_account-SameAccounts crypto draws cookie (totp_enabling code) user s demo =
    rw demo (refl, refl)
handle_account-SameAccounts crypto draws cookie (totp_disabling password code) user s demo =
    rw demo (refl, refl)
handle_account-SameAccounts crypto draws cookie (key_creation name scope expiry) user s demo =
    answer_of-elim (SameAccounts s) 400 s _ (refl, refl)
      (create_api_key-SameAccounts crypto draws.drawn_row draws.drawn_token draws.now user.user_id
        name scope (expiry_or expiry) s)
handle_account-SameAccounts crypto draws cookie (key_revocation key) user s demo =
    rw (found_or-store (revoke_api_key draws.now user.user_id key s)) (refl, refl)
handle_account-SameAccounts crypto draws cookie self_deletion user s demo = rw demo (refl, refl)
handle_account-SameAccounts crypto draws cookie onboarding_creation user s demo =
    rw demo (refl, refl)
handle_account-SameAccounts crypto draws cookie (onboarding_deletion row) user s demo =
    rw (found_or-store (delete_onboarding_session user.user_id row s)) (refl, refl)

-- No request about the account from a session of the demonstration account changes a session, or
-- anything of a user but its theme and the time of its change.
pub account_request-SameAccounts :
    (crypto : Crypto) (draws : Draws) (cookie : Text) (request : AccountRequest) (s : Store)
    {user : User}
    → get_user_for_session crypto cookie draws.now s ≡ some user
    → user.is_demo ≡ true
    → SameAccounts s (account_request crypto draws cookie request s).1
unfolding account_request
account_request-SameAccounts crypto draws cookie request s {user} found demo =
    rw (account_request, found)
      (handle_account-SameAccounts crypto draws cookie request user s demo)

-- A row of the users but for the times of its verification and of its change.
abbrev pub but_verification : User → User
but_verification user = record user { email_verified_at = none; updated_at = 0 }

-- The row of a user, with the password, the role, the time of disabling and the second factor.
abbrev pub standing : Text → Store → Option User
standing id s = map_option but_verification (user_by_id id s.users)

update_user-standing :
    (target id : Text) (f : User → User) (s : Store)
    → ((u : User) → (f u).user_id ≡ u.user_id)
    → (target == id) ≡ false
    → standing id (update_user target f s) ≡ standing id s
unfolding update_user user_by_id
update_user-standing target id f s keeps other = ap (map_option but_verification) (
    find-update_where_apart (λ u. u.user_id == id) (λ u. u.user_id == target) f s.users
      (λ u. rw (keeps u)) (λ u mine. beq_apart u.user_id id target (beq_flip target id other) mine))

set_user_disabled-standing :
    (now : ℕ) (target id : Text) (disabled : Bool) (s after : Store)
    → (target == id) ≡ false
    → set_user_disabled now target disabled s ≡ ok after
    → standing id after ≡ standing id s
unfolding set_user_disabled end_sessions
set_user_disabled-standing now target id true s after other h =
    let (_, _, made) = row_or-ok (user_by_id target s.users) user_not_found _ h in
    ap (standing id) (sym (ok_inj made))
    ∙ update_user-standing target id (with_disabled (some now) now) s (λ u. refl) other
set_user_disabled-standing now target id false s after other h =
    let (_, _, made) = row_or-ok (user_by_id target s.users) user_not_found _ h in
    ap (standing id) (sym (ok_inj made))
    ∙ update_user-standing target id (with_disabled none now) s (λ u. refl) other

reset_user_totp-standing :
    (now : ℕ) (target id : Text) (s after : Store)
    → (target == id) ≡ false
    → reset_user_totp now target s ≡ ok after
    → standing id after ≡ standing id s
unfolding reset_user_totp
reset_user_totp-standing now target id s after other h =
    let (_, _, made) = row_or-ok (user_by_id target s.users) user_not_found _ h in
    ap (standing id) (sym (ok_inj made))
    ∙ update_user-standing target id (without_totp now) s (λ u. refl) other

mark_user_email_verified-standing :
    (now : ℕ) (target id : Text) (s after : Store)
    → mark_user_email_verified now target s ≡ ok after
    → standing id after ≡ standing id s
unfolding mark_user_email_verified update_user user_by_id
mark_user_email_verified-standing now target id s after h =
    let (_, _, made) = row_or-ok (user_by_id target s.users) user_not_found _ h in
    ap (standing id) (sym (ok_inj made))
    ∙ find-update_where_view (λ u. u.user_id == id) (λ u. u.user_id == target) (with_verified now)
        but_verification s.users (λ u. refl) (λ u. refl)

delete_user-standing :
    (target id : Text) (s after : Store)
    → (target == id) ≡ false
    → delete_user target s ≡ ok after
    → standing id after ≡ standing id s
unfolding delete_user user_by_id
delete_user-standing target id s after other h =
    let (_, _, made) = row_or-ok (user_by_id target s.users) user_not_found _ h in
    ap (standing id) (sym (ok_inj made))
    ∙ ap (map_option but_verification) (
        find-delete_where (λ u. u.user_id == id) (λ u. u.user_id == target) s.users
          (λ u mine. beq_apart u.user_id id target (beq_flip target id other) mine))

-- A request about a user that is refused where it is about the administrator's own account.
unless_own-standing :
    (admin : User) (target : Text) (s : Store) (answer : Response × Store)
    → ((target == admin.user_id) ≡ false
        → standing admin.user_id answer.1 ≡ standing admin.user_id s)
    → standing admin.user_id (unless_own admin target s answer).1 ≡ standing admin.user_id s
unless_own-standing admin target s answer others = elim (Bool-cases (target == admin.user_id)) [
  | inl own ↦ rw own
  | inr other ↦ rw other (others other)
]

handle_admin-standing :
    (draws : Draws) (request : AdminRequest) (admin : User) (s : Store)
    → standing admin.user_id (handle_admin draws request admin s).1 ≡ standing admin.user_id s
unfolding handle_admin
handle_admin-standing draws (disabling target disabled) admin s =
    unless_own-standing admin target s _ (λ other.
      answer_of-elim (λ t. standing admin.user_id t ≡ standing admin.user_id s) 400 s _ refl
        (λ after. set_user_disabled-standing draws.now target admin.user_id disabled s after other))
handle_admin-standing draws (totp_reset target) admin s =
    unless_own-standing admin target s _ (λ other.
      answer_of-elim (λ t. standing admin.user_id t ≡ standing admin.user_id s) 400 s _ refl
        (λ after. reset_user_totp-standing draws.now target admin.user_id s after other))
handle_admin-standing draws (address_verification target) admin s =
    answer_of-elim (λ t. standing admin.user_id t ≡ standing admin.user_id s) 400 s _ refl
      (mark_user_email_verified-standing draws.now target admin.user_id s)
handle_admin-standing draws (user_deletion target) admin s =
    unless_own-standing admin target s _ (λ other.
      elim (Bool-cases (is_demo_user (user_by_id target s.users))) [
        | inl demo ↦ rw demo
        | inr real ↦ rw real (
            answer_of-elim (λ t. standing admin.user_id t ≡ standing admin.user_id s) 404 s _ refl
              (λ after. delete_user-standing target admin.user_id s after other))
      ])

-- `_require_admin`
if_admin :
    (admin : Bool) (id : Text) (s : Store) (answer : Response × Store)
    → standing id answer.1 ≡ standing id s
    → (standing id (if admin then answer else (refused 403, s)).1 ≡ standing id s)
      × (admin ≡ false → (if admin then answer else (refused 403, s)).1 ≡ s)
if_admin true id s answer same = (same, λ ordinary. cc)
if_admin false id s answer same = (refl, λ ordinary. refl)

-- A request of an administrator that disables a user, resets a second factor, verifies an address or
-- deletes a user leaves the row of the account in use as it is, but for the times of its verification
-- and of its change. The same request of another user changes nothing.
pub admin_request-standing :
    (crypto : Crypto) (draws : Draws) (cookie : Text) (request : AdminRequest) (s : Store)
    {user : User}
    → get_user_for_session crypto cookie draws.now s ≡ some user
    → (standing user.user_id (admin_request crypto draws cookie request s).1
        ≡ standing user.user_id s)
      × (user.is_admin ≡ false → (admin_request crypto draws cookie request s).1 ≡ s)
unfolding admin_request
admin_request-standing crypto draws cookie request s {user} found =
    rw (admin_request, found)
      (if_admin user.is_admin user.user_id s (handle_admin draws request user s)
        (handle_admin-standing draws request user s))
