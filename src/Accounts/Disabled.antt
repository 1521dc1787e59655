-- ===== src/Accounts/Disabled.antt =====
-- What an administrator's disabling of an account does in givEVC-ocppv2/app/auth_store.py.
use giv_evc_ocppv.Base.{
  ℕ, Bool, true, false, Option, none, some, List, [], ◌∷◌, ◌≡◌, refl, sym, ap, ◌==◌,
  text_comparable, find, Text, All, arith, Bool-cases, Option-cases, inl, inr,
}
use giv_evc_ocppv.Accounts.Tables.{
  User, ApiKey, LoginSession, Store, Crypto, ok, is_set, update_where,
}
use giv_evc_ocppv.Accounts.Email.{is_nonempty}
use giv_evc_ocppv.Accounts.Users.{
  user_by_id, update_user, with_disabled, end_sessions, set_user_disabled, get_user_for_session,
  session_owner, authenticate_password, user_by_email,
}
use giv_evc_ocppv.Accounts.Keys.{validate_api_key, key_owner}
use giv_evc_ocppv.Accounts.KeyUse.{validate_api_key-IsAdmitted, IsAdmitted-sound}
use giv_evc_ocppv.Accounts.Inversion.{ok_inj}
use giv_evc_ocppv.Accounts.Rows.{find_sound}
use giv_evc_ocppv.Accounts.Admission.{authenticate_password-HasPassword}

-- Neither a session nor a password nor a key is of the account.
pub record Barred (crypto : Crypto) (id : Text) (s : Store) : Type 0 where
  pub no_session :
      (token : Text) (later : ℕ) (user : User)
      → get_user_for_session crypto token later s ≡ some user
      → (user.user_id == id) ≡ false
  pub no_password :
      (email password : Text) (user : User)
      → authenticate_password crypto email password s ≡ ok (some user)
      → (user.user_id == id) ≡ false
  pub no_key :
      (key : Text) (later : ℕ) (user : User) (row : ApiKey)
      → (validate_api_key crypto later key s).0 ≡ some (user, row)
      → (user.user_id == id) ≡ false

-- Every row of the account is disabled.
IsDisabled : Text → List User → Type 0
IsDisabled id users = All (λ u. (u.user_id == id) ≡ true → is_set u.disabled_at ≡ true) users

find-IsDisabled :
    (id : Text) (p : User → Bool) (users : List User) {user : User}
    → IsDisabled id users
    → find p users ≡ some user
    → is_set user.disabled_at ≡ false
    → (user.user_id == id) ≡ false
unfolding IsDisabled
find-IsDisabled id p [] barred h enabled = cc
find-IsDisabled id p (u ∷ users) {user} barred h enabled = elim (Bool-cases (p u)) [
  | inr away ↦ find-IsDisabled id p users barred.1 (rw away at h) enabled
  | inl here ↦
      let found : some u ≡ some user = rw here at h in
      let equal : u ≡ user = cc in
      elim (Bool-cases (user.user_id == id)) [
        | inr other ↦ other
        | inl own ↦
            let off : is_set user.disabled_at ≡ true = rw (← equal) (barred.0 (rw equal own)) in cc
      ]
]

update_where-IsDisabled :
    (id : Text) (now : ℕ) (users : List User)
    → IsDisabled id (update_where (λ u. u.user_id == id) (with_disabled (some now) now) users)
unfolding IsDisabled update_where
update_where-IsDisabled id now [] = tt
update_where-IsDisabled id now (u ∷ users) = elim (Bool-cases (u.user_id == id)) [
  | inl own ↦ (rw own (λ e. refl), update_where-IsDisabled id now users)
  | inr other ↦ (rw other (λ e. cc), update_where-IsDisabled id now users)
]

session_owner-IsDisabled :
    (id : Text) (row : Option LoginSession) (users : List User) {user : User}
    → IsDisabled id users
    → session_owner row users ≡ some user
    → (user.user_id == id) ≡ false
unfolding session_owner
session_owner-IsDisabled id none users barred h = cc
session_owner-IsDisabled id (some row) users barred h =
    find-IsDisabled id _ users barred h (ground (arith, find_sound _ users h))

IsDisabled-no_session :
    (crypto : Crypto) (id token : Text) (later : ℕ) (s : Store) {user : User}
    → IsDisabled id s.users
    → get_user_for_session crypto token later s ≡ some user
    → (user.user_id == id) ≡ false
unfolding get_user_for_session
IsDisabled-no_session crypto id token later s barred h = elim (Bool-cases (is_nonempty token)) [
  | inl given ↦ session_owner-IsDisabled id _ s.users barred (rw given at h)
  | inr empty ↦ cc (rw (get_user_for_session, empty) at h)
]

IsDisabled-no_key :
    (crypto : Crypto) (id key : Text) (later : ℕ) (s : Store) {user : User} {row : ApiKey}
    → IsDisabled id s.users
    → (validate_api_key crypto later key s).0 ≡ some (user, row)
    → (user.user_id == id) ≡ false
unfolding key_owner
IsDisabled-no_key crypto id key later s barred h =
    let admitted = validate_api_key-IsAdmitted crypto later key s h in
    let (_, _, _, _, enabled, _) = IsAdmitted-sound crypto later key s admitted in
    find-IsDisabled id _ s.users barred admitted.owner enabled

IsDisabled-Barred :
    (crypto : Crypto) (id : Text) (s : Store) → IsDisabled id s.users → Barred crypto id s
unfolding user_by_email
IsDisabled-Barred crypto id s barred = record {
  no_session = λ token later user h. IsDisabled-no_session crypto id token later s barred h;
  no_password = λ email password user h.
      let given = authenticate_password-HasPassword crypto email password s h in
      find-IsDisabled id (λ u. u.email == given.address) s.users barred given.found
        given.not_disabled;
  no_key = λ key later user row h. IsDisabled-no_key crypto id key later s barred h;
}

-- An account that has been disabled is let in by nothing until it is enabled again.
pub set_user_disabled-Barred :
    (crypto : Crypto) (now : ℕ) (id : Text) (s : Store) {after : Store}
    → set_user_disabled now id true s ≡ ok after
    → Barred crypto id after
unfolding set_user_disabled update_user end_sessions
set_user_disabled-Barred crypto now id s {after} h = elim (Option-cases (user_by_id id s.users)) [
  | inl absent ↦ cc (rw (set_user_disabled, absent) at h)
  | inr (user, found) ↦
      let equal = ok_inj (rw (set_user_disabled, found) at h) in
      IsDisabled-Barred crypto id after
        (rw (ap (λ t. t.users) (sym equal)) (update_where-IsDisabled id now s.users))
]
