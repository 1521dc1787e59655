-- ===== src/Accounts/KeyUse.antt =====
-- Which keys of the public interface givEVC-ocppv2/app/auth_store.py lets in.
use giv_evc_ocppv.Base.{
  ℕ, ◌+◌, ◌*◌, ◌/◌, ◌≤◌, ◌<◌, true, false, ◌&&◌, not, Option, none, some, List, [], ◌∷◌, ◌≡◌, ap,
  ◌==◌, nat_comparable, text_comparable, All, Text, codes, strip, arith, Bool-cases, Option-cases,
  inl, inr,
}
use giv_evc_ocppv.Accounts.Tables.{User, ApiKey, Store, Crypto, ok, is_set, wrong_expiry}
use giv_evc_ocppv.Accounts.Email.{lower}
use giv_evc_ocppv.Accounts.Keys.{
  day_after, validate_api_key, admit_key, key_owner, days_for, expiry_options, usable_key,
  is_current, starts_with, api_key_expiry_date, revoke_api_key,
}
use giv_evc_ocppv.Accounts.Inversion.{ok_inj, row_or-ok}
use giv_evc_ocppv.Accounts.Rows.{find-update_where_elim, find_sound}

-- What a key that is let in has passed.
pub record IsAdmitted (crypto : Crypto) (now : ℕ) (key : Text) (s : Store) (user : User)
    (row : ApiKey) : Type 0 where
  pub prefixed : starts_with (codes "gevc_") key ≡ true
  pub usable : usable_key (crypto.hash_secret key) now s.api_keys ≡ some row
  pub owner : key_owner row.key_user s.users ≡ some user

admit_key-owner :
    (now : ℕ) (row : Option ApiKey) (s : Store) {user : User} {key : ApiKey}
    → (admit_key now row s).0 ≡ some (user, key)
    → (row ≡ some key) × (key_owner key.key_user s.users ≡ some user)
unfolding admit_key
admit_key-owner now none s h = cc
admit_key-owner now (some row) s {user} {key} h =
    elim (Option-cases (key_owner row.key_user s.users)) [
      | inl absent ↦ cc (rw (admit_key, absent) at h)
      | inr (other, found) ↦
          let answer : ◌≡◌ {A = Option (User × ApiKey)} (some (other, row)) (some (user, key)) =
            rw (admit_key, found) at h in
          let same : row ≡ key = cc in
          let owner : other ≡ user = cc in (ap some same, rw (← same, ← owner) found)
    ]

pub validate_api_key-IsAdmitted :
    (crypto : Crypto) (now : ℕ) (key : Text) (s : Store) {user : User} {row : ApiKey}
    → (validate_api_key crypto now key s).0 ≡ some (user, row)
    → IsAdmitted crypto now key s user row
unfolding validate_api_key
validate_api_key-IsAdmitted crypto now key s h =
    elim (Bool-cases (starts_with (codes "gevc_") key)) [
      | inr other ↦ cc (rw (validate_api_key, other) at h)
      | inl prefixed ↦
          let (usable, owner) = admit_key-owner now _ s (rw prefixed at h) in
          record { prefixed = prefixed; usable = usable; owner = owner }
    ]

-- The facts about the row and the user of a key that is let in.
pub IsAdmitted-sound :
    (crypto : Crypto) (now : ℕ) (key : Text) (s : Store) {user : User} {row : ApiKey}
    → IsAdmitted crypto now key s user row
    → ((row.key_hash == crypto.hash_secret key) ≡ true)
      × (is_set row.key_revoked ≡ false)
      × (is_current now row.key_expires ≡ true)
      × ((user.user_id == row.key_user) ≡ true)
      × (is_set user.disabled_at ≡ false)
      × (user.is_demo ≡ false)
unfolding usable_key key_owner
IsAdmitted-sound crypto now key s {user} {row} a =
    let usable = find_sound _ s.api_keys a.usable in
    let owner = find_sound _ s.users a.owner in
    (
      ground (arith, usable),
      ground (arith, usable),
      ground (arith, usable),
      ground (arith, owner),
      ground (arith, owner),
      ground (arith, owner),
    )

-- A key that its owner has revoked lets nobody in.
pub revoke_api_key-final :
    (crypto : Crypto) (now later : ℕ) (id row_id key : Text) (s : Store) {user : User}
    {row : ApiKey}
    → (validate_api_key crypto later key (revoke_api_key now id row_id s).1).0 ≡ some (user, row)
    → (row.key_id == row_id && row.key_user == id) ≡ false
unfolding revoke_api_key usable_key
revoke_api_key-final crypto now later id row_id key s {user} {row} h =
    let admitted = validate_api_key-IsAdmitted crypto later key _ h in
    let (_, unrevoked, _, _, _, _) = IsAdmitted-sound crypto later key _ admitted in
    find-update_where_elim
      (λ (k : ApiKey).
        is_set k.key_revoked ≡ false → (k.key_id == row_id && k.key_user == id) ≡ false)
      _ (λ k. k.key_id == row_id && (k.key_user == id && not (is_set k.key_revoked)))
      (λ k. record k { key_revoked = some now }) s.api_keys (λ k changed none_set. cc)
      (λ k kept none_set. ground (arith, kept, none_set)) admitted.usable unrevoked

abbrev IsPeriod : Option ℕ → Type 0
IsPeriod days = elim days [ none ↦ Unit {0} | some d ↦ (30 ≤ d) × (d ≤ 365) ]

days_for-IsPeriod :
    (raw : Text) (table : List (Text × Option ℕ)) {found : Option ℕ}
    → All (λ e. IsPeriod e.1) table
    → days_for raw table ≡ some found
    → IsPeriod found
unfolding days_for
days_for-IsPeriod raw [] all h = cc
days_for-IsPeriod raw ((option, days) ∷ table) {found} all h = elim (Bool-cases (raw == option)) [
  | inr other ↦ days_for-IsPeriod raw table all.1 (rw other at h)
  | inl here ↦
      let answer : some days ≡ some found = rw here at h in
      let same : days ≡ found = cc in rw (← same) all.0
]

expiry_options-IsPeriod : All (λ e. IsPeriod e.1) expiry_options
unfolding expiry_options
expiry_options-IsPeriod = ground arith

day_after-bounds :
    (now : ℕ) (days : Option ℕ) {expires : ℕ}
    → IsPeriod days
    → day_after now days ≡ some expires
    → (now < expires) × (expires ≤ now + 365 * 86400)
day_after-bounds now none period h = cc
day_after-bounds now (some days) {expires} period h =
    let same : (now / 86400 + days) * 86400 ≡ expires = cc in
    (omega (arith, same, period.0), omega (arith, same, period.1))

-- A key expires after the moment of its creation, and at most a year of days later.
pub api_key_expiry_date-bounds :
    (now : ℕ) (value : Text) {expires : ℕ}
    → api_key_expiry_date now value ≡ ok (some expires)
    → (now < expires) × (expires ≤ now + 365 * 86400)
unfolding api_key_expiry_date
api_key_expiry_date-bounds now value h =
    let (days, found, made) =
      row_or-ok (days_for (lower (strip value)) expiry_options) wrong_expiry _ h in
    day_after-bounds now days
      (days_for-IsPeriod (lower (strip value)) expiry_options expiry_options-IsPeriod found)
      (ok_inj made)
