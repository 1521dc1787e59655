-- ===== src/Accounts/Keys.antt =====
-- The keys of the public interface in givEVC-ocppv2/app/auth_store.py.
use giv_evc_ocppv.Base.{
  ℕ, ◌+◌, ◌*◌, ◌/◌, Bool, true, false, ◌&&◌, ◌||◌, not, Option, none, some, List, [], ◌∷◌, ◌++◌,
  if◌then◌else◌, ltb, leb, ◌==◌, nat_comparable, text_comparable, length, any, find, Text, codes,
  strip,
}
use giv_evc_ocppv.Accounts.Tables.{
  User, ApiKey, Store, Crypto, Result, ok, ◌>>=◌, ◌>>◌, require, row_or, is_set, user_not_found,
  missing_key_name, long_key_name, wrong_scope, wrong_expiry, update_where,
}
use giv_evc_ocppv.Accounts.Email.{lower, is_nonempty}

-- `days_by_option`; the inner none stands for no expiry.
unfoldable pub expiry_options : List (Text × Option ℕ)
expiry_options =
    (codes "30", some 30)
    ∷ (codes "30d", some 30)
    ∷ (codes "30_days", some 30)
    ∷ (codes "90", some 90)
    ∷ (codes "90d", some 90)
    ∷ (codes "90_days", some 90)
    ∷ (codes "180", some 180)
    ∷ (codes "180d", some 180)
    ∷ (codes "180_days", some 180)
    ∷ (codes "365", some 365)
    ∷ (codes "365d", some 365)
    ∷ (codes "1_year", some 365)
    ∷ (codes "never", none)
    ∷ (codes "none", none)
    ∷ (codes "no_expiry", none)
    ∷ []

unfoldable pub days_for : Text → List (Text × Option ℕ) → Option (Option ℕ)
days_for raw [] = none
days_for raw ((option, days) ∷ rest) = if raw == option then some days else days_for raw rest

-- A date compares with the text of a moment as the start of its day does.
abbrev pub day_after : ℕ → Option ℕ → Option ℕ
day_after now none = none
day_after now (some days) = some ((now / 86400 + days) * 86400)

unfoldable pub api_key_expiry_date : ℕ → Text → Result (Option ℕ)
unfolding days_for expiry_options
api_key_expiry_date now value = do
  days ← row_or (days_for (lower (strip value)) expiry_options) wrong_expiry
  ok (day_after now days)

-- `row_id` and `key` are random.
unfoldable pub create_api_key :
    Crypto → Text → Text → ℕ → Text → Text → Text → Text → Store → Result Store
unfolding api_key_expiry_date
create_api_key crypto row_id key now id name scope expiry s = do
  require (is_nonempty (strip name)) missing_key_name
  require (leb (length (strip name)) 80) long_key_name
  require (lower (strip scope) == codes "read" || lower (strip scope) == codes "write") wrong_scope
  expires ← api_key_expiry_date now expiry
  user ← row_or (find (λ u. u.user_id == id && not (is_set u.disabled_at)) s.users) user_not_found
  let row : ApiKey = record {
    key_id = row_id;
    key_user = id;
    key_name = strip name;
    key_writes = lower (strip scope) == codes "write";
    key_hash = crypto.hash_secret key;
    key_created = now;
    key_expires = expires;
    key_last_used = none;
    key_revoked = none;
  }
  ok (record s { api_keys = s.api_keys ++ row ∷ [] })

-- `expires_at IS NULL OR expires_at > ?`
unfoldable pub is_current : ℕ → Option ℕ → Bool
is_current now none = true
is_current now (some expires) = ltb now expires

-- The owner of a key, neither disabled nor the demonstration account.
unfoldable pub key_owner : Text → List User → Option User
key_owner id users =
    find (λ u. u.user_id == id && (not (is_set u.disabled_at) && not u.is_demo)) users

unfoldable pub usable_key : Text → ℕ → List ApiKey → Option ApiKey
unfolding is_current
usable_key hash now keys =
    find (λ k. k.key_hash == hash && (not (is_set k.key_revoked) && is_current now k.key_expires))
      keys

-- `.startswith(prefix)`
unfoldable pub starts_with : Text → Text → Bool
starts_with [] text = true
starts_with (p ∷ ps) [] = false
starts_with (p ∷ ps) (c ∷ cs) = p == c && starts_with ps cs

unfoldable pub admit_key : ℕ → Option ApiKey → Store → Option (User × ApiKey) × Store
unfolding key_owner update_where
admit_key now none s = (none, s)
admit_key now (some key) s = elim (key_owner key.key_user s.users) [
  | none ↦ (none, s)
  | some user ↦ (
    some (user, key),
    record s {
      api_keys =
          update_where (λ k. k.key_id == key.key_id) (λ k. record k { key_last_used = some now })
            s.api_keys;
    },
  )
]

unfoldable pub validate_api_key : Crypto → ℕ → Text → Store → Option (User × ApiKey) × Store
unfolding admit_key usable_key starts_with
validate_api_key crypto now key s =
    if starts_with (codes "gevc_") key
    then admit_key now (usable_key (crypto.hash_secret key) now s.api_keys) s
    else (none, s)

unfoldable pub revoke_api_key : ℕ → Text → Text → Store → Bool × Store
unfolding update_where
revoke_api_key now id row_id s =
    let test =
      λ (k : ApiKey). k.key_id == row_id && (k.key_user == id && not (is_set k.key_revoked)) in
    (
      any test s.api_keys,
      record s {
        api_keys = update_where test (λ k. record k { key_revoked = some now }) s.api_keys;
      },
    )
