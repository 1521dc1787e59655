-- ===== src/Accounts/Passwords.antt =====
-- Password reset links and disabled accounts in givEVC-ocppv2/app/auth_store.py.
use giv_evc_ocppv.Base.{
  ℕ, Bool, true, false, ◌&&◌, not, none, some, List, [], ◌∷◌, ◌≡◌, refl, ◌∙◌, sym, ap,
  if◌then◌else◌, ltb, ◌==◌, nat_comparable, text_comparable, beq_self, any, Text, arith, Bool-cases,
  inl, inr,
}
use giv_evc_ocppv.Accounts.Tables.{
  OneTimeCode, LoginSession, Store, Crypto, ok, is_set, weak_password, update_where, delete_where,
}
use giv_evc_ocppv.Accounts.Users.{user_by_id, update_user, with_password, is_long_enough}
use giv_evc_ocppv.Accounts.Codes.{
  usable_reset, use_reset, consume, is_open, validate_password_reset_token,
  reset_password_with_token,
}
use giv_evc_ocppv.Accounts.Inversion.{require-ok, ok_inj, row_or-ok}
use giv_evc_ocppv.Accounts.Rows.{find-any, any-update_where, map_option, find-update_where}

-- At most one row has the hash, as the table demands.
unfoldable pub is_unique : Text → List OneTimeCode → Bool
is_unique hash [] = true
is_unique hash (row ∷ rows) =
    if row.code_hash == hash then not (any (λ r. r.code_hash == hash) rows) else is_unique hash rows

usable_reset-absent :
    (hash : Text) (now later : ℕ) (test : OneTimeCode → Bool) (rows : List OneTimeCode)
    → any (λ r. r.code_hash == hash) rows ≡ false
    → usable_reset hash later (update_where test (consume now) rows) ≡ none
unfolding usable_reset
usable_reset-absent hash now later test rows h =
    find-any (λ r. r.code_hash == hash) (λ r. is_open r && ltb later r.code_expires) _
      (any-update_where (λ r. r.code_hash == hash) test (consume now) rows (λ x q. refl) ∙ h)

usable_reset-none :
    (hash : Text) (now : ℕ) (rows : List OneTimeCode)
    → any (λ r. r.code_hash == hash) rows ≡ false
    → usable_reset hash now rows ≡ none
unfolding usable_reset
usable_reset-none hash now rows h =
    find-any (λ r. r.code_hash == hash) (λ r. is_open r && ltb now r.code_expires) rows h

usable_reset-first :
    (hash id : Text) (now later : ℕ) (row : OneTimeCode) (rows : List OneTimeCode)
    → (row.code_id == id) ≡ true
    → any (λ r. r.code_hash == hash) rows ≡ false
    → usable_reset hash later (update_where (λ r. r.code_id == id) (consume now) (row ∷ rows))
      ≡ none
unfolding usable_reset update_where
usable_reset-first hash id now later row rows same absent =
    ground (arith, same, usable_reset-absent hash now later (λ r. r.code_id == id) rows absent)

usable_reset-consumed :
    (hash : Text) (now later : ℕ) (rows : List OneTimeCode) (row : OneTimeCode)
    → is_unique hash rows ≡ true
    → usable_reset hash now rows ≡ some row
    → usable_reset hash later (update_where (λ r. r.code_id == row.code_id) (consume now) rows)
      ≡ none
unfolding usable_reset is_unique update_where
usable_reset-consumed hash now later [] row unique h = cc
usable_reset-consumed hash now later (first ∷ rows) row unique h =
    elim (Bool-cases (first.code_hash == hash)) [
      | inr other ↦ ground (
        arith,
        other,
        usable_reset-consumed hash now later rows row (rw other at unique) (rw other at h),
      )
      | inl same ↦
          let absent : any (λ r. r.code_hash == hash) rows ≡ false = ground (arith, same, unique) in
          elim (Bool-cases (is_open first && ltb now first.code_expires)) [
            | inr unusable ↦ cc (rw (same, unusable, usable_reset-none hash now rows absent) at h)
            | inl usable ↦
                let found : some first ≡ some row = rw (same, usable) at h in
                let equal : first ≡ row = cc in
                usable_reset-first hash row.code_id now later first rows
                  (rw equal (beq_self row.code_id)) absent
          ]
    ]

any-end_sessions :
    (id : Text) (rows : List LoginSession)
    → any (λ r. r.session_user == id) (delete_where (λ r. r.session_user == id) rows) ≡ false
unfolding delete_where
any-end_sessions id [] = refl
any-end_sessions id (row ∷ rows) = ground (arith, any-end_sessions id rows)

-- A reset that succeeds used a link that was open. It then opens nothing more, ends every session of
-- its account, and the account has the new password.
pub reset_password_with_token-once :
    (crypto : Crypto) (salt : Text) (now : ℕ) (token new : Text) (s : Store) {after : Store}
    → is_unique (crypto.hash_secret token) s.resets ≡ true
    → reset_password_with_token crypto salt now token new s ≡ ok after
    → (row : OneTimeCode) × (usable_reset (crypto.hash_secret token) now s.resets ≡ some row)
      × ((later : ℕ) → validate_password_reset_token crypto later token after ≡ false)
      × (any (λ r. r.session_user == row.code_user) after.sessions ≡ false)
      × (user_by_id row.code_user after.users
          ≡ map_option
              (with_password (crypto.hash_password salt new) now)
              (user_by_id row.code_user s.users))
unfolding reset_password_with_token validate_password_reset_token use_reset update_user user_by_id
reset_password_with_token-once crypto salt now token new s unique h =
    let (long, more) = require-ok (is_long_enough new) weak_password _ h in
    let (row, found, made) = row_or-ok _ _ _ more in
    let equal = sym (ok_inj made) in
    (
      row,
      found,
      λ later. rw equal (
          ap is_set
            (usable_reset-consumed (crypto.hash_secret token) now later s.resets row unique found)),
      rw equal (any-end_sessions row.code_user s.sessions),
      rw equal (
          find-update_where (λ u. u.user_id == row.code_user)
            (with_password (crypto.hash_password salt new) now) s.users (λ u. refl)),
    )
