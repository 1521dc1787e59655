-- ===== src/Accounts/Claims.antt =====
-- The adoption of a charger by the password of an onboarding in givEVC-ocppv2/app/auth_store.py.
use giv_evc_ocppv.Base.{
  ℕ, true, false, ◌&&◌, Option, none, some, [], ◌∷◌, ◌++◌, ◌≡◌, refl, ap, ◌==◌, text_comparable,
  beq_self, Text, strip, Bool-cases, inl, inr,
}
use giv_evc_ocppv.Accounts.Tables.{Charger, Onboarding, Store, Crypto, Result, ok, err}
use giv_evc_ocppv.Accounts.Users.{user_by_id}
use giv_evc_ocppv.Accounts.Chargers.{
  is_kept, is_assigned, assign_charger_to_user, consume_onboarding, finish_claim, claim_pending,
  claim_charger_by_password, is_demo_user, pending_onboarding, verify_charger_password,
  accepts_password,
}
use giv_evc_ocppv.Accounts.Rows.{find-append, find-none}
use giv_evc_ocppv.Accounts.Ownership.{assign_charger_to_user-ok, ensure_active_charger-chargers}

-- The password that a charger was adopted with is accepted from it.
assign_charger_to_user-verify_charger_password :
    (crypto : Crypto) (charger : Text) (now : ℕ) (id point name password : Text) (s : Store)
    {row : Charger} {after : Store}
    → assign_charger_to_user charger now id point name (some (crypto.hash_secret password)) s
      ≡ ok (row, after)
    → verify_charger_password crypto (strip point) password after ≡ true
unfolding verify_charger_password is_assigned accepts_password
assign_charger_to_user-verify_charger_password crypto charger now id point name password s {row} h =
    let (free, same_row, equal) =
      assign_charger_to_user-ok charger now id point name (some (crypto.hash_secret password)) s
        h in
    let absent = find-none (λ c. c.charge_point_id == strip point && is_kept c) s.chargers free in
    rw
      (
        equal,
        ensure_active_charger-chargers now id false
            (record s { chargers = s.chargers ++ row ∷ [] }),
        find-append _ s.chargers (row ∷ []) absent,
      )
      (rw (same_row, beq_self (strip point), beq_self (crypto.hash_secret password)) refl)

finish_claim-ok :
    (result : Result (Charger × Store)) (s : Store) {row : Charger} {after : Store}
    → finish_claim result s ≡ (ok (some row), after)
    → result ≡ ok (row, after)
unfolding finish_claim
finish_claim-ok (err e) s h = cc (ap (λ r. r.0) h)
finish_claim-ok (ok (c, t)) s {row} {after} h =
    let same_row : c ≡ row = cc (ap (λ r. r.0) h) in
    let same_store : t ≡ after = ap (λ r. r.1) h in rw (same_row, same_store)

claim_pending-ok :
    (crypto : Crypto) (charger : Text) (now : ℕ) (point password : Text)
    (pending : Option Onboarding) (s : Store) {row : Charger} {after : Store}
    → claim_pending crypto charger now point password pending s ≡ (ok (some row), after)
    → (onboarding : Onboarding) × (pending ≡ some onboarding)
      × (assign_charger_to_user charger now onboarding.onboarding_user point point
            (some (crypto.hash_secret password))
            (consume_onboarding now onboarding.onboarding_id s)
          ≡ ok (row, after))
unfolding claim_pending
claim_pending-ok crypto charger now point password none s h = cc (ap (λ r. r.0) h)
claim_pending-ok crypto charger now point password (some onboarding) s h =
    elim (Bool-cases (is_demo_user (user_by_id onboarding.onboarding_user s.users))) [
      | inl demo ↦ cc (ap (λ r. r.0) (rw demo at h))
      | inr real ↦ (onboarding, refl, finish_claim-ok _ _ (rw real at h))
    ]

-- A charger that is adopted by a password belongs to the user who made the onboarding with that
-- password, has the charge point that connected, and may connect with the password from then on.
pub claim_charger_by_password-verify_charger_password :
    (crypto : Crypto) (charger : Text) (now : ℕ) (point password : Text) (s : Store) {row : Charger}
    {after : Store}
    → claim_charger_by_password crypto charger now point password s ≡ (ok (some row), after)
    → (onboarding : Onboarding) × (pending_onboarding
          (crypto.hash_secret password)
          now
          s.onboardings
        ≡ some onboarding)
      × (row.owner_id ≡ onboarding.onboarding_user)
      × (row.charge_point_id ≡ strip point)
      × (verify_charger_password crypto (strip point) password after ≡ true)
unfolding claim_charger_by_password
claim_charger_by_password-verify_charger_password crypto charger now point password s h =
    let (onboarding, found, assigned) = claim_pending-ok crypto charger now point password _ s h in
    let consumed = consume_onboarding now onboarding.onboarding_id s in
    let id = onboarding.onboarding_user in
    let (_, same_row, _) =
      assign_charger_to_user-ok charger now id point point _ consumed assigned in
    (
      onboarding,
      found,
      ap (λ c. c.owner_id) same_row,
      ap (λ c. c.charge_point_id) same_row,
      assign_charger_to_user-verify_charger_password crypto charger now id point point password
          consumed assigned,
    )
