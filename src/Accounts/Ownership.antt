-- ===== src/Accounts/Ownership.antt =====
-- The chargers of the accounts under every operation of givEVC-ocppv2/app/auth_store.py on users and
-- chargers: each active charger is an owned one, and each charge point is assigned once.
use giv_evc_ocppv.Base.{
  ℕ, Bool, false, not, Option, none, some, List, [], ◌∷◌, ◌++◌, ◌≡◌, refl, ◌∙◌, sym, ap, ◌==◌,
  text_comparable, Text, strip, arith, Bool-cases, inl, inr,
}
use giv_evc_ocppv.Accounts.Tables.{
  User, Charger, Onboarding, Store, Crypto, Result, ok, err, missing_charge_point_id,
  user_not_found, charger_taken, charger_not_found,
}
use giv_evc_ocppv.Accounts.Email.{is_nonempty}
use giv_evc_ocppv.Accounts.Users.{user_by_id, update_user, delete_user, create_user}
use giv_evc_ocppv.Accounts.Chargers.{
  new_charger, name_or, enabled_user, is_active, owns, is_assigned, ensure_active_charger,
  mark_deleted, delete_charger, switch_active_charger, assign_charger_to_user, consume_onboarding,
  finish_claim, claim_pending, is_demo_user, set_offline_at,
}
use giv_evc_ocppv.Accounts.Inversion.{ok_inj, require-ok, row_or-ok}
use giv_evc_ocppv.Accounts.Registration.{create_user-IsRegistered}
use giv_evc_ocppv.Accounts.Rows.{any-update_where}
use giv_evc_ocppv.Accounts.Choice.{
  ChoiceHolds, ensure_active_charger-ChoiceHolds, delete_charger-ChoiceHolds,
  switch_active_charger-ChoiceHolds, append-ChoiceHolds, delete_user-ChoiceHolds, owns-ChoiceHolds,
  append_user-ChoiceHolds,
}
use giv_evc_ocppv.Accounts.Assigned.{
  AssignedOnce, append-AssignedOnce, update_where-AssignedOnce, delete_where-AssignedOnce,
}

pub record IsValid (s : Store) : Type 0 where
  pub choices : (key : Text) → ChoiceHolds s key
  pub assigned_once : AssignedOnce s.chargers

pub ensure_active_charger-chargers :
    (now : ℕ) (id : Text) (force : Bool) (s : Store)
    → (ensure_active_charger now id force s).chargers ≡ s.chargers
unfolding ensure_active_charger update_user
ensure_active_charger-chargers now id force s = ground arith

pub ensure_active_charger-IsValid :
    (now : ℕ) (id : Text) (force : Bool) (s : Store)
    → IsValid s
    → IsValid (ensure_active_charger now id force s)
ensure_active_charger-IsValid now id force s valid = record {
  choices =
      λ key. ensure_active_charger-ChoiceHolds now id key force s (λ differ. valid.choices key);
  assigned_once = rw (ensure_active_charger-chargers now id force s) valid.assigned_once;
}

mark_deleted-AssignedOnce :
    (now : ℕ) (id charger : Text) (chargers : List Charger)
    → AssignedOnce chargers
    → AssignedOnce (mark_deleted now id charger chargers)
unfolding mark_deleted
mark_deleted-AssignedOnce now id charger chargers once =
    update_where-AssignedOnce _ (λ c. record c { deleted_at = some now }) (λ c. refl) (λ c gone. cc)
      chargers once

pub delete_charger-IsValid :
    (now : ℕ) (id charger : Text) (s : Store)
    → IsValid s
    → IsValid (delete_charger now id charger s).1
unfolding delete_charger update_user
delete_charger-IsValid now id charger s valid = record {
  choices = delete_charger-ChoiceHolds now id charger s valid.choices;
  assigned_once = elim (Bool-cases (owns id charger s.chargers)) [
    | inr absent ↦ rw (delete_charger, absent) valid.assigned_once
    | inl found ↦ rw found (elim (Bool-cases (is_active id charger s)) [
      | inl active ↦
          rw active (mark_deleted-AssignedOnce now id charger s.chargers valid.assigned_once)
      | inr inactive ↦
          rw inactive (mark_deleted-AssignedOnce now id charger s.chargers valid.assigned_once)
    ])
  ];
}

pub switch_active_charger-IsValid :
    (now : ℕ) (id charger : Text) (s : Store) {after : Store}
    → IsValid s
    → switch_active_charger now id charger s ≡ ok after
    → IsValid after
unfolding switch_active_charger update_user
switch_active_charger-IsValid now id charger s {after} valid h =
    let (owned, made) = require-ok (owns id charger s.chargers) charger_not_found _ h in
    let equal = ok_inj made in
    record {
      choices = switch_active_charger-ChoiceHolds now id charger s valid.choices h;
      assigned_once = rw (ap (λ t. t.chargers) (sym equal)) valid.assigned_once;
    }

pub assign_charger_to_user-ok :
    (charger : Text) (now : ℕ) (id point name : Text) (hash : Option Text) (s : Store)
    {row : Charger} {after : Store}
    → assign_charger_to_user charger now id point name hash s ≡ ok (row, after)
    → (is_assigned (strip point) s.chargers ≡ false)
      × (row ≡ new_charger charger id (strip point) (name_or name (strip point)) hash now)
      × (after
          ≡ ensure_active_charger now id false (record s { chargers = s.chargers ++ row ∷ [] }))
unfolding assign_charger_to_user
assign_charger_to_user-ok charger now id point name hash s {row} {after} h =
    let (given, more) = require-ok (is_nonempty (strip point)) missing_charge_point_id _ h in
    let (user, found, rest) = row_or-ok (enabled_user id s.users) user_not_found _ more in
    let (free, made) =
      require-ok (not (is_assigned (strip point) s.chargers)) charger_taken _ rest in
    let equal = ok_inj made in
    let same_row = ap (λ r. r.0) (sym equal) in
    (ground (arith, free), same_row, rw same_row (ap (λ r. r.1) (sym equal)))

pub assign_charger_to_user-IsValid :
    (charger : Text) (now : ℕ) (id point name : Text) (hash : Option Text) (s : Store)
    {row : Charger} {after : Store}
    → IsValid s
    → assign_charger_to_user charger now id point name hash s ≡ ok (row, after)
    → IsValid after
assign_charger_to_user-IsValid charger now id point name hash s {row} {after} valid h =
    let (free, same_row, equal) = assign_charger_to_user-ok charger now id point name hash s h in
    rw equal (
      ensure_active_charger-IsValid now id false _ (record {
        choices = λ key. append-ChoiceHolds key s (row ∷ []) (valid.choices key);
        assigned_once = append-AssignedOnce s.chargers row (rw same_row free) valid.assigned_once;
      }))

pub set_offline_at-IsValid :
    (moment : Option ℕ) (point : Text) (s : Store)
    → IsValid s
    → IsValid (set_offline_at moment point s)
unfolding set_offline_at owns
set_offline_at-IsValid moment point s valid = record {
  choices = λ key.
      owns-ChoiceHolds key s _
        (λ charger h.
          any-update_where _ _ (λ c. record c { went_offline_at = moment }) s.chargers
            (λ c found. refl)
          ∙ h)
        (valid.choices key);
  assigned_once =
      update_where-AssignedOnce _ (λ c. record c { went_offline_at = moment }) (λ c. refl)
        (λ c kept. kept) s.chargers valid.assigned_once;
}

pub delete_user-IsValid :
    (id : Text) (s : Store) {after : Store}
    → IsValid s
    → delete_user id s ≡ ok after
    → IsValid after
unfolding delete_user
delete_user-IsValid id s {after} valid h =
    let (user, found, made) = row_or-ok (user_by_id id s.users) user_not_found _ h in
    record {
      choices = delete_user-ChoiceHolds id s valid.choices h;
      assigned_once =
          rw (ap (λ t. t.chargers) (sym (ok_inj made)))
            (delete_where-AssignedOnce (λ c. c.owner_id == id) s.chargers valid.assigned_once);
    }

-- A change of the tables that leaves the users and the chargers.
pub same-IsValid :
    (s t : Store) → t.users ≡ s.users → t.chargers ≡ s.chargers → IsValid s → IsValid t
unfolding ChoiceHolds
same-IsValid s t users chargers valid = record {
  choices = λ key charger chosen. rw chargers (valid.choices key charger (rw users at chosen));
  assigned_once = rw chargers valid.assigned_once;
}

finish_claim-IsValid :
    (result : Result (Charger × Store)) (s : Store)
    → IsValid s
    → ((row : Charger) (after : Store) → result ≡ ok (row, after) → IsValid after)
    → IsValid (finish_claim result s).1
unfolding finish_claim
finish_claim-IsValid (err e) s valid adopted = valid
finish_claim-IsValid (ok (row, after)) s valid adopted = adopted row after refl

pub claim_pending-IsValid :
    (crypto : Crypto) (charger : Text) (now : ℕ) (point password : Text) (row : Option Onboarding)
    (s : Store)
    → IsValid s
    → IsValid (claim_pending crypto charger now point password row s).1
unfolding claim_pending consume_onboarding
claim_pending-IsValid crypto charger now point password none s valid = valid
claim_pending-IsValid crypto charger now point password (some row) s valid =
    elim (Bool-cases (is_demo_user (user_by_id row.onboarding_user s.users))) [
      | inl demo ↦ rw demo valid
      | inr real ↦ rw real (
          let consumed = consume_onboarding now row.onboarding_id s in
          let still = same-IsValid s consumed refl refl valid in
          let hash = some (crypto.hash_secret password) in
          finish_claim-IsValid
            (assign_charger_to_user charger now row.onboarding_user point point hash consumed)
            consumed still
            (λ c after adopted.
              assign_charger_to_user-IsValid charger now row.onboarding_user point point hash
                consumed still adopted))
    ]

pub create_user-IsValid :
    (crypto : Crypto) (id salt : Text) (now : ℕ) (email password : Text) (name : Option Text)
    (s : Store) {user : User} {after : Store}
    → IsValid s
    → create_user crypto id salt now email password name s ≡ ok (user, after)
    → IsValid after
create_user-IsValid crypto id salt now email password name s {user} {after} valid h =
    let registered = create_user-IsRegistered crypto id salt now email password name s h in
    rw registered.added (record {
      choices = λ key.
          append_user-ChoiceHolds key s user (ap (λ u. u.active_charger_id) registered.new_row)
            (valid.choices key);
      assigned_once = valid.assigned_once;
    })
