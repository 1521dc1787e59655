-- ===== src/Accounts/Chargers.antt =====
-- The chargers of an account in givEVC-ocppv2/app/auth_store.py: adoption, the active charger and the
-- onboarding of a charger by its password.
use giv_evc_ocppv.Base.{
  ℕ, ◌+◌, Bool, true, false, ◌&&◌, not, Option, none, some, List, [], ◌∷◌, ◌++◌, if◌then◌else◌, ltb,
  ◌==◌, text_comparable, any, find, filter, Text, strip,
}
use giv_evc_ocppv.Accounts.Tables.{
  User, Charger, Onboarding, Store, Crypto, Result, ok, err, ◌>>=◌, ◌>>◌, require, row_or, is_set,
  user_not_found, charger_not_found, charger_taken, missing_charge_point_id, update_where,
  delete_where, latest_by,
}
use giv_evc_ocppv.Accounts.Email.{is_nonempty}
use giv_evc_ocppv.Accounts.Users.{user_by_id, update_user}

abbrev pub is_kept : Charger → Bool
is_kept c = not (is_set c.deleted_at)

-- `WHERE id = ? AND user_id = ? AND deleted_at IS NULL`
unfoldable pub owns : Text → Text → List Charger → Bool
owns id charger chargers =
    any (λ c. c.charger_id == charger && (c.owner_id == id && is_kept c)) chargers

-- The charger of the user that was adopted last.
unfoldable pub replacement : Text → List Charger → Option Text
unfolding latest_by
replacement id chargers =
    elim (latest_by (λ c. c.adopted_at) (filter (λ c. c.owner_id == id && is_kept c) chargers)) [
      | none ↦ none
      | some c ↦ some c.charger_id
    ]

abbrev pub with_active : Option Text → ℕ → User → User
with_active charger now user = record user { active_charger_id = charger; updated_at = now }

unfoldable pub active_of : Option User → Option Text
active_of none = none
active_of (some user) = user.active_charger_id

-- The charger that the user has chosen is one of the user's.
unfoldable pub is_valid_choice : Text → Option Text → List Charger → Bool
unfolding owns
is_valid_choice id none chargers = false
is_valid_choice id (some charger) chargers = owns id charger chargers

unfoldable pub ensure_active_charger : ℕ → Text → Bool → Store → Store
unfolding user_by_id update_user replacement is_valid_choice active_of
ensure_active_charger now id force s =
    if not force && is_valid_choice id (active_of (user_by_id id s.users)) s.chargers
    then s
    else update_user id (with_active (replacement id s.chargers) now) s

-- `list_chargers` makes the choice valid before it reads the rows.
unfoldable pub list_chargers : ℕ → Text → Store → List Charger × Store
unfolding ensure_active_charger
list_chargers now id s =
    (filter (λ c. c.owner_id == id && is_kept c) s.chargers, ensure_active_charger now id false s)

unfoldable pub chosen_charger : Text → Option Text → List Charger → Option Charger
chosen_charger id none chargers = none
chosen_charger id (some charger) chargers =
    find (λ c. c.charger_id == charger && (c.owner_id == id && is_kept c)) chargers

unfoldable pub get_active_charger : ℕ → Text → Store → Option Charger × Store
unfolding ensure_active_charger chosen_charger active_of user_by_id
get_active_charger now id s =
    let after = ensure_active_charger now id false s in
    (chosen_charger id (active_of (user_by_id id after.users)) after.chargers, after)

-- The charger is the active one of the user.
unfoldable pub is_active : Text → Text → Store → Bool
unfolding active_of user_by_id
is_active id charger s = elim (active_of (user_by_id id s.users)) [
  | none ↦ false
  | some active ↦ active == charger
]

unfoldable pub mark_deleted : ℕ → Text → Text → List Charger → List Charger
unfolding update_where
mark_deleted now id charger chargers =
    update_where (λ c. c.charger_id == charger && (c.owner_id == id && is_kept c))
      (λ c. record c { deleted_at = some now }) chargers

unfoldable pub delete_charger : ℕ → Text → Text → Store → Bool × Store
unfolding owns mark_deleted is_active ensure_active_charger
delete_charger now id charger s =
    let deleted = record s { chargers = mark_deleted now id charger s.chargers } in
    if owns id charger s.chargers
    then (
      true,
      if is_active id charger s then ensure_active_charger now id true deleted else deleted,
    )
    else (false, s)

unfoldable pub switch_active_charger : ℕ → Text → Text → Store → Result Store
unfolding owns update_user
switch_active_charger now id charger s = do
  require (owns id charger s.chargers) charger_not_found
  ok (update_user id (with_active (some charger) now) s)

-- `WHERE charge_point_id = ? AND deleted_at IS NULL`
unfoldable pub is_assigned : Text → List Charger → Bool
is_assigned charge_point chargers =
    any (λ c. c.charge_point_id == charge_point && is_kept c) chargers

abbrev pub name_or : Text → Text → Text
name_or [] default = default
name_or (c ∷ cs) default = c ∷ cs

-- The row of a charger that is adopted.
abbrev pub new_charger : Text → Text → Text → Text → Option Text → ℕ → Charger
new_charger charger id charge_point name password_hash now = record {
  charger_id = charger;
  owner_id = id;
  charge_point_id = charge_point;
  charger_name = name;
  ocpp_password_hash = password_hash;
  went_offline_at = none;
  adopted_at = now;
  deleted_at = none;
}

unfoldable pub enabled_user : Text → List User → Option User
enabled_user id users = find (λ u. u.user_id == id && not (is_set u.disabled_at)) users

-- `charger_id` is random.
unfoldable pub assign_charger_to_user :
    Text → ℕ → Text → Text → Text → Option Text → Store → Result (Charger × Store)
unfolding is_assigned enabled_user ensure_active_charger
assign_charger_to_user charger now id charge_point display_name password_hash s = do
  require (is_nonempty (strip charge_point)) missing_charge_point_id
  user ← row_or (enabled_user id s.users) user_not_found
  require (not (is_assigned (strip charge_point) s.chargers)) charger_taken
  let name = name_or display_name (strip charge_point)
  let row = new_charger charger id (strip charge_point) name password_hash now
  ok (row, ensure_active_charger now id false (record s { chargers = s.chargers ++ row ∷ [] }))

abbrev pub onboarding_seconds : ℕ
onboarding_seconds = 1800

unfoldable pub create_onboarding_session : Crypto → Text → Text → ℕ → Text → Store → Store
create_onboarding_session crypto row_id password now id s = record s {
  onboardings =
      s.onboardings
      ++ record {
        onboarding_id = row_id;
        onboarding_user = id;
        onboarding_hash = crypto.hash_secret password;
        onboarding_created = now;
        onboarding_expires = now + onboarding_seconds;
        onboarding_consumed = none;
      }
        ∷ [];
}

unfoldable pub delete_onboarding_session : Text → Text → Store → Bool × Store
unfolding delete_where
delete_onboarding_session id row_id s = (
  any (λ r. r.onboarding_id == row_id && r.onboarding_user == id) s.onboardings,
  record s {
    onboardings =
        delete_where (λ r. r.onboarding_id == row_id && r.onboarding_user == id) s.onboardings;
  },
)

-- `ORDER BY created_at ASC`, and the first.
unfoldable pub earliest : List Onboarding → Option Onboarding
earliest [] = none
earliest (row ∷ rows) = elim (earliest rows) [
  | none ↦ some row
  | some other ↦
      if ltb other.onboarding_created row.onboarding_created then some other else some row
]

-- The pending onboarding that a password is of.
unfoldable pub pending_onboarding : Text → ℕ → List Onboarding → Option Onboarding
unfolding earliest
pending_onboarding hash now rows = earliest (
    filter
      (λ r.
        not (is_set r.onboarding_consumed)
        && (ltb now r.onboarding_expires && r.onboarding_hash == hash))
      rows)

unfoldable pub is_demo_user : Option User → Bool
is_demo_user none = false
is_demo_user (some user) = user.is_demo

unfoldable pub consume_onboarding : ℕ → Text → Store → Store
unfolding update_where
consume_onboarding now row_id s = record s {
  onboardings =
      update_where (λ r. r.onboarding_id == row_id)
        (λ r. record r { onboarding_consumed = some now }) s.onboardings;
}

-- The adoption after the onboarding is consumed, in a transaction of its own.
unfoldable pub finish_claim : Result (Charger × Store) → Store → Result (Option Charger) × Store
finish_claim (err e) s = (err e, s)
finish_claim (ok (charger, adopted)) s = (ok (some charger), adopted)

unfoldable pub claim_pending :
    Crypto → Text → ℕ → Text → Text → Option Onboarding → Store → Result (Option Charger) × Store
unfolding is_demo_user consume_onboarding finish_claim assign_charger_to_user user_by_id
claim_pending crypto charger now charge_point password none s = (ok none, s)
claim_pending crypto charger now charge_point password (some row) s =
    let consumed = consume_onboarding now row.onboarding_id s in
    if is_demo_user (user_by_id row.onboarding_user s.users)
    then (ok none, s)
    else finish_claim
        (assign_charger_to_user charger now row.onboarding_user charge_point charge_point
          (some (crypto.hash_secret password)) consumed)
        consumed

unfoldable pub claim_charger_by_password :
    Crypto → Text → ℕ → Text → Text → Store → Result (Option Charger) × Store
unfolding claim_pending pending_onboarding
claim_charger_by_password crypto charger now charge_point password s =
    claim_pending crypto charger now charge_point password
      (pending_onboarding (crypto.hash_secret password) now s.onboardings) s

unfoldable pub accepts_password : Crypto → Text → Option Charger → Bool
accepts_password crypto password none = false
accepts_password crypto password (some charger) = elim charger.ocpp_password_hash [
  | none ↦ true
  | some hash ↦ crypto.hash_secret password == hash
]

-- The kept charger of a charge point.
abbrev pub kept_charger : Text → Store → Option Charger
kept_charger charge_point s = find (λ c. c.charge_point_id == charge_point && is_kept c) s.chargers

unfoldable pub verify_charger_password : Crypto → Text → Text → Store → Bool
unfolding accepts_password
verify_charger_password crypto charge_point password s =
    accepts_password crypto password (kept_charger charge_point s)

unfoldable pub set_offline_at : Option ℕ → Text → Store → Store
unfolding update_where
set_offline_at moment charge_point s = record s {
  chargers =
      update_where (λ c. c.charge_point_id == charge_point && is_kept c)
        (λ c. record c { went_offline_at = moment }) s.chargers;
}

abbrev pub record_charger_offline : ℕ → Text → Store → Store
record_charger_offline now charge_point s = set_offline_at (some now) charge_point s

abbrev pub record_charger_online : Text → Store → Store
record_charger_online charge_point s = set_offline_at none charge_point s
