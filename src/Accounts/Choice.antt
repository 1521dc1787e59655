-- ===== src/Accounts/Choice.antt =====
-- The active charger of each user under the operations of givEVC-ocppv2/app/auth_store.py.
use giv_evc_ocppv.Base.{
  ℕ, Bool, true, false, ◌&&◌, not, Option, none, some, List, [], ◌∷◌, ◌++◌, ◌≡◌, refl, ◌∙◌, sym, ap,
  ◌==◌, text_comparable, text_beq_sound, find, Text, arith, Bool-cases, Option-cases, inl, inr,
}
use giv_evc_ocppv.Accounts.Tables.{
  User, Charger, Store, ok, delete_where, charger_not_found, user_not_found,
}
use giv_evc_ocppv.Accounts.Users.{user_by_id, update_user, delete_user}
use giv_evc_ocppv.Accounts.Chargers.{
  owns, replacement, with_active, active_of, is_valid_choice, ensure_active_charger, is_active,
  mark_deleted, delete_charger, switch_active_charger,
}
use giv_evc_ocppv.Accounts.Inversion.{ok_inj, require-ok, row_or-ok}
use giv_evc_ocppv.Accounts.Rows.{
  find-append, find-append_found, map_option, find-update_where, find-update_where_apart,
  find-delete_where, find-delete_where_gone, beq_apart,
}
use giv_evc_ocppv.Accounts.Owned.{
  replacement-owns, owns-mark_deleted, owns-delete_where, owns-append,
}

-- The active charger of a user, if there is one, is a kept charger that the user owns.
unfoldable pub ChoiceHolds : Store → Text → Type 0
ChoiceHolds s id =
    (charger : Text)
    → active_of (user_by_id id s.users) ≡ some charger
    → owns id charger s.chargers ≡ true

active_of-map_option :
    (charger : Option Text) (now : ℕ) (user : Option User) {active : Text}
    → active_of (map_option (with_active charger now) user) ≡ some active
    → charger ≡ some active
unfolding active_of
active_of-map_option charger now none h = cc
active_of-map_option charger now (some user) h = h

-- The lookup of the user whose choice changes, and of another one.
update_user-active :
    (id charger : Text) (choice : Option Text) (now : ℕ) (s : Store)
    → active_of (user_by_id id (update_user id (with_active choice now) s).users) ≡ some charger
    → choice ≡ some charger
unfolding update_user user_by_id
update_user-active id charger choice now s h =
    active_of-map_option choice now (find (λ u. u.user_id == id) s.users) (
      ap active_of (
        sym (find-update_where (λ u. u.user_id == id) (with_active choice now) s.users (λ u. refl)))
      ∙ h)

user_by_id-update_user :
    (id key : Text) (choice : Option Text) (now : ℕ) (s : Store)
    → (key == id) ≡ false
    → user_by_id key (update_user id (with_active choice now) s).users ≡ user_by_id key s.users
unfolding update_user user_by_id
user_by_id-update_user id key choice now s differ =
    find-update_where_apart (λ u. u.user_id == key) (λ u. u.user_id == id) (with_active choice now)
      s.users (λ u. refl) (λ u mine. beq_apart u.user_id key id differ mine)

-- A change of the choice to an owned charger.
update_user-ChoiceHolds :
    (id key : Text) (choice : Option Text) (now : ℕ) (s : Store)
    → ((charger : Text) → choice ≡ some charger → owns id charger s.chargers ≡ true)
    → ((key == id) ≡ false → ChoiceHolds s key)
    → ChoiceHolds (update_user id (with_active choice now) s) key
unfolding ChoiceHolds update_user
update_user-ChoiceHolds id key choice now s owned others = elim (Bool-cases (key == id)) [
  | inl same ↦
      let key_id = text_beq_sound key id same in
      λ charger chosen.
        rw key_id (owned charger (update_user-active id charger choice now s (rw key_id at chosen)))
  | inr differ ↦ λ charger chosen.
      others differ charger
        (ap active_of (sym (user_by_id-update_user id key choice now s differ)) ∙ chosen)
]

is_valid_choice-ChoiceHolds :
    (id : Text) (s : Store)
    → is_valid_choice id (active_of (user_by_id id s.users)) s.chargers ≡ true
    → ChoiceHolds s id
unfolding ChoiceHolds is_valid_choice
is_valid_choice-ChoiceHolds id s valid charger chosen = rw chosen at valid

-- The choice of the user holds afterwards whatever it was, and the others' hold as before.
pub ensure_active_charger-ChoiceHolds :
    (now : ℕ) (id key : Text) (force : Bool) (s : Store)
    → ((key == id) ≡ false → ChoiceHolds s key)
    → ChoiceHolds (ensure_active_charger now id force s) key
unfolding ensure_active_charger
ensure_active_charger-ChoiceHolds now id key force s others =
    elim (Bool-cases
      (not force && is_valid_choice id (active_of (user_by_id id s.users)) s.chargers)) [
        | inl kept ↦ rw kept (elim (Bool-cases (key == id)) [
          | inl same ↦
              rw (text_beq_sound key id same)
                (is_valid_choice-ChoiceHolds id s (ground (arith, kept)))
          | inr differ ↦ others differ
        ])
        | inr changed ↦ rw changed (
            update_user-ChoiceHolds id key (replacement id s.chargers) now s
              (λ charger found. replacement-owns id s.chargers found) others)
      ]

-- A change of the chargers that takes none from a user.
pub owns-ChoiceHolds :
    (key : Text) (s : Store) (chargers : List Charger)
    → ((charger : Text) → owns key charger s.chargers ≡ true → owns key charger chargers ≡ true)
    → ChoiceHolds s key
    → ChoiceHolds (record s { chargers = chargers }) key
unfolding ChoiceHolds
owns-ChoiceHolds key s chargers more holds charger chosen = more charger (holds charger chosen)

delete_kept-ChoiceHolds :
    (now : ℕ) (id charger key : Text) (s : Store)
    → is_active id charger s ≡ false
    → ChoiceHolds s key
    → ChoiceHolds (record s { chargers = mark_deleted now id charger s.chargers }) key
unfolding ChoiceHolds is_active
delete_kept-ChoiceHolds now id charger key s inactive holds other chosen =
    owns-mark_deleted now id charger key other s.chargers
      (elim (Bool-cases (key == id)) [
        | inr differ ↦ rw differ
        | inl same ↦
            let mine = rw (text_beq_sound key id same) at chosen in
            rw (same, rw (is_active, mine) at inactive)
      ])
      (holds other chosen)

-- The choices hold after the deletion of a charger, of the active one too.
pub delete_charger-ChoiceHolds :
    (now : ℕ) (id charger : Text) (s : Store)
    → ((key : Text) → ChoiceHolds s key)
    → (key : Text) → ChoiceHolds (delete_charger now id charger s).1 key
unfolding delete_charger
delete_charger-ChoiceHolds now id charger s holds key =
    elim (Bool-cases (owns id charger s.chargers)) [
      | inr absent ↦ rw (delete_charger, absent) (holds key)
      | inl found ↦ elim (Bool-cases (is_active id charger s)) [
        | inr inactive ↦
            rw (found, inactive) (delete_kept-ChoiceHolds now id charger key s inactive (holds key))
        | inl active ↦
            rw (found, active)
              (ensure_active_charger-ChoiceHolds now id key true
                (record s { chargers = mark_deleted now id charger s.chargers })
                (λ differ.
                  owns-ChoiceHolds key s _
                    (λ other mine.
                      owns-mark_deleted now id charger key other s.chargers (ground (arith, differ))
                        mine)
                    (holds key)))
      ]
    ]

-- A choice that is accepted holds.
pub switch_active_charger-ChoiceHolds :
    (now : ℕ) (id charger : Text) (s : Store) {after : Store}
    → ((key : Text) → ChoiceHolds s key)
    → switch_active_charger now id charger s ≡ ok after
    → (key : Text) → ChoiceHolds after key
unfolding switch_active_charger
switch_active_charger-ChoiceHolds now id charger s {after} holds h key =
    let (owned, made) = require-ok (owns id charger s.chargers) charger_not_found _ h in
    let equal = ok_inj made in
    rw (← equal) (
      update_user-ChoiceHolds id key (some charger) now s
        (λ other chosen. let same : charger ≡ other = cc in rw (← same) owned)
        (λ differ. holds key))

pub append-ChoiceHolds :
    (key : Text) (s : Store) (more : List Charger)
    → ChoiceHolds s key
    → ChoiceHolds (record s { chargers = s.chargers ++ more }) key
append-ChoiceHolds key s more holds =
    owns-ChoiceHolds key s (s.chargers ++ more)
      (λ charger h. owns-append key charger s.chargers more h) holds

pub append_user-ChoiceHolds :
    (key : Text) (s : Store) (user : User)
    → user.active_charger_id ≡ none
    → ChoiceHolds s key
    → ChoiceHolds (record s { users = s.users ++ user ∷ [] }) key
unfolding ChoiceHolds user_by_id active_of
append_user-ChoiceHolds key s user undecided holds charger chosen =
    elim (Option-cases (find (λ u. u.user_id == key) s.users)) [
      | inl absent ↦
          let new = rw (find-append (λ u. u.user_id == key) s.users (user ∷ []) absent) at chosen in
          elim (Bool-cases (user.user_id == key)) [
            | inl same ↦ cc (rw (same, undecided) at new)
            | inr differ ↦ cc (rw differ at new)
          ]
      | inr (other, found) ↦
          let old =
            rw (find-append_found (λ u. u.user_id == key) s.users (user ∷ []) found) at chosen in
          holds charger (rw found old)
    ]

without_user :
    (id : Text) (s : Store)
    → ((key : Text) → ChoiceHolds s key)
    → (key charger : Text)
    → active_of (user_by_id key (delete_where (λ u. u.user_id == id) s.users)) ≡ some charger
    → owns key charger (delete_where (λ c. c.owner_id == id) s.chargers) ≡ true
unfolding ChoiceHolds user_by_id active_of
without_user id s holds key charger chosen = elim (Bool-cases (key == id)) [
  | inl same ↦
      let gone =
        find-delete_where_gone (λ u. u.user_id == key) (λ u. u.user_id == id) s.users
          (λ u mine. rw (← text_beq_sound key id same) mine) in
      cc (rw gone at chosen)
  | inr differ ↦
      let kept =
        find-delete_where (λ u. u.user_id == key) (λ u. u.user_id == id) s.users
          (λ u mine. beq_apart u.user_id key id differ mine) in
      owns-delete_where id key charger s.chargers differ (holds key charger (rw kept at chosen))
]

-- The choices of the other users hold after the deletion of a user.
pub delete_user-ChoiceHolds :
    (id : Text) (s : Store) {after : Store}
    → ((key : Text) → ChoiceHolds s key)
    → delete_user id s ≡ ok after
    → (key : Text) → ChoiceHolds after key
unfolding delete_user ChoiceHolds
delete_user-ChoiceHolds id s {after} holds h key =
    let (user, found, made) = row_or-ok (user_by_id id s.users) user_not_found _ h in
    let equal = ok_inj made in rw (← equal) (without_user id s holds key)
