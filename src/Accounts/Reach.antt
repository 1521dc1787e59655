-- ===== src/Accounts/Reach.antt =====
-- The tables that the operations of givEVC-ocppv2/app/auth_store.py on users and chargers lead to.
use giv_evc_ocppv.Base.{ℕ, false, Option, [], ◌≡◌, Text}
use giv_evc_ocppv.Accounts.Tables.{User, Charger, Store, Crypto, ok}
use giv_evc_ocppv.Accounts.Users.{user_by_id, delete_user, create_user}
use giv_evc_ocppv.Accounts.Chargers.{
  active_of, delete_charger, switch_active_charger, list_chargers, assign_charger_to_user,
  claim_charger_by_password, set_offline_at,
}
use giv_evc_ocppv.Accounts.Choice.{ChoiceHolds}
use giv_evc_ocppv.Accounts.Assigned.{AssignedOnce}
use giv_evc_ocppv.Accounts.Ownership.{
  IsValid, create_user-IsValid, delete_user-IsValid, assign_charger_to_user-IsValid,
  claim_pending-IsValid, delete_charger-IsValid, switch_active_charger-IsValid,
  ensure_active_charger-IsValid, set_offline_at-IsValid,
}

-- The operations on users and on chargers.
pub data Step : Store → Store → Type 0 where
  registers :
      (crypto : Crypto) (id salt : Text) (now : ℕ) (email password : Text) (name : Option Text)
      (user : User) (s after : Store)
      → create_user crypto id salt now email password name s ≡ ok (user, after)
      → Step s after
  leaves : (id : Text) (s after : Store) → delete_user id s ≡ ok after → Step s after
  adopts :
      (charger : Text) (now : ℕ) (id point name : Text) (hash : Option Text) (row : Charger)
      (s after : Store)
      → assign_charger_to_user charger now id point name hash s ≡ ok (row, after)
      → Step s after
  claims :
      (crypto : Crypto) (charger : Text) (now : ℕ) (point password : Text) (s : Store)
      → Step s (claim_charger_by_password crypto charger now point password s).1
  deletes : (now : ℕ) (id charger : Text) (s : Store) → Step s (delete_charger now id charger s).1
  switches :
      (now : ℕ) (id charger : Text) (s after : Store)
      → switch_active_charger now id charger s ≡ ok after
      → Step s after
  lists : (now : ℕ) (id : Text) (s : Store) → Step s (list_chargers now id s).1
  reports : (moment : Option ℕ) (point : Text) (s : Store) → Step s (set_offline_at moment point s)

pub Step-IsValid : (s t : Store) → Step s t → IsValid s → IsValid t
unfolding list_chargers claim_charger_by_password
Step-IsValid s t (registers crypto id salt now email password name user _ _ h) valid =
    create_user-IsValid crypto id salt now email password name s valid h
Step-IsValid s t (leaves id _ _ h) valid = delete_user-IsValid id s valid h
Step-IsValid s t (adopts charger now id point name hash row _ _ h) valid =
    assign_charger_to_user-IsValid charger now id point name hash s valid h
Step-IsValid s t (claims crypto charger now point password _) valid =
    claim_pending-IsValid crypto charger now point password _ s valid
Step-IsValid s t (deletes now id charger _) valid = delete_charger-IsValid now id charger s valid
Step-IsValid s t (switches now id charger _ _ h) valid =
    switch_active_charger-IsValid now id charger s valid h
Step-IsValid s t (lists now id _) valid = ensure_active_charger-IsValid now id false s valid
Step-IsValid s t (reports moment point _) valid = set_offline_at-IsValid moment point s valid

-- The tables that the operations lead to from tables without users and chargers.
pub data Reachable : Store → Type 0 where
  start : (s : Store) → s.users ≡ [] → s.chargers ≡ [] → Reachable s
  step : (s t : Store) → Reachable s → Step s t → Reachable t

-- Whatever the users and the chargers do, the active charger of a user is a kept one that the user
-- owns, and no charge point belongs to two kept chargers.
pub Reachable-IsValid : (s : Store) → Reachable s → IsValid s
unfolding ChoiceHolds user_by_id active_of AssignedOnce
Reachable-IsValid s (start _ no_user no_charger) = record {
  choices = λ key charger chosen. cc (rw no_user at chosen);
  assigned_once = rw no_charger tt;
}
Reachable-IsValid t (step s _ before last) = Step-IsValid s t last (Reachable-IsValid s before)
