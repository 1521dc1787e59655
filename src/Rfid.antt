-- ===== src/Rfid.antt =====
-- The RFID tags of one charger that has a live state, in givEVC-ocppv2/app/ocpp/coordinator.py:
-- `async_save_rfid_tag`, `async_set_rfid_tag_enabled`, `async_delete_rfid_tag` and what they call. A
-- call to the charger is given by its reply; `meanwhile` is what other tasks do to the lists while it
-- is awaited, and `flags` says of each dict that was in the list before the call which flag `enabled`
-- they leave in it, as `async_set_rfid_tag_enabled` changes the dict itself. The text of an expiry date
-- is kept as it is given, where `_normalise_ocpp_datetime` rewrites it for the charger.
mod Entries
pub mod Unique
pub mod Outcomes
mod Examples
unfoldable pub use Entries.*
use giv_evc_ocppv.Base.{
  ℕ, zero, suc, ◌+◌, ℤ, pos, negsuc, Bool, true, false, ◌&&◌, ◌||◌, not, Option, none, some, List,
  [], ◌∷◌, ◌++◌, map, if◌then◌else◌, leb, ◌==◌, nat_comparable, Text, codes, strip, text_comparable,
  any, find, filter, length,
}

-- What the calls `GetLocalListVersion` and `SendLocalList` come back with: an exception, the
-- version where it is a number, or a status.
pub data VersionReply : Type 0 where
  no_version_reply : VersionReply
  version_reply : Option ℤ → VersionReply

pub data ListReply : Type 0 where
  no_list_reply : ListReply
  list_reply : Text → ListReply

pub record Charger : Type 0 where
  pub to_version : VersionReply
  pub to_list : ListReply

pub record Message : Type 0 where
  pub list_version : ℕ
  pub entries : List Entry

abbrev next_version : Option ℤ → ℕ
next_version (some (pos n)) = n + 1
next_version _ = 1

is_accepted : ListReply → Bool
is_accepted no_list_reply = false
is_accepted (list_reply status) = strip status == codes "Accepted"

-- `_async_send_local_authorization_update`, for entries that are not empty: the message that the
-- charger accepted, or None where the function raises.
unfoldable pub send_local_authorization_update : Charger → List Entry → Option Message
unfolding is_accepted
send_local_authorization_update charger entries = elim charger.to_version [
  | no_version_reply ↦ none
  | version_reply version ↦
      if is_accepted charger.to_list
      then some record { list_version = next_version version; entries = entries }
      else none
]

pub record Tags : Type 0 where
  pub live : List Tag
  pub stored : List Tag

-- Assignment to `state.rfid_tags` with `_persist_charge_point_state`.
abbrev pub persist : List Tag → Tags
persist tags = record { live = tags; stored = tags }

pub data Result : Type 0 where
  done : Tag → Option Message → Result
  rejected call_failed : Result

-- The message that a save needs: None where it raises, and the inner None where none is needed.
unfoldable pub save_message : Charger → Tag → Text → Option Tag → Option (Option Message)
unfolding requires_ocpp_update save_entries send_local_authorization_update
save_message charger new original previous =
    if requires_ocpp_update previous new original
    then (elim (send_local_authorization_update charger (save_entries previous new)) [
      | none ↦ none
      | some message ↦ some (some message)
    ])
    else some none

abbrev pub updated_tags : Tag → Scan → List Tag
updated_tags new found = if found.replaced then found.updated else found.updated ++ new ∷ []

-- A dict that the loop took over, as other tasks leave it during the call; the new tag is a dict of
-- this task's own, and the only one with its identifier.
abbrev pub with_flag : (Tag → Bool) → Tag → Tag → Tag
with_flag flags new tag =
    if tag.id_tag == new.id_tag then tag else record tag { enabled = flags tag }

-- The part after the call, given the message: the list is the one that the loop made before it, and
-- holds the same dicts as the list that other tasks have changed.
unfoldable pub save_sent :
    Option (Option Message) → Tag → Scan → (Tag → Bool) → (Tags → Tags) → Tags → Result × Tags
unfolding normalise_rfid_tag_list
save_sent none new found flags meanwhile tags = (call_failed, meanwhile tags)
save_sent (some message) new found flags meanwhile tags = (
  done new message,
  persist (normalise_rfid_tag_list (map (with_flag flags new) (updated_tags new found))),
)

-- The part after the loop.
unfoldable pub save_scanned :
    Option Scan → Tag → Text → Charger → (Tag → Bool) → (Tags → Tags) → Tags → Result × Tags
unfolding save_sent save_message
save_scanned none new original charger flags meanwhile tags = (rejected, tags)
save_scanned (some found) new original charger flags meanwhile tags =
    save_sent (save_message charger new original found.previous) new found flags meanwhile tags

-- The part after the tag is normalised.
unfoldable pub save_normalised :
    Option Tag → Text → Charger → (Tag → Bool) → (Tags → Tags) → Tags → Result × Tags
unfolding save_scanned scan
save_normalised none original charger flags meanwhile tags = (rejected, tags)
save_normalised (some new) original charger flags meanwhile tags =
    save_scanned (scan original new tags.live) new original charger flags meanwhile tags

unfoldable pub save_rfid_tag :
    Request → Charger → (Tag → Bool) → (Tags → Tags) → Tags → Result × Tags
unfolding normalise_rfid_tag save_normalised
save_rfid_tag request charger flags meanwhile tags =
    save_normalised (normalise_rfid_tag request) (strip request.original) charger flags meanwhile
      tags

-- The tags without those of an identifier.
unfoldable pub without_tag : Text → List Tag → List Tag
without_tag id tags = filter (λ tag. not (tag.id_tag == id)) tags

-- The part after the call. The number of tags is compared with the one from before the call, and a
-- deletion that seems to have done nothing is not stored.
unfoldable pub finish_delete : Text → Tag → Message → ℕ → Tags → Result × Tags
unfolding without_tag
finish_delete id target message before now =
    let remaining = without_tag id now.live in
    if length remaining == before
    then (rejected, record now { live = remaining })
    else (done target (some message), persist remaining)

unfoldable pub delete_sent : Option Message → Text → Tag → (Tags → Tags) → Tags → Result × Tags
unfolding finish_delete
delete_sent none id target meanwhile tags = (call_failed, meanwhile tags)
delete_sent (some message) id target meanwhile tags =
    finish_delete id target message (length tags.live) (meanwhile tags)

unfoldable pub delete_found : Option Tag → Text → Charger → (Tags → Tags) → Tags → Result × Tags
unfolding delete_sent send_local_authorization_update
delete_found none id charger meanwhile tags = (rejected, tags)
delete_found (some target) id charger meanwhile tags =
    delete_sent (send_local_authorization_update charger (withdraw target.id_tag ∷ [])) id target
      meanwhile tags

-- The first tag with an identifier.
abbrev pub find_tag : Text → List Tag → Option Tag
find_tag id tags = find (λ tag. tag.id_tag == id) tags

unfoldable pub delete_rfid_tag : Text → Charger → (Tags → Tags) → Tags → Result × Tags
unfolding delete_found
delete_rfid_tag id charger meanwhile tags =
    delete_found (find_tag id tags.live) id charger meanwhile tags

-- The loop that sets the flag of the first tag with an identifier.
unfoldable pub set_enabled_in : Text → Bool → List Tag → List Tag
set_enabled_in id enabled [] = []
set_enabled_in id enabled (tag ∷ tags) =
    if tag.id_tag == id
    then record tag { enabled = enabled } ∷ tags
    else tag ∷ set_enabled_in id enabled tags

abbrev flagged : Bool → Tag → Option Tag → Tag
flagged enabled target none = target
flagged enabled target (some tag) = record tag { enabled = enabled }

unfoldable pub finish_set_enabled : Text → Bool → Tag → Option Message → Tags → Result × Tags
unfolding set_enabled_in
finish_set_enabled id enabled target message now = (
  done (flagged enabled target (find_tag id now.live)) message,
  persist (set_enabled_in id enabled now.live),
)

unfoldable pub set_enabled_sent :
    Option Message → Text → Bool → Tag → (Tags → Tags) → Tags → Result × Tags
unfolding finish_set_enabled
set_enabled_sent none id enabled target meanwhile tags = (call_failed, meanwhile tags)
set_enabled_sent (some message) id enabled target meanwhile tags =
    finish_set_enabled id enabled target (some message) (meanwhile tags)

-- The part that tells the charger of the tag with its new flag.
unfoldable pub set_enabled_changed :
    Option Tag → Text → Bool → Tag → Charger → (Tags → Tags) → Tags → Result × Tags
unfolding set_enabled_sent local_authorization_entry send_local_authorization_update
set_enabled_changed none id enabled target charger meanwhile tags = (rejected, tags)
set_enabled_changed (some changed) id enabled target charger meanwhile tags =
    set_enabled_sent
      (send_local_authorization_update charger (local_authorization_entry changed ∷ [])) id enabled
      target meanwhile tags

unfoldable pub set_enabled_found :
    Option Tag → Text → Bool → Charger → (Tags → Tags) → Tags → Result × Tags
unfolding set_enabled_changed finish_set_enabled normalise_rfid_tag
set_enabled_found none id enabled charger meanwhile tags = (rejected, tags)
set_enabled_found (some target) id enabled charger meanwhile tags =
    if same_flag target.enabled enabled
    then finish_set_enabled id enabled target none tags
    else set_enabled_changed (normalise_rfid_tag (request_of (record target { enabled = enabled })))
        id enabled target charger meanwhile tags

unfoldable pub set_rfid_tag_enabled : Text → Bool → Charger → (Tags → Tags) → Tags → Result × Tags
unfolding set_enabled_found
set_rfid_tag_enabled id enabled charger meanwhile tags =
    set_enabled_found (find_tag id tags.live) id enabled charger meanwhile tags
