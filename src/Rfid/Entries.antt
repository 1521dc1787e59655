-- ===== src/Rfid/Entries.antt =====
-- An RFID tag in givEVC-ocppv2/app/ocpp/coordinator.py: `_normalise_rfid_tag`,
-- `_normalise_rfid_tag_list`, the loop of `async_save_rfid_tag`, and the entries that the charger is
-- sent.
use giv_evc_ocppv.Base.{
  ◌+◌, Bool, true, false, ◌&&◌, ◌||◌, not, Option, none, some, List, [], ◌∷◌, map, if◌then◌else◌,
  leb, ◌==◌, nat_comparable, Text, strip, text_comparable, any,
}

pub record Tag : Type 0 where
  pub id_tag : Text
  pub alias : Option Text
  pub expires_at : Option Text
  pub enabled : Bool

-- What the portal sends; `given_id` is the first of `id_tag` and `idTag` that is not empty, and
-- `given_expiry` the first of `expires_at` and `expiresAt`; a missing text is the empty one.
pub record Request : Type 0 where
  pub original : Text
  pub given_id : Text
  pub given_alias : Text
  pub given_expiry : Text
  pub given_enabled : Bool

-- `text or None`
abbrev pub or_none : Text → Option Text
or_none [] = none
or_none (c ∷ cs) = some (c ∷ cs)

-- `str(text or "")`
abbrev pub or_empty : Option Text → Text
or_empty none = []
or_empty (some text) = text

-- `.casefold()` on ASCII.
abbrev pub casefold : Text → Text
casefold text = map (λ c. if leb 65 c && leb c 90 then c + 32 else c) text

tag_with_id : Text → Request → Option Tag
tag_with_id [] request = none
tag_with_id (c ∷ cs) request = some record {
  id_tag = c ∷ cs;
  alias = or_none (strip request.given_alias);
  expires_at = or_none (strip request.given_expiry);
  enabled = request.given_enabled;
}

-- None where the function raises.
unfoldable pub normalise_rfid_tag : Request → Option Tag
unfolding tag_with_id
normalise_rfid_tag request = tag_with_id (strip request.given_id) request

-- A tag as the function reads it again.
abbrev pub request_of : Tag → Request
request_of tag = record {
  original = [];
  given_id = tag.id_tag;
  given_alias = or_empty tag.alias;
  given_expiry = or_empty tag.expires_at;
  given_enabled = tag.enabled;
}

abbrev pub has_id : Text → List Tag → Bool
has_id id tags = any (λ tag. tag.id_tag == id) tags

-- The loop of `_normalise_rfid_tag_list`; `seen` holds the tags that are in the list so far.
unfoldable pub normalise_loop : List Tag → List Tag → List Tag
unfolding normalise_rfid_tag
normalise_loop seen [] = []
normalise_loop seen (raw ∷ rest) = elim (normalise_rfid_tag (request_of raw)) [
  | none ↦ normalise_loop seen rest
  | some item ↦
      let skipped = normalise_loop seen rest in
      let kept = normalise_loop (item ∷ seen) rest in
      if has_id item.id_tag seen then skipped else item ∷ kept
]

unfoldable pub normalise_rfid_tag_list : List Tag → List Tag
unfolding normalise_loop
normalise_rfid_tag_list tags = normalise_loop [] tags

-- What the loop of `async_save_rfid_tag` has made of a part of the list.
pub record Scan : Type 0 where
  pub updated : List Tag
  pub replaced : Bool
  pub previous : Option Tag

abbrev pub first_given : Option Tag → Option Tag → Option Tag
first_given none other = other
first_given (some tag) other = some tag

-- The new tag takes the place of an item; the last item that is replaced is `previous`.
unfoldable pub put_in_place : Tag → Tag → Option Scan → Option Scan
unfolding normalise_rfid_tag
put_in_place new item none = none
put_in_place new item (some rest) = elim (normalise_rfid_tag (request_of item)) [
  | none ↦ none
  | some old ↦ some record {
    updated = new ∷ rest.updated;
    replaced = true;
    previous = first_given rest.previous (some old);
  }
]

unfoldable pub keep_item : Tag → Option Scan → Option Scan
keep_item item none = none
keep_item item (some rest) = some (record rest { updated = item ∷ rest.updated })

abbrev pub is_empty : Text → Bool
is_empty [] = true
is_empty (c ∷ cs) = false

-- None where the loop raises, since another tag has the new identifier.
unfoldable pub scan : Text → Tag → List Tag → Option Scan
unfolding put_in_place keep_item
scan original new [] = some record { updated = []; replaced = false; previous = none }
scan original new (item ∷ items) =
    let rest = scan original new items in
    let key = casefold (strip item.id_tag) in
    if not (is_empty original) && key == casefold original
    then put_in_place new item rest
    else if key == casefold new.id_tag
    then (if is_empty original then put_in_place new item rest else none)
    else keep_item item rest

-- An entry of `localAuthorizationList`; `withdraw` has no `idTagInfo`.
pub data Entry : Type 0 where
  withdraw : Text → Entry
  authorise : Text → Bool → Option Text → Entry

unfoldable pub local_authorization_entry : Tag → Entry
local_authorization_entry tag = authorise tag.id_tag tag.enabled tag.expires_at

abbrev pub same_flag : Bool → Bool → Bool
same_flag true flag = flag
same_flag false flag = not flag

unfoldable pub requires_ocpp_update : Option Tag → Tag → Text → Bool
requires_ocpp_update none current original = true
requires_ocpp_update (some previous) current original =
    (not (is_empty original) && not (casefold previous.id_tag == casefold current.id_tag))
    || (not (same_flag previous.enabled current.enabled)
        || not (or_empty previous.expires_at == or_empty current.expires_at))

-- The entries that a save sends.
unfoldable pub save_entries : Option Tag → Tag → List Entry
unfolding local_authorization_entry
save_entries none new = local_authorization_entry new ∷ []
save_entries (some previous) new =
    if casefold previous.id_tag == casefold new.id_tag
    then local_authorization_entry new ∷ []
    else withdraw previous.id_tag ∷ local_authorization_entry new ∷ []
