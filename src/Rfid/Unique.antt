-- ===== src/Rfid/Unique.antt =====
-- The identifiers of a charger's RFID tags stay different under the operations of
-- givEVC-ocppv2/app/ocpp/coordinator.py.
use giv_evc_ocppv.Base.{
  ℕ, map, nat_comparable, Bool, true, false, Option, none, some, List, [], ◌∷◌, ◌≡◌, refl, ap, ◌∙◌,
  Text, arith, inl, inr, Bool-cases, Option-cases, ◌==◌, strip, length, text_comparable,
  text_beq_sound, beq_self,
}
use giv_evc_ocppv.Rfid.{
  Scan, Message, withdraw, save_sent, save_scanned, save_normalised, delete_sent, delete_found,
  find_tag, send_local_authorization_update, set_enabled_sent, set_enabled_changed,
  set_enabled_found, same_flag, local_authorization_entry, Tag, Tags, Request, Charger, has_id,
  request_of, normalise_rfid_tag, normalise_loop, normalise_rfid_tag_list, save_rfid_tag,
  save_message, scan, updated_tags, with_flag, without_tag, delete_rfid_tag, finish_delete,
  set_enabled_in, set_rfid_tag_enabled, finish_set_enabled,
}

-- No two tags of the list have one identifier.
unfoldable pub Unique : List Tag → Type 0
Unique [] = Unit
Unique (tag ∷ tags) = (has_id tag.id_tag tags ≡ false) × Unique tags

-- The identifiers are different in memory and in the store.
pub record IsValid (tags : Tags) : Type 0 where
  pub live_unique : Unique tags.live
  pub stored_unique : Unique tags.stored

normalise_loop-fresh :
    (id : Text) (seen rest : List Tag)
    → has_id id seen ≡ true
    → has_id id (normalise_loop seen rest) ≡ false
unfolding normalise_loop strip
normalise_loop-fresh id seen [] h = refl
normalise_loop-fresh id seen (raw ∷ rest) h =
    elim (Option-cases (normalise_rfid_tag (request_of raw))) [
      | inl empty ↦ rw empty (normalise_loop-fresh id seen rest h)
      | inr (item, given) ↦ rw given (elim (Bool-cases (has_id item.id_tag seen)) [
        | inl known ↦ rw known (normalise_loop-fresh id seen rest h)
        | inr new ↦ rw new (elim (Bool-cases (item.id_tag == id)) [
          | inl equal ↦ cc (ap (λ x. has_id x seen) (text_beq_sound item.id_tag id equal))
          | inr differ ↦ rw differ (normalise_loop-fresh id (item ∷ seen) rest (ground (arith, h)))
        ])
      ])
    ]

normalise_loop-Unique : (seen rest : List Tag) → Unique (normalise_loop seen rest)
unfolding normalise_loop strip Unique
normalise_loop-Unique seen [] = tt
normalise_loop-Unique seen (raw ∷ rest) =
    elim (Option-cases (normalise_rfid_tag (request_of raw))) [
      | inl empty ↦ rw empty (normalise_loop-Unique seen rest)
      | inr (item, given) ↦ rw given (elim (Bool-cases (has_id item.id_tag seen)) [
        | inl known ↦ rw known (normalise_loop-Unique seen rest)
        | inr new ↦ rw new (
          normalise_loop-fresh item.id_tag (item ∷ seen) rest
              (ground (arith, beq_self item.id_tag)),
          normalise_loop-Unique (item ∷ seen) rest,
        )
      ])
    ]

has_id-without_tag :
    (id other : Text) (tags : List Tag)
    → has_id other tags ≡ false
    → has_id other (without_tag id tags) ≡ false
unfolding without_tag
has_id-without_tag id other [] h = refl
has_id-without_tag id other (tag ∷ tags) h = ground (arith, has_id-without_tag id other tags)

without_tag-Unique : (id : Text) (tags : List Tag) → Unique tags → Unique (without_tag id tags)
unfolding without_tag Unique
without_tag-Unique id [] h = tt
without_tag-Unique id (tag ∷ tags) h = elim (Bool-cases (tag.id_tag == id)) [
  | inl equal ↦ rw equal (without_tag-Unique id tags h.1)
  | inr differ ↦
      rw differ (has_id-without_tag id tag.id_tag tags h.0, without_tag-Unique id tags h.1)
]

has_id-set_enabled_in :
    (id other : Text) (enabled : Bool) (tags : List Tag)
    → has_id other (set_enabled_in id enabled tags) ≡ has_id other tags
unfolding set_enabled_in
has_id-set_enabled_in id other enabled [] = refl
has_id-set_enabled_in id other enabled (tag ∷ tags) =
    ground (arith, has_id-set_enabled_in id other enabled tags)

set_enabled_in-Unique :
    (id : Text) (enabled : Bool) (tags : List Tag)
    → Unique tags
    → Unique (set_enabled_in id enabled tags)
unfolding set_enabled_in Unique
set_enabled_in-Unique id enabled [] h = tt
set_enabled_in-Unique id enabled (tag ∷ tags) h = elim (Bool-cases (tag.id_tag == id)) [
  | inl equal ↦ rw equal h
  | inr differ ↦ rw differ (
    has_id-set_enabled_in id tag.id_tag enabled tags ∙ h.0,
    set_enabled_in-Unique id enabled tags h.1,
  )
]

module _ (charger : Charger) (flags : Tag → Bool) (meanwhile : Tags → Tags) (tags : Tags)
    (valid : IsValid tags) (valid_after : IsValid (meanwhile tags)) where
  save_sent-IsValid :
      (sent : Option (Option Message)) (new : Tag) (found : Scan)
      → IsValid (save_sent sent new found flags meanwhile tags).1
  unfolding save_sent normalise_rfid_tag_list
  save_sent-IsValid none new found = valid_after
  save_sent-IsValid (some message) new found =
      let unique = normalise_loop-Unique [] (map (with_flag flags new) (updated_tags new found)) in
      record { live_unique = unique; stored_unique = unique }

  save_scanned-IsValid :
      (found : Option Scan) (new : Tag) (original : Text)
      → IsValid (save_scanned found new original charger flags meanwhile tags).1
  unfolding save_scanned
  save_scanned-IsValid none new original = valid
  save_scanned-IsValid (some found) new original =
      save_sent-IsValid (save_message charger new original found.previous) new found

  save_normalised-IsValid :
      (new : Option Tag) (original : Text)
      → IsValid (save_normalised new original charger flags meanwhile tags).1
  unfolding save_normalised
  save_normalised-IsValid none original = valid
  save_normalised-IsValid (some new) original =
      save_scanned-IsValid (scan original new tags.live) new original

  -- A save leaves tags with different identifiers, in memory and in the store, however it ends, when
  -- the tags were such before and what happens during the call leaves such.
  pub save_rfid_tag-IsValid :
      (request : Request) → IsValid (save_rfid_tag request charger flags meanwhile tags).1
  unfolding save_rfid_tag
  save_rfid_tag-IsValid request =
      save_normalised-IsValid (normalise_rfid_tag request) (strip request.original)

  finish_delete-IsValid :
      (id : Text) (target : Tag) (message : Message) (before : ℕ) (now : Tags)
      → IsValid now
      → IsValid (finish_delete id target message before now).1
  unfolding finish_delete
  finish_delete-IsValid id target message before now h =
      let unique = without_tag-Unique id now.live h.live_unique in
      elim (Bool-cases (length (without_tag id now.live) == before)) [
        | inl kept ↦ rw kept (record { live_unique = unique; stored_unique = h.stored_unique })
        | inr less ↦ rw less (record { live_unique = unique; stored_unique = unique })
      ]

  delete_found-IsValid :
      (id : Text) (target : Option Tag) → IsValid (delete_found target id charger meanwhile tags).1
  unfolding delete_found delete_sent
  delete_found-IsValid id none = valid
  delete_found-IsValid id (some target) =
      elim (send_local_authorization_update charger (withdraw target.id_tag ∷ []))
        as (λ sent. IsValid (delete_sent sent id target meanwhile tags).1) [
          | none ↦ valid_after
          | some message ↦
              finish_delete-IsValid id target message (length tags.live) (meanwhile tags)
                valid_after
        ]

  -- A deletion leaves tags with different identifiers, in memory and in the store, however it ends,
  -- when the tags were such before and what happens during the call leaves such.
  pub delete_rfid_tag-IsValid : (id : Text) → IsValid (delete_rfid_tag id charger meanwhile tags).1
  unfolding delete_rfid_tag
  delete_rfid_tag-IsValid id = delete_found-IsValid id (find_tag id tags.live)

  finish_set_enabled-IsValid :
      (id : Text) (enabled : Bool) (target : Tag) (message : Option Message) (now : Tags)
      → IsValid now
      → IsValid (finish_set_enabled id enabled target message now).1
  unfolding finish_set_enabled
  finish_set_enabled-IsValid id enabled target message now h =
      let unique = set_enabled_in-Unique id enabled now.live h.live_unique in
      record { live_unique = unique; stored_unique = unique }

  set_enabled_changed-IsValid :
      (id : Text) (enabled : Bool) (target : Tag) (changed : Option Tag)
      → IsValid (set_enabled_changed changed id enabled target charger meanwhile tags).1
  unfolding set_enabled_changed set_enabled_sent
  set_enabled_changed-IsValid id enabled target none = valid
  set_enabled_changed-IsValid id enabled target (some changed) =
      elim (send_local_authorization_update charger (local_authorization_entry changed ∷ []))
        as (λ sent. IsValid (set_enabled_sent sent id enabled target meanwhile tags).1) [
          | none ↦ valid_after
          | some message ↦
              finish_set_enabled-IsValid id enabled target (some message) (meanwhile tags)
                valid_after
        ]

  set_enabled_found-IsValid :
      (id : Text) (enabled : Bool) (target : Option Tag)
      → IsValid (set_enabled_found target id enabled charger meanwhile tags).1
  unfolding set_enabled_found
  set_enabled_found-IsValid id enabled none = valid
  set_enabled_found-IsValid id enabled (some target) =
      elim (Bool-cases (same_flag target.enabled enabled)) [
        | inl equal ↦ rw equal (finish_set_enabled-IsValid id enabled target none tags valid)
        | inr differ ↦ rw differ (
            set_enabled_changed-IsValid id enabled target
              (normalise_rfid_tag (request_of (record target { enabled = enabled }))))
      ]

  -- Enabling or disabling a tag leaves tags with different identifiers, in memory and in the store,
  -- however it ends, when the tags were such before and what happens during the call leaves such.
  pub set_rfid_tag_enabled-IsValid :
      (id : Text) (enabled : Bool)
      → IsValid (set_rfid_tag_enabled id enabled charger meanwhile tags).1
  unfolding set_rfid_tag_enabled
  set_rfid_tag_enabled-IsValid id enabled =
      set_enabled_found-IsValid id enabled (find_tag id tags.live)
