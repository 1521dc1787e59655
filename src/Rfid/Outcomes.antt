-- ===== src/Rfid/Outcomes.antt =====
-- How the operations on RFID tags in givEVC-ocppv2/app/ocpp/coordinator.py end, and what other tasks'
-- changes during their calls come to.
use giv_evc_ocppv.Base.{
  Bool, true, false, Option, none, some, List, [], ◌∷◌, ◌≡◌, refl, Text, arith, length, ◌==◌,
  nat_comparable, text_comparable, strip,
}
use giv_evc_ocppv.Rfid.{
  Tag, Tags, Request, Charger, Message, Scan, done, rejected, has_id, withdraw, scan, save_rfid_tag,
  save_normalised, save_scanned, save_sent, save_message, normalise_rfid_tag, without_tag, find_tag,
  delete_rfid_tag, delete_found, delete_sent, finish_delete, send_local_authorization_update,
}

module _ (charger : Charger) (flags : Tag → Bool) (meanwhile other : Tags → Tags) (tags : Tags)
    (tag : Tag) (message : Option Message) where
  drops_sent :
      (sent : Option (Option Message)) (new : Tag) (found : Scan)
      → (save_sent sent new found flags meanwhile tags).0 ≡ done tag message
      → save_sent sent new found flags other tags ≡ save_sent sent new found flags meanwhile tags
  unfolding save_sent
  drops_sent none new found h = cc
  drops_sent (some m) new found h = refl

  drops_scanned :
      (found : Option Scan) (new : Tag) (original : Text)
      → (save_scanned found new original charger flags meanwhile tags).0 ≡ done tag message
      → save_scanned found new original charger flags other tags
        ≡ save_scanned found new original charger flags meanwhile tags
  unfolding save_scanned
  drops_scanned none new original h = refl
  drops_scanned (some found) new original h =
      drops_sent (save_message charger new original found.previous) new found h

  drops_normalised :
      (new : Option Tag) (original : Text)
      → (save_normalised new original charger flags meanwhile tags).0 ≡ done tag message
      → save_normalised new original charger flags other tags
        ≡ save_normalised new original charger flags meanwhile tags
  unfolding save_normalised
  drops_normalised none original h = refl
  drops_normalised (some new) original h =
      drops_scanned (scan original new tags.live) new original h

  -- A save that is done leaves the same tags for any two courses of other tasks' operations during
  -- its call that leave the same flag `enabled` in each dict of the list before it: the tags that they
  -- add, delete or rename are lost.
  pub save_rfid_tag-drops_changes :
      (request : Request)
      → (save_rfid_tag request charger flags meanwhile tags).0 ≡ done tag message
      → save_rfid_tag request charger flags other tags
        ≡ save_rfid_tag request charger flags meanwhile tags
  unfolding save_rfid_tag
  save_rfid_tag-drops_changes request h =
      drops_normalised (normalise_rfid_tag request) (strip request.original) h

without_tag-absent : (id : Text) (tags : List Tag) → has_id id (without_tag id tags) ≡ false
unfolding without_tag
without_tag-absent id [] = refl
without_tag-absent id (tag ∷ tags) = ground (arith, without_tag-absent id tags)

-- A deletion whose call was accepted, and during which other tasks added as many tags as it removes,
-- is reported as refused although the tag is gone, and is not stored.
pub delete_rfid_tag-miscounted :
    (charger : Charger) (meanwhile : Tags → Tags) (tags : Tags) (id : Text) (target : Tag)
    (sent : Message)
    → find_tag id tags.live ≡ some target
    → send_local_authorization_update charger (withdraw target.id_tag ∷ []) ≡ some sent
    → length (without_tag id (meanwhile tags).live) ≡ length tags.live
    → (let result = delete_rfid_tag id charger meanwhile tags in
        (result.0 ≡ rejected)
        × (has_id id result.1.live ≡ false)
        × (result.1.stored ≡ (meanwhile tags).stored))
unfolding delete_rfid_tag delete_found delete_sent finish_delete
delete_rfid_tag-miscounted charger meanwhile tags id target sent found accepted same =
    let count : (length (without_tag id (meanwhile tags).live) == length tags.live) ≡ true =
      ground arith in
    rw (found, accepted, count) (refl, without_tag-absent id (meanwhile tags).live, refl)
