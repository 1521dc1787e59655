-- ===== src/Rfid/Examples.antt =====
-- The theorems on RFID tags at concrete tags.
use giv_evc_ocppv.Base.{
  Bool, none, some, ap, String, pos, true, false, [], ◌∷◌, ◌≡◌, refl, codes, strip, text_beq,
}
use giv_evc_ocppv.Rfid.{
  Tag, Tags, Request, Charger, done, rejected, version_reply, list_reply, withdraw, authorise,
  persist, save_rfid_tag, delete_rfid_tag, has_id, send_local_authorization_update, without_tag,
}
use giv_evc_ocppv.Rfid.Unique.{IsValid, Unique, save_rfid_tag-IsValid}
use giv_evc_ocppv.Rfid.Outcomes.{save_rfid_tag-drops_changes, delete_rfid_tag-miscounted}

abbrev tag_named : String → Tag
tag_named id = record { id_tag = codes id; alias = none; expires_at = none; enabled = true }

abbrev as_before : Tag → Bool
as_before tag = tag.enabled

abbrev disabled : String → Tag
disabled id = record (tag_named id) { enabled = false }

abbrev two_tags : Tags
two_tags = persist (tag_named "AA01" ∷ tag_named "BB02" ∷ [])

abbrev request_for : String → String → Request
request_for original id = record {
  original = codes original;
  given_id = codes id;
  given_alias = [];
  given_expiry = [];
  given_enabled = true;
}

abbrev ready : Charger
ready = record {
  to_version = version_reply (some (pos 4));
  to_list = list_reply (codes "Accepted");
}

abbrev quiet : Tags → Tags
quiet tags = tags

-- Another task saves a third tag.
abbrev adds_third : Tags → Tags
adds_third tags = persist (tag_named "CC03" ∷ tags.live)

two_tags-IsValid : IsValid two_tags
unfolding Unique text_beq
two_tags-IsValid = record { live_unique = (refl, (refl, tt)); stored_unique = (refl, (refl, tt)) }

adds_third-IsValid : IsValid (adds_third two_tags)
unfolding Unique text_beq
adds_third-IsValid = record {
  live_unique = (refl, (refl, (refl, tt)));
  stored_unique = (refl, (refl, (refl, tt)));
}

save_rfid_tag-IsValid_example :
    IsValid (save_rfid_tag (request_for "AA01" "AA99") ready as_before adds_third two_tags).1
save_rfid_tag-IsValid_example =
    save_rfid_tag-IsValid ready as_before adds_third two_tags two_tags-IsValid adds_third-IsValid
      (request_for "AA01" "AA99")

-- The new identifier of one tag is another's, in capitals.
a_clash : (save_rfid_tag (request_for "AA01" "bb02") ready as_before quiet two_tags).0 ≡ rejected
unfolding save_rfid_tag strip text_beq
a_clash = refl

a_save : (save_rfid_tag (request_for "" "DD04") ready as_before adds_third two_tags) ≡ (
  done
      (tag_named "DD04")
      (some record { list_version = 5; entries = authorise (codes "DD04") true none ∷ [] }),
  persist (tag_named "AA01" ∷ tag_named "BB02" ∷ tag_named "DD04" ∷ []),
)
unfolding save_rfid_tag strip text_beq
a_save = refl

save_rfid_tag-drops_changes_example :
    save_rfid_tag (request_for "" "DD04") ready as_before quiet two_tags
    ≡ save_rfid_tag (request_for "" "DD04") ready as_before adds_third two_tags
save_rfid_tag-drops_changes_example =
    save_rfid_tag-drops_changes ready as_before adds_third quiet two_tags (tag_named "DD04")
      (some record { list_version = 5; entries = authorise (codes "DD04") true none ∷ [] })
      (request_for "" "DD04") (ap (λ r. r.0) a_save)

-- A tag that another task disables during the call stays disabled.
a_save_keeps_flag :
    (save_rfid_tag (request_for "" "DD04") ready (λ tag. false) quiet two_tags).1
    ≡ persist (disabled "AA01" ∷ disabled "BB02" ∷ tag_named "DD04" ∷ [])
unfolding save_rfid_tag strip text_beq
a_save_keeps_flag = refl

a_deletion :
    (delete_rfid_tag (codes "AA01") ready quiet two_tags).0
    ≡ done
        (tag_named "AA01")
        (some record { list_version = 5; entries = withdraw (codes "AA01") ∷ [] })
unfolding delete_rfid_tag strip text_beq
a_deletion = refl

delete_rfid_tag-miscounted_example :
    (let result = delete_rfid_tag (codes "AA01") ready adds_third two_tags in
      (result.0 ≡ rejected)
      × (has_id (codes "AA01") result.1.live ≡ false)
      × (result.1.stored ≡ (adds_third two_tags).stored))
unfolding send_local_authorization_update strip text_beq without_tag
delete_rfid_tag-miscounted_example =
    delete_rfid_tag-miscounted ready adds_third two_tags (codes "AA01") (tag_named "AA01")
      record { list_version = 5; entries = withdraw (codes "AA01") ∷ [] } refl refl refl
